-- ===== src/Protocol/Validate/Utf8/Meaning.antt =====
-- What passes is the encoding of scalar values.
use airusb_hub.Base.{
  ℕ, zero, suc, ◌+◌, ◌*◌, ◌/◌, ◌%◌, ◌≤◌, ◌<◌, ◌≡◌, ◌∙◌, ◌↔◌, inl, inr, refl, sym, ap, subst, true,
  false, Option, none, some, List, [], ◌∷◌, ◌++◌, arith, ltb, ◌==◌, length, All, Bool-cases,
  Option-cases,
}
use airusb_hub.Protocol.Validate.Utf8.{
  continuation, fits, one_character, again, utf8_loop, IsScalar, utf8_of, text_of, is_valid_utf8,
}
use airusb_hub.Protocol.Validate.Utf8.Accepts.{
  continuation-some, fits-some, one_character-two, one_character-three, one_character-four,
  utf8_loop-turn, text_of-valid,
}

-- What one turn passes is the encoding of a scalar value.
abbrev Passes : List ℕ → List ℕ → Type 0
Passes t s = (cp : ℕ) × IsScalar cp × (t ≡ utf8_of cp ++ s)

utf8_of-two :
    (a b v : ℕ)
    → v ≡ a * 64 + b
    → a < 32
    → b < 64
    → 0x80 ≤ v
    → utf8_of v ≡ (0xC0 + a) ∷ (0x80 + b) ∷ []
unfolding utf8_of
utf8_of-two a b v e ha hb low =
    let more : ltb v 0x80 ≡ false = ground arith in
    let two : ltb v 0x800 ≡ true = ground arith in
    let t0 : v / 64 ≡ a = omega arith in
    let t1 : v % 64 ≡ b = omega arith in rw (more, two, t0, t1) refl

utf8_of-three :
    (a b c v : ℕ)
    → v ≡ (a * 64 + b) * 64 + c
    → a < 16
    → b < 64
    → c < 64
    → 0x800 ≤ v
    → utf8_of v ≡ (0xE0 + a) ∷ (0x80 + b) ∷ (0x80 + c) ∷ []
unfolding utf8_of
utf8_of-three a b c v e ha hb hc low =
    let more : ltb v 0x80 ≡ false = ground arith in
    let above : ltb v 0x800 ≡ false = ground arith in
    let three : ltb v 0x10000 ≡ true = ground arith in
    let t0 : v / 4096 ≡ a = omega arith in
    let t1 : v / 64 % 64 ≡ b = omega arith in
    let t2 : v % 64 ≡ c = omega arith in rw (more, above, three, t0, t1, t2) refl

utf8_of-four :
    (a b c d v : ℕ)
    → v ≡ ((a * 64 + b) * 64 + c) * 64 + d
    → b < 64
    → c < 64
    → d < 64
    → 0x10000 ≤ v
    → utf8_of v ≡ (0xF0 + a) ∷ (0x80 + b) ∷ (0x80 + c) ∷ (0x80 + d) ∷ []
unfolding utf8_of
utf8_of-four a b c d v e hb hc hd low =
    let more : ltb v 0x80 ≡ false = ground arith in
    let above : ltb v 0x800 ≡ false = ground arith in
    let four : ltb v 0x10000 ≡ false = ground arith in
    let t0 : v / 262144 ≡ a = omega arith in
    let t1 : v / 4096 % 64 ≡ b = omega arith in
    let t2 : v / 64 % 64 ≡ c = omega arith in
    let t3 : v % 64 ≡ d = omega arith in rw (more, above, four, t0, t1, t2, t3) refl

continuation-zero :
    (x cp : ℕ) (t s : List ℕ) → continuation 0 x t ≡ some (cp, s) → (cp ≡ x) × (t ≡ s)
unfolding continuation
continuation-zero x cp t s e =
    let read : ◌≡◌ {A = Option (ℕ × List ℕ)} (some (x, t)) (some (cp, s)) = e in (cc, cc)

two_bytes-Passes :
    (a : ℕ) (t s : List ℕ)
    → a < 32
    → fits 0x80 (continuation 1 a t) ≡ some s
    → Passes ((0xC0 + a) ∷ t) s
two_bytes-Passes a t s ha e =
    let (v, read, least, range, plain) = fits-some 0x80 (continuation 1 a t) s e in
    let (b, t1, hb, is_b, read1) = continuation-some 0 a t (v, s) read in
    let (value, left) = continuation-zero (a * 64 + b) v t1 s read1 in
    (
      v,
      (omega arith, range, plain),
      ap (λ x. (0xC0 + a) ∷ x) (is_b ∙ ap (λ x. (0x80 + b) ∷ x) left)
          ∙ ap (λ x. x ++ s) (sym (utf8_of-two a b v value ha hb least)),
    )

three_bytes-Passes :
    (a : ℕ) (t s : List ℕ)
    → a < 16
    → fits 0x800 (continuation 2 a t) ≡ some s
    → Passes ((0xE0 + a) ∷ t) s
three_bytes-Passes a t s ha e =
    let (v, read, least, range, plain) = fits-some 0x800 (continuation 2 a t) s e in
    let (b, t1, hb, is_b, read1) = continuation-some 1 a t (v, s) read in
    let (c, t2, hc, is_c, read2) = continuation-some 0 (a * 64 + b) t1 (v, s) read1 in
    let (value, left) = continuation-zero ((a * 64 + b) * 64 + c) v t2 s read2 in
    (
      v,
      (omega arith, range, plain),
      ap (λ x. (0xE0 + a) ∷ x)
            (is_b ∙ ap (λ x. (0x80 + b) ∷ x) (is_c ∙ ap (λ x. (0x80 + c) ∷ x) left))
          ∙ ap (λ x. x ++ s) (sym (utf8_of-three a b c v value ha hb hc least)),
    )

four_bytes-Passes :
    (a : ℕ) (t s : List ℕ) → fits 0x10000 (continuation 3 a t) ≡ some s → Passes ((0xF0 + a) ∷ t) s
four_bytes-Passes a t s e =
    let (v, read, least, range, plain) = fits-some 0x10000 (continuation 3 a t) s e in
    let (b, t1, hb, is_b, read1) = continuation-some 2 a t (v, s) read in
    let (c, t2, hc, is_c, read2) = continuation-some 1 (a * 64 + b) t1 (v, s) read1 in
    let (d, t3, hd, is_d, read3) = continuation-some 0 ((a * 64 + b) * 64 + c) t2 (v, s) read2 in
    let (value, left) = continuation-zero (((a * 64 + b) * 64 + c) * 64 + d) v t3 s read3 in
    (
      v,
      (omega arith, range, plain),
      ap (λ x. (0xF0 + a) ∷ x)
            (is_b
              ∙ ap (λ x. (0x80 + b) ∷ x)
                  (is_c ∙ ap (λ x. (0x80 + c) ∷ x) (is_d ∙ ap (λ x. (0x80 + d) ∷ x) left)))
          ∙ ap (λ x. x ++ s) (sym (utf8_of-four a b c d v value hb hc hd least)),
    )

one_byte-Passes :
    (c : ℕ) (t s : List ℕ)
    → (c == 0) ≡ false
    → ltb c 0x80 ≡ true
    → one_character c t ≡ some s
    → Passes (c ∷ t) s
unfolding one_character utf8_of
one_byte-Passes c t s n0 one e =
    let same : some t ≡ some s = ground (arith, e, n0, one) in
    let left : t ≡ s = cc in
    (
      c,
      (ground (arith, n0), ground (arith, one), inl (ground (arith, one))),
      simp one (ap (λ x. c ∷ x) left),
    )

bad_lead :
    (c : ℕ) (t : List ℕ)
    → ltb c 0x80 ≡ false
    → (c / 32 == 6) ≡ false
    → (c / 16 == 14) ≡ false
    → (c / 8 == 30) ≡ false
    → one_character c t ≡ none
unfolding one_character
bad_lead c t more two three four = ground (arith, more, two, three, four)

-- The lead byte decides how many follow.
multi-Passes :
    (c : ℕ) (t s : List ℕ) → ltb c 0x80 ≡ false → one_character c t ≡ some s → Passes (c ∷ t) s
multi-Passes c t s more e = elim (Bool-cases (c / 32 == 6)) [
  | inl two ↦
      let lead : c ≡ 0xC0 + c % 32 = ground (arith, two) in
      let same : one_character (0xC0 + c % 32) t ≡ some s =
        ap (λ x. one_character x t) (sym lead) ∙ e in
      subst (λ x. Passes (x ∷ t) s) (sym lead)
        (two_bytes-Passes (c % 32) t s (omega arith)
          (sym (one_character-two (c % 32) t (omega arith)) ∙ same))
  | inr not_two ↦ elim (Bool-cases (c / 16 == 14)) [
    | inl three ↦
        let lead : c ≡ 0xE0 + c % 16 = ground (arith, three) in
        let same : one_character (0xE0 + c % 16) t ≡ some s =
          ap (λ x. one_character x t) (sym lead) ∙ e in
        subst (λ x. Passes (x ∷ t) s) (sym lead)
          (three_bytes-Passes (c % 16) t s (omega arith)
            (sym (one_character-three (c % 16) t (omega arith)) ∙ same))
    | inr not_three ↦ elim (Bool-cases (c / 8 == 30)) [
      | inl four ↦
          let lead : c ≡ 0xF0 + c % 8 = ground (arith, four) in
          let same : one_character (0xF0 + c % 8) t ≡ some s =
            ap (λ x. one_character x t) (sym lead) ∙ e in
          subst (λ x. Passes (x ∷ t) s) (sym lead)
            (four_bytes-Passes (c % 8) t s
              (sym (one_character-four (c % 8) t (omega arith)) ∙ same))
      | inr not_four ↦ absurd (cc (bad_lead c t more not_two not_three not_four))
    ]
  ]
]

nul-none : (c : ℕ) (t : List ℕ) → (c == 0) ≡ true → one_character c t ≡ none
unfolding one_character
nul-none c t nul = rw nul refl

one_character-Passes : (c : ℕ) (t s : List ℕ) → one_character c t ≡ some s → Passes (c ∷ t) s
one_character-Passes c t s e = elim (Bool-cases (c == 0)) [
  | inl nul ↦ absurd (cc (nul-none c t nul))
  | inr not_nul ↦ elim (Bool-cases (ltb c 0x80)) [
    | inl one ↦ one_byte-Passes c t s not_nul one e
    | inr more ↦ multi-Passes c t s more e
  ]
]

loop-text_of :
    (fuel : ℕ) (s : List ℕ)
    → utf8_loop fuel s ≡ true
    → (cps : List ℕ) × All IsScalar cps × (text_of cps ≡ s)
unfolding utf8_loop again text_of
loop-text_of zero [] e = ([], tt, refl)
loop-text_of (suc fuel) [] e = ([], tt, refl)
loop-text_of zero (c ∷ t) e = absurd (cc)
loop-text_of (suc fuel) (c ∷ t) e = elim (Option-cases (one_character c t)) [
  | inl stops ↦ absurd (cc (rw stops at e))
  | inr (rest, turn) ↦
      let (cp, scalar, here) = one_character-Passes c t rest turn in
      let (cps, scalars, there) =
        loop-text_of fuel rest (sym (utf8_loop-turn fuel c t rest turn) ∙ e) in
      (cp ∷ cps, (scalar, scalars), ap (λ x. utf8_of cp ++ x) there ∙ sym here)
]

-- The test passes exactly the byte strings that encode, one behind the other and each in its
-- shortest form, Unicode scalar values other than NUL: no overlong form, no surrogate, nothing from
-- 0x110000 on, no truncated sequence.
pub is_valid_utf8_iff :
    (s : List ℕ)
    → (is_valid_utf8 s ≡ true) ↔ ((cps : List ℕ) × All IsScalar cps × (text_of cps ≡ s))
unfolding is_valid_utf8
is_valid_utf8_iff s = (
  loop-text_of (length s) s,
  λ (cps, scalars, whole).
      subst (λ t. utf8_loop (length t) t ≡ true) whole
        (text_of-valid cps (length (text_of cps)) scalars (omega arith)),
)

-- ===== src/Protocol/Validate/Utf8/Accepts.antt =====
-- The encoding of a scalar value passes, in one turn of the loop.
use airusb_hub.Base.{
  ℕ, zero, suc, ◌+◌, ◌*◌, ◌/◌, ◌%◌, ◌≤◌, ◌<◌, ◌≡◌, ◌∙◌, ◌⊎◌, inl, inr, refl, ap, true, false,
  Option, none, some, List, [], ◌∷◌, ◌++◌, arith, ltb, ◌==◌, length, All, Bool-cases,
}
use airusb_hub.Protocol.Validate.Utf8.{
  continuation, fits, one_character, again, utf8_loop, IsScalar, utf8_of, text_of,
}

continuation-low :
    (extra cp low : ℕ) (s : List ℕ)
    → low < 64
    → continuation (suc extra) cp ((0x80 + low) ∷ s) ≡ continuation extra (cp * 64 + low) s
unfolding continuation
continuation-low extra cp low s h =
    let top : ((0x80 + low) / 64 == 2) ≡ true = ground arith in
    let rest : (0x80 + low) % 64 ≡ low = omega arith in rw (top, rest) refl

pub continuation-some :
    (extra cp : ℕ) (t : List ℕ) (r : ℕ × List ℕ)
    → continuation (suc extra) cp t ≡ some r
    → (low : ℕ) × (s : List ℕ) × (low < 64)
      × (t ≡ (0x80 + low) ∷ s)
      × (continuation extra (cp * 64 + low) s ≡ some r)
unfolding continuation
continuation-some extra cp [] r e = absurd (cc)
continuation-some extra cp (b ∷ s) r e = elim (Bool-cases (b / 64 == 2)) [
  | inr bad ↦ absurd (cc (rw bad at e))
  | inl good ↦
      let range : b / 64 ≡ 2 = ground (arith, good) in
      let whole : b ≡ 0x80 + b % 64 = omega arith in
      (b % 64, s, omega arith, ap (λ x. x ∷ s) whole, (rw good at e))
]

fits-scalar :
    (least cp : ℕ) (s : List ℕ) → IsScalar cp → least ≤ cp → fits least (some (cp, s)) ≡ some s
unfolding fits
fits-scalar least cp s h l = ground (arith, h)

fits_tail : (least cp : ℕ) (t s : List ℕ) → fits least (some (cp, t)) ≡ some s → t ≡ s
unfolding fits
fits_tail least cp t s e = let same : some t ≡ some s = ground (arith, e) in cc

pub fits-some :
    (least : ℕ) (r : Option (ℕ × List ℕ)) (s : List ℕ)
    → fits least r ≡ some s
    → (cp : ℕ) × (r ≡ some (cp, s))
      × (least ≤ cp)
      × (cp ≤ 0x10FFFF)
      × ((cp < 0xD800) ⊎ (0xDFFF < cp))
unfolding fits
fits-some least none s e = absurd (cc)
fits-some least (some (cp, t)) s e = (
  cp,
  ap (λ x. some (cp, x)) (fits_tail least cp t s e),
  ground (arith, e),
  ground (arith, e),
  ground (arith, e),
)

-- The lead bytes.
pub one_character-two :
    (top : ℕ) (s : List ℕ)
    → top < 32
    → one_character (0xC0 + top) s ≡ fits 0x80 (continuation 1 top s)
unfolding one_character
one_character-two top s h =
    let e2 : ((0xC0 + top) / 32 == 6) ≡ true = ground arith in
    let low : (0xC0 + top) % 32 ≡ top = omega arith in rw (e2, low) (ground arith)

pub one_character-three :
    (top : ℕ) (s : List ℕ)
    → top < 16
    → one_character (0xE0 + top) s ≡ fits 0x800 (continuation 2 top s)
unfolding one_character
one_character-three top s h =
    let e1 : ((0xE0 + top) / 32 == 6) ≡ false = ground arith in
    let e2 : ((0xE0 + top) / 16 == 14) ≡ true = ground arith in
    let low : (0xE0 + top) % 16 ≡ top = omega arith in rw (e1, e2, low) (ground arith)

pub one_character-four :
    (top : ℕ) (s : List ℕ)
    → top < 8
    → one_character (0xF0 + top) s ≡ fits 0x10000 (continuation 3 top s)
unfolding one_character
one_character-four top s h =
    let e1 : ((0xF0 + top) / 32 == 6) ≡ false = ground arith in
    let e2 : ((0xF0 + top) / 16 == 14) ≡ false = ground arith in
    let e3 : ((0xF0 + top) / 8 == 30) ≡ true = ground arith in
    let low : (0xF0 + top) % 8 ≡ top = omega arith in rw (e1, e2, e3, low) (ground arith)

-- The encoding of a scalar value is one turn of the loop.
abbrev Turns : ℕ → List ℕ → Type 0
Turns cp s = (c : ℕ) × (t : List ℕ) × (utf8_of cp ++ s ≡ c ∷ t) × (one_character c t ≡ some s)

fits-done :
    (least x cp : ℕ) (s : List ℕ)
    → x ≡ cp
    → IsScalar cp
    → least ≤ cp
    → fits least (continuation 0 x s) ≡ some s
unfolding continuation
fits-done least x cp s e h l = ap (λ y. fits least (some (y, s))) e ∙ fits-scalar least cp s h l

two_bytes-turn :
    (cp : ℕ) (s : List ℕ)
    → IsScalar cp
    → 0x80 ≤ cp
    → cp < 0x800
    → one_character (0xC0 + cp / 64) ((0x80 + cp % 64) ∷ s) ≡ some s
two_bytes-turn cp s h low high =
    one_character-two (cp / 64) ((0x80 + cp % 64) ∷ s) (omega arith)
    ∙ ap (fits 0x80) (continuation-low 0 (cp / 64) (cp % 64) s (omega arith))
    ∙ fits-done 0x80 (cp / 64 * 64 + cp % 64) cp s (omega arith) h low

three_bytes-turn :
    (cp : ℕ) (s : List ℕ)
    → IsScalar cp
    → 0x800 ≤ cp
    → cp < 0x10000
    → one_character (0xE0 + cp / 4096) ((0x80 + cp / 64 % 64) ∷ (0x80 + cp % 64) ∷ s) ≡ some s
three_bytes-turn cp s h low high =
    let top : ℕ = cp / 4096 in
    let mid : ℕ = cp / 64 % 64 in
    let end : ℕ = cp % 64 in
    one_character-three top ((0x80 + mid) ∷ (0x80 + end) ∷ s) (omega arith)
    ∙ ap (fits 0x800) (
        continuation-low 1 top mid ((0x80 + end) ∷ s) (omega arith)
        ∙ continuation-low 0 (top * 64 + mid) end s (omega arith))
    ∙ fits-done 0x800 ((top * 64 + mid) * 64 + end) cp s (omega arith) h low

four_bytes-turn :
    (cp : ℕ) (s : List ℕ)
    → IsScalar cp
    → 0x10000 ≤ cp
    → one_character
        (0xF0 + cp / 262144)
        ((0x80 + cp / 4096 % 64) ∷ (0x80 + cp / 64 % 64) ∷ (0x80 + cp % 64) ∷ s)
      ≡ some s
four_bytes-turn cp s h low =
    let top : ℕ = cp / 262144 in
    let high : ℕ = cp / 4096 % 64 in
    let mid : ℕ = cp / 64 % 64 in
    let end : ℕ = cp % 64 in
    one_character-four top ((0x80 + high) ∷ (0x80 + mid) ∷ (0x80 + end) ∷ s) (omega (arith, h))
    ∙ ap (fits 0x10000) (
        continuation-low 2 top high ((0x80 + mid) ∷ (0x80 + end) ∷ s) (omega arith)
        ∙ continuation-low 1 (top * 64 + high) mid ((0x80 + end) ∷ s) (omega arith)
        ∙ continuation-low 0 ((top * 64 + high) * 64 + mid) end s (omega arith))
    ∙ fits-done 0x10000 (((top * 64 + high) * 64 + mid) * 64 + end) cp s (omega arith) h low

one_byte-turn :
    (cp : ℕ) (s : List ℕ) → IsScalar cp → ltb cp 0x80 ≡ true → one_character cp s ≡ some s
unfolding one_character
one_byte-turn cp s h one = ground (arith, h, one)

utf8_of-Turns : (cp : ℕ) (s : List ℕ) → IsScalar cp → Turns cp s
unfolding utf8_of
utf8_of-Turns cp s h = elim (Bool-cases (ltb cp 0x80)) [
  | inl one ↦ simp one (cp, s, refl, one_byte-turn cp s h one)
  | inr more ↦ elim (Bool-cases (ltb cp 0x800)) [
    | inl two ↦
        simp (more, two)
          (
            0xC0 + cp / 64,
            (0x80 + cp % 64) ∷ s,
            refl,
            two_bytes-turn cp s h (ground (arith, more)) (ground (arith, two)),
          )
    | inr above ↦ elim (Bool-cases (ltb cp 0x10000)) [
      | inl three ↦
          simp (more, above, three)
            (
              0xE0 + cp / 4096,
              (0x80 + cp / 64 % 64) ∷ (0x80 + cp % 64) ∷ s,
              refl,
              three_bytes-turn cp s h (ground (arith, above)) (ground (arith, three)),
            )
      | inr four ↦
          simp (more, above, four)
            (
              0xF0 + cp / 262144,
              (0x80 + cp / 4096 % 64) ∷ (0x80 + cp / 64 % 64) ∷ (0x80 + cp % 64) ∷ s,
              refl,
              four_bytes-turn cp s h (ground (arith, four)),
            )
    ]
  ]
]

length-Turns : (cp : ℕ) (s : List ℕ) → length s < length (utf8_of cp ++ s)
unfolding utf8_of
length-Turns cp s = ground (arith)

pub utf8_loop-turn :
    (fuel c : ℕ) (t s : List ℕ)
    → one_character c t ≡ some s
    → utf8_loop (suc fuel) (c ∷ t) ≡ utf8_loop fuel s
unfolding utf8_loop again
utf8_loop-turn fuel c t s e = ap (again (utf8_loop fuel)) e

utf8_loop-nil : (fuel : ℕ) → utf8_loop fuel [] ≡ true
unfolding utf8_loop
utf8_loop-nil zero = refl
utf8_loop-nil (suc fuel) = refl

pub text_of-valid :
    (cps : List ℕ) (fuel : ℕ)
    → All IsScalar cps
    → length (text_of cps) ≤ fuel
    → utf8_loop fuel (text_of cps) ≡ true
unfolding text_of
text_of-valid [] fuel h l = utf8_loop-nil fuel
text_of-valid (cp ∷ cps) zero h l = absurd (omega (arith, length-Turns cp (text_of cps)))
text_of-valid (cp ∷ cps) (suc fuel) (here, there) l =
    let (c, t, whole, turn) = utf8_of-Turns cp (text_of cps) here in
    ap (utf8_loop (suc fuel)) whole
    ∙ utf8_loop-turn fuel c t (text_of cps) turn
    ∙ text_of-valid cps fuel there (omega (arith, length-Turns cp (text_of cps)))

-- ===== src/Protocol/Codec/Tlvs.antt =====
-- Type-length-value runs: `appendTlv` and the walk `forEachTlv`.
use airusb_hub.Base.{
  ℕ, zero, suc, ◌≤◌, ◌≡◌, ◌≢◌, ◌^◌, ◌%◌, refl, subst, Bool, true, false, Option, none, some, List,
  [], ◌∷◌, ◌++◌, arith, ltb, if◌then◌else◌, length, IsU16, take, drop, All, length-append,
  length-drop, take-append, drop-append,
}
use airusb_hub.Protocol.Codec.{rd_u16, wr_u16, grow, u16_of-bytes}

pub record TlvView : Type 0 where
  pub type : ℕ
  pub value : List ℕ

-- The value is written whole, and the length in 16 bits.
unfoldable pub append_tlv : TlvView → List ℕ → List ℕ
append_tlv v out =
    let p = wr_u16 (grow 4) 0 v.type in (out ++ wr_u16 p 2 (length v.value % 2 ^ 16)) ++ v.value

-- The walk, with the callback as a function on the caller's state, whose flag is what the callback
-- returns. The list is what the cursor has not passed; `none` means that the fuel ran out.
module _ {ℓ} {S : Type ℓ} (fn : S → TlvView → S × Bool) where
  abbrev next_tlv : (S → List ℕ → Option (S × Bool)) → S → List ℕ → Option (S × Bool)
  next_tlv again s p =
      if ltb (length p) 4
      then some (s, false)
      else let rest = drop 4 p in
        let len = rd_u16 p 2 in
        if ltb (length rest) len
        then some (s, false)
        else let (s', go) = fn s (record { type = rd_u16 p 0; value = take len rest }) in
          if go then again s' (drop len rest) else some (s', false)

  tlv_loop : ℕ → S → List ℕ → Option (S × Bool)
  tlv_loop zero s [] = some (s, true)
  tlv_loop zero s (b ∷ p) = none
  tlv_loop (suc fuel) s [] = some (s, true)
  tlv_loop (suc fuel) s (b ∷ p) = next_tlv (tlv_loop fuel) s (b ∷ p)

  -- Each round passes four bytes at least, so `length p` rounds are enough.
  unfoldable pub for_each_tlv : S → List ℕ → Option (S × Bool)
  unfolding tlv_loop
  for_each_tlv s p = tlv_loop (length p) s p

abbrev pub IsTlv : TlvView → Type 0
IsTlv v = IsU16 v.type × IsU16 (length v.value)

pub encode_tlvs : List TlvView → List ℕ
unfolding append_tlv
encode_tlvs [] = []
encode_tlvs (v ∷ vs) = append_tlv v [] ++ encode_tlvs vs

module _ {ℓ} {S : Type ℓ} (fn : S → TlvView → S × Bool) where
  -- The callback on each view in turn, until it answers false.
  pub visit : S → List TlvView → S × Bool
  visit s [] = (s, true)
  visit s (v ∷ vs) =
      let rest = visit (fn s v).0 vs in if (fn s v).1 then rest else ((fn s v).0, false)

  next_tlv-append_tlv :
      (again : S → List ℕ → Option (S × Bool)) (s : S) (v : TlvView) (rest : List ℕ)
      → IsTlv v
      → next_tlv fn again s (append_tlv v [] ++ rest)
        ≡ (if (fn s v).1 then again (fn s v).0 rest else some ((fn s v).0, false))
  unfolding append_tlv
  next_tlv-append_tlv again s v rest h =
      let size : length v.value % 2 ^ 16 ≡ length v.value = omega arith in
      rw
        (
          size,
          u16_of-bytes v.type h.0,
          u16_of-bytes (length v.value) h.1,
          take-append v.value rest,
          drop-append v.value rest,
        )
        (ground (arith, length-append v.value rest))

  tlv_loop-encode_tlvs :
      (fuel : ℕ) (s : S) (vs : List TlvView)
      → All IsTlv vs
      → length (encode_tlvs vs) ≤ fuel
      → tlv_loop fn fuel s (encode_tlvs vs) ≡ some (visit s vs)
  unfolding tlv_loop visit encode_tlvs
  tlv_loop-encode_tlvs zero s [] h hf = refl
  tlv_loop-encode_tlvs (suc fuel) s [] h hf = refl
  tlv_loop-encode_tlvs zero s (v ∷ vs) h hf = absurd (omega arith)
  tlv_loop-encode_tlvs (suc fuel) s (v ∷ vs) h hf =
      let shorter : length (encode_tlvs vs) ≤ fuel =
        omega (arith, length-append v.value (encode_tlvs vs)) in
      rw (next_tlv-append_tlv (tlv_loop fn fuel) s v (encode_tlvs vs) h.0)
        (rw (tlv_loop-encode_tlvs fuel (fn s v).0 vs h.1 shorter) (ground arith))

  -- Over the encoding of views whose type and length fit 16 bits the walk hands the callback
  -- exactly those views in order, and answers what the callback makes of them.
  pub for_each_tlv-encode_tlvs :
      (s : S) (vs : List TlvView)
      → All IsTlv vs
      → for_each_tlv fn s (encode_tlvs vs) ≡ some (visit s vs)
  unfolding for_each_tlv
  for_each_tlv-encode_tlvs s vs h =
      tlv_loop-encode_tlvs (length (encode_tlvs vs)) s vs h (omega arith)

  tlv_loop-ne-none : (fuel : ℕ) (s : S) (p : List ℕ) → length p ≤ fuel → tlv_loop fn fuel s p ≢ none
  unfolding tlv_loop
  tlv_loop-ne-none zero s [] h = λ e. cc
  tlv_loop-ne-none (suc fuel) s [] h = λ e. cc
  tlv_loop-ne-none zero s (b ∷ p) h = absurd (omega arith)
  tlv_loop-ne-none (suc fuel) s (b ∷ p) h =
      let rest : List ℕ = drop 4 (b ∷ p) in
      let len : ℕ = rd_u16 (b ∷ p) 2 in
      let view : TlvView = record { type = rd_u16 (b ∷ p) 0; value = take len rest } in
      ground (
        arith,
        tlv_loop-ne-none fuel (fn s view).0 (drop len rest),
        length-drop 4 (b ∷ p),
        length-drop len rest,
      )

  -- The walk ends on every input, well formed or not.
  pub for_each_tlv-ne-none : (s : S) (p : List ℕ) → for_each_tlv fn s p ≢ none
  unfolding for_each_tlv
  for_each_tlv-ne-none s p = tlv_loop-ne-none (length p) s p (omega arith)

  view_at : List ℕ → TlvView
  view_at p = record { type = rd_u16 p 0; value = take (rd_u16 p 2) (drop 4 p) }

  next_tlv-short :
      (again : S → List ℕ → Option (S × Bool)) (s s' : S) (p : List ℕ)
      → next_tlv fn again s p ≡ some (s', true)
      → ((fn s (view_at p)).1 ≡ true)
        × (again (fn s (view_at p)).0 (drop (rd_u16 p 2) (drop 4 p)) ≡ some (s', true))
  unfolding view_at
  next_tlv-short again s s' p e = ground (arith, e)

  tlv_loop-keeps {κ} :
      (P : S → Type κ)
      → ((s : S) (t : TlvView) → P s → (fn s t).1 ≡ true → P (fn s t).0)
      → (fuel : ℕ) (s : S) (p : List ℕ) (s' : S) → P s
      → tlv_loop fn fuel s p ≡ some (s', true)
      → P s'
  unfolding tlv_loop
  tlv_loop-keeps P keeps zero s [] s' h e = let same : s ≡ s' = cc in subst P same h
  tlv_loop-keeps P keeps (suc fuel) s [] s' h e = let same : s ≡ s' = cc in subst P same h
  tlv_loop-keeps P keeps zero s (b ∷ p) s' h e = absurd (cc)
  tlv_loop-keeps P keeps (suc fuel) s (b ∷ p) s' h e =
      let (goes_on, rest) = next_tlv-short (tlv_loop fn fuel) s s' (b ∷ p) e in
      let view : TlvView = view_at (b ∷ p) in
      tlv_loop-keeps P keeps fuel (fn s view).0 (drop (rd_u16 (b ∷ p) 2) (drop 4 (b ∷ p))) s'
        (keeps s view h goes_on) rest

  -- What the callback keeps while it goes on holds at the end of a walk that answers `true`.
  pub for_each_tlv-keeps {κ} :
      (P : S → Type κ)
      → ((s : S) (t : TlvView) → P s → (fn s t).1 ≡ true → P (fn s t).0)
      → (s : S) (p : List ℕ) (s' : S) → P s
      → for_each_tlv fn s p ≡ some (s', true)
      → P s'
  unfolding for_each_tlv
  for_each_tlv-keeps P keeps s p s' h e = tlv_loop-keeps P keeps (length p) s p s' h e

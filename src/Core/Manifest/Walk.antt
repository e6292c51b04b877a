-- ===== src/Core/Manifest/Walk.antt =====
-- The walk over a blob, against the list of the descriptors that stand in it.
use airusb_hub.Base.{
  ℕ, zero, suc, ◌≤◌, ◌≡◌, ◌∙◌, refl, sym, ap, inl, inr, Bool, true, false, not, ◌&&◌, none, some,
  List, [], ◌∷◌, ◌++◌, arith, leb, if◌then◌else◌, length, All, get_or-take, take, drop, length-drop,
  length-take, append_assoc, take-append-drop, take-append, drop-append, length-append,
  get_or-append_of_lt, Bool-cases,
}
use airusb_hub.Core.Manifest.{byte_at, one_descriptor, walk, next_turn, for_each_descriptor}

-- A descriptor says its own length.
abbrev pub IsDescriptor : List ℕ → Type 0
IsDescriptor d = (2 ≤ length d) × (byte_at d 0 ≡ length d)

-- Whether a descriptor stands at the head of the blob.
unfoldable pub starts_well : List ℕ → Bool
starts_well blob =
    leb 2 (length blob) && (leb 2 (byte_at blob 0) && leb (byte_at blob 0) (length blob))

-- The descriptors in order, and what is left behind the last.
unfoldable pub pieces : ℕ → List ℕ → List (List ℕ) × List ℕ
unfolding starts_well
pieces zero blob = ([], blob)
pieces (suc n) blob =
    let (ds, rest) = pieces n (drop (byte_at blob 0) blob) in
    if starts_well blob then (take (byte_at blob 0) blob ∷ ds, rest) else ([], blob)

unfoldable pub descriptors : List ℕ → List (List ℕ) × List ℕ
unfolding pieces
descriptors blob = pieces (length blob) blob

unfoldable pub is_nil : List ℕ → Bool
is_nil [] = true
is_nil (b ∷ bs) = false

unfoldable pub joined : List (List ℕ) → List ℕ
joined [] = []
joined (d ∷ ds) = d ++ joined ds

-- The callback on one descriptor after the other, until it refuses.
unfoldable pub visit : {S : Type 0} → (S → ℕ → List ℕ → S × Bool) → S → List (List ℕ) → S × Bool
visit fn s [] = (s, true)
visit fn s (d ∷ ds) =
    let (s', go_on) = fn s (byte_at d 1) d in if go_on then visit fn s' ds else (s', false)

starts_well-length :
    (blob : List ℕ)
    → starts_well blob ≡ true
    → (2 ≤ byte_at blob 0) × (byte_at blob 0 ≤ length blob)
unfolding starts_well
starts_well-length blob h = ground (arith, h)

module _ {S : Type 0} (fn : S → ℕ → List ℕ → S × Bool) where
  -- The walk after a callback has answered.
  abbrev resume : ℕ → List ℕ → S × Bool → S × Bool
  resume fuel rest (s, go_on) = if go_on then walk fn fuel s rest else (s, false)

  one_descriptor-fits :
      (s : S) (blob : List ℕ)
      → starts_well blob ≡ true
      → one_descriptor fn s blob ≡ (
          let (s', go_on) = fn s (byte_at blob 1) (take (byte_at blob 0) blob) in
          if not go_on then (s', none) else (s', some (drop (byte_at blob 0) blob)))
  unfolding one_descriptor starts_well
  one_descriptor-fits s blob h = ground (arith, h)

  one_descriptor-stuck :
      (s : S) (blob : List ℕ) → starts_well blob ≡ false → one_descriptor fn s blob ≡ (s, none)
  unfolding one_descriptor starts_well
  one_descriptor-stuck s blob h = ground (arith, h)

  walk-fits :
      (fuel : ℕ) (s : S) (b : ℕ) (bs : List ℕ)
      → starts_well (b ∷ bs) ≡ true
      → walk fn (suc fuel) s (b ∷ bs)
        ≡ resume fuel (drop b (b ∷ bs)) (fn s (byte_at (b ∷ bs) 1) (take b (b ∷ bs)))
  unfolding walk next_turn
  walk-fits fuel s b bs h =
      ap (next_turn (walk fn fuel)) (one_descriptor-fits s (b ∷ bs) h) ∙ ground (arith)

  walk-stuck :
      (fuel : ℕ) (s : S) (b : ℕ) (bs : List ℕ)
      → starts_well (b ∷ bs) ≡ false
      → walk fn fuel s (b ∷ bs) ≡ (s, false)
  unfolding walk next_turn
  walk-stuck zero s b bs h = refl
  walk-stuck (suc fuel) s b bs h = ap (next_turn (walk fn fuel)) (one_descriptor-stuck s (b ∷ bs) h)

  resume-visit :
      (fuel : ℕ) (blob : List ℕ) (ds : List (List ℕ)) (e : Bool) (r : S × Bool)
      → walk fn fuel r.0 blob ≡ ((visit fn r.0 ds).0, (visit fn r.0 ds).1 && e)
      → resume fuel blob r
        ≡ (let (s', all) = if r.1 then visit fn r.0 ds else (r.0, false) in (s', all && e))
  resume-visit fuel blob ds e (s, true) h = h
  resume-visit fuel blob ds e (s, false) h = refl

  walk-visit :
      (fuel : ℕ) (s : S) (blob : List ℕ)
      → length blob ≤ fuel
      → walk fn fuel s blob ≡ (
          let (ds, rest) = pieces fuel blob in
          let (s', all) = visit fn s ds in (s', all && is_nil rest))
  unfolding pieces visit walk is_nil
  walk-visit zero s [] h = refl
  walk-visit zero s (b ∷ bs) h = absurd (omega arith)
  walk-visit (suc fuel) s [] h = refl
  walk-visit (suc fuel) s (b ∷ bs) h = elim (Bool-cases (starts_well (b ∷ bs))) [
    | inl well ↦
        let (big, fits) = starts_well-length (b ∷ bs) well in
        let d : List ℕ = take b (b ∷ bs) in
        let type : byte_at d 1 ≡ byte_at (b ∷ bs) 1 = get_or-take b 1 (b ∷ bs) 0 (omega arith) in
        let left : List ℕ = drop b (b ∷ bs) in
        let r : S × Bool = fn s (byte_at (b ∷ bs) 1) d in
        let (ds, rest) = pieces fuel left in
        let ih = walk-visit fuel r.0 left (omega (arith, length-drop b (b ∷ bs))) in
        walk-fits fuel s b bs well
        ∙ resume-visit fuel left ds (is_nil rest) r ih
        ∙ rw (sym type) (simp well refl)
    | inr stuck ↦ rw (walk-stuck (suc fuel) s b bs stuck) (simp stuck refl)
  ]

  -- The walk over any blob is the callback on each descriptor that stands in it, in order, until it
  -- refuses; the answer is `true` where the callback refuses none and nothing is left behind them.
  pub for_each_descriptor-visit :
      (s : S) (blob : List ℕ)
      → for_each_descriptor fn s blob ≡ (
          let (ds, rest) = descriptors blob in
          let (s', all) = visit fn s ds in (s', all && is_nil rest))
  unfolding for_each_descriptor descriptors
  for_each_descriptor-visit s blob = walk-visit (length blob) s blob (omega arith)

pieces-split :
    (n : ℕ) (blob : List ℕ)
    → length blob ≤ n
    → let (ds, rest) = pieces n blob in
      (joined ds ++ rest ≡ blob) × All IsDescriptor ds × (starts_well rest ≡ false)
unfolding pieces joined
pieces-split zero [] h = (refl, tt, refl)
pieces-split zero (b ∷ bs) h = absurd (omega arith)
pieces-split (suc n) blob h = elim (Bool-cases (starts_well blob)) [
  | inr stuck ↦ simp stuck (refl, tt, refl)
  | inl well ↦
      let len = byte_at blob 0 in
      let (big, fits) = starts_well-length blob well in
      let left = drop len blob in
      let (whole, each, stop) = pieces-split n left (omega (arith, length-drop len blob)) in
      let size : length (take len blob) ≡ len = omega (arith, length-take len blob) in
      let head : byte_at (take len blob) 0 ≡ len = get_or-take len 0 blob 0 (omega arith) in
      simp well (
        append_assoc (take len blob) (joined (pieces n left).0) (pieces n left).1
            ∙ ap (λ p. take len blob ++ p) whole
            ∙ take-append-drop len blob,
        ((omega arith, head ∙ sym size), each),
        stop,
      )
]

-- The blob is its descriptors, each with its own length in its first byte, and a rest with none at
-- its head.
pub descriptors-joined :
    (blob : List ℕ)
    → let (ds, rest) = descriptors blob in
      (joined ds ++ rest ≡ blob) × All IsDescriptor ds × (starts_well rest ≡ false)
unfolding descriptors
descriptors-joined blob = pieces-split (length blob) blob (omega arith)

starts_well-IsDescriptor : (d more : List ℕ) → IsDescriptor d → starts_well (d ++ more) ≡ true
unfolding starts_well
starts_well-IsDescriptor d more (two, own) =
    ground (arith, own, length-append d more, get_or-append_of_lt d more 0 0)

pieces-joined :
    (ds : List (List ℕ)) (n : ℕ)
    → All IsDescriptor ds
    → length (joined ds) ≤ n
    → pieces n (joined ds) ≡ (ds, [])
unfolding pieces joined starts_well
pieces-joined [] zero each h = refl
pieces-joined [] (suc n) each h = refl
pieces-joined (d ∷ ds) zero (one, each) h = absurd (omega (arith, length-append d (joined ds)))
pieces-joined (d ∷ ds) (suc n) (one, each) h =
    let blob : List ℕ = d ++ joined ds in
    let well : starts_well blob ≡ true = starts_well-IsDescriptor d (joined ds) one in
    let own : byte_at blob 0 ≡ length d =
      get_or-append_of_lt d (joined ds) 0 0 (omega (arith, one.0)) ∙ one.1 in
    let ih = pieces-joined ds n each (omega (arith, one.0, length-append d (joined ds))) in
    ap
      (λ b.
        if b
        then (
          take (byte_at blob 0) blob ∷ (pieces n (drop (byte_at blob 0) blob)).0,
          (pieces n (drop (byte_at blob 0) blob)).1,
        )
        else ([], blob))
      well
    ∙ rw (own, take-append d (joined ds), drop-append d (joined ds)) (rw ih refl)

and_nothing : {S : Type 0} (r : S × Bool) → (r.0, r.1 && true) ≡ r
and_nothing (s, true) = refl
and_nothing (s, false) = refl

-- Descriptors that stand one behind the other are what the walk visits, in order.
pub for_each_descriptor-joined :
    {S : Type 0} (fn : S → ℕ → List ℕ → S × Bool) (s : S) (ds : List (List ℕ))
    → All IsDescriptor ds
    → for_each_descriptor fn s (joined ds) ≡ visit fn s ds
unfolding descriptors is_nil
for_each_descriptor-joined fn s ds each =
    for_each_descriptor-visit fn s (joined ds)
    ∙ rw (pieces-joined ds (length (joined ds)) each (omega arith)) (and_nothing (visit fn s ds))

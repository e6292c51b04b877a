-- ===== src/Protocol/Validate/Iso.antt =====
-- Which isochronous tables rule 6 admits.
use airusb_hub.Base.{
  ℕ, zero, suc, ◌+◌, ◌*◌, ◌%◌, ◌^◌, ◌≤◌, ◌<◌, ◌≡◌, ◌↔◌, ◌⊎◌, inl, inr, refl, subst, Option, none,
  some, List, [], ◌∷◌, arith, length, All, sum_of, Option-cases, min,
}
use mathlib.Core.Option
use airusb_hub.Protocol.Codec.Transfers.{IsoDesc, decode_iso_desc}
use airusb_hub.Protocol.Validate.{rule_ok, Limits, iso_loop, r6_iso_table_check}

-- The `left` descriptors of the table from number `i` on, where it has them all.
pub iso_descs : List ℕ → ℕ → ℕ → Option (List IsoDesc)
iso_descs table i zero = some []
iso_descs table i (suc left) = elim (decode_iso_desc table i) [
  | none ↦ none
  | some d ↦ Option.map (λ ds. d ∷ ds) (iso_descs table (i + 1) left)
]

-- The packets start in order, from `prev` on.
abbrev pub Ascends : ℕ → List IsoDesc → Type 0
Ascends prev [] = Unit {0}
Ascends prev (d ∷ ds) = (prev ≤ d.offset) × Ascends d.offset ds

abbrev pub lens : List IsoDesc → ℕ
lens = sum_of (λ d. d.len)

-- Every packet lies within the buffer, they start in order, and together they fit it.
abbrev pub IsTable : ℕ → ℕ → ℕ → List IsoDesc → Type 0
IsTable prev sum buffer_len ds =
    All (λ d. d.offset + d.len ≤ buffer_len) ds × Ascends prev ds × (sum + lens ds ≤ buffer_len)

module _ (table : List ℕ) (buffer_len : ℕ) where
  -- The table has the descriptors, and they are in order.
  abbrev pub Admitted : ℕ → ℕ → ℕ → ℕ → Type 0
  Admitted left i prev sum =
      (ds : List IsoDesc) × (iso_descs table i left ≡ some ds) × IsTable prev sum buffer_len ds

  abbrev Room : ℕ → ℕ → ℕ → ℕ → Type 0
  Room left i prev sum = ((0 < i) ⊎ (prev ≡ 0)) × (sum + left * buffer_len < 2 ^ 64)

  -- One round: the packet lies in the buffer and after the one before it, and the rest is admitted.
  iso_round :
      (left i prev sum : ℕ) (d : IsoDesc)
      → Room (suc left) i prev sum
      → decode_iso_desc table i ≡ some d
      → ((iso_loop (suc left) i prev sum table buffer_len).rule ≡ rule_ok) ↔ (
          (d.offset + d.len ≤ buffer_len)
          × (prev ≤ d.offset)
          × ((iso_loop left (i + 1) d.offset (sum + d.len) table buffer_len).rule ≡ rule_ok))
  unfolding iso_loop
  iso_round left i prev sum d room found =
      let whole : d.offset + d.len ≤ buffer_len → (sum + d.len) % 2 ^ 64 ≡ sum + d.len =
        λ h. grind arith in
      (λ e. ground (arith, found, whole), λ h. ground (arith, found, whole))

  iso_descs-some :
      (left i : ℕ) (d : IsoDesc) (ds : List IsoDesc)
      → decode_iso_desc table i ≡ some d
      → iso_descs table (i + 1) left ≡ some ds
      → iso_descs table i (suc left) ≡ some (d ∷ ds)
  unfolding iso_descs
  iso_descs-some left i d ds found there = ground (arith, found, there)

  some-iso_descs :
      (left i : ℕ) (es : List IsoDesc)
      → iso_descs table i (suc left) ≡ some es
      → (d : IsoDesc) × (ds : List IsoDesc) × (decode_iso_desc table i ≡ some d)
        × (iso_descs table (i + 1) left ≡ some ds)
        × (es ≡ d ∷ ds)
  unfolding iso_descs
  some-iso_descs left i es e = elim (Option-cases (decode_iso_desc table i)) [
    | inl missing ↦ absurd (ground (arith, missing))
    | inr (d, found) ↦ elim (Option-cases (iso_descs table (i + 1) left)) [
      | inl missing ↦ absurd (ground (arith, found, missing))
      | inr (ds, there) ↦ (d, ds, found, there, ground (arith, found, there))
    ]
  ]

  Admitted-cons :
      (left i prev sum : ℕ) (d : IsoDesc)
      → decode_iso_desc table i ≡ some d
      → d.offset + d.len ≤ buffer_len
      → prev ≤ d.offset
      → Admitted left (i + 1) d.offset (sum + d.len)
      → Admitted (suc left) i prev sum
  Admitted-cons left i prev sum d found within order (ds, there, (all, asc, fits)) =
      (d ∷ ds, iso_descs-some left i d ds found there, ((within, all), (order, asc), omega arith))

  Admitted-uncons :
      (left i prev sum : ℕ)
      → Admitted (suc left) i prev sum
      → (d : IsoDesc) × (decode_iso_desc table i ≡ some d)
        × (d.offset + d.len ≤ buffer_len)
        × (prev ≤ d.offset)
        × Admitted left (i + 1) d.offset (sum + d.len)
  Admitted-uncons left i prev sum (es, there, h) =
      let (d, ds, found, rest, parts) = some-iso_descs left i es there in
      let h' : IsTable prev sum buffer_len (d ∷ ds) = subst (IsTable prev sum buffer_len) parts h in
      let ((within, all), (order, asc), fits) = h' in
      (d, found, within, order, (ds, rest, (all, asc, omega arith)))

  iso_loop_ok :
      (left i prev sum : ℕ)
      → Room left i prev sum
      → (iso_loop left i prev sum table buffer_len).rule ≡ rule_ok
      → Admitted left i prev sum
  unfolding iso_loop iso_descs
  iso_loop_ok zero i prev sum room e = ([], refl, ground arith)
  iso_loop_ok (suc left) i prev sum room e = elim (Option-cases (decode_iso_desc table i)) [
    | inl missing ↦ absurd (ground (arith, missing))
    | inr (d, found) ↦
        let (within, order, next) = (iso_round left i prev sum d room found).0 e in
        Admitted-cons left i prev sum d found within order
          (iso_loop_ok left (i + 1) d.offset (sum + d.len) (inl (omega arith), grind arith) next)
  ]

  ok_iso_loop :
      (left i prev sum : ℕ)
      → Room left i prev sum
      → Admitted left i prev sum
      → (iso_loop left i prev sum table buffer_len).rule ≡ rule_ok
  unfolding iso_loop iso_descs
  ok_iso_loop zero i prev sum room (ds, e, h) = ground arith
  ok_iso_loop (suc left) i prev sum room a =
      let (d, found, within, order, rest) = Admitted-uncons left i prev sum a in
      let room' : Room left (i + 1) d.offset (sum + d.len) = (inl (omega arith), grind arith) in
      (iso_round left i prev sum d room found).1
        (within, order, ok_iso_loop left (i + 1) d.offset (sum + d.len) room' rest)

-- For a 32-bit buffer length, rule 6 passes a table exactly where it is not used, or the packets
-- are within the ceiling, the table is in the data whole, every packet lies within the buffer, the
-- packets start in order, and their lengths together fit the buffer.
pub r6_iso_table_check_iff :
    (table : List ℕ) (count buffer_len : ℕ) (lim : Limits)
    → buffer_len < 2 ^ 32
    → ((r6_iso_table_check table count buffer_len lim).rule ≡ rule_ok) ↔ (
        (count ≡ 0)
        ⊎ ((count ≤ min lim.max_iso_packets 1024)
            × (count * 16 ≤ length table)
            × Admitted table buffer_len count 0 0 0))
unfolding r6_iso_table_check
r6_iso_table_check_iff table count buffer_len lim h =
    let room : count ≤ 1024 → Room table buffer_len count 0 0 0 = λ c. (inr refl, grind arith) in
    let sound : count ≤ 1024
        → (iso_loop count 0 0 0 table buffer_len).rule ≡ rule_ok
        → Admitted table buffer_len count 0 0 0 =
      λ c. iso_loop_ok table buffer_len count 0 0 0 (room c) in
    let whole : count ≤ 1024
        → Admitted table buffer_len count 0 0 0
        → (iso_loop count 0 0 0 table buffer_len).rule ≡ rule_ok =
      λ c. ok_iso_loop table buffer_len count 0 0 0 (room c) in
    (λ e. ground (arith, sound), λ e. ground (arith, whole))

-- ===== src/Transport/Records/Receiving/Bounds.antt =====
-- The receive buffer stays small.
use airusb_hub.Base.{
  ℕ, ◌+◌, ◌≤◌, ◌<◌, ◌≡◌, ◌∙◌, inl, inr, refl, sym, none, some, List, [], ◌∷◌, arith, leb, length,
  All, take, drop, length-append, length-drop, Bool-cases, Option-cases,
}
use airusb_hub.Core.Status.{Status, ok}
use airusb_hub.Protocol.Codec.{rd_u32}
use airusb_hub.Protocol.Validate.{Verdict, rule_ok, r1_record_size_check}
use airusb_hub.Transport.Records.{
  Cipher, RecordLayer, Read, take_record, opened, absorb, whole_record, judged, receive_loop,
  receive_record,
}
use airusb_hub.Transport.Records.Receiving.{
  ceiling, verdict_on, take_record-full, take_record-some, receive_loop-found, receive_loop-wait,
}

module _ {C : Type 0} (k : Cipher C) where
  whole_record-none :
      (s : RecordLayer C) (len : ℕ) → whole_record k s len ≡ none → length s.rx < 4 + len
  unfolding whole_record
  whole_record-none s len e = ground (arith, e)

  judged-none :
      (s : RecordLayer C) (len : ℕ) (v : Verdict)
      → judged k s len v ≡ none
      → (v.rule ≡ rule_ok) × (length s.rx < 4 + len)
  unfolding judged
  judged-none s len v e = ground (arith, e, whole_record-none s len)

  verdict_on-ok :
      (s : RecordLayer C) (len : ℕ) → (verdict_on k s len).rule ≡ rule_ok → len ≤ ceiling s
  unfolding verdict_on r1_record_size_check
  verdict_on-ok s len e = ground (arith, e)

  -- A buffer with no verdict is shorter than a whole record.
  take_record-none : (s : RecordLayer C) → take_record k s ≡ none → length s.rx < 4 + ceiling s
  take_record-none s e = elim (Bool-cases (leb 4 (length s.rx))) [
    | inr short ↦ ground (arith, short)
    | inl enough ↦
        let full : 4 ≤ length s.rx = ground arith in
        let len : ℕ = rd_u32 s.rx 0 in
        let (passed, short) =
          judged-none s len (verdict_on k s len) (sym (take_record-full k s full) ∙ e) in
        omega (arith, verdict_on-ok s len passed)
  ]

  -- A verdict adds nothing to the buffer, and leaves the ceiling.
  abbrev IsLess : RecordLayer C → RecordLayer C → Type 0
  IsLess s t = (length t.rx ≤ length s.rx) × (ceiling t ≡ ceiling s)

  opened-IsLess :
      (s : RecordLayer C) (len : ℕ) (r : C × List ℕ × Status) → IsLess s (opened k s len r).0
  unfolding opened
  opened-IsLess s len (c, out, ok) = (omega (arith, length-drop (4 + len) s.rx), refl)
  opened-IsLess s len (c, out, other) = (omega arith, refl)

  whole_record-IsLess :
      (s : RecordLayer C) (len : ℕ) (d : RecordLayer C × Status × List ℕ)
      → whole_record k s len ≡ some d
      → IsLess s d.0
  unfolding whole_record
  whole_record-IsLess s len d e =
      ground (arith, e, opened-IsLess s len (k.unseal s.cipher (take len (drop 4 s.rx))))

  judged-IsLess :
      (s : RecordLayer C) (len : ℕ) (v : Verdict) (d : RecordLayer C × Status × List ℕ)
      → judged k s len v ≡ some d
      → IsLess s d.0
  unfolding judged
  judged-IsLess s len v d e = ground (arith, e, whole_record-IsLess s len d)

  take_record-IsLess :
      (s : RecordLayer C) (d : RecordLayer C × Status × List ℕ)
      → take_record k s ≡ some d
      → IsLess s d.0
  take_record-IsLess s d e =
      let full = take_record-some k s d e in
      judged-IsLess s (rd_u32 s.rx 0) (verdict_on k s (rd_u32 s.rx 0)) d
        (sym (take_record-full k s full) ∙ e)

  abbrev Small : ℕ → RecordLayer C → RecordLayer C → Type 0
  Small chunk s t = length t.rx < 4 + ceiling s + chunk

  receive_loop-stop :
      (s : RecordLayer C) (r : Read) (rs : List Read) (chunk : ℕ)
      → take_record k s ≡ none
      → length r.bytes ≤ chunk
      → Small chunk s (receive_loop k (absorb r.bytes s) rs).0.0
      → Small chunk s (receive_loop k s (r ∷ rs)).0.0
  unfolding receive_loop
  receive_loop-stop s r rs chunk waits size ih =
      ground (arith, waits, ih, take_record-none s waits, length-append s.rx r.bytes)

  receive_loop-Small :
      (rs : List Read) (s : RecordLayer C) (chunk : ℕ)
      → All (λ r. length r.bytes ≤ chunk) rs
      → length s.rx < 4 + ceiling s + chunk
      → Small chunk s (receive_loop k s rs).0.0
  receive_loop-Small [] s chunk h small = elim (Option-cases (take_record k s)) [
    | inr (d, found) ↦
        ground (arith, receive_loop-found k s [] d found, take_record-IsLess s d found)
    | inl waits ↦ ground (arith, receive_loop-wait k s waits)
  ]
  receive_loop-Small (r ∷ rs) s chunk (size, h) small = elim (Option-cases (take_record k s)) [
    | inr (d, found) ↦
        ground (arith, receive_loop-found k s (r ∷ rs) d found, take_record-IsLess s d found)
    | inl waits ↦
        let short = take_record-none s waits in
        receive_loop-stop s r rs chunk waits size (
          receive_loop-Small rs (absorb r.bytes s) chunk h
            (omega (arith, length-append s.rx r.bytes)))
  ]

  -- Whatever the peer sends, the receive buffer stays shorter than a length, the largest record
  -- that rule 1 passes now, and one read, where no read brings more than `chunk` bytes.
  pub receive_record-small :
      (rs : List Read) (s : RecordLayer C) (chunk : ℕ)
      → All (λ r. length r.bytes ≤ chunk) rs
      → length s.rx < 4 + ceiling s + chunk
      → length (receive_record k s rs).0.0.rx < 4 + ceiling s + chunk
  unfolding receive_record
  receive_record-small rs s chunk h small = ground (arith, receive_loop-Small rs s chunk h small)

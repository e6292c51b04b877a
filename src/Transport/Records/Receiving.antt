-- ===== src/Transport/Records/Receiving.antt =====
-- What is received does not depend on how the stream cuts the bytes.
pub mod Bounds
use airusb_hub.Base.{
  ℕ, ◌+◌, ◌≤◌, ◌<◌, ◌≡◌, ◌∙◌, inl, inr, subst, refl, sym, ap, true, false, Option, none, some, List,
  [], ◌∷◌, ◌++◌, arith, ltb, ◌==◌, if◌then◌else◌, length, All, take, drop, length-append,
  length-drop, append_assoc, append-nil, Bool-cases, Option-cases, drop-append_of_le,
  take-append_of_le, get_or-append_of_lt,
}
use mathlib.Core.Option
use airusb_hub.Core.Status.{Status, ok, malformed_frame, transport_lost}
use airusb_hub.Protocol.Codec.{rd_u32}
use airusb_hub.Protocol.Validate.{Verdict, r1_record_size_check}
use airusb_hub.Transport.Records.{
  Cipher, RecordLayer, Read, take_record, opened, absorb, record_limits, whole_record, judged,
  receive_loop, receive_record,
}

-- All the bytes of the answers.
unfoldable pub bytes_of : List Read → List ℕ
bytes_of [] = []
bytes_of (r ∷ rs) = r.bytes ++ bytes_of rs

-- The stream has bytes and no failure.
abbrev pub Flows : Read → Type 0
Flows r = (r.status ≡ ok) × (0 < length r.bytes)

module _ {C : Type 0} where
  -- The largest record that is taken now.
  abbrev pub ceiling : RecordLayer C → ℕ
  ceiling s = if s.handshake_done then s.max_record else 8192

  -- `Ok` with nothing, where there is no whole record.
  abbrev pub or_wait :
      RecordLayer C → Option (RecordLayer C × Status × List ℕ) → RecordLayer C × Status × List ℕ
  or_wait s none = (s, ok, [])
  or_wait s (some d) = d

module _ {C : Type 0} (k : Cipher C) where
  -- An answer over a longer buffer.
  abbrev extended : List ℕ → RecordLayer C × Status × List ℕ → RecordLayer C × Status × List ℕ
  extended q (s, st, out) = (absorb q s, st, out)

  take-drop-append :
      (len : ℕ) (p q : List ℕ)
      → 4 + len ≤ length p
      → take len (drop 4 (p ++ q)) ≡ take len (drop 4 p)
  take-drop-append len p q h =
      rw (drop-append_of_le 4 p q (omega arith))
        (take-append_of_le len (drop 4 p) q (omega (arith, length-drop 4 p)))

  rd_u32-append : (p q : List ℕ) → 4 ≤ length p → rd_u32 (p ++ q) 0 ≡ rd_u32 p 0
  rd_u32-append p q h =
      rw
        (
          get_or-append_of_lt p q 0 0 (omega arith),
          get_or-append_of_lt p q 1 0 (omega arith),
          get_or-append_of_lt p q 2 0 (omega arith),
          get_or-append_of_lt p q 3 0 (omega arith),
        )
        refl

  -- A record that is there whole, or a violation that shows, is so also with more bytes behind it.
  opened-extended :
      (s : RecordLayer C) (len : ℕ) (q : List ℕ) (r : C × List ℕ × Status)
      → 4 + len ≤ length s.rx
      → opened k (absorb q s) len r ≡ extended q (opened k s len r)
  unfolding opened
  opened-extended s len q (c, out, ok) h = rw (drop-append_of_le (4 + len) s.rx q h) refl
  opened-extended s len q (c, out, other) h = refl

  whole_record-fits :
      (s : RecordLayer C) (len : ℕ)
      → ltb len k.overhead ≡ false
      → 4 + len ≤ length s.rx
      → whole_record k s len ≡ some (opened k s len (k.unseal s.cipher (take len (drop 4 s.rx))))
  unfolding whole_record
  whole_record-fits s len large full =
      let there : ltb (length s.rx) (4 + len) ≡ false = ground arith in rw (large, there) refl

  whole_record-small :
      (s : RecordLayer C) (len : ℕ)
      → ltb len k.overhead ≡ true
      → whole_record k s len ≡ some (record s { fatal = true }, malformed_frame, [])
  unfolding whole_record
  whole_record-small s len small = rw small refl

  whole_record-some :
      (s : RecordLayer C) (len : ℕ) (r : RecordLayer C × Status × List ℕ)
      → ltb len k.overhead ≡ false
      → whole_record k s len ≡ some r
      → 4 + len ≤ length s.rx
  unfolding whole_record
  whole_record-some s len r large e = elim (Bool-cases (ltb (length s.rx) (4 + len))) [
    | inl short ↦ absurd (cc (rw (large, short) at e))
    | inr full ↦ ground (arith, full)
  ]

  -- The answer over the longer buffer, from an equation between answers.
  abbrev also :
      List ℕ → Option (RecordLayer C × Status × List ℕ) → Option (RecordLayer C × Status × List ℕ)
  also q = Option.map (extended q)

  whole_record-extended :
      (s : RecordLayer C) (len : ℕ) (q : List ℕ) (r : RecordLayer C × Status × List ℕ)
      → whole_record k s len ≡ some r
      → whole_record k (absorb q s) len ≡ some (extended q r)
  whole_record-extended s len q r e = elim (Bool-cases (ltb len k.overhead)) [
    | inl small ↦
        whole_record-small (absorb q s) len small
        ∙ ap (also q) (sym (whole_record-small s len small) ∙ e)
    | inr large ↦
        let full = whole_record-some s len r large e in
        let longer : 4 + len ≤ length (s.rx ++ q) = omega (arith, length-append s.rx q) in
        whole_record-fits (absorb q s) len large longer
        ∙ rw (take-drop-append len s.rx q full)
            (ap some (opened-extended s len q (k.unseal s.cipher (take len (drop 4 s.rx))) full))
        ∙ ap (also q) (sym (whole_record-fits s len large full) ∙ e)
  ]

  judged-extended :
      (s : RecordLayer C) (len : ℕ) (q : List ℕ) (v : Verdict) (r : RecordLayer C × Status × List ℕ)
      → judged k s len v ≡ some r
      → judged k (absorb q s) len v ≡ some (extended q r)
  unfolding judged
  judged-extended s len q v r e = ground (arith, e, whole_record-extended s len q r)

  verdict_on : RecordLayer C → ℕ → Verdict
  verdict_on s len = r1_record_size_check len (record_limits s) s.handshake_done

  take_record-full :
      (s : RecordLayer C)
      → 4 ≤ length s.rx
      → take_record k s ≡ judged k s (rd_u32 s.rx 0) (verdict_on s (rd_u32 s.rx 0))
  unfolding take_record verdict_on
  take_record-full s h = let full : ltb (length s.rx) 4 ≡ false = ground arith in rw full refl

  take_record-some :
      (s : RecordLayer C) (r : RecordLayer C × Status × List ℕ)
      → take_record k s ≡ some r
      → 4 ≤ length s.rx
  unfolding take_record
  take_record-some s r e = elim (Bool-cases (ltb (length s.rx) 4)) [
    | inl short ↦ absurd (cc (rw short at e))
    | inr full ↦ ground (arith, full)
  ]

  take_record-extended :
      (s : RecordLayer C) (q : List ℕ) (r : RecordLayer C × Status × List ℕ)
      → take_record k s ≡ some r
      → take_record k (absorb q s) ≡ some (extended q r)
  unfolding verdict_on
  take_record-extended s q r e =
      let full = take_record-some s r e in
      let longer : 4 ≤ length (s.rx ++ q) = omega (arith, length-append s.rx q) in
      take_record-full (absorb q s) longer
      ∙ rw (rd_u32-append s.rx q full) (
          judged-extended s (rd_u32 s.rx 0) q (verdict_on s (rd_u32 s.rx 0)) r
            (sym (take_record-full s full) ∙ e))

  -- One turn of the loop.
  receive_loop-found :
      (s : RecordLayer C) (rs : List Read) (d : RecordLayer C × Status × List ℕ)
      → take_record k s ≡ some d
      → receive_loop k s rs ≡ (d, rs)
  unfolding receive_loop
  receive_loop-found s [] d e = rw (e, receive_loop) refl
  receive_loop-found s (r ∷ rs) d e = rw (e, receive_loop) refl

  receive_loop-wait :
      (s : RecordLayer C) → take_record k s ≡ none → receive_loop k s [] ≡ ((s, ok, []), [])
  unfolding receive_loop
  receive_loop-wait s e = rw (e, receive_loop) refl

  receive_loop-more :
      (s : RecordLayer C) (r : Read) (rs : List Read)
      → take_record k s ≡ none
      → Flows r
      → receive_loop k s (r ∷ rs) ≡ receive_loop k (absorb r.bytes s) rs
  unfolding receive_loop
  receive_loop-more s r rs e (good, some_bytes) =
      let more : (length r.bytes == 0) ≡ false = ground arith in
      rw (e, receive_loop) (rw good (rw more refl))

  absorb-nil : (s : RecordLayer C) → absorb [] s ≡ s
  absorb-nil s = ap (λ t. record s { rx = t }) (append-nil s.rx)

  absorb-append : (p q : List ℕ) (s : RecordLayer C) → absorb q (absorb p s) ≡ absorb (p ++ q) s
  absorb-append p q s = ap (λ t. record s { rx = t }) (append_assoc s.rx p q)

  receive_loop-bytes :
      (rs : List Read) (s : RecordLayer C)
      → All Flows rs
      → let whole = absorb (bytes_of rs) s in
        let (done, left) = receive_loop k s rs in
        extended (bytes_of left) done ≡ or_wait whole (take_record k whole)
  unfolding bytes_of
  receive_loop-bytes [] s h = elim (Option-cases (take_record k s)) [
    | inr (d, found) ↦
        rw (receive_loop-found s [] d found)
          (sym (ap (or_wait (absorb [] s)) (take_record-extended s [] d found)))
    | inl waits ↦
        rw (receive_loop-wait s waits)
          (sym (ap (or_wait (absorb [] s)) (ap (take_record k) (absorb-nil s) ∙ waits)))
  ]
  receive_loop-bytes (r ∷ rs) s (flows, h) = elim (Option-cases (take_record k s)) [
    | inr (d, found) ↦
        let all = bytes_of (r ∷ rs) in
        rw (receive_loop-found s (r ∷ rs) d found)
          (sym (ap (or_wait (absorb all s)) (take_record-extended s all d found)))
    | inl waits ↦
        rw (receive_loop-more s r rs waits flows, sym (absorb-append r.bytes (bytes_of rs) s))
          (receive_loop-bytes rs (absorb r.bytes s) h)
  ]

  -- While the stream has bytes and no failure, a call answers what one look at all the bytes would:
  -- the same status, record, cipher and counters, and what it leaves, in the buffer and the stream,
  -- is what the look leaves, however the stream cuts the bytes. Where no whole record is there, it
  -- answers `Ok` with nothing.
  pub receive_record-bytes :
      (rs : List Read) (s : RecordLayer C)
      → s.fatal ≡ false
      → All Flows rs
      → let whole = absorb (bytes_of rs) s in
        let (done, left) = receive_record k s rs in
        (absorb (bytes_of left) done.0, done.1, done.2) ≡ or_wait whole (take_record k whole)
  unfolding receive_record
  receive_record-bytes rs s alive h =
      let whole = absorb (bytes_of rs) s in
      let as_loop : receive_record k s rs ≡ receive_loop k s rs =
        ap (λ b. if b then ((s, transport_lost, []), rs) else receive_loop k s rs) alive in
      subst (λ r. (absorb (bytes_of r.1) r.0.0, r.0.1, r.0.2) ≡ or_wait whole (take_record k whole))
        (sym as_loop) (receive_loop-bytes rs s h)

  -- A whole record within the limits is opened.
  pub take_record-whole :
      (s : RecordLayer C) (len : ℕ)
      → rd_u32 s.rx 0 ≡ len
      → len ≤ ceiling s
      → k.overhead ≤ len
      → 4 + len ≤ length s.rx
      → take_record k s ≡ some (opened k s len (k.unseal s.cipher (take len (drop 4 s.rx))))
  unfolding verdict_on r1_record_size_check judged
  take_record-whole s len e within large full =
      let fits : ltb (ceiling s) len ≡ false = ground arith in
      let not_small : ltb len k.overhead ≡ false = ground arith in
      take_record-full s (omega arith)
      ∙ rw e (ground (arith, fits, whole_record-fits s len not_small full))

  receive_loop-Flows :
      (rs : List Read) (s : RecordLayer C) → All Flows rs → All Flows (receive_loop k s rs).1
  receive_loop-Flows [] s h = elim (Option-cases (take_record k s)) [
    | inr (d, found) ↦ rw (receive_loop-found s [] d found) h
    | inl waits ↦ rw (receive_loop-wait s waits) h
  ]
  receive_loop-Flows (r ∷ rs) s (flows, h) = elim (Option-cases (take_record k s)) [
    | inr (d, found) ↦ rw (receive_loop-found s (r ∷ rs) d found) (flows, h)
    | inl waits ↦
        rw (receive_loop-more s r rs waits flows) (receive_loop-Flows rs (absorb r.bytes s) h)
  ]

  pub receive_record-Flows :
      (rs : List Read) (s : RecordLayer C) → All Flows rs → All Flows (receive_record k s rs).1
  unfolding receive_record
  receive_record-Flows rs s h = elim (Bool-cases s.fatal) [
    | inl dead ↦ simp dead h
    | inr alive ↦ simp alive (receive_loop-Flows rs s h)
  ]

-- ===== src/Transport/Records/Sending.antt =====
-- Nothing that is queued is lost, repeated or put out of order on its way to the stream.
use airusb_hub.Base.{
  ℕ, ◌+◌, ◌≤◌, ◌≡◌, ◌∙◌, sym, ap, min, List, [], ◌∷◌, ◌++◌, arith, length, All, map, take, drop,
  length-append, append_assoc, append-nil, drop-add, drop_of_length_le, drop-append_of_le,
  take-append-drop,
}
use airusb_hub.Core.Status.{Status, ok}
use airusb_hub.Transport.Records.{
  Cipher, RecordLayer, Written, room, refused, settle, flush_loop, flush, send_record, sealed_into,
  length_prefix, pending_tx_bytes,
}

module _ {C : Type 0} where
  -- What is queued and not yet with the stream.
  abbrev pub pending : RecordLayer C → List ℕ
  pending s = drop s.tx_sent s.tx

  abbrev pub IsAligned : RecordLayer C → Type 0
  IsAligned s = s.tx_sent ≤ length s.tx

  settle-pending :
      (s : RecordLayer C) → IsAligned s → (pending (settle s) ≡ pending s) × IsAligned (settle s)
  unfolding settle
  settle-pending s h = ground (arith, drop_of_length_le s.tx_sent s.tx)

  -- The part that the stream takes leaves the queue at its head.
  taken-pending :
      (n : ℕ) (s : RecordLayer C) (wire : List ℕ)
      → (wire ++ take n (pending s)) ++ drop (s.tx_sent + n) s.tx ≡ wire ++ pending s
  taken-pending n s wire =
      rw (append_assoc wire (take n (pending s)) (drop (s.tx_sent + n) s.tx))
        (ap (λ t. wire ++ t) (rw (drop-add s.tx_sent n s.tx) (take-append-drop n (pending s))))

  flush_loop-pending :
      (ws : List Written) (s : RecordLayer C) (wire : List ℕ)
      → IsAligned s
      → let (s', st, wire') = flush_loop s ws wire in
        (wire' ++ pending s' ≡ wire ++ pending s) × IsAligned s'
  unfolding flush_loop
  flush_loop-pending [] s wire h = ground (arith, settle-pending s h)
  flush_loop-pending (refused st ∷ ws) s wire h = ground (arith, settle-pending s h)
  flush_loop-pending (room n ∷ ws) s wire h =
      let got : ℕ = min n (pending_tx_bytes s) in
      let next : RecordLayer C = record s { tx_sent = s.tx_sent + got } in
      let on = wire ++ take got (pending s) in
      let ih = flush_loop-pending ws next on (omega arith) in
      ground (arith, settle-pending s h, ih, taken-pending got s wire)

  -- However the stream takes the bytes, what it has taken and what is still queued are, in order,
  -- what was queued before.
  pub flush-pending :
      (s : RecordLayer C) (ws : List Written)
      → IsAligned s
      → let (s', st, wire) = flush s ws in (wire ++ pending s' ≡ pending s) × IsAligned s'
  unfolding flush
  flush-pending s ws h = flush_loop-pending ws s [] h

  settle-cipher : (s : RecordLayer C) → (settle s).cipher ≡ s.cipher
  unfolding settle
  settle-cipher s = ground arith

  flush_loop-cipher :
      (ws : List Written) (s : RecordLayer C) (wire : List ℕ)
      → (flush_loop s ws wire).0.cipher ≡ s.cipher
  unfolding flush_loop
  flush_loop-cipher [] s wire = settle-cipher s
  flush_loop-cipher (refused st ∷ ws) s wire = ground (arith, settle-cipher s)
  flush_loop-cipher (room n ∷ ws) s wire =
      let got : ℕ = min n (pending_tx_bytes s) in
      ground (
        arith,
        settle-cipher s,
        flush_loop-cipher ws (record s { tx_sent = s.tx_sent + got })
            (wire ++ take got (pending s)),
      )

  module _ (k : Cipher C) where
    -- A record as it goes over the stream, and the state of the cipher after it.
    unfoldable pub frame : C → List ℕ → List ℕ
    unfolding length_prefix
    frame c body = length_prefix (length body + k.overhead) ++ (k.seal c body).1

    unfoldable pub frames : C → List (List ℕ) → List ℕ
    unfolding frame
    frames c [] = []
    frames c (body ∷ bodies) = frame c body ++ frames (k.seal c body).0 bodies

    sealed_into-frame :
        (s : RecordLayer C) (body : List ℕ) (r : C × List ℕ × Status) (ws : List Written)
        → IsAligned s
        → (sealed_into k s (length body + k.overhead) r ws).1 ≡ ok
        → let (s', st, wire) = sealed_into k s (length body + k.overhead) r ws in
          (wire ++ pending s' ≡ pending s ++ (length_prefix (length body + k.overhead) ++ r.1))
          × IsAligned s'
          × (s'.cipher ≡ r.0)
    unfolding sealed_into flush
    sealed_into-frame s body (c, ct, ok) ws h e =
        let prefix : List ℕ = length_prefix (length body + k.overhead) in
        let queued : RecordLayer C = record s {
          cipher = c;
          tx = (s.tx ++ prefix) ++ ct;
          records_sent = s.records_sent + 1;
        } in
        let longer : s.tx_sent ≤ length ((s.tx ++ prefix) ++ ct) =
          omega (arith, length-append (s.tx ++ prefix) ct, length-append s.tx prefix) in
        let (kept, aligned) = flush-pending queued ws longer in
        (
          kept
              ∙ rw (append_assoc s.tx prefix ct)
                  (drop-append_of_le s.tx_sent s.tx (prefix ++ ct) h),
          aligned,
          flush_loop-cipher ws queued [],
        )
    sealed_into-frame s body (c, ct, other) ws h e = absurd (cc)

    pub send_record-frame :
        (body : List ℕ) (s : RecordLayer C) (ws : List Written)
        → IsAligned s
        → (send_record k body s ws).1 ≡ ok
        → let (s', st, wire) = send_record k body s ws in
          (wire ++ pending s' ≡ pending s ++ frame s.cipher body)
          × IsAligned s'
          × (s'.cipher ≡ (k.seal s.cipher body).0)
    unfolding send_record frame
    send_record-frame body s ws h e =
        ground (arith, sealed_into-frame s body (k.seal s.cipher body) ws h)

    -- Records sent one after the other, each with what the stream answers to it: the layer, the
    -- statuses, and all that the stream has taken.
    unfoldable pub send_all :
        List (List ℕ × List Written) → RecordLayer C → RecordLayer C × List Status × List ℕ
    send_all [] s = (s, [], [])
    send_all ((body, ws) ∷ more) s =
        let (s', st, wire) = send_record k body s ws in
        let (s'', sts, wires) = send_all more s' in (s'', st ∷ sts, wire ++ wires)

    pub send_all-frames :
        (calls : List (List ℕ × List Written)) (s : RecordLayer C)
        → IsAligned s
        → All (λ st. st ≡ ok) (send_all calls s).1
        → let (s', sts, wire) = send_all calls s in
          wire ++ pending s' ≡ pending s ++ frames s.cipher (map (λ c. c.0) calls)
    unfolding send_all frames
    send_all-frames [] s h e = sym (append-nil (pending s))
    send_all-frames ((body, ws) ∷ more) s h e =
        let (now, aligned, moved) = send_record-frame body s ws h e.0 in
        let mid : RecordLayer C = (send_record k body s ws).0 in
        let wire : List ℕ = (send_record k body s ws).2 in
        let rest : List ℕ = frames (k.seal s.cipher body).0 (map (λ c. c.0) more) in
        let later = send_all-frames more mid aligned e.1 in
        append_assoc wire (send_all more mid).2 (pending (send_all more mid).0)
        ∙ ap (λ t. wire ++ t) later
        ∙ ap (λ c. wire ++ (pending mid ++ frames c (map (λ c. c.0) more))) moved
        ∙ sym (append_assoc wire (pending mid) rest)
        ∙ ap (λ t. t ++ rest) now
        ∙ append_assoc (pending s) (frame s.cipher body) rest

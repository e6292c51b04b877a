-- ===== src/Transport/Records/Delivery.antt =====
-- What one side sends, the other receives.
use airusb_hub.Base.{
  ℕ, zero, suc, ◌+◌, ◌≤◌, ◌<◌, ◌≡◌, ◌∙◌, ◌^◌, refl, sym, ap, subst, false, some, List, [], ◌∷◌,
  ◌++◌, arith, length, All, map, take, drop, length-append, append_assoc, take-append, drop-append,
  drop-add,
}
use airusb_hub.Core.Status.{Status, ok}
use airusb_hub.Protocol.Codec.{rd_u32, u32_of-bytes}
use airusb_hub.Transport.Records.{
  Cipher, RecordLayer, Read, Written, take_record, opened, absorb, receive_record, length_prefix,
}
use airusb_hub.Transport.Records.Sending.{
  pending, IsAligned, frame, frames, send_all, send_all-frames,
}
use airusb_hub.Transport.Records.Receiving.{
  bytes_of, Flows, or_wait, receive_record-bytes, receive_record-Flows, ceiling, take_record-whole,
}

-- What the two ends of a session rely on: while `Synced` leaves a record to be sent, what one end
-- seals the other opens, and the two stay in step. The size is that of the plaintext and
-- `overhead`.
pub record IsPaired {C D : Type 0} (k : Cipher C) (l : Cipher D) (Synced : ℕ → C → D → Type 0)
    : Type 0 where
  pub same : k.overhead ≡ l.overhead
  pub sized :
      (n : ℕ) (c : C) (d : D) (body : List ℕ)
      → Synced (suc n) c d
      → length (k.seal c body).1 ≡ length body + k.overhead
  pub opens :
      (n : ℕ) (c : C) (d : D) (body : List ℕ)
      → Synced (suc n) c d
      → ((l.unseal d (k.seal c body).1).1 ≡ body)
        × ((l.unseal d (k.seal c body).1).2 ≡ ok)
        × Synced n (k.seal c body).0 (l.unseal d (k.seal c body).1).0

module _ {C D : Type 0} (k : Cipher C) (l : Cipher D) (Synced : ℕ → C → D → Type 0)
    (paired : IsPaired k l Synced) where
  -- The receiver after a record.
  abbrev after : C → List ℕ → List ℕ → RecordLayer D → RecordLayer D
  after c body rest t = record t {
    cipher = (l.unseal t.cipher (k.seal c body).1).0;
    rx = rest;
    records_received = t.records_received + 1;
  }

  opened-ok :
      (t : RecordLayer D) (len : ℕ) (r : D × List ℕ × Status) (body : List ℕ)
      → r.1 ≡ body
      → r.2 ≡ ok
      → opened l t len r ≡ (
        record t {
          cipher = r.0;
          rx = drop (4 + len) t.rx;
          records_received = t.records_received + 1;
        },
        ok,
        body,
      )
  unfolding opened
  opened-ok t len (d, out, ok) body e o = rw e refl
  opened-ok t len (d, out, other) body e o = absurd (cc)

  rd_u32-prefix : (n : ℕ) (rest : List ℕ) → n < 2 ^ 32 → rd_u32 (length_prefix n ++ rest) 0 ≡ n
  unfolding length_prefix
  rd_u32-prefix n rest h = u32_of-bytes n h

  drop-prefix : (n : ℕ) (p : List ℕ) → drop 4 (length_prefix n ++ p) ≡ p
  unfolding length_prefix
  drop-prefix n p = refl

  length-prefix : (n : ℕ) → length (length_prefix n) ≡ 4
  unfolding length_prefix
  length-prefix n = refl

  frame-taken :
      (n : ℕ) (c : C) (body rest : List ℕ) (t : RecordLayer D)
      → t.rx ≡ frame k c body ++ rest
      → Synced (suc n) c t.cipher
      → length body + k.overhead ≤ ceiling t
      → ceiling t < 2 ^ 32
      → take_record l t ≡ some (after c body rest t, ok, body)
  unfolding frame
  frame-taken n c body rest t e synced fits small =
      let ct : List ℕ = (k.seal c body).1 in
      let len : ℕ = length body + k.overhead in
      let whole : t.rx ≡ length_prefix len ++ (ct ++ rest) =
        e ∙ append_assoc (length_prefix len) ct rest in
      let size : length ct ≡ len = paired.sized n c t.cipher body synced in
      let announced : rd_u32 t.rx 0 ≡ len =
        ap (λ p. rd_u32 p 0) whole ∙ rd_u32-prefix len (ct ++ rest) (omega arith) in
      let all_there : 4 + len ≤ length t.rx = omega (
        arith,
        ap (λ p. length p) whole,
        length-append (length_prefix len) (ct ++ rest),
        length-prefix len,
        length-append ct rest,
      ) in
      let tail : drop 4 t.rx ≡ ct ++ rest = ap (drop 4) whole ∙ drop-prefix len (ct ++ rest) in
      let cut : take len (drop 4 t.rx) ≡ ct =
        ap (take len) tail ∙ subst (λ m. take m (ct ++ rest) ≡ ct) size (take-append ct rest) in
      let left : drop (4 + len) t.rx ≡ rest =
        drop-add 4 len t.rx
        ∙ ap (drop len) tail
        ∙ subst (λ m. drop m (ct ++ rest) ≡ rest) size (drop-append ct rest) in
      let opens = paired.opens n c t.cipher body synced in
      take_record-whole l t len announced fits (omega (arith, paired.same)) all_there
      ∙ ap (λ p. some (opened l t len (l.unseal t.cipher p))) cut
      ∙ ap some (opened-ok t len (l.unseal t.cipher ct) body opens.0 opens.1)
      ∙ ap (λ p. some (record (after c body rest t) { rx = p }, ok, body)) left

  -- As many calls as there are records: the layer, what the calls handed out, and what the stream
  -- still has.
  unfoldable pub receive_times :
      ℕ → RecordLayer D → List Read → RecordLayer D × List (List ℕ) × List Read
  receive_times zero t rs = (t, [], rs)
  receive_times (suc n) t rs =
      let (now, left) = receive_record l t rs in
      let (t', outs, rs') = receive_times n now.0 left in (t', now.2 ∷ outs, rs')

  frames-received :
      (bodies : List (List ℕ)) (c : C) (t : RecordLayer D) (rs : List Read)
      → t.fatal ≡ false
      → All Flows rs
      → Synced (length bodies) c t.cipher
      → All (λ b. length b + k.overhead ≤ ceiling t) bodies
      → ceiling t < 2 ^ 32
      → t.rx ++ bytes_of rs ≡ frames k c bodies
      → (receive_times (length bodies) t rs).1 ≡ bodies
  unfolding receive_times frames
  frames-received [] c t rs alive flows synced fits small e = refl
  frames-received (body ∷ bodies) c t rs alive flows synced fits small e =
      let rest = frames k (k.seal c body).0 bodies in
      let whole = absorb (bytes_of rs) t in
      let now = receive_record l t rs in
      let found : take_record l whole ≡ some (after c body rest whole, ok, body) =
        frame-taken (length bodies) c body rest whole e synced fits.0 small in
      let same : (absorb (bytes_of now.1) now.0.0, now.0.1, now.0.2)
          ≡ (after c body rest whole, ok, body) =
        receive_record-bytes l rs t alive flows ∙ ap (or_wait whole) found in
      let mid : RecordLayer D = now.0.0 in
      let bound : ceiling mid ≡ ceiling t = ap (λ r. ceiling r.0) same in
      let later =
        frames-received bodies (k.seal c body).0 mid now.1 (ap (λ r. r.0.fatal) same ∙ alive)
          (receive_record-Flows l rs t flows)
          (subst (Synced (length bodies) (k.seal c body).0) (sym (ap (λ r. r.0.cipher) same))
            (paired.opens (length bodies) c t.cipher body synced).2)
          (subst (λ m. All (λ b. length b + k.overhead ≤ m) bodies) (sym bound) fits.1)
          (subst (λ m. m < 2 ^ 32) (sym bound) small) (ap (λ r. r.0.rx) same) in
      ap (λ b. b ∷ (receive_times (length bodies) mid now.1).1) (ap (λ r. r.2) same)
      ∙ ap (λ bs. body ∷ bs) later

  -- The receiver gets the bodies that were sent, in order and one in each call, once the stream has
  -- brought what it took and what was still queued, however both ends cut the bytes: where all
  -- calls of the sender answered `Ok`, the ciphers are in step for that many records, no record
  -- passes the receiver's ceiling (less than 2^32), and neither end has anything left from before.
  pub receive_times-send_all :
      (calls : List (List ℕ × List Written)) (s : RecordLayer C) (t : RecordLayer D)
      (reads : List Read)
      → let bodies = map (λ c. c.0) calls in
        let (s', sts, wire) = send_all k calls s in
        IsAligned s
        → pending s ≡ []
        → All (λ st. st ≡ ok) sts
        → Synced (length bodies) s.cipher t.cipher
        → All (λ b. length b + k.overhead ≤ ceiling t) bodies
        → ceiling t < 2 ^ 32
        → t.fatal ≡ false
        → t.rx ≡ []
        → All Flows reads
        → bytes_of reads ≡ wire ++ pending s'
        → (receive_times (length bodies) t reads).1 ≡ bodies
  receive_times-send_all calls s t reads aligned empty sent synced fits small alive clear flows
        brought =
      let bodies : List (List ℕ) = map (λ c. c.0) calls in
      let wired = send_all-frames k calls s aligned sent in
      frames-received bodies s.cipher t reads alive flows synced fits small (
        ap (λ p. p ++ bytes_of reads) clear
        ∙ brought
        ∙ wired
        ∙ ap (λ p. p ++ frames k s.cipher bodies) empty)

-- ===== src/Session/Exporter/Measure/Bounds.antt =====
-- What the peer was promised, kept by every round of the event loop: no transfer is answered twice,
-- and no more is waiting than the credit.
use airusb_hub.Base.{
  ℕ, ◌≡◌, ◌≤◌, ◌<◌, ◌+◌, refl, sym, ◌∙◌, ap, subst, inl, inr, true, false, List, [], ◌∷◌, arith,
  length, sum_of, Bool-cases, sum_of-append,
}
use airusb_hub.Core.Status.{no_resources}
use airusb_hub.Protocol.Codec.Transfers.{SubmitBody}
use airusb_hub.Session.Exporter.{
  Link, Ports, Source, Peer, Pending, ExporterSession, Books, books, flight_of, credit_urbs,
  credit_bytes, queued_in,
}
use airusb_hub.Session.Exporter.Queue.{
  admit, bytes_in, push_back, has_credit, pending_of, enqueue_transfer,
}
use airusb_hub.Session.Exporter.Outcomes.{collect}
use airusb_hub.Session.Exporter.Endings.{sweep_deadlines, fail_all_transfers}
use airusb_hub.Session.Exporter.Handlers.Cancels.{cancel_transfers}
use airusb_hub.Session.Exporter.Pump.{Reading, pump}
use airusb_hub.Session.Exporter.Frames.{emit_complete-books}
use airusb_hub.Session.Exporter.Kept.{IsKept}
use airusb_hub.Session.Exporter.Kept.Round.{pump-Kept}
use airusb_hub.Session.Exporter.Serial.Steps.{IsSerial, enqueue-IsSerial}
use airusb_hub.Session.Exporter.Serial.Ends.{Serial}
use airusb_hub.Session.Exporter.Serial.Rounds.{Serial-IsKept}
use airusb_hub.Session.Exporter.Measure.{Weights, piles, weight, admit-Leaves}
use airusb_hub.Session.Exporter.Measure.Tokens.{Lighter}
use airusb_hub.Session.Exporter.Measure.Whole.{
  collect-Lighter, sweep-Lighter, fail_all-Lighter, cancel-Lighter,
}

-- A weight of the keys, wherever the transfer is.
unfoldable pub key_weights : (ℕ → ℕ → ℕ) → Weights
unfolding flight_of
key_weights v = record {
  queued = λ p. v p.channel p.request_id;
  flying = λ f. v f.channel f.request_id;
  answer = v;
  taken_le = λ p d. omega arith;
  pending_le = λ p. omega arith;
  flight_le = λ f. omega arith;
  requested_le = λ f. omega arith;
}

-- One for each transfer that waits.
unfoldable pub count_weights : Weights
count_weights = record {
  queued = λ p. 1;
  flying = λ f. 1;
  answer = λ ch id. 0;
  taken_le = λ p d. omega arith;
  pending_le = λ p. omega arith;
  flight_le = λ f. omega arith;
  requested_le = λ f. omega arith;
}

-- The bytes of the queued data.
unfoldable pub byte_weights : Weights
byte_weights = record {
  queued = λ p. length p.data_out;
  flying = λ f. 0;
  answer = λ ch id. 0;
  taken_le = λ p d. omega arith;
  pending_le = λ p. omega arith;
  flight_le = λ f. omega arith;
  requested_le = λ f. omega arith;
}

-- By the weight that is 1 for one key and 0 for the others, `once` says that the key was answered,
-- and waits, at most as often as it was accepted.
pub record IsSound (b : Books) : Type 0 where
  pub serial : IsSerial b
  pub once : (v : ℕ → ℕ → ℕ) → weight (key_weights v) b ≤ sum_of (λ a. v a.0 a.1) b.accepted
  pub urbs : weight count_weights b ≤ credit_urbs
  pub bytes : weight byte_weights b ≤ credit_bytes

piles-push_back :
    (w : Weights) (ep : ℕ) (p : Pending) (queues : List (ℕ × List Pending))
    → piles w (push_back ep p queues) ≡ w.queued p + piles w queues
unfolding push_back
piles-push_back w ep p [] = omega arith
piles-push_back w ep p ((at, q) ∷ more) =
    ground (arith, sum_of-append w.queued q (p ∷ []), piles-push_back w ep p more)

zeros {ℓ} : {A : Type ℓ} (xs : List A) → sum_of (λ x. 0) xs ≡ 0
zeros [] = refl
zeros (x ∷ xs) = omega (arith, zeros xs)

ones {ℓ} : {A : Type ℓ} (xs : List A) → sum_of (λ x. 1) xs ≡ length xs
ones [] = refl
ones (x ∷ xs) = omega (arith, ones xs)

count-queued : (queues : List (ℕ × List Pending)) → piles count_weights queues ≡ queued_in queues
unfolding count_weights
count-queued [] = refl
count-queued ((ep, q) ∷ more) = omega (arith, ones q, count-queued more)

-- The two sums, as the source computes them.
pub weight-count : (b : Books) → weight count_weights b ≡ queued_in b.queues + length b.in_flight
unfolding count_weights
weight-count b = omega (arith, count-queued b.queues, ones b.in_flight, zeros b.answered)

pub weight-bytes : (b : Books) → weight byte_weights b ≡ bytes_in b.queues
unfolding byte_weights
weight-bytes b = omega (arith, zeros b.in_flight, zeros b.answered)

module _ {T P D : Type 0} (over : Link T) where
  abbrev Sound : ExporterSession T P D → Type 0
  Sound s = IsSound (books s)

  enqueued-weight :
      (w : Weights) (now ch id : ℕ) (sb : SubmitBody) (payload : List ℕ) (s : ExporterSession T P D)
      → has_credit s.plane payload ≡ true
      → weight w (books (enqueue_transfer over now ch id sb payload s).0)
        ≡ w.queued (pending_of now ch id sb payload) + weight w (books s)
  unfolding enqueue_transfer
  enqueued-weight w now ch id sb payload s h =
      rw h (
        omega
          (arith, piles-push_back w sb.ep_addr (pending_of now ch id sb payload) s.plane.queues))

  refused-weight :
      (w : Weights) (now ch id : ℕ) (sb : SubmitBody) (payload : List ℕ) (s : ExporterSession T P D)
      → has_credit s.plane payload ≡ false
      → weight w (books (enqueue_transfer over now ch id sb payload s).0)
        ≡ w.answer ch id + weight w (books s)
  unfolding enqueue_transfer flight_of pending_of
  refused-weight w now ch id sb payload s h =
      let f = flight_of (pending_of now ch id sb payload) in
      let s' = record s { accepted = (ch, id) ∷ s.accepted } in
      rw h
        (ap (weight w) (emit_complete-books over f no_resources 0 false false [] s') ∙ omega arith)

  enqueue-accepted :
      (now ch id : ℕ) (sb : SubmitBody) (payload : List ℕ) (s : ExporterSession T P D)
      → (enqueue_transfer over now ch id sb payload s).0.accepted ≡ (ch, id) ∷ s.accepted
  unfolding enqueue_transfer flight_of pending_of
  enqueue-accepted now ch id sb payload s =
      let f = flight_of (pending_of now ch id sb payload) in
      let s' = record s { accepted = (ch, id) ∷ s.accepted } in
      elim (Bool-cases (has_credit s.plane payload)) [
        | inl granted ↦ rw granted refl
        | inr refused ↦ rw refused (
            ap (λ (b : Books). b.accepted)
              (emit_complete-books over f no_resources 0 false false [] s'))
      ]

  granted-Sound :
      (now ch id : ℕ) (sb : SubmitBody) (payload : List ℕ) (s : ExporterSession T P D)
      → has_credit s.plane payload ≡ true
      → Sound s
      → Sound (enqueue_transfer over now ch id sb payload s).0
  unfolding key_weights count_weights byte_weights has_credit pending_of
  granted-Sound now ch id sb payload s h v =
      let room : queued_in s.plane.queues + length s.plane.in_flight < credit_urbs = ground arith in
      let space : bytes_in s.plane.queues + length payload ≤ credit_bytes = ground arith in
      record {
        serial = enqueue-IsSerial over now ch id sb payload s v.serial;
        once = λ k.
            rw (enqueue-accepted now ch id sb payload s)
              (omega (arith, enqueued-weight (key_weights k) now ch id sb payload s h, v.once k));
        urbs = omega (
          arith,
          enqueued-weight count_weights now ch id sb payload s h,
          weight-count (books s),
          room,
        );
        bytes = omega (
          arith,
          enqueued-weight byte_weights now ch id sb payload s h,
          weight-bytes (books s),
          space,
        );
      }

  refused-Sound :
      (now ch id : ℕ) (sb : SubmitBody) (payload : List ℕ) (s : ExporterSession T P D)
      → has_credit s.plane payload ≡ false
      → Sound s
      → Sound (enqueue_transfer over now ch id sb payload s).0
  unfolding key_weights count_weights byte_weights
  refused-Sound now ch id sb payload s h v = record {
    serial = enqueue-IsSerial over now ch id sb payload s v.serial;
    once = λ k.
        rw (enqueue-accepted now ch id sb payload s)
          (omega (arith, refused-weight (key_weights k) now ch id sb payload s h, v.once k));
    urbs = omega (arith, refused-weight count_weights now ch id sb payload s h, v.urbs);
    bytes = omega (arith, refused-weight byte_weights now ch id sb payload s h, v.bytes);
  }

  enqueue-Sound :
      (now ch id : ℕ) (sb : SubmitBody) (payload : List ℕ) (s : ExporterSession T P D)
      → Sound s
      → Sound (enqueue_transfer over now ch id sb payload s).0
  enqueue-Sound now ch id sb payload s v = elim (Bool-cases (has_credit s.plane payload)) [
    | inl granted ↦ granted-Sound now ch id sb payload s granted v
    | inr refused ↦ refused-Sound now ch id sb payload s refused v
  ]

  -- A step that keeps the slots and adds no weight.
  Lighter-Sound :
      (s s' : ExporterSession T P D)
      → Serial over s'
      → ((w : Weights) → Lighter w over s s')
      → Sound s
      → Sound s'
  Lighter-Sound s s' serial lighter v = record {
    serial = serial;
    once =
        λ k. rw (lighter (key_weights k)).1 (omega (arith, (lighter (key_weights k)).0, v.once k));
    urbs = omega (arith, (lighter count_weights).0, v.urbs);
    bytes = omega (arith, (lighter byte_weights).0, v.bytes);
  }

module _ {T P D : Type 0} (over : Link T) (ports : Ports P) where
  Sound-IsKept : IsKept over ports (Sound {T = T} {P = P} {D = D} over)
  unfolding collect
  Sound-IsKept =
      let kept = Serial-IsKept over ports in
      record {
        framed = λ s s' e v. subst IsSound (sym e) v;
        enqueued = λ now ch id sb payload s v. enqueue-Sound over now ch id sb payload s v;
        admitted = λ s v.
            Lighter-Sound over s (admit over ports s) (kept.admitted s v.serial)
              (λ w.
                (omega (arith, (admit-Leaves w over ports s).0), (admit-Leaves w over ports s).1))
              v;
        collected = λ s v.
            Lighter-Sound over s (collect over ports s).0 (kept.collected s v.serial)
              (λ w. collect-Lighter w over ports s s.port) v;
        swept = λ now s v.
            Lighter-Sound over s (sweep_deadlines over ports now s).0 (kept.swept now s v.serial)
              (λ w. sweep-Lighter w over ports now s v.serial) v;
        failed = λ st s v.
            Lighter-Sound over s (fail_all_transfers over ports st s) (kept.failed st s v.serial)
              (λ w. fail_all-Lighter w over ports st s) v;
        cancelled = λ cb s v.
            Lighter-Sound over s (cancel_transfers over ports cb s).0 (kept.cancelled cb s v.serial)
              (λ w. cancel-Lighter w over ports cb s v.serial) v;
      }

-- Whatever the record layer, the port, the source and the peer do, a round of the event loop keeps
-- a sound session sound.
pub pump-IsSound :
    {T P D : Type 0} (over : Link T) (ports : Ports P) (source : Source D P)
    (hash : List ℕ → List ℕ) (now : ℕ) (fresh : List ℕ) (peer : Peer) (readings : List Reading)
    (s : ExporterSession T P D)
    → IsSound (books s)
    → IsSound (books (pump over ports source hash now fresh peer readings s).0)
pump-IsSound over ports source hash now fresh peer readings s v =
    pump-Kept over ports source hash now fresh peer (Sound over) (Sound-IsKept over ports) readings
      s v

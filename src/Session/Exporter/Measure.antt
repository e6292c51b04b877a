-- ===== src/Session/Exporter/Measure.antt =====
-- A weight on the transfers that no step but their acceptance increases.
--
-- A transfer weighs as much in its queue as in flight at least, and as much in flight as answered.
pub mod Ends
pub mod Tokens
pub mod Whole
pub mod Bounds
use airusb_hub.Base.{
  ℕ, ◌≡◌, ◌≤◌, ◌+◌, refl, sym, ◌∙◌, subst, Bool, true, false, ◌&&◌, Option, none, some, List, [],
  ◌∷◌, arith, sum_of, sum_of-put_le,
}
use airusb_hub.Core.Status.{Status, ok, busy}
use airusb_hub.Core.Clock.{Deadline}
use airusb_hub.Session.Exporter.{
  Link, Ports, Pending, InFlight, ExporterSession, Books, flight_of, is_leased, has_port,
}
use airusb_hub.Session.Exporter.Sending.{emit_complete}
use airusb_hub.Session.Exporter.Queue.{
  may_admit, taken, admitted, admit_front, admit_queue, admit_queues, admit,
}
use airusb_hub.Session.Exporter.Frames.{emit_complete-books}
use airusb_hub.Session.Exporter.Kept.{if_both}

pub record Weights : Type 0 where
  pub queued : Pending → ℕ
  pub flying : InFlight → ℕ
  pub answer : ℕ → ℕ → ℕ
  pub taken_le :
      (p : Pending) (d : Deadline) → flying (record (flight_of p) { deadline = d }) ≤ queued p
  pub pending_le : (p : Pending) → answer p.channel p.request_id ≤ queued p
  pub flight_le : (f : InFlight) → answer f.channel f.request_id ≤ flying f
  pub requested_le : (f : InFlight) → flying (record f { cancel_requested = true }) ≤ flying f

module _ (w : Weights) where
  abbrev pub pile : List Pending → ℕ
  pile = sum_of w.queued

  abbrev pub piles : List (ℕ × List Pending) → ℕ
  piles = sum_of (λ e. pile e.1)

  abbrev pub flights : List (ℕ × InFlight) → ℕ
  flights = sum_of (λ e. w.flying e.1)

  abbrev pub answers : List (ℕ × ℕ) → ℕ
  answers = sum_of (λ a. w.answer a.0 a.1)

  abbrev pub weight : Books → ℕ
  weight b = piles b.queues + (flights b.in_flight + answers b.answered)

module _ {T P D : Type 0} (w : Weights) (over : Link T) where
  -- What is not in the queues.
  abbrev pub out : ExporterSession T P D → ℕ
  out s = flights w s.plane.in_flight + answers w s.answered

  -- A step from `s` to `s'` that leaves `have` of what was `had`, both beside what is out.
  abbrev pub Leaves : ℕ → ExporterSession T P D → ℕ → ExporterSession T P D → Type 0
  Leaves had s have s' = (have + out s' ≤ had + out s) × (s'.accepted ≡ s.accepted)

  pub emit-Leaves :
      (f : InFlight) (st : Status) (n : ℕ) (c z : Bool) (payload : List ℕ)
      (s : ExporterSession T P D)
      → Leaves (w.answer f.channel f.request_id) s 0 (emit_complete over f st n c z payload s).0
  emit-Leaves f st n c z payload s =
      subst
        (λ (b : Books).
          (0 + (flights w b.in_flight + answers w b.answered)
            ≤ w.answer f.channel f.request_id + out s)
          × (b.accepted ≡ s.accepted))
        (sym (emit_complete-books over f st n c z payload s)) (omega arith, refl)

module _ {T P D : Type 0} (w : Weights) (over : Link T) (ports : Ports P) where
  taken_out :
      (ep token : ℕ) (p : Pending) (s : ExporterSession T P D)
      → flights w (taken ep token p s.plane).in_flight ≤ w.queued p + flights w s.plane.in_flight
  unfolding taken
  taken_out ep token p s =
      let new : InFlight = record (flight_of p) { deadline = p.deadline } in
      omega (
        arith,
        sum_of-put_le (λ (e : ℕ × InFlight). w.flying e.1) token new s.plane.in_flight,
        w.taken_le p p.deadline,
      )

  admitted-Leaves :
      (ep : ℕ) (p : Pending) (q : List Pending) (token : ℕ) (s : ExporterSession T P D)
      (st : Status)
      → let r = admitted over ports ep p q token s st in
        Leaves w over (pile w (p ∷ q)) s (pile w r.0) r.1
  unfolding admitted flight_of
  admitted-Leaves ep p q token s busy = (omega arith, refl)
  admitted-Leaves ep p q token s ok = (omega (arith, taken_out ep token p s), refl)
  admitted-Leaves ep p q token s other =
      let f : InFlight = record (flight_of p) { deadline = p.deadline } in
      let r = emit-Leaves w over f other 0 false false [] s in
      (omega (arith, r.0, w.pending_le p), r.1)

  front-Leaves :
      (ep : ℕ) (p : Pending) (q : List Pending) (s : ExporterSession T P D) (port : Option P)
      → let r = admit_front over ports ep p q s port in
        Leaves w over (pile w (p ∷ q)) s (pile w r.0) r.1
  unfolding admit_front
  front-Leaves ep p q s none = (omega arith, refl)
  front-Leaves ep p q s (some port) = admitted-Leaves ep p q s.plane.next_token _ _

  queue-Leaves :
      (ep : ℕ) (q : List Pending) (s : ExporterSession T P D)
      → let r = admit_queue over ports ep q s in Leaves w over (pile w q) s (pile w r.0) r.1
  unfolding admit_queue
  queue-Leaves ep [] s = (omega arith, refl)
  queue-Leaves ep (p ∷ q) s =
      if_both
        (λ (r : List Pending × ExporterSession T P D).
          Leaves w over (pile w (p ∷ q)) s (pile w r.0) r.1)
        (may_admit ep s.plane) _ _ (front-Leaves ep p q s s.port) (omega arith, refl)

  queues-Leaves :
      (queues : List (ℕ × List Pending)) (s : ExporterSession T P D)
      → let r = admit_queues over ports queues s in
        Leaves w over (piles w queues) s (piles w r.0) r.1
  unfolding admit_queues
  queues-Leaves [] s = (omega arith, refl)
  queues-Leaves ((ep, q) ∷ more) s =
      let front = queue-Leaves ep q s in
      let rest = queues-Leaves more (admit_queue over ports ep q s).1 in
      (omega (arith, front.0, rest.0), rest.1 ∙ front.1)

  pub admit-Leaves :
      (s : ExporterSession T P D)
      → let s' = admit over ports s in
        Leaves w over (piles w s.plane.queues) s (piles w s'.plane.queues) s'
  unfolding admit
  admit-Leaves s =
      let done = admit_queues over ports s.plane.queues s in
      if_both
        (λ (r : ExporterSession T P D).
          Leaves w over (piles w s.plane.queues) s (piles w r.plane.queues) r)
        (is_leased s.state && has_port s.port)
        (record done.1 { plane = record done.1.plane { queues = done.0 } }) s
        (queues-Leaves s.plane.queues s) (omega arith, refl)

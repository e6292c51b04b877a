-- ===== src/Session/Exporter/Serial/Steps.antt =====
-- The steps of the transfers keep one transfer on every endpoint, and control transfers alone.
use airusb_hub.Base.{
  ℕ, ◌≡◌, refl, sym, ◌∙◌, subst, inl, inr, ◌==◌, ◌&&◌, ltb, Bool, true, Option, none, some, List,
  [], ◌∷◌, arith, All, All-append, Bool-cases,
}
use airusb_hub.Core.Status.{Status, ok, busy}
use airusb_hub.Protocol.Codec.Transfers.{SubmitBody}
use airusb_hub.Session.Exporter.{
  Link, Ports, Pending, InFlight, ExporterSession, Books, books, is_leased, has_port,
}
use airusb_hub.Session.Exporter.Sending.{emit_complete}
use airusb_hub.Session.Exporter.Queue.{
  push_back, pending_of, has_credit, may_admit, enqueue_transfer, admitted, admit_front,
  admit_queue, admit_queues, admit,
}
use airusb_hub.Session.Exporter.Frames.{emit_complete-books}
use airusb_hub.Session.Exporter.Kept.{if_both}
use airusb_hub.Session.Exporter.Serial.{IsHeld, taken-IsHeld}

-- A queue holds transfers of its own endpoint.
abbrev pub OnEndpoint : ℕ → Pending → Type 0
OnEndpoint ep p = p.sb.ep_addr ≡ ep

abbrev pub IsKeyed : ℕ × List Pending → Type 0
IsKeyed e = All (OnEndpoint e.0) e.1

abbrev pub IsSerial : Books → Type 0
IsSerial b = All IsKeyed b.queues × IsHeld b.in_flight b.busy_endpoint

push_back-IsKeyed :
    (ep : ℕ) (p : Pending) (queues : List (ℕ × List Pending))
    → p.sb.ep_addr ≡ ep
    → All IsKeyed queues
    → All IsKeyed (push_back ep p queues)
unfolding push_back
push_back-IsKeyed ep p [] own nothing = ((own, tt), tt)
push_back-IsKeyed ep p ((at, q) ∷ more) own (here, there) = elim (Bool-cases (at == ep)) [
  | inl same ↦
      let at_ep : ep ≡ at = ground arith in
      rw same (All-append (OnEndpoint at) q (p ∷ []) (own ∙ at_ep, tt) here, there)
  | inr other ↦ rw other (
      if_both (All IsKeyed) (ltb ep at) _ _ ((own, tt), (here, there))
        (here, push_back-IsKeyed ep p more own there))
]

module _ {T P D : Type 0} (over : Link T) where
  abbrev pub Flights : ExporterSession T P D → Type 0
  Flights s = IsHeld s.plane.in_flight s.plane.busy_endpoint

  pub emit-Flights :
      (f : InFlight) (st : Status) (n : ℕ) (c z : Bool) (payload : List ℕ)
      (s : ExporterSession T P D)
      → Flights s
      → Flights (emit_complete over f st n c z payload s).0
  emit-Flights f st n c z payload s v =
      subst (λ (b : Books). IsHeld b.in_flight b.busy_endpoint)
        (sym (emit_complete-books over f st n c z payload s)) v

  pub emit-IsSerial :
      (f : InFlight) (st : Status) (n : ℕ) (c z : Bool) (payload : List ℕ)
      (s : ExporterSession T P D)
      → IsSerial (books s)
      → IsSerial (books (emit_complete over f st n c z payload s).0)
  emit-IsSerial f st n c z payload s v =
      subst IsSerial (sym (emit_complete-books over f st n c z payload s)) v

  pub enqueue-IsSerial :
      (now ch id : ℕ) (sb : SubmitBody) (payload : List ℕ) (s : ExporterSession T P D)
      → IsSerial (books s)
      → IsSerial (books (enqueue_transfer over now ch id sb payload s).0)
  unfolding enqueue_transfer pending_of
  enqueue-IsSerial now ch id sb payload s (keyed, held) =
      elim (Bool-cases (has_credit s.plane payload)) [
        | inl credit ↦ rw credit (
          push_back-IsKeyed sb.ep_addr (pending_of now ch id sb payload) s.plane.queues refl keyed,
          held,
        )
        | inr refused ↦ rw refused (
            emit-IsSerial _ _ _ _ _ _ (record s { accepted = (ch, id) ∷ s.accepted }) (keyed, held))
      ]

module _ {T P D : Type 0} (over : Link T) (ports : Ports P) where
  -- A queue of one endpoint is kept so, beside what is in flight.
  abbrev QueueKept : ℕ → List Pending × ExporterSession T P D → Type 0
  QueueKept ep r = All (OnEndpoint ep) r.0 × Flights over r.1

  admitted-Flights :
      (ep : ℕ) (p : Pending) (q : List Pending) (token : ℕ) (s : ExporterSession T P D)
      (st : Status)
      → may_admit ep s.plane ≡ true
      → p.sb.ep_addr ≡ ep
      → All (OnEndpoint ep) q
      → Flights over s
      → QueueKept ep (admitted over ports ep p q token s st)
  unfolding admitted
  admitted-Flights ep p q token s busy may own keyed v = ((own, keyed), v)
  admitted-Flights ep p q token s ok may own keyed v =
      (keyed, taken-IsHeld ep token p s.plane may own v)
  admitted-Flights ep p q token s other may own keyed v = (keyed, emit-Flights over _ _ _ _ _ _ s v)

  front-Flights :
      (ep : ℕ) (p : Pending) (q : List Pending) (s : ExporterSession T P D) (port : Option P)
      → may_admit ep s.plane ≡ true
      → p.sb.ep_addr ≡ ep
      → All (OnEndpoint ep) q
      → Flights over s
      → QueueKept ep (admit_front over ports ep p q s port)
  unfolding admit_front may_admit
  front-Flights ep p q s none may own keyed v = ((own, keyed), v)
  front-Flights ep p q s (some port) may own keyed v =
      admitted-Flights ep p q s.plane.next_token _ _ may own keyed v

  queue-Flights :
      (ep : ℕ) (q : List Pending) (s : ExporterSession T P D)
      → All (OnEndpoint ep) q
      → Flights over s
      → QueueKept ep (admit_queue over ports ep q s)
  unfolding admit_queue
  queue-Flights ep [] s keyed v = (tt, v)
  queue-Flights ep (p ∷ q) s (own, keyed) v = elim (Bool-cases (may_admit ep s.plane)) [
    | inl may ↦ rw may (front-Flights ep p q s s.port may own keyed v)
    | inr waits ↦ rw waits ((own, keyed), v)
  ]

  queues-Flights :
      (queues : List (ℕ × List Pending)) (s : ExporterSession T P D)
      → All IsKeyed queues
      → Flights over s
      → let r = admit_queues over ports queues s in All IsKeyed r.0 × Flights over r.1
  unfolding admit_queues
  queues-Flights [] s keyed v = (tt, v)
  queues-Flights ((ep, q) ∷ more) s (here, there) v =
      let front = queue-Flights ep q s here v in
      let rest = queues-Flights more (admit_queue over ports ep q s).1 there front.1 in
      ((front.0, rest.0), rest.1)

  pub admit-IsSerial :
      (s : ExporterSession T P D) → IsSerial (books s) → IsSerial (books (admit over ports s))
  unfolding admit
  admit-IsSerial s v =
      let done = admit_queues over ports s.plane.queues s in
      let kept = queues-Flights s.plane.queues s v.0 v.1 in
      if_both (λ (r : ExporterSession T P D). IsSerial (books r))
        (is_leased s.state && has_port s.port)
        (record done.1 { plane = record done.1.plane { queues = done.0 } }) s kept v

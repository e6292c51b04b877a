-- ===== src/Session/Exporter/History.antt =====
-- Sessions from their first round on: what holds after any rounds of the event loop.
mod Examples
pub mod Strangers
pub mod Losses
use airusb_hub.Base.{
  ℕ, ◌≡◌, ◌≤◌, ◌+◌, ◌⊎◌, inl, inr, refl, sym, ◌∙◌, ap, subst, true, false, some, List, [], ◌∷◌,
  arith, if◌then◌else◌, ◌==◌, ◌&&◌, length, sum_of, lookup,
}
use airusb_hub.Core.Status.{Status}
use airusb_hub.Session.Exporter.{
  Link, Ports, Source, Peer, InFlight, Pending, ExporterSession, Books, books, credit_urbs,
  credit_bytes, queued_in, is_ep0,
}
use airusb_hub.Session.Exporter.Queue.{bytes_in}
use airusb_hub.Session.Exporter.Outcomes.{on_plane}
use airusb_hub.Session.Exporter.Endings.{fail_flights, fail_queues, fail_rest}
use airusb_hub.Session.Exporter.Measure.Ends.{queues-Answers, verbs-Answers}
use airusb_hub.Session.Exporter.Pump.{Reading, pump}
use airusb_hub.Session.Exporter.Serial.{nothing-IsHeld}
use airusb_hub.Session.Exporter.Measure.Bounds.{
  IsSound, pump-IsSound, key_weights, count_weights, byte_weights, weight-count, weight-bytes,
}

-- What the surroundings give to one round.
pub record Round : Type 0 where
  pub now : ℕ
  pub fresh : List ℕ
  pub peer : Peer
  pub readings : List Reading

-- 1 for the key, and 0 for any other.
abbrev pub hits : ℕ → ℕ → ℕ → ℕ → ℕ
hits channel request_id ch id = if (ch == channel) && (id == request_id) then 1 else 0

abbrev pub count_keys : ℕ → ℕ → List (ℕ × ℕ) → ℕ
count_keys channel request_id = sum_of (λ a. hits channel request_id a.0 a.1)

abbrev pub count_flights : ℕ → ℕ → List (ℕ × InFlight) → ℕ
count_flights channel request_id = sum_of (λ e. hits channel request_id e.1.channel e.1.request_id)

abbrev pub count_queues : ℕ → ℕ → List (ℕ × List Pending) → ℕ
count_queues channel request_id =
    sum_of (λ e. sum_of (λ p. hits channel request_id p.channel p.request_id) e.1)

some-injective : {a b : ℕ} → some a ≡ some b → a ≡ b
some-injective e = cc

abbrev pub no_books : Books
no_books = record { queues = []; in_flight = []; busy_endpoint = []; accepted = []; answered = [] }

pub no_books-IsSound : IsSound no_books
unfolding key_weights count_weights byte_weights
no_books-IsSound = record {
  serial = (tt, nothing-IsHeld);
  once = λ v. omega arith;
  urbs = omega arith;
  bytes = omega arith;
}

module _ {T P D : Type 0} (over : Link T) (ports : Ports P) (source : Source D P)
    (hash : List ℕ → List ℕ) where
  unfoldable pub rounds : List Round → ExporterSession T P D → ExporterSession T P D
  rounds [] s = s
  rounds (r ∷ rs) s = rounds rs (pump over ports source hash r.now r.fresh r.peer r.readings s).0

  rounds-IsSound :
      (rs : List Round) (s : ExporterSession T P D)
      → IsSound (books s)
      → IsSound (books (rounds rs s))
  unfolding rounds
  rounds-IsSound [] s v = v
  rounds-IsSound (r ∷ rs) s v =
      rounds-IsSound rs _ (pump-IsSound over ports source hash r.now r.fresh r.peer r.readings s v)

  begun-IsSound : (s : ExporterSession T P D) → books s ≡ no_books → IsSound (books s)
  begun-IsSound s e = subst IsSound (sym e) no_books-IsSound

  -- A session that begins with no transfers has, after any rounds, at most one transfer in its table
  -- of transfers in flight for each endpoint, and none beside a control transfer: two tokens whose
  -- transfers have the same endpoint, or one of which has a control transfer, are the same.
  pub rounds-alone :
      (rs : List Round) (s : ExporterSession T P D) (token other : ℕ) (f g : InFlight)
      → books s ≡ no_books
      → lookup token (rounds rs s).plane.in_flight ≡ some f
      → lookup other (rounds rs s).plane.in_flight ≡ some g
      → (f.ep_addr ≡ g.ep_addr) ⊎ (is_ep0 f.ep_addr ≡ true)
      → token ≡ other
  rounds-alone rs s token other f g begun ef eg (inl same) =
      let v = rounds-IsSound rs s (begun-IsSound s begun) in
      some-injective (
        sym (v.serial.1.held token f ef)
        ∙ ap (λ ep. lookup ep (rounds rs s).plane.busy_endpoint) same
        ∙ v.serial.1.held other g eg)
  rounds-alone rs s token other f g begun ef eg (inr zero) =
      (rounds-IsSound rs s (begun-IsSound s begun)).serial.1.alone token other f g ef eg zero

  -- A session that begins with no transfers holds, after any rounds, no more than 64 transfers
  -- queued and in flight together, and no more than 4 MiB of queued data.
  pub rounds-credit :
      (rs : List Round) (s : ExporterSession T P D)
      → books s ≡ no_books
      → let d = (rounds rs s).plane in
        (queued_in d.queues + length d.in_flight ≤ credit_urbs) × (bytes_in d.queues ≤ credit_bytes)
  rounds-credit rs s begun =
      let v = rounds-IsSound rs s (begun-IsSound s begun) in
      let b = books (rounds rs s) in
      (omega (arith, v.urbs, weight-count b), omega (arith, v.bytes, weight-bytes b))

  -- A session that begins with no transfers has, after any rounds, accepted every channel and
  -- request id at least as often as it answered them, even together with those that wait in a queue
  -- or are in flight.
  pub rounds-once :
      (rs : List Round) (s : ExporterSession T P D) (channel request_id : ℕ)
      → books s ≡ no_books
      → let s' = rounds rs s in
        count_keys channel request_id s'.answered
          + (count_flights channel request_id s'.plane.in_flight
              + count_queues channel request_id s'.plane.queues)
        ≤ count_keys channel request_id s'.accepted
  unfolding key_weights
  rounds-once rs s channel request_id begun =
      omega (arith, (rounds-IsSound rs s (begun-IsSound s begun)).once (hits channel request_id))

module _ {T P D : Type 0} (over : Link T) where
  -- Nothing is left of the transfers and the verbs.
  pub emptied :
      (st : Status) (s : ExporterSession T P D)
      → let s' = fail_rest over st s in
        (s'.plane.queues ≡ []) × (s'.plane.in_flight ≡ []) × (s'.verbs ≡ [])
  unfolding fail_rest on_plane
  emptied st s =
      let s1 = fail_flights over st s.plane.in_flight s in
      let s2 = on_plane (λ d. record d { in_flight = []; busy_endpoint = [] }) s1 in
      let s3 = fail_queues over st s2.plane.queues s2 in
      let flying = queues-Answers count_weights over st s2.plane.queues s2 in
      let s4 = on_plane (λ d. record d { queues = [] }) s3 in
      let left = verbs-Answers count_weights over st s3.verbs s4 in
      (left.2, left.1 ∙ flying.1, refl)

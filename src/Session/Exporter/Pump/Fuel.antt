-- ===== src/Session/Exporter/Pump/Fuel.antt =====
-- airusb/session/ExporterSession: the loop of `pump` over the messages of a record does not run out
-- of fuel.
use airusb_hub.Base.{
  ℕ, zero, suc, ◌≡◌, ◌≤◌, refl, Option, none, some, List, [], ◌∷◌, arith, length, length-drop, take,
  drop,
}
use airusb_hub.Protocol.Codec.Headers.{Header, decode_header, header_size}
use airusb_hub.Session.Exporter.{Link, Ports, Source, Peer, ExporterSession}
use airusb_hub.Session.Exporter.Pump.{Ending, message_at, messages, handle}

module _ {T P D : Type 0} (over : Link T) (ports : Ports P) (source : Source D P)
    (hash : List ℕ → List ℕ) (now : ℕ) (fresh : List ℕ) (peer : Peer) where
  behind_le :
      (n fuel b : ℕ) (rest : List ℕ)
      → length (b ∷ rest) ≤ suc fuel
      → length (drop n (drop header_size (b ∷ rest))) ≤ fuel
  behind_le n fuel b rest le =
      omega (arith, length-drop n (drop header_size (b ∷ rest)), length-drop header_size (b ∷ rest))

  -- A message is followed by what takes the bytes behind it, and by nothing else.
  message_at-again :
      (again other : ExporterSession T P D → List ℕ → ExporterSession T P D × Ending) (b fuel : ℕ)
      (rest : List ℕ) (s : ExporterSession T P D) (h : Option Header)
      → length (b ∷ rest) ≤ suc fuel
      → ((s' : ExporterSession T P D) (r : List ℕ) → length r ≤ fuel → again s' r ≡ other s' r)
      → message_at over ports source hash now fresh peer again (b ∷ rest) s h
        ≡ message_at over ports source hash now fresh peer other (b ∷ rest) s h
  unfolding message_at
  message_at-again again other b fuel rest s none le same = refl
  message_at-again again other b fuel rest s (some h) le same =
      let body = drop header_size (b ∷ rest) in
      let r = handle over ports source hash now fresh peer h (take h.body_len body) s in
      rw (same r.0 (drop h.body_len body) (behind_le h.body_len fuel b rest le)) refl

  -- Every fuel that is at least the record's length gives the same.
  messages-enough :
      (fuel more : ℕ) (s : ExporterSession T P D) (rest : List ℕ)
      → length rest ≤ fuel
      → length rest ≤ more
      → messages over ports source hash now fresh peer fuel s rest
        ≡ messages over ports source hash now fresh peer more s rest
  unfolding messages
  messages-enough zero zero s rest le le' = refl
  messages-enough zero (suc more) s [] le le' = refl
  messages-enough (suc fuel) zero s [] le le' = refl
  messages-enough (suc fuel) (suc more) s [] le le' = refl
  messages-enough zero (suc more) s (b ∷ rest) le le' = absurd (omega (arith, le))
  messages-enough (suc fuel) zero s (b ∷ rest) le le' = absurd (omega (arith, le'))
  messages-enough (suc fuel) (suc more) s (b ∷ rest) le le' =
      message_at-again (messages over ports source hash now fresh peer fuel)
        (messages over ports source hash now fresh peer more) b (length rest) rest s
        (decode_header (b ∷ rest)) (omega arith)
        (λ s' r short.
          messages-enough fuel more s' r (omega (arith, short, le)) (omega (arith, short, le')))

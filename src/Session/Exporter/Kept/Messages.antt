-- ===== src/Session/Exporter/Kept/Messages.antt =====
-- What the verbs and the control messages keep.
use airusb_hub.Base.{ℕ, refl, not, ◌||◌, ◌==◌, ◌%◌, true, false, Option, none, some, List, [], ◌∷◌}
use airusb_hub.Core.Status.{Status, xfer_cancelled, detaching}
use airusb_hub.Protocol.Codec.Headers.{Header}
use airusb_hub.Protocol.Messages.{PingBody, DetachBody, decode_detach, decode_ping}
use airusb_hub.Session.Exporter.{
  Link, Ports, Source, Peer, PendingVerb, ExporterSession, is_leased, has_port, may_list, draining,
}
use airusb_hub.Session.Exporter.Sending.{send_record, send_simple}
use airusb_hub.Session.Exporter.Outcomes.{is_ok, on_plane}
use airusb_hub.Session.Exporter.Endings.{fail_all_transfers}
use airusb_hub.Session.Exporter.Handlers.{reset_reassembly}
use airusb_hub.Session.Exporter.Handlers.Verbs.{
  clear_on, issue_verb, reset_leg, last_leg, reset_legs, handle_clear_halt, handle_device_reset,
  bulk_endpoints, reset_all,
}
use airusb_hub.Session.Exporter.Handlers.Control.{
  ping_decoded, handle_ping, handle_list_devices, detached, detach_decoded, is_attached,
  handle_detach, close,
}
use airusb_hub.Session.Exporter.Kept.{IsKept, if_both, Answers, refuse-Kept, send-Kept}

module _ {T P D : Type 0} (over : Link T) (ports : Ports P) (Inv : ExporterSession T P D → Type 0)
    (law : IsKept over ports Inv) where
  abbrev Keeps : ExporterSession T P D × Status → Type 0
  Keeps = Answers over ports Inv law

  clear_on-Kept :
      (v : PendingVerb) (s : ExporterSession T P D) (port : Option P)
      → Inv s
      → Keeps (clear_on ports v s port)
  unfolding clear_on on_plane
  clear_on-Kept v s none i = i
  clear_on-Kept v s (some port) i =
      if_both Keeps (is_ok (ports.clear_halt port s.plane.next_token v.ep_addr).1) _ _
        (law.framed s _ refl i) (law.framed s _ refl i)

  issue-Kept : (v : PendingVerb) (s : ExporterSession T P D) → Inv s → Keeps (issue_verb ports v s)
  unfolding issue_verb
  issue-Kept v s i = clear_on-Kept v s s.port i

  leg-Kept : (id ep : ℕ) (s : ExporterSession T P D) → Inv s → Keeps (reset_leg ports id ep s)
  unfolding reset_leg
  leg-Kept id ep s i =
      let v : PendingVerb = record { request_id = id; ep_addr = ep; is_reset = true } in
      let r = issue_verb ports v s in
      if_both Keeps (is_ok r.1) _ _ (law.framed r.0 _ refl (issue-Kept v s i))
        (law.framed r.0 _ refl (issue-Kept v s i))

  last_leg-Kept :
      (id : ℕ) (r : ExporterSession T P D × Status) → Keeps r → Keeps (last_leg over ports id r)
  unfolding last_leg
  last_leg-Kept id (s, st) i =
      if_both Keeps (is_ok st) _ _ i
        (if_both Keeps (id == 0) _ _ i (send-Kept over ports Inv law _ _ _ _ s i))

  legs-Kept :
      (id : ℕ) (eps : List ℕ) (s : ExporterSession T P D)
      → Inv s
      → Keeps (reset_legs over ports id eps s)
  unfolding reset_legs
  legs-Kept id [] s i = i
  legs-Kept id (ep ∷ []) s i = last_leg-Kept id (reset_leg ports id ep s) (leg-Kept id ep s i)
  legs-Kept id (ep ∷ next ∷ more) s i =
      legs-Kept id (next ∷ more) (reset_leg ports 0 ep s).0 (leg-Kept 0 ep s i)

  pub handle_clear_halt-Kept :
      (h : Header) (s : ExporterSession T P D) → Inv s → Keeps (handle_clear_halt over ports h s)
  unfolding handle_clear_halt
  handle_clear_halt-Kept h s i =
      let v : PendingVerb = record {
        request_id = h.request_id;
        ep_addr = h.channel % 256;
        is_reset = false;
      } in
      let r = issue_verb ports v s in
      if_both Keeps (not (is_leased s.state) || not (has_port s.port)) _ _
        (refuse-Kept over ports Inv law h _ _ s i)
        (if_both Keeps (not (h.attach_id == s.attach_id)) _ _ i (
          if_both Keeps (is_ok r.1) _ _ (issue-Kept v s i)
            (send-Kept over ports Inv law _ _ _ _ r.0 (issue-Kept v s i))))

  reset_all-Kept :
      (id : ℕ) (eps : List ℕ) (s : ExporterSession T P D)
      → Inv s
      → Keeps (reset_all over ports id eps s)
  unfolding reset_all
  reset_all-Kept id [] s i = send-Kept over ports Inv law _ _ _ _ s i
  reset_all-Kept id (ep ∷ more) s i = legs-Kept id (ep ∷ more) _ (law.framed s _ refl i)

  pub handle_device_reset-Kept :
      (h : Header) (s : ExporterSession T P D) → Inv s → Keeps (handle_device_reset over ports h s)
  unfolding handle_device_reset
  handle_device_reset-Kept h s i =
      if_both Keeps (not (is_leased s.state) || not (has_port s.port)) _ _
        (refuse-Kept over ports Inv law h _ _ s i)
        (if_both Keeps (not (h.attach_id == s.attach_id)) _ _ i
          (reset_all-Kept h.request_id (bulk_endpoints 256 0 s.config_value s.manifest) s i))

  ping-Kept :
      (now : ℕ) (h : Header) (s : ExporterSession T P D) (p : Option PingBody)
      → Inv s
      → Keeps (ping_decoded over now h s p)
  unfolding ping_decoded
  ping-Kept now h s none i = refuse-Kept over ports Inv law h _ _ s i
  ping-Kept now h s (some p) i = send-Kept over ports Inv law _ _ _ _ s i

  pub handle_ping-Kept :
      (now : ℕ) (h : Header) (body : List ℕ) (s : ExporterSession T P D)
      → Inv s
      → Keeps (handle_ping over now h body s)
  unfolding handle_ping
  handle_ping-Kept now h body s i = ping-Kept now h s (decode_ping body) i

module _ {T P D : Type 0} (over : Link T) (ports : Ports P) (source : Source D P)
    (Inv : ExporterSession T P D → Type 0) (law : IsKept over ports Inv) where
  pub handle_list_devices-Kept :
      (peer : Peer) (h : Header) (s : ExporterSession T P D)
      → Inv s
      → Inv (handle_list_devices over source peer h s).0
  unfolding handle_list_devices
  handle_list_devices-Kept peer h s i =
      let listed = source.list s.devices in
      if_both (Answers over ports Inv law) (not (may_list peer)) _ _
        (refuse-Kept over ports Inv law h _ _ s i)
        (send-Kept over ports Inv law _ _ _ _ (record s { devices = listed.0 })
          (law.framed s _ refl i))

  pub detached-Kept :
      (now : ℕ) (peer : Peer) (h : Header) (s : ExporterSession T P D)
      → Inv s
      → Inv (detached over ports source now peer h s).0
  unfolding detached reset_reassembly send_simple send_record
  detached-Kept now peer h s i =
      let s' = record (reset_reassembly s) { state = draining } in
      law.framed (fail_all_transfers over ports xfer_cancelled s') _ refl
        (law.failed xfer_cancelled s' (law.framed s _ refl i))

  detach-Kept :
      (now : ℕ) (peer : Peer) (h : Header) (s : ExporterSession T P D) (b : Option DetachBody)
      → Inv s
      → Inv (detach_decoded over ports source now peer h s b).0
  unfolding detach_decoded
  detach-Kept now peer h s none i = refuse-Kept over ports Inv law h _ _ s i
  detach-Kept now peer h s (some b) i =
      if_both (Answers over ports Inv law) (is_attached s.state) _ _ (detached-Kept now peer h s i)
        (refuse-Kept over ports Inv law h _ _ s i)

  pub handle_detach-Kept :
      (now : ℕ) (peer : Peer) (h : Header) (body : List ℕ) (s : ExporterSession T P D)
      → Inv s
      → Inv (handle_detach over ports source now peer h body s).0
  unfolding handle_detach
  handle_detach-Kept now peer h body s i = detach-Kept now peer h s (decode_detach body) i

  pub close-Kept : (s : ExporterSession T P D) → Inv s → Inv (close over ports source s)
  unfolding close reset_reassembly
  close-Kept s i =
      let s' = reset_reassembly s in
      if_both Inv (has_port s.port) _ _
        (law.framed (fail_all_transfers over ports detaching s') _ refl
          (law.failed detaching s' (law.framed s _ refl i)))
        (law.framed s _ refl i)

-- ===== src/Session/Exporter/Kept/Round.antt =====
-- What a message, a record and a round of the event loop keep.
use airusb_hub.Base.{
  ℕ, zero, suc, ◌%◌, ◌^◌, ◌+◌, ◌==◌, refl, not, ◌&&◌, ltb, Option, none, some, List, [], ◌∷◌,
  if◌then◌else◌, length, take, drop, codes,
}
use airusb_hub.Core.Status.{Status, ok, transport_lost, xfer_timeout, is_fatal}
use airusb_hub.Protocol.Codec.Headers.{Header, decode_header, header_size}
use airusb_hub.Protocol.Validate.{validate_header}
use airusb_hub.Session.Lease.{heard, quarantine, silence_expired}
use airusb_hub.Session.Exporter.{
  Link, Ports, Source, Peer, orphaned, closed, ExporterSession, permitted, is_leased,
}
use airusb_hub.Session.Exporter.Sending.{blank_header}
use airusb_hub.Session.Exporter.Queue.{admit}
use airusb_hub.Session.Exporter.Outcomes.{collect}
use airusb_hub.Session.Exporter.Endings.{fail_all_transfers, sweep_deadlines}
use airusb_hub.Session.Exporter.Handlers.{reset_reassembly, limits_for, is_passed}
use airusb_hub.Session.Exporter.Pump.{
  Reading, arrived, gone, failed, Ending, drained, lost, stopped, is_owed, dispatch, handle,
  message_at, messages, then_read, read_all, orphan, lease_timer, swept, collected_again, collected,
  after_reading, flushed, pump,
}
use airusb_hub.Session.Exporter.Kept.{
  IsKept, if_both, Answers, refuse-Kept, handle_submit-Kept, handle_data-Kept, handle_cancel-Kept,
}
use airusb_hub.Session.Exporter.Kept.Messages.{
  handle_clear_halt-Kept, handle_device_reset-Kept, handle_ping-Kept, handle_list_devices-Kept,
  handle_detach-Kept, close-Kept,
}
use airusb_hub.Session.Exporter.Kept.Claims.{handle_attach-Kept}

module _ {T P D : Type 0} (over : Link T) (ports : Ports P) (source : Source D P)
    (hash : List ℕ → List ℕ) (now : ℕ) (fresh : List ℕ) (peer : Peer)
    (Inv : ExporterSession T P D → Type 0) (law : IsKept over ports Inv) where
  abbrev Keeps : ExporterSession T P D × Status → Type 0
  Keeps = Answers over ports Inv law

  abbrev Reads : ExporterSession T P D × Ending → Type 0
  Reads r = Inv r.0

  dispatch-Kept :
      (h : Header) (body : List ℕ) (s : ExporterSession T P D)
      → Inv s
      → Keeps (dispatch over ports source hash now fresh peer h body s)
  unfolding dispatch
  dispatch-Kept h body s i =
      if_both Keeps (h.type == 0x03) _ _ (handle_ping-Kept over ports Inv law now h body s i) (
        if_both Keeps (h.type == 0x13) _ _
          (handle_list_devices-Kept over ports source Inv law peer h s i)
          (if_both Keeps (h.type == 0x20) _ _
            (handle_attach-Kept over ports source hash now peer h Inv law fresh body s i)
            (if_both Keeps (h.type == 0x23) _ _
              (handle_detach-Kept over ports source Inv law now peer h body s i)
              (if_both Keeps (h.type == 0x40) _ _
                (handle_submit-Kept over ports Inv law now h body s i)
                (if_both Keeps (h.type == 0x44) _ _
                  (handle_data-Kept over ports Inv law now h body s i)
                  (if_both Keeps (h.type == 0x42) _ _
                    (handle_cancel-Kept over ports Inv law h body s i)
                    (if_both Keeps (h.type == 0x32) _ _
                      (handle_clear_halt-Kept over ports Inv law h s i)
                      (if_both Keeps (h.type == 0x33) _ _
                        (handle_device_reset-Kept over ports Inv law h s i)
                        (if_both Keeps (h.type == 0x05) _ _
                          (close-Kept over ports source Inv law (record s { state = closed })
                            (law.framed s _ refl i))
                          (refuse-Kept over ports Inv law h _ _ s i))))))))))

  handle-Kept :
      (h : Header) (body : List ℕ) (s : ExporterSession T P D)
      → Inv s
      → Keeps (handle over ports source hash now fresh peer h body s)
  unfolding handle
  handle-Kept h body s i =
      let s' = record s { handled = (s.handled + 1) % 2 ^ 64 } in
      if_both Keeps (permitted peer h.type) _ _ (dispatch-Kept h body s' (law.framed s _ refl i))
        (refuse-Kept over ports Inv law h _ _ s' (law.framed s _ refl i))

  message-Kept :
      (again : ExporterSession T P D → List ℕ → ExporterSession T P D × Ending)
      → ((s : ExporterSession T P D) (rest : List ℕ) → Inv s → Reads (again s rest))
      → (rest : List ℕ) (s : ExporterSession T P D) (h : Option Header) → Inv s
      → Reads (message_at over ports source hash now fresh peer again rest s h)
  unfolding message_at
  message-Kept again keeps rest s none i = refuse-Kept over ports Inv law blank_header _ _ s i
  message-Kept again keeps rest s (some h) i =
      let body = drop header_size rest in
      let v = validate_header h (length body) (limits_for (over.max_record_bytes s.link)) in
      let r = handle over ports source hash now fresh peer h (take h.body_len body) s in
      let kept = handle-Kept h (take h.body_len body) s i in
      if_both Reads (not (is_passed v)) _ _ (refuse-Kept over ports Inv law h _ _ s i) (
        if_both Reads (ltb (length body) h.body_len) _ _ (refuse-Kept over ports Inv law h _ _ s i)
          (if_both Reads (is_fatal r.1) _ _ kept (keeps r.0 (drop h.body_len body) kept)))

  messages-Kept :
      (fuel : ℕ) (s : ExporterSession T P D) (rest : List ℕ)
      → Inv s
      → Reads (messages over ports source hash now fresh peer fuel s rest)
  unfolding messages
  messages-Kept zero s rest i = i
  messages-Kept (suc fuel) s [] i = i
  messages-Kept (suc fuel) s (b ∷ rest) i =
      message-Kept (messages over ports source hash now fresh peer fuel) (messages-Kept fuel)
        (b ∷ rest) s (decode_header (b ∷ rest)) i

  then_read-Kept :
      (again : ExporterSession T P D → ExporterSession T P D × Ending)
      → ((s : ExporterSession T P D) → Inv s → Reads (again s))
      → (r : ExporterSession T P D × Ending) → Reads r
      → Reads (then_read over ports source hash now fresh peer again r)
  unfolding then_read
  then_read-Kept again keeps (s, drained) i = keeps s i
  then_read-Kept again keeps (s, lost) i = i
  then_read-Kept again keeps (s, stopped st) i = i

  read_all-Kept :
      (readings : List Reading) (s : ExporterSession T P D)
      → Inv s
      → Reads (read_all over ports source hash now fresh peer readings s)
  unfolding read_all
  read_all-Kept [] s i = i
  read_all-Kept (gone ∷ more) s i = i
  read_all-Kept (failed st ∷ more) s i = i
  read_all-Kept (arrived [] ∷ more) s i = i
  read_all-Kept (arrived (b ∷ bytes) ∷ more) s i =
      let s' = record s { last_heard_ns = now; leases = heard now peer.identity_key s.leases } in
      then_read-Kept (read_all over ports source hash now fresh peer more) (read_all-Kept more)
        (messages over ports source hash now fresh peer (suc (length bytes)) s' (b ∷ bytes))
        (messages-Kept (suc (length bytes)) s' (b ∷ bytes) (law.framed s _ refl i))

  orphan-Kept :
      (s : ExporterSession T P D) → Inv s → Inv (orphan over ports source hash now fresh peer s)
  unfolding orphan reset_reassembly
  orphan-Kept s i =
      let held = record s { state = orphaned; leases = quarantine now s.leases } in
      let s' = if is_leased s.state then held else s in
      law.framed (fail_all_transfers over ports transport_lost s') _ refl (
        law.failed transport_lost s'
          (if_both Inv (is_leased s.state) held s (law.framed s _ refl i) i))

  timer-Kept :
      (s : ExporterSession T P D)
      → Inv s
      → Inv (lease_timer over ports source hash now fresh peer s)
  unfolding lease_timer
  timer-Kept s i =
      let held = record s {
        leases = quarantine now s.leases;
        state = orphaned;
        why = codes "the importer stopped answering; the device is held for it";
      } in
      if_both Inv (not (is_owed s) && (is_leased s.state && silence_expired now s.leases)) _ _
        (law.failed xfer_timeout held (law.framed s _ refl i)) i

  swept-Kept :
      (r : ExporterSession T P D × Status)
      → Keeps r
      → Keeps (swept over ports source hash now fresh peer r)
  unfolding swept
  swept-Kept (s, st) i = if_both Keeps (is_fatal st) _ _ i (timer-Kept s i)

  collected_again-Kept :
      (r : ExporterSession T P D × Status)
      → Keeps r
      → Keeps (collected_again over ports source hash now fresh peer r)
  unfolding collected_again
  collected_again-Kept (s, st) i =
      let present = record s { leases = heard now peer.identity_key s.leases } in
      let s' = if is_owed s then present else s in
      if_both Keeps (is_fatal st) _ _ i (
        swept-Kept (sweep_deadlines over ports now s')
          (law.swept now s' (if_both Inv (is_owed s) present s (law.framed s _ refl i) i)))

  collected-Kept :
      (r : ExporterSession T P D × Status)
      → Keeps r
      → Keeps (collected over ports source hash now fresh peer r)
  unfolding collected
  collected-Kept (s, st) i =
      let s' = admit over ports s in
      if_both Keeps (is_fatal st) _ _ i
        (collected_again-Kept (collect over ports s') (law.collected s' (law.admitted s i)))

  after_reading-Kept :
      (r : ExporterSession T P D × Ending)
      → Reads r
      → Keeps (after_reading over ports source hash now fresh peer r)
  unfolding after_reading
  after_reading-Kept (s, drained) i = collected-Kept (collect over ports s) (law.collected s i)
  after_reading-Kept (s, lost) i = orphan-Kept s i
  after_reading-Kept (s, stopped st) i = i

  flushed-Kept :
      (readings : List Reading) (s : ExporterSession T P D) (r : T × Status)
      → Inv s
      → Keeps (flushed over ports source hash now fresh peer readings s r)
  unfolding flushed
  flushed-Kept readings s (t, ok) i =
      let s' = record s { link = t } in
      after_reading-Kept (read_all over ports source hash now fresh peer readings s')
        (read_all-Kept readings s' (law.framed s _ refl i))
  flushed-Kept readings s (t, other) i = law.framed s _ refl i

  pub pump-Kept :
      (readings : List Reading) (s : ExporterSession T P D)
      → Inv s
      → Inv (pump over ports source hash now fresh peer readings s).0
  unfolding pump
  pump-Kept readings s i = if_both Keeps (not (over.is_up s.link)) _ _ i (
      if_both Keeps (over.pending_tx_bytes s.link == 0) _ _
        (after_reading-Kept (read_all over ports source hash now fresh peer readings s)
          (read_all-Kept readings s i))
        (flushed-Kept readings s (over.flush s.link) i))

-- ===== src/Session/Exporter/Kept/Claims.antt =====
-- What ATTACH keeps.
use airusb_hub.Base.{ℕ, refl, not, ◌&&◌, ◌-◌, leb, Option, none, some, List, []}
use airusb_hub.Core.Status.{Status, ok}
use airusb_hub.Protocol.Codec.Headers.{Header, header_size}
use airusb_hub.Protocol.Segmentation.{emit_transfer}
use airusb_hub.Protocol.Manifests.Encode.{encode_manifest}
use airusb_hub.Protocol.Messages.{AttachBody, decode_attach}
use airusb_hub.Session.Lease.{may_claim}
use airusb_hub.Session.Exporter.{
  Link, Ports, Source, Claim, Peer, idle, ExporterSession, may_attach,
}
use airusb_hub.Session.Exporter.Sending.{transmit}
use airusb_hub.Session.Exporter.Attach.{
  attach_failed, unwound, manifest_sent, send_manifest, manifest_header, announced, described,
  leased_to, claimed_port, claimed, allowed, attach_decoded, handle_attach, is_idle,
  has_idling_endpoint,
}
use airusb_hub.Session.Exporter.Kept.{IsKept, if_both, Answers, refuse-Kept, send-Kept}

module _ {T P D : Type 0} (over : Link T) (ports : Ports P) (source : Source D P)
    (hash : List ℕ → List ℕ) (now : ℕ) (peer : Peer) (h : Header)
    (Inv : ExporterSession T P D → Type 0) (law : IsKept over ports Inv) where
  abbrev Keeps : ExporterSession T P D × Status → Type 0
  Keeps = Answers over ports Inv law

  unwound-Kept :
      (s : ExporterSession T P D) → Inv s → Inv (unwound over ports source hash now peer s)
  unfolding unwound
  unwound-Kept s i = law.framed s _ refl i

  failed-Kept :
      (st : Status) (why : List ℕ) (s : ExporterSession T P D)
      → Inv s
      → Keeps (attach_failed over h st why s)
  unfolding attach_failed
  failed-Kept st why s i =
      send-Kept over ports Inv law _ _ _ _ (record s { why = why }) (law.framed s _ refl i)

  manifest_sent-Kept :
      (s : ExporterSession T P D) (st : Status)
      → Inv s
      → Keeps (manifest_sent over ports source hash now peer h s st)
  unfolding manifest_sent unwound
  manifest_sent-Kept s ok i = law.framed s _ refl i
  manifest_sent-Kept s other i =
      refuse-Kept over ports Inv law h _ _
        (record (unwound over ports source hash now peer s) { state = idle })
        (law.framed s _ refl i)

  send_manifest-Kept :
      (body : List ℕ) (s : ExporterSession T P D)
      → Inv s
      → Keeps (send_manifest over ports source hash now peer h body s)
  unfolding send_manifest
  send_manifest-Kept body s i =
      let max_plain = over.max_plaintext_bytes s.link in
      let sent =
        emit_transfer (transmit over) (manifest_header s.attach_id h.request_id) [] body
          (max_plain - header_size) s.link in
      if_both Keeps (leb max_plain header_size) _ _ i
        (manifest_sent-Kept (record s { link = sent.0 }) sent.1 (law.framed s _ refl i))

  announced-Kept :
      (body : List ℕ) (r : ExporterSession T P D × Status)
      → Keeps r
      → Keeps (announced over ports source hash now peer h body r)
  unfolding announced
  announced-Kept body (s, ok) i = send_manifest-Kept body s i
  announced-Kept body (s, other) i = i

  described-Kept :
      (s : ExporterSession T P D) (m : List ℕ × Status)
      → Inv s
      → Keeps (described over ports source hash now peer h s m)
  unfolding described
  described-Kept s (body, ok) i = announced-Kept body _ (send-Kept over ports Inv law _ _ _ _ s i)
  described-Kept s (body, other) i =
      refuse-Kept over ports Inv law h _ _ (unwound over ports source hash now peer s)
        (unwound-Kept s i)

  module _ (fresh : List ℕ) (a : AttachBody) where
    leased_to-Kept :
        (port : P) (c : Claim P) (s : ExporterSession T P D)
        → Inv s
        → Keeps (leased_to over ports source hash now fresh peer h a port c s)
    unfolding leased_to
    leased_to-Kept port c s i =
        described-Kept _ (encode_manifest hash c.manifest c.config_value []) (law.framed s _ refl i)

    claimed_port-Kept :
        (c : Claim P) (s : ExporterSession T P D) (port : Option P)
        → Inv s
        → Keeps (claimed_port over ports source hash now fresh peer h a c s port)
    unfolding claimed_port
    claimed_port-Kept c s none i =
        refuse-Kept over ports Inv law h _ _ (record s { devices = source.release s.devices a.uid })
          (law.framed s _ refl i)
    claimed_port-Kept c s (some port) i =
        if_both Keeps (not (ports.can_idle port) && has_idling_endpoint c.manifest) _ _
          (failed-Kept _ _ (record s { devices = source.release s.devices a.uid })
            (law.framed s _ refl i))
          (leased_to-Kept port c s i)

    claimed-Kept :
        (c : Claim P) (s : ExporterSession T P D) (st : Status)
        → Inv s
        → Keeps (claimed over ports source hash now fresh peer h a c s st)
    unfolding claimed
    claimed-Kept c s ok i = claimed_port-Kept c s c.port i
    claimed-Kept c s other i = failed-Kept _ c.why s i

    allowed-Kept :
        (s : ExporterSession T P D) (st : Status)
        → Inv s
        → Keeps (allowed over ports source hash now fresh peer h a s st)
    unfolding allowed
    allowed-Kept s ok i =
        let c = source.claim s.devices a.uid in
        claimed-Kept c.1 (record s { devices = c.0 }) c.1.status (law.framed s _ refl i)
    allowed-Kept s other i = failed-Kept _ _ s i

  decoded-Kept :
      (fresh : List ℕ) (s : ExporterSession T P D) (b : Option AttachBody)
      → Inv s
      → Keeps (attach_decoded over ports source hash now fresh peer h s b)
  unfolding attach_decoded
  decoded-Kept fresh s none i = refuse-Kept over ports Inv law h _ _ s i
  decoded-Kept fresh s (some a) i =
      if_both Keeps (is_idle s.state) _ _
        (allowed-Kept fresh a s (may_claim peer.identity_key a.uid s.leases) i)
        (refuse-Kept over ports Inv law h _ _ s i)

  pub handle_attach-Kept :
      (fresh body : List ℕ) (s : ExporterSession T P D)
      → Inv s
      → Inv (handle_attach over ports source hash now fresh peer h body s).0
  unfolding handle_attach
  handle_attach-Kept fresh body s i =
      if_both Keeps (may_attach peer) _ _ (decoded-Kept fresh s (decode_attach body) i)
        (refuse-Kept over ports Inv law h _ _ s i)

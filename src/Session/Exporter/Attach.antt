-- ===== src/Session/Exporter/Attach.antt =====
-- airusb/session/ExporterSession: ATTACH.
--
-- The digest of the manifest is a parameter, and so is the reading of the clock and the token of
-- the random source that the grant uses.
use airusb_hub.Base.{
  ℕ, zero, suc, ◌+◌, ◌-◌, ◌%◌, ◌^◌, Bool, true, false, not, ◌&&◌, ◌||◌, Option, none, some, List,
  [], ◌∷◌, ltb, leb, ◌==◌, if◌then◌else◌, length, get_or, codes,
}
use airusb_hub.Core.Status.{
  Status, ok, malformed_frame, not_permitted, busy, internal, unsupported_message, manifest_invalid,
}
use airusb_hub.Core.Usb.{EndpointModel, XferType, isochronous, interrupt}
use airusb_hub.Core.Manifest.{DeviceManifest, endpoints_for}
use airusb_hub.Protocol.Codec.Headers.{Header, header_size}
use airusb_hub.Protocol.Codec.Tlvs.{append_tlv}
use airusb_hub.Protocol.Segmentation.{emit_transfer}
use airusb_hub.Protocol.Manifests.{speed_code}
use airusb_hub.Protocol.Manifests.Encode.{encode_manifest}
use airusb_hub.Protocol.Messages.{
  AttachBody, decode_attach, AttachOkBody, attach_ok_init, encode_attach_ok, reject_reason,
}
use airusb_hub.Session.Lease.{
  LeaseAuthority, LeaseState, free, leased, quarantined, is_owner, may_claim, grant, release,
}
use airusb_hub.Session.Exporter.{
  Link, Ports, Source, Claim, Peer, State, idle, ExporterSession, may_attach, credit_urbs,
  credit_bytes,
}
use airusb_hub.Session.Exporter.Sending.{blank_header, transmit, send_simple}
use airusb_hub.Session.Exporter.Handlers.{refuse_message}

unfoldable pub is_idle : State → Bool
is_idle idle = true
is_idle other = false

-- The sentence that `mayClaim` gives.
same_uid : List ℕ → List ℕ → Bool
same_uid [] [] = true
same_uid [] (y ∷ ys) = false
same_uid (x ∷ xs) [] = false
same_uid (x ∷ xs) (y ∷ ys) = x == y && same_uid xs ys

claim_sentence : LeaseState → Bool → Bool → List ℕ
claim_sentence free same owner = []
claim_sentence leased true owner = codes "That device is already in use."
claim_sentence leased false owner = codes "This machine is already sharing a device."
claim_sentence quarantined same true =
    codes
      "Your earlier session is still holding this device. Recover it rather than attaching again."
claim_sentence quarantined same false =
    codes
      "Another machine still holds this device. It stopped answering rather than releasing it, so it is being kept for that machine until somebody at this one takes it back."

unfoldable pub claim_why : List ℕ → List ℕ → LeaseAuthority → List ℕ
unfolding same_uid claim_sentence
claim_why peer uid a = claim_sentence a.s.state (same_uid a.s.uid uid) (is_owner peer a)

may_idle : XferType → Bool
may_idle interrupt = true
may_idle isochronous = true
may_idle other = false

any_idling : List EndpointModel → Bool
unfolding may_idle
any_idling [] = false
any_idling (e ∷ es) = may_idle e.kind || any_idling es

-- Whether one of `count` interfaces from `iface` on has an endpoint that may never finish.
idling_interface : ℕ → ℕ → ℕ → DeviceManifest → Bool
unfolding any_idling
idling_interface zero iface config_value m = false
idling_interface (suc count) iface config_value m =
    any_idling (endpoints_for config_value iface 0 m)
    || idling_interface count (iface + 1) config_value m

idling_configuration : List (List ℕ) → DeviceManifest → Bool
unfolding idling_interface
idling_configuration [] m = false
idling_configuration (blob ∷ more) m =
    if ltb (length blob) 6
    then idling_configuration more m
    else idling_interface 256 0 (get_or blob 5 0) m || idling_configuration more m

-- The configurations are looked up by their indices, which are those of the list.
unfoldable pub has_idling_endpoint : DeviceManifest → Bool
unfolding idling_configuration
has_idling_endpoint m = idling_configuration m.configs m

unfoldable pub manifest_header : ℕ → ℕ → Header
manifest_header attach_id request_id = record blank_header {
  type = 0x22;
  attach_id = attach_id;
  request_id = request_id;
}

-- ATTACH_OK's body for a lease that was granted; flag 1 is DEVICE_RESET's.
unfoldable pub attach_ok_of : ℕ → ℕ → DeviceManifest → ℕ → AttachOkBody
attach_ok_of attach_id lease_epoch manifest manifest_len = record attach_ok_init {
  attach_id = attach_id;
  credit_urbs = credit_urbs;
  credit_bytes = credit_bytes;
  speed = speed_code manifest.speed;
  cancel_granularity = 0;
  exporter_flags = 1;
  manifest_len = manifest_len % 2 ^ 32;
  lease_epoch = lease_epoch;
  urb_ceiling_ms = 30_000;
}

module _ {T P D : Type 0} (over : Link T) where
  -- An ATTACH_OK that carries a failure and its sentence.
  unfoldable pub attach_failed :
      Header → Status → List ℕ → ExporterSession T P D → ExporterSession T P D × Status
  attach_failed h st why s =
      let b =
        append_tlv (record { type = reject_reason; value = why })
          (encode_attach_ok attach_ok_init []) in
      send_simple over 0x21 st h.request_id b (record s { why = why })

module _ {T P D : Type 0} (over : Link T) (ports : Ports P) (source : Source D P)
    (hash : List ℕ → List ℕ) where
  -- The lease and the device are given back.
  unfoldable pub unwound : ℕ → Peer → ExporterSession T P D → ExporterSession T P D
  unwound now peer s = record s {
    leases = release now peer.identity_key s.leases;
    devices = source.release s.devices s.uid;
    port = none;
    attach_id = 0;
  }

  unfoldable pub manifest_sent :
      ℕ → Peer → Header → ExporterSession T P D → Status → ExporterSession T P D × Status
  manifest_sent now peer h s ok = (record s { state = State.leased }, ok)
  manifest_sent now peer h s other =
      refuse_message over h other "This device's descriptor set could not be sent."
        (record (unwound now peer s) { state = idle })

  -- The manifest, segmented, behind ATTACH_OK.
  unfoldable pub send_manifest :
      ℕ → Peer → Header → List ℕ → ExporterSession T P D → ExporterSession T P D × Status
  unfolding manifest_sent
  send_manifest now peer h body s =
      let max_plain = over.max_plaintext_bytes s.link in
      let sent =
        emit_transfer (transmit over) (manifest_header s.attach_id h.request_id) [] body
          (max_plain - header_size) s.link in
      if leb max_plain header_size
      then (s, internal)
      else manifest_sent now peer h (record s { link = sent.0 }) sent.1

  unfoldable pub announced :
      ℕ → Peer → Header → List ℕ → ExporterSession T P D × Status → ExporterSession T P D × Status
  announced now peer h body (s, ok) = send_manifest now peer h body s
  announced now peer h body (s, other) = (s, other)

  -- The lease has been granted.
  unfoldable pub described :
      ℕ → Peer → Header → ExporterSession T P D → List ℕ × Status → ExporterSession T P D × Status
  unfolding announced
  described now peer h s (body, ok) =
      let answer = attach_ok_of s.attach_id s.lease_epoch s.manifest (length body) in
      announced now peer h body
        (send_simple over 0x21 ok h.request_id (encode_attach_ok answer []) s)
  described now peer h s (body, other) =
      refuse_message over h manifest_invalid "This device's descriptors could not be read."
        (unwound now peer s)

  unfoldable pub leased_to :
      ℕ
      → List ℕ
      → Peer
      → Header
      → AttachBody
      → P
      → Claim P
      → ExporterSession T P D
      → ExporterSession T P D × Status
  unfolding described
  leased_to now fresh peer h a port c s =
      let granted = grant now fresh peer.identity_key a.uid s.leases in
      let s = record s {
        port = some port;
        manifest = c.manifest;
        config_value = c.config_value;
        uid = a.uid;
        attach_slot = a.attach_slot;
        leases = granted.0;
        attach_id = granted.1;
        lease_epoch = granted.0.s.lease_epoch;
      } in
      described now peer h s (encode_manifest hash s.manifest s.config_value [])

  unfoldable pub claimed_port :
      ℕ
      → List ℕ
      → Peer
      → Header
      → AttachBody
      → Claim P
      → ExporterSession T P D
      → Option P
      → ExporterSession T P D × Status
  claimed_port now fresh peer h a c s none =
      refuse_message over h internal "the device source returned no port"
        (record s { devices = source.release s.devices a.uid })
  claimed_port now fresh peer h a c s (some port) =
      if not (ports.can_idle port) && has_idling_endpoint c.manifest
      then attach_failed over h unsupported_message
          (codes
            "This machine cannot share a device with an interrupt or isochronous endpoint yet: its USB backend cannot report a transfer that has not finished, and such an endpoint may legitimately never finish.")
          (record s { devices = source.release s.devices a.uid })
      else leased_to now fresh peer h a port c s

  unfoldable pub claimed :
      ℕ
      → List ℕ
      → Peer
      → Header
      → AttachBody
      → Claim P
      → ExporterSession T P D
      → Status
      → ExporterSession T P D × Status
  unfolding claimed_port
  claimed now fresh peer h a c s ok = claimed_port now fresh peer h a c s c.port
  claimed now fresh peer h a c s other = attach_failed over h other c.why s

  -- What follows the lease authority's answer.
  unfoldable pub allowed :
      ℕ
      → List ℕ
      → Peer
      → Header
      → AttachBody
      → ExporterSession T P D
      → Status
      → ExporterSession T P D × Status
  unfolding claimed
  allowed now fresh peer h a s ok =
      let c = source.claim s.devices a.uid in
      claimed now fresh peer h a c.1 (record s { devices = c.0 }) c.1.status
  allowed now fresh peer h a s other =
      attach_failed over h other (claim_why peer.identity_key a.uid s.leases) s

  unfoldable pub attach_decoded :
      ℕ
      → List ℕ
      → Peer
      → Header
      → ExporterSession T P D
      → Option AttachBody
      → ExporterSession T P D × Status
  unfolding allowed is_idle
  attach_decoded now fresh peer h s none = refuse_message over h malformed_frame "bad ATTACH" s
  attach_decoded now fresh peer h s (some a) =
      if is_idle s.state
      then allowed now fresh peer h a s (may_claim peer.identity_key a.uid s.leases)
      else refuse_message over h busy "That device is already in use." s

  unfoldable pub handle_attach :
      ℕ → List ℕ → Peer → Header → List ℕ → ExporterSession T P D → ExporterSession T P D × Status
  unfolding attach_decoded
  handle_attach now fresh peer h body s =
      if may_attach peer
      then attach_decoded now fresh peer h s (decode_attach body)
      else refuse_message over h not_permitted "This Mac is not allowed to use your devices." s

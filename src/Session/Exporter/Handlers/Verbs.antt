-- ===== src/Session/Exporter/Handlers/Verbs.antt =====
-- airusb/session/ExporterSession: EP_CLEAR_HALT and DEVICE_RESET.
use airusb_hub.Base.{
  ℕ, zero, suc, ◌+◌, ◌%◌, ◌^◌, Bool, true, false, not, ◌||◌, Option, none, some, List, [], ◌∷◌,
  ◌++◌, ◌==◌, if◌then◌else◌, put, erase,
}
use airusb_hub.Core.Status.{Status, ok, detaching}
use airusb_hub.Core.Usb.{EndpointModel, XferType, bulk}
use airusb_hub.Core.Manifest.{DeviceManifest, endpoints_for}
use airusb_hub.Protocol.Codec.Headers.{Header}
use airusb_hub.Session.Exporter.{Link, Ports, PendingVerb, ExporterSession, is_leased, has_port}
use airusb_hub.Session.Exporter.Sending.{send_simple}
use airusb_hub.Session.Exporter.Outcomes.{ctrl_ack, is_ok, first_failure, on_plane}
use airusb_hub.Session.Exporter.Handlers.{refuse_message}

is_bulk : XferType → Bool
is_bulk bulk = true
is_bulk other = false

unfoldable pub bulk_addresses : List EndpointModel → List ℕ
unfolding is_bulk
bulk_addresses [] = []
bulk_addresses (e ∷ es) =
    let rest = bulk_addresses es in if is_bulk e.kind then e.address ∷ rest else rest

-- The bulk endpoints of `count` interfaces from `iface` on.
unfoldable pub bulk_endpoints : ℕ → ℕ → ℕ → DeviceManifest → List ℕ
unfolding bulk_addresses
bulk_endpoints zero iface config_value m = []
bulk_endpoints (suc count) iface config_value m =
    bulk_addresses (endpoints_for config_value iface 0 m)
    ++ bulk_endpoints count (iface + 1) config_value m

module _ {T P D : Type 0} (ports : Ports P) where
  unfoldable pub clear_on :
      PendingVerb → ExporterSession T P D → Option P → ExporterSession T P D × Status
  clear_on v s none = (s, ok)
  clear_on v s (some port) =
      let token = s.plane.next_token in
      let sent = ports.clear_halt port token v.ep_addr in
      let s = on_plane (λ d. record d { next_token = (token + 1) % 2 ^ 64 }) s in
      let s = record s { port = some sent.0; verbs = put token v s.verbs } in
      if is_ok sent.1 then (s, ok) else (record s { verbs = erase token s.verbs }, sent.1)

  -- A verb under a new token, which is forgotten when the port refuses it. Both callers have
  -- made sure that there is a port.
  unfoldable pub issue_verb : PendingVerb → ExporterSession T P D → ExporterSession T P D × Status
  unfolding clear_on
  issue_verb v s = clear_on v s s.port

  unfoldable pub reset_leg : ℕ → ℕ → ExporterSession T P D → ExporterSession T P D × Status
  reset_leg request_id ep s =
      let r = issue_verb (record { request_id = request_id; ep_addr = ep; is_reset = true }) s in
      let s = r.0 in
      if is_ok r.1
      then (record s { reset_pending = s.reset_pending + 1 }, ok)
      else (record s { reset_worst = first_failure s.reset_worst r.1 }, r.1)

module _ {T P D : Type 0} (over : Link T) (ports : Ports P) where
  unfoldable pub last_leg : ℕ → ExporterSession T P D × Status → ExporterSession T P D × Status
  last_leg request_id (s, st) =
      if is_ok st
      then (s, ok)
      else if request_id == 0
      then (s, ok)
      else send_simple over ctrl_ack s.reset_worst request_id [] s

  -- The last leg alone has the request's id.
  unfoldable pub reset_legs : ℕ → List ℕ → ExporterSession T P D → ExporterSession T P D × Status
  unfolding last_leg
  reset_legs request_id [] s = (s, ok)
  reset_legs request_id (ep ∷ []) s = last_leg request_id (reset_leg ports request_id ep s)
  reset_legs request_id (ep ∷ next ∷ more) s =
      reset_legs request_id (next ∷ more) (reset_leg ports 0 ep s).0

  unfoldable pub reset_all : ℕ → List ℕ → ExporterSession T P D → ExporterSession T P D × Status
  reset_all request_id [] s = send_simple over ctrl_ack ok request_id [] s
  reset_all request_id (ep ∷ more) s =
      reset_legs request_id (ep ∷ more) (record s { reset_worst = ok; reset_pending = 0 })

  unfoldable pub handle_clear_halt : Header → ExporterSession T P D → ExporterSession T P D × Status
  handle_clear_halt h s =
      let r =
        issue_verb ports
          (record { request_id = h.request_id; ep_addr = h.channel % 256; is_reset = false }) s in
      if not (is_leased s.state) || not (has_port s.port)
      then refuse_message over h detaching "That device is no longer attached." s
      else if not (h.attach_id == s.attach_id)
      then (s, ok)
      else if is_ok r.1
      then (r.0, ok)
      else send_simple over ctrl_ack r.1 h.request_id [] r.0

  unfoldable pub handle_device_reset :
      Header → ExporterSession T P D → ExporterSession T P D × Status
  handle_device_reset h s =
      if not (is_leased s.state) || not (has_port s.port)
      then refuse_message over h detaching "That device is no longer attached." s
      else if not (h.attach_id == s.attach_id)
      then (s, ok)
      else reset_all h.request_id (bulk_endpoints 256 0 s.config_value s.manifest) s

-- ===== src/Session/Exporter.antt =====
-- airusb/session/ExporterSession: one importer's session on the exporting machine.
--
-- What the session holds, and the interfaces of what it drives: the record layer of the secure
-- session (`Link`), the asynchronous port of a captured device (`Ports`,
-- core/IAsyncUsbDevicePort.h) and the source of devices (`Source`). Their states are parameters. Of
-- the secure session there is what the peer may do (`Peer`). The lease authority is shared with
-- other sessions: `leases` is what it holds when the session is called.
pub mod Sending
pub mod Queue
pub mod Outcomes
pub mod Endings
pub mod Handlers
pub mod Attach
pub mod Pump
pub mod Frames
pub mod Serial
pub mod Kept
pub mod Measure
pub mod History
use airusb_hub.Base.{
  ℕ, ◌%◌, Bool, true, false, not, ◌&&◌, Option, none, some, List, [], ◌==◌, if◌then◌else◌, length,
  bit_and, sum_of,
}
use airusb_hub.Core.Status.{Status}
use airusb_hub.Core.Clock.{Deadline}
use airusb_hub.Core.Usb.{SetupPacket}
use airusb_hub.Core.Manifest.{DeviceManifest}
use airusb_hub.Protocol.Codec.Transfers.{SubmitBody}
use airusb_hub.Protocol.Reassembly.{Reassembler}
use airusb_hub.Protocol.Messages.Listing.{DeviceRecord}
use airusb_hub.Session.Lease.{LeaseAuthority}

pub record AsyncTransfer : Type 0 where
  pub ep_addr : ℕ
  pub xfer_type : ℕ
  pub dir : ℕ
  pub buffer_len : ℕ
  pub setup : SetupPacket
  pub data_out : List ℕ
  pub timeout_ms : ℕ
  pub zero_packet : Bool
  pub short_not_ok : Bool

pub record AsyncOutcome : Type 0 where
  pub token : ℕ
  pub status : Status
  pub actual_len : ℕ
  pub cancelled : Bool
  pub zlp_sent : Bool
  pub data_in : List ℕ

-- The record layer; `is_up` says that `transport()` answers one.
pub record Link (T : Type 0) : Type 0 where
  pub is_up : T → Bool
  pub send_record : T → List ℕ → T × Status
  pub flush : T → T × Status
  pub pending_tx_bytes : T → ℕ
  pub max_plaintext_bytes : T → ℕ
  pub max_record_bytes : T → ℕ

-- The outcomes that `poll` and `abortAll` give to their callback are a list.
pub record Ports (P : Type 0) : Type 0 where
  pub submit : P → ℕ → AsyncTransfer → P × Status
  pub cancel : P → ℕ → P × Bool
  pub clear_halt : P → ℕ → ℕ → P × Status
  pub poll : P → P × List AsyncOutcome
  pub abort_all : P → Status → P × List AsyncOutcome
  pub can_idle : P → Bool

pub record Claim (P : Type 0) : Type 0 where
  pub status : Status
  pub port : Option P
  pub manifest : DeviceManifest
  pub config_value : ℕ
  pub why : List ℕ

pub record Source (D P : Type 0) : Type 0 where
  pub list : D → D × List DeviceRecord
  pub claim : D → List ℕ → D × Claim P
  pub release : D → List ℕ → D

-- `peerIdentity().identityKey`, whether `trust()` is `Trust::Paired`, and `grants()`.
pub record Peer : Type 0 where
  pub identity_key : List ℕ
  pub is_paired : Bool
  pub grants : ℕ

-- `SecureSession::mayList` and `mayAttach`.
unfoldable pub may_list : Peer → Bool
may_list peer = peer.is_paired && not (bit_and peer.grants 1 == 0)

unfoldable pub may_attach : Peer → Bool
may_attach peer = peer.is_paired && not (bit_and peer.grants 2 == 0)

pub data State : Type 0 where
  idle leased draining orphaned closed : State

pub record Pending : Type 0 where
  pub channel : ℕ
  pub request_id : ℕ
  pub sb : SubmitBody
  pub data_out : List ℕ
  pub deadline : Deadline

pub record InFlight : Type 0 where
  pub channel : ℕ
  pub request_id : ℕ
  pub ep_addr : ℕ
  pub sb : SubmitBody
  pub deadline : Deadline
  pub cancel_requested : Bool

pub record PendingVerb : Type 0 where
  pub request_id : ℕ
  pub ep_addr : ℕ
  pub is_reset : Bool

-- The members that follow the transfers: `_queues`, `_inFlight`, `_nextToken` and `_busyEndpoint`.
pub record Plane : Type 0 where
  pub queues : List (ℕ × List Pending)
  pub in_flight : List (ℕ × InFlight)
  pub next_token : ℕ
  pub busy_endpoint : List (ℕ × ℕ)

-- `accepted` and `answered` are no members of the class: they list the (channel, request id) of
-- every call of `enqueueTransfer` and of `emitComplete`, the last call first.
pub record ExporterSession (T P D : Type 0) : Type 0 where
  pub state : State
  pub why : List ℕ
  pub port : Option P
  pub manifest : DeviceManifest
  pub config_value : ℕ
  pub uid : List ℕ
  pub attach_id : ℕ
  pub lease_epoch : ℕ
  pub attach_slot : ℕ
  pub handled : ℕ
  pub transfers : ℕ
  pub cancelled : ℕ
  pub last_heard_ns : ℕ
  pub plane : Plane
  pub verbs : List (ℕ × PendingVerb)
  pub reset_worst : Status
  pub reset_pending : ℕ
  pub rx_active : Bool
  pub rx_channel : ℕ
  pub rx_request_id : ℕ
  pub rx_sb : SubmitBody
  pub rx : Reassembler
  pub link : T
  pub devices : D
  pub leases : LeaseAuthority
  pub accepted : List (ℕ × ℕ)
  pub answered : List (ℕ × ℕ)

abbrev pub credit_urbs : ℕ
credit_urbs = 64

abbrev pub credit_bytes : ℕ
credit_bytes = 4_194_304

unfoldable pub is_ep0 : ℕ → Bool
is_ep0 ep_addr = ep_addr % 128 == 0

-- watchdog::kUrbDeadlineIntr, kNetCtrl and kUrbCeilingBulk, by the type of the transfer.
unfoldable pub deadline_ms_for : ℕ → ℕ
deadline_ms_for xfer_type =
    if xfer_type == 3
    then 0
    else if xfer_type == 0
    then 5_000
    else if xfer_type == 1
    then 5_000
    else 30_000

-- PING, PONG, GOODBYE, and the three of the pairing.
unfoldable pub is_pre_trust_message : ℕ → Bool
is_pre_trust_message t =
    if t == 0x03
    then true
    else if t == 0x04
    then true
    else if t == 0x05
    then true
    else if t == 0x10
    then true
    else if t == 0x11
    then true
    else t == 0x12

unfoldable pub permitted : Peer → ℕ → Bool
unfolding is_pre_trust_message
permitted peer type = if is_pre_trust_message type then true else peer.is_paired

abbrev pub queued_in : List (ℕ × List Pending) → ℕ
queued_in = sum_of (λ e. length e.1)

unfoldable pub queued_transfers : Plane → ℕ
queued_transfers d = queued_in d.queues

-- `InFlight` made of a `Pending` that the device has not seen.
unfoldable pub flight_of : Pending → InFlight
flight_of p = record {
  channel = p.channel;
  request_id = p.request_id;
  ep_addr = p.sb.ep_addr;
  sb = p.sb;
  deadline = record { at_ns = 0; is_set = false };
  cancel_requested = false;
}

unfoldable pub is_leased : State → Bool
is_leased leased = true
is_leased other = false

unfoldable pub has_port : {P : Type 0} → Option P → Bool
has_port none = false
has_port (some port) = true

-- What the transfers' accounts are kept in.
pub record Books : Type 0 where
  pub queues : List (ℕ × List Pending)
  pub in_flight : List (ℕ × InFlight)
  pub busy_endpoint : List (ℕ × ℕ)
  pub accepted : List (ℕ × ℕ)
  pub answered : List (ℕ × ℕ)

abbrev pub books : {T P D : Type 0} → ExporterSession T P D → Books
books s = record {
  queues = s.plane.queues;
  in_flight = s.plane.in_flight;
  busy_endpoint = s.plane.busy_endpoint;
  accepted = s.accepted;
  answered = s.answered;
}

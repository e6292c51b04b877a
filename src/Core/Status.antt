-- ===== src/Core/Status.antt =====
-- airusb/core/Status.h: the status values of every layer, with their wire codes.
use airusb_hub.Base.{ℕ, Bool, true, false}

pub data Status : Type 0 where
  ok error_generic bad_argument unsupported_version unsupported_message malformed_frame : Status
  limit_exceeded not_permitted not_paired auth_failed no_resources busy not_found : Status
  already_exists internal transport_lost already_completed : Status
  device_gone detaching exclusivity_denied capture_failed attach_unknown : Status
  manifest_invalid speed_unsupported mounted_locally : Status
  xfer_stall xfer_timeout xfer_cancelled xfer_short xfer_overrun xfer_underrun xfer_crc : Status
  xfer_bitstuff xfer_protocol xfer_no_bandwidth xfer_missed_service xfer_ep_stopped : Status
  xfer_device_offline xfer_nak_timeout xfer_bad_toggle xfer_stream_error xfer_unknown : Status

-- The value of the enumerator, which is what a header carries.
unfoldable pub code : Status → ℕ
code ok = 0x0000
code error_generic = 0x0001
code bad_argument = 0x0002
code unsupported_version = 0x0003
code unsupported_message = 0x0004
code malformed_frame = 0x0005
code limit_exceeded = 0x0006
code not_permitted = 0x0007
code not_paired = 0x0008
code auth_failed = 0x0009
code no_resources = 0x000A
code busy = 0x000B
code not_found = 0x000C
code already_exists = 0x000D
code internal = 0x000E
code transport_lost = 0x000F
code already_completed = 0x0010
code device_gone = 0x0020
code detaching = 0x0021
code exclusivity_denied = 0x0022
code capture_failed = 0x0023
code attach_unknown = 0x0024
code manifest_invalid = 0x0025
code speed_unsupported = 0x0026
code mounted_locally = 0x0027
code xfer_stall = 0x0040
code xfer_timeout = 0x0041
code xfer_cancelled = 0x0042
code xfer_short = 0x0043
code xfer_overrun = 0x0044
code xfer_underrun = 0x0045
code xfer_crc = 0x0046
code xfer_bitstuff = 0x0047
code xfer_protocol = 0x0048
code xfer_no_bandwidth = 0x0049
code xfer_missed_service = 0x004A
code xfer_ep_stopped = 0x004B
code xfer_device_offline = 0x004C
code xfer_nak_timeout = 0x004D
code xfer_bad_toggle = 0x004E
code xfer_stream_error = 0x004F
code xfer_unknown = 0x0050

-- `isFatal`: the statuses that end a session.
unfoldable pub is_fatal : Status → Bool
is_fatal malformed_frame = true
is_fatal limit_exceeded = true
is_fatal auth_failed = true
is_fatal other = false

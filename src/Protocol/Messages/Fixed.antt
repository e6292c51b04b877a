-- ===== src/Protocol/Messages/Fixed.antt =====
-- airusb/protocol/Messages: what the decoders of the fixed bodies read back.
use airusb_hub.Base.{
  ℕ, ◌≡◌, ◌≤◌, ◌⊎◌, Option, none, some, List, [], ◌++◌, arith, length, IsByte, IsU16, IsU32,
}
use airusb_hub.Protocol.Codec.{u16_of-bytes, u32_of-bytes, cells_lem}
use airusb_hub.Protocol.Messages.{
  AttachBody, encode_attach, decode_attach, AttachOkBody, encode_attach_ok, decode_attach_ok,
  DetachBody, encode_detach, decode_detach, is_known_detach_reason,
}

-- Decoding gives the body where it is allowed, and nothing where it is not.
abbrev pub DecodesWhere : {A : Type 0} → Type 0 → Option A → A → Type 0
DecodesWhere Allowed answer b = (Allowed × (answer ≡ some b)) ⊎ ((¬ Allowed) × (answer ≡ none))

abbrev pub AllowsAttach : AttachBody → Type 0
AllowsAttach b = (b.exclusivity ≡ 1) × (1 ≤ b.attach_slot) × (b.attach_slot ≤ 15)

abbrev pub AllowsAttachOk : AttachOkBody → Type 0
AllowsAttachOk b = (b.speed ≤ 7) × (b.manifest_len ≤ 262_144) × (b.cancel_granularity ≤ 1)

abbrev pub AllowsDetach : DetachBody → Type 0
AllowsDetach b = (1 ≤ b.reason) × (b.reason ≤ 6)

-- The fields are of the widths of their types.
pub record IsAttach (b : AttachBody) : Type 0 where
  pub uid_size : length b.uid ≡ 16
  pub exclusivity_range : IsByte b.exclusivity
  pub attach_slot_range : IsByte b.attach_slot
  pub flags_range : IsU16 b.flags
  pub importer_max_range : IsU32 b.importer_max_transfer_bytes

pub record IsAttachOk (b : AttachOkBody) : Type 0 where
  pub attach_id_range : IsU32 b.attach_id
  pub credit_urbs_range : IsU32 b.credit_urbs
  pub credit_bytes_range : IsU32 b.credit_bytes
  pub speed_range : IsU16 b.speed
  pub cancel_granularity_range : IsByte b.cancel_granularity
  pub exporter_flags_range : IsByte b.exporter_flags
  pub device_latency_us_range : IsU32 b.device_latency_us
  pub manifest_len_range : IsU32 b.manifest_len
  pub lease_epoch_range : IsU32 b.lease_epoch
  pub urb_ceiling_ms_range : IsU32 b.urb_ceiling_ms

pub record IsDetach (b : DetachBody) : Type 0 where
  pub reason_range : IsByte b.reason
  pub dflags_range : IsByte b.dflags
  pub drain_range : IsU16 b.drain_timeout_ms

decode_attach-encode_attach :
    (b : AttachBody) (rest : List ℕ)
    → IsAttach b
    → DecodesWhere (AllowsAttach b) (decode_attach (encode_attach b [] ++ rest)) b
unfolding decode_attach encode_attach
decode_attach-encode_attach b rest v =
    rw
      (
        cells_lem 16 b.uid v.uid_size,
        u16_of-bytes b.flags v.flags_range,
        u32_of-bytes b.importer_max_transfer_bytes v.importer_max_range,
      )
      (ground (arith, v.exclusivity_range, v.attach_slot_range))

decode_attach_ok-encode_attach_ok :
    (b : AttachOkBody) (rest : List ℕ)
    → IsAttachOk b
    → DecodesWhere (AllowsAttachOk b) (decode_attach_ok (encode_attach_ok b [] ++ rest)) b
unfolding decode_attach_ok encode_attach_ok
decode_attach_ok-encode_attach_ok b rest v =
    rw
      (
        u32_of-bytes b.attach_id v.attach_id_range,
        u32_of-bytes b.credit_urbs v.credit_urbs_range,
        u32_of-bytes b.credit_bytes v.credit_bytes_range,
        u16_of-bytes b.speed v.speed_range,
        u32_of-bytes b.device_latency_us v.device_latency_us_range,
        u32_of-bytes b.manifest_len v.manifest_len_range,
        u32_of-bytes b.lease_epoch v.lease_epoch_range,
        u32_of-bytes b.urb_ceiling_ms v.urb_ceiling_ms_range,
      )
      (ground (arith, v.cancel_granularity_range, v.exporter_flags_range))

decode_detach-encode_detach :
    (b : DetachBody) (rest : List ℕ)
    → IsDetach b
    → DecodesWhere (AllowsDetach b) (decode_detach (encode_detach b [] ++ rest)) b
unfolding decode_detach encode_detach is_known_detach_reason
decode_detach-encode_detach b rest v =
    rw (u16_of-bytes b.drain_timeout_ms v.drain_range)
      (ground (arith, v.reason_range, v.dflags_range))

-- An ATTACH, an ATTACH_OK and a DETACH body whose fields fit their widths decode, once encoded and
-- whatever follows them, to themselves where the protocol allows them, and to nothing where it does
-- not: an ATTACH is allowed for a slot from 1 to 15 in the exclusive mode, an ATTACH_OK with a known
-- speed, a manifest of at most 256 KiB and a known granularity, a DETACH with a known reason.
pub decode-encode_fixed :
    (a : AttachBody) (k : AttachOkBody) (d : DetachBody) (rest : List ℕ)
    → IsAttach a
    → IsAttachOk k
    → IsDetach d
    → DecodesWhere (AllowsAttach a) (decode_attach (encode_attach a [] ++ rest)) a
      × DecodesWhere (AllowsAttachOk k) (decode_attach_ok (encode_attach_ok k [] ++ rest)) k
      × DecodesWhere (AllowsDetach d) (decode_detach (encode_detach d [] ++ rest)) d
decode-encode_fixed a k d rest va vk vd = (
  decode_attach-encode_attach a rest va,
  decode_attach_ok-encode_attach_ok k rest vk,
  decode_detach-encode_detach d rest vd,
)

-- ===== src/Protocol/Messages/Examples.antt =====
-- The control plane's messages at concrete inputs.
use airusb_hub.Base.{◌≡◌, refl, some, [], ◌∷◌, ◌++◌, arith, replicate}
use airusb_hub.Protocol.Messages.{
  AttachBody, AttachOkBody, DetachBody, decode_attach, decode_attach_ok, decode_detach,
  encode_attach, encode_attach_ok, encode_detach,
}
use airusb_hub.Protocol.Messages.Fixed.{
  DecodesWhere, AllowsAttach, AllowsAttachOk, AllowsDetach, decode-encode_fixed,
}
use airusb_hub.Protocol.Messages.Listing.{
  DeviceRecord, encode_device_list, decode_device_list, decode_device_list-encode_device_list,
}

abbrev stick : DeviceRecord
stick = record {
  uid = replicate 16 7;
  vendor_id = 0x0781;
  product_id = 0x5567;
  speed = 3;
  flags = 5;
  name = 0x55 ∷ 0x53 ∷ 0x42 ∷ [];
}

decode_device_list-encode_device_list_example :
    decode_device_list (encode_device_list (stick ∷ []) []) ≡ some (stick ∷ [])
decode_device_list-encode_device_list_example =
    decode_device_list-encode_device_list (stick ∷ []) (omega arith)
      ((refl, omega arith, omega arith, omega arith, omega arith, omega arith, refl), tt)

abbrev attach : AttachBody
attach = record {
  uid = replicate 16 7;
  exclusivity = 1;
  attach_slot = 3;
  flags = 0;
  importer_max_transfer_bytes = 0x100000;
}

abbrev attach_ok : AttachOkBody
attach_ok = record {
  attach_id = 0x01010101;
  credit_urbs = 0x01010101;
  credit_bytes = 0x01010101;
  speed = 5;
  cancel_granularity = 1;
  exporter_flags = 1;
  device_latency_us = 0x01010101;
  manifest_len = 0;
  lease_epoch = 0;
  urb_ceiling_ms = 0;
}

-- The reason 6, `Sleep`, is the last one.
abbrev detach : DetachBody
detach = record { reason = 6; dflags = 0; drain_timeout_ms = 2000 }

abbrev slot_zero : AttachBody
slot_zero = record attach { attach_slot = 0 }

decode-encode_fixed_example :
    DecodesWhere
      (AllowsAttach slot_zero)
      (decode_attach (encode_attach slot_zero [] ++ (9 ∷ [])))
      slot_zero
    × DecodesWhere
        (AllowsAttachOk attach_ok)
        (decode_attach_ok (encode_attach_ok attach_ok [] ++ (9 ∷ [])))
        attach_ok
    × DecodesWhere
        (AllowsDetach detach)
        (decode_detach (encode_detach detach [] ++ (9 ∷ [])))
        detach
decode-encode_fixed_example =
    decode-encode_fixed slot_zero attach_ok detach (9 ∷ []) (omega arith) (omega arith)
      (omega arith)

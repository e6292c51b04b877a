-- ===== src/Protocol/Codec/Examples.antt =====
-- The round trips of the codec at concrete inputs.
use airusb_hub.Base.{ℕ, ◌+◌, ◌≡◌, ◌≢◌, Bool, true, none, some, List, [], ◌∷◌, ◌++◌, arith}
use airusb_hub.Protocol.Codec.Headers.{
  Header, decode_header, encode_header, decode_header-encode_header,
}
use airusb_hub.Protocol.Codec.Tlvs.{
  TlvView, for_each_tlv, encode_tlvs, visit, for_each_tlv-encode_tlvs, for_each_tlv-ne-none,
}

abbrev header : Header
header = record {
  type = 0x41;
  flags = 1;
  channel = 0x181;
  body_len = 48;
  attach_id = 7;
  seg_offset = 0;
  request_id = 0xFEDC_BA98_7654_3210;
  status = 3;
  device_epoch = 0;
  total_len = 70_000;
}

decode_header-encode_header_example :
    decode_header (encode_header header [] ++ (9 ∷ [])) ≡ some header
decode_header-encode_header_example = decode_header-encode_header header (9 ∷ []) (omega arith)

-- An HTTP request that came to the port by mistake.
abbrev stray : List ℕ
stray = 0x47 ∷ 0x45 ∷ 0x54 ∷ 0x20 ∷ 0x2F ∷ []

-- A callback that counts the views.
count_views : ℕ → TlvView → ℕ × Bool
count_views n v = (n + 1, true)

abbrev two_views : List TlvView
two_views = record { type = 3; value = 7 ∷ 8 ∷ [] } ∷ (record { type = 5; value = [] } ∷ [])

for_each_tlv-encode_tlvs_example :
    for_each_tlv count_views 0 (encode_tlvs two_views) ≡ some (visit count_views 0 two_views)
for_each_tlv-encode_tlvs_example = for_each_tlv-encode_tlvs count_views 0 two_views (omega arith)

for_each_tlv-ne-none_example : for_each_tlv count_views 0 stray ≢ none
for_each_tlv-ne-none_example = for_each_tlv-ne-none count_views 0 stray

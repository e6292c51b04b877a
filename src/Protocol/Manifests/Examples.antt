-- ===== src/Protocol/Manifests/Examples.antt =====
-- The wire form of a manifest at concrete inputs.
use airusb_hub.Base.{ℕ, ◌≡◌, refl, List, [], ◌∷◌, ◌++◌, take, drop, replicate}
use airusb_hub.Core.Manifest.{
  DeviceManifest, set_device_descriptor, add_configuration, set_lang_ids, add_string,
  for_each_descriptor, byte_size, string_descriptor, configuration_by_value,
}
use airusb_hub.Core.Manifest.Validation.{validate}
use airusb_hub.Core.Manifest.Keyboard.{keyboard}
use airusb_hub.Crypto.{constant_time_equals}
use airusb_hub.Protocol.Codec.{u16_of, u32_of}
use airusb_hub.Protocol.Codec.Tlvs.{for_each_tlv, append_tlv}
use airusb_hub.Protocol.Manifests.{ManifestHeader, speed_code, speed_of}
use airusb_hub.Protocol.Manifests.Encode.{encode_manifest}
use airusb_hub.Protocol.Manifests.Decode.{decoded, decode_manifest, read_header}
use airusb_hub.Protocol.Manifests.Decode.Acceptance.{IsAccepted, decode_manifest-IsAccepted}

-- A hash of 32 zero bytes.
abbrev no_hash : List ℕ → List ℕ
no_hash bytes = replicate 32 0

abbrev on_wire : List ℕ
on_wire = (encode_manifest no_hash keyboard 1 []).0

abbrev keyboard_header : ManifestHeader
keyboard_header = record {
  manifest_version = 1;
  config_count = 1;
  string_count = 1;
  langid_count = 1;
  speed = 1;
  dflags = 0;
  total_blob_bytes = 72;
  current_config_value = 1;
}

keyboard_received : decode_manifest no_hash on_wire ≡ decoded keyboard keyboard_header
unfolding encode_manifest set_device_descriptor add_configuration set_lang_ids add_string speed_code
    speed_of decode_manifest validate for_each_descriptor byte_size append_tlv for_each_tlv
    string_descriptor configuration_by_value constant_time_equals u16_of u32_of
keyboard_received = refl

decode_manifest-IsAccepted_example :
    IsAccepted keyboard keyboard_header × (keyboard_header ≡ read_header on_wire)
decode_manifest-IsAccepted_example =
    decode_manifest-IsAccepted no_hash on_wire keyboard keyboard_header keyboard_received

-- A header that says five languages, over a manifest without a table of them, is accepted.
abbrev no_languages : DeviceManifest
no_languages = record keyboard { lang_id_table = []; strings = [] }

abbrev boast : List ℕ
boast =
    let sent = (encode_manifest no_hash no_languages 1 []).0 in take 12 sent ++ (5 ∷ drop 13 sent)

five_languages_received :
    decode_manifest no_hash boast
    ≡ decoded no_languages
        (record keyboard_header { string_count = 0; langid_count = 5; total_blob_bytes = 51 })
unfolding encode_manifest set_device_descriptor add_configuration set_lang_ids add_string speed_code
    speed_of decode_manifest validate for_each_descriptor byte_size append_tlv for_each_tlv
    string_descriptor configuration_by_value constant_time_equals u16_of u32_of
five_languages_received = refl

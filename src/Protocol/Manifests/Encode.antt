-- ===== src/Protocol/Manifests/Encode.antt =====
-- `encodeManifest`: the sections, the header and the hash.
use airusb_hub.Base.{
  ℕ, zero, suc, ◌+◌, ◌-◌, ◌*◌, ◌/◌, ◌%◌, ◌^◌, Bool, false, ◌||◌, Option, none, some, List, [], ◌∷◌,
  ◌++◌, ltb, ◌==◌, if◌then◌else◌, length,
}
use airusb_hub.Core.Status.{Status, ok, manifest_invalid, limit_exceeded}
use airusb_hub.Core.Usb.{none}
use airusb_hub.Core.Manifest.{DeviceManifest, string_descriptor}
use airusb_hub.Core.Manifest.Validation.{validate}
use airusb_hub.Protocol.Codec.{rd_u16, wr_u16, wr_u32, wr_u8, grow}
use airusb_hub.Protocol.Codec.Tlvs.{append_tlv}
use airusb_hub.Protocol.Manifests.{
  manifest_header_size, max_configs, max_strings, max_lang_ids, manifest_bytes_max,
  string_desc_prefix, speed_code,
}

-- A section with its type.
abbrev section : ℕ → List ℕ → List ℕ → List ℕ
section type value out = append_tlv (record { type = type; value = value }) out

abbrev section_of : ℕ → List ℕ → List ℕ → List ℕ
section_of type value out = if length value == 0 then out else section type value out

-- The string sections: what was counted and written so far; `none` is too many.
abbrev string_value : ℕ → ℕ → List ℕ → List ℕ
string_value index lang s =
    wr_u16 (wr_u16 (wr_u8 (grow string_desc_prefix) 0 index) 1 lang) 3 (length s % 2 ^ 16) ++ s

string_section : DeviceManifest → ℕ → ℕ → ℕ × List ℕ → Option (ℕ × List ℕ)
string_section m lang index (count, blobs) =
    let s = string_descriptor index lang m in
    if length s == 0
    then some (count, blobs)
    else if ltb max_strings (count + 1)
    then none
    else some (count + 1, section 0x000D (string_value index lang s) blobs)

next_acc : Option (ℕ × List ℕ) → (ℕ × List ℕ → Option (ℕ × List ℕ)) → Option (ℕ × List ℕ)
next_acc none again = none
next_acc (some acc) again = again acc

-- The indexes from one on, in number.
index_loop : DeviceManifest → ℕ → ℕ → ℕ → ℕ × List ℕ → Option (ℕ × List ℕ)
unfolding string_section next_acc
index_loop m lang zero index acc = some acc
index_loop m lang (suc n) index acc =
    next_acc (string_section m lang index acc) (index_loop m lang n (index + 1))

lang_loop : DeviceManifest → ℕ → ℕ → ℕ × List ℕ → Option (ℕ × List ℕ)
unfolding index_loop next_acc
lang_loop m zero li acc = some acc
lang_loop m (suc n) li acc =
    next_acc (index_loop m (rd_u16 m.lang_id_table (2 + li * 2)) 255 1 acc) (lang_loop m n (li + 1))

-- The sections in order: the device, the configurations, those that are there, the languages.
configs_into : List (List ℕ) → List ℕ → List ℕ
configs_into [] blobs = blobs
configs_into (c ∷ cs) blobs = configs_into cs (section 0x000B c blobs)

fixed_sections : DeviceManifest → List ℕ
unfolding configs_into
fixed_sections m =
    let b0 = configs_into m.configs (section 0x000A m.device []) in
    let b1 = section_of 0x000C m.bos b0 in
    let b2 = section_of 0x000F m.device_qualifier b1 in
    let b3 = section_of 0x0010 m.other_speed_config b2 in section_of 0x000E m.lang_id_table b3

langid_count_of : DeviceManifest → ℕ
langid_count_of m = if length m.lang_id_table == 0 then 0 else (length m.lang_id_table - 2) / 2

header_block : DeviceManifest → ℕ → ℕ → ℕ → List ℕ
header_block m string_count total current =
    let h0 = wr_u32 (grow manifest_header_size) 0 1 in
    let h1 = wr_u32 h0 4 (length m.configs) in
    let h2 = wr_u32 h1 8 string_count in
    let h3 = wr_u32 h2 12 (langid_count_of m) in
    let h4 = wr_u16 h3 16 (speed_code m.speed) in
    let h5 = wr_u16 h4 18 0 in wr_u8 (wr_u32 h5 20 total) 24 current

-- A configuration that is too short for its header.
short_config : List (List ℕ) → Bool
short_config [] = false
short_config (c ∷ cs) = ltb (length c) 9 || short_config cs

module _ (hash : List ℕ → List ℕ) where
  unfoldable pub encode_manifest : DeviceManifest → ℕ → List ℕ → List ℕ × Status
  unfolding fixed_sections langid_count_of lang_loop header_block short_config
  encode_manifest m current out =
      let blobs0 = fixed_sections m in
      let strings = lang_loop m (langid_count_of m) 0 (0, blobs0) in
      elim (validate m) [
        | some why ↦ (out, manifest_invalid)
        | none ↦
            if (length m.configs == 0) || ltb max_configs (length m.configs)
            then (out, manifest_invalid)
            else if ltb (length m.device) 18 || short_config m.configs
            then (out, manifest_invalid)
            else if ltb max_lang_ids (langid_count_of m)
            then (out, manifest_invalid)
            else elim strings [
              | none ↦ (out, manifest_invalid)
              | some (count, blobs) ↦
                  if ltb manifest_bytes_max (length blobs) then (out, limit_exceeded) else (
                    section 0x0007 (hash blobs)
                        ((out ++ header_block m count (length blobs) current) ++ blobs),
                    ok,
                  )
            ]
      ]

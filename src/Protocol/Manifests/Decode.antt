-- ===== src/Protocol/Manifests/Decode.antt =====
-- `decodeManifest`: the walk over the sections, and the tests before and after it.
pub mod Acceptance
use airusb_hub.Base.{
  ℕ, zero, suc, ◌+◌, ◌-◌, ◌%◌, Bool, true, false, not, ◌&&◌, ◌||◌, Option, none, some, List, [],
  ◌∷◌, ltb, ◌==◌, if◌then◌else◌, length, get_or, take, drop,
}
use airusb_hub.Core.Status.{
  Status, ok, malformed_frame, unsupported_version, manifest_invalid, limit_exceeded,
}
use airusb_hub.Core.Manifest.{
  DeviceManifest, set_device_descriptor, add_configuration, set_bos, set_device_qualifier,
  set_other_speed_config, set_lang_ids, add_string, configuration_by_value,
}
use airusb_hub.Core.Manifest.Validation.{Fault, validate}
use airusb_hub.Crypto.{constant_time_equals}
use airusb_hub.Protocol.Codec.{rd_u16, rd_u32, u16_of}
use airusb_hub.Protocol.Codec.Tlvs.{TlvView, for_each_tlv}
use airusb_hub.Protocol.Manifests.{
  ManifestHeader, manifest_header_size, max_configs, max_strings, max_lang_ids, manifest_bytes_max,
  string_desc_prefix, speed_of,
}

-- What a peer may have sent for a manifest.
pub data Decoded : Type 0 where
  failed : Status → Decoded
  decoded : DeviceManifest → ManifestHeader → Decoded

-- What the walk over the sections gathers: `m` and the counters that its callback captures.
pub record Gathered : Type 0 where
  pub m : DeviceManifest
  pub seen_configs : ℕ
  pub seen_strings : ℕ
  pub seen_device : Bool
  pub structure_ok : Bool

abbrev broken : Gathered → Gathered × Bool
broken g = (record g { structure_ok = false }, false)

-- The languages of a table, behind its two bytes of header.
lang_ids_of : List ℕ → List ℕ
lang_ids_of [] = []
lang_ids_of (lo ∷ []) = []
lang_ids_of (lo ∷ (hi ∷ more)) = u16_of lo hi ∷ lang_ids_of more

on_device : Gathered → List ℕ → Gathered × Bool
on_device g v =
    if g.seen_device
    then broken g
    else if ltb (length v) 18
    then broken g
    else (record g { m = set_device_descriptor v g.m; seen_device = true }, true)

on_config : ManifestHeader → Gathered → List ℕ → Gathered × Bool
on_config hdr g v =
    let counted = record g { seen_configs = g.seen_configs + 1 } in
    if ltb hdr.config_count (g.seen_configs + 1)
    then broken counted
    else (record counted { m = add_configuration v g.m }, true)

on_langs : ManifestHeader → Gathered → List ℕ → Gathered × Bool
unfolding lang_ids_of
on_langs hdr g v =
    let ids = lang_ids_of (drop 2 v) in
    if ltb (length v) 2 || not ((length v - 2) % 2 == 0)
    then broken g
    else if not (length ids == hdr.langid_count)
    then broken g
    else (record g { m = set_lang_ids ids g.m }, true)

on_string : ManifestHeader → Gathered → List ℕ → Gathered × Bool
on_string hdr g v =
    let counted = record g { seen_strings = g.seen_strings + 1 } in
    if ltb (length v) string_desc_prefix
    then broken g
    else if not (length v == string_desc_prefix + rd_u16 v 3)
    then broken g
    else if ltb hdr.string_count (g.seen_strings + 1)
    then broken counted
    else (
      record counted { m = add_string (get_or v 0 0) (rd_u16 v 1) (drop string_desc_prefix v) g.m },
      true,
    )

-- The callback on a section; a type that is not known is passed over.
pub on_section : ManifestHeader → Gathered → TlvView → Gathered × Bool
unfolding on_device on_config on_langs on_string
on_section hdr g t =
    if t.type == 0x000A
    then on_device g t.value
    else if t.type == 0x000B
    then on_config hdr g t.value
    else if t.type == 0x000C
    then (record g { m = set_bos t.value g.m }, true)
    else if t.type == 0x000F
    then (record g { m = set_device_qualifier t.value g.m }, true)
    else if t.type == 0x0010
    then (record g { m = set_other_speed_config t.value g.m }, true)
    else if t.type == 0x000E
    then on_langs hdr g t.value
    else if t.type == 0x000D
    then on_string hdr g t.value
    else (g, true)

-- The search for the hash: whether it was seen, and whether it agrees.
on_trailer : List ℕ → Bool × Bool → TlvView → (Bool × Bool) × Bool
on_trailer expect (seen, good) t =
    if not (t.type == 0x0007)
    then ((seen, good), true)
    else if not (length t.value == 32)
    then ((true, good), false)
    else ((true, constant_time_equals expect t.value), false)

pub read_header : List ℕ → ManifestHeader
read_header body = record {
  manifest_version = rd_u32 body 0;
  config_count = rd_u32 body 4;
  string_count = rd_u32 body 8;
  langid_count = rd_u32 body 12;
  speed = rd_u16 body 16;
  dflags = rd_u16 body 18;
  total_blob_bytes = rd_u32 body 20;
  current_config_value = get_or body 24 0;
}

-- The first refusal of the header; `ok` where there is none.
header_status : ManifestHeader → Status
header_status hdr =
    if not (hdr.manifest_version == 1)
    then unsupported_version
    else if (hdr.config_count == 0) || ltb max_configs hdr.config_count
    then manifest_invalid
    else if ltb max_strings hdr.string_count
    then manifest_invalid
    else if ltb max_lang_ids hdr.langid_count
    then manifest_invalid
    else if ltb manifest_bytes_max hdr.total_blob_bytes
    then limit_exceeded
    else if ltb 7 hdr.speed
    then manifest_invalid
    else ok

refused_or : Status → Decoded → Decoded
refused_or ok go_on = go_on
refused_or refusal go_on = failed refusal

empty_manifest : ℕ → DeviceManifest
empty_manifest speed = record {
  speed = speed_of speed;
  device = [];
  configs = [];
  bos = [];
  device_qualifier = [];
  other_speed_config = [];
  lang_id_table = [];
  strings = [];
}

-- With what `validate` says of the manifest.
accepted : ManifestHeader → DeviceManifest → Option Fault → Decoded
accepted hdr m (some why) = failed manifest_invalid
accepted hdr m none =
    if not (hdr.current_config_value == 0)
      && (length (configuration_by_value hdr.current_config_value m) == 0)
    then failed manifest_invalid
    else decoded m hdr

-- The manifest that was gathered, against the header, the hash and the rules of the manifest.
finished : ManifestHeader → Bool × Bool → Gathered → Decoded
unfolding accepted
finished hdr (hash_seen, hash_ok) g =
    if not g.structure_ok
    then failed manifest_invalid
    else if not g.seen_device
    then failed manifest_invalid
    else if not (g.seen_configs == hdr.config_count)
    then failed manifest_invalid
    else if not (g.seen_strings == hdr.string_count)
    then failed manifest_invalid
    else if not hash_seen
    then failed manifest_invalid
    else if not hash_ok
    then failed manifest_invalid
    else accepted hdr g.m (validate g.m)

-- The walks of `for_each_tlv` end, so `none` does not occur.
walked : ManifestHeader → Bool × Bool → Option (Gathered × Bool) → Decoded
unfolding finished
walked hdr hash (some (g, true)) = finished hdr hash g
walked hdr hash stopped = failed malformed_frame

trailer_of : Option ((Bool × Bool) × Bool) → Bool × Bool
trailer_of none = (false, false)
trailer_of (some (flags, all)) = flags

gathering : ℕ → Gathered
unfolding empty_manifest
gathering speed = record {
  m = empty_manifest speed;
  seen_configs = 0;
  seen_strings = 0;
  seen_device = false;
  structure_ok = true;
}

module _ (hash : List ℕ → List ℕ) where
  unfoldable pub decode_manifest : List ℕ → Decoded
  unfolding read_header header_status refused_or on_section on_trailer walked trailer_of gathering
  decode_manifest body =
      let hdr = read_header body in
      let tlvs = drop manifest_header_size body in
      let blobs = take hdr.total_blob_bytes tlvs in
      let trailer = drop hdr.total_blob_bytes tlvs in
      let flags = trailer_of (for_each_tlv (on_trailer (hash blobs)) (false, false) trailer) in
      if ltb (length body) manifest_header_size
      then failed malformed_frame
      else refused_or (header_status hdr) (
          if ltb (length tlvs) hdr.total_blob_bytes
          then failed malformed_frame
          else walked hdr flags (for_each_tlv (on_section hdr) (gathering hdr.speed) blobs))

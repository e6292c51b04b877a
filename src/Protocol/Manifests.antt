-- ===== src/Protocol/Manifests.antt =====
-- airusb/protocol/ManifestCodec: the manifest as it goes over the wire.
--
-- `crypto::blake2s` is a parameter. The text of `whyNot` is left out. A field of 32 bits that is
-- set from a size is not reduced: what it counts is bounded before.
pub mod Encode
pub mod Decode
mod Examples
use airusb_hub.Base.{ℕ, zero, suc, ◌*◌, true, false, none, [], ◌==◌, if◌then◌else◌}
use airusb_hub.Core.Usb.{Speed, none, full, low, high, super, super_plus, super_plus_by2, other}

pub record ManifestHeader : Type 0 where
  pub manifest_version : ℕ
  pub config_count : ℕ
  pub string_count : ℕ
  pub langid_count : ℕ
  pub speed : ℕ
  pub dflags : ℕ
  pub total_blob_bytes : ℕ
  pub current_config_value : ℕ

abbrev pub manifest_header_size : ℕ
manifest_header_size = 32

abbrev pub max_configs : ℕ
max_configs = 8

abbrev pub max_strings : ℕ
max_strings = 128

abbrev pub max_lang_ids : ℕ
max_lang_ids = 16

abbrev pub manifest_bytes_max : ℕ
manifest_bytes_max = 256 * 1024

abbrev pub string_desc_prefix : ℕ
string_desc_prefix = 5

-- The enumerator of a speed and back.
unfoldable pub speed_code : Speed → ℕ
speed_code none = 0
speed_code full = 1
speed_code low = 2
speed_code high = 3
speed_code super = 4
speed_code super_plus = 5
speed_code super_plus_by2 = 6
speed_code other = 7

unfoldable pub speed_of : ℕ → Speed
speed_of v =
    if v == 0
    then none
    else if v == 1
    then full
    else if v == 2
    then low
    else if v == 3
    then high
    else if v == 4
    then super
    else if v == 5
    then super_plus
    else if v == 6
    then super_plus_by2
    else other

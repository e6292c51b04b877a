-- ===== src/Core/Manifest/Validation.antt =====
-- `DeviceManifest::validate`, with the text of `whyNot` as a value.
pub mod Soundness
use airusb_hub.Base.{
  ℕ, ◌*◌, Bool, true, false, not, ◌&&◌, ◌||◌, Option, none, some, List, [], ◌∷◌, ltb, ◌==◌,
  if◌then◌else◌, length, drop,
}
use airusb_hub.Core.Usb.{
  Speed, full, low, high, super, super_plus, super_plus_by2, none, desc_device, desc_configuration,
  desc_string, desc_bos,
}
use airusb_hub.Core.Manifest.{
  DeviceManifest, StringDescriptorEntry, byte_at, rd16, byte_size, for_each_descriptor,
}

-- What `whyNot` says, in the order of the tests.
pub data Fault : Type 0 where
  device_short device_length device_type no_configurations configuration_count : Fault
  config_short config_type config_total config_walk : Fault
  super_mps0 super_bcd super_bos high_mps0 full_low_mps0 no_speed : Fault
  bos_short bos_type bos_total : Fault
  lang_short lang_type lang_length : Fault
  string_short string_type string_length string_lang too_large : Fault

abbrev fail_if : Bool → Fault → Option Fault → Option Fault
fail_if bad why rest = if bad then some why else rest

first_of : Option Fault → Option Fault → Option Fault
first_of none rest = rest
first_of (some why) rest = some why

-- The callback that only looks at the form.
abbrev take_any : Unit {0} → ℕ → List ℕ → Unit {0} × Bool
take_any s type d = (s, true)

pub config_fault : List ℕ → Option Fault
config_fault c = fail_if (ltb (length c) 9) config_short (
    fail_if (not (byte_at c 1 == desc_configuration)) config_type (
      fail_if (not (rd16 c 2 == length c)) config_total
        (fail_if (not (for_each_descriptor take_any tt c).1) config_walk none)))

configs_fault : List (List ℕ) → Option Fault
unfolding first_of config_fault
configs_fault [] = none
configs_fault (c ∷ cs) = first_of (config_fault c) (configs_fault cs)

super_fault : ℕ → ℕ → List ℕ → Option Fault
super_fault mps0 bcd bos =
    fail_if (not (mps0 == 9)) super_mps0
      (fail_if (ltb bcd 0x0300) super_bcd (fail_if (length bos == 0) super_bos none))

abbrev full_low_fault : ℕ → Option Fault
full_low_fault mps0 =
    fail_if (not (mps0 == 8) && (not (mps0 == 16) && (not (mps0 == 32) && not (mps0 == 64))))
      full_low_mps0 none

-- `bMaxPacketSize0` is an exponent at SuperSpeed and a count of bytes below it.
pub speed_fault : Speed → ℕ → ℕ → List ℕ → Option Fault
unfolding super_fault
speed_fault super mps0 bcd bos = super_fault mps0 bcd bos
speed_fault super_plus mps0 bcd bos = super_fault mps0 bcd bos
speed_fault super_plus_by2 mps0 bcd bos = super_fault mps0 bcd bos
speed_fault high mps0 bcd bos = fail_if (not (mps0 == 64)) high_mps0 none
speed_fault full mps0 bcd bos = full_low_fault mps0
speed_fault low mps0 bcd bos = full_low_fault mps0
speed_fault unusable mps0 bcd bos = some no_speed

bos_fault : List ℕ → Option Fault
bos_fault bos =
    if length bos == 0
    then none
    else fail_if (ltb (length bos) 5) bos_short (
        fail_if (not (byte_at bos 1 == desc_bos)) bos_type
          (fail_if (not (rd16 bos 2 == length bos)) bos_total none))

lang_fault : List ℕ → Option Fault
lang_fault table =
    if length table == 0
    then none
    else fail_if (ltb (length table) 4) lang_short (
        fail_if (not (byte_at table 1 == desc_string)) lang_type
          (fail_if (not (byte_at table 0 == length table)) lang_length none))

-- The search for a language in the table, behind its two bytes of header.
pub lang_among : ℕ → List ℕ → Bool
lang_among id [] = false
lang_among id (lo ∷ []) = false
lang_among id (lo ∷ (hi ∷ more)) = (rd16 (lo ∷ hi ∷ []) 0 == id) || lang_among id more

pub string_fault : List ℕ → StringDescriptorEntry → Option Fault
unfolding lang_among
string_fault table s = fail_if (ltb (length s.blob) 2) string_short (
    fail_if (not (byte_at s.blob 1 == desc_string)) string_type (
      fail_if (not (byte_at s.blob 0 == length s.blob)) string_length
        (fail_if (not (lang_among s.lang_id (drop 2 table))) string_lang none)))

strings_fault : List ℕ → List StringDescriptorEntry → Option Fault
unfolding first_of string_fault
strings_fault table [] = none
strings_fault table (s ∷ ss) = first_of (string_fault table s) (strings_fault table ss)

device_fault : List ℕ → ℕ → Option Fault
device_fault device count = fail_if (ltb (length device) 18) device_short (
    fail_if (not (byte_at device 0 == length device)) device_length (
      fail_if (not (byte_at device 1 == desc_device)) device_type (
        fail_if (byte_at device 17 == 0) no_configurations
          (fail_if (not (count == byte_at device 17)) configuration_count none))))

-- The first fault; `none` is `Ok`, and any fault is `ManifestInvalid`.
unfoldable pub validate : DeviceManifest → Option Fault
unfolding device_fault configs_fault speed_fault bos_fault lang_fault strings_fault first_of
validate m = first_of (device_fault m.device (length m.configs)) (
    first_of (configs_fault m.configs) (
      first_of (speed_fault m.speed (byte_at m.device 7) (rd16 m.device 2) m.bos) (
        first_of (bos_fault m.bos) (
          first_of (lang_fault m.lang_id_table) (
            first_of (strings_fault m.lang_id_table m.strings)
              (fail_if (ltb (256 * 1024) (byte_size m)) too_large none))))))

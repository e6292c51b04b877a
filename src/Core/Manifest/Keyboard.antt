-- ===== src/Core/Manifest/Keyboard.antt =====
-- A keyboard, for the tests: one configuration, one interface (number 40), one interrupt endpoint.
use airusb_hub.Base.{ℕ, ◌≡◌, refl, none, List, [], ◌∷◌}
use airusb_hub.Core.Usb.{full}
use airusb_hub.Core.Manifest.{DeviceManifest, for_each_descriptor, byte_size}
use airusb_hub.Core.Manifest.Validation.{validate}

abbrev pub device_bytes : List ℕ
device_bytes = 18 ∷ 1 ∷ 0 ∷ 2 ∷ 0 ∷ 0 ∷ 0 ∷ 8 ∷ 0x6D ∷ 4 ∷ 1 ∷ 2 ∷ 0 ∷ 1 ∷ 0 ∷ 0 ∷ 0 ∷ 1 ∷ []

abbrev pub config_bytes : List ℕ
config_bytes =
    9 ∷ 2 ∷ 25 ∷ 0 ∷ 1 ∷ 1 ∷ 0 ∷ 0xA0 ∷ 50 ∷ 9 ∷ 4 ∷ 40 ∷ 0 ∷ 1 ∷ 3 ∷ 1 ∷ 1 ∷ 0 ∷ 7 ∷ 5 ∷ 0x81 ∷ 3
    ∷ 8 ∷ 0 ∷ 10 ∷ []

abbrev pub keyboard : DeviceManifest
keyboard = record {
  speed = full;
  device = device_bytes;
  configs = config_bytes ∷ [];
  bos = [];
  device_qualifier = [];
  other_speed_config = [];
  lang_id_table = 4 ∷ 3 ∷ 9 ∷ 4 ∷ [];
  strings = record { index = 1; lang_id = 0x409; blob = 4 ∷ 3 ∷ 65 ∷ 0 ∷ [] } ∷ [];
}

pub keyboard_valid : validate keyboard ≡ none
unfolding validate for_each_descriptor byte_size
keyboard_valid = refl

-- ===== src/Core/Manifest/Examples.antt =====
-- The theorems of the device manifest at concrete inputs.
use airusb_hub.Base.{ℕ, ◌≡◌, ◌↔◌, refl, true, false, ◌&&◌, some, [], any_of, ◌==◌}
use airusb_hub.Core.Usb.{interrupt, EndpointModel}
use airusb_hub.Core.Manifest.{
  endpoints_for, find_endpoint, for_each_descriptor, collect_step, configuration_by_value,
}
use airusb_hub.Core.Manifest.Keyboard.{keyboard, keyboard_valid, config_bytes}
use airusb_hub.Core.Manifest.Walk.{visit, descriptors, is_nil, for_each_descriptor-visit}
use airusb_hub.Core.Manifest.Lookup.{find_endpoint_iff}
use airusb_hub.Core.Manifest.Validation.Soundness.{IsSound, validate-IsSound}

abbrev no_alt : ℕ → ℕ
no_alt number = 0

abbrev key_endpoint : EndpointModel
key_endpoint = record {
  address = 0x81;
  kind = interrupt;
  max_packet_size = 8;
  interval = 10;
  max_burst = 0;
  mult = 0;
  bytes_per_interval = 0;
}

key_endpoint_found : find_endpoint 1 0x81 no_alt keyboard ≡ some key_endpoint
unfolding find_endpoint for_each_descriptor configuration_by_value
key_endpoint_found = refl

for_each_descriptor-visit_example :
    for_each_descriptor (collect_step 40 0) (false, []) config_bytes ≡ (
      let (ds, rest) = descriptors config_bytes in
      let (s', all) = visit (collect_step 40 0) (false, []) ds in (s', all && is_nil rest))
for_each_descriptor-visit_example =
    for_each_descriptor-visit (collect_step 40 0) (false, []) config_bytes

find_endpoint_iff_example :
    ((ep : EndpointModel) × (find_endpoint 1 0x81 no_alt keyboard ≡ some ep)) ↔ (
      (number : ℕ) × (any_of
          (λ e. e.address == 0x81)
          (endpoints_for 1 number (no_alt number) keyboard)
        ≡ true))
find_endpoint_iff_example = find_endpoint_iff keyboard 1 0x81 no_alt

validate-IsSound_example : IsSound keyboard
validate-IsSound_example = validate-IsSound keyboard keyboard_valid

-- ===== src/Core/Manifest.antt =====
-- airusb/core/DeviceManifest: the descriptors of a device, carried verbatim.
--
-- A blob is a list of bytes. The walk over a blob hands its callback a state, which stands for what
-- the callback captures.
pub mod Walk
pub mod Collected
pub mod Endpoints
pub mod Lookup
pub mod Validation
pub mod Keyboard
mod Examples
use airusb_hub.Base.{
  ℕ, zero, suc, ◌+◌, ◌*◌, ◌/◌, ◌%◌, ◌^◌, ◌≡◌, refl, arith, Bool, true, false, not, ◌&&◌, ◌||◌,
  Option, none, some, List, [], ◌∷◌, ◌++◌, ltb, leb, ◌==◌, if◌then◌else◌, length, get_or, take,
  drop, sum_of, bit_or,
}
use airusb_hub.Core.Usb.{
  Speed, none, XferType, control, isochronous, bulk, interrupt, EndpointModel, DeviceIdentity,
  desc_string, desc_interface, desc_endpoint, desc_ss_endpoint_companion,
}

pub record StringDescriptorEntry : Type 0 where
  pub index : ℕ
  pub lang_id : ℕ
  pub blob : List ℕ

pub record DeviceManifest : Type 0 where
  pub speed : Speed
  pub device : List ℕ
  pub configs : List (List ℕ)
  pub bos : List ℕ
  pub device_qualifier : List ℕ
  pub other_speed_config : List ℕ
  pub lang_id_table : List ℕ
  pub strings : List StringDescriptorEntry

abbrev pub byte_at : List ℕ → ℕ → ℕ
byte_at d i = get_or d i 0

abbrev pub rd16 : List ℕ → ℕ → ℕ
rd16 p i = bit_or (byte_at p i) (byte_at p (i + 1) * 2 ^ 8) % 2 ^ 16

module _ {S : Type 0} where
  -- One turn of `forEachDescriptor` on what is left of the blob: `none` ends the walk with `false`;
  -- else the state after the callback, and what is left then.
  pub one_descriptor : (S → ℕ → List ℕ → S × Bool) → S → List ℕ → S × Option (List ℕ)
  one_descriptor fn s blob =
      let b_length = byte_at blob 0 in
      let (s', go_on) = fn s (byte_at blob 1) (take b_length blob) in
      if ltb (length blob) 2
      then (s, none)
      else if ltb b_length 2
      then (s, none)
      else if ltb (length blob) b_length
      then (s, none)
      else if not go_on
      then (s', none)
      else (s', some (drop b_length blob))

  -- The turn that follows, where there is one.
  next_turn : (S → List ℕ → S × Bool) → S × Option (List ℕ) → S × Bool
  next_turn again (s, none) = (s, false)
  next_turn again (s, some rest) = again s rest

  -- The loop, with fuel.
  walk : (S → ℕ → List ℕ → S × Bool) → ℕ → S → List ℕ → S × Bool
  unfolding one_descriptor next_turn
  walk fn fuel s [] = (s, true)
  walk fn zero s (b ∷ blob) = (s, false)
  walk fn (suc fuel) s (b ∷ blob) = next_turn (walk fn fuel) (one_descriptor fn s (b ∷ blob))

  -- A descriptor has at least two bytes, so a blob has no more of them than bytes.
  unfoldable pub for_each_descriptor : (S → ℕ → List ℕ → S × Bool) → S → List ℕ → S × Bool
  unfolding walk
  for_each_descriptor fn s blob = walk fn (length blob) s blob

-- What the setters do.
pub set_speed : Speed → DeviceManifest → DeviceManifest
set_speed s m = record m { speed = s }

unfoldable pub set_bos : List ℕ → DeviceManifest → DeviceManifest
set_bos blob m = record m { bos = blob }

unfoldable pub set_device_qualifier : List ℕ → DeviceManifest → DeviceManifest
set_device_qualifier b m = record m { device_qualifier = b }

unfoldable pub set_other_speed_config : List ℕ → DeviceManifest → DeviceManifest
set_other_speed_config b m = record m { other_speed_config = b }

unfoldable pub set_device_descriptor : List ℕ → DeviceManifest → DeviceManifest
set_device_descriptor blob m = record m { device = blob }

unfoldable pub add_configuration : List ℕ → DeviceManifest → DeviceManifest
add_configuration blob m = record m { configs = m.configs ++ (blob ∷ []) }

lang_id_bytes : List ℕ → List ℕ
lang_id_bytes [] = []
lang_id_bytes (id ∷ ids) = id % 2 ^ 8 ∷ id / 2 ^ 8 ∷ lang_id_bytes ids

unfoldable pub set_lang_ids : List ℕ → DeviceManifest → DeviceManifest
unfolding lang_id_bytes
set_lang_ids lang_ids m = record m {
  lang_id_table = (2 + length lang_ids * 2) % 2 ^ 8 ∷ desc_string ∷ lang_id_bytes lang_ids;
}

length-lang_id_bytes : (ids : List ℕ) → length (lang_id_bytes ids) ≡ 2 * length ids
unfolding lang_id_bytes
length-lang_id_bytes [] = refl
length-lang_id_bytes (id ∷ ids) = omega (arith, length-lang_id_bytes ids)

pub length-set_lang_ids :
    (ids : List ℕ) (m : DeviceManifest)
    → length (set_lang_ids ids m).lang_id_table ≡ 2 + 2 * length ids
unfolding set_lang_ids
length-set_lang_ids ids m = omega (arith, length-lang_id_bytes ids)

unfoldable pub add_string : ℕ → ℕ → List ℕ → DeviceManifest → DeviceManifest
add_string index lang_id blob m = record m {
  strings = m.strings ++ (record { index = index; lang_id = lang_id; blob = blob } ∷ []);
}

pub identity : DeviceManifest → DeviceIdentity
identity m =
    if leb 18 (length m.device)
    then record {
      vendor_id = rd16 m.device 8;
      product_id = rd16 m.device 10;
      bcd_device = rd16 m.device 12;
      device_class = byte_at m.device 4;
      sub_class = byte_at m.device 5;
      protocol = byte_at m.device 6;
      speed = m.speed;
    }
    else record {
      vendor_id = 0;
      product_id = 0;
      bcd_device = 0;
      device_class = 0;
      sub_class = 0;
      protocol = 0;
      speed = m.speed;
    }

unfoldable pub configuration_by_index : ℕ → DeviceManifest → List ℕ
configuration_by_index index m = get_or m.configs index []

unfoldable pub with_value : ℕ → List (List ℕ) → List ℕ
with_value value [] = []
with_value value (c ∷ cs) =
    if leb 9 (length c) && (byte_at c 5 == value) then c else with_value value cs

unfoldable pub configuration_by_value : ℕ → DeviceManifest → List ℕ
unfolding with_value
configuration_by_value value m = with_value value m.configs

unfoldable pub string_of : ℕ → ℕ → List StringDescriptorEntry → List ℕ
string_of index lang_id [] = []
string_of index lang_id (s ∷ ss) =
    if (s.index == index) && (s.lang_id == lang_id) then s.blob else string_of index lang_id ss

-- Index 0 is the table of languages.
unfoldable pub string_descriptor : ℕ → ℕ → DeviceManifest → List ℕ
unfolding string_of
string_descriptor index lang_id m =
    if index == 0 then m.lang_id_table else string_of index lang_id m.strings

unfoldable pub byte_size : DeviceManifest → ℕ
byte_size m =
    length m.device
    + length m.bos
    + length m.device_qualifier
    + length m.other_speed_config
    + length m.lang_id_table
    + sum_of (λ c. length c) m.configs
    + sum_of (λ s. length s.blob + 4) m.strings

abbrev xfer_type_of : ℕ → XferType
xfer_type_of v =
    if v == 0 then control else if v == 1 then isochronous else if v == 2 then bulk else interrupt

-- What an endpoint descriptor says.
pub endpoint_of : List ℕ → EndpointModel
endpoint_of d = record {
  address = byte_at d 2;
  kind = xfer_type_of (byte_at d 3 % 2 ^ 2);
  max_packet_size = rd16 d 4;
  interval = byte_at d 6;
  max_burst = 0;
  mult = 0;
  bytes_per_interval = 0;
}

-- What a SuperSpeed companion adds to its endpoint.
pub with_companion : List ℕ → EndpointModel → EndpointModel
with_companion d ep = record ep {
  max_burst = byte_at d 2;
  mult = byte_at d 3 % 2 ^ 2;
  bytes_per_interval = rd16 d 4;
}

-- `out.back()` after the companion, where `out` is not empty.
pub on_last : (EndpointModel → EndpointModel) → List EndpointModel → List EndpointModel
on_last f [] = []
on_last f (ep ∷ []) = f ep ∷ []
on_last f (ep ∷ (next ∷ more)) = ep ∷ on_last f (next ∷ more)

-- The callback of `endpointsFor`, with `inTarget` and `out`.
pub collect_step :
    ℕ → ℕ → Bool × List EndpointModel → ℕ → List ℕ → (Bool × List EndpointModel) × Bool
unfolding endpoint_of with_companion on_last
collect_step number alt (in_target, out) type d =
    if (type == desc_interface) && leb 9 (length d)
    then (((byte_at d 2 == number) && (byte_at d 3 == alt), out), true)
    else if (type == desc_endpoint) && (in_target && leb 7 (length d))
    then ((in_target, out ++ (endpoint_of d ∷ [])), true)
    else if (type == desc_ss_endpoint_companion) && (in_target && leb 6 (length d))
    then ((in_target, on_last (with_companion d) out), true)
    else ((in_target, out), true)

pub endpoints_for : ℕ → ℕ → ℕ → DeviceManifest → List EndpointModel
unfolding collect_step
endpoints_for config_value number alt m =
    let cfg = configuration_by_value config_value m in
    (for_each_descriptor (collect_step number alt) (false, []) cfg).0.1

-- The callback of `findEndpoint`, with `inActiveAlt` and what was found.
pub search_step :
    ℕ → (ℕ → ℕ) → Bool × Option EndpointModel → ℕ → List ℕ → (Bool × Option EndpointModel) × Bool
unfolding endpoint_of with_companion
search_step ep_addr alt_of (active, none) type d =
    if (type == desc_interface) && leb 9 (length d)
    then ((byte_at d 3 == alt_of (byte_at d 2), none), true)
    else if (type == desc_endpoint) && (active && (leb 7 (length d) && (byte_at d 2 == ep_addr)))
    then ((active, some (endpoint_of d)), true)
    else ((active, none), true)
search_step ep_addr alt_of (active, some ep) type d =
    if (type == desc_interface) && leb 9 (length d)
    then ((byte_at d 3 == alt_of (byte_at d 2), some ep), true)
    else if (type == desc_ss_endpoint_companion) && leb 6 (length d)
    then ((active, some (with_companion d ep)), false)
    else if (type == desc_endpoint) || (type == desc_interface)
    then ((active, some ep), false)
    else ((active, some ep), true)

pub find_endpoint : ℕ → ℕ → (ℕ → ℕ) → DeviceManifest → Option EndpointModel
unfolding search_step
find_endpoint config_value ep_addr alt_of m =
    let cfg = configuration_by_value config_value m in
    (for_each_descriptor (search_step ep_addr alt_of) (false, none) cfg).0.1

-- ===== src/Core/Ep0.antt =====
-- airusb/core/Ep0Arbiter: what is done with a request on endpoint 0.
--
-- The text of `reason`, which is only logged, is left out. The scratch byte that backs an answer of
-- one byte is the answer itself.
pub mod Policy
pub mod Enumeration
mod Examples
use airusb_hub.Base.{
  ℕ, ◌+◌, ◌/◌, ◌%◌, ◌^◌, Bool, true, false, ◌&&◌, ◌||◌, List, [], ◌∷◌, ltb, ◌==◌, if◌then◌else◌,
  length, get_or, set, take, replicate,
}
use airusb_hub.Core.Status.{Status, ok, not_permitted}
use airusb_hub.Core.Usb.{
  SetupPacket, request_type, recipient, desc_device, desc_configuration, desc_string, desc_bos,
  desc_device_qualifier, desc_other_speed_config,
}
use airusb_hub.Core.Manifest.{DeviceManifest, configuration_by_index, string_descriptor}

pub data Ep0Disposition : Type 0 where
  local absorb arbitrate forward stall : Ep0Disposition

pub data Ep0Verb : Type 0 where
  no_verb set_configuration set_interface ep_clear_halt : Ep0Verb

pub record Ep0Decision : Type 0 where
  pub disposition : Ep0Disposition
  pub verb : Ep0Verb
  pub data_bytes : List ℕ
  pub is_short : Bool
  pub arg0 : ℕ
  pub arg1 : ℕ
  pub status : Status

pub record Ep0Arbiter : Type 0 where
  pub manifest : DeviceManifest
  pub config : ℕ
  pub alt_setting : List ℕ
  pub generation : ℕ

abbrev interfaces : ℕ
interfaces = 32

pub new_arbiter : DeviceManifest → Ep0Arbiter
new_arbiter m = record {
  manifest = m;
  config = 0;
  alt_setting = replicate interfaces 0;
  generation = 0;
}

abbrev plain : Ep0Disposition → Ep0Decision
plain d = record {
  disposition = d;
  verb = no_verb;
  data_bytes = [];
  is_short = false;
  arg0 = 0;
  arg1 = 0;
  status = ok;
}

-- The answer is never longer than what was asked for.
unfoldable pub local_data : List ℕ → ℕ → Ep0Decision
local_data blob w_length =
    let n = if ltb (length blob) w_length then length blob else w_length in
    record (plain local) { data_bytes = take n blob; is_short = ltb n w_length }

abbrev arbitrated : Ep0Verb → ℕ → ℕ → Ep0Decision
arbitrated v a0 a1 = record (plain arbitrate) { verb = v; arg0 = a0; arg1 = a1 }

abbrev stalled : Status → Ep0Decision
stalled st = record (plain stall) { status = st }

-- The standard requests and features that the policy names.
abbrev pub get_status : ℕ
get_status = 0x00

abbrev pub clear_feature : ℕ
clear_feature = 0x01

abbrev pub set_feature : ℕ
set_feature = 0x03

abbrev pub set_address : ℕ
set_address = 0x05

abbrev pub get_descriptor : ℕ
get_descriptor = 0x06

abbrev pub set_descriptor : ℕ
set_descriptor = 0x07

abbrev pub get_configuration : ℕ
get_configuration = 0x08

abbrev pub set_configuration_request : ℕ
set_configuration_request = 0x09

abbrev pub get_interface : ℕ
get_interface = 0x0A

abbrev pub set_interface_request : ℕ
set_interface_request = 0x0B

abbrev pub set_sel : ℕ
set_sel = 0x30

abbrev pub set_isoch_delay : ℕ
set_isoch_delay = 0x31

abbrev pub rcp_endpoint : ℕ
rcp_endpoint = 2

abbrev pub feat_endpoint_halt : ℕ
feat_endpoint_halt = 0

abbrev pub feat_device_remote_wakeup : ℕ
feat_device_remote_wakeup = 1

abbrev pub feat_test_mode : ℕ
feat_test_mode = 2

abbrev pub feat_u1_enable : ℕ
feat_u1_enable = 48

abbrev pub feat_u2_enable : ℕ
feat_u2_enable = 49

abbrev pub feat_ltm_enable : ℕ
feat_ltm_enable = 50

unfoldable pub alternate_setting : ℕ → Ep0Arbiter → ℕ
alternate_setting number a = if ltb number 32 then get_or a.alt_setting number 0 else 0

-- A confirmed verb.
pub commit_verb : Ep0Verb → ℕ → ℕ → Ep0Arbiter → Ep0Arbiter
commit_verb set_configuration arg0 arg1 a = record a {
  config = arg0 % 2 ^ 8;
  alt_setting = replicate interfaces 0;
  generation = (a.generation + 1) % 2 ^ 32;
}
commit_verb set_interface arg0 arg1 a = record a {
  alt_setting = if ltb arg0 32 then set a.alt_setting arg0 (arg1 % 2 ^ 8) else a.alt_setting;
  generation = (a.generation + 1) % 2 ^ 32;
}
commit_verb ep_clear_halt arg0 arg1 a = a
commit_verb no_verb arg0 arg1 a = a

pub descriptor_response : SetupPacket → Ep0Arbiter → Ep0Decision
unfolding local_data
descriptor_response s a =
    let type = s.w_value / 2 ^ 8 in
    let index = s.w_value % 2 ^ 8 in
    if type == desc_device
    then local_data a.manifest.device s.w_length
    else if type == desc_configuration
    then local_data (configuration_by_index index a.manifest) s.w_length
    else if type == desc_string
    then local_data (string_descriptor index s.w_index a.manifest) s.w_length
    else if type == desc_bos
    then local_data a.manifest.bos s.w_length
    else if type == desc_device_qualifier
    then local_data a.manifest.device_qualifier s.w_length
    else if type == desc_other_speed_config
    then local_data a.manifest.other_speed_config s.w_length
    else plain forward

-- Where CLEAR_FEATURE falls through to SET_FEATURE.
feature_response : SetupPacket → Ep0Decision
feature_response s =
    let f = s.w_value in
    if (f == feat_device_remote_wakeup)
      || ((f == feat_u1_enable) || ((f == feat_u2_enable) || (f == feat_ltm_enable)))
    then plain absorb
    else if (s.b_request == set_feature) && (f == feat_test_mode)
    then stalled not_permitted
    else plain forward

pub decide_standard : SetupPacket → Ep0Arbiter → Ep0Decision
unfolding descriptor_response feature_response local_data
decide_standard s a =
    let r = s.b_request in
    if r == get_descriptor
    then descriptor_response s a
    else if r == set_address
    then plain absorb
    else if r == set_configuration_request
    then arbitrated set_configuration (s.w_value % 2 ^ 8) 0
    else if r == set_interface_request
    then arbitrated set_interface s.w_index s.w_value
    else if r == get_configuration
    then local_data (a.config ∷ []) s.w_length
    else if r == get_interface
    then local_data (alternate_setting (s.w_index % 2 ^ 8) a ∷ []) s.w_length
    else if r == get_status
    then plain forward
    else if r == clear_feature
    then if (recipient s == rcp_endpoint) && (s.w_value == feat_endpoint_halt)
      then arbitrated ep_clear_halt s.w_index 0
      else feature_response s
    else if r == set_feature
    then feature_response s
    else if r == set_descriptor
    then stalled not_permitted
    else if (r == set_sel) || (r == set_isoch_delay)
    then plain absorb
    else plain forward

-- Class and vendor requests go to the device.
pub decide : SetupPacket → Ep0Arbiter → Ep0Decision
unfolding decide_standard
decide s a = if request_type s == 0 then decide_standard s a else plain forward

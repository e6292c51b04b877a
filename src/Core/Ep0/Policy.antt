-- ===== src/Core/Ep0/Policy.antt =====
-- What the guest is told on endpoint 0, over any history of confirmed verbs.
use airusb_hub.Base.{
  ℕ, zero, suc, ◌%◌, ◌^◌, ◌≤◌, ◌<◌, ◌≡◌, ◌∙◌, refl, ap, List, [], ◌∷◌, arith, ltb, ◌==◌,
  if◌then◌else◌, length, get_or, get_or-set, length-set, replicate, length-take,
}
use airusb_hub.Core.Usb.{SetupPacket}
use airusb_hub.Core.Manifest.{DeviceManifest, configuration_by_index, string_descriptor}
use airusb_hub.Core.Ep0.{
  local, Ep0Verb, no_verb, set_configuration, set_interface, ep_clear_halt, Ep0Decision, Ep0Arbiter,
  new_arbiter, local_data, alternate_setting, commit_verb, descriptor_response, feature_response,
  decide_standard, decide, get_configuration, get_interface,
}

-- An answer that fits the buffer: no byte more than was asked for, and short where it says so.
abbrev Fits : ℕ → Ep0Decision → Type 0
Fits w d =
    (length d.data_bytes ≤ w) × (d.disposition ≡ local → d.is_short ≡ ltb (length d.data_bytes) w)

local_data-Fits : (blob : List ℕ) (w : ℕ) → Fits w (local_data blob w)
unfolding local_data
local_data-Fits blob w = ground (arith, length-take (length blob) blob, length-take w blob)

descriptor_response-Fits :
    (s : SetupPacket) (a : Ep0Arbiter) → Fits s.w_length (descriptor_response s a)
unfolding descriptor_response
descriptor_response-Fits s a =
    let m : DeviceManifest = a.manifest in
    let index : ℕ = s.w_value % 2 ^ 8 in
    ground (
      arith,
      local_data-Fits m.device s.w_length,
      local_data-Fits (configuration_by_index index m) s.w_length,
      local_data-Fits (string_descriptor index s.w_index m) s.w_length,
      local_data-Fits m.bos s.w_length,
      local_data-Fits m.device_qualifier s.w_length,
      local_data-Fits m.other_speed_config s.w_length,
    )

feature_response-Fits : (s : SetupPacket) → Fits s.w_length (feature_response s)
unfolding feature_response
feature_response-Fits s = ground arith

decide_standard-Fits : (s : SetupPacket) (a : Ep0Arbiter) → Fits s.w_length (decide_standard s a)
unfolding decide_standard
decide_standard-Fits s a = ground (
  arith,
  local_data-Fits (a.config ∷ []) s.w_length,
  local_data-Fits (alternate_setting (s.w_index % 2 ^ 8) a ∷ []) s.w_length,
  descriptor_response-Fits s a,
  feature_response-Fits s,
)

-- Whatever the request, a local answer has no byte more than `wLength`, and is said to be short
-- exactly where it has fewer.
pub decide-Fits :
    (s : SetupPacket) (a : Ep0Arbiter)
    → (length (decide s a).data_bytes ≤ s.w_length)
      × ((decide s a).disposition ≡ local
          → (decide s a).is_short ≡ ltb (length (decide s a).data_bytes) s.w_length)
unfolding decide
decide-Fits s a = ground (arith, decide_standard-Fits s a)

-- A confirmed verb and its arguments; a history has the newest first.
abbrev pub Confirmed : Type 0
Confirmed = Ep0Verb × ℕ × ℕ

unfoldable pub after_history : DeviceManifest → List Confirmed → Ep0Arbiter
after_history m [] = new_arbiter m
after_history m ((v, x, y) ∷ older) = commit_verb v x y (after_history m older)

-- What the device last confirmed: the configuration, and the setting of an interface since then.
unfoldable pub configuration_now : List Confirmed → ℕ
configuration_now [] = 0
configuration_now ((set_configuration, x, y) ∷ older) = x % 2 ^ 8
configuration_now ((set_interface, x, y) ∷ older) = configuration_now older
configuration_now ((ep_clear_halt, x, y) ∷ older) = configuration_now older
configuration_now ((no_verb, x, y) ∷ older) = configuration_now older

unfoldable pub setting_now : ℕ → List Confirmed → ℕ
setting_now number [] = 0
setting_now number ((set_configuration, x, y) ∷ older) = 0
setting_now number ((set_interface, x, y) ∷ older) =
    if x == number then y % 2 ^ 8 else setting_now number older
setting_now number ((ep_clear_halt, x, y) ∷ older) = setting_now number older
setting_now number ((no_verb, x, y) ∷ older) = setting_now number older

-- The array keeps its size, and holds what was confirmed.
abbrev Tracks : List Confirmed → Ep0Arbiter → Type 0
Tracks h a =
    (length a.alt_setting ≡ 32)
    × (a.config ≡ configuration_now h)
    × ((j : ℕ) → j < 32 → get_or a.alt_setting j 0 ≡ setting_now j h)

get_or-zeros : (n j : ℕ) → get_or {A = ℕ} (replicate n 0) j 0 ≡ 0
get_or-zeros zero j = refl
get_or-zeros (suc n) zero = refl
get_or-zeros (suc n) (suc j) = get_or-zeros n j

set_interface-Tracks :
    (h : List Confirmed) (a : Ep0Arbiter) (x y : ℕ)
    → Tracks h a
    → Tracks ((set_interface, x, y) ∷ h) (commit_verb set_interface x y a)
unfolding commit_verb configuration_now setting_now
set_interface-Tracks h a x y (size, config, settings) = (
  ground (arith, size, length-set a.alt_setting x (y % 2 ^ 8)),
  config,
  λ j below. ground (arith, size, settings j below, get_or-set a.alt_setting x j (y % 2 ^ 8) 0),
)

after_history-Tracks : (m : DeviceManifest) (h : List Confirmed) → Tracks h (after_history m h)
unfolding after_history new_arbiter commit_verb configuration_now setting_now
after_history-Tracks m [] = (refl, refl, λ j below. get_or-zeros 32 j)
after_history-Tracks m ((set_configuration, x, y) ∷ h) = (refl, refl, λ j below. get_or-zeros 32 j)
after_history-Tracks m ((set_interface, x, y) ∷ h) =
    set_interface-Tracks h (after_history m h) x y (after_history-Tracks m h)
after_history-Tracks m ((ep_clear_halt, x, y) ∷ h) = after_history-Tracks m h
after_history-Tracks m ((no_verb, x, y) ∷ h) = after_history-Tracks m h

-- GET_CONFIGURATION and GET_INTERFACE with room for the answer.
abbrev pub ask_configuration : ℕ → SetupPacket
ask_configuration room = record {
  bm_request_type = 0x80;
  b_request = get_configuration;
  w_value = 0;
  w_index = 0;
  w_length = room;
}

abbrev pub ask_interface : ℕ → ℕ → SetupPacket
ask_interface number room = record {
  bm_request_type = 0x81;
  b_request = get_interface;
  w_value = 0;
  w_index = number;
  w_length = room;
}

local_data-byte : (b room : ℕ) → 0 < room → (local_data (b ∷ []) room).data_bytes ≡ b ∷ []
unfolding local_data
local_data-byte b zero h = elim h [ ]
local_data-byte b (suc zero) h = refl
local_data-byte b (suc (suc room)) h = ground arith

-- After any history of confirmed verbs the guest is told the configuration that the last
-- SET_CONFIGURATION confirmed, and for an interface below 32 the setting that the last
-- SET_INTERFACE since then confirmed, 0 where there is none; for an interface from 32 on it is
-- always told 0.
pub decide-now :
    (m : DeviceManifest) (h : List Confirmed) (number room : ℕ)
    → 0 < room
    → number < 256
    → let a = after_history m h in
      ((decide (ask_configuration room) a).data_bytes ≡ configuration_now h ∷ [])
      × ((decide (ask_interface number room) a).data_bytes
          ≡ (if ltb number 32 then setting_now number h else 0) ∷ [])
unfolding decide decide_standard alternate_setting
decide-now m h number room some_room byte =
    let a : Ep0Arbiter = after_history m h in
    let (size, config, settings) = after_history-Tracks m h in
    let index : number % 2 ^ 8 ≡ number = omega arith in
    let told : ℕ = if ltb number 32 then get_or a.alt_setting number 0 else 0 in
    let same : told ≡ (if ltb number 32 then setting_now number h else 0) =
      ground (arith, settings number) in
    (
      local_data-byte a.config room some_room ∙ ap (λ c. c ∷ []) config,
      rw index (local_data-byte told room some_room ∙ ap (λ c. c ∷ []) same),
    )

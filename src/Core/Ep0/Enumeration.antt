-- ===== src/Core/Ep0/Enumeration.antt =====
-- How a guest reads a configuration: nine bytes first, then as many as those announce.
use airusb_hub.Base.{
  ℕ, zero, suc, ◌+◌, ◌*◌, ◌/◌, ◌%◌, ◌^◌, ◌≤◌, ◌<◌, ◌≡◌, ◌∙◌, refl, ap, false, none, List, [], ◌∷◌,
  arith, length, All, get_or, get_or-take, take, length-take, take_of_length_le,
}
use airusb_hub.Core.Usb.{SetupPacket, desc_configuration}
use airusb_hub.Core.Manifest.{rd16, configuration_by_index}
use airusb_hub.Core.Manifest.Validation.{validate}
use airusb_hub.Core.Manifest.Validation.Soundness.{IsSound, IsConfiguration, validate-IsSound}
use airusb_hub.Core.Ep0.{
  Ep0Arbiter, local_data, descriptor_response, decide_standard, decide, get_descriptor,
}

-- GET_DESCRIPTOR for the configuration at an index, with a length.
abbrev pub ask_config : ℕ → ℕ → SetupPacket
ask_config index w_length = record {
  bm_request_type = 0x80;
  b_request = get_descriptor;
  w_value = desc_configuration * 2 ^ 8 + index;
  w_index = 0;
  w_length = w_length;
}

module _ (index : ℕ) (byte : index < 256) (a : Ep0Arbiter) where
  decide-ask_config :
      (w_length : ℕ)
      → decide (ask_config index w_length) a
        ≡ local_data (configuration_by_index index a.manifest) w_length
  unfolding decide decide_standard descriptor_response
  decide-ask_config w_length =
      let type : (2 * 2 ^ 8 + index) / 2 ^ 8 ≡ 2 = omega arith in
      let low : (2 * 2 ^ 8 + index) % 2 ^ 8 ≡ index = omega arith in rw (type, low) refl

get_or-All :
    (P : List ℕ → Type 0) (cs : List (List ℕ)) (i : ℕ)
    → All P cs
    → i < length cs
    → P (get_or cs i [])
get_or-All P [] i each h = absurd (omega arith)
get_or-All P (c ∷ cs) zero each h = each.0
get_or-All P (c ∷ cs) (suc i) each h = get_or-All P cs i each.1 (omega arith)

rd16-take : (xs : List ℕ) → rd16 (take 9 xs) 2 ≡ rd16 xs 2
rd16-take xs = rw (get_or-take 9 2 xs 0 (omega arith), get_or-take 9 3 xs 0 (omega arith)) refl

local_data-nine : (c : List ℕ) → 9 ≤ length c → (local_data c 9).data_bytes ≡ take 9 c
unfolding local_data
local_data-nine c h = ground arith

local_data-whole :
    (c : List ℕ)
    → ((local_data c (length c)).data_bytes ≡ c) × ((local_data c (length c)).is_short ≡ false)
unfolding local_data
local_data-whole c = ground (arith, take_of_length_le (length c) c)

-- Where `validate` has passed the manifest, a guest that reads nine bytes of any configuration and
-- then asks for as many as they announce gets the whole configuration, and no short answer.
pub decide-enumerates :
    (index : ℕ) (a : Ep0Arbiter)
    → validate a.manifest ≡ none
    → index < length a.manifest.configs
    → index < 256
    → let first = decide (ask_config index 9) a in
      let then_all = decide (ask_config index (rd16 first.data_bytes 2)) a in
      (length first.data_bytes ≡ 9)
      × (then_all.data_bytes ≡ configuration_by_index index a.manifest)
      × (then_all.is_short ≡ false)
unfolding configuration_by_index
decide-enumerates index a valid there byte =
    let c : List ℕ = configuration_by_index index a.manifest in
    let sound : IsSound a.manifest = validate-IsSound a.manifest valid in
    let ask = decide-ask_config index byte a in
    let (long, announced, pieces) =
      get_or-All IsConfiguration a.manifest.configs index sound.configurations there in
    let first : (decide (ask_config index 9) a).data_bytes ≡ take 9 c =
      ap (λ d. d.data_bytes) (ask 9) ∙ local_data-nine c long in
    let total : rd16 (decide (ask_config index 9) a).data_bytes 2 ≡ length c =
      ap (λ p. rd16 p 2) first ∙ rd16-take c ∙ announced in
    let whole = ask (length c) in
    (
      ap (λ p. length p) first ∙ omega (arith, length-take 9 c),
      rw total (ap (λ d. d.data_bytes) whole ∙ (local_data-whole c).0),
      rw total (ap (λ d. d.is_short) whole ∙ (local_data-whole c).1),
    )

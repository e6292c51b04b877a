-- ===== src/Protocol/Manifests/Decode/Acceptance.antt =====
-- What `decodeManifest` accepts.
use airusb_hub.Base.{
  ℕ, ◌+◌, ◌*◌, ◌-◌, ◌%◌, ◌||◌, ◌≤◌, ◌<◌, ◌≡◌, ◌⊎◌, sym, ◌∙◌, inl, inr, refl, subst, Bool, true,
  false, not, ◌&&◌, Option, none, some, List, [], ◌∷◌, arith, ltb, ◌==◌, if◌then◌else◌, length,
  length-append, drop, take, get_or, Bool-cases,
}
use airusb_hub.Core.Status.{Status, ok, malformed_frame}
use airusb_hub.Core.Manifest.{
  DeviceManifest, StringDescriptorEntry, configuration_by_value, set_device_descriptor,
  add_configuration, set_bos, set_device_qualifier, set_other_speed_config, set_lang_ids,
  add_string, length-set_lang_ids,
}
use airusb_hub.Core.Manifest.Validation.{Fault, validate}
use airusb_hub.Core.Manifest.Validation.Soundness.{IsSound, validate-IsSound}
use airusb_hub.Protocol.Codec.{rd_u16}
use airusb_hub.Protocol.Codec.Tlvs.{TlvView, for_each_tlv, for_each_tlv-keeps}
use airusb_hub.Protocol.Manifests.{ManifestHeader, speed_of}
use airusb_hub.Protocol.Manifests.Decode.{
  Decoded, failed, decoded, Gathered, broken, lang_ids_of, on_device, on_config, on_langs,
  on_string, on_section, accepted, finished, walked, header_status, read_header, refused_or,
  gathering, empty_manifest, decode_manifest, trailer_of, on_trailer,
}

-- There is no table of languages, or it has as many as the header says, behind its two bytes.
abbrev pub IsLangTable : ManifestHeader → List ℕ → Type 0
IsLangTable hdr table = (table ≡ []) ⊎ (length table ≡ 2 + 2 * hdr.langid_count)

-- The counters count, the speed is the header's, and so is the number of languages.
abbrev IsCounted : ManifestHeader → Gathered → Type 0
IsCounted hdr g =
    (length g.m.configs ≡ g.seen_configs)
    × (length g.m.strings ≡ g.seen_strings)
    × (g.m.speed ≡ speed_of hdr.speed)
    × IsLangTable hdr g.m.lang_id_table

module _ (hdr : ManifestHeader) where
  abbrev Kept : Gathered × Bool → Type 0
  Kept r = r.1 ≡ true → IsCounted hdr r.0

  on_device-Kept : (g : Gathered) (v : List ℕ) → IsCounted hdr g → Kept (on_device g v)
  unfolding on_device set_device_descriptor
  on_device-Kept g v h = ground arith

  on_config-Kept : (g : Gathered) (v : List ℕ) → IsCounted hdr g → Kept (on_config hdr g v)
  unfolding on_config add_configuration
  on_config-Kept g v h = ground (arith, length-append g.m.configs (v ∷ []))

  -- A refusal keeps nothing, so it is enough that what passes the test does.
  broken-Kept :
      (b : Bool) (g : Gathered) (r : Gathered × Bool)
      → (b ≡ false → Kept r)
      → Kept (if b then broken g else r)
  broken-Kept true g r passed = λ e. absurd (cc)
  broken-Kept false g r passed = passed refl

  on_langs-Kept : (g : Gathered) (v : List ℕ) → IsCounted hdr g → Kept (on_langs hdr g v)
  unfolding on_langs set_lang_ids
  on_langs-Kept g v h =
      let ids = lang_ids_of (drop 2 v) in
      broken-Kept (ltb (length v) 2 || not ((length v - 2) % 2 == 0)) g _ (λ even.
        broken-Kept (not (length ids == hdr.langid_count)) g _ (λ same goes_on.
          (h.0, h.1, h.2, inr (ground (arith, same, length-set_lang_ids ids g.m)))))

  on_string-Kept : (g : Gathered) (v : List ℕ) → IsCounted hdr g → Kept (on_string hdr g v)
  unfolding on_string add_string
  on_string-Kept g v h =
      let entry : StringDescriptorEntry = record {
        index = get_or v 0 0;
        lang_id = rd_u16 v 1;
        blob = drop 5 v;
      } in
      ground (arith, length-append g.m.strings (entry ∷ []))

  on_section-Kept : (g : Gathered) (t : TlvView) → IsCounted hdr g → Kept (on_section hdr g t)
  unfolding on_section set_bos set_device_qualifier set_other_speed_config
  on_section-Kept g t h = ground (
    arith,
    on_device-Kept g t.value h,
    on_config-Kept g t.value h,
    on_langs-Kept g t.value h,
    on_string-Kept g t.value h,
  )

-- What an accepted manifest is: valid and sound, with the counts and the speed of its header, and in
-- a configuration that it has.
pub record IsAccepted (m : DeviceManifest) (hdr : ManifestHeader) : Type 0 where
  pub valid : validate m ≡ none
  pub sound : IsSound m
  pub version : hdr.manifest_version ≡ 1
  pub configs : length m.configs ≡ hdr.config_count
  pub few_configs : length m.configs ≤ 8
  pub strings : length m.strings ≡ hdr.string_count
  pub few_strings : length m.strings ≤ 128
  pub languages : IsLangTable hdr m.lang_id_table
  pub few_languages : hdr.langid_count ≤ 16
  pub speed : m.speed ≡ speed_of hdr.speed
  pub current :
      (hdr.current_config_value ≡ 0)
      ⊎ (0 < length (configuration_by_value hdr.current_config_value m))

header_status-ok :
    (hdr : ManifestHeader)
    → header_status hdr ≡ ok
    → (hdr.manifest_version ≡ 1)
      × (hdr.config_count ≤ 8)
      × (hdr.string_count ≤ 128)
      × (hdr.langid_count ≤ 16)
unfolding header_status
header_status-ok hdr e = ground (arith, e)

-- A configuration that the header names is there.
abbrev IsNamed : ManifestHeader → DeviceManifest → Type 0
IsNamed hdr m =
    (hdr.current_config_value ≡ 0)
    ⊎ (0 < length (configuration_by_value hdr.current_config_value m))

accepted-IsNamed :
    (hdr hdr' : ManifestHeader) (g m : DeviceManifest) (v : Option Fault)
    → accepted hdr g v ≡ decoded m hdr'
    → (v ≡ none) × (g ≡ m) × (hdr ≡ hdr') × IsNamed hdr g
unfolding accepted
accepted-IsNamed hdr hdr' g m (some why) e = absurd (cc)
accepted-IsNamed hdr hdr' g m none e =
    let named : Bool = not (hdr.current_config_value == 0) in
    let nothing : Bool = length (configuration_by_value hdr.current_config_value g) == 0 in
    elim (Bool-cases (named && nothing)) [
      | inl bad ↦ absurd (cc (rw bad at e))
      | inr good ↦
          let same : decoded g hdr ≡ decoded m hdr' = (rw good at e) in
          (refl, cc, cc, ground (arith, good))
    ]

-- What the last tests leave.
finished-accepted :
    (hdr hdr' : ManifestHeader) (flags : Bool × Bool) (g : Gathered) (m : DeviceManifest)
    → finished hdr flags g ≡ decoded m hdr'
    → (accepted hdr g.m (validate g.m) ≡ decoded m hdr')
      × (g.seen_configs ≡ hdr.config_count)
      × (g.seen_strings ≡ hdr.string_count)
unfolding finished
finished-accepted hdr hdr' (seen, good) g m e = ground (arith, e)

walked-finished :
    (hdr hdr' : ManifestHeader) (flags : Bool × Bool) (r : Option (Gathered × Bool))
    (m : DeviceManifest)
    → walked hdr flags r ≡ decoded m hdr'
    → (g : Gathered) × (r ≡ some (g, true)) × (finished hdr flags g ≡ decoded m hdr')
unfolding walked
walked-finished hdr hdr' flags (some (g, true)) m e = (g, refl, e)
walked-finished hdr hdr' flags (some (g, false)) m e = absurd (cc)
walked-finished hdr hdr' flags none m e = absurd (cc)

on_section-walk :
    (hdr : ManifestHeader) (blobs : List ℕ) (g : Gathered)
    → for_each_tlv (on_section hdr) (gathering hdr.speed) blobs ≡ some (g, true)
    → IsCounted hdr g
unfolding gathering empty_manifest
on_section-walk hdr blobs g e =
    for_each_tlv-keeps (on_section hdr) (IsCounted hdr)
      (λ g t h goes_on. on_section-Kept hdr g t h goes_on) (gathering hdr.speed) blobs g
      (refl, refl, refl, inl refl) e

walked-IsAccepted :
    (hdr hdr' : ManifestHeader) (flags : Bool × Bool) (blobs : List ℕ) (m : DeviceManifest)
    → header_status hdr ≡ ok
    → walked hdr flags (for_each_tlv (on_section hdr) (gathering hdr.speed) blobs) ≡ decoded m hdr'
    → IsAccepted m hdr' × (hdr' ≡ hdr)
walked-IsAccepted hdr hdr' flags blobs m fine e =
    let (g, whole, done) =
      walked-finished hdr hdr' flags (for_each_tlv (on_section hdr) (gathering hdr.speed) blobs) m
        e in
    let (configs, strings, speed, languages) = on_section-walk hdr blobs g whole in
    let (taken, all_configs, all_strings) = finished-accepted hdr hdr' flags g m done in
    let (valid, same, same_hdr, named) = accepted-IsNamed hdr hdr' g.m m (validate g.m) taken in
    let (version, few, few_strings, few_languages) = header_status-ok hdr fine in
    let here : IsAccepted g.m hdr = record {
      valid = valid;
      sound = validate-IsSound g.m valid;
      version = version;
      configs = configs ∙ all_configs;
      few_configs = omega (arith, configs, all_configs);
      strings = strings ∙ all_strings;
      few_strings = omega (arith, strings, all_strings);
      languages = languages;
      few_languages = few_languages;
      speed = speed;
      current = named;
    } in
    (subst (λ h. IsAccepted m h) same_hdr (subst (λ n. IsAccepted n hdr) same here), sym same_hdr)

refused_or-decoded :
    (st : Status) (m : DeviceManifest) (hdr : ManifestHeader) (go_on : Decoded)
    → refused_or st go_on ≡ decoded m hdr
    → (st ≡ ok) × (go_on ≡ decoded m hdr)
unfolding refused_or
refused_or-decoded ok m hdr go_on e = (refl, e)
refused_or-decoded refusal m hdr go_on e = absurd (cc)

past_test :
    (b : Bool) (st : Status) (go_on : Decoded) (m : DeviceManifest) (hdr : ManifestHeader)
    → (if b then failed st else go_on) ≡ decoded m hdr
    → go_on ≡ decoded m hdr
past_test true st go_on m hdr e = absurd (cc)
past_test false st go_on m hdr e = e

-- Whatever bytes a peer sends and whatever the hash is, a manifest that is accepted passes `validate`
-- and is sound, and the header that comes with it is that of the bytes: version 1, as many
-- configurations (8 at most) and strings (128 at most) as the manifest has, its speed, the number of
-- its languages (16 at most) unless the manifest has no table of languages, and a current
-- configuration that is 0 or one that the manifest has.
pub decode_manifest-IsAccepted :
    (hash : List ℕ → List ℕ) (body : List ℕ) (m : DeviceManifest) (hdr : ManifestHeader)
    → decode_manifest hash body ≡ decoded m hdr
    → IsAccepted m hdr × (hdr ≡ read_header body)
unfolding decode_manifest
decode_manifest-IsAccepted hash body m hdr e =
    let header : ManifestHeader = read_header body in
    let tlvs : List ℕ = drop 32 body in
    let blobs : List ℕ = take header.total_blob_bytes tlvs in
    let flags : Bool × Bool =
      trailer_of (
        for_each_tlv (on_trailer (hash blobs)) (false, false)
          (drop header.total_blob_bytes tlvs)) in
    let met : Decoded =
      walked header flags (for_each_tlv (on_section header) (gathering header.speed) blobs) in
    let rest : Decoded =
      if ltb (length tlvs) header.total_blob_bytes then failed malformed_frame else met in
    let long =
      past_test (ltb (length body) 32) malformed_frame (refused_or (header_status header) rest) m
        hdr e in
    let (fine, done) = refused_or-decoded (header_status header) m hdr rest long in
    walked-IsAccepted header hdr flags blobs m fine
      (past_test (ltb (length tlvs) header.total_blob_bytes) malformed_frame met m hdr done)

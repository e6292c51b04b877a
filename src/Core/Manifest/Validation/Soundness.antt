-- ===== src/Core/Manifest/Validation/Soundness.antt =====
-- What a manifest that `validate` passes is.
use airusb_hub.Base.{
  ℕ, ◌*◌, ◌≤◌, ◌<◌, ◌≡◌, ◌∙◌, refl, sym, ap, true, Option, none, some, List, [], ◌∷◌, ◌++◌, arith,
  ltb, length, All, append-nil, drop,
}
use airusb_hub.Core.Usb.{Speed, super}
use airusb_hub.Core.Manifest.{
  DeviceManifest, StringDescriptorEntry, byte_at, rd16, byte_size, for_each_descriptor,
}
use airusb_hub.Core.Manifest.Walk.{
  IsDescriptor, descriptors, joined, is_nil, for_each_descriptor-visit, descriptors-joined,
}
use airusb_hub.Core.Manifest.Validation.{
  Fault, first_of, take_any, speed_fault, super_fault, bos_fault, lang_fault, fail_if, too_large,
  config_fault, configs_fault, string_fault, strings_fault, device_fault, validate, lang_among,
}

-- A configuration is whole descriptors, one behind the other, and says its own size.
abbrev pub IsConfiguration : List ℕ → Type 0
IsConfiguration c =
    (9 ≤ length c)
    × (rd16 c 2 ≡ length c)
    × ((ds : List (List ℕ)) × All IsDescriptor ds × (joined ds ≡ c))

-- A string is one descriptor, in a language of the table.
abbrev pub IsListed : List ℕ → StringDescriptorEntry → Type 0
IsListed table s = IsDescriptor s.blob × (lang_among s.lang_id (drop 2 table) ≡ true)

pub record IsSound (m : DeviceManifest) : Type 0 where
  pub device : IsDescriptor m.device
  pub device_size : 18 ≤ length m.device
  pub counted : length m.configs ≡ byte_at m.device 17
  pub some_configuration : 0 < length m.configs
  pub configurations : All IsConfiguration m.configs
  pub listed : All (IsListed m.lang_id_table) m.strings
  pub super_size : m.speed ≡ super → (byte_at m.device 7 ≡ 9) × (0 < length m.bos)
  pub small : byte_size m ≤ 262_144

first_of-none : (a b : Option Fault) → first_of a b ≡ none → (a ≡ none) × (b ≡ none)
unfolding first_of
first_of-none none b e = (refl, e)
first_of-none (some why) b e = absurd (cc)

is_nil-nil : (xs : List ℕ) → is_nil xs ≡ true → xs ≡ []
unfolding is_nil
is_nil-nil [] h = refl
is_nil-nil (x ∷ xs) h = absurd (cc)

walked_whole :
    (c : List ℕ) → (for_each_descriptor take_any tt c).1 ≡ true → is_nil (descriptors c).1 ≡ true
walked_whole c h = ground (arith, h, ap (λ r. r.1) (for_each_descriptor-visit take_any tt c))

walk-joined :
    (c : List ℕ)
    → (for_each_descriptor take_any tt c).1 ≡ true
    → (ds : List (List ℕ)) × All IsDescriptor ds × (joined ds ≡ c)
walk-joined c h =
    let (ds, rest) = descriptors c in
    let (whole, each, stop) = descriptors-joined c in
    let nothing : rest ≡ [] = is_nil-nil rest (walked_whole c h) in
    (ds, each, sym (append-nil (joined ds)) ∙ ap (λ r. joined ds ++ r) (sym nothing) ∙ whole)

config_fault-none : (c : List ℕ) → config_fault c ≡ none → IsConfiguration c
unfolding config_fault
config_fault-none c e =
    let walked : (for_each_descriptor take_any tt c).1 ≡ true = ground (arith, e) in
    (ground (arith, e), ground (arith, e), walk-joined c walked)

configs_fault-none : (cs : List (List ℕ)) → configs_fault cs ≡ none → All IsConfiguration cs
unfolding configs_fault
configs_fault-none [] e = tt
configs_fault-none (c ∷ cs) e =
    let (here, there) = first_of-none (config_fault c) (configs_fault cs) e in
    (config_fault-none c here, configs_fault-none cs there)

string_fault-none :
    (table : List ℕ) (s : StringDescriptorEntry) → string_fault table s ≡ none → IsListed table s
unfolding string_fault
string_fault-none table s e = ground (arith, e)

strings_fault-none :
    (table : List ℕ) (ss : List StringDescriptorEntry)
    → strings_fault table ss ≡ none
    → All (IsListed table) ss
unfolding strings_fault
strings_fault-none table [] e = tt
strings_fault-none table (s ∷ ss) e =
    let (here, there) = first_of-none (string_fault table s) (strings_fault table ss) e in
    (string_fault-none table s here, strings_fault-none table ss there)

speed_fault-super :
    (sp : Speed) (mps0 bcd : ℕ) (bos : List ℕ)
    → speed_fault sp mps0 bcd bos ≡ none
    → sp ≡ super
    → (mps0 ≡ 9) × (0 < length bos)
unfolding speed_fault super_fault
speed_fault-super super mps0 bcd bos e s = ground (arith, e)
speed_fault-super elsewise mps0 bcd bos e s = absurd (cc)

device_fault-none :
    (device : List ℕ) (count : ℕ)
    → device_fault device count ≡ none
    → IsDescriptor device × (18 ≤ length device) × (count ≡ byte_at device 17) × (0 < count)
unfolding device_fault
device_fault-none device count e = ground (arith, e)

-- A manifest that `validate` passes is what it says of itself: each configuration is whole
-- descriptors, as many bytes as it announces, and there are as many as the device descriptor
-- counts; each string is one descriptor in a listed language; a SuperSpeed device has packets of
-- 2^9 on endpoint 0 and a BOS descriptor; and all of it is 256 KiB at most.
pub validate-IsSound : (m : DeviceManifest) → validate m ≡ none → IsSound m
unfolding validate
validate-IsSound m e0 =
    let configs = configs_fault m.configs in
    let speed = speed_fault m.speed (byte_at m.device 7) (rd16 m.device 2) m.bos in
    let strings = strings_fault m.lang_id_table m.strings in
    let size = fail_if (ltb (256 * 1024) (byte_size m)) too_large none in
    let r4 = first_of strings size in
    let r3 = first_of (lang_fault m.lang_id_table) r4 in
    let r2 = first_of (bos_fault m.bos) r3 in
    let r1 = first_of speed r2 in
    let (d, e1) =
      first_of-none (device_fault m.device (length m.configs)) (first_of configs r1) e0 in
    let (c, e2) = first_of-none configs r1 e1 in
    let (s, e3) = first_of-none speed r2 e2 in
    let (b, e4) = first_of-none (bos_fault m.bos) r3 e3 in
    let (l, e5) = first_of-none (lang_fault m.lang_id_table) r4 e4 in
    let (t, e6) = first_of-none strings size e5 in
    let (whole, long, same, more) = device_fault-none m.device (length m.configs) d in
    record {
      device = whole;
      device_size = long;
      counted = same;
      some_configuration = more;
      configurations = configs_fault-none m.configs c;
      listed = strings_fault-none m.lang_id_table m.strings t;
      super_size = speed_fault-super m.speed (byte_at m.device 7) (rd16 m.device 2) m.bos s;
      small = ground (arith, e6);
    }

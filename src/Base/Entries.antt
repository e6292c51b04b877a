-- ===== src/Base/Entries.antt =====
-- `std::map` with numbers for keys: the entries in ascending order of their keys.
use Prim.Native.Nat.{ℕ, ◌<◌, ◌≤◌, ◌+◌}
use mathlib.Core.Path.{◌≡◌, ◌∙◌, refl, sym}
use mathlib.Core.Logic.{◌≢◌, inl, inr}
use mathlib.Core.Bool.{true}
use mathlib.Core.List.{List, [], ◌∷◌}
use mathlib.Core.Option.{none, some}
use native.Mathlib.Omega.{arith}
use airusb_hub.Base.Tests.{◌==◌, ltb, if◌then◌else◌, Bool-cases, ltb→lt}
use airusb_hub.Base.Lists.{sum_of}
use airusb_hub.Base.Maps.{lookup}

module _ {ℓ} {V : Type ℓ} where
  -- `m[key] = new`.
  unfoldable pub put : ℕ → V → List (ℕ × V) → List (ℕ × V)
  put key new [] = (key, new) ∷ []
  put key new ((at, old) ∷ more) =
      let rest = put key new more in
      if at == key
      then (at, new) ∷ more
      else if ltb key at
      then (key, new) ∷ (at, old) ∷ more
      else (at, old) ∷ rest

  -- `m.erase(m.find(key))`.
  unfoldable pub erase : ℕ → List (ℕ × V) → List (ℕ × V)
  erase key [] = []
  erase key ((at, old) ∷ more) = if at == key then more else (at, old) ∷ erase key more

  -- Every key is above `low`, and the keys ascend.
  abbrev pub IsAbove : ℕ → List (ℕ × V) → Type 0
  IsAbove low [] = Unit
  IsAbove low ((at, found) ∷ more) = (low < at) × IsAbove at more

  abbrev pub IsAscending : List (ℕ × V) → Type 0
  IsAscending [] = Unit
  IsAscending ((at, found) ∷ more) = IsAbove at more

some-ne-none {ℓ} : {A : Type ℓ} {a : A} → ¬ (some a ≡ none)
some-ne-none e = ground arith

ltb→le : (a b : ℕ) → ltb a b ≡ true → a ≤ b
ltb→le a b h = ground arith

module _ {ℓ} {V : Type ℓ} where
  pub lookup-put :
      (key asked : ℕ) (new : V) (m : List (ℕ × V))
      → lookup asked (put key new m) ≡ (if key == asked then some new else lookup asked m)
  unfolding lookup put
  lookup-put key asked new [] = ground arith
  lookup-put key asked new (entry ∷ more) = ground (arith, lookup-put key asked new more)

  pub lookup-IsAbove :
      (low key : ℕ) (m : List (ℕ × V)) → IsAbove low m → key ≤ low → lookup key m ≡ none
  unfolding lookup
  lookup-IsAbove low key [] above h = refl
  lookup-IsAbove low key ((at, found) ∷ more) (here, there) h =
      ground (arith, lookup-IsAbove at key more there (omega arith))

  pub put-IsAbove :
      (low key : ℕ) (new : V) (m : List (ℕ × V))
      → IsAbove low m
      → low < key
      → IsAbove low (put key new m)
  unfolding put
  put-IsAbove low key new [] above h = (h, tt)
  put-IsAbove low key new ((at, old) ∷ more) (here, there) h = elim (Bool-cases (ltb at key)) [
    | inl below ↦ ground (arith, put-IsAbove at key new more there (ltb→lt at key below))
    | inr above ↦ ground arith
  ]

  pub put-IsAscending :
      (key : ℕ) (new : V) (m : List (ℕ × V)) → IsAscending m → IsAscending (put key new m)
  unfolding put
  put-IsAscending key new [] h = tt
  put-IsAscending key new ((at, old) ∷ more) h = elim (Bool-cases (ltb at key)) [
    | inl below ↦ ground (arith, put-IsAbove at key new more h (ltb→lt at key below))
    | inr above ↦ ground arith
  ]

  IsAbove-weaken : (low at : ℕ) (m : List (ℕ × V)) → IsAbove at m → low ≤ at → IsAbove low m
  IsAbove-weaken low at [] h k = tt
  IsAbove-weaken low at ((next, found) ∷ more) (here, there) k = (omega arith, there)

  erase-IsAbove : (low key : ℕ) (m : List (ℕ × V)) → IsAbove low m → IsAbove low (erase key m)
  unfolding erase
  erase-IsAbove low key [] h = tt
  erase-IsAbove low key ((at, old) ∷ more) (here, there) = elim (Bool-cases (at == key)) [
    | inl same ↦ rw same (IsAbove-weaken low at more there (omega arith))
    | inr other ↦ rw other (here, erase-IsAbove at key more there)
  ]

  IsAbove-IsAscending : (low : ℕ) (m : List (ℕ × V)) → IsAbove low m → IsAscending m
  IsAbove-IsAscending low [] h = tt
  IsAbove-IsAscending low ((at, found) ∷ more) (here, there) = there

  pub erase-IsAscending : (key : ℕ) (m : List (ℕ × V)) → IsAscending m → IsAscending (erase key m)
  unfolding erase
  erase-IsAscending key [] h = tt
  erase-IsAscending key ((at, old) ∷ more) h = elim (Bool-cases (at == key)) [
    | inl same ↦ rw same (IsAbove-IsAscending at more h)
    | inr other ↦ rw other (erase-IsAbove at key more h)
  ]

  pub lookup-erase :
      (key asked : ℕ) (m : List (ℕ × V)) → asked ≢ key → lookup asked (erase key m) ≡ lookup asked m
  unfolding lookup erase
  lookup-erase key asked [] h = refl
  lookup-erase key asked ((at, old) ∷ more) h = ground (arith, lookup-erase key asked more h)

  pub lookup-erase_self :
      (key : ℕ) (m : List (ℕ × V)) → IsAscending m → lookup key (erase key m) ≡ none
  unfolding lookup erase
  lookup-erase_self key [] h = refl
  lookup-erase_self key ((at, old) ∷ more) h = elim (Bool-cases (at == key)) [
    | inl same ↦ rw same (lookup-IsAbove at key more h (ground arith))
    | inr other ↦ rw (other, other) (lookup-erase_self key more (IsAbove-IsAscending at more h))
  ]

  pub sum_of-put :
      (f : ℕ × V → ℕ) (key : ℕ) (new : V) (m : List (ℕ × V))
      → lookup key m ≡ none
      → sum_of f (put key new m) ≡ f (key, new) + sum_of f m
  unfolding lookup put
  sum_of-put f key new [] h = refl
  sum_of-put f key new ((at, old) ∷ more) h = elim (Bool-cases (at == key)) [
    | inl same ↦ absurd (ground arith)
    | inr other ↦
        let behind : lookup key more ≡ none = ground arith in
        ground (arith, sum_of-put f key new more behind)
  ]

  pub sum_of-erase :
      (f : ℕ × V → ℕ) (key : ℕ) (found : V) (m : List (ℕ × V))
      → lookup key m ≡ some found
      → f (key, found) + sum_of f (erase key m) ≡ sum_of f m
  unfolding lookup erase
  sum_of-erase f key found [] h = absurd (ground arith)
  sum_of-erase f key found ((at, old) ∷ more) h = elim (Bool-cases (at == key)) [
    | inl same ↦
        let here : at ≡ key = ground arith in
        let value : old ≡ found = ground arith in rw (same, here, value) refl
    | inr other ↦
        let behind : lookup key more ≡ some found = ground arith in
        rw other (omega (arith, sum_of-erase f key found more behind))
  ]

  -- Writing an entry adds what it weighs at most.
  pub sum_of-put_le :
      (f : ℕ × V → ℕ) (key : ℕ) (new : V) (m : List (ℕ × V))
      → sum_of f (put key new m) ≤ f (key, new) + sum_of f m
  unfolding put
  sum_of-put_le f key new [] = omega arith
  sum_of-put_le f key new ((at, old) ∷ more) = elim (Bool-cases (at == key)) [
    | inl same ↦ let here : at ≡ key = ground arith in rw (same, here) (omega arith)
    | inr other ↦ elim (Bool-cases (ltb key at)) [
      | inl before ↦ rw (other, before) (omega arith)
      | inr behind ↦ rw (other, behind) (omega (arith, sum_of-put_le f key new more))
    ]
  ]

  -- In ascending entries an entry that is there is replaced.
  pub sum_of-put_self :
      (f : ℕ × V → ℕ) (key : ℕ) (old new : V) (m : List (ℕ × V))
      → IsAscending m
      → lookup key m ≡ some old
      → f (key, new) ≤ f (key, old)
      → sum_of f (put key new m) ≤ sum_of f m
  unfolding lookup put
  sum_of-put_self f key old new [] up e h = absurd (ground arith)
  sum_of-put_self f key old new ((at, found) ∷ more) up e h = elim (Bool-cases (at == key)) [
    | inl same ↦
        let here : at ≡ key = ground arith in
        let value : found ≡ old = ground arith in rw (same, here, value) (omega arith)
    | inr other ↦
        let behind : lookup key more ≡ some old = ground arith in
        elim (Bool-cases (ltb key at)) [
          | inl before ↦
              absurd
                (some-ne-none (sym behind ∙ lookup-IsAbove at key more up (ltb→le key at before)))
          | inr after ↦
              rw (other, after)
                (omega (
                  arith,
                  sum_of-put_self f key old new more (IsAbove-IsAscending at more up) behind h,
                ))
        ]
  ]

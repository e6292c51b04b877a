-- ===== src/Core/Manifest/Collected.antt =====
-- What the callback of `endpointsFor` collects.
use airusb_hub.Base.{
  ℕ, ◌≡◌, ◌∙◌, refl, ap, inl, inr, Bool, true, false, ◌&&◌, ◌||◌, List, [], ◌∷◌, ◌++◌, arith, leb,
  ◌==◌, if◌then◌else◌, length, any_of, Bool-cases,
}
use airusb_hub.Core.Usb.{XferType, EndpointModel, desc_interface, desc_endpoint}
use airusb_hub.Core.Manifest.{byte_at, endpoint_of, with_companion, on_last, collect_step}
use airusb_hub.Core.Manifest.Walk.{visit}

-- What an endpoint descriptor itself says, without the companion.
abbrev pub Core : Type 0
Core = ℕ × XferType × ℕ × ℕ

abbrev pub core : EndpointModel → Core
core e = (e.address, e.kind, e.max_packet_size, e.interval)

abbrev pub is_interface : List ℕ → Bool
is_interface d = (byte_at d 1 == desc_interface) && leb 9 (length d)

abbrev pub is_endpoint : List ℕ → Bool
is_endpoint d = (byte_at d 1 == desc_endpoint) && leb 7 (length d)

-- The walk after the callback has answered for a descriptor.
abbrev pub onward : {S : Type 0} → (S → ℕ → List ℕ → S × Bool) → List (List ℕ) → S × Bool → S × Bool
onward fn ds r = if r.1 then visit fn r.0 ds else (r.0, false)

any_of-append_one :
    {A : Type 0} (p : A → Bool) (xs : List A) (y : A)
    → any_of p (xs ++ (y ∷ [])) ≡ any_of p xs || p y
any_of-append_one p [] y = ground arith
any_of-append_one p (x ∷ xs) y = ground (arith, any_of-append_one p xs y)

module _ (q : Core → Bool) where
  abbrev pub among : List EndpointModel → Bool
  among out = any_of (λ e. q (core e)) out

  among-on_last :
      (d : List ℕ) (out : List EndpointModel) → among (on_last (with_companion d) out) ≡ among out
  unfolding on_last with_companion
  among-on_last d [] = refl
  among-on_last d (e ∷ []) = refl
  among-on_last d (e ∷ (next ∷ more)) = ap (λ b. q (core e) || b) (among-on_last d (next ∷ more))

  -- What the callback of `endpointsFor` does at a descriptor that is no interface.
  abbrev Gains : Bool → List ℕ → List EndpointModel → (Bool × List EndpointModel) × Bool → Type 0
  Gains t d out r =
      (r.1 ≡ true)
      × (r.0.0 ≡ t)
      × (among r.0.1 ≡ among out || ((t && is_endpoint d) && q (core (endpoint_of d))))

  collect_step-Gains :
      (number alt : ℕ) (t : Bool) (out : List EndpointModel) (d : List ℕ)
      → is_interface d ≡ false
      → Gains t d out (collect_step number alt (t, out) (byte_at d 1) d)
  unfolding collect_step
  collect_step-Gains number alt t out d plain =
      ground
        (arith, plain, any_of-append_one (λ e. q (core e)) out (endpoint_of d), among-on_last d out)

  pub collect_step-interface :
      (number alt : ℕ) (t : Bool) (out : List EndpointModel) (d : List ℕ)
      → is_interface d ≡ true
      → collect_step number alt (t, out) (byte_at d 1) d
        ≡ (((byte_at d 2 == number) && (byte_at d 3 == alt), out), true)
  unfolding collect_step
  collect_step-interface number alt t out d e = simp e refl

  pub collect_step-plain :
      (number alt : ℕ) (t : Bool) (out : List EndpointModel) (d : List ℕ) (ds : List (List ℕ))
      → is_interface d ≡ false
      → (out' : List EndpointModel) × (visit (collect_step number alt) (t, out) (d ∷ ds)
          ≡ visit (collect_step number alt) (t, out') ds)
        × (among out' ≡ among out || ((t && is_endpoint d) && q (core (endpoint_of d))))
  unfolding visit
  collect_step-plain number alt t out d ds plain =
      let r : (Bool × List EndpointModel) × Bool =
        collect_step number alt (t, out) (byte_at d 1) d in
      let (goes_on, same, gains) = collect_step-Gains number alt t out d plain in
      (
        r.0.1,
        ap (λ b. onward (collect_step number alt) ds (r.0, b)) goes_on
            ∙ ap (λ b. visit (collect_step number alt) (b, r.0.1) ds) same,
        gains,
      )

  -- What is collected stays.
  pub collect_step-among :
      (number alt : ℕ) (ds : List (List ℕ)) (t : Bool) (out : List EndpointModel)
      → among out ≡ true
      → among (visit (collect_step number alt) (t, out) ds).0.1 ≡ true
  unfolding visit
  collect_step-among number alt [] t out h = h
  collect_step-among number alt (d ∷ ds) t out h = elim (Bool-cases (is_interface d)) [
    | inl iface ↦
        rw (collect_step-interface number alt t out d iface)
          (collect_step-among number alt ds ((byte_at d 2 == number) && (byte_at d 3 == alt)) out h)
    | inr plain ↦
        let (out', moved, gains) = collect_step-plain number alt t out d ds plain in
        ap (λ r. among r.0.1) moved
        ∙ collect_step-among number alt ds t out' (ground (arith, gains, h))
  ]

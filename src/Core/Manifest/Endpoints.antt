-- ===== src/Core/Manifest/Endpoints.antt =====
-- `findEndpoint`, one walk, against `endpointsFor`, one walk for each interface.
use airusb_hub.Base.{
  ℕ, ◌≡◌, ◌∙◌, ◌⊎◌, refl, sym, ap, inl, inr, Bool, true, false, ◌&&◌, ◌||◌, Option, none, some,
  List, [], ◌∷◌, arith, leb, ◌==◌, length, Bool-cases,
}
use airusb_hub.Core.Usb.{EndpointModel, desc_interface, desc_endpoint, desc_ss_endpoint_companion}
use airusb_hub.Core.Manifest.{byte_at, endpoint_of, with_companion, collect_step, search_step}
use airusb_hub.Core.Manifest.Walk.{visit}
use airusb_hub.Core.Manifest.Collected.{
  Core, core, is_interface, is_endpoint, onward, among, collect_step-interface, collect_step-plain,
  collect_step-among,
}

module _ (ep_addr : ℕ) (alt_of : ℕ → ℕ) where
  -- The interface descriptor that the walk is below, as its number and setting.
  abbrev Below : Type 0
  Below = Option (ℕ × ℕ)

  abbrev active_in : Below → Bool
  active_in none = false
  active_in (some (i, alt)) = alt == alt_of i

  abbrev target_in : ℕ → Below → Bool
  target_in number none = false
  target_in number (some (i, alt)) = (i == number) && (alt == alt_of number)

  abbrev pub search : Bool × Option EndpointModel → List (List ℕ) → Option EndpointModel
  search s ds = (visit (search_step ep_addr alt_of) s ds).0.1

  abbrev is_hit : Bool → List ℕ → Bool
  is_hit active d = (active && is_endpoint d) && (byte_at d 2 == ep_addr)

  step-interface :
      (active : Bool) (d : List ℕ)
      → is_interface d ≡ true
      → search_step ep_addr alt_of (active, none) (byte_at d 1) d
        ≡ ((byte_at d 3 == alt_of (byte_at d 2), none), true)
  unfolding search_step
  step-interface active d e = simp e refl

  step-hit :
      (active : Bool) (d : List ℕ)
      → is_interface d ≡ false
      → is_hit active d ≡ true
      → search_step ep_addr alt_of (active, none) (byte_at d 1) d
        ≡ ((active, some (endpoint_of d)), true)
  unfolding search_step
  step-hit active d plain hit = ground (arith, plain, hit)

  step-miss :
      (active : Bool) (d : List ℕ)
      → is_interface d ≡ false
      → is_hit active d ≡ false
      → search_step ep_addr alt_of (active, none) (byte_at d 1) d ≡ ((active, none), true)
  unfolding search_step
  step-miss active d plain miss = ground (arith, plain, miss)

  -- Once an endpoint is found it stays, but for what a companion adds.
  abbrev Stays : EndpointModel → Option EndpointModel → Type 0
  Stays ep found = (last : EndpointModel) × (found ≡ some last) × (core last ≡ core ep)

  step-found :
      (active : Bool) (ep : EndpointModel) (d : List ℕ)
      → Stays ep (search_step ep_addr alt_of (active, some ep) (byte_at d 1) d).0.1
  unfolding search_step with_companion
  step-found active ep d = elim (Bool-cases (is_interface d)) [
    | inl iface ↦ simp iface (ep, refl, refl)
    | inr plain ↦
        elim (Bool-cases ((byte_at d 1 == desc_ss_endpoint_companion) && leb 6 (length d))) [
          | inl companion ↦ simp (plain, companion) (with_companion d ep, refl, refl)
          | inr other ↦
              elim (Bool-cases
                ((byte_at d 1 == desc_endpoint) || (byte_at d 1 == desc_interface))) [
                  | inl past ↦ simp (plain, other, past) (ep, refl, refl)
                  | inr more ↦ simp (plain, other, more) (ep, refl, refl)
                ]
        ]
  ]

  onward-Stays :
      (ds : List (List ℕ)) (ep : EndpointModel) (r : (Bool × Option EndpointModel) × Bool)
      → Stays ep r.0.1
      → ((active : Bool) (e : EndpointModel) → Stays e (search (active, some e) ds))
      → Stays ep (onward (search_step ep_addr alt_of) ds r).0.1
  onward-Stays ds ep ((active, found), false) h ih = h
  onward-Stays ds ep ((active, found), true) (last, e, same) ih =
      let (last', e', same') = ih active last in
      (last', ap (λ f. search (active, f) ds) e ∙ e', same' ∙ same)

  found-Stays :
      (ds : List (List ℕ)) (active : Bool) (ep : EndpointModel)
      → Stays ep (search (active, some ep) ds)
  unfolding visit
  found-Stays [] active ep = (ep, refl, refl)
  found-Stays (d ∷ ds) active ep =
      onward-Stays ds ep (search_step ep_addr alt_of (active, some ep) (byte_at d 1) d)
        (step-found active ep d) (found-Stays ds)

  target-active :
      (below : Below) → active_in below ≡ true → (number : ℕ) × (target_in number below ≡ true)
  target-active none h = absurd (cc)
  target-active (some (i, alt)) h = (i, ground (arith, h))

  hit-core :
      (ds : List (List ℕ)) (active : Bool) (d : List ℕ) (ep : EndpointModel)
      → search (active, some (endpoint_of d)) ds ≡ some ep
      → core ep ≡ core (endpoint_of d)
  hit-core ds active d ep e = let (last, found, same) = found-Stays ds active (endpoint_of d) in cc

  -- What is found stands in the collection of an interface that is in its active setting.
  pub search-among :
      (ds : List (List ℕ)) (below : Below) (ep : EndpointModel) (q : Core → Bool)
      → search (active_in below, none) ds ≡ some ep
      → q (core ep) ≡ true
      → (number : ℕ) × ((out : List EndpointModel)
          → among q
              (visit (collect_step number (alt_of number)) (target_in number below, out) ds).0.1
            ≡ true)
  unfolding visit
  search-among [] below ep q e h = absurd (cc)
  search-among (d ∷ ds) below ep q e h = elim (Bool-cases (is_interface d)) [
    | inl iface ↦
        let (number, found) =
          search-among ds (some (byte_at d 2, byte_at d 3)) ep q
            (sym (
                ap (λ r. (onward (search_step ep_addr alt_of) ds r).0.1)
                  (step-interface (active_in below) d iface))
              ∙ e)
            h in
        (
          number,
          λ out.
              rw
                (collect_step-interface q number (alt_of number) (target_in number below) out d
                  iface)
                (found out),
        )
    | inr plain ↦ elim (Bool-cases (is_hit (active_in below) d)) [
      | inl hit ↦
          let (number, on) = target-active below (ground (arith, hit)) in
          let same : core ep ≡ core (endpoint_of d) = hit-core ds (active_in below) d ep (
            sym (
              ap (λ r. (onward (search_step ep_addr alt_of) ds r).0.1)
                (step-hit (active_in below) d plain hit))
            ∙ e) in
          (
            number,
            λ out.
                let (out', moved, gains) =
                  collect_step-plain q number (alt_of number) (target_in number below) out d ds
                    plain in
                let holds : q (core (endpoint_of d)) ≡ true = ap q (sym same) ∙ h in
                ap (λ r. among q r.0.1) moved
                ∙ collect_step-among q number (alt_of number) ds (target_in number below) out'
                    (ground (arith, gains, on, hit, holds)),
          )
      | inr miss ↦
          let (number, found) =
            search-among ds below ep q
              (sym (
                  ap (λ r. (onward (search_step ep_addr alt_of) ds r).0.1)
                    (step-miss (active_in below) d plain miss))
                ∙ e)
              h in
          (
            number,
            λ out.
                let (out', moved, gains) =
                  collect_step-plain q number (alt_of number) (target_in number below) out d ds
                    plain in
                ap (λ r. among q r.0.1) moved ∙ found out',
          )
    ]
  ]

  pub found-address :
      (ds : List (List ℕ)) (active : Bool) (ep : EndpointModel)
      → search (active, none) ds ≡ some ep
      → ep.address ≡ ep_addr
  unfolding visit endpoint_of
  found-address [] active ep e = absurd (cc)
  found-address (d ∷ ds) active ep e = elim (Bool-cases (is_interface d)) [
    | inl iface ↦ found-address ds (byte_at d 3 == alt_of (byte_at d 2)) ep (
        sym
          (ap (λ r. (onward (search_step ep_addr alt_of) ds r).0.1) (step-interface active d iface))
        ∙ e)
    | inr plain ↦ elim (Bool-cases (is_hit active d)) [
      | inl hit ↦
          let same : core ep ≡ core (endpoint_of d) = hit-core ds active d ep (
            sym (
              ap (λ r. (onward (search_step ep_addr alt_of) ds r).0.1)
                (step-hit active d plain hit))
            ∙ e) in
          ap (λ c. c.0) same ∙ ground (arith, hit)
      | inr miss ↦ found-address ds active ep (
          sym (
            ap (λ r. (onward (search_step ep_addr alt_of) ds r).0.1)
              (step-miss active d plain miss))
          ∙ e)
    ]
  ]

  -- The test on the address.
  abbrev pub at_addr : Core → Bool
  at_addr c = c.0 == ep_addr

  target-below :
      (number : ℕ) (below : Below) → target_in number below ≡ true → active_in below ≡ true
  target-below number none h = h
  target-below number (some (i, alt)) h = ground (arith, h)

  not_gained :
      (d : List ℕ) (below : Below) (number : ℕ) (out out' : List EndpointModel)
      → is_hit (active_in below) d ≡ false
      → among at_addr out'
        ≡ among at_addr out
          || ((target_in number below && is_endpoint d) && at_addr (core (endpoint_of d)))
      → among at_addr out' ≡ true
      → among at_addr out ≡ true
  unfolding endpoint_of
  not_gained d below number out out' miss gains before =
      elim (Bool-cases (target_in number below)) [
        | inl on ↦ ground (arith, miss, gains, before, on, target-below number below on)
        | inr off ↦ ground (arith, gains, before, off)
      ]

  -- What is collected is found.
  pub among-search :
      (ds : List (List ℕ)) (below : Below) (number : ℕ) (out : List EndpointModel)
      → among at_addr
          (visit (collect_step number (alt_of number)) (target_in number below, out) ds).0.1
        ≡ true
      → (among at_addr out ≡ true)
        ⊎ ((ep : EndpointModel) × (search (active_in below, none) ds ≡ some ep))
  unfolding visit
  among-search [] below number out h = inl h
  among-search (d ∷ ds) below number out h = elim (Bool-cases (is_interface d)) [
    | inl iface ↦
        let moved =
          collect_step-interface at_addr number (alt_of number) (target_in number below) out d
            iface in
        elim (among-search ds (some (byte_at d 2, byte_at d 3)) number out (
          sym
            (ap (λ r. among at_addr (onward (collect_step number (alt_of number)) ds r).0.1) moved)
          ∙ h)) [
            | inl before ↦ inl before
            | inr (ep, found) ↦ inr (
              ep,
              ap (λ r. (onward (search_step ep_addr alt_of) ds r).0.1)
                    (step-interface (active_in below) d iface)
                  ∙ found,
            )
          ]
    | inr plain ↦ elim (Bool-cases (is_hit (active_in below) d)) [
      | inl hit ↦
          let (last, found, same) = found-Stays ds (active_in below) (endpoint_of d) in
          inr (
            last,
            ap (λ r. (onward (search_step ep_addr alt_of) ds r).0.1)
                  (step-hit (active_in below) d plain hit)
                ∙ found,
          )
      | inr miss ↦
          let (out', moved, gains) =
            collect_step-plain at_addr number (alt_of number) (target_in number below) out d ds
              plain in
          elim (among-search ds below number out' (sym (ap (λ r. among at_addr r.0.1) moved) ∙ h)) [
            | inl before ↦ inl (not_gained d below number out out' miss gains before)
            | inr (ep, found) ↦ inr (
              ep,
              ap (λ r. (onward (search_step ep_addr alt_of) ds r).0.1)
                    (step-miss (active_in below) d plain miss)
                  ∙ found,
            )
          ]
    ]
  ]

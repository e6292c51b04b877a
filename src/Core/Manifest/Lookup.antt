-- ===== src/Core/Manifest/Lookup.antt =====
-- One walk finds what the walks over all the interfaces would.
use airusb_hub.Base.{
  ℕ, ◌≡◌, ◌∙◌, ◌↔◌, sym, ap, inl, inr, Bool, true, false, ◌&&◌, none, some, List, [], arith, ◌==◌,
  any_of,
}
use airusb_hub.Core.Usb.{XferType, control, isochronous, bulk, interrupt, EndpointModel}
use airusb_hub.Core.Manifest.{
  DeviceManifest, collect_step, endpoints_for, search_step, find_endpoint, configuration_by_value,
}
use airusb_hub.Core.Manifest.Walk.{visit, descriptors, for_each_descriptor-visit}
use airusb_hub.Core.Manifest.Collected.{Core, core, among}
use airusb_hub.Core.Manifest.Endpoints.{search, at_addr, search-among, among-search, found-address}

abbrev pub kind_index : XferType → ℕ
kind_index control = 0
kind_index isochronous = 1
kind_index bulk = 2
kind_index interrupt = 3

-- The same descriptor: address, type, packet size and interval.
abbrev pub same_core : Core → Core → Bool
same_core (a, k, size, every) (a', k', size', every') =
    (a == a') && ((kind_index k == kind_index k') && ((size == size') && (every == every')))

same_core_refl : (c : Core) → same_core c c ≡ true
same_core_refl c = ground arith

module _ (m : DeviceManifest) (config_value ep_addr : ℕ) (alt_of : ℕ → ℕ) where
  abbrev parts : List (List ℕ)
  parts = (descriptors (configuration_by_value config_value m)).0

  find_endpoint-search :
      find_endpoint config_value ep_addr alt_of m ≡ search ep_addr alt_of (false, none) parts
  unfolding find_endpoint
  find_endpoint-search =
      ap (λ r. r.0.1)
        (for_each_descriptor-visit (search_step ep_addr alt_of) (false, none)
          (configuration_by_value config_value m))

  endpoints_for-visit :
      (number alt : ℕ)
      → endpoints_for config_value number alt m
        ≡ (visit (collect_step number alt) (false, []) parts).0.1
  unfolding endpoints_for
  endpoints_for-visit number alt =
      ap (λ r. r.0.1)
        (for_each_descriptor-visit (collect_step number alt) (false, [])
          (configuration_by_value config_value m))

  -- Whatever bytes the configuration holds, an endpoint is found exactly where some interface
  -- number lists one with its address in the setting that `alt_of` gives for it.
  pub find_endpoint_iff :
      ((ep : EndpointModel) × (find_endpoint config_value ep_addr alt_of m ≡ some ep)) ↔ (
        (number : ℕ) × (any_of
            (λ e. e.address == ep_addr)
            (endpoints_for config_value number (alt_of number) m)
          ≡ true))
  find_endpoint_iff = (
    λ (ep, e).
        let found = sym find_endpoint-search ∙ e in
        let here : at_addr ep_addr alt_of (core ep) ≡ true =
          ground (arith, found-address ep_addr alt_of parts false ep found) in
        let (number, listed) =
          search-among ep_addr alt_of parts none ep (at_addr ep_addr alt_of) found here in
        (
          number,
          ap (λ l. any_of (λ e. e.address == ep_addr) l)
                (endpoints_for-visit number (alt_of number))
              ∙ listed [],
        ),
    λ (number, listed).
        let all = endpoints_for-visit number (alt_of number) in
        elim (among-search ep_addr alt_of parts none number []
          (sym (ap (λ l. any_of (λ e. e.address == ep_addr) l) all) ∙ listed)) [
            | inl before ↦ absurd (cc)
            | inr (ep, found) ↦ (ep, find_endpoint-search ∙ found)
          ],
  )

  -- The endpoint that is found has the address that was asked for, and its type, packet size and
  -- interval are those of an endpoint that some interface lists in its active setting.
  find_endpoint-listed :
      (ep : EndpointModel)
      → find_endpoint config_value ep_addr alt_of m ≡ some ep
      → (ep.address ≡ ep_addr)
        × ((number : ℕ) × (any_of
                (λ e. same_core (core ep) (core e))
                (endpoints_for config_value number (alt_of number) m)
              ≡ true))
  find_endpoint-listed ep e =
      let found = sym find_endpoint-search ∙ e in
      let q : Core → Bool = same_core (core ep) in
      let (number, listed) =
        search-among ep_addr alt_of parts none ep q found (same_core_refl (core ep)) in
      (
        found-address ep_addr alt_of parts false ep found,
        (number, ap (λ l. among q l) (endpoints_for-visit number (alt_of number)) ∙ listed []),
      )

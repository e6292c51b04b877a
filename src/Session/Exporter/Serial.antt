-- ===== src/Session/Exporter/Serial.antt =====
-- One transfer on an endpoint, and a control transfer alone: what the device is given, in tables.
pub mod Steps
pub mod Ends
pub mod Rounds
use airusb_hub.Base.{
  ℕ, ◌≡◌, ◌≢◌, refl, sym, ap, subst, ◌⊎◌, ◌∙◌, inl, inr, Bool, true, false, Option, none, some,
  List, [], ◌∷◌, arith, ◌==◌, if◌then◌else◌, length, lookup, put, erase, IsAscending, lookup-put,
  lookup-erase, lookup-erase_self, put-IsAscending, erase-IsAscending, Bool-cases,
}
use airusb_hub.Session.Exporter.{Pending, InFlight, Plane, is_ep0, flight_of}
use airusb_hub.Session.Exporter.Queue.{no_ep0, is_free_endpoint, may_admit, taken}
use airusb_hub.Session.Exporter.Outcomes.{free_slot}

-- Every transfer in flight holds its endpoint's slot, so no endpoint has two; and a control
-- transfer has no other beside it.
pub record IsHeld (in_flight : List (ℕ × InFlight)) (busy : List (ℕ × ℕ)) : Type 0 where
  pub ascending : IsAscending in_flight
  pub held :
      (token : ℕ) (f : InFlight)
      → lookup token in_flight ≡ some f
      → lookup f.ep_addr busy ≡ some token
  pub alone :
      (token other : ℕ) (f g : InFlight)
      → lookup token in_flight ≡ some f
      → lookup other in_flight ≡ some g
      → is_ep0 f.ep_addr ≡ true
      → token ≡ other

some-ne-none : {A : Type 0} {a : A} → ¬ (some a ≡ none)
some-ne-none e = ground arith

pub nothing-IsHeld : IsHeld [] []
unfolding lookup
nothing-IsHeld = record {
  ascending = tt;
  held = λ token f e. absurd (ground arith);
  alone = λ token other f g e k z. absurd (ground arith);
}

lookup-free_slot :
    (token ep at : ℕ) (busy : List (ℕ × ℕ))
    → lookup ep busy ≡ some at
    → at ≢ token
    → lookup ep (free_slot token busy) ≡ some at
unfolding lookup free_slot
lookup-free_slot token ep at [] e h = e
lookup-free_slot token ep at ((x, y) ∷ more) e h = elim (Bool-cases (x == ep)) [
  | inl same ↦ ground arith
  | inr other ↦
      let behind : lookup ep more ≡ some at = ground arith in
      ground (arith, lookup-free_slot token ep at more behind h)
]

-- What is found once a key is erased was under another key.
found-erase :
    {V : Type 0} (key asked : ℕ) (found : V) (m : List (ℕ × V))
    → IsAscending m
    → lookup asked (erase key m) ≡ some found
    → (asked ≢ key) × (lookup asked m ≡ some found)
found-erase key asked found m up e =
    let other : asked ≢ key = λ same. some-ne-none (
      sym e ∙ subst (λ k. lookup k (erase key m) ≡ none) (sym same) (lookup-erase_self key m up)) in
    (other, sym (lookup-erase key asked m other) ∙ e)

-- What is found once a key is written is what was written, or was under another key.
found-put :
    {V : Type 0} (key asked : ℕ) (new found : V) (m : List (ℕ × V))
    → lookup asked (put key new m) ≡ some found
    → ((asked ≡ key) × (found ≡ new)) ⊎ ((asked ≢ key) × (lookup asked m ≡ some found))
found-put key asked new found m e =
    let branch : (if key == asked then some new else lookup asked m) ≡ some found =
      sym (lookup-put key asked new m) ∙ e in
    ground arith

-- A token that no transfer has gives back no transfer's slot.
pub free_slot-IsHeld :
    (token : ℕ) (m : List (ℕ × InFlight)) (busy : List (ℕ × ℕ))
    → lookup token m ≡ none
    → IsHeld m busy
    → IsHeld m (free_slot token busy)
free_slot-IsHeld token m busy gone v = record {
  ascending = v.ascending;
  held = λ at f e.
      lookup-free_slot token f.ep_addr at busy (v.held at f e)
        (λ same. some-ne-none (sym e ∙ subst (λ k. lookup k m ≡ none) (sym same) gone));
  alone = v.alone;
}

-- A transfer that leaves takes nothing from those that stay, whether its slot is given back or not.
pub erase-IsHeld :
    (token : ℕ) (m : List (ℕ × InFlight)) (busy : List (ℕ × ℕ))
    → IsHeld m busy
    → IsHeld (erase token m) busy × IsHeld (erase token m) (free_slot token busy)
erase-IsHeld token m busy v =
    let up = erase-IsAscending token m v.ascending in
    let found : (at : ℕ) (f : InFlight)
        → lookup at (erase token m) ≡ some f
        → (at ≢ token) × (lookup at m ≡ some f) =
      λ at f. found-erase token at f m v.ascending in
    let alone : (at other : ℕ) (f g : InFlight)
        → lookup at (erase token m) ≡ some f
        → lookup other (erase token m) ≡ some g
        → is_ep0 f.ep_addr ≡ true
        → at ≡ other =
      λ at other f g e k. v.alone at other f g (found at f e).1 (found other g k).1 in
    (
      record { ascending = up; held = λ at f e. v.held at f (found at f e).1; alone = alone },
      record {
        ascending = up;
        held = λ at f e.
            lookup-free_slot token f.ep_addr at busy (v.held at f (found at f e).1)
              (found at f e).0;
        alone = alone;
      },
    )

-- The transfer of a token that has one may be changed, but for its endpoint.
pub requested-IsHeld :
    (token : ℕ) (f new : InFlight) (m : List (ℕ × InFlight)) (busy : List (ℕ × ℕ))
    → lookup token m ≡ some f
    → new.ep_addr ≡ f.ep_addr
    → IsHeld m busy
    → IsHeld (put token new m) busy
requested-IsHeld token f new m busy here same v =
    let before : (at : ℕ) (g : InFlight)
        → lookup at (put token new m) ≡ some g
        → (old : InFlight) × (lookup at m ≡ some old) × (g.ep_addr ≡ old.ep_addr) =
      λ at g e. elim (found-put token at new g m e) [
        | inl (at_token, is_new) ↦ (f, rw at_token here, rw is_new same)
        | inr (other, found) ↦ (g, found, refl)
      ] in
    record {
      ascending = put-IsAscending token new m v.ascending;
      held = λ at g e. let (old, found, ep) = before at g e in rw ep (v.held at old found);
      alone = λ at other g k eg ek zero.
          let (old_g, found_g, ep) = before at g eg in
          let (old_k, found_k, ep_k) = before other k ek in
          v.alone at other old_g old_k found_g found_k (rw (sym ep) zero);
    }

taken-not-free : (at : ℕ) (o : Option ℕ) → is_free_endpoint o ≡ true → o ≡ some at → ⊥
unfolding is_free_endpoint
taken-not-free at o h e = ground arith

-- No control transfer is in flight where the test of `mayAdmit` says so.
no_ep0-lookup :
    (m : List (ℕ × InFlight)) (at : ℕ) (f : InFlight)
    → no_ep0 m ≡ true
    → lookup at m ≡ some f
    → is_ep0 f.ep_addr ≡ false
unfolding no_ep0 lookup
no_ep0-lookup [] at f h e = absurd (ground arith)
no_ep0-lookup ((token, g) ∷ more) at f h e = elim (Bool-cases (is_ep0 g.ep_addr)) [
  | inl zero ↦ absurd (ground arith)
  | inr points ↦
      let behind : no_ep0 more ≡ true = ground arith in
      elim (Bool-cases (token == at)) [
        | inl same ↦ let found : g ≡ f = ground arith in rw (sym found) points
        | inr other ↦ no_ep0-lookup more at f behind (ground arith)
      ]
]

empty-lookup :
    (m : List (ℕ × InFlight)) (at : ℕ) (f : InFlight)
    → (length m == 0) ≡ true
    → lookup at m ≡ some f
    → ⊥
unfolding lookup
empty-lookup [] at f h e = ground arith
empty-lookup (entry ∷ more) at f h e = ground arith

-- What may be admitted shares its endpoint with nothing in flight, and neither is a control
-- transfer.
may_admit-vacant :
    (ep : ℕ) (d : Plane) (at : ℕ) (g : InFlight)
    → may_admit ep d ≡ true
    → IsHeld d.in_flight d.busy_endpoint
    → lookup at d.in_flight ≡ some g
    → (g.ep_addr ≢ ep) × (is_ep0 ep ≡ false) × (is_ep0 g.ep_addr ≡ false)
unfolding may_admit
may_admit-vacant ep d at g h v e = elim (Bool-cases (is_ep0 ep)) [
  | inl zero ↦ absurd (empty-lookup d.in_flight at g (ground arith) e)
  | inr points ↦
      let no_control : no_ep0 d.in_flight ≡ true = ground arith in
      let is_free : is_free_endpoint (lookup ep d.busy_endpoint) ≡ true = ground arith in
      (
        λ same.
            taken-not-free at (lookup ep d.busy_endpoint) is_free
              (subst (λ k. lookup k d.busy_endpoint ≡ some at) same (v.held at g e)),
        points,
        no_ep0-lookup d.in_flight at g no_control e,
      )
]

slot-same :
    (ep asked token : ℕ) (busy : List (ℕ × ℕ))
    → asked ≡ ep
    → lookup asked (put ep token busy) ≡ some token
slot-same ep asked token busy e = rw (lookup-put ep asked token busy) (ground arith)

slot-other :
    (ep asked token : ℕ) (busy : List (ℕ × ℕ))
    → asked ≢ ep
    → lookup asked (put ep token busy) ≡ lookup asked busy
slot-other ep asked token busy e = rw (lookup-put ep asked token busy) (ground arith)

false-ne-true : ¬ (false ≡ true)
false-ne-true e = ground arith

-- A transfer that may be admitted on its own endpoint is taken, and leaves one transfer on every
-- endpoint and control transfers alone.
pub taken-IsHeld :
    (ep token : ℕ) (p : Pending) (d : Plane)
    → may_admit ep d ≡ true
    → p.sb.ep_addr ≡ ep
    → IsHeld d.in_flight d.busy_endpoint
    → IsHeld (taken ep token p d).in_flight (taken ep token p d).busy_endpoint
unfolding taken flight_of
taken-IsHeld ep token p d may own v =
    let new : InFlight = record (flight_of p) { deadline = p.deadline } in
    let vacant : (at : ℕ) (g : InFlight)
        → lookup at d.in_flight ≡ some g
        → (g.ep_addr ≢ ep) × (is_ep0 ep ≡ false) × (is_ep0 g.ep_addr ≡ false) =
      λ at g e. may_admit-vacant ep d at g may v e in
    record {
      ascending = put-IsAscending token new d.in_flight v.ascending;
      held = λ at g e. elim (found-put token at new g d.in_flight e) [
        | inl (at_token, is_new) ↦
            let own_slot : g.ep_addr ≡ ep = ap (λ f. f.ep_addr) is_new ∙ own in
            slot-same ep g.ep_addr token d.busy_endpoint own_slot ∙ ap some (sym at_token)
        | inr (other, found) ↦
            slot-other ep g.ep_addr token d.busy_endpoint (vacant at g found).0 ∙ v.held at g found
      ];
      alone = λ at other g k eg ek zero. elim (found-put token at new g d.in_flight eg) [
        | inl (at_token, is_new) ↦ elim (found-put token other new k d.in_flight ek) [
          | inl (other_token, _) ↦ rw (at_token, other_token) refl
          | inr (apart, found) ↦
              let own_slot : g.ep_addr ≡ ep = ap (λ f. f.ep_addr) is_new ∙ own in
              let points : is_ep0 g.ep_addr ≡ false = rw own_slot (vacant other k found).1 in
              absurd (false-ne-true (sym points ∙ zero))
        ]
        | inr (apart, found) ↦ elim (found-put token other new k d.in_flight ek) [
          | inl (other_token, _) ↦ absurd (false-ne-true (sym (vacant at g found).2 ∙ zero))
          | inr (_, found_k) ↦ v.alone at other g k found found_k zero
        ]
      ];
    }

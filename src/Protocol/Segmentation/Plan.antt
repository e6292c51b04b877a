-- ===== src/Protocol/Segmentation/Plan.antt =====
-- A plan cuts the transfer without gap or overlap.
use airusb_hub.Base.{
  ℕ, zero, suc, ◌+◌, ◌≤◌, ◌<◌, ◌≡◌, ◌≢◌, ◌⊎◌, inl, inr, refl, subst, false, List, [], ◌∷◌, arith,
  ltb, ◌==◌,
}
use airusb_hub.Protocol.Segmentation.{SegmentPlan, segment_at, plan_loop, plan_segments}

-- The segments run from `at` to the end: each begins where the one before it ended, holds at most
-- `cap` bytes and, unless it is the only one of an empty transfer, at least one; `first` marks
-- offset 0, and `more` what does not reach the end.
abbrev pub Cuts : ℕ → ℕ → ℕ → List SegmentPlan → Type 0
Cuts total cap at [] = at ≡ total
Cuts total cap at (p ∷ ps) =
    (p.offset ≡ at)
    × (p.len ≤ cap)
    × ((0 < p.len) ⊎ ((total ≡ 0) × (ps ≡ [])))
    × (p.first ≡ (at == 0))
    × (p.more ≡ ltb (at + p.len) total)
    × Cuts total cap (at + p.len) ps

plan_loop-Cuts :
    (fuel at total cap : ℕ)
    → 0 < cap
    → at ≤ total
    → total ≤ at + fuel
    → Cuts total cap at (plan_loop fuel at total cap)
unfolding plan_loop
plan_loop-Cuts zero at total cap hc h hf = omega arith
plan_loop-Cuts (suc fuel) at total cap hc h hf =
    ground (arith, plan_loop-Cuts fuel (at + (segment_at at total cap).len) total cap)

-- For every size and every positive cap the plan cuts the whole transfer into segments, each at
-- most the cap, none empty unless it is the only one, without gap or overlap, with `first` at
-- offset 0 and `more` before the end; and it has a segment, also where the transfer is empty.
pub plan_segments-Cuts :
    (total cap : ℕ)
    → 0 < cap
    → Cuts total cap 0 (plan_segments total cap) × (plan_segments total cap ≢ [])
unfolding plan_segments plan_loop
plan_segments-Cuts zero cap h = (ground arith, ground arith)
plan_segments-Cuts (suc n) cap h =
    (ground (arith, plan_loop-Cuts (suc n) 0 (suc n) cap), ground arith)

pub Cuts-le : (total cap at : ℕ) (ps : List SegmentPlan) → Cuts total cap at ps → at ≤ total
Cuts-le total cap at [] c = omega arith
Cuts-le total cap at (p ∷ ps) c = omega (arith, Cuts-le total cap (at + p.len) ps (c.5))

-- Nothing follows a segment that reaches the end.
pub Cuts-end :
    (total cap : ℕ) (ps : List SegmentPlan) → 0 < total → Cuts total cap total ps → ps ≡ []
Cuts-end total cap [] h c = refl
Cuts-end total cap (p ∷ ps) h c = absurd (ground (arith, Cuts-le total cap (total + p.len) ps))

pub Cuts-last :
    (total cap at : ℕ) (p : SegmentPlan) (ps : List SegmentPlan)
    → Cuts total cap at (p ∷ ps)
    → p.more ≡ false
    → ps ≡ []
Cuts-last total cap at p ps (off, cap_le, inr (empty, alone), first, last, tail) over = alone
Cuts-last total cap at p ps (off, cap_le, inl pos, first, last, tail) over =
    let fits = Cuts-le total cap (at + p.len) ps tail in
    let end : at + p.len ≡ total = ground arith in
    Cuts-end total cap ps (omega arith) (subst (λ k. Cuts total cap k ps) end tail)

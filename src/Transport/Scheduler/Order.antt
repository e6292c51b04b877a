-- ===== src/Transport/Scheduler/Order.antt =====
-- What a dequeue takes, and from where.
use airusb_hub.Base.{
  ℕ, zero, suc, ◌+◌, ◌-◌, ◌%◌, ◌^◌, ◌≡◌, ◌↔◌, ◌⊎◌, inl, inr, refl, sym, ap, ◌∙◌, true, false,
  Option, none, some, List, [], ◌∷◌, arith, length, Bool-cases, ℤ, pos, add_nat, is_positive,
}
use airusb_hub.Transport.Scheduler.{
  Priority, ctrl, rt, high, bulk_data, Frame, FrameScheduler, queue, set_queue, class_at, turn,
  turns, dequeue, grant_round, send_from, deficit, set_deficit, serve, or_else, grant_to,
  dequeue_from, empty,
}

-- The two schedulers hold the same frames in the same order.
pub record IsSame (s t : FrameScheduler) : Type 0 where
  pub ctrl_same : s.q_ctrl ≡ t.q_ctrl
  pub rt_same : s.q_rt ≡ t.q_rt
  pub high_same : s.q_high ≡ t.q_high
  pub bulk_same : s.q_bulk ≡ t.q_bulk

-- `f` was the first frame of a class, and the rest of its queue and all other queues stand in `t`
-- as they were in `s`; its bytes went off the total.
pub record Sent (s t : FrameScheduler) (f : Frame) : Type 0 where
  pub from : Priority
  pub rest : List Frame
  pub taken : queue from s ≡ f ∷ rest
  pub others : IsSame t (set_queue from rest s)
  pub counted : t.total_bytes ≡ (s.total_bytes + 2 ^ 64 - length f.bytes) % 2 ^ 64

abbrev pub Outcome : FrameScheduler → FrameScheduler → Option Frame → Type 0
Outcome s t none = IsSame t s × (t.total_bytes ≡ s.total_bytes)
Outcome s t (some f) = Sent s t f

send_lem :
    (p : Priority) (f : Frame) (rest : List Frame) (s : FrameScheduler)
    → queue p s ≡ f ∷ rest
    → Sent s (send_from p f rest s) f
send_lem ctrl f rest s e = record {
  from = ctrl;
  rest = rest;
  taken = e;
  others = record { ctrl_same = refl; rt_same = refl; high_same = refl; bulk_same = refl };
  counted = refl;
}
send_lem rt f rest s e = record {
  from = rt;
  rest = rest;
  taken = e;
  others = record { ctrl_same = refl; rt_same = refl; high_same = refl; bulk_same = refl };
  counted = refl;
}
send_lem high f rest s e = record {
  from = high;
  rest = rest;
  taken = e;
  others = record { ctrl_same = refl; rt_same = refl; high_same = refl; bulk_same = refl };
  counted = refl;
}
send_lem bulk_data f rest s e = record {
  from = bulk_data;
  rest = rest;
  taken = e;
  others = record { ctrl_same = refl; rt_same = refl; high_same = refl; bulk_same = refl };
  counted = refl;
}

credit_same : (p : Priority) (d : ℤ) (s : FrameScheduler) → Outcome s (set_deficit p d s) none
credit_same ctrl d s = ground arith
credit_same rt d s = ground arith
credit_same high d s = ground arith
credit_same bulk_data d s = ground arith

serve-Outcome :
    (p : Priority) (s : FrameScheduler) (q : List Frame)
    → queue p s ≡ q
    → Outcome s (serve p s q).0 (serve p s q).1
unfolding serve
serve-Outcome p s [] e = credit_same p (pos 0) s
serve-Outcome p s (f ∷ rest) e = elim (Bool-cases (is_positive (deficit p s))) [
  | inl has ↦ rw has (send_lem p f rest s e)
  | inr out ↦ rw out (credit_same p (add_nat (deficit p s) s.quantum) s)
]

queue-same : (p : Priority) (s t : FrameScheduler) → IsSame t s → queue p t ≡ queue p s
queue-same ctrl s t e = e.ctrl_same
queue-same rt s t e = e.rt_same
queue-same high s t e = e.high_same
queue-same bulk_data s t e = e.bulk_same

others-IsSame :
    (p : Priority) (rest : List Frame) (s t u : FrameScheduler)
    → IsSame t s
    → IsSame u (set_queue p rest t)
    → IsSame u (set_queue p rest s)
others-IsSame ctrl rest s t u e o = ground arith
others-IsSame rt rest s t u e o = ground arith
others-IsSame high rest s t u e o = ground arith
others-IsSame bulk_data rest s t u e o = ground arith

-- What happens once only deficits have moved.
Outcome-after :
    (s t u : FrameScheduler) (o : Option Frame) → Outcome s t none → Outcome t u o → Outcome s u o
Outcome-after s t u none same v = ground arith
Outcome-after s t u (some f) same v = record {
  from = v.from;
  rest = v.rest;
  taken = sym (queue-same v.from s t same.0) ∙ v.taken;
  others = others-IsSame v.from v.rest s t u same.0 v.others;
  counted = v.counted ∙ ap (λ (n : ℕ). (n + 2 ^ 64 - length f.bytes) % 2 ^ 64) same.1;
}

or_else-Outcome :
    (s : FrameScheduler) (r : FrameScheduler × Option Frame)
    (next : FrameScheduler → FrameScheduler × Option Frame)
    → Outcome s r.0 r.1
    → ((t : FrameScheduler) → Outcome t (next t).0 (next t).1)
    → Outcome s (or_else r next).0 (or_else r next).1
unfolding or_else
or_else-Outcome s (t, some f) next now later = now
or_else-Outcome s (t, none) next now later = Outcome-after s t (next t).0 (next t).1 now (later t)

turns-Outcome :
    (left attempt : ℕ) (s : FrameScheduler)
    → Outcome s (turns left attempt s).0 (turns left attempt s).1
unfolding turns turn
turns-Outcome zero attempt s = ground arith
turns-Outcome (suc left) attempt s =
    let p : Priority = class_at (1 + (s.rr_cursor - 1 + attempt) % 3) in
    or_else-Outcome s (turn p s) (turns left (attempt + 1)) (serve-Outcome p s (queue p s) refl)
      (turns-Outcome left (attempt + 1))

grant_to-Outcome :
    (p : Priority) (s : FrameScheduler) (q : List Frame) (o : FrameScheduler × Option Frame)
    → queue p s ≡ q
    → Outcome s o.0 o.1
    → Outcome s (grant_to p s q o).0 (grant_to p s q o).1
unfolding grant_to
grant_to-Outcome p s [] o e h = h
grant_to-Outcome p s (f ∷ rest) o e h =
    let credited = set_deficit p (add_nat (deficit p s) s.quantum) s in
    let credit = credit_same p (add_nat (deficit p s) s.quantum) s in
    Outcome-after s credited (send_from p f rest credited) (some f) credit
      (send_lem p f rest credited (queue-same p s credited credit.0 ∙ e))

grant_round-Outcome : (s : FrameScheduler) → Outcome s (grant_round s).0 (grant_round s).1
unfolding grant_round
grant_round-Outcome s =
    let bulk_last = grant_to-Outcome bulk_data s s.q_bulk (s, none) refl (ground arith) in
    let high_next = grant_to-Outcome high s s.q_high _ refl bulk_last in
    grant_to-Outcome rt s s.q_rt _ refl high_next

-- The frame came from the control class.
abbrev pub FromCtrl : FrameScheduler → FrameScheduler → Option Frame → Type 0
FromCtrl s t none = ⊥
FromCtrl s t (some f) = (v : Sent s t f) × (v.from ≡ ctrl)

dequeue_from-Outcome :
    (q : List Frame) (s : FrameScheduler)
    → s.q_ctrl ≡ q
    → Outcome s (dequeue_from q s).0 (dequeue_from q s).1
      × ((q ≡ []) ⊎ FromCtrl s (dequeue_from q s).0 (dequeue_from q s).1)
unfolding dequeue_from
dequeue_from-Outcome [] s e = (
  or_else-Outcome s (turns 6 0 s) grant_round (turns-Outcome 6 0 s) grant_round-Outcome,
  inl refl,
)
dequeue_from-Outcome (f ∷ rest) s e =
    let v : Sent s (dequeue_from (f ∷ rest) s).0 f = record {
      from = ctrl;
      rest = rest;
      taken = e;
      others = record { ctrl_same = refl; rt_same = refl; high_same = refl; bulk_same = refl };
      counted = refl;
    } in
    (v, inr (v, refl))

-- A dequeue answers none and leaves the queues and the total as they are, or it sends the first
-- frame of one class, leaves all other frames in their order, and takes its bytes off the total;
-- and unless the control class is empty, the frame is the first of that class.
pub dequeue-Outcome :
    (s : FrameScheduler)
    → Outcome s (dequeue s).0 (dequeue s).1
      × ((s.q_ctrl ≡ []) ⊎ FromCtrl s (dequeue s).0 (dequeue s).1)
unfolding dequeue
dequeue-Outcome s = dequeue_from-Outcome s.q_ctrl s refl

grant_to-none :
    (p : Priority) (s : FrameScheduler) (q : List Frame) (o : FrameScheduler × Option Frame)
    → (grant_to p s q o).1 ≡ none
    → (q ≡ []) × (o.1 ≡ none)
unfolding grant_to
grant_to-none p s [] o e = (refl, e)
grant_to-none p s (f ∷ rest) o e = absurd cc

grant_round-none :
    (s : FrameScheduler)
    → (grant_round s).1 ≡ none
    → (s.q_rt ≡ []) × (s.q_high ≡ []) × (s.q_bulk ≡ [])
unfolding grant_round
grant_round-none s e =
    let (no_rt, high_next) = grant_to-none rt s s.q_rt _ e in
    let (no_high, bulk_last) = grant_to-none high s s.q_high _ high_next in
    (no_rt, no_high, (grant_to-none bulk_data s s.q_bulk (s, none) bulk_last).0)

or_else-none :
    (s : FrameScheduler) (r : FrameScheduler × Option Frame)
    → Outcome s r.0 r.1
    → (or_else r grant_round).1 ≡ none
    → (s.q_rt ≡ []) × (s.q_high ≡ []) × (s.q_bulk ≡ [])
unfolding or_else
or_else-none s (t, some f) h e = absurd cc
or_else-none s (t, none) h e =
    let (no_rt, no_high, no_bulk) = grant_round-none t e in
    (sym h.0.rt_same ∙ no_rt, sym h.0.high_same ∙ no_high, sym h.0.bulk_same ∙ no_bulk)

dequeue_from-none :
    (q : List Frame) (s : FrameScheduler)
    → s.q_ctrl ≡ q
    → (dequeue_from q s).1 ≡ none
    → empty s ≡ true
unfolding dequeue_from empty
dequeue_from-none (f ∷ rest) s e h = absurd cc
dequeue_from-none [] s e h = ground (arith, or_else-none s (turns 6 0 s) (turns-Outcome 6 0 s) h)

ready-ne-empty :
    (p : Priority) (s : FrameScheduler) (f : Frame) (rest : List Frame)
    → queue p s ≡ f ∷ rest
    → empty s ≡ false
unfolding empty
ready-ne-empty ctrl s f rest e = ground arith
ready-ne-empty rt s f rest e = ground arith
ready-ne-empty high s f rest e = ground arith
ready-ne-empty bulk_data s f rest e = ground arith

Outcome-empty :
    (s t : FrameScheduler) (o : Option Frame) → Outcome s t o → empty s ≡ true → o ≡ none
Outcome-empty s t none h e = refl
Outcome-empty s t (some f) v e = absurd (ground (arith, ready-ne-empty v.from s f v.rest v.taken))

-- The scheduler never stalls: a dequeue answers none exactly where no class has a frame.
pub dequeue_none_iff : (s : FrameScheduler) → ((dequeue s).1 ≡ none) ↔ (empty s ≡ true)
unfolding dequeue
dequeue_none_iff s = (
  dequeue_from-none s.q_ctrl s refl,
  Outcome-empty s (dequeue s).0 (dequeue s).1 (dequeue-Outcome s).0,
)

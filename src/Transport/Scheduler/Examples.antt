-- ===== src/Transport/Scheduler/Examples.antt =====
-- The theorems of the frame scheduler at concrete inputs.
use airusb_hub.Base.{◌≡◌, ◌↔◌, ◌⊎◌, refl, true, false, none, some, List, [], ◌∷◌, arith}
use airusb_hub.Transport.Scheduler.{
  Frame, FrameScheduler, ctrl, bulk_data, high, init, enqueue, dequeue, empty,
}
use airusb_hub.Transport.Scheduler.Order.{Outcome, FromCtrl, dequeue-Outcome, dequeue_none_iff}
use airusb_hub.Transport.Scheduler.Bytes.{
  step, offered, IsCounted, Event, enqueues, dequeues, drops, run, run-IsCounted,
}

abbrev large : Frame
large = record {
  bytes = 1 ∷ 2 ∷ 3 ∷ 4 ∷ 5 ∷ [];
  priority = bulk_data;
  channel = 0x182;
  expedite = false;
}

abbrev key_press : Frame
key_press = record { bytes = 7 ∷ []; priority = high; channel = 0x181; expedite = false }

abbrev ping : Frame
ping = record { bytes = 9 ∷ 9 ∷ []; priority = ctrl; channel = 0; expedite = false }

-- A bulk frame, a key press and a ping, queued in that order.
abbrev three_queued : FrameScheduler
three_queued = record (init 4) {
  q_ctrl = ping ∷ [];
  q_high = key_press ∷ [];
  q_bulk = large ∷ [];
  total_bytes = 8;
}

queued_in_order :
    run (enqueues large ∷ enqueues key_press ∷ enqueues ping ∷ []) (init 4) ≡ three_queued
unfolding run init enqueue step
queued_in_order = refl

-- The ping goes first, then the key press, and the bulk frame last.
sent_in_order :
    let a = dequeue three_queued in
    let b = dequeue a.0 in
    let c = dequeue b.0 in
    (a.1 ≡ some ping) × (b.1 ≡ some key_press) × (c.1 ≡ some large) × (empty c.0 ≡ true)
unfolding dequeue init empty
sent_in_order = (refl, refl, refl, refl)

dequeue-Outcome_example :
    Outcome three_queued (dequeue three_queued).0 (dequeue three_queued).1
    × ((three_queued.q_ctrl ≡ [])
        ⊎ FromCtrl three_queued (dequeue three_queued).0 (dequeue three_queued).1)
dequeue-Outcome_example = dequeue-Outcome three_queued

dequeue_none_iff_example : ((dequeue three_queued).1 ≡ none) ↔ (empty three_queued ≡ true)
dequeue_none_iff_example = dequeue_none_iff three_queued

abbrev history : List Event
history = enqueues large ∷ enqueues ping ∷ dequeues ∷ drops 0x182 ∷ enqueues key_press ∷ []

run-IsCounted_example : IsCounted (run history (init 4))
unfolding offered
run-IsCounted_example = run-IsCounted 4 history (omega arith)

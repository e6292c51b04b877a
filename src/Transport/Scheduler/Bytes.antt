-- ===== src/Transport/Scheduler/Bytes.antt =====
-- The total of the queued bytes, and what the teardown of a channel drops.
use airusb_hub.Base.{
  ℕ, ◌+◌, ◌^◌, ◌≤◌, ◌<◌, ◌≡◌, refl, Bool, not, Option, none, some, List, [], ◌∷◌, ◌++◌, arith,
  length, ◌==◌, keep_if, sum_of, sum_of-append, sum_of-keep_if, length-keep_if,
}
use airusb_hub.Transport.Scheduler.{
  Priority, ctrl, rt, high, bulk_data, Frame, FrameScheduler, queue, set_queue, init, enqueue,
  dequeue, drop_channel, drop_walk, sub_size, queued_frames,
}
use airusb_hub.Transport.Scheduler.Order.{Outcome, IsSame, dequeue-Outcome}

abbrev pub bytes_in : List Frame → ℕ
bytes_in = sum_of (λ f. length f.bytes)

abbrev pub held : FrameScheduler → ℕ
held s = bytes_in s.q_ctrl + bytes_in s.q_rt + bytes_in s.q_high + bytes_in s.q_bulk

-- The total is the size of what is queued, and fits `size_t`.
abbrev pub IsCounted : FrameScheduler → Type 0
IsCounted s = (s.total_bytes ≡ held s) × (held s < 2 ^ 64)

enqueue-held :
    (p : Priority) (f : Frame) (s : FrameScheduler)
    → (held (set_queue p (f ∷ queue p s) s) ≡ held s + length f.bytes)
      × (held (set_queue p (queue p s ++ (f ∷ [])) s) ≡ held s + length f.bytes)
enqueue-held ctrl f s =
    omega (arith, sum_of-append (λ (g : Frame). length g.bytes) s.q_ctrl (f ∷ []))
enqueue-held rt f s = omega (arith, sum_of-append (λ (g : Frame). length g.bytes) s.q_rt (f ∷ []))
enqueue-held high f s =
    omega (arith, sum_of-append (λ (g : Frame). length g.bytes) s.q_high (f ∷ []))
enqueue-held bulk_data f s =
    omega (arith, sum_of-append (λ (g : Frame). length g.bytes) s.q_bulk (f ∷ []))

enqueue-IsCounted :
    (f : Frame) (s : FrameScheduler)
    → held s + length f.bytes < 2 ^ 64
    → IsCounted s
    → IsCounted (enqueue f s) × (held (enqueue f s) ≡ held s + length f.bytes)
unfolding enqueue
enqueue-IsCounted f s fits h = ground (arith, enqueue-held f.priority f s)

sent-held :
    (p : Priority) (f : Frame) (rest : List Frame) (s t : FrameScheduler)
    → queue p s ≡ f ∷ rest
    → IsSame t (set_queue p rest s)
    → held t + length f.bytes ≡ held s
sent-held ctrl f rest s t e o = ground arith
sent-held rt f rest s t e o = ground arith
sent-held high f rest s t e o = ground arith
sent-held bulk_data f rest s t e o = ground arith

abbrev pub sent_bytes : Option Frame → ℕ
sent_bytes none = 0
sent_bytes (some f) = length f.bytes

outcome-IsCounted :
    (s t : FrameScheduler) (o : Option Frame)
    → Outcome s t o
    → IsCounted s
    → IsCounted t × (held t + sent_bytes o ≡ held s)
outcome-IsCounted s t none h c = ground arith
outcome-IsCounted s t (some f) v c =
    ground (arith, sent-held v.from f v.rest s t v.taken v.others, v.counted)

abbrev pub on_channel : ℕ → Frame → Bool
on_channel channel f = f.channel == channel

abbrev pub off_channel : ℕ → Frame → Bool
off_channel channel f = not (f.channel == channel)

drop_walk_lem :
    (channel : ℕ) (q : List Frame) (n total : ℕ)
    → bytes_in q ≤ total
    → total < 2 ^ 64
    → ((drop_walk channel q n total).0 ≡ keep_if (off_channel channel) q)
      × ((drop_walk channel q n total).1 ≡ n + length (keep_if (on_channel channel) q))
      × ((drop_walk channel q n total).2 + bytes_in (keep_if (on_channel channel) q) ≡ total)
unfolding drop_walk
drop_walk_lem channel [] n total h fits = ground arith
drop_walk_lem channel (f ∷ q) n total h fits = ground (
  arith,
  drop_walk_lem channel q n total,
  drop_walk_lem channel q (n + 1) (sub_size total (length f.bytes)),
)

-- What goes and what stays make up the queue.
walk_size :
    (channel : ℕ) (q : List Frame)
    → (bytes_in (keep_if (on_channel channel) q) + bytes_in (keep_if (off_channel channel) q)
        ≡ bytes_in q)
      × (length (keep_if (on_channel channel) q) + length (keep_if (off_channel channel) q)
          ≡ length q)
walk_size channel q = (
  sum_of-keep_if (λ f. length f.bytes) (on_channel channel) q,
  length-keep_if (on_channel channel) q,
)

abbrev pub IsDropped : ℕ → FrameScheduler → FrameScheduler → Type 0
IsDropped channel s t =
    (t.q_ctrl ≡ keep_if (off_channel channel) s.q_ctrl)
    × (t.q_rt ≡ keep_if (off_channel channel) s.q_rt)
    × (t.q_high ≡ keep_if (off_channel channel) s.q_high)
    × (t.q_bulk ≡ keep_if (off_channel channel) s.q_bulk)

-- Where the total is the size of what is queued, a teardown keeps exactly the frames of other
-- channels, in their order, in every class; it answers the number of those it dropped, and the
-- total stays the size of what is queued.
drop_channel-IsCounted :
    (channel : ℕ) (s : FrameScheduler)
    → IsCounted s
    → IsDropped channel s (drop_channel channel s).0
      × ((drop_channel channel s).1 + queued_frames (drop_channel channel s).0 ≡ queued_frames s)
      × IsCounted (drop_channel channel s).0
unfolding drop_channel queued_frames
drop_channel-IsCounted channel s c =
    let w0 = drop_walk channel s.q_ctrl 0 s.total_bytes in
    let w1 = drop_walk channel s.q_rt w0.1 w0.2 in
    let w2 = drop_walk channel s.q_high w1.1 w1.2 in
    let h0 = drop_walk_lem channel s.q_ctrl 0 s.total_bytes (omega arith) (omega arith) in
    let h1 =
      drop_walk_lem channel s.q_rt w0.1 w0.2 (omega (arith, walk_size channel s.q_ctrl))
        (omega arith) in
    let h2 =
      drop_walk_lem channel s.q_high w1.1 w1.2
        (omega (arith, walk_size channel s.q_ctrl, walk_size channel s.q_rt)) (omega arith) in
    let h3 =
      drop_walk_lem channel s.q_bulk w2.1 w2.2
        (omega
          (arith, walk_size channel s.q_ctrl, walk_size channel s.q_rt, walk_size channel s.q_high))
        (omega arith) in
    ground (
      arith,
      h0,
      h1,
      h2,
      h3,
      walk_size channel s.q_ctrl,
      walk_size channel s.q_rt,
      walk_size channel s.q_high,
      walk_size channel s.q_bulk,
    )

dropped-held : (channel : ℕ) (s t : FrameScheduler) → IsDropped channel s t → held t ≤ held s
dropped-held channel s t d = ground (
  arith,
  d,
  walk_size channel s.q_ctrl,
  walk_size channel s.q_rt,
  walk_size channel s.q_high,
  walk_size channel s.q_bulk,
)

-- What the users of the scheduler do.
pub data Event : Type 0 where
  enqueues : Frame → Event
  dequeues : Event
  drops : ℕ → Event

unfoldable pub step : Event → FrameScheduler → FrameScheduler
step (enqueues f) s = enqueue f s
step dequeues s = (dequeue s).0
step (drops channel) s = (drop_channel channel s).0

unfoldable pub run : List Event → FrameScheduler → FrameScheduler
unfolding step
run [] s = s
run (e ∷ es) s = run es (step e s)

unfoldable pub offered : List Event → ℕ
offered [] = 0
offered (enqueues f ∷ es) = length f.bytes + offered es
offered (dequeues ∷ es) = offered es
offered (drops channel ∷ es) = offered es

run-IsCounted_from :
    (es : List Event) (s : FrameScheduler)
    → held s + offered es < 2 ^ 64
    → IsCounted s
    → IsCounted (run es s)
unfolding run offered step
run-IsCounted_from [] s h c = c
run-IsCounted_from (enqueues f ∷ es) s h c =
    let now = enqueue-IsCounted f s (omega arith) c in
    run-IsCounted_from es (enqueue f s) (omega arith) now.0
run-IsCounted_from (dequeues ∷ es) s h c =
    let now = outcome-IsCounted s (dequeue s).0 (dequeue s).1 (dequeue-Outcome s).0 c in
    run-IsCounted_from es (dequeue s).0 (omega arith) now.0
run-IsCounted_from (drops channel ∷ es) s h c =
    let now = drop_channel-IsCounted channel s c in
    let less = dropped-held channel s (drop_channel channel s).0 now.0 in
    run-IsCounted_from es (drop_channel channel s).0 (omega arith) now.2

-- In any history of enqueues, dequeues and teardowns whose frames come to less than 2 ^ 64 bytes,
-- `queuedBytes` is the size of the frames that are queued; no subtraction wraps.
pub run-IsCounted :
    (quantum : ℕ) (es : List Event) → offered es < 2 ^ 64 → IsCounted (run es (init quantum))
unfolding init
run-IsCounted quantum es h = run-IsCounted_from es (init quantum) (omega arith) (refl, omega arith)

-- ===== src/Transport/Scheduler.antt =====
-- airusb/transport/FrameScheduler: strict priority for control, deficit round robin for the rest.
--
-- `_q` and `_deficit` are a field for each class. The deficit of the control class is not kept: no
-- code reads or writes it. A deficit is an integer without a bound.
pub mod Order
pub mod Bytes
mod Examples
use airusb_hub.Base.{
  ℕ, zero, suc, ◌+◌, ◌-◌, ◌%◌, ◌^◌, ◌≡◌, Bool, true, false, Option, none, some, List, [], ◌∷◌, ◌++◌,
  ltb, ◌==◌, if◌then◌else◌, length, ◌&&◌, ℤ, pos, negsuc, add_nat, sub_nat, is_positive,
}
use airusb_hub.Core.Usb.{XferType, isochronous, control, interrupt, bulk}

pub data Priority : Type 0 where
  ctrl : Priority
  rt : Priority
  high : Priority
  bulk_data : Priority

pub priority_for : XferType → Priority
priority_for isochronous = rt
priority_for control = high
priority_for interrupt = high
priority_for bulk = bulk_data

pub record Frame : Type 0 where
  pub bytes : List ℕ
  pub priority : Priority
  pub channel : ℕ
  pub expedite : Bool

pub record FrameScheduler : Type 0 where
  pub quantum : ℕ
  pub q_ctrl : List Frame
  pub q_rt : List Frame
  pub q_high : List Frame
  pub q_bulk : List Frame
  pub deficit_rt : ℤ
  pub deficit_high : ℤ
  pub deficit_bulk : ℤ
  pub rr_cursor : ℕ
  pub total_bytes : ℕ

pub init : ℕ → FrameScheduler
init quantum = record {
  quantum = quantum;
  q_ctrl = [];
  q_rt = [];
  q_high = [];
  q_bulk = [];
  deficit_rt = pos 0;
  deficit_high = pos 0;
  deficit_bulk = pos 0;
  rr_cursor = 1;
  total_bytes = 0;
}

-- `_q[p]`.
abbrev pub queue : Priority → FrameScheduler → List Frame
queue ctrl s = s.q_ctrl
queue rt s = s.q_rt
queue high s = s.q_high
queue bulk_data s = s.q_bulk

abbrev pub set_queue : Priority → List Frame → FrameScheduler → FrameScheduler
set_queue ctrl q s = record s { q_ctrl = q }
set_queue rt q s = record s { q_rt = q }
set_queue high q s = record s { q_high = q }
set_queue bulk_data q s = record s { q_bulk = q }

-- `_deficit[p]`.
abbrev pub deficit : Priority → FrameScheduler → ℤ
deficit ctrl s = pos 0
deficit rt s = s.deficit_rt
deficit high s = s.deficit_high
deficit bulk_data s = s.deficit_bulk

abbrev pub set_deficit : Priority → ℤ → FrameScheduler → FrameScheduler
set_deficit ctrl d s = s
set_deficit rt d s = record s { deficit_rt = d }
set_deficit high d s = record s { deficit_high = d }
set_deficit bulk_data d s = record s { deficit_bulk = d }

-- The class that an index of the round robin stands for, and its index.
abbrev pub class_at : ℕ → Priority
class_at i = if i == 1 then rt else if i == 2 then high else bulk_data

abbrev pub index_of : Priority → ℕ
index_of ctrl = 0
index_of rt = 1
index_of high = 2
index_of bulk_data = 3

-- `size_t` arithmetic.
abbrev add_size : ℕ → ℕ → ℕ
add_size total n = (total + n) % 2 ^ 64

abbrev sub_size : ℕ → ℕ → ℕ
sub_size total n = (total + 2 ^ 64 - n) % 2 ^ 64

pub enqueue : Frame → FrameScheduler → FrameScheduler
enqueue f s =
    let counted = record s { total_bytes = add_size s.total_bytes (length f.bytes) } in
    if f.expedite
    then set_queue f.priority (f ∷ queue f.priority s) counted
    else set_queue f.priority (queue f.priority s ++ (f ∷ [])) counted

-- The frame leaves the class `p`, of which `rest` remains.
abbrev send_from : Priority → Frame → List Frame → FrameScheduler → FrameScheduler
send_from p f rest s =
    let out = set_queue p rest s in
    record (set_deficit p (sub_nat (deficit p s) (length f.bytes)) out) {
      total_bytes = sub_size s.total_bytes (length f.bytes);
      rr_cursor = 1 + (index_of p - 1 + 1) % 3;
    }

-- One turn of the round robin, on the queue of the class: a frame, or `none` to go on.
serve : Priority → FrameScheduler → List Frame → FrameScheduler × Option Frame
serve p s [] = (set_deficit p (pos 0) s, none)
serve p s (f ∷ rest) =
    if is_positive (deficit p s)
    then (send_from p f rest s, some f)
    else (set_deficit p (add_nat (deficit p s) s.quantum) s, none)

turn : Priority → FrameScheduler → FrameScheduler × Option Frame
unfolding serve
turn p s = serve p s (queue p s)

-- What goes on where no frame was sent.
or_else :
    FrameScheduler × Option Frame
    → (FrameScheduler → FrameScheduler × Option Frame)
    → FrameScheduler × Option Frame
or_else (s, some f) next = (s, some f)
or_else (s, none) next = next s

-- `for (attempt = 0; attempt < count * 2; ++attempt)`, on the turns left. The cursor stays as it
-- was until a frame is sent.
turns : ℕ → ℕ → FrameScheduler → FrameScheduler × Option Frame
unfolding turn or_else
turns zero attempt s = (s, none)
turns (suc left) attempt s =
    let p = class_at (1 + (s.rr_cursor - 1 + attempt) % 3) in
    or_else (turn p s) (turns left (attempt + 1))

-- A round is granted to the first class in order that has a frame, and the frame taken.
grant_to :
    Priority
    → FrameScheduler
    → List Frame
    → FrameScheduler × Option Frame
    → FrameScheduler × Option Frame
grant_to p s [] otherwise = otherwise
grant_to p s (f ∷ rest) otherwise =
    (send_from p f rest (set_deficit p (add_nat (deficit p s) s.quantum) s), some f)

grant_round : FrameScheduler → FrameScheduler × Option Frame
unfolding grant_to
grant_round s =
    grant_to rt s s.q_rt (grant_to high s s.q_high (grant_to bulk_data s s.q_bulk (s, none)))

-- On the queue of the control class.
dequeue_from : List Frame → FrameScheduler → FrameScheduler × Option Frame
unfolding turns grant_round or_else
dequeue_from (f ∷ rest) s =
    (record s { q_ctrl = rest; total_bytes = sub_size s.total_bytes (length f.bytes) }, some f)
dequeue_from [] s = or_else (turns 6 0 s) grant_round

pub dequeue : FrameScheduler → FrameScheduler × Option Frame
unfolding dequeue_from
dequeue s = dequeue_from s.q_ctrl s

pub empty : FrameScheduler → Bool
empty s = length s.q_ctrl == 0 && length s.q_rt == 0 && length s.q_high == 0 && length s.q_bulk == 0

pub queued_frames : FrameScheduler → ℕ
queued_frames s = length s.q_ctrl + length s.q_rt + length s.q_high + length s.q_bulk

-- The walk over one queue with the count and the bytes so far: what stays, and both.
drop_walk : ℕ → List Frame → ℕ → ℕ → List Frame × ℕ × ℕ
drop_walk channel [] dropped total = ([], dropped, total)
drop_walk channel (f ∷ q) dropped total =
    if f.channel == channel
    then drop_walk channel q (dropped + 1) (sub_size total (length f.bytes))
    else let (kept, n, left) = drop_walk channel q dropped total in (f ∷ kept, n, left)

pub drop_channel : ℕ → FrameScheduler → FrameScheduler × ℕ
unfolding drop_walk
drop_channel channel s =
    let (c, n0, t0) = drop_walk channel s.q_ctrl 0 s.total_bytes in
    let (r, n1, t1) = drop_walk channel s.q_rt n0 t0 in
    let (h, n2, t2) = drop_walk channel s.q_high n1 t1 in
    let (b, n3, t3) = drop_walk channel s.q_bulk n2 t2 in
    (record s { q_ctrl = c; q_rt = r; q_high = h; q_bulk = b; total_bytes = t3 }, n3)

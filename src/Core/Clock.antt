-- ===== src/Core/Clock.antt =====
-- airusb/core/Clock.h: deadlines on the continuous clock. The time is an argument of each call.
use airusb_hub.Base.{ℕ, ◌+◌, ◌-◌, ◌*◌, ◌%◌, ◌^◌, Bool, true, false, ◌&&◌, leb, ◌==◌, if◌then◌else◌}

pub record Deadline : Type 0 where
  pub at_ns : ℕ
  pub is_set : Bool

abbrev pub never : Deadline
never = record { at_ns = 0; is_set = false }

unfoldable pub after_ms : ℕ → ℕ → Deadline
after_ms now ms =
    if ms == 0
    then never
    else record { at_ns = (now + ms * 1_000_000 % 2 ^ 64) % 2 ^ 64; is_set = true }

unfoldable pub expired : ℕ → Deadline → Bool
expired now d = d.is_set && leb d.at_ns now

unfoldable pub remaining_ns : ℕ → Deadline → ℕ
remaining_ns now d = if d.is_set then if leb d.at_ns now then 0 else d.at_ns - now else 0

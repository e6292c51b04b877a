-- ===== src/Core/Credit.antt =====
-- airusb/core/CreditController: two-dimensional flow control, in urbs and in bytes.
pub mod Ledger
mod Examples
use airusb_hub.Base.{
  ℕ, ◌+◌, ◌-◌, ◌*◌, ◌%◌, ◌^◌, Bool, true, false, ◌&&◌, ◌||◌, ltb, leb, ◌==◌, if◌then◌else◌,
}
use airusb_hub.Core.Status.{Status, ok, no_resources}

pub record CreditGrant : Type 0 where
  pub urbs : ℕ
  pub bytes : ℕ

pub record CreditController : Type 0 where
  pub grant : CreditGrant
  pub urbs_in_use : ℕ
  pub bytes_in_use : ℕ
  pub overruns : ℕ
  pub gross_overrun : Bool

-- The default grant of the header.
abbrev pub default_grant : CreditGrant
default_grant = record { urbs = 64; bytes = 4 * 1024 * 1024 }

pub init : CreditGrant → CreditController
init g = record {
  grant = g;
  urbs_in_use = 0;
  bytes_in_use = 0;
  overruns = 0;
  gross_overrun = false;
}

pub set_grant : CreditGrant → CreditController → CreditController
set_grant g c = record c { grant = g }

-- The sum of the byte test is taken in 64 bits, so it does not wrap.
pub would_fit : CreditController → ℕ → Bool
would_fit c bytes =
    ltb c.urbs_in_use c.grant.urbs && leb ((c.bytes_in_use + bytes) % 2 ^ 64) c.grant.bytes

pub acquire : ℕ → CreditController → CreditController × Status
unfolding would_fit
acquire bytes c =
    if would_fit c bytes
    then (
      record c {
        urbs_in_use = (c.urbs_in_use + 1) % 2 ^ 32;
        bytes_in_use = (c.bytes_in_use + bytes) % 2 ^ 32;
      },
      ok,
    )
    else (c, no_resources)

pub release : ℕ → CreditController → CreditController × Bool
release bytes c =
    if c.urbs_in_use == 0 || ltb c.bytes_in_use bytes
    then (c, false)
    else (record c { urbs_in_use = c.urbs_in_use - 1; bytes_in_use = c.bytes_in_use - bytes }, true)

-- `2ull * bytes` is a 64-bit product and `2u * urbs` a 32-bit one, which wraps.
pub record_overrun : ℕ → CreditController → CreditController
record_overrun requested c = record c {
  overruns = (c.overruns + 1) % 2 ^ 32;
  gross_overrun =
      c.gross_overrun
      || ltb (2 * c.grant.bytes % 2 ^ 64) requested
      || ltb (2 * c.grant.urbs % 2 ^ 32) c.urbs_in_use;
}

pub overrun_is_fatal : CreditController → Bool
overrun_is_fatal c = c.gross_overrun || leb 3 c.overruns

pub reset_for_teardown : CreditController → CreditController
reset_for_teardown c = record c { urbs_in_use = 0; bytes_in_use = 0; overruns = 0 }

-- ===== src/Core/Credit/Examples.antt =====
-- The theorems of the credit controller at concrete inputs.
use airusb_hub.Base.{◌^◌, ◌≡◌, refl, [], ◌∷◌, true, arith}
use airusb_hub.Core.Credit.{
  CreditController, default_grant, init, acquire, would_fit, overrun_is_fatal, record_overrun,
}
use airusb_hub.Core.Credit.Ledger.{
  record_overrun_wrapped, IsSound, acquired, Reach, here, next, Reach-IsSound,
}

abbrev one_urb : CreditController
one_urb = record (init default_grant) { urbs_in_use = 1; bytes_in_use = 512 }

one_urb_reached : Reach (init default_grant) [] one_urb (512 ∷ [])
unfolding init acquire would_fit
one_urb_reached = next here (acquired 512 (omega arith) refl refl)

Reach-IsSound_example : IsSound one_urb (512 ∷ [])
Reach-IsSound_example = Reach-IsSound default_grant (omega arith) one_urb_reached

abbrev wide_grant : CreditController
wide_grant = record one_urb { grant = record { urbs = 2 ^ 31; bytes = 4096 } }

record_overrun_wrapped_example : overrun_is_fatal (record_overrun 0 wide_grant) ≡ true
record_overrun_wrapped_example =
    record_overrun_wrapped 0 wide_grant (omega arith) (omega arith) (omega arith)

-- ===== src/Core/Ep0/Examples.antt =====
-- The theorems of the endpoint-0 policy at concrete inputs.
use airusb_hub.Base.{◌≤◌, ◌≡◌, false, List, [], ◌∷◌, arith, length, ltb}
use airusb_hub.Core.Manifest.{configuration_by_index, rd16}
use airusb_hub.Core.Manifest.Keyboard.{keyboard, keyboard_valid}
use airusb_hub.Core.Ep0.{local, set_configuration, set_interface, Ep0Arbiter, new_arbiter, decide}
use airusb_hub.Core.Ep0.Policy.{
  Confirmed, after_history, configuration_now, setting_now, ask_configuration, ask_interface,
  decide-Fits, decide-now,
}
use airusb_hub.Core.Ep0.Enumeration.{ask_config, decide-enumerates}

abbrev arbiter : Ep0Arbiter
arbiter = new_arbiter keyboard

-- Configuration 1, then setting 2 for interface 3, and one for interface 40, which is past the
-- array.
abbrev history : List Confirmed
history = (set_interface, 40, 1) ∷ (set_interface, 3, 2) ∷ (set_configuration, 1, 0) ∷ []

decide-Fits_example :
    (length (decide (ask_config 0 9) arbiter).data_bytes ≤ 9)
    × ((decide (ask_config 0 9) arbiter).disposition ≡ local
        → (decide (ask_config 0 9) arbiter).is_short
          ≡ ltb (length (decide (ask_config 0 9) arbiter).data_bytes) 9)
decide-Fits_example = decide-Fits (ask_config 0 9) arbiter

decide-now_example :
    ((decide (ask_configuration 1) (after_history keyboard history)).data_bytes ≡ 1 ∷ [])
    × ((decide (ask_interface 3 1) (after_history keyboard history)).data_bytes ≡ 2 ∷ [])
unfolding configuration_now setting_now
decide-now_example = decide-now keyboard history 3 1 (omega arith) (omega arith)

decide-enumerates_example :
    let first = decide (ask_config 0 9) arbiter in
    let then_all = decide (ask_config 0 (rd16 first.data_bytes 2)) arbiter in
    (length first.data_bytes ≡ 9)
    × (then_all.data_bytes ≡ configuration_by_index 0 keyboard)
    × (then_all.is_short ≡ false)
unfolding new_arbiter
decide-enumerates_example = decide-enumerates 0 arbiter keyboard_valid (omega arith) (omega arith)

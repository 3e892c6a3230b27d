-- ===== src/Takeover/Tests.antt =====
-- The theorems on the takeover controller at inputs that meet their hypotheses.
use deepwork_browser.Input.Dispatch
use deepwork_browser.Input.Dispatch.{touch_event, touch_type}
use deepwork_browser.Prelude.{not, eq_iff, arith, if◌then◌else◌, none, ◌≡◌, some}
use deepwork_browser.Input.Event.{InputEvent, zero_event}
use deepwork_browser.Input.Timers.{run_out}
use deepwork_browser.Input.Gateway.{is_takeover, observe}
use deepwork_browser.Takeover.{
  Controller, new_takeover_controller, enable_takeover, auto_release, dispatch_input,
  err_takeover_active,
}
use deepwork_browser.Takeover.Races.{IsWiredTimer, stale_release}
use deepwork_browser.Takeover.Dispatching.{dispatch_input_lem, outcome_of}

new_takeover_controller-IsWiredTimer : IsWiredTimer new_takeover_controller
new_takeover_controller-IsWiredTimer = record { owned = tt; idle_below = tt; grace_below = tt }

stale_release_example :
    (auto_release (
      enable_takeover (some 2) (record (enable_takeover (some 1) new_takeover_controller) {
        timers = run_out 0 (enable_takeover (some 1) new_takeover_controller).timers;
      }))).0.mode
    ≡ observe
stale_release_example = (stale_release (some 1) (some 2) new_takeover_controller).1

abbrev press_a : InputEvent
press_a = record zero_event { type = "keyboard"; event = "keyDown"; key = "A"; code = "KeyA" }

abbrev enabled : Controller
enabled = enable_takeover none new_takeover_controller

dispatch_input_lem_example : dispatch_input press_a enabled ≡ (
    if not (is_takeover enabled.mode)
    then err_takeover_active
    else outcome_of (Dispatch.dispatch_event press_a))
dispatch_input_lem_example =
    dispatch_input_lem press_a enabled (ground (arith, eq_iff "keyDown" "insertText"))

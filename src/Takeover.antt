-- ===== src/Takeover.antt =====
-- The older takeover controller: browser/takeover_controller.go. The callback given to
-- `EnableTakeover` is a number; the timers are those of the input gateway's model, with no owner.
pub mod Races
pub mod Dispatching
mod Tests
use deepwork_browser.Prelude.{
  ℕ, String, Bool, true, false, not, List, [], ◌∷◌, Option, none, some, nat_eq, if◌then◌else◌, ◌==◌,
}
use deepwork_browser.Input.Event.{InputEvent}
use deepwork_browser.Input.Timers.{Timers, no_timers, after_func, stop}
use deepwork_browser.Input.Gateway.{Mode, observe, takeover, is_takeover}
use deepwork_browser.Input.Dispatch.{
  Command, wheel, mouse_event, key_event, mouse_type, mouse_button, click_count_of, key_type,
}

pub record Controller : Type 0 where
  pub mode : Mode
  pub timeout : ℕ
  pub timer : Option ℕ
  pub on_release : Option ℕ
  pub timers : Timers

abbrev pub default_takeover_timeout : ℕ
default_takeover_timeout = 300_000_000_000

abbrev pub new_takeover_controller : Controller
new_takeover_controller = record {
  mode = observe;
  timeout = default_takeover_timeout;
  timer = none;
  on_release = none;
  timers = no_timers;
}

unfoldable pub enable_takeover : Option ℕ → Controller → Controller
enable_takeover on_release c = record c {
  mode = takeover;
  on_release = on_release;
  timer = some c.timers.next_id;
  timers = after_func "" (stop c.timer c.timers);
}

unfoldable pub disable_takeover : Controller → Controller
disable_takeover c = record c { mode = observe; timer = none; timers = stop c.timer c.timers }

-- The timer's callback, with the release callback that it runs once the mutex is free.
unfoldable pub auto_release : Controller → Controller × Option ℕ
auto_release c = (record c { mode = observe; timer = none }, c.on_release)

unfoldable pub set_timeout : ℕ → Controller → Controller
set_timeout d c = record c { timeout = d }

-- Here no bit mask of buttons is set, and no virtual key code.
unfoldable pub dispatch_mouse_event : InputEvent → Command
dispatch_mouse_event e =
    if e.event == "mouseWheel"
    then wheel e.x e.y e.delta_x e.delta_y
    else (let kind = mouse_type e.event in
        mouse_event kind e.x e.y (mouse_button e.button) 0 (click_count_of kind e.click_count))

unfoldable pub dispatch_key_event : InputEvent → Command
dispatch_key_event e = key_event (key_type e.event) e.key e.code e.text e.modifiers none

-- What `DispatchInput` does: it refuses, ignores the event, or sends a command.
pub data Outcome : Type 0 where
  err_takeover_active : Outcome
  ignored : Outcome
  sent : Command → Outcome

unfoldable pub dispatch_input : InputEvent → Controller → Outcome
unfolding dispatch_mouse_event dispatch_key_event
dispatch_input e c =
    if not (is_takeover c.mode)
    then err_takeover_active
    else if e.type == "mouse"
    then sent (dispatch_mouse_event e)
    else if e.type == "keyboard"
    then sent (dispatch_key_event e)
    else ignored

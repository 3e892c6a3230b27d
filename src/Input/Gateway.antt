-- ===== src/Input/Gateway.antt =====
-- The state of `InputGateway` in browser/input_gateway.go and its operations under the mutex.
-- Time is an argument, in nanoseconds; the zero `time.Time` is 0. Log lines are left out.
use deepwork_browser.Prelude.{
  ℕ, ◌+◌, ◌-◌, String, Bool, true, false, not, ◌&&◌, ◌||◌, List, [], ◌∷◌, ◌++◌, map, Option, none,
  some, if◌then◌else◌, is_some, ◌==◌, Map, insert, delete, values,
}
use deepwork_browser.Input.Event.{Word, InputEvent, zero_event}
use deepwork_browser.Input.Timers.{Timers, no_timers, after_func, stop}

pub data Mode : Type 0 where
  observe takeover : Mode

abbrev pub is_takeover : Mode → Bool
is_takeover observe = false
is_takeover takeover = true

pub record PressedKey : Type 0 where
  pub key : String
  pub code : String

pub record PressedBtn : Type 0 where
  pub button : String
  pub last_x : Word
  pub last_y : Word

pub record Gateway : Type 0 where
  pub mode : Mode
  pub owner : String
  pub lease_token : String
  pub lease_expiry : ℕ
  pub idle_timeout : ℕ
  pub idle_timer : Option ℕ
  pub grace_timer : Option ℕ
  pub pressed_keys : Map PressedKey
  pub pressed_btns : Map PressedBtn
  pub has_on_accepted : Bool
  pub timers : Timers

-- What an operation sets going outside the mutex. `starts_release` is the goroutine of
-- `releaseAllLocked` with the events it has to dispatch, which Input.Release runs.
pub data Effect : Type 0 where
  notified : Effect
  starts_release : List InputEvent → Effect
  dispatched : InputEvent → Effect
  on_accepted : InputEvent → Effect
  recorded : InputEvent → Effect

abbrev pub default_idle_timeout : ℕ
default_idle_timeout = 300_000_000_000

abbrev pub new_gateway : Gateway
new_gateway = record {
  mode = observe;
  owner = "";
  lease_token = "";
  lease_expiry = 0;
  idle_timeout = default_idle_timeout;
  idle_timer = none;
  grace_timer = none;
  pressed_keys = [];
  pressed_btns = [];
  has_on_accepted = false;
  timers = no_timers;
}

-- `g.mode == TakeoverModeTakeover && g.owner == connID`
unfoldable pub holds : Gateway → String → Bool
holds g conn = is_takeover g.mode && g.owner == conn

abbrev pub key_up : PressedKey → InputEvent
key_up k = record zero_event { type = "keyboard"; event = "keyUp"; key = k.key; code = k.code }

abbrev pub mouse_released : PressedBtn → InputEvent
mouse_released b = record zero_event {
  type = "mouse";
  event = "mouseReleased";
  button = b.button;
  x = b.last_x;
  y = b.last_y;
}

-- The synthetic events of `releaseAllLocked`, in the order of its goroutine.
unfoldable pub release_events : Gateway → List InputEvent
release_events g = map key_up (values g.pressed_keys) ++ map mouse_released (values g.pressed_btns)

abbrev pub release_effects : List InputEvent → List Effect
release_effects [] = []
release_effects (e ∷ es) = starts_release (e ∷ es) ∷ []

unfoldable pub release_all_locked : Gateway → Gateway × List Effect
unfolding release_events
release_all_locked g =
    (record g { pressed_keys = []; pressed_btns = [] }, release_effects (release_events g))

unfoldable pub clear_takeover_state_locked : Gateway → Gateway
clear_takeover_state_locked g = record g {
  mode = observe;
  owner = "";
  lease_token = "";
  lease_expiry = 0;
  idle_timer = none;
  grace_timer = none;
  pressed_keys = [];
  pressed_btns = [];
  timers = stop g.grace_timer (stop g.idle_timer g.timers);
}

unfoldable pub reset_idle_timer_locked : Gateway → Gateway
reset_idle_timer_locked g = record g {
  idle_timer = some g.timers.next_id;
  timers = after_func g.owner (stop g.idle_timer g.timers);
}

-- The case "mouse" of `trackInputStateLocked`, and below it the case "keyboard".
unfoldable pub tracked_btns : InputEvent → Map PressedBtn → Map PressedBtn
tracked_btns e btns =
    if not (e.type == "mouse")
    then btns
    else if e.event == "mousePressed"
    then (if not (e.button == "") && not (e.button == "none")
        then insert e.button (record { button = e.button; last_x = e.x; last_y = e.y }) btns
        else btns)
    else if e.event == "mouseReleased"
    then delete e.button btns
    else btns

unfoldable pub tracked_keys : InputEvent → Map PressedKey → Map PressedKey
tracked_keys e keys =
    if not (e.type == "keyboard")
    then keys
    else if e.event == "keyDown"
    then (if not (e.code == "")
        then insert e.code (record { key = e.key; code = e.code }) keys
        else keys)
    else if e.event == "keyUp"
    then delete e.code keys
    else keys

unfoldable pub track_input_state_locked : InputEvent → Gateway → Gateway
track_input_state_locked e g = record g {
  pressed_keys = tracked_keys e g.pressed_keys;
  pressed_btns = tracked_btns e g.pressed_btns;
}

-- `error` values: who holds the takeover and for how long, or no randomness for a token.
pub data Takeover : Type 0 where
  granted : String → ℕ → Takeover
  held_by : String → ℕ → Takeover
  no_token : Takeover

-- `token` is the result of `generateLeaseToken`, none if `rand.Read` fails.
unfoldable pub request_takeover :
    String → ℕ → Option String → Gateway → Gateway × List Effect × Takeover
unfolding reset_idle_timer_locked
request_takeover conn now token g =
    if is_takeover g.mode && not (g.owner == conn)
    then (g, [], held_by g.owner (g.lease_expiry - now))
    else elim token [
      | none ↦ (g, [], no_token)
      | some t ↦
          let expiry = now + g.idle_timeout in
          let taken =
            reset_idle_timer_locked (record g {
              mode = takeover;
              owner = conn;
              lease_token = t;
              lease_expiry = expiry;
            }) in
          (
            record taken { grace_timer = none; timers = stop g.grace_timer taken.timers },
            notified ∷ [],
            granted t expiry,
          )
    ]

-- The common end of a takeover: `releaseAllLocked`, `clearTakeoverStateLocked`, `notifyStateChange`.
unfoldable pub end_takeover : Gateway → Gateway × List Effect
unfolding release_all_locked clear_takeover_state_locked
end_takeover g =
    let (g', sent) = release_all_locked g in (clear_takeover_state_locked g', sent ++ notified ∷ [])

-- The Boolean is false where the call returns an error.
unfoldable pub release_takeover : String → Gateway → Gateway × List Effect × Bool
unfolding end_takeover
release_takeover conn g =
    if not (is_takeover g.mode)
    then (g, [], true)
    else if not (g.owner == conn)
    then (g, [], false)
    else (let (g', sent) = end_takeover g in (g', sent, true))

unfoldable pub on_disconnect : String → Gateway → Gateway
on_disconnect conn g =
    if not (holds g conn) || is_some g.grace_timer
    then g
    else record g { grace_timer = some g.timers.next_id; timers = after_func conn g.timers }

unfoldable pub on_reconnect : String → Gateway → Gateway
on_reconnect conn g =
    if not (holds g conn)
    then g
    else record g { grace_timer = none; timers = stop g.grace_timer g.timers }

-- The callback of the idle timer and that of the grace timer; both test the same.
unfoldable pub timer_callback : String → Gateway → Gateway × List Effect
unfolding holds end_takeover
timer_callback owner g = if holds g owner then end_takeover g else (g, [])

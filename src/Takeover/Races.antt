-- ===== src/Takeover/Races.antt =====
-- The mode of browser/takeover_controller.go under its calls and its timer.
use deepwork_browser.Prelude.{ℕ, suc, ◌≡◌, refl, [], Option, none, some, arith, nat_eq_iff}
use deepwork_browser.Input.Timers.{after_func, stop, find_armed, run_out}
use deepwork_browser.Input.Timers.Laws.{IsWired, IsWired-reset, armed-stop_both, next_id-stop}
use deepwork_browser.Input.Gateway.{observe, takeover}
use deepwork_browser.Takeover.{Controller, enable_takeover, disable_takeover, auto_release}

-- The timers that are armed: the controller's own, and no other.
abbrev pub IsWiredTimer : Controller → Type 0
IsWiredTimer c = IsWired "" c.timer none c.timers

enable_takeover-IsWiredTimer :
    (f : Option ℕ) (c : Controller) → IsWiredTimer c → IsWiredTimer (enable_takeover f c)
unfolding enable_takeover
enable_takeover-IsWiredTimer f c w = IsWired-reset w

-- Releasing a takeover by hand disarms its timer: no timer is left that could release a later one.
pub disable_takeover_lem :
    (c : Controller)
    → IsWiredTimer c
    → ((disable_takeover c).mode ≡ observe)
      × ((disable_takeover c).timer ≡ none)
      × ((disable_takeover c).timers.armed ≡ [])
unfolding disable_takeover stop
disable_takeover_lem c w = (refl, refl, armed-stop_both w)

abbrev out : ℕ → Controller → Controller
out k c = record c { timers = run_out k c.timers }

-- A timer that has run out just before a new takeover ends that takeover: the callback looks neither
-- at the mode nor at the timer. The new takeover's release callback runs, its timer stays armed, and
-- no later release by hand disarms that timer, since the controller has lost it.
pub stale_release :
    (first second : Option ℕ) (c : Controller)
    → let k = c.timers.next_id in
      let renewed = enable_takeover second (out k (enable_takeover first c)) in
      let (late, called) = auto_release renewed in
      (renewed.mode ≡ takeover)
      × (late.mode ≡ observe)
      × (called ≡ second)
      × (late.timer ≡ none)
      × (find_armed (suc k) (disable_takeover late).timers.armed
          ≡ some (record { id = suc k; owner = "" }))
unfolding enable_takeover disable_takeover auto_release after_func stop run_out find_armed
stale_release first second c = (
  refl,
  refl,
  refl,
  refl,
  ground (
    arith,
    next_id-stop c.timer c.timers,
    nat_eq_iff c.timers.next_id c.timers.next_id,
    nat_eq_iff (suc c.timers.next_id) (suc c.timers.next_id),
  ),
)

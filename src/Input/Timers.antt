-- ===== src/Input/Timers.antt =====
-- What browser/input_gateway.go and browser/takeover_controller.go use of Go's `time.AfterFunc` and
-- `Timer.Stop`. A timer that has run out leaves `armed` for `firing`: its callback has been started
-- and waits for the mutex, and `Stop` no longer reaches it. When a timer runs out is left open.
pub mod Laws
use deepwork_browser.Prelude.{
  ℕ, suc, ◌<◌, ◌≡◌, ◌≢◌, refl, String, Bool, true, false, not, List, [], ◌∷◌, Option, none, some,
  arith, nat_eq, if◌then◌else◌, keep, All,
}

pub record Timer : Type 0 where
  pub id : ℕ
  pub owner : String

pub record Timers : Type 0 where
  pub next_id : ℕ
  pub armed : List Timer
  pub firing : List Timer

abbrev pub no_timers : Timers
no_timers = record { next_id = 0; armed = []; firing = [] }

-- `time.AfterFunc`: the new timer has the id `next_id`.
unfoldable pub after_func : String → Timers → Timers
after_func owner ts = record ts {
  next_id = suc ts.next_id;
  armed = record { id = ts.next_id; owner = owner } ∷ ts.armed;
}

abbrev pub differs : ℕ → Timer → Bool
differs k t = not (nat_eq t.id k)

-- `Timer.Stop`, on a pointer that may be nil.
unfoldable pub stop : Option ℕ → Timers → Timers
stop none ts = ts
stop (some k) ts = record ts { armed = keep (differs k) ts.armed }

unfoldable pub find_armed : ℕ → List Timer → Option Timer
find_armed k [] = none
find_armed k (t ∷ ts) = if nat_eq t.id k then some t else find_armed k ts

-- The runtime starts the callback of an armed timer.
unfoldable pub run_out : ℕ → Timers → Timers
unfolding find_armed
run_out k ts = elim (find_armed k ts.armed) [
  | none ↦ ts
  | some t ↦ record ts { armed = keep (differs k) ts.armed; firing = t ∷ ts.firing }
]

-- ===== src/Input/Step.antt =====
-- The gateway of browser/input_gateway.go under any interleaving: each step is one section under the
-- mutex, or the runtime's start of a timer's callback.
use deepwork_browser.Prelude.{
  ℕ, String, Option, none, some, List, [], ◌∷◌, nat_eq, keep, if◌then◌else◌,
}
use deepwork_browser.Input.Event.{InputMessage}
use deepwork_browser.Input.Timers.{Timer, differs, run_out}
use deepwork_browser.Input.Gateway.{
  Gateway, request_takeover, release_takeover, on_disconnect, on_reconnect, timer_callback,
}
use deepwork_browser.Input.Handle.{renew}

pub data Event : Type 0 where
  requests : String → ℕ → Option String → Event
  releases : String → Event
  renews : String → ℕ → InputMessage → Event
  disconnects reconnects : String → Event
  runs_out calls_back : ℕ → Event

-- The callback that waits longest under the id, and the others.
unfoldable pub find_firing : ℕ → List Timer → Option Timer
find_firing k [] = none
find_firing k (t ∷ ts) = if nat_eq t.id k then some t else find_firing k ts

-- The callback leaves the queue.
unfoldable pub without_firing : ℕ → Gateway → Gateway
without_firing k g = record g {
  timers = record (g.timers) { firing = keep (differs k) g.timers.firing };
}

unfoldable pub call_back : ℕ → Gateway → Gateway
unfolding find_firing timer_callback without_firing
call_back k g = elim (find_firing k g.timers.firing) [
  | none ↦ g
  | some t ↦ (timer_callback t.owner (without_firing k g)).0
]

unfoldable pub step : Event → Gateway → Gateway
unfolding call_back
step (requests conn now token) g = (request_takeover conn now token g).0
step (releases conn) g = (release_takeover conn g).0
step (renews conn now msg) g = (renew conn now msg g).0
step (disconnects conn) g = on_disconnect conn g
step (reconnects conn) g = on_reconnect conn g
step (runs_out k) g = record g { timers = run_out k g.timers }
step (calls_back k) g = call_back k g

unfoldable pub run : List Event → Gateway → Gateway
run [] g = g
run (e ∷ es) g = run es (step e g)

-- ===== src/Live/Tests.antt =====
-- The theorems of Live at concrete hubs, authorities and gateways, and a run.
use deepwork_browser.Prelude.{ℕ, List, [], ◌∷◌, none, some, false, ◌≡◌, ◌≢◌, refl, arith, lookup}
use deepwork_browser.Live.Hub.{Hub, new_hub, publish, subscribe, unsubscribe}
use deepwork_browser.Live.Wired.{IsWired, new_hub-IsWired}
use deepwork_browser.Prelude.{◌+◌}
use mathlib.Core.Option
use deepwork_browser.Live.Run.{
  HubOp, subscribes, unsubscribes, publishes, reads, run, run-IsWired, unsubscribe-subscribe,
}
use deepwork_browser.Live.Authority.{
  Authority, new_session_authority, change, broadcast, cursor_update, mode_update,
}
use deepwork_browser.Live.Updates.{stale_broadcast}
use deepwork_browser.Live.Session.{Shows, on_state_change, is_quiet, on_state_change-Shows}
use deepwork_browser.Live.Drift.{watch_all, final, watch_all-silent}
use deepwork_browser.Input.Event.{InputEvent, InputMessage, zero_event}
use deepwork_browser.Input.Gateway.{
  Gateway, new_gateway, takeover, default_idle_timeout, holds, on_reconnect, request_takeover,
}
use deepwork_browser.Input.Handle.{renew}
use deepwork_browser.Input.Step.{
  step, requests, renews, reconnects, disconnects, run as run_gateway,
}

-- A hub of numbers with one subscriber, whose channel is full.
abbrev one_full : Hub ℕ
one_full = record {
  heap = record { next = 1; cells = λ i. record { slot = some 7; closed = false } };
  subscribers = ("a", 0) ∷ [];
}

one_full-IsWired : IsWired one_full
one_full-IsWired = record { opened = ((omega arith, refl), tt); distinct = (tt, tt) }

abbrev busy : List (HubOp ℕ)
busy =
    subscribes "a"
    ∷ publishes 1
    ∷ subscribes "a"
    ∷ unsubscribes "a" 0
    ∷ publishes 2
    ∷ publishes 3
    ∷ reads 1
    ∷ unsubscribes "a" 1
    ∷ unsubscribes "a" 1
    ∷ []

-- The last value stands alone in the channel.
kept_latest :
    Option.map
      (λ h. (h.heap.cells 1).slot)
      (run (subscribes "a" ∷ subscribes "b" ∷ publishes 1 ∷ publishes 2 ∷ []) (new_hub {T = ℕ}))
    ≡ some (some 2)
unfolding run publish
kept_latest = refl

run-IsWired_example : (h' : Hub ℕ) × (run busy new_hub ≡ some h') × IsWired h'
run-IsWired_example = run-IsWired busy new_hub new_hub-IsWired

unsubscribe-subscribe_example :
    (h' : Hub ℕ) × (ch : ℕ) × (subscribe "a" one_full ≡ some (h', ch))
    × (lookup "a" h'.subscribers ≡ some ch)
    × (unsubscribe "a" 0 h' ≡ some h')
unsubscribe-subscribe_example = unsubscribe-subscribe "a" 0 one_full one_full-IsWired (omega arith)

abbrev watched : Authority
watched = record (new_session_authority 800 600) {
  subscribers = record {
    heap = record { next = 1; cells = λ i. record { slot = none; closed = false } };
    subscribers = ("a", 0) ∷ [];
  };
}

watched-IsWired : IsWired watched.subscribers
watched-IsWired = record { opened = ((omega arith, refl), tt); distinct = (tt, tt) }

stale_broadcast_example :
    let older = change (cursor_update "text") watched in
    let newer = change (cursor_update "wait") older in
    (b c : Authority) × (broadcast newer.state newer ≡ some b)
    × (broadcast older.state b ≡ some c)
    × (c.state ≡ newer.state)
    × ((c.subscribers.heap.cells 0).slot ≡ some older.state)
    × (older.state.seq ≢ c.state.seq)
unfolding lookup
stale_broadcast_example =
    stale_broadcast (cursor_update "text") (cursor_update "wait") "a" 0 watched watched-IsWired refl

abbrev typed : InputMessage
typed = record { event = zero_event; lease = "t"; seq = 1 }

abbrev press_a : InputEvent
press_a = record zero_event { type = "keyboard"; event = "keyDown"; key = "A"; code = "KeyA" }

abbrev free_session : Authority
free_session = change (mode_update "observe" "" "" 0) watched

-- Between the reads of the callback of the takeover of "a", "a" comes back, sends an input and goes.
on_state_change-Shows_example :
    let first = step (requests "a" 5 (some "t")) new_gateway in
    let second = run_gateway (reconnects "a" ∷ []) first in
    let third = run_gateway (renews "a" 6 typed ∷ []) second in
    let fourth = run_gateway (disconnects "a" ∷ []) third in
    Shows (run_gateway [] fourth) (on_state_change first second third fourth free_session).state
unfolding is_quiet renew on_reconnect request_takeover
on_state_change-Shows_example =
    on_state_change-Shows (reconnects "a" ∷ []) (renews "a" 6 typed ∷ []) (disconnects "a" ∷ []) []
      (step (requests "a" 5 (some "t")) new_gateway) free_session refl

abbrev held : Gateway
held = record new_gateway {
  mode = takeover;
  owner = "a";
  lease_token = "t";
  lease_expiry = 10 + default_idle_timeout;
}

abbrev typing : List (ℕ × InputMessage)
typing =
    (500_000_000, typed) ∷ (1_000_000_000, record { event = press_a; lease = "t"; seq = 2 }) ∷ []

watch_all-silent_example :
    ((watch_all "a" typing held free_session).1 ≡ free_session)
    × ((watch_all "a" typing held free_session).0.lease_expiry
        ≡ final 10 typing + default_idle_timeout)
unfolding holds
watch_all-silent_example =
    watch_all-silent "a" 10 typing held free_session refl refl
      (refl, omega arith, (refl, omega arith, tt))

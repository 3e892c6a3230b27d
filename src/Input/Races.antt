-- ===== src/Input/Races.antt =====
-- A connection that drops and comes back: `OnDisconnect`, `OnReconnect` and the timers of
-- browser/input_gateway.go. The callbacks test the owner again when they get the mutex, which tells
-- a reconnected or renewed takeover of the same owner from a lapsed one only if `Stop` was in time.
use mathlib.Core.Path.{subst}
use deepwork_browser.Prelude.{
  ℕ, suc, ◌+◌, ◌≡◌, refl, sym, ap, ◌∙◌, inl, inr, true, String, Option, none, some, List, [], ◌∷◌,
  arith, nat_eq, nat_eq_iff, keep, All, Bool-cases, eq_iff,
}
use deepwork_browser.Input.Event.{InputMessage}
use deepwork_browser.Input.Timers.{Timer, differs, after_func, stop, find_armed, run_out}
use deepwork_browser.Input.Timers.Laws.{IsOwned}
use deepwork_browser.Input.Gateway.{
  Gateway, observe, holds, on_disconnect, on_reconnect, clear_takeover_state_locked,
}
use deepwork_browser.Input.Handle.{renew}
use deepwork_browser.Input.Step.{
  disconnects, reconnects, runs_out, calls_back, renews, call_back, step, run,
}
use deepwork_browser.Input.Invariant.{IsValid}

-- Older timers have smaller ids, so stopping a new one keeps them.
keep-older :
    (owner : String) (idle grace : Option ℕ) (n : ℕ) (ts : List Timer)
    → All (IsOwned owner idle grace n) ts
    → keep (differs n) ts ≡ ts
keep-older owner idle grace n [] h = refl
keep-older owner idle grace n (t ∷ ts) (p, h) = ground (arith, keep-older owner idle grace n ts h)

-- A connection that drops and comes back before its grace timer runs out finds the takeover as it
-- was, with no timer left of the break: the two calls change only the number of timers ever set.
pub on_reconnect-on_disconnect :
    (g : Gateway) (conn : String)
    → IsValid g
    → holds g conn ≡ true
    → g.grace_timer ≡ none
    → on_reconnect conn (on_disconnect conn g)
      ≡ record g { timers = record (g.timers) { next_id = suc g.timers.next_id } }
unfolding on_reconnect on_disconnect holds after_func stop
on_reconnect-on_disconnect g conn v h e = ground (
  arith,
  keep-older g.owner g.idle_timer g.grace_timer g.timers.next_id g.timers.armed v.wired.owned,
)

-- If the grace timer has run out by then, its callback still ends the takeover of the connection
-- that is back: the owner is the same, and nothing tells the callback of the reconnection.
pub grace_race :
    (g : Gateway) (conn : String)
    → holds g conn ≡ true
    → g.grace_timer ≡ none
    → let k = g.timers.next_id in
      (run (disconnects conn ∷ runs_out k ∷ reconnects conn ∷ calls_back k ∷ []) g).mode ≡ observe
unfolding run step on_reconnect on_disconnect holds after_func stop run_out find_armed call_back
    clear_takeover_state_locked
grace_race g conn h e = ground (arith, nat_eq_iff g.timers.next_id g.timers.next_id)

find_armed_lem :
    (P : Timer → Type 0) (k : ℕ) (ts : List Timer) (t : Timer)
    → find_armed k ts ≡ some t
    → All P ts
    → (t.id ≡ k) × P t
unfolding find_armed
find_armed_lem P k [] t f h = cc
find_armed_lem P k (u ∷ ts) t f (p, h) = elim (Bool-cases (nat_eq u.id k)) [
  | inl same ↦
      let e : u ≡ t = ground arith in
      ((ap (λ (x : Timer). x.id) (sym e)) ∙ (nat_eq_iff u.id k).0 same, subst P e p)
  | inr other ↦ find_armed_lem P k ts t (ground arith) h
]

-- So it is with the lease: an accepted input renews it, and an idle timer that has run out before
-- ends the takeover all the same.
pub idle_race :
    (g : Gateway) (conn : String) (now k : ℕ) (msg : InputMessage) (t : Timer)
    → IsValid g
    → holds g conn ≡ true
    → msg.lease ≡ g.lease_token
    → find_armed k g.timers.armed ≡ some t
    → ((renew conn now msg g).0.lease_expiry ≡ now + g.idle_timeout)
      × ((run (runs_out k ∷ renews conn now msg ∷ calls_back k ∷ []) g).mode ≡ observe)
unfolding run step renew holds after_func stop run_out call_back clear_takeover_state_locked
idle_race g conn now k msg t v h l f =
    let found = find_armed_lem _ k g.timers.armed t f v.wired.owned in
    let same_id = found.0 in
    let own = found.1.0 in
    ground (
      arith,
      eq_iff msg.lease g.lease_token,
      eq_iff t.owner conn,
      eq_iff g.owner conn,
      nat_eq_iff t.id k,
    )

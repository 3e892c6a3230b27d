-- ===== src/Input/Invariant.antt =====
-- The invariant of `InputGateway` in browser/input_gateway.go, over every interleaving.
use mathlib.Core.Path.{subst}
use deepwork_browser.Prelude.{
  ℕ, ◌≡◌, ◌≢◌, refl, sym, inl, inr, Bool, true, false, not, ◌&&◌, ◌||◌, String, Option, none, some,
  List, [], ◌∷◌, arith, ◌==◌, is_some, Option-cases, eq_iff, if_cases, if_cases_dep,
}
use deepwork_browser.Input.Event.{InputMessage}
use deepwork_browser.Input.Timers.{Timers, run_out}
use deepwork_browser.Input.Timers.Laws.{
  IsWired, IsWired-reset, IsWired-stop_grace, IsWired-run_out, IsWired-start_grace, armed-stop_both,
  eq_nil_of_All, All-run_out,
}
use deepwork_browser.Input.Gateway.{
  Gateway, Mode, Effect, Takeover, observe, takeover, is_takeover, holds, new_gateway,
  release_all_locked, clear_takeover_state_locked, request_takeover, end_takeover, release_takeover,
  on_disconnect, on_reconnect, timer_callback,
}
use deepwork_browser.Input.Handle.{renew}
use deepwork_browser.Input.Step.{
  Event, requests, releases, renews, disconnects, reconnects, runs_out, calls_back, find_firing,
  call_back, without_firing, step, run,
}

-- In OBSERVE mode nothing of a takeover is left and no timer is armed; a takeover has an idle timer.
abbrev pub IsCleared : Mode → Gateway → Type 0
IsCleared takeover g = g.idle_timer ≢ none
IsCleared observe g =
    (g.owner ≡ "")
    × (g.lease_token ≡ "")
    × (g.lease_expiry ≡ 0)
    × (g.idle_timer ≡ none)
    × (g.grace_timer ≡ none)
    × (g.pressed_keys ≡ [])
    × (g.pressed_btns ≡ [])
    × (g.timers.armed ≡ [])

pub record IsValid (g : Gateway) : Type 0 where
  pub cleared : IsCleared g.mode g
  pub wired : IsWired g.owner g.idle_timer g.grace_timer g.timers

pub new_gateway-IsValid : IsValid new_gateway
new_gateway-IsValid = record {
  cleared = (refl, refl, refl, refl, refl, refl, refl, refl);
  wired = record { owned = tt; idle_below = tt; grace_below = tt };
}

clear_takeover_state_locked-IsValid :
    (g : Gateway)
    → IsWired g.owner g.idle_timer g.grace_timer g.timers
    → IsValid (clear_takeover_state_locked g)
unfolding clear_takeover_state_locked
clear_takeover_state_locked-IsValid g w =
    let empty = armed-stop_both w in
    record {
      cleared = (refl, refl, refl, refl, refl, refl, refl, empty);
      wired = record { owned = rw empty tt; idle_below = tt; grace_below = tt };
    }

end_takeover-IsValid : (g : Gateway) → IsValid g → IsValid (end_takeover g).0
unfolding end_takeover release_all_locked
end_takeover-IsValid g v = clear_takeover_state_locked-IsValid (release_all_locked g).0 v.wired

-- With no timer armed the wiring fits any owner.
IsWired-of_empty :
    (owner owner' : String) (idle grace : Option ℕ) (ts : Timers)
    → ts.armed ≡ []
    → IsWired owner idle grace ts
    → IsWired owner' idle grace ts
IsWired-of_empty owner owner' idle grace ts e w = record {
  owned = rw e tt;
  idle_below = w.idle_below;
  grace_below = w.grace_below;
}

-- A connection may take over if it holds the takeover already, or nobody does.
IsWired-for :
    (g : Gateway) (m : Mode) (conn : String)
    → g.mode ≡ m
    → (is_takeover m && not (g.owner == conn)) ≡ false
    → IsCleared m g
    → IsWired g.owner g.idle_timer g.grace_timer g.timers
    → IsWired conn g.idle_timer g.grace_timer g.timers
IsWired-for g observe conn e h c w = IsWired-of_empty g.owner conn _ _ _ c.7 w
IsWired-for g takeover conn e h c w =
    let same : g.owner ≡ conn = (eq_iff g.owner conn).0 (ground arith) in rw same at w

request_takeover-IsValid :
    (g : Gateway) (conn : String) (now : ℕ) (token : Option String)
    → IsValid g
    → IsValid (request_takeover conn now token g).0
unfolding request_takeover
request_takeover-IsValid g conn now none v =
    if_cases (λ (r : Gateway × List Effect × Takeover). IsValid r.0)
      (is_takeover g.mode && not (g.owner == conn)) _ _ v v
request_takeover-IsValid g conn now (some t) v =
    if_cases_dep (λ (r : Gateway × List Effect × Takeover). IsValid r.0)
      (is_takeover g.mode && not (g.owner == conn)) _ _ (λ _. v)
      λ free. record {
        cleared = λ e. cc;
        wired =
            IsWired-stop_grace
              (IsWired-reset (IsWired-for g g.mode conn refl free v.cleared v.wired));
      }

IsValid-of_takeover :
    (g : Gateway)
    → g.mode ≡ takeover
    → g.idle_timer ≢ none
    → IsWired g.owner g.idle_timer g.grace_timer g.timers
    → IsValid g
IsValid-of_takeover g m i w = record { cleared = subst (λ k. IsCleared k g) (sym m) i; wired = w }

idle_timer_of_takeover : (g : Gateway) → g.mode ≡ takeover → IsValid g → g.idle_timer ≢ none
idle_timer_of_takeover g m v = subst (λ k. IsCleared k g) m v.cleared

pub mode_of_holds : (g : Gateway) (conn : String) → holds g conn ≡ true → g.mode ≡ takeover
unfolding holds
mode_of_holds g conn h = ground arith

pub owner_of_holds : (g : Gateway) (conn : String) → holds g conn ≡ true → g.owner ≡ conn
unfolding holds
owner_of_holds g conn h = (eq_iff g.owner conn).0 (ground arith)

renew-IsValid :
    (g : Gateway) (conn : String) (now : ℕ) (msg : InputMessage)
    → IsValid g
    → IsValid (renew conn now msg g).0
unfolding renew
renew-IsValid g conn now msg v =
    if_cases_dep (λ (r : Gateway × List Effect). IsValid r.0)
      (holds g conn && msg.lease == g.lease_token) _ _
      (λ h.
        IsValid-of_takeover _ (mode_of_holds g conn (ground arith)) (λ e. cc)
          (IsWired-reset v.wired))
      (λ _. v)

on_disconnect-IsValid : (g : Gateway) (conn : String) → IsValid g → IsValid (on_disconnect conn g)
unfolding on_disconnect
on_disconnect-IsValid g conn v =
    if_cases_dep IsValid (not (holds g conn) || is_some g.grace_timer) _ _ (λ _. v)
      λ h.
        let held : holds g conn ≡ true = ground arith in
        let none_yet : g.grace_timer ≡ none = ground arith in
        let m = mode_of_holds g conn held in
        IsValid-of_takeover _ m (idle_timer_of_takeover g m v) (
          rw (← owner_of_holds g conn held)
            (IsWired-start_grace g.owner g.idle_timer g.timers (rw none_yet at v.wired)))

on_reconnect-IsValid : (g : Gateway) (conn : String) → IsValid g → IsValid (on_reconnect conn g)
unfolding on_reconnect
on_reconnect-IsValid g conn v =
    if_cases_dep IsValid (not (holds g conn)) _ _ (λ _. v)
      λ h.
        let m = mode_of_holds g conn (ground arith) in
        IsValid-of_takeover _ m (idle_timer_of_takeover g m v) (IsWired-stop_grace v.wired)

-- Only the timers differ, and none is armed that was not.
IsValid-timers :
    (g : Gateway) (m : Mode) (ts : Timers)
    → IsCleared m g
    → (g.timers.armed ≡ [] → ts.armed ≡ [])
    → IsCleared m (record g { timers = ts })
IsValid-timers g observe ts c f = (c.0, c.1, c.2, c.3, c.4, c.5, c.6, f c.7)
IsValid-timers g takeover ts c f = c

armed-run_out : (k : ℕ) (ts : Timers) → ts.armed ≡ [] → (run_out k ts).armed ≡ []
unfolding run_out
armed-run_out k ts e = eq_nil_of_All {P = λ t. ⊥} _ (λ t h. h) (All-run_out (λ t. ⊥) k ts (rw e tt))

run_out-IsValid :
    (g : Gateway) (k : ℕ) → IsValid g → IsValid (record g { timers = run_out k g.timers })
run_out-IsValid g k v = record {
  cleared = IsValid-timers g g.mode (run_out k g.timers) v.cleared (armed-run_out k g.timers);
  wired = IsWired-run_out v.wired k;
}

timer_callback-IsValid :
    (g : Gateway) (owner : String) → IsValid g → IsValid (timer_callback owner g).0
unfolding timer_callback
timer_callback-IsValid g owner v =
    if_cases (λ (r : Gateway × List Effect). IsValid r.0) (holds g owner) _ _
      (end_takeover-IsValid g v) v

call_back-IsValid : (g : Gateway) (k : ℕ) → IsValid g → IsValid (call_back k g)
unfolding call_back
call_back-IsValid g k v = elim (Option-cases (find_firing k g.timers.firing)) [
  | inl e ↦ rw (e, call_back) v
  | inr (t, e) ↦
      rw (e, call_back)
        (timer_callback-IsValid (without_firing k g) t.owner (record {
          cleared = IsValid-timers g g.mode _ v.cleared (λ e. e);
          wired = record {
            owned = v.wired.owned;
            idle_below = v.wired.idle_below;
            grace_below = v.wired.grace_below;
          };
        }))
]

release_takeover-IsValid :
    (g : Gateway) (conn : String) → IsValid g → IsValid (release_takeover conn g).0
unfolding release_takeover
release_takeover-IsValid g conn v =
    if_cases (λ (r : Gateway × List Effect × Bool). IsValid r.0) (not (is_takeover g.mode)) _ _ v
      (if_cases (λ (r : Gateway × List Effect × Bool). IsValid r.0) (not (g.owner == conn)) _ _ v
        (end_takeover-IsValid g v))

pub step-IsValid : (e : Event) (g : Gateway) → IsValid g → IsValid (step e g)
unfolding step
step-IsValid (requests conn now token) g v = request_takeover-IsValid g conn now token v
step-IsValid (releases conn) g v = release_takeover-IsValid g conn v
step-IsValid (renews conn now msg) g v = renew-IsValid g conn now msg v
step-IsValid (disconnects conn) g v = on_disconnect-IsValid g conn v
step-IsValid (reconnects conn) g v = on_reconnect-IsValid g conn v
step-IsValid (runs_out k) g v = run_out-IsValid g k v
step-IsValid (calls_back k) g v = call_back-IsValid g k v

-- From a valid gateway every sequence of steps of connections, timers and the runtime leads to a valid
-- one: in OBSERVE mode no owner, lease, pressed input or armed timer is left, a takeover has an idle
-- timer, and each armed timer is the gateway's idle or grace timer and was set for the owner.
pub run-IsValid : (es : List Event) (g : Gateway) → IsValid g → IsValid (run es g)
unfolding run
run-IsValid [] g v = v
run-IsValid (e ∷ es) g v = run-IsValid es (step e g) (step-IsValid e g v)

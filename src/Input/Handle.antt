-- ===== src/Input/Handle.antt =====
-- `HandleInput` of browser/input_gateway.go. It takes the mutex three times; between these sections
-- other goroutines may run, and what they do to the gateway is an argument.
use text.Mathlib.Text.{find?}
use deepwork_browser.Prelude.{
  ℕ, ◌+◌, ◌-◌, String, Bool, not, ◌&&◌, ◌||◌, List, [], ◌∷◌, ◌++◌, Option, none, some, ltb,
  if◌then◌else◌, is_some, ◌==◌,
}
use deepwork_browser.Input.Event.{
  InputEvent, InputMessage, Status, InputAck, accepted, rejected, error,
}
use deepwork_browser.Input.Gateway.{
  Gateway, Effect, notified, dispatched, on_accepted, recorded, is_takeover, holds,
  reset_idle_timer_locked, track_input_state_locked,
}

abbrev pub ack : InputMessage → Status → String → InputAck
ack msg s reason = record { seq = msg.seq; status = s; reason = reason }

-- The first section: the reason of the rejection, if there is one.
unfoldable pub refusal : String → ℕ → InputMessage → Gateway → Option String
refusal conn now msg g =
    if not (is_takeover g.mode)
    then some "not in takeover mode"
    else if not (g.owner == conn)
    then some "not the current owner"
    else if not (msg.lease == g.lease_token)
    then some "invalid lease token"
    else if ltb g.lease_expiry now
    then some "lease expired"
    else none

-- The second section, under the lock on the browser's input.
unfoldable pub still_authorized : String → ℕ → InputMessage → Gateway → Bool
unfolding holds
still_authorized conn now msg g =
    holds g conn && msg.lease == g.lease_token && not (ltb g.lease_expiry now)

-- An error of a dispatch: its text, and whether `errors.Is` finds `context.Canceled` in it.
pub record DispatchError : Type 0 where
  pub message : String
  pub is_canceled : Bool

pub is_canceled_context_err : DispatchError → Bool
is_canceled_context_err e = e.is_canceled || is_some (find? e.message "context canceled")

abbrev pub is_dispatchable : InputEvent → Bool
is_dispatchable e = e.type == "mouse" || e.type == "keyboard" || e.type == "touch"

-- What the code outside the mutex answers, and what happens meanwhile.
pub record Surroundings : Type 0 where
  pub first_now : ℕ
  pub second_now : ℕ
  pub third_now : ℕ
  pub before_lock : Gateway → Gateway
  pub during_dispatch : Gateway → Gateway
  pub lock_error : Option String
  pub first_try : Option DispatchError
  pub can_retry : Bool
  pub second_try : Option DispatchError
  pub is_recording : Bool

-- The attempts to dispatch, and the error of the last one.
unfoldable pub attempt : Surroundings → InputEvent → List Effect × Option DispatchError
unfolding is_canceled_context_err
attempt w e = if not (is_dispatchable e) then ([], none) else elim w.first_try [
  | none ↦ (dispatched e ∷ [], none)
  | some err ↦
      if is_canceled_context_err err && w.can_retry
      then (dispatched e ∷ dispatched e ∷ [], w.second_try)
      else (dispatched e ∷ [], some err)
]

abbrev pub second : ℕ
second = 1_000_000_000

-- The third section: the lease is renewed and the event tracked, if it is still this lease.
unfoldable pub renew : String → ℕ → InputMessage → Gateway → Gateway × List Effect
unfolding holds reset_idle_timer_locked track_input_state_locked
renew conn now msg g =
    if holds g conn && msg.lease == g.lease_token
    then (
      track_input_state_locked msg.event
          (reset_idle_timer_locked (record g { lease_expiry = now + g.idle_timeout })),
      (if ltb second (now + g.idle_timeout - g.lease_expiry) then notified ∷ [] else [])
          ++ (if g.has_on_accepted then on_accepted msg.event ∷ [] else []),
    )
    else (g, [])

abbrev recording_tap : Bool → InputEvent → List Effect
recording_tap active e =
    if active && (e.type == "mouse" || e.type == "keyboard") then recorded e ∷ [] else []

abbrev finish :
    Surroundings
    → String
    → InputMessage
    → Gateway
    → List Effect
    → Option DispatchError
    → Gateway × List Effect × InputAck
finish w conn msg g sent (some e) = (w.during_dispatch g, sent, ack msg error e.message)
finish w conn msg g sent none =
    let (g', more) = renew conn w.third_now msg (w.during_dispatch g) in
    (g', sent ++ more ++ recording_tap w.is_recording msg.event, ack msg accepted "")

unfoldable pub handle_input :
    Surroundings → String → InputMessage → Gateway → Gateway × List Effect × InputAck
handle_input w conn msg g = elim (refusal conn w.first_now msg g) [
  | some reason ↦ (g, [], ack msg rejected reason)
  | none ↦ elim w.lock_error [
    | some reason ↦ (w.before_lock g, [], ack msg error reason)
    | none ↦
        if not (still_authorized conn w.second_now msg (w.before_lock g))
        then (
          w.before_lock g,
          [],
          ack msg rejected "lease changed while waiting for runtime input lock",
        )
        else (let (sent, failure) = attempt w msg.event in
            finish w conn msg (w.before_lock g) sent failure)
  ]
]

-- ===== src/Input/Tests.antt =====
-- Runs of the input gateway at concrete inputs, and its theorems at inputs that meet their hypotheses.
use deepwork_browser.Prelude.{
  ◌≡◌, refl, ◌⊎◌, inl, true, false, none, some, [], ◌∷◌, arith, lookup, eq_iff,
}
use deepwork_browser.Input.Event.{InputEvent, InputMessage, zero_event, accepted}
use deepwork_browser.Input.Timers.{find_armed}
use deepwork_browser.Input.Gateway.{
  Gateway, observe, takeover, new_gateway, holds, request_takeover, release_takeover, PressedKey,
  key_up as key_up_event,
}
use deepwork_browser.Input.Handle.{
  Surroundings, handle_input, refusal, still_authorized, attempt, renew, is_dispatchable,
}
use deepwork_browser.Input.Step.{
  requests, releases, renews, disconnects, reconnects, runs_out, calls_back, step, run,
}
use deepwork_browser.Input.Invariant.{IsValid, run-IsValid, new_gateway-IsValid}
use deepwork_browser.Input.Ownership.{Keeps, Ends, step-Keeps}
use deepwork_browser.Input.Admission.{
  IsAuthorized, dispatches, handle_input-IsAuthorized, handle_input-accepted,
}
use deepwork_browser.Input.Pressed.{track_all, last_word, says_of_key, lookup-track_all}
use deepwork_browser.Input.Dispatch.{Command, key_event, key_up}
use deepwork_browser.Input.Races.{grace_race, idle_race}

-- Connection "a" holds the takeover since time 100; its idle timer is armed.
abbrev held : Gateway
held = record new_gateway {
  mode = takeover;
  owner = "a";
  lease_token = "t1";
  lease_expiry = 300_000_000_100;
  idle_timer = some 0;
  timers = record { next_id = 1; armed = record { id = 0; owner = "a" } ∷ []; firing = [] };
}

abbrev press_a : InputEvent
press_a = record zero_event { type = "keyboard"; event = "keyDown"; key = "A"; code = "KeyA" }

abbrev release_a : InputEvent
release_a = record press_a { event = "keyUp" }

abbrev click_left : InputEvent
click_left = record zero_event {
  type = "mouse";
  event = "mousePressed";
  button = "left";
  x = 3;
  y = 4;
}

abbrev message : InputMessage
message = record { seq = 7; lease = "t1"; event = press_a }

-- Nothing happens meanwhile, and the dispatch succeeds.
abbrev calm : Surroundings
calm = record {
  first_now = 200;
  second_now = 201;
  third_now = 205;
  before_lock = λ g. g;
  during_dispatch = λ g. g;
  lock_error = none;
  first_try = none;
  can_retry = true;
  second_try = none;
  is_recording = false;
}

-- The owner releases the takeover while the message waits for the browser's input lock.
abbrev released_meanwhile : Surroundings
released_meanwhile = record calm { before_lock = λ g. new_gateway }

held-IsValid : IsValid held
held-IsValid = record {
  cleared = λ e. cc;
  wired = record {
    owned = ((refl, inl refl, omega arith), tt);
    idle_below = omega arith;
    grace_below = tt;
  };
}

held_by_a : holds held "a" ≡ true
unfolding holds
held_by_a = refl

run_of_requests :
    ((run (requests "a" 100 (some "t1") ∷ []) new_gateway).lease_expiry ≡ 300_000_000_100)
    × ((run (requests "a" 100 (some "t1") ∷ requests "b" 150 (some "t2") ∷ []) new_gateway).owner
        ≡ "a")
    × ((run
          (requests "a" 100 (some "t1") ∷ releases "a" ∷ requests "b" 150 (some "t2") ∷ [])
          new_gateway).owner
        ≡ "b")
unfolding run step request_takeover release_takeover
run_of_requests = (refl, refl, refl)

-- The operations that the tests run.
handling : Unit {0}
unfolding handle_input refusal still_authorized attempt renew
handling = tt

answers :
    ((handle_input calm "a" message held).2.status ≡ accepted)
    × ((handle_input calm "b" message held).2.reason ≡ "not the current owner")
    × ((handle_input released_meanwhile "a" message held).2.reason
        ≡ "lease changed while waiting for runtime input lock")
    × ((handle_input (record calm { first_now = 300_000_000_101 }) "a" message held).2.reason
        ≡ "lease expired")
unfolding handling
answers = (refl, refl, refl, refl)

run-IsValid_example : IsValid (run (requests "a" 100 (some "t1") ∷ releases "b" ∷ []) new_gateway)
run-IsValid_example =
    run-IsValid (requests "a" 100 (some "t1") ∷ releases "b" ∷ []) new_gateway new_gateway-IsValid

step-Keeps_example :
    Keeps "a" (requests "b" 150 (some "t2")) held (step (requests "b" 150 (some "t2")) held)
    ⊎ Ends "a" (requests "b" 150 (some "t2")) held
step-Keeps_example = step-Keeps (requests "b" 150 (some "t2")) held "a" held_by_a

handle_input-IsAuthorized_example :
    IsAuthorized "a" 200 message held × IsAuthorized "a" 201 message held
unfolding handling
handle_input-IsAuthorized_example = handle_input-IsAuthorized calm "a" message held refl

handle_input-accepted_example :
    is_dispatchable press_a ≡ dispatches (handle_input calm "a" message held).1
unfolding handling
handle_input-accepted_example = (handle_input-accepted calm "a" message held refl).0

lookup-track_all_example :
    lookup "KeyA" (track_all (press_a ∷ release_a ∷ press_a ∷ []) [])
    ≡ last_word (says_of_key "KeyA") none (press_a ∷ release_a ∷ press_a ∷ [])
unfolding lookup
lookup-track_all_example =
    lookup-track_all "KeyA" (press_a ∷ release_a ∷ press_a ∷ []) []
      (ground (arith, eq_iff "KeyA" ""))

abbrev key_a : PressedKey
key_a = record { key = "A"; code = "KeyA" }

abbrev pressing : Gateway
pressing = record held { pressed_keys = ("KeyA", key_a) ∷ []; pressed_btns = [] }

-- The end of a takeover with the key "A" down.
abbrev key_a_up : Command
key_a_up = key_event key_up "A" "KeyA" "" 0 (some 65)

grace_race_example :
    (run (disconnects "a" ∷ runs_out 1 ∷ reconnects "a" ∷ calls_back 1 ∷ []) held).mode ≡ observe
grace_race_example = grace_race held "a" held_by_a refl

idle_race_example :
    (run (runs_out 0 ∷ renews "a" 205 message ∷ calls_back 0 ∷ []) held).mode ≡ observe
unfolding find_armed
idle_race_example =
    (idle_race held "a" 205 0 message (record { id = 0; owner = "a" }) held-IsValid held_by_a refl
      refl).1

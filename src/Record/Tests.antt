-- ===== src/Record/Tests.antt =====
-- Runs of the recorder at concrete inputs, and its theorems at inputs that meet their hypotheses.
use Prim.Native.String.{◌++◌ as append}
use deepwork_browser.Prelude.{ℕ, ◌≡◌, refl, map, String, true, false, List, [], ◌∷◌}
use deepwork_browser.Input.Event.{InputEvent, zero_event}
use deepwork_browser.Record.{
  RecordBuffer, new_record_buffer, start, stop, append_mouse_event, append_key_event,
  is_printable_key,
}
use deepwork_browser.Record.Order.{Call, starts, key_events, apply, apply_all}
use deepwork_browser.Record.Typing.{typed_text, typed_text-append_key_event}

abbrev press : String → InputEvent
press key = record zero_event { type = "keyboard"; event = "keyDown"; key = key }

abbrev ms : ℕ
ms = 1_000_000

-- Two keys within two seconds, a third later, and Enter.
abbrev history : List (ℕ × Call)
history =
    (0, starts "d" "u")
    ∷ (10, key_events (press "h"))
    ∷ (20, key_events (press "i"))
    ∷ (2_000_000_000, key_events (press "!"))
    ∷ (2_000_000_001, key_events (press "Enter"))
    ∷ []

-- The operations that the tests run.
running : Unit {0}
unfolding apply_all apply start stop append_mouse_event append_key_event
running = tt

recorded_steps :
    map {B = ℕ × String × String}
      (λ s. (s.seq, s.text, s.key))
      (apply_all history new_record_buffer).trace.steps
    ≡ (1, "hi", "") ∷ (2, "!", "") ∷ (3, "", "Enter") ∷ []
unfolding running
recorded_steps = refl

-- The comment on `isPrintableKey` says that white space is left out; the space is let in.
space_is_printable : (is_printable_key " " ≡ true) × (is_printable_key "Enter" ≡ false)
unfolding is_printable_key
space_is_printable = (refl, refl)

abbrev recording_now : RecordBuffer
recording_now = record new_record_buffer { recording = true }

typed_text-append_key_event_example :
    typed_text (append_key_event (press "h") 10 recording_now).trace.steps ≡ append "" "h"
unfolding is_printable_key
typed_text-append_key_event_example = typed_text-append_key_event (press "h") 10 recording_now

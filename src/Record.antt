-- ===== src/Record.antt =====
-- The recorder: browser/record_buffer.go. Times are nanoseconds since the epoch.
pub mod Order
pub mod Typing
mod Tests
use Prim.Native.Char.{code}
use Prim.Native.String.{◌++◌ as append}
use deepwork_browser.Prelude.{
  ℕ, suc, ◌-◌, ◌/◌, String, Bool, true, false, not, ◌&&◌, List, [], ◌∷◌, Option, none, some, leb,
  ltb, nat_eq, if◌then◌else◌, ◌==◌,
}
use deepwork_browser.Prelude.{◌++◌ as concat}
use deepwork_browser.Input.Event.{Word, InputEvent}

pub data Action : Type 0 where
  click typed keypress : Action

-- A `RecordStep`; its `Target` is never set.
pub record RecordStep : Type 0 where
  pub seq : ℕ
  pub action : Action
  pub text : String
  pub key : String
  pub coordinates : Option (Word × Word)
  pub timestamp_ms : ℕ
  pub snapshot_before : String

pub record RecordTrace : Type 0 where
  pub domain : String
  pub start_url : String
  pub start_time : ℕ
  pub duration_ms : ℕ
  pub steps : List RecordStep

abbrev pub zero_trace : RecordTrace
zero_trace = record { domain = ""; start_url = ""; start_time = 0; duration_ms = 0; steps = [] }

pub record RecordBuffer : Type 0 where
  pub recording : Bool
  pub trace : RecordTrace
  pub start_time : ℕ
  pub seq : ℕ
  pub snapshot_fn : Option (Word → Word → String)

abbrev pub new_record_buffer : RecordBuffer
new_record_buffer = record {
  recording = false;
  trace = zero_trace;
  start_time = 0;
  seq = 0;
  snapshot_fn = none;
}

abbrev pub unix_milli : ℕ → ℕ
unix_milli now = now / 1_000_000

unfoldable pub start : String → String → ℕ → RecordBuffer → RecordBuffer
start domain url now rb = record rb {
  recording = true;
  start_time = now;
  seq = 0;
  trace = record {
    domain = domain;
    start_url = url;
    start_time = now;
    duration_ms = 0;
    steps = [];
  };
}

-- The trace that is returned is a copy; values are copied here anyway.
unfoldable pub stop : ℕ → RecordBuffer → RecordBuffer × RecordTrace
stop now rb =
    if not rb.recording
    then (rb, zero_trace)
    else (let trace = record (rb.trace) { duration_ms = (now - rb.start_time) / 1_000_000 } in
        (record rb { recording = false; trace = trace }, trace))

abbrev blank_step : RecordStep
blank_step = record {
  seq = 0;
  action = click;
  text = "";
  key = "";
  coordinates = none;
  timestamp_ms = 0;
  snapshot_before = "";
}

abbrev snapshot_of : Option (Word → Word → String) → Word → Word → String
snapshot_of none x y = ""
snapshot_of (some f) x y = f x y

unfoldable pub push_step : RecordStep → RecordBuffer → RecordBuffer
push_step s rb = record rb {
  seq = suc rb.seq;
  trace = record (rb.trace) { steps = concat rb.trace.steps (record s { seq = suc rb.seq } ∷ []) };
}

abbrev pub click_step : InputEvent → ℕ → RecordBuffer → RecordStep
click_step e now rb = record blank_step {
  coordinates = some (e.x, e.y);
  timestamp_ms = unix_milli now;
  snapshot_before = snapshot_of rb.snapshot_fn e.x e.y;
}

abbrev pub typed_step : String → ℕ → RecordStep
typed_step key now = record blank_step { action = typed; text = key; timestamp_ms = unix_milli now }

abbrev pub keypress_step : String → ℕ → RecordStep
keypress_step key now = record blank_step {
  action = keypress;
  key = key;
  timestamp_ms = unix_milli now;
}

unfoldable pub append_mouse_event : InputEvent → ℕ → RecordBuffer → RecordBuffer
unfolding push_step
append_mouse_event e now rb =
    if not rb.recording
    then rb
    else if not (e.event == "mousePressed")
    then rb
    else push_step (click_step e now rb) rb

-- A key of one character, not U+FFFD, from the space on and not DEL.
unfoldable pub is_printable_key : String → Bool
is_printable_key (String.◌∷◌ c String.[]) =
    not (nat_eq (code c) 0xFFFD) && leb 0x20 (code c) && not (nat_eq (code c) 0x7F)
is_printable_key _ = false

abbrev is_typed : Action → Bool
is_typed typed = true
is_typed _ = false

-- The last step takes the key if it is a "type" step less than two seconds old.
unfoldable pub merge : String → ℕ → List RecordStep → Option (List RecordStep)
merge key now [] = none
merge key now (s ∷ []) =
    if is_typed s.action && ltb (unix_milli now - s.timestamp_ms) 2000
    then some (record s { text = append s.text key } ∷ [])
    else none
merge key now (s ∷ t ∷ more) = elim (merge key now (t ∷ more)) [
  | none ↦ none
  | some steps ↦ some (s ∷ steps)
]

unfoldable pub append_printable : String → ℕ → RecordBuffer → RecordBuffer
unfolding push_step merge
append_printable key now rb = elim (merge key now rb.trace.steps) [
  | some steps ↦ record rb { trace = record (rb.trace) { steps = steps } }
  | none ↦ push_step (typed_step key now) rb
]

unfoldable pub append_key_event : InputEvent → ℕ → RecordBuffer → RecordBuffer
unfolding push_step is_printable_key append_printable
append_key_event e now rb =
    if not rb.recording
    then rb
    else if not (e.event == "keyDown")
    then rb
    else if is_printable_key e.key
    then append_printable e.key now rb
    else push_step (keypress_step e.key now) rb

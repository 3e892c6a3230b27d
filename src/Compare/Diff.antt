-- ===== src/Compare/Diff.antt =====
-- `ComputeDiff` of browser/testing/diff.go. A set of lines, a Go map, is a list in which each line is
-- once; its order is left open by Go. Texts are read as bytes. The text of an observation is the one
-- that `semanticStructuralText` gives; an entry that is only passed on keeps no further fields.
use deepwork_browser.Prelude.{
  ℕ, ◌-◌, String, Bool, true, false, not, ◌&&◌, ◌||◌, List, [], ◌∷◌, ◌++◌, Option, none, some,
  if◌then◌else◌, any, keep, ltb, nat_eq, ◌==◌, Text, text_eq,
}

pub record ConsoleEntry : Type 0 where
  pub level : String
  pub text : String
  pub source : String

-- `status_code` is only compared.
pub record NetworkEntry : Type 0 where
  pub url : String
  pub method : String
  pub status_code : ℕ
  pub error : String

pub record TelemetryState : Type 0 where
  pub console_errors : List ConsoleEntry
  pub network_failures : List NetworkEntry

pub record BehaviorState : Type 0 where
  pub tab_count : ℕ
  pub active_tab_id : String
  pub latency_ms : ℕ

pub record StructuralState : Type 0 where
  pub text : Text
  pub refs_count : ℕ

-- The status of a channel that an observation does not have is empty.
pub record Observation : Type 0 where
  pub url : String
  pub channels : String → String
  pub behavior : Option BehaviorState
  pub structural : Option StructuralState
  pub telemetry : Option TelemetryState

abbrev pub has_line : Text → List Text → Bool
has_line line set = any (text_eq line) set

abbrev pub is_empty : Text → Bool
is_empty [] = true
is_empty (c ∷ t) = false

unfoldable pub set_line : Text → List Text → List Text
set_line line set = if is_empty line || has_line line set then set else line ∷ set

-- `line` has the bytes since the last end of a line.
unfoldable pub lines_from : Text → Text → List Text
unfolding set_line
lines_from line [] = set_line line []
lines_from line (c ∷ s) =
    let ended = lines_from [] s in
    let longer = lines_from (line ++ c ∷ []) s in
    if nat_eq c 10 then set_line line ended else longer

unfoldable pub to_line_set : Text → List Text
unfolding lines_from
to_line_set s = lines_from [] s

abbrev pub without : List Text → List Text → List Text
without set other = keep (λ line. not (has_line line other)) set

-- What is added, and what is removed.
unfoldable pub text_diff : Text → Text → List Text × List Text
unfolding to_line_set
text_diff before after = (
  without (to_line_set after) (to_line_set before),
  without (to_line_set before) (to_line_set after),
)

abbrev pub same_console : ConsoleEntry → ConsoleEntry → Bool
same_console target e =
    e.level == target.level && e.text == target.text && e.source == target.source

abbrev pub same_network : NetworkEntry → NetworkEntry → Bool
same_network target e =
    e.url == target.url
    && e.method == target.method
    && nat_eq e.status_code target.status_code
    && e.error == target.error

pub record TelemetryDiff : Type 0 where
  pub new_console_errors : List ConsoleEntry
  pub new_network_failures : List NetworkEntry

unfoldable pub compute_telemetry_diff :
    Option TelemetryState → Option TelemetryState → TelemetryDiff
compute_telemetry_diff before none = record { new_console_errors = []; new_network_failures = [] }
compute_telemetry_diff none (some a) = record {
  new_console_errors = a.console_errors;
  new_network_failures = a.network_failures;
}
compute_telemetry_diff (some b) (some a) = record {
  new_console_errors = keep (λ e. not (any (same_console e) b.console_errors)) a.console_errors;
  new_network_failures =
      keep (λ e. not (any (same_network e) b.network_failures)) a.network_failures;
}

pub record Diff : Type 0 where
  pub channels : String → String
  pub before_url : String
  pub after_url : String
  pub url_changed : Bool
  pub before_count : ℕ
  pub after_count : ℕ
  pub active_changed : Bool
  pub added_text : List Text
  pub removed_text : List Text
  pub added_refs : ℕ
  pub removed_refs : ℕ
  pub telemetry : TelemetryDiff
  pub latency_ms : ℕ

-- What an observation that is nil or lacks a part counts as.
abbrev no_behavior : BehaviorState
no_behavior = record { tab_count = 0; active_tab_id = ""; latency_ms = 0 }

abbrev no_structural : StructuralState
no_structural = record { text = []; refs_count = 0 }

abbrev pub behavior_of : Option Observation → BehaviorState
behavior_of none = no_behavior
behavior_of (some o) = elim o.behavior [ none ↦ no_behavior | some b ↦ b ]

abbrev pub structural_of : Option Observation → StructuralState
structural_of none = no_structural
structural_of (some o) = elim o.structural [ none ↦ no_structural | some s ↦ s ]

abbrev pub telemetry_of : Option Observation → Option TelemetryState
telemetry_of none = none
telemetry_of (some o) = o.telemetry

abbrev pub url_of : Option Observation → String
url_of none = ""
url_of (some o) = o.url

abbrev was_captured : Option Observation → String → Bool
was_captured none name = false
was_captured (some o) name = o.channels name == "captured"

abbrev channel_names : List String
channel_names = "structural" ∷ "behavior" ∷ "console" ∷ "network" ∷ []

abbrev channel_status : Option Observation → Option Observation → String → String
channel_status before after name =
    if not (any (λ n. n == name) channel_names)
    then ""
    else if was_captured before name && was_captured after name
    then "captured"
    else "unavailable"

unfoldable pub compute_diff : Option Observation → Option Observation → Diff
unfolding text_diff compute_telemetry_diff
compute_diff before after =
    let text = text_diff (structural_of before).text (structural_of after).text in
    let before_refs = (structural_of before).refs_count in
    let after_refs = (structural_of after).refs_count in
    record {
      channels = channel_status before after;
      before_url = url_of before;
      after_url = url_of after;
      url_changed = not (url_of before == url_of after);
      before_count = (behavior_of before).tab_count;
      after_count = (behavior_of after).tab_count;
      active_changed =
          not ((behavior_of before).active_tab_id == (behavior_of after).active_tab_id);
      added_text = text.0;
      removed_text = text.1;
      added_refs = if ltb before_refs after_refs then after_refs - before_refs else 0;
      removed_refs = if ltb after_refs before_refs then before_refs - after_refs else 0;
      telemetry = compute_telemetry_diff (telemetry_of before) (telemetry_of after);
      latency_ms = (behavior_of after).latency_ms;
    }

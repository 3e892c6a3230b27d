-- ===== src/Compare/Tests.antt =====
-- The theorems of Compare at concrete observations.
use deepwork_browser.Prelude.{not, ◌&&◌, [], ◌∷◌, some, Text, ◌≡◌, refl}
use deepwork_browser.Compare.Diff.{Observation, has_line, text_diff}
use deepwork_browser.Compare.Lines.{is_line_of, has_line-text_diff}

abbrev old_text : Text
old_text = 97 ∷ 98 ∷ 10 ∷ 10 ∷ 98 ∷ 99 ∷ []

abbrev new_text : Text
new_text = 98 ∷ 99 ∷ 10 ∷ 100 ∷ 10 ∷ []

text_diff-lines : text_diff old_text new_text ≡ ((100 ∷ []) ∷ [], (97 ∷ 98 ∷ []) ∷ [])
unfolding text_diff
text_diff-lines = refl

has_line-text_diff_example :
    (has_line (98 ∷ 99 ∷ []) (text_diff old_text new_text).0
      ≡ (is_line_of (98 ∷ 99 ∷ []) new_text && not (is_line_of (98 ∷ 99 ∷ []) old_text)))
    × (has_line (98 ∷ 99 ∷ []) (text_diff old_text new_text).1
        ≡ (is_line_of (98 ∷ 99 ∷ []) old_text && not (is_line_of (98 ∷ 99 ∷ []) new_text)))
has_line-text_diff_example = has_line-text_diff old_text new_text (98 ∷ 99 ∷ [])

abbrev observation : Observation
observation = record {
  url = "https://a/";
  channels = λ _. "captured";
  behavior = some (record { tab_count = 2; active_tab_id = "t"; latency_ms = 5 });
  structural = some (record { text = old_text; refs_count = 3 });
  telemetry = some (record {
    console_errors = (record { level = "error"; text = "x"; source = "s" }) ∷ [];
    network_failures = [];
  });
}

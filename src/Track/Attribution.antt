-- ===== src/Track/Attribution.antt =====
-- Who opened a target: the opener, a `Page.windowOpen` with a user gesture, or an input that was just
-- dispatched. browser/target_tracker.go.
use deepwork_browser.Prelude.{
  ℕ, zero, suc, ◌-◌, String, Bool, true, false, not, ◌&&◌, ◌||◌, List, [], ◌∷◌, ◌++◌, Option, none,
  some, if◌then◌else◌, leb, ◌==◌, length, drop, keep,
}
use deepwork_browser.Input.Event.{InputEvent}
use deepwork_browser.Track.State.{
  Tracker, TargetInfo, GestureClaim, WindowOpenHint, is_blank, current_source_target_locked,
}

-- Nanoseconds.
abbrev pub target_claim_window : ℕ
target_claim_window = 2_000_000_000

abbrev pub target_window_open_hint_ttl : ℕ
target_window_open_hint_ttl = 2_000_000_000

abbrev pub target_max_attribution_hints : ℕ
target_max_attribution_hints = 8

unfoldable pub should_arm_target_claim : InputEvent → Bool
should_arm_target_claim e =
    if e.type == "mouse"
    then (e.event == "mousePressed" || e.event == "mouseReleased")
      && (e.button == "left" || e.button == "middle")
    else if e.type == "touch"
    then e.event == "touchStart" || e.event == "touchEnd"
    else if e.type == "keyboard"
    then (e.event == "keyDown" || e.event == "char")
      && (e.key == "Enter" || e.code == "Enter" || e.code == "NumpadEnter")
    else false

abbrev pub claim_is_fresh : ℕ → GestureClaim → Bool
claim_is_fresh now c = leb (now - c.created) target_claim_window

abbrev pub hint_is_fresh : ℕ → WindowOpenHint → Bool
hint_is_fresh now h = leb (now - h.created) target_window_open_hint_ttl

unfoldable pub prune_attribution_locked : ℕ → Tracker → Tracker
prune_attribution_locked now tk = record tk {
  gesture_claims = keep (claim_is_fresh now) tk.gesture_claims;
  window_hints = keep (hint_is_fresh now) tk.window_hints;
}

module _ {ℓ} {A : Type ℓ} where
  unfoldable pub trim_hint_queue : List A → List A
  trim_hint_queue items =
      if leb (length items) target_max_attribution_hints
      then items
      else drop (length items - target_max_attribution_hints) items

  -- The place of the first entry that passes the test.
  unfoldable pub find_index : (A → Bool) → List A → Option ℕ
  find_index p [] = none
  find_index p (x ∷ xs) =
      if p x then some 0 else elim (find_index p xs) [ none ↦ none | some i ↦ some (suc i) ]

  unfoldable pub remove_at : ℕ → List A → List A
  remove_at i [] = []
  remove_at zero (x ∷ xs) = xs
  remove_at (suc i) (x ∷ xs) = x ∷ remove_at i xs

abbrev or_else : Option ℕ → Option ℕ → Option ℕ
or_else none o = o
or_else (some i) o = some i

abbrev or_first : Option ℕ → ℕ
or_first none = 0
or_first (some i) = i

unfoldable pub opener_matches_current_source_locked : TargetInfo → Tracker → Bool
unfolding current_source_target_locked
opener_matches_current_source_locked info tk =
    if not (info.type == "page") || info.opener_id == ""
    then false
    else not (current_source_target_locked tk == "")
      && info.opener_id == current_source_target_locked tk

-- The hint that a target takes: one with its URL, else one from the current source, else the oldest.
unfoldable pub hint_index : TargetInfo → Tracker → ℕ
unfolding find_index current_source_target_locked
hint_index info tk =
    let source = current_source_target_locked tk in
    let by_url =
      if is_blank info.url
      then none
      else find_index (λ h. not (is_blank h.url) && h.url == info.url) tk.window_hints in
    let by_source =
      if source == "" then none else find_index (λ h. h.source_id == source) tk.window_hints in
    or_first (or_else by_url by_source)

abbrev pub no_entries {ℓ} : {A : Type ℓ} → List A → Bool
no_entries [] = true
no_entries (x ∷ xs) = false

unfoldable pub consume_window_open_hint_locked : ℕ → TargetInfo → Tracker → Tracker × Bool
unfolding prune_attribution_locked hint_index remove_at
consume_window_open_hint_locked now info tk =
    let pruned = prune_attribution_locked now tk in
    if not (info.type == "page") || not (info.opener_id == "") || no_entries pruned.window_hints
    then (pruned, false)
    else (
      record pruned { window_hints = remove_at (hint_index info pruned) pruned.window_hints },
      true,
    )

unfoldable pub consume_gesture_claim_locked : ℕ → TargetInfo → Tracker → Tracker × Bool
unfolding prune_attribution_locked find_index remove_at current_source_target_locked
consume_gesture_claim_locked now info tk =
    let pruned = prune_attribution_locked now tk in
    let source = current_source_target_locked pruned in
    if not (info.type == "page") || not (info.opener_id == "") || no_entries pruned.gesture_claims
    then (pruned, false)
    else elim (find_index (λ c. source == "" || c.source_id == source) pruned.gesture_claims) [
      | none ↦ (pruned, false)
      | some i ↦ (record pruned { gesture_claims = remove_at i pruned.gesture_claims }, true)
    ]

-- The evidence that a new target is the user's.
pub data Evidence : Type 0 where
  unclaimed by_opener by_window_open by_gesture : Evidence

abbrev pub is_claimed : Evidence → Bool
is_claimed unclaimed = false
is_claimed _ = true

-- The three tests that a new target goes through, each only if those before fail.
unfoldable pub attribute : ℕ → TargetInfo → Tracker → Tracker × Evidence
unfolding opener_matches_current_source_locked consume_window_open_hint_locked
    consume_gesture_claim_locked
attribute now info tk =
    if opener_matches_current_source_locked info tk
    then (tk, by_opener)
    else (let (tt1, opened) = consume_window_open_hint_locked now info tk in
        if opened
        then (tt1, by_window_open)
        else (let (tt2, gestured) = consume_gesture_claim_locked now info tt1 in
            if gestured then (tt2, by_gesture) else (tt2, unclaimed)))

-- `Page.windowOpen`; `source_id` is empty where the page is not known.
unfoldable pub record_window_open_hint : ℕ → String → String → String → Bool → Tracker → Tracker
unfolding prune_attribution_locked trim_hint_queue current_source_target_locked
record_window_open_hint now source_id url window_name user_gesture tk =
    let source = if source_id == "" then current_source_target_locked tk else source_id in
    let hint : WindowOpenHint = record {
      source_id = source;
      url = url;
      window_name = window_name;
      created = now;
    } in
    let pruned = prune_attribution_locked now tk in
    if not user_gesture
    then tk
    else record pruned { window_hints = trim_hint_queue (pruned.window_hints ++ hint ∷ []) }

unfoldable pub record_user_gesture : ℕ → InputEvent → Tracker → Tracker
unfolding prune_attribution_locked trim_hint_queue should_arm_target_claim
    current_source_target_locked
record_user_gesture now e tk =
    let claim : GestureClaim = record {
      source_id = current_source_target_locked tk;
      created = now;
    } in
    let pruned = prune_attribution_locked now tk in
    if not (should_arm_target_claim e)
    then tk
    else record pruned { gesture_claims = trim_hint_queue (pruned.gesture_claims ++ claim ∷ []) }

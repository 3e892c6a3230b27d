-- ===== src/Track/Claims.antt =====
-- The attribution of browser/target_tracker.go keeps the tracker consistent.
use deepwork_browser.Prelude.{
  ◌≤◌, length, length-keep, ℕ, String, Bool, true, false, not, ◌||◌, List, [], ◌∷◌, ◌++◌, none,
  some, arith, if◌then◌else◌, ◌==◌, if_cases_dep,
}
use deepwork_browser.Track.State.{
  WindowOpenHint, GestureClaim, TargetInfo, Tracker, current_source_target_locked,
}
use deepwork_browser.Track.Attribution.{
  should_arm_target_claim, trim_hint_queue, target_max_attribution_hints, hint_is_fresh,
  claim_is_fresh, record_user_gesture, hint_index, record_window_open_hint, Evidence, attribute,
  consume_window_open_hint_locked, consume_gesture_claim_locked, prune_attribution_locked,
  find_index, remove_at, opener_matches_current_source_locked, no_entries,
}
use deepwork_browser.Input.Event.{InputEvent}
use deepwork_browser.Track.Queues.{length-remove_at, trim_hint_queue-capped}
use deepwork_browser.Track.Invariant.{IsTracked}

abbrev KeptPair : Tracker × Bool → Type 0
KeptPair r = IsTracked r.0

abbrev KeptEvidence : Tracker × Evidence → Type 0
KeptEvidence r = IsTracked r.0

-- Fewer claims and hints.
fewer-IsTracked :
    (claims : List GestureClaim) (hints : List WindowOpenHint) (tk : Tracker)
    → length claims ≤ target_max_attribution_hints
    → length hints ≤ target_max_attribution_hints
    → IsTracked tk
    → IsTracked (record tk { gesture_claims = claims; window_hints = hints })
fewer-IsTracked claims hints tk lc lh c = record {
  keyed = c.keyed;
  ordered = c.ordered;
  once = c.once;
  active_is_target = c.active_is_target;
  pending_are_targets = c.pending_are_targets;
  claims_capped = lc;
  hints_capped = lh;
}

prune_attribution_locked-IsTracked :
    (now : ℕ) (tk : Tracker) → IsTracked tk → IsTracked (prune_attribution_locked now tk)
unfolding prune_attribution_locked
prune_attribution_locked-IsTracked now tk c =
    fewer-IsTracked _ _ tk
      (omega (arith, length-keep (claim_is_fresh now) tk.gesture_claims, c.claims_capped))
      (omega (arith, length-keep (hint_is_fresh now) tk.window_hints, c.hints_capped)) c

consume_window_open_hint_locked-IsTracked :
    (now : ℕ) (info : TargetInfo) (tk : Tracker)
    → IsTracked tk
    → IsTracked (consume_window_open_hint_locked now info tk).0
unfolding consume_window_open_hint_locked
consume_window_open_hint_locked-IsTracked now info tk c =
    let pruned : Tracker = prune_attribution_locked now tk in
    let c1 = prune_attribution_locked-IsTracked now tk c in
    if_cases_dep KeptPair
      (not (info.type == "page") || not (info.opener_id == "") || no_entries pruned.window_hints) _
      _ (λ _. c1)
      (λ _.
        fewer-IsTracked pruned.gesture_claims
          (remove_at (hint_index info pruned) pruned.window_hints) pruned c1.claims_capped
          (omega
            (arith, length-remove_at (hint_index info pruned) pruned.window_hints, c1.hints_capped))
          c1)

consume_gesture_claim_locked-IsTracked :
    (now : ℕ) (info : TargetInfo) (tk : Tracker)
    → IsTracked tk
    → IsTracked (consume_gesture_claim_locked now info tk).0
unfolding consume_gesture_claim_locked
consume_gesture_claim_locked-IsTracked now info tk c =
    let pruned : Tracker = prune_attribution_locked now tk in
    let source : String = current_source_target_locked pruned in
    let c1 = prune_attribution_locked-IsTracked now tk c in
    if_cases_dep KeptPair
      (not (info.type == "page") || not (info.opener_id == "") || no_entries pruned.gesture_claims)
      _ _ (λ _. c1)
      (λ _.
        elim (find_index (λ x. source == "" || x.source_id == source) pruned.gesture_claims)
          as (λ o. KeptPair (elim o as (λ _. Tracker × Bool) [
            | none ↦ (pruned, false)
            | some i ↦ (record pruned { gesture_claims = remove_at i pruned.gesture_claims }, true)
          ])) [
            | none ↦ c1
            | some i ↦
                fewer-IsTracked (remove_at i pruned.gesture_claims) pruned.window_hints pruned
                  (omega (arith, length-remove_at i pruned.gesture_claims, c1.claims_capped))
                  c1.hints_capped c1
          ])

-- The evidence is taken from the hints and claims only.
pub attribute-IsTracked :
    (now : ℕ) (info : TargetInfo) (tk : Tracker)
    → IsTracked tk
    → IsTracked (attribute now info tk).0
unfolding attribute
attribute-IsTracked now info tk c =
    if_cases_dep KeptEvidence (opener_matches_current_source_locked info tk) _ _ (λ _. c)
      (λ _.
        if_cases_dep KeptEvidence (consume_window_open_hint_locked now info tk).1 _ _
          (λ _. consume_window_open_hint_locked-IsTracked now info tk c)
          (λ _.
            if_cases_dep KeptEvidence
              (consume_gesture_claim_locked now info
                (consume_window_open_hint_locked now info tk).0).1
              _ _
              (λ _.
                consume_gesture_claim_locked-IsTracked now info _
                  (consume_window_open_hint_locked-IsTracked now info tk c))
              (λ _.
                consume_gesture_claim_locked-IsTracked now info _
                  (consume_window_open_hint_locked-IsTracked now info tk c))))

abbrev hints : ℕ → String → String → String → Tracker → List WindowOpenHint
hints now source_id url window_name tk =
    (prune_attribution_locked now tk).window_hints
    ++ (record {
      source_id = if source_id == "" then current_source_target_locked tk else source_id;
      url = url;
      window_name = window_name;
      created = now;
    })
      ∷ []

abbrev claims : ℕ → Tracker → List GestureClaim
claims now tk =
    (prune_attribution_locked now tk).gesture_claims
    ++ (record { source_id = current_source_target_locked tk; created = now }) ∷ []

pub record_window_open_hint-IsTracked :
    (now : ℕ) (source_id url window_name : String) (user : Bool) (tk : Tracker)
    → IsTracked tk
    → IsTracked (record_window_open_hint now source_id url window_name user tk)
unfolding record_window_open_hint
record_window_open_hint-IsTracked now source_id url window_name user tk c =
    let c1 = prune_attribution_locked-IsTracked now tk c in
    if_cases_dep IsTracked (not user) _ _ (λ _. c)
      (λ _.
        fewer-IsTracked (prune_attribution_locked now tk).gesture_claims
          (trim_hint_queue (hints now source_id url window_name tk))
          (prune_attribution_locked now tk) c1.claims_capped
          (trim_hint_queue-capped (hints now source_id url window_name tk)) c1)

pub record_user_gesture-IsTracked :
    (now : ℕ) (e : InputEvent) (tk : Tracker)
    → IsTracked tk
    → IsTracked (record_user_gesture now e tk)
unfolding record_user_gesture
record_user_gesture-IsTracked now e tk c =
    let c1 = prune_attribution_locked-IsTracked now tk c in
    if_cases_dep IsTracked (not (should_arm_target_claim e)) _ _ (λ _. c)
      (λ _.
        fewer-IsTracked (trim_hint_queue (claims now tk))
          (prune_attribution_locked now tk).window_hints (prune_attribution_locked now tk)
          (trim_hint_queue-capped (claims now tk)) c1.hints_capped c1)

-- ===== src/Track/Run.antt =====
-- The tracker of browser/target_tracker.go through any sequence of events and commands.
use deepwork_browser.Prelude.{
  ℕ, String, Bool, false, List, Option, none, some, arith, refl, ◌==◌, eq_iff, eq_refl, ◌≡◌, inl,
  inr, lookup,
}
use deepwork_browser.Input.Event.{InputEvent}
use deepwork_browser.Track.State.{TargetInfo, Tracker, target_id_in_order, new_target_tracker}
use deepwork_browser.Track.Attribution.{record_window_open_hint, record_user_gesture}
use deepwork_browser.Track.Events.{BrowserEvent, dispatch_browser_event}
use deepwork_browser.Track.Commands.{
  Answers, refresh_targets, switch_to_target, close_target, create_tab, update_tab_info,
}
use deepwork_browser.Track.Invariant.{IsTracked}
use deepwork_browser.Track.Claims.{record_user_gesture-IsTracked, record_window_open_hint-IsTracked}
use deepwork_browser.Track.Kept.{dispatch_browser_event-IsTracked}
use deepwork_browser.Track.Obeyed.{
  refresh_targets-IsTracked, switch_to_target-IsTracked, close_target-IsTracked,
  create_tab-IsTracked, update_tab_info-IsTracked,
}

-- What the tracker goes through: the queue of browser events, the requests of the callers, and what is
-- noted of windows and gestures. A close lists what comes while the browser closes the target.
mutual
  pub data TrackerOp : Type 0 where
    receives : ℕ → BrowserEvent → TrackerOp
    refreshes : ℕ → Answers → Option (List TargetInfo) → TrackerOp
    switches : ℕ → Answers → Option (List TargetInfo) → String → TrackerOp
    closes : ℕ → Answers → TrackerOps → String → TrackerOp
    creates : ℕ → Answers → Option String → String → TrackerOp
    updates : String → String → String → TrackerOp
    opens_window : ℕ → String → String → String → Bool → TrackerOp
    gestures : ℕ → InputEvent → TrackerOp
    follows : Bool → TrackerOp

  pub data TrackerOps : Type 0 where
    done : TrackerOps
    then_op : TrackerOp → TrackerOps → TrackerOps

unfoldable mutual
  unfolding dispatch_browser_event refresh_targets switch_to_target close_target create_tab
      update_tab_info record_window_open_hint record_user_gesture

  pub apply : TrackerOp → Tracker → Tracker
  apply (receives now e) tk = (dispatch_browser_event now e tk).0
  apply (refreshes now answers listing) tk = (refresh_targets now answers listing tk).0
  apply (switches now answers listing id) tk = (switch_to_target now answers listing id tk).0
  apply (closes now answers meanwhile id) tk = (close_target now answers (run meanwhile) id tk).0
  apply (creates now answers made url) tk = (create_tab now answers made url tk).0
  apply (updates id url title) tk = (update_tab_info id url title tk).0
  apply (opens_window now source url name user) tk =
      record_window_open_hint now source url name user tk
  apply (gestures now e) tk = record_user_gesture now e tk
  apply (follows enabled) tk = record tk { follow_programmatic_nav = enabled }

  pub run : TrackerOps → Tracker → Tracker
  run done tk = tk
  run (then_op op ops) tk = run ops (apply op tk)

mutual
  unfolding apply run

  apply_keeps : (op : TrackerOp) (tk : Tracker) → IsTracked tk → IsTracked (apply op tk)
  apply_keeps (receives now e) tk c = dispatch_browser_event-IsTracked now e tk c
  apply_keeps (refreshes now answers listing) tk c =
      refresh_targets-IsTracked now answers listing tk c
  apply_keeps (switches now answers listing id) tk c =
      switch_to_target-IsTracked now answers listing id tk c
  apply_keeps (closes now answers meanwhile id) tk c =
      close_target-IsTracked now answers (run meanwhile) id tk (λ t. run_keeps meanwhile t) c
  apply_keeps (creates now answers made url) tk c = create_tab-IsTracked now answers made url tk c
  apply_keeps (updates id url title) tk c = update_tab_info-IsTracked id url title tk c
  apply_keeps (opens_window now source url name user) tk c =
      record_window_open_hint-IsTracked now source url name user tk c
  apply_keeps (gestures now e) tk c = record_user_gesture-IsTracked now e tk c
  apply_keeps (follows enabled) tk c = c

  run_keeps : (ops : TrackerOps) (tk : Tracker) → IsTracked tk → IsTracked (run ops tk)
  run_keeps done tk c = c
  run_keeps (then_op op ops) tk c = run_keeps ops (apply op tk) (apply_keeps op tk c)

-- Any sequence of events and commands, those during a close included, keeps the tracker consistent:
-- its order holds each target once, the one in front is a target, unless there is none, what waits is
-- a target, and no queue of evidence is longer than its bound.
pub run-IsTracked : (ops : TrackerOps) (tk : Tracker) → IsTracked tk → IsTracked (run ops tk)
run-IsTracked ops tk c = run_keeps ops tk c

empty-IsTracked : (now : ℕ) → IsTracked (new_target_tracker now none)
unfolding lookup target_id_in_order
empty-IsTracked now = record {
  keyed = λ k t h. ground arith;
  ordered = λ k. refl;
  once = tt;
  active_is_target = inr (refl, refl);
  pending_are_targets = λ k h. ground arith;
  claims_capped = omega arith;
  hints_capped = omega arith;
}

pub primary-IsTracked :
    (now : ℕ) (id : String) → (id == "") ≡ false → IsTracked (new_target_tracker now (some id))
unfolding lookup target_id_in_order
primary-IsTracked now id n = record {
  keyed = λ k t h. ground (arith, h, n, eq_iff id k);
  ordered = λ k. ground arith;
  once = (refl, tt);
  active_is_target = inl (rw (eq_refl id) refl);
  pending_are_targets = λ k h. ground arith;
  claims_capped = omega arith;
  hints_capped = omega arith;
}

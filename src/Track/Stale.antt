-- ===== src/Track/Stale.antt =====
-- A target of browser/target_tracker.go that still waits when the user has been there and left.
use deepwork_browser.Prelude.{
  ℕ, String, true, false, not, List, [], ◌∷◌, Option, none, some, arith, refl, if◌then◌else◌,
  is_some, ◌==◌, eq_iff, eq_refl, ◌≡◌, inl, inr, ap, ◌∙◌, lookup, insert, lookup-insert,
  Option-cases, if_cases_dep,
}
use deepwork_browser.Track.State.{
  Tracked, TargetInfo, Tracker, is_blank, is_page, refreshed, target_id_in_order,
}
use deepwork_browser.Track.Events.{Effect, activates, info_changed, dispatch_browser_event}
use deepwork_browser.Track.Commands.{
  Answers, CommandError, not_activated, switch_found, refreshed_for, refresh_target_info,
  switch_known, switch_to_target,
}
use deepwork_browser.Track.Invariant.{IsTracked}
use deepwork_browser.Track.Run.{receives, switches, TrackerOps, done, then_op, apply, run}
use deepwork_browser.Track.Pending.{changed-active, handle_target_info_changed-pending}

refresh_target_info-none :
    (now : ℕ) (answers : Answers) (id : String) (tk : Tracker)
    → answers.page_info id ≡ none
    → refresh_target_info now answers id tk ≡ tk
unfolding refresh_target_info
refresh_target_info-none now answers id tk e = rw (refresh_target_info, e) refl

switch_found-other :
    (id : String) (u : Tracked) (tk : Tracker)
    → lookup id tk.targets ≡ some u
    → (tk.active_id == id) ≡ false
    → (switch_found id tk).0 ≡ record tk { active_id = id }
switch_found-other id u tk e other = rw (switch_found, e, other) refl

switch_known-other :
    (now : ℕ) (answers : Answers) (id : String) (u : Tracked) (tk : Tracker)
    → lookup id tk.targets ≡ some u
    → answers.can_activate id ≡ true
    → answers.page_info id ≡ none
    → (tk.active_id == id) ≡ false
    → (switch_known now answers id tk).0 ≡ record tk { active_id = id }
unfolding switch_known
switch_known-other now answers id u tk e can info other =
    ap
      (λ b.
        (if not b
          then (tk, activates id true ∷ [], some not_activated)
          else switch_found id (refresh_target_info now answers id tk)).0)
      can
    ∙ ap (λ r. (switch_found id r).0) (refresh_target_info-none now answers id tk info)
    ∙ switch_found-other id u tk e other

refreshed_for-known :
    (now : ℕ) (answers : Answers) (listing : Option (List TargetInfo)) (id : String) (u : Tracked)
    (tk : Tracker)
    → lookup id tk.targets ≡ some u
    → (refreshed_for now answers listing id tk).0 ≡ tk
refreshed_for-known now answers listing id u tk e = rw e refl

abbrev Switched : String → Tracker → Tracker × List Effect × Option CommandError → Type 0
Switched id tk r = r.0 ≡ record tk { active_id = id }

-- A switch to another known target that the browser allows and tells nothing new of.
switched :
    (now : ℕ) (answers : Answers) (listing : Option (List TargetInfo)) (id : String) (u : Tracked)
    (tk : Tracker)
    → (id == "") ≡ false
    → lookup id tk.targets ≡ some u
    → answers.can_activate id ≡ true
    → answers.page_info id ≡ none
    → (tk.active_id == id) ≡ false
    → (switch_to_target now answers listing id tk).0 ≡ record tk { active_id = id }
unfolding switch_to_target
switched now answers listing id u tk n e can info other =
    if_cases_dep (Switched id tk) (id == "") _ _ (λ e. ground (arith, e, n))
      (λ _.
        ap (λ r. (switch_known now answers id r).0)
          (refreshed_for-known now answers listing id u tk e)
        ∙ switch_known-other now answers id u tk e can info other)

-- A change of a target, and a switch to another one.
abbrev pub left : ℕ → Answers → TargetInfo → String → TrackerOps → TrackerOps
left now answers info other ops =
    then_op (receives now (info_changed info)) (then_op (switches now answers none other) ops)

abbrev changed_tracker : TargetInfo → Tracked → Tracker → Tracker
changed_tracker info t tk = record tk {
  targets = insert info.target_id (refreshed tk info t) tk.targets;
}

-- The two steps.
left-run :
    (now : ℕ) (answers : Answers) (info : TargetInfo) (other : String) (t u : Tracked)
    (ops : TrackerOps) (tk : Tracker)
    → is_page info ≡ true
    → tk.active_id ≡ info.target_id
    → lookup info.target_id tk.targets ≡ some t
    → lookup other tk.targets ≡ some u
    → (other == "") ≡ false
    → (info.target_id == other) ≡ false
    → answers.can_activate other ≡ true
    → answers.page_info other ≡ none
    → run (left now answers info other ops) tk
      ≡ run ops (record (changed_tracker info t tk) { active_id = other })
unfolding run apply dispatch_browser_event
left-run now answers info other t u ops tk page active e e' named ne can no_info =
    ap (λ r. run ops (switch_to_target now answers none other r).0)
      (changed-active now info t tk page e (rw active (rw (eq_refl info.target_id) refl)))
    ∙ ap (run ops) (
        switched now answers none other u (changed_tracker info t tk) named
          (rw (lookup-insert info.target_id other (refreshed tk info t) tk.targets, ne) e') can
          no_info (rw (active, ne) refl))

-- A target that waits, is in front, changes and is left for another one comes back to the front with
-- its next change, against the user's choice.
pub run-stale_pending :
    (now : ℕ) (answers : Answers) (info : TargetInfo) (other : String) (tk : Tracker)
    → IsTracked tk
    → is_page info ≡ true
    → is_blank info.url ≡ false
    → tk.active_id ≡ info.target_id
    → target_id_in_order info.target_id tk.pending_switch ≡ true
    → is_some (lookup other tk.targets) ≡ true
    → (info.target_id == other) ≡ false
    → answers.can_activate other ≡ true
    → answers.page_info other ≡ none
    → ((run (left now answers info other done) tk).active_id ≡ other)
      × ((run
            (left now answers info other (then_op (receives now (info_changed info)) done))
            tk).active_id
          ≡ info.target_id)
unfolding run apply dispatch_browser_event
run-stale_pending now answers info other tk c page url active pending known ne can no_info =
    elim (Option-cases (lookup info.target_id tk.targets)) [
      | inl e ↦ ground (arith, e, c.pending_are_targets info.target_id pending)
      | inr (t, e) ↦ elim (Option-cases (lookup other tk.targets)) [
        | inl e' ↦ ground (arith, known, e')
        | inr (u, e') ↦ (
          ap (λ r. r.active_id)
              (left-run now answers info other t u done tk page active e e' (c.keyed other u e').1
                ne can no_info),
          ap (λ r. r.active_id)
                (left-run now answers info other t u
                  (then_op (receives now (info_changed info)) done) tk page active e e'
                  (c.keyed other u e').1 ne can no_info)
              ∙ (handle_target_info_changed-pending now info
                  (record (changed_tracker info t tk) { active_id = other }) page url
                  (rw
                    (
                      lookup-insert info.target_id info.target_id (refreshed tk info t) tk.targets,
                      eq_refl info.target_id,
                    )
                    refl)
                  pending
                  (ground (arith, ne, eq_iff info.target_id other, eq_iff other info.target_id))).0,
        )
      ]
    ]

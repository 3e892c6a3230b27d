-- ===== src/Track/Obeyed.antt =====
-- The tracker of browser/target_tracker.go stays consistent through the commands of its callers.
use deepwork_browser.Prelude.{
  ℕ, String, Bool, false, not, ◌&&◌, List, [], ◌∷◌, Option, none, some, arith, is_some, ◌==◌, inl,
  inr, Map, lookup, Option-cases, if_cases_dep,
}
use deepwork_browser.Track.State.{Tracked, TargetInfo, Tracker, is_blank, register_target_locked}
use deepwork_browser.Track.Attribution.{is_claimed, attribute}
use deepwork_browser.Track.Events.{Effect}
use deepwork_browser.Track.Commands.{
  Answers, CommandError, refresh_target_info, switch_found, switch_known, Found, find_one, find_all,
  is_seen, prune_unseen, refresh_targets, switch_to_target, close_target, close_switched,
  close_fallback, register_known_target, create_tab, update_tab_info,
}
use deepwork_browser.Track.Invariant.{
  IsTracked, insert-Consistent, forget_target-IsTracked, register_target_locked-IsTracked,
  make_active-IsTracked, add_pending-IsTracked,
}
use deepwork_browser.Track.Claims.{attribute-IsTracked}
use deepwork_browser.Track.Kept.{
  registered, register_target_locked-new, handle_target_destroyed-IsTracked,
}

abbrev KeptCommand : Tracker × List Effect × Option CommandError → Type 0
KeptCommand r = IsTracked r.0

refresh_target_info-IsTracked :
    (now : ℕ) (answers : Answers) (id : String) (tk : Tracker)
    → IsTracked tk
    → IsTracked (refresh_target_info now answers id tk)
unfolding refresh_target_info
refresh_target_info-IsTracked now answers id tk c = elim (Option-cases (answers.page_info id)) [
  | inl e ↦ rw (refresh_target_info, e) c
  | inr (info, e) ↦ rw (refresh_target_info, e) (register_target_locked-IsTracked now info tk c)
]

switch_found-IsTracked :
    (id : String) (tk : Tracker) → IsTracked tk → IsTracked (switch_found id tk).0
switch_found-IsTracked id tk c = elim (Option-cases (lookup id tk.targets)) [
  | inl e ↦ rw (switch_found, e) c
  | inr (t, e) ↦
      rw (switch_found, e)
        (if_cases_dep KeptCommand (tk.active_id == id) _ _ (λ _. c)
          (λ _. make_active-IsTracked id tk (rw e) c))
]

switch_known-IsTracked :
    (now : ℕ) (answers : Answers) (id : String) (tk : Tracker)
    → IsTracked tk
    → IsTracked (switch_known now answers id tk).0
unfolding switch_known
switch_known-IsTracked now answers id tk c =
    if_cases_dep KeptCommand (not (answers.can_activate id)) _ _ (λ _. c)
      (λ _.
        switch_found-IsTracked id (refresh_target_info now answers id tk)
          (refresh_target_info-IsTracked now answers id tk c))

abbrev KeptFound : Found → Type 0
KeptFound f = IsTracked f.tracker

find_one-IsTracked :
    (now : ℕ) (info : TargetInfo) (f : Found)
    → IsTracked f.tracker
    → IsTracked (find_one now info f).tracker
unfolding find_one
find_one-IsTracked now info f c =
    let c1 = register_target_locked-IsTracked now info f.tracker c in
    let c2 = attribute-IsTracked now info _ c1 in
    if_cases_dep KeptFound (register_target_locked now info f.tracker).2 _ _
      (λ new.
        if_cases_dep IsTracked
          (is_claimed (attribute now info (register_target_locked now info f.tracker).0).1
            && is_blank info.url)
          _ _
          (λ _.
            add_pending-IsTracked info.target_id
              (attribute now info (register_target_locked now info f.tracker).0).0
              (registered now info f.tracker
                (ground (arith, new, register_target_locked-new now info f.tracker)))
              c2)
          (λ _. c2))
      (λ _. c1)

find_all-IsTracked :
    (now : ℕ) (infos : List TargetInfo) (f : Found)
    → IsTracked f.tracker
    → IsTracked (find_all now infos f).tracker
unfolding find_all
find_all-IsTracked now [] f c = c
find_all-IsTracked now (info ∷ infos) f c =
    find_all-IsTracked now infos (find_one now info f) (find_one-IsTracked now info f c)

abbrev KeptPruned : Tracker × List Effect × Bool → Type 0
KeptPruned r = IsTracked r.0

prune_unseen-IsTracked :
    (infos : List TargetInfo) (entries : Map Tracked) (tk : Tracker)
    → IsTracked tk
    → IsTracked (prune_unseen infos entries tk).0
unfolding prune_unseen
prune_unseen-IsTracked infos [] tk c = c
prune_unseen-IsTracked infos ((id, t) ∷ entries) tk c =
    let rest = prune_unseen-IsTracked infos entries tk c in
    if_cases_dep KeptPruned (is_seen id infos) _ _ (λ _. rest)
      (λ _. forget_target-IsTracked id (prune_unseen infos entries tk).0 rest)

abbrev KeptRefresh : Tracker × List Effect → Type 0
KeptRefresh r = IsTracked r.0

pub refresh_targets-IsTracked :
    (now : ℕ) (answers : Answers) (listing : Option (List TargetInfo)) (tk : Tracker)
    → IsTracked tk
    → IsTracked (refresh_targets now answers listing tk).0
unfolding refresh_targets
refresh_targets-IsTracked now answers none tk c = c
refresh_targets-IsTracked now answers (some infos) tk c =
    let f : Found = find_all now infos (record { tracker = tk; follow = ""; changed = false }) in
    let c1 =
      prune_unseen-IsTracked infos f.tracker.targets f.tracker (find_all-IsTracked now infos _ c) in
    if_cases_dep KeptRefresh (not (f.follow == "")) _ _
      (λ _. switch_known-IsTracked now answers f.follow _ c1) (λ _. c1)

pub switch_to_target-IsTracked :
    (now : ℕ) (answers : Answers) (listing : Option (List TargetInfo)) (id : String) (tk : Tracker)
    → IsTracked tk
    → IsTracked (switch_to_target now answers listing id tk).0
unfolding switch_to_target
switch_to_target-IsTracked now answers listing id tk c =
    if_cases_dep KeptCommand (id == "") _ _ (λ _. c)
      (λ _. switch_known-IsTracked now answers id _ (
        if_cases_dep KeptRefresh (is_some (lookup id tk.targets)) _ _ (λ _. c)
          (λ _. refresh_targets-IsTracked now answers listing tk c)))

pub close_target-IsTracked :
    (now : ℕ) (answers : Answers) (meanwhile : Tracker → Tracker) (id : String) (tk : Tracker)
    → ((t : Tracker) → IsTracked t → IsTracked (meanwhile t))
    → IsTracked tk
    → IsTracked (close_target now answers meanwhile id tk).0
unfolding close_target
close_target-IsTracked now answers meanwhile id tk m c =
    let c1 =
      if_cases_dep KeptCommand (tk.active_id == id && not (close_fallback id tk == "")) _ _
        (λ _. switch_to_target-IsTracked now answers none (close_fallback id tk) tk c) (λ _. c) in
    if_cases_dep KeptCommand (id == "") _ _ (λ _. c)
      (λ _. elim (Option-cases (lookup id tk.targets)) [
        | inl e ↦ rw e c
        | inr (t, e) ↦ rw e (
            if_cases_dep KeptCommand (not t.closable) _ _ (λ _. c)
              (λ _.
                handle_target_destroyed-IsTracked id
                  (meanwhile (close_switched now answers id tk).0)
                  (m (close_switched now answers id tk).0 c1)))
      ])

abbrev KeptRegistered : Tracker × Option CommandError → Type 0
KeptRegistered r = IsTracked r.0

register_known_target-IsTracked :
    (now : ℕ) (id url : String) (tk : Tracker)
    → IsTracked tk
    → IsTracked (register_known_target now id url tk).0
unfolding register_known_target
register_known_target-IsTracked now id url tk c =
    if_cases_dep KeptRegistered (id == "") _ _ (λ _. c)
      (λ _.
        if_cases_dep KeptRegistered (is_some (lookup id tk.targets)) _ _ (λ _. c)
          (λ _.
            register_target_locked-IsTracked now
              (record { target_id = id; type = "page"; url = url; title = url; opener_id = "" }) tk
              c))

pub create_tab-IsTracked :
    (now : ℕ) (answers : Answers) (made : Option String) (url : String) (tk : Tracker)
    → IsTracked tk
    → IsTracked (create_tab now answers made url tk).0
unfolding create_tab
create_tab-IsTracked now answers none url tk c = c
create_tab-IsTracked now answers (some id) url tk c =
    let c1 = register_known_target-IsTracked now id url tk c in
    elim (Option-cases (register_known_target now id url tk).1) [
      | inl e ↦ rw (create_tab, e) (switch_to_target-IsTracked now answers none id _ c1)
      | inr (x, e) ↦ rw (create_tab, e) c1
    ]

abbrev KeptUpdate : Tracker × Bool → Type 0
KeptUpdate r = IsTracked r.0

pub update_tab_info-IsTracked :
    (id url title : String) (tk : Tracker)
    → IsTracked tk
    → IsTracked (update_tab_info id url title tk).0
unfolding update_tab_info
update_tab_info-IsTracked id url title tk c = elim (Option-cases (lookup id tk.targets)) [
  | inl e ↦ rw (update_tab_info, e) c
  | inr (t, e) ↦
      rw (update_tab_info, e)
        (if_cases_dep KeptUpdate (id == "") _ _ (λ _. c)
          (λ n.
            insert-Consistent id _ tk.targets tk.active_id tk.order tk.pending_switch
              tk.gesture_claims tk.window_hints (rw e) n (c.keyed id t e).0 c))
]

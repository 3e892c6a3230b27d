-- ===== src/Track/Commands.antt =====
-- The commands of the tracker in browser/target_tracker.go. What the browser answers is an argument.
use deepwork_browser.Prelude.{
  ℕ, String, Bool, true, false, not, ◌&&◌, ◌||◌, List, [], ◌∷◌, ◌++◌, Option, none, some,
  if◌then◌else◌, is_some, ◌==◌, Map, lookup, insert, delete,
}
use deepwork_browser.Live.Authority.{TabInfo}
use deepwork_browser.Track.State.{
  Tracked, TargetInfo, Tracker, is_blank, is_page, target_id_in_order, add_pending,
  total_tab_count_locked, current_source_target_locked, last_live, register_target_locked,
}
use deepwork_browser.Track.Attribution.{Evidence, is_claimed, attribute}
use deepwork_browser.Track.Events.{
  Effect, activates, switches_screencast, switches_input, shows, shows_active, cancels, old_context,
  forget_target, handle_target_destroyed,
}

-- The browser's answers: whether a target could be activated, and what it tells of a page.
pub record Answers : Type 0 where
  pub can_activate : String → Bool
  pub page_info : String → Option TargetInfo

pub data CommandError : Type 0 where
  empty_id not_found not_closable not_activated not_created : CommandError

-- `refreshTargetInfo`
unfoldable pub refresh_target_info : ℕ → Answers → String → Tracker → Tracker
unfolding register_target_locked
refresh_target_info now answers id tk = elim (answers.page_info id) [
  | none ↦ tk
  | some info ↦ (register_target_locked now info tk).0
]

abbrev switched_effects : Tracker → Tracked → List Effect
switched_effects tk t =
    (if tk.has_live then switches_screencast (old_context tk) t.ctx t.id ∷ [] else [])
    ++ switches_input t.ctx ∷ shows t.url t.title (total_tab_count_locked tk) ∷ []

-- `SwitchToTarget` from the look-up on.
abbrev pub switch_found : String → Tracker → Tracker × List Effect × Option CommandError
switch_found id tk = elim (lookup id tk.targets) [
  | none ↦ (tk, activates id true ∷ [], some not_found)
  | some t ↦
      if tk.active_id == id
      then (tk, activates id true ∷ [], none)
      else (record tk { active_id = id }, activates id true ∷ switched_effects tk t, none)
]

-- `SwitchToTarget` from the activation on; the activation comes first and may fail.
unfoldable pub switch_known :
    ℕ → Answers → String → Tracker → Tracker × List Effect × Option CommandError
unfolding refresh_target_info lookup
switch_known now answers id tk =
    if not (answers.can_activate id)
    then (tk, activates id true ∷ [], some not_activated)
    else switch_found id (refresh_target_info now answers id tk)

-- The target that a refresh follows is the last new one that is claimed and not blank.
pub record Found : Type 0 where
  pub tracker : Tracker
  pub follow : String
  pub changed : Bool

abbrev pub found_new : TargetInfo → Evidence → Tracker → Found → Found
found_new info evidence tk f = record {
  tracker =
      if is_claimed evidence && is_blank info.url
      then record tk { pending_switch = add_pending info.target_id tk.pending_switch }
      else tk;
  follow = if is_claimed evidence && not (is_blank info.url) then info.target_id else f.follow;
  changed = true;
}

-- The body of the first loop of `RefreshTargets`.
unfoldable pub find_one : ℕ → TargetInfo → Found → Found
unfolding register_target_locked attribute
find_one now info f =
    let (tk1, tracked, is_new) = register_target_locked now info f.tracker in
    let (tk2, evidence) = attribute now info tk1 in
    if is_new then found_new info evidence tk2 f else record f { tracker = tk1 }

unfoldable pub find_all : ℕ → List TargetInfo → Found → Found
unfolding find_one
find_all now [] f = f
find_all now (info ∷ infos) f = find_all now infos (find_one now info f)

-- The ids that the browser lists.
unfoldable pub is_seen : String → List TargetInfo → Bool
is_seen id [] = false
is_seen id (info ∷ infos) = (is_page info && info.target_id == id) || is_seen id infos

-- The second loop, over the entries that the map had before it; Go leaves their order open.
unfoldable pub prune_unseen : List TargetInfo → Map Tracked → Tracker → Tracker × List Effect × Bool
unfolding is_seen forget_target
prune_unseen infos [] tk = (tk, [], false)
prune_unseen infos ((id, t) ∷ entries) tk =
    let rest = prune_unseen infos entries tk in
    if is_seen id infos then rest else (forget_target id rest.0, rest.1 ++ cancels t.ctx ∷ [], true)

-- `RefreshTargets` with the list that the browser gives; none if it fails or another refresh runs.
unfoldable pub refresh_targets :
    ℕ → Answers → Option (List TargetInfo) → Tracker → Tracker × List Effect
unfolding find_all prune_unseen switch_known
refresh_targets now answers none tk = (tk, [])
refresh_targets now answers (some infos) tk =
    let f = find_all now infos (record { tracker = tk; follow = ""; changed = false }) in
    let (tk1, cancelled, pruned) = prune_unseen infos f.tracker.targets f.tracker in
    let (tk2, sent, err) = switch_known now answers f.follow tk1 in
    if not (f.follow == "")
    then (tk2, cancelled ++ sent)
    else (tk1, cancelled ++ (if f.changed || pruned then shows_active tk1 ∷ [] else []))

-- A target that is not known is looked for first.
abbrev pub refreshed_for :
    ℕ → Answers → Option (List TargetInfo) → String → Tracker → Tracker × List Effect
refreshed_for now answers listing id tk =
    if is_some (lookup id tk.targets) then (tk, []) else refresh_targets now answers listing tk

unfoldable pub switch_to_target :
    ℕ
    → Answers
    → Option (List TargetInfo)
    → String
    → Tracker
    → Tracker × List Effect × Option CommandError
unfolding refresh_targets switch_known
switch_to_target now answers listing id tk =
    let (tk1, first) = refreshed_for now answers listing id tk in
    let (tk2, sent, err) = switch_known now answers id tk1 in
    if id == "" then (tk, [], some empty_id) else (tk2, first ++ sent, err)

-- The fallback of a close: the last other target.
unfoldable pub close_fallback : String → Tracker → String
unfolding delete last_live
close_fallback id tk = last_live (delete id tk.targets) tk.order

-- The switch to the fallback, if the active target is closed.
abbrev pub close_switched :
    ℕ → Answers → String → Tracker → Tracker × List Effect × Option CommandError
close_switched now answers id tk =
    if tk.active_id == id && not (close_fallback id tk == "")
    then switch_to_target now answers none (close_fallback id tk) tk
    else (tk, [], none)

-- `CloseTarget`; `meanwhile` is what other goroutines do while the browser closes the target, among it
-- mostly the event that it is gone.
unfoldable pub close_target :
    ℕ
    → Answers
    → (Tracker → Tracker)
    → String
    → Tracker
    → Tracker × List Effect × Option CommandError
unfolding switch_to_target handle_target_destroyed close_fallback
close_target now answers meanwhile id tk =
    let (tk1, first, err) = close_switched now answers id tk in
    let tk2 = meanwhile tk1 in
    let (tk3, last) = handle_target_destroyed id tk2 in
    if id == "" then (tk, [], some empty_id) else elim (lookup id tk.targets) [
      | none ↦ (tk, [], some not_found)
      | some t ↦
          if not t.closable
          then (tk, [], some not_closable)
          else (tk3, first ++ cancels t.ctx ∷ last, none)
    ]

unfoldable pub register_known_target : ℕ → String → String → Tracker → Tracker × Option CommandError
unfolding register_target_locked lookup
register_known_target now id url tk =
    if id == ""
    then (tk, some empty_id)
    else if is_some (lookup id tk.targets)
    then (tk, none)
    else (
      (register_target_locked now
          (record { target_id = id; type = "page"; url = url; title = url; opener_id = "" }) tk).0,
      none,
    )

-- `CreateTab`, from the target that the browser has made on, or none if it made none; `url` has been
-- through `NormalizeTargetCreateURL`.
unfoldable pub create_tab :
    ℕ → Answers → Option String → String → Tracker → Tracker × List Effect × Option CommandError
unfolding register_known_target switch_to_target
create_tab now answers none url tk = (tk, [], some not_created)
create_tab now answers (some id) url tk =
    let (tk1, err) = register_known_target now id url tk in
    let (tk2, sent, err') = switch_to_target now answers none id tk1 in
    elim err [ some e ↦ (tk1, [], some e) | none ↦ (tk2, sent, err') ]

unfoldable pub update_tab_info : String → String → String → Tracker → Tracker × Bool
unfolding lookup insert
update_tab_info id url title tk = elim (lookup id tk.targets) [
  | none ↦ (tk, false)
  | some t ↦ if id == "" then (tk, false) else (
    record tk {
      targets =
          insert id
            (record t {
              url = if url == "" then t.url else url;
              title = if title == "" then t.title else title;
            })
            tk.targets;
    },
    true,
  )
]

-- `appendTab` over a list of ids: each target once. The ids that were seen come with it.
unfoldable pub list_ids : Tracker → List String → List String → List TabInfo
unfolding target_id_in_order lookup current_source_target_locked
list_ids tk seen [] = []
list_ids tk seen (id ∷ ids) =
    let rest = list_ids tk (id ∷ seen) ids in
    let skipped = list_ids tk seen ids in
    if id == "" || target_id_in_order id seen then skipped else elim (lookup id tk.targets) [
      | none ↦ rest
      | some t ↦
          record {
            id = t.id;
            title = t.title;
            url = t.url;
            active = current_source_target_locked tk == t.id;
            closable = t.closable;
          }
          ∷ rest
    ]

abbrev pub keys : Map Tracked → List String
keys [] = []
keys ((id, t) ∷ entries) = id ∷ keys entries

unfoldable pub list_targets : Tracker → List TabInfo
unfolding list_ids
list_targets tk = list_ids tk [] (tk.order ++ keys tk.targets)

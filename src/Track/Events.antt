-- ===== src/Track/Events.antt =====
-- The handlers of the browser's target events in browser/target_tracker.go. What a handler does after
-- it has left the mutex is a list of effects, in the order of the code; those of an auto-follow run on
-- a goroutine of their own. An effect of a callback that is not set has no receiver.
use deepwork_browser.Prelude.{
  ℕ, String, Bool, true, false, not, ◌&&◌, ◌||◌, List, [], ◌∷◌, ◌++◌, Option, none, some,
  if◌then◌else◌, is_some, ◌==◌, lookup, delete,
}
use deepwork_browser.Track.State.{
  Context, browser_context, Tracked, TargetInfo, Tracker, is_blank, target_id_in_order,
  remove_target_from_order, add_pending, delete_pending, total_tab_count_locked,
  active_navigation_locked, fallback_active_target_locked, context_of, register_target_locked,
}
use deepwork_browser.Track.Attribution.{Evidence, unclaimed, is_claimed, attribute}

pub data Effect : Type 0 where
  -- A new blank target is attached, so that it runs.
  warms : Context → Effect
  -- The target comes to the front; the flag is false where its window must not.
  activates : String → Bool → Effect
  -- The pictures move from one context to another, of the target that is named.
  switches_screencast : Context → Context → String → Effect
  -- The same, the old context being looked up when the goroutine runs.
  follows_from : String → Context → String → Effect
  switches_input : Context → Effect
  -- `onSwitch` with a URL, a title and the number of targets.
  shows : String → String → ℕ → Effect
  cancels : Context → Effect

abbrev pub shows_active : Tracker → Effect
shows_active tk =
    shows (active_navigation_locked tk).0 (active_navigation_locked tk).1
      (total_tab_count_locked tk)

abbrev follow_effects : String → Tracker → TargetInfo → Context → List Effect
follow_effects old tk info ctx =
    activates info.target_id true
      ∷ (if tk.has_live then follows_from old ctx info.target_id ∷ [] else [])
    ++ switches_input ctx ∷ shows info.url info.title (total_tab_count_locked tk) ∷ []

-- What a new target does to the active one: followed, noted until it has a URL, or neither.
unfoldable pub place_created : TargetInfo → Evidence → Tracker → Tracker
place_created info evidence tk =
    if not (is_claimed evidence)
    then tk
    else if is_blank info.url
    then record tk { pending_switch = add_pending info.target_id tk.pending_switch }
    else record tk { active_id = info.target_id }

unfoldable pub created_effects : TargetInfo → Evidence → Context → Tracker → List Effect
unfolding active_navigation_locked total_tab_count_locked
created_effects info evidence ctx tk =
    if is_claimed evidence && not (is_blank info.url)
    then follow_effects tk.active_id tk info ctx
    else (if is_claimed evidence then warms ctx ∷ [] else []) ++ shows_active tk ∷ []

unfoldable pub handle_target_created : ℕ → TargetInfo → Tracker → Tracker × List Effect
unfolding register_target_locked attribute place_created created_effects
handle_target_created now info tk =
    let (tk1, tracked, created) = register_target_locked now info tk in
    let (tk2, evidence) = attribute now info tk1 in
    if not (info.type == "page") || not created
    then (tk1, [])
    else (place_created info evidence tk2, created_effects info evidence (context_of tracked) tk2)

-- The entries of the target are gone; the active target is the fallback, if it was the target.
unfoldable pub forget_target : String → Tracker → Tracker
unfolding delete remove_target_from_order fallback_active_target_locked
forget_target id tk =
    let rest = record tk {
      targets = delete id tk.targets;
      pending_switch = delete_pending id tk.pending_switch;
      order = remove_target_from_order id tk.order;
    } in
    record rest {
      active_id = if tk.active_id == id then fallback_active_target_locked rest else tk.active_id;
    }

abbrev fallback_effects : Tracked → Tracker → Option Tracked → List Effect
fallback_effects gone tk none =
    if tk.has_live
    then switches_screencast gone.ctx browser_context tk.primary_id
      ∷ switches_input browser_context
      ∷ shows_active tk
      ∷ []
    else []
fallback_effects gone tk (some next) =
    if tk.has_live
    then activates next.id true
      ∷ switches_screencast gone.ctx next.ctx next.id
      ∷ switches_input next.ctx
      ∷ shows next.url next.title (total_tab_count_locked tk)
      ∷ []
    else []

unfoldable pub handle_target_destroyed : String → Tracker → Tracker × List Effect
unfolding lookup forget_target active_navigation_locked total_tab_count_locked
handle_target_destroyed id tk = elim (lookup id tk.targets) [
  | none ↦ (tk, [])
  | some gone ↦
      let tk' = forget_target id tk in
      (
        tk',
        cancels gone.ctx
            ∷ (if tk.active_id == id
                then fallback_effects gone tk' (lookup tk'.active_id tk'.targets)
                else shows_active tk' ∷ []),
      )
]

-- A new target of an information change is noted if it is claimed and blank.
abbrev pub note_pending : TargetInfo → Evidence → Tracker → Tracker
note_pending info evidence tk =
    if is_claimed evidence && is_blank info.url
    then record tk { pending_switch = add_pending info.target_id tk.pending_switch }
    else tk

-- The active target is the primary one and blank, and the tracker follows programs.
unfoldable pub follows_program : Tracker → Bool
follows_program tk =
    tk.follow_programmatic_nav
    && (tk.active_id == tk.primary_id || tk.active_id == "")
    && (elim (lookup tk.primary_id tk.targets) [ none ↦ false | some p ↦ is_blank p.url ])

abbrev pub attribute_new : Bool → ℕ → TargetInfo → Tracker → Tracker × Evidence
attribute_new created now info tk = if created then attribute now info tk else (tk, unclaimed)

-- Whether the change moves the active target, and whether for a user or for a program.
pub data Follow : Type 0 where
  stay for_user for_program : Follow

unfoldable pub decide_follow : Bool → TargetInfo → Evidence → Tracker → Follow
unfolding follows_program target_id_in_order
decide_follow known info evidence tk =
    if tk.active_id == info.target_id || not known || is_blank info.url
    then stay
    else if target_id_in_order info.target_id tk.pending_switch || is_claimed evidence
    then for_user
    else if follows_program tk
    then for_program
    else stay

-- A context that is nil is replaced by the browser's.
abbrev or_browser : Context → Context
or_browser Context.no_context = browser_context
or_browser c = c

abbrev pub old_context : Tracker → Context
old_context tk = or_browser (context_of (lookup tk.active_id tk.targets))

abbrev switch_effects : Bool → TargetInfo → Context → Tracker → List Effect
switch_effects front info ctx tk =
    activates info.target_id front
      ∷ (if tk.has_live then switches_screencast (old_context tk) ctx info.target_id ∷ [] else [])
    ++ switches_input ctx ∷ shows info.url info.title (total_tab_count_locked tk) ∷ []

unfoldable pub place_changed : Follow → TargetInfo → Tracker → Tracker
place_changed stay info tk = tk
place_changed _ info tk = record tk {
  pending_switch = delete_pending info.target_id tk.pending_switch;
  active_id = info.target_id;
}

unfoldable pub changed_effects : Follow → TargetInfo → Option Tracked → Tracker → List Effect
unfolding active_navigation_locked total_tab_count_locked
changed_effects for_user info tracked tk = switch_effects true info (context_of tracked) tk
changed_effects for_program info tracked tk = switch_effects false info (context_of tracked) tk
changed_effects stay info none tk = []
changed_effects stay info (some t) tk =
    if tk.active_id == info.target_id
    then shows info.url info.title (total_tab_count_locked tk) ∷ []
    else shows_active tk ∷ []

-- The handler from the registration on.
abbrev pub changed_from : ℕ → TargetInfo → Tracker × Option Tracked × Bool → Tracker × List Effect
changed_from now info (tk1, tracked, created) =
    let (tk2, evidence) = attribute_new created now info tk1 in
    let tk3 = note_pending info evidence tk2 in
    let follow = decide_follow (is_some tracked) info evidence tk3 in
    (place_changed follow info tk3, changed_effects follow info tracked tk3)

unfoldable pub handle_target_info_changed : ℕ → TargetInfo → Tracker → Tracker × List Effect
unfolding register_target_locked attribute decide_follow place_changed changed_effects
handle_target_info_changed now info tk =
    if not (info.type == "page")
    then (tk, [])
    else changed_from now info (register_target_locked now info tk)

-- The events of the browser, in the order of the queue.
pub data BrowserEvent : Type 0 where
  created info_changed : TargetInfo → BrowserEvent
  destroyed : String → BrowserEvent

unfoldable pub dispatch_browser_event : ℕ → BrowserEvent → Tracker → Tracker × List Effect
unfolding handle_target_created handle_target_destroyed handle_target_info_changed
dispatch_browser_event now (created info) tk = handle_target_created now info tk
dispatch_browser_event now (destroyed id) tk = handle_target_destroyed id tk
dispatch_browser_event now (info_changed info) tk = handle_target_info_changed now info tk

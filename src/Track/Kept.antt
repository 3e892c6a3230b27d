-- ===== src/Track/Kept.antt =====
-- The tracker of browser/target_tracker.go stays consistent through the events of the browser.
use deepwork_browser.Prelude.{
  ℕ, String, Bool, true, false, not, ◌&&◌, ◌||◌, List, none, arith, refl, is_some, ◌==◌, ◌≡◌, ◌⊎◌,
  inl, inr, lookup, ap, ◌∙◌, Bool-cases, Option-cases, if_cases_dep,
}
use deepwork_browser.Track.State.{
  TargetInfo, Tracker, is_page, is_blank, register_target_locked, delete_pending,
}
use deepwork_browser.Track.Attribution.{
  Evidence, unclaimed, is_claimed, attribute, consume_window_open_hint_locked,
  consume_gesture_claim_locked, prune_attribution_locked,
}
use deepwork_browser.Track.Events.{
  Effect, place_created, place_changed, Follow, stay, for_user, for_program, decide_follow,
  note_pending, attribute_new, changed_from, handle_target_created, handle_target_destroyed,
  handle_target_info_changed, BrowserEvent, created, info_changed, destroyed,
  dispatch_browser_event,
}
use deepwork_browser.Track.Invariant.{
  IsTracked, forget_target-IsTracked, register_target_locked-IsTracked,
  register_target_locked-lookup, make_active-IsTracked, add_pending-IsTracked,
  delete_pending-IsTracked,
}
use deepwork_browser.Track.Claims.{attribute-IsTracked}

abbrev KeptEffects : Tracker × List Effect → Type 0
KeptEffects r = IsTracked r.0

-- Only the hints and claims change.
consume_gesture_claim_locked-targets :
    (now : ℕ) (info : TargetInfo) (tk : Tracker)
    → (consume_gesture_claim_locked now info tk).0.targets ≡ tk.targets
unfolding consume_gesture_claim_locked prune_attribution_locked
consume_gesture_claim_locked-targets now info tk = ground arith

consume_window_open_hint_locked-targets :
    (now : ℕ) (info : TargetInfo) (tk : Tracker)
    → (consume_window_open_hint_locked now info tk).0.targets ≡ tk.targets
unfolding consume_window_open_hint_locked prune_attribution_locked
consume_window_open_hint_locked-targets now info tk = ground arith

pub attribute-targets :
    (now : ℕ) (info : TargetInfo) (tk : Tracker) → (attribute now info tk).0.targets ≡ tk.targets
unfolding attribute
attribute-targets now info tk = ground (
  arith,
  consume_window_open_hint_locked-targets now info tk,
  consume_gesture_claim_locked-targets now info (consume_window_open_hint_locked now info tk).0,
)

-- A target that is there or new is a page.
pub register_target_locked-page :
    (now : ℕ) (info : TargetInfo) (tk : Tracker)
    → is_some (register_target_locked now info tk).1 ≡ is_page info
unfolding register_target_locked
register_target_locked-page now info tk = ground arith

pub register_target_locked-new :
    (now : ℕ) (info : TargetInfo) (tk : Tracker)
    → (register_target_locked now info tk).2
      ≡ (is_page info && not (is_some (lookup info.target_id tk.targets)))
unfolding register_target_locked
register_target_locked-new now info tk = ground arith

place_created-IsTracked :
    (info : TargetInfo) (evidence : Evidence) (tk : Tracker)
    → is_some (lookup info.target_id tk.targets) ≡ true
    → IsTracked tk
    → IsTracked (place_created info evidence tk)
unfolding place_created
place_created-IsTracked info evidence tk known c =
    if_cases_dep IsTracked (not (is_claimed evidence)) _ _ (λ _. c)
      (λ _.
        if_cases_dep IsTracked (is_blank info.url) _ _
          (λ _. add_pending-IsTracked info.target_id tk known c)
          (λ _. make_active-IsTracked info.target_id tk known c))

pub registered :
    (now : ℕ) (info : TargetInfo) (tk : Tracker)
    → is_page info ≡ true
    → is_some (
        lookup info.target_id (attribute now info (register_target_locked now info tk).0).0.targets)
      ≡ true
registered now info tk page =
    rw (attribute-targets now info (register_target_locked now info tk).0)
      (register_target_locked-lookup now info tk page)

handle_target_created-IsTracked :
    (now : ℕ) (info : TargetInfo) (tk : Tracker)
    → IsTracked tk
    → IsTracked (handle_target_created now info tk).0
unfolding handle_target_created
handle_target_created-IsTracked now info tk c =
    let c1 = register_target_locked-IsTracked now info tk c in
    if_cases_dep KeptEffects
      (not (info.type == "page") || not (register_target_locked now info tk).2) _ _ (λ _. c1)
      (λ h.
        place_created-IsTracked info _ _
          (registered now info tk (ground (arith, h, register_target_locked-new now info tk)))
          (attribute-IsTracked now info _ c1))

pub handle_target_destroyed-IsTracked :
    (id : String) (tk : Tracker) → IsTracked tk → IsTracked (handle_target_destroyed id tk).0
unfolding handle_target_destroyed
handle_target_destroyed-IsTracked id tk c = elim (Option-cases (lookup id tk.targets)) [
  | inl e ↦ rw (handle_target_destroyed, e) c
  | inr (t, e) ↦ rw (handle_target_destroyed, e) (forget_target-IsTracked id tk c)
]

place_changed-IsTracked :
    (follow : Follow) (info : TargetInfo) (tk : Tracker)
    → (follow ≡ stay) ⊎ (is_some (lookup info.target_id tk.targets) ≡ true)
    → IsTracked tk
    → IsTracked (place_changed follow info tk)
unfolding place_changed
place_changed-IsTracked stay info tk known c = c
place_changed-IsTracked for_user info tk known c =
    make_active-IsTracked info.target_id
      (record tk { pending_switch = delete_pending info.target_id tk.pending_switch })
      (ground (arith, known)) (delete_pending-IsTracked info.target_id tk c)
place_changed-IsTracked for_program info tk known c =
    make_active-IsTracked info.target_id
      (record tk { pending_switch = delete_pending info.target_id tk.pending_switch })
      (ground (arith, known)) (delete_pending-IsTracked info.target_id tk c)

attribute_new-IsTracked :
    (new : Bool) (now : ℕ) (info : TargetInfo) (tk : Tracker)
    → IsTracked tk
    → IsTracked (attribute_new new now info tk).0
attribute_new-IsTracked true now info tk c = attribute-IsTracked now info tk c
attribute_new-IsTracked false now info tk c = c

attribute_new-targets :
    (new : Bool) (now : ℕ) (info : TargetInfo) (tk : Tracker)
    → (attribute_new new now info tk).0.targets ≡ tk.targets
attribute_new-targets true now info tk = attribute-targets now info tk
attribute_new-targets false now info tk = refl

note_pending-IsTracked :
    (info : TargetInfo) (evidence : Evidence) (tk : Tracker)
    → is_some (lookup info.target_id tk.targets) ≡ true
    → IsTracked tk
    → IsTracked (note_pending info evidence tk)
note_pending-IsTracked info evidence tk known c =
    if_cases_dep IsTracked (is_claimed evidence && is_blank info.url) _ _
      (λ _. add_pending-IsTracked info.target_id tk known c) (λ _. c)

note_pending-targets :
    (info : TargetInfo) (evidence : Evidence) (tk : Tracker)
    → (note_pending info evidence tk).targets ≡ tk.targets
note_pending-targets info evidence tk = ground arith

-- A page is in the index by the time its evidence has been weighed.
known_page :
    (now : ℕ) (info : TargetInfo) (tk : Tracker)
    → is_page info ≡ true
    → is_some (
        lookup info.target_id
          (attribute_new
            (register_target_locked now info tk).2
            now
            info
            (register_target_locked now info tk).0).0.targets)
      ≡ true
known_page now info tk page =
    rw
      (attribute_new-targets (register_target_locked now info tk).2 now info
        (register_target_locked now info tk).0)
      (register_target_locked-lookup now info tk page)

-- The handler, once it is a page.
changed-IsTracked :
    (now : ℕ) (info : TargetInfo) (tk : Tracker)
    → is_page info ≡ true
    → IsTracked tk
    → IsTracked (handle_target_info_changed now info tk).0
unfolding handle_target_info_changed
changed-IsTracked now info tk page c =
    let c2 =
      attribute_new-IsTracked (register_target_locked now info tk).2 now info _
        (register_target_locked-IsTracked now info tk c) in
    if_cases_dep KeptEffects (not (info.type == "page")) _ _ (λ _. c)
      (λ _.
        place_changed-IsTracked _ info _
          (inr (rw (note_pending-targets info) (known_page now info tk page)))
          (note_pending-IsTracked info _ _ (known_page now info tk page) c2))

register_target_locked-other :
    (now : ℕ) (info : TargetInfo) (tk : Tracker)
    → is_page info ≡ false
    → register_target_locked now info tk ≡ (tk, none, false)
unfolding register_target_locked
register_target_locked-other now info tk page = rw page refl

decide_follow-unknown :
    (info : TargetInfo) (evidence : Evidence) (tk : Tracker)
    → decide_follow false info evidence tk ≡ stay
unfolding decide_follow
decide_follow-unknown info evidence tk = ground arith

abbrev Unmoved : Tracker → Tracker × List Effect → Type 0
Unmoved tk r = r.0 ≡ tk

place_changed-stay : (info : TargetInfo) (tk : Tracker) → place_changed stay info tk ≡ tk
unfolding place_changed
place_changed-stay info tk = refl

-- A target without an id is not registered, and nothing else happens.
pub handle_target_info_changed-other :
    (now : ℕ) (info : TargetInfo) (tk : Tracker)
    → is_page info ≡ false
    → (handle_target_info_changed now info tk).0 ≡ tk
unfolding handle_target_info_changed
handle_target_info_changed-other now info tk page =
    if_cases_dep (Unmoved tk) (not (info.type == "page")) _ _ (λ _. refl)
      (λ _.
        ap (λ r. (changed_from now info r).0) (register_target_locked-other now info tk page)
        ∙ ap (λ f. place_changed f info tk) (decide_follow-unknown info unclaimed tk)
        ∙ place_changed-stay info tk)

handle_target_info_changed-IsTracked :
    (now : ℕ) (info : TargetInfo) (tk : Tracker)
    → IsTracked tk
    → IsTracked (handle_target_info_changed now info tk).0
handle_target_info_changed-IsTracked now info tk c = elim (Bool-cases (is_page info)) [
  | inl page ↦ changed-IsTracked now info tk page c
  | inr page ↦ rw (handle_target_info_changed-other now info tk page) c
]

pub dispatch_browser_event-IsTracked :
    (now : ℕ) (e : BrowserEvent) (tk : Tracker)
    → IsTracked tk
    → IsTracked (dispatch_browser_event now e tk).0
unfolding dispatch_browser_event
dispatch_browser_event-IsTracked now (created info) tk c =
    handle_target_created-IsTracked now info tk c
dispatch_browser_event-IsTracked now (info_changed info) tk c =
    handle_target_info_changed-IsTracked now info tk c
dispatch_browser_event-IsTracked now (destroyed id) tk c = handle_target_destroyed-IsTracked id tk c

-- ===== src/Track/Waiting.antt =====
-- The life of a target of browser/target_tracker.go that is opened without a URL: it waits until a
-- change of it has one.
use mathlib.Core.Path.{subst}
use deepwork_browser.Prelude.{
  ℕ, String, true, false, not, ◌||◌, List, [], ◌∷◌, none, some, arith, refl, is_some, ◌==◌, eq_refl,
  ◌≡◌, inl, inr, ap, sym, ◌∙◌, lookup, insert, lookup-insert, Option-cases, if_cases_dep,
}
use deepwork_browser.Track.State.{
  TargetInfo, Tracker, Tracked, is_blank, is_page, register_target_locked, refreshed,
  target_id_in_order, current_source_target_locked,
}
use deepwork_browser.Track.Attribution.{
  attribute, by_opener, unclaimed, opener_matches_current_source_locked,
}
use deepwork_browser.Track.Attention.{register_target_locked-source}
use deepwork_browser.Track.Events.{
  Effect, stay, decide_follow, place_created, place_changed, handle_target_created,
  handle_target_info_changed,
}
use deepwork_browser.Track.Order.{in_order-add_pending}
use deepwork_browser.Track.Pending.{changed, handle_target_info_changed-pending}

-- A known target that waits, while another is in front.
abbrev Waits : String → String → Tracker → Type 0
Waits front id tk =
    (tk.active_id ≡ front)
    × (is_some (lookup id tk.targets) ≡ true)
    × (target_id_in_order id tk.pending_switch ≡ true)

-- The reports of the target: pages without a URL.
abbrev pub AreBlank : String → List (ℕ × TargetInfo) → Type 0
AreBlank id [] = Unit
AreBlank id ((now, info) ∷ rest) =
    (info.target_id ≡ id) × (is_page info ≡ true) × (is_blank info.url ≡ true) × AreBlank id rest

unfoldable pub after_changes : List (ℕ × TargetInfo) → Tracker → Tracker
unfolding handle_target_info_changed
after_changes [] tk = tk
after_changes ((now, info) ∷ rest) tk =
    after_changes rest (handle_target_info_changed now info tk).0

decide_follow-blank :
    (info : TargetInfo) (tk : Tracker)
    → is_blank info.url ≡ true
    → decide_follow true info unclaimed tk ≡ stay
unfolding decide_follow
decide_follow-blank info tk url = ground (arith, url)

changed-blank :
    (now : ℕ) (info : TargetInfo) (t : Tracked) (tk : Tracker)
    → is_page info ≡ true
    → is_blank info.url ≡ true
    → lookup info.target_id tk.targets ≡ some t
    → (handle_target_info_changed now info tk).0
      ≡ record tk { targets = insert info.target_id (refreshed tk info t) tk.targets }
unfolding place_changed
changed-blank now info t tk page url e =
    let tk1 = record tk { targets = insert info.target_id (refreshed tk info t) tk.targets } in
    changed now info t tk page e
    ∙ ap (λ f. place_changed f info tk1) (decide_follow-blank info tk1 url)

known_insert :
    (id : String) (t : Tracked) (tk : Tracker) → is_some (lookup id (insert id t tk.targets)) ≡ true
known_insert id t tk = rw (lookup-insert id id t tk.targets, eq_refl id) refl

Waits-changed :
    (now : ℕ) (info : TargetInfo) (front : String) (tk : Tracker)
    → is_page info ≡ true
    → is_blank info.url ≡ true
    → Waits front info.target_id tk
    → Waits front info.target_id (handle_target_info_changed now info tk).0
Waits-changed now info front tk page url (active, known, pending) =
    elim (Option-cases (lookup info.target_id tk.targets)) [
      | inl e ↦ ground (arith, known, e)
      | inr (t, e) ↦
          subst (Waits front info.target_id) (sym (changed-blank now info t tk page url e))
            (active, known_insert info.target_id (refreshed tk info t) tk, pending)
    ]

Waits-after_changes :
    (changes : List (ℕ × TargetInfo)) (front id : String) (tk : Tracker)
    → AreBlank id changes
    → Waits front id tk
    → Waits front id (after_changes changes tk)
unfolding after_changes
Waits-after_changes [] front id tk b w = w
Waits-after_changes ((now, info) ∷ rest) front id tk (same, page, url, b) w =
    Waits-after_changes rest front id (handle_target_info_changed now info tk).0 b (
      subst (λ k. Waits front k (handle_target_info_changed now info tk).0) same
        (Waits-changed now info front tk page url (subst (λ k. Waits front k tk) (sym same) w)))

attribute-by_opener :
    (now : ℕ) (info : TargetInfo) (tk : Tracker)
    → opener_matches_current_source_locked info tk ≡ true
    → attribute now info tk ≡ (tk, by_opener)
unfolding attribute
attribute-by_opener now info tk h = rw (attribute, h) refl

abbrev Registered : ℕ → TargetInfo → Tracker → Type 0
Registered now info tk =
    ((register_target_locked now info tk).2 ≡ true)
    × ((register_target_locked now info tk).0.active_id ≡ tk.active_id)
    × (is_some (lookup info.target_id (register_target_locked now info tk).0.targets) ≡ true)

registered :
    (now : ℕ) (info : TargetInfo) (tk : Tracker)
    → is_page info ≡ true
    → lookup info.target_id tk.targets ≡ none
    → (tk.active_id == "") ≡ false
    → Registered now info tk
unfolding register_target_locked
registered now info tk page e n = (
  rw (register_target_locked, page, e) refl,
  rw (register_target_locked, page, e, n) refl,
  rw (register_target_locked, page, e) (known_insert info.target_id _ tk),
)

from_source :
    (info : TargetInfo) (tk : Tracker)
    → (info.type == "page") ≡ true
    → (info.opener_id == "") ≡ false
    → info.opener_id ≡ current_source_target_locked tk
    → opener_matches_current_source_locked info tk ≡ true
unfolding opener_matches_current_source_locked
from_source info tk page named same =
    rw (opener_matches_current_source_locked, page, named, sym same, named, eq_refl info.opener_id)
      refl

Waits-created :
    (now : ℕ) (info : TargetInfo) (tk : Tracker)
    → is_page info ≡ true
    → is_blank info.url ≡ true
    → lookup info.target_id tk.targets ≡ none
    → (tk.active_id == "") ≡ false
    → (info.opener_id == "") ≡ false
    → info.opener_id ≡ current_source_target_locked tk
    → Waits tk.active_id info.target_id (handle_target_created now info tk).0
unfolding handle_target_created place_created
Waits-created now info tk page url e n named same =
    let (new, active, known) = registered now info tk page e n in
    let tk1 = (register_target_locked now info tk).0 in
    let by = attribute-by_opener now info tk1 (
      from_source info tk1 (ground (arith, page)) named
        (same ∙ sym (register_target_locked-source now info tk n))) in
    if_cases_dep (λ (r : Tracker × List Effect). Waits tk.active_id info.target_id r.0)
      (not (info.type == "page") || not (register_target_locked now info tk).2) _ _
      (λ h. ground (arith, h, page, new))
      (λ _.
        subst (λ r. Waits tk.active_id info.target_id (place_created info r.1 r.0)) (sym by)
          (rw (place_created, url)
            (
              active,
              known,
              rw
                  (
                    in_order-add_pending info.target_id info.target_id tk1.pending_switch,
                    eq_refl info.target_id,
                  )
                  refl,
            )))

-- While another target is in front, a new page that the source opens without a URL leaves that one
-- there, and so does every change of the page without one; its first change with one, no other event
-- having come in between, brings it to the front, and it waits no longer.
pub after_changes-follows :
    (now later : ℕ) (info final : TargetInfo) (changes : List (ℕ × TargetInfo)) (tk : Tracker)
    → is_page info ≡ true
    → is_blank info.url ≡ true
    → lookup info.target_id tk.targets ≡ none
    → (tk.active_id == "") ≡ false
    → (tk.active_id == info.target_id) ≡ false
    → (info.opener_id == "") ≡ false
    → info.opener_id ≡ current_source_target_locked tk
    → AreBlank info.target_id changes
    → final.target_id ≡ info.target_id
    → is_page final ≡ true
    → is_blank final.url ≡ false
    → let waiting = after_changes changes (handle_target_created now info tk).0 in
      (waiting.active_id ≡ tk.active_id)
      × ((handle_target_info_changed later final waiting).0.active_id ≡ info.target_id)
      × (target_id_in_order info.target_id
            (handle_target_info_changed later final waiting).0.pending_switch
          ≡ false)
after_changes-follows now later info final changes tk page url e n other named same blank id page'
      url' =
    let waiting = after_changes changes (handle_target_created now info tk).0 in
    let (active, known, pending) =
      Waits-after_changes changes tk.active_id info.target_id (handle_target_created now info tk).0
        blank (Waits-created now info tk page url e n named same) in
    let (front, gone) =
      handle_target_info_changed-pending later final waiting page' url'
        (ap (λ k. is_some (lookup k waiting.targets)) id ∙ known)
        (ap (λ k. target_id_in_order k waiting.pending_switch) id ∙ pending)
        (ap (λ k. waiting.active_id == k) id ∙ ap (λ k. k == info.target_id) active ∙ other) in
    (
      active,
      front ∙ id,
      ap
            (λ k.
              target_id_in_order k
                (handle_target_info_changed later final waiting).0.pending_switch)
            (sym id)
          ∙ gone,
    )

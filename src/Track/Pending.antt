-- ===== src/Track/Pending.antt =====
-- The targets of browser/target_tracker.go that wait for a URL.
use deepwork_browser.Prelude.{
  ℕ, true, false, not, [], some, arith, refl, if◌then◌else◌, is_some, ◌==◌, eq_refl, ◌≡◌, inl, inr,
  ap, ◌∙◌, lookup, insert, Option-cases,
}
use deepwork_browser.Track.State.{
  Tracked, TargetInfo, Tracker, is_blank, is_page, register_target_locked, refreshed,
  target_id_in_order,
}
use deepwork_browser.Track.Attribution.{unclaimed}
use deepwork_browser.Track.Events.{
  stay, for_user, decide_follow, place_changed, changed_from, handle_target_info_changed,
}
use deepwork_browser.Track.Order.{in_order-delete_pending}

register_target_locked-known :
    (now : ℕ) (info : TargetInfo) (t : Tracked) (tk : Tracker)
    → is_page info ≡ true
    → lookup info.target_id tk.targets ≡ some t
    → register_target_locked now info tk ≡ (
      record tk { targets = insert info.target_id (refreshed tk info t) tk.targets },
      some (refreshed tk info t),
      false,
    )
unfolding register_target_locked
register_target_locked-known now info t tk page e = rw (page, e) refl

page_type : (info : TargetInfo) → is_page info ≡ true → (info.type == "page") ≡ true
page_type info page = ground (arith, page)

-- The change of a known target.
pub changed :
    (now : ℕ) (info : TargetInfo) (t : Tracked) (tk : Tracker)
    → is_page info ≡ true
    → lookup info.target_id tk.targets ≡ some t
    → (handle_target_info_changed now info tk).0
      ≡ place_changed
          (decide_follow true info unclaimed
            (record tk { targets = insert info.target_id (refreshed tk info t) tk.targets }))
          info
          (record tk { targets = insert info.target_id (refreshed tk info t) tk.targets })
unfolding handle_target_info_changed
changed now info t tk page e =
    ap
      (λ b.
        (if not b then (tk, []) else changed_from now info (register_target_locked now info tk)).0)
      (page_type info page)
    ∙ ap (λ r. (changed_from now info r).0) (register_target_locked-known now info t tk page e)

decide_follow-pending :
    (info : TargetInfo) (tk : Tracker)
    → (tk.active_id == info.target_id) ≡ false
    → is_blank info.url ≡ false
    → target_id_in_order info.target_id tk.pending_switch ≡ true
    → decide_follow true info unclaimed tk ≡ for_user
unfolding decide_follow
decide_follow-pending info tk other url pending = rw (other, url, pending) refl

decide_follow-active :
    (info : TargetInfo) (tk : Tracker)
    → (tk.active_id == info.target_id) ≡ true
    → decide_follow true info unclaimed tk ≡ stay
unfolding decide_follow
decide_follow-active info tk active = rw active refl

-- A target that waits and is not in front comes to the front when it has a URL, and waits no longer.
pub handle_target_info_changed-pending :
    (now : ℕ) (info : TargetInfo) (tk : Tracker)
    → is_page info ≡ true
    → is_blank info.url ≡ false
    → is_some (lookup info.target_id tk.targets) ≡ true
    → target_id_in_order info.target_id tk.pending_switch ≡ true
    → (tk.active_id == info.target_id) ≡ false
    → ((handle_target_info_changed now info tk).0.active_id ≡ info.target_id)
      × (target_id_in_order info.target_id (handle_target_info_changed now info tk).0.pending_switch
          ≡ false)
unfolding place_changed
handle_target_info_changed-pending now info tk page url known pending other =
    elim (Option-cases (lookup info.target_id tk.targets)) [
      | inl e ↦ ground (arith, known, e)
      | inr (t, e) ↦
          let to =
            changed now info t tk page e
            ∙ ap
                (λ f.
                  place_changed f info (record tk {
                    targets = insert info.target_id (refreshed tk info t) tk.targets;
                  }))
                (decide_follow-pending info
                  (record tk { targets = insert info.target_id (refreshed tk info t) tk.targets })
                  other url pending) in
          (
            ap (λ r. r.active_id) to,
            ap (λ r. target_id_in_order info.target_id r.pending_switch) to
                ∙ in_order-delete_pending info.target_id info.target_id tk.pending_switch
                ∙ rw (eq_refl info.target_id) refl,
          )
    ]

-- A change of the target in front leaves it in front, and waiting if it was.
pub changed-active :
    (now : ℕ) (info : TargetInfo) (t : Tracked) (tk : Tracker)
    → is_page info ≡ true
    → lookup info.target_id tk.targets ≡ some t
    → (tk.active_id == info.target_id) ≡ true
    → (handle_target_info_changed now info tk).0
      ≡ record tk { targets = insert info.target_id (refreshed tk info t) tk.targets }
unfolding place_changed
changed-active now info t tk page e active =
    changed now info t tk page e
    ∙ ap
        (λ f.
          place_changed f info
            (record tk { targets = insert info.target_id (refreshed tk info t) tk.targets }))
        (decide_follow-active info
          (record tk { targets = insert info.target_id (refreshed tk info t) tk.targets }) active)

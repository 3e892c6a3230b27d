-- ===== src/Track/Invariant.antt =====
-- What holds of the tracker of browser/target_tracker.go between any two of its operations.
use deepwork_browser.Prelude.{
  ◌≤◌, length, ℕ, String, Bool, true, false, not, List, [], ◌∷◌, Option, none, some, arith, refl,
  if◌then◌else◌, is_some, ◌==◌, eq_iff, eq_refl, ◌≡◌, ◌⊎◌, inl, inr, Map, lookup, insert, delete,
  lookup-insert, lookup-delete, Bool-cases, Option-cases, if_cases_dep,
}
use deepwork_browser.Track.State.{
  WindowOpenHint, GestureClaim, Tracked, TargetInfo, Tracker, is_page, target_id_in_order,
  remove_target_from_order, add_target_order_locked, last_live, add_pending, delete_pending,
  register_target_locked, refreshed, new_tracked,
}
use deepwork_browser.Track.Attribution.{target_max_attribution_hints}
use deepwork_browser.Track.Events.{forget_target}
use deepwork_browser.Track.Order.{
  Once, in_order-remove, Once-remove, in_order-add, Once-add, last_live-lookup, last_live-none,
  in_order-delete_pending, in_order-add_pending,
}

-- The order holds the targets, each once; the active id is a target, unless there is none; what waits
-- for a URL is a target.
pub record Consistent (targets : Map Tracked) (active : String) (order pending : List String)
    (claims : List GestureClaim) (hints : List WindowOpenHint) : Type 0 where
  pub keyed :
      (k : String) (t : Tracked) → lookup k targets ≡ some t → (t.id ≡ k) × ((k == "") ≡ false)
  pub ordered : (k : String) → target_id_in_order k order ≡ is_some (lookup k targets)
  pub once : Once order
  pub active_is_target : (is_some (lookup active targets) ≡ true) ⊎ ((active ≡ "") × (order ≡ []))
  pub pending_are_targets :
      (k : String) → target_id_in_order k pending ≡ true → is_some (lookup k targets) ≡ true
  pub claims_capped : length claims ≤ target_max_attribution_hints
  pub hints_capped : length hints ≤ target_max_attribution_hints

abbrev pub IsTracked : Tracker → Type 0
IsTracked tk =
    Consistent tk.targets tk.active_id tk.order tk.pending_switch tk.gesture_claims tk.window_hints

-- The empty id is no target.
pub lookup-empty :
    {targets : Map Tracked} {active : String} {order pending : List String}
    {claims : List GestureClaim} {hints : List WindowOpenHint}
    → Consistent targets active order pending claims hints
    → lookup "" targets ≡ none
lookup-empty {targets} c = elim (Option-cases (lookup "" targets)) [
  | inl e ↦ e
  | inr (t, e) ↦ ground (arith, c.keyed "" t e, eq_refl "")
]

-- A change of a target that is there.
pub insert-Consistent :
    (id : String) (t : Tracked) (targets : Map Tracked) (active : String)
    (order pending : List String) (claims : List GestureClaim) (hints : List WindowOpenHint)
    → is_some (lookup id targets) ≡ true
    → (id == "") ≡ false
    → t.id ≡ id
    → Consistent targets active order pending claims hints
    → Consistent (insert id t targets) active order pending claims hints
insert-Consistent id t targets active order pending claims hints known named e c = record {
  keyed = λ k u h. ground (arith, lookup-insert id k t targets, c.keyed k u, eq_iff id k);
  ordered = λ k. ground (arith, lookup-insert id k t targets, c.ordered k, eq_iff id k);
  once = c.once;
  active_is_target = ground (arith, lookup-insert id active t targets, c.active_is_target);
  pending_are_targets =
      λ k h. ground (arith, lookup-insert id k t targets, c.pending_are_targets k);
  claims_capped = c.claims_capped;
  hints_capped = c.hints_capped;
}

-- A new target.
pub add-Consistent :
    (id : String) (t : Tracked) (front : Bool) (targets : Map Tracked) (active : String)
    (order pending : List String) (claims : List GestureClaim) (hints : List WindowOpenHint)
    → lookup id targets ≡ none
    → (id == "") ≡ false
    → t.id ≡ id
    → Consistent targets active order pending claims hints
    → Consistent
        (insert id t targets)
        (if active == "" then id else active)
        (add_target_order_locked id front order)
        pending
        claims
        hints
add-Consistent id t front targets active order pending claims hints fresh named e c = record {
  keyed = λ k u h. ground (arith, lookup-insert id k t targets, c.keyed k u, eq_iff id k);
  ordered =
      λ k. ground (arith, lookup-insert id k t targets, c.ordered k, in_order-add id k front order);
  once = Once-add id front order c.once;
  active_is_target = inl (
      ground (
        arith,
        lookup-insert id id t targets,
        lookup-insert id active t targets,
        c.active_is_target,
        eq_iff active "",
        eq_refl id,
      ));
  pending_are_targets =
      λ k h. ground (arith, lookup-insert id k t targets, c.pending_are_targets k);
  claims_capped = c.claims_capped;
  hints_capped = c.hints_capped;
}

-- The fallback is a target, unless there is none.
fallback_live :
    (targets : Map Tracked) (order : List String)
    → ((k : String) → target_id_in_order k order ≡ is_some (lookup k targets))
    → lookup "" targets ≡ none
    → (is_some (lookup (last_live targets order) targets) ≡ true)
      ⊎ ((last_live targets order ≡ "") × (order ≡ []))
unfolding target_id_in_order last_live
fallback_live targets [] h n = inr (refl, refl)
fallback_live targets (x ∷ xs) h n = elim (last_live-lookup targets (x ∷ xs)) [
  | inr live ↦ inl live
  | inl e ↦ ground (arith, e, h x, n, eq_refl x, eq_iff x "", last_live-none targets x xs)
]

lookup-delete_empty :
    (id : String) (tk : Tracker) → IsTracked tk → lookup "" (delete id tk.targets) ≡ none
lookup-delete_empty id tk c = ground (arith, lookup-delete id "" tk.targets, lookup-empty c)

-- A target that is gone; the active one becomes another live one.
pub forget_target-IsTracked :
    (id : String) (tk : Tracker) → IsTracked tk → IsTracked (forget_target id tk)
unfolding forget_target
forget_target-IsTracked id tk c = record {
  keyed = λ k u h. ground (arith, lookup-delete id k tk.targets, c.keyed k u);
  ordered = λ k.
      ground
        (arith, lookup-delete id k tk.targets, c.ordered k, in_order-remove id k tk.order c.once);
  once = Once-remove id tk.order c.once;
  active_is_target = elim (Bool-cases (tk.active_id == id)) [
    | inl e ↦ rw e (
        fallback_live (delete id tk.targets) (remove_target_from_order id tk.order)
          (λ k. ground (
            arith,
            lookup-delete id k tk.targets,
            c.ordered k,
            in_order-remove id k tk.order c.once,
          ))
          (lookup-delete_empty id tk c))
    | inr e ↦ rw e (
        ground (
          arith,
          c.active_is_target,
          lookup-delete id tk.active_id tk.targets,
          eq_iff id tk.active_id,
          eq_iff tk.active_id id,
        ))
  ];
  pending_are_targets = λ k h. ground (
    arith,
    lookup-delete id k tk.targets,
    c.pending_are_targets k,
    in_order-delete_pending id k tk.pending_switch,
  );
  claims_capped = c.claims_capped;
  hints_capped = c.hints_capped;
}

abbrev Kept : Tracker × Option Tracked × Bool → Type 0
Kept r = IsTracked r.0

pub register_target_locked-IsTracked :
    (now : ℕ) (info : TargetInfo) (tk : Tracker)
    → IsTracked tk
    → IsTracked (register_target_locked now info tk).0
unfolding register_target_locked
register_target_locked-IsTracked now info tk c =
    if_cases_dep Kept (not (is_page info)) _ _ (λ _. c)
      (λ page. elim (Option-cases (lookup info.target_id tk.targets)) [
        | inl fresh ↦ rw fresh (
            add-Consistent info.target_id _ _ tk.targets tk.active_id tk.order tk.pending_switch
              tk.gesture_claims tk.window_hints fresh (ground arith) refl c)
        | inr (t, e) ↦ rw e (
            insert-Consistent info.target_id _ tk.targets tk.active_id tk.order tk.pending_switch
              tk.gesture_claims tk.window_hints (rw e) (ground arith) (c.keyed info.target_id t e).0
              c)
      ])

-- A registered target is in the index.
pub register_target_locked-lookup :
    (now : ℕ) (info : TargetInfo) (tk : Tracker)
    → is_page info ≡ true
    → is_some (lookup info.target_id (register_target_locked now info tk).0.targets) ≡ true
unfolding register_target_locked
register_target_locked-lookup now info tk page =
    elim (Option-cases (lookup info.target_id tk.targets)) [
      | inl fresh ↦
          rw
            (
              page,
              fresh,
              lookup-insert info.target_id info.target_id (new_tracked now tk info) tk.targets,
              eq_refl info.target_id,
            )
            refl
      | inr (t, e) ↦
          rw
            (
              page,
              e,
              lookup-insert info.target_id info.target_id (refreshed tk info t) tk.targets,
              eq_refl info.target_id,
            )
            refl
    ]

pub make_active-IsTracked :
    (id : String) (tk : Tracker)
    → is_some (lookup id tk.targets) ≡ true
    → IsTracked tk
    → IsTracked (record tk { active_id = id })
make_active-IsTracked id tk known c = record {
  keyed = c.keyed;
  ordered = c.ordered;
  once = c.once;
  active_is_target = inl known;
  pending_are_targets = c.pending_are_targets;
  claims_capped = c.claims_capped;
  hints_capped = c.hints_capped;
}

pub add_pending-IsTracked :
    (id : String) (tk : Tracker)
    → is_some (lookup id tk.targets) ≡ true
    → IsTracked tk
    → IsTracked (record tk { pending_switch = add_pending id tk.pending_switch })
add_pending-IsTracked id tk known c = record {
  keyed = c.keyed;
  ordered = c.ordered;
  once = c.once;
  active_is_target = c.active_is_target;
  pending_are_targets = λ k h.
      ground
        (arith, in_order-add_pending id k tk.pending_switch, c.pending_are_targets k, eq_iff id k);
  claims_capped = c.claims_capped;
  hints_capped = c.hints_capped;
}

pub delete_pending-IsTracked :
    (id : String) (tk : Tracker)
    → IsTracked tk
    → IsTracked (record tk { pending_switch = delete_pending id tk.pending_switch })
delete_pending-IsTracked id tk c = record {
  keyed = c.keyed;
  ordered = c.ordered;
  once = c.once;
  active_is_target = c.active_is_target;
  pending_are_targets = λ k h.
      ground (arith, in_order-delete_pending id k tk.pending_switch, c.pending_are_targets k);
  claims_capped = c.claims_capped;
  hints_capped = c.hints_capped;
}

-- ===== src/Track/Listing.antt =====
-- What `ListTargets` of browser/target_tracker.go shows of a consistent tracker.
use deepwork_browser.Prelude.{
  String, Bool, true, false, ◌||◌, List, [], ◌∷◌, ◌++◌, map, arith, refl, is_some, ◌==◌, eq_iff,
  eq_refl, ◌≡◌, inl, inr, ap, ◌∙◌, sym, Map, lookup, keep, Bool-cases, Option-cases,
}
use deepwork_browser.Live.Authority.{TabInfo}
use deepwork_browser.Track.State.{
  Tracked, Tracker, target_id_in_order, current_source_target_locked,
}
use deepwork_browser.Track.Commands.{list_ids, list_targets, keys}
use deepwork_browser.Track.Order.{Once}
use deepwork_browser.Track.Invariant.{IsTracked}

abbrev pub id_of : TabInfo → String
id_of t = t.id

abbrev pub is_active : TabInfo → Bool
is_active t = t.active

in_order-keys :
    (k : String) (m : Map Tracked) → target_id_in_order k (keys m) ≡ is_some (lookup k m)
unfolding target_id_in_order lookup
in_order-keys k [] = refl
in_order-keys k ((j, t) ∷ m) = ground (arith, in_order-keys k m)

-- What was seen is not shown again.
list_ids-seen :
    (tk : Tracker) (seen ys : List String)
    → ((k : String) → target_id_in_order k ys ≡ true → target_id_in_order k seen ≡ true)
    → list_ids tk seen ys ≡ []
unfolding list_ids target_id_in_order
list_ids-seen tk seen [] h = refl
list_ids-seen tk seen (y ∷ ys) h =
    rw (h y (rw (eq_refl y) refl))
      (ground (arith, list_ids-seen tk seen ys (λ k m. h k (ground arith))))

list_ids-one :
    (tk : Tracker) (seen : List String) (x : String) (ids : List String)
    → IsTracked tk
    → is_some (lookup x tk.targets) ≡ true
    → target_id_in_order x seen ≡ false
    → map id_of (list_ids tk seen (x ∷ ids)) ≡ x ∷ map id_of (list_ids tk (x ∷ seen) ids)
unfolding list_ids
list_ids-one tk seen x ids c live new = elim (Option-cases (lookup x tk.targets)) [
  | inl e ↦ ground (arith, e)
  | inr (t, e) ↦
      rw (list_ids, (c.keyed x t e).1, new, e)
        (ap (λ y. y ∷ map id_of (list_ids tk (x ∷ seen) ids)) (c.keyed x t e).0)
]

list_ids-ordered :
    (tk : Tracker) (seen xs ys : List String)
    → IsTracked tk
    → Once xs
    → ((k : String) → target_id_in_order k xs ≡ true → target_id_in_order k seen ≡ false)
    → ((k : String) → target_id_in_order k xs ≡ true → is_some (lookup k tk.targets) ≡ true)
    → ((k : String)
        → target_id_in_order k ys ≡ true
        → (target_id_in_order k xs || target_id_in_order k seen) ≡ true)
    → map id_of (list_ids tk seen (xs ++ ys)) ≡ xs
unfolding target_id_in_order
list_ids-ordered tk seen [] ys c o n l h = ap (map id_of) (list_ids-seen tk seen ys h)
list_ids-ordered tk seen (x ∷ xs) ys c (a, o) n l h =
    list_ids-one tk seen x (xs ++ ys) c (l x (rw (eq_refl x) refl)) (n x (rw (eq_refl x) refl))
    ∙ ap (λ r. x ∷ r)
        (list_ids-ordered tk (x ∷ seen) xs ys c o (λ k m. ground (arith, n k, a, eq_iff x k))
          (λ k m. l k (ground arith)) (λ k m. ground (arith, h k)))

-- The listing of a consistent tracker has each of its targets once, in the order in which they came.
pub list_targets-order : (tk : Tracker) → IsTracked tk → map id_of (list_targets tk) ≡ tk.order
unfolding list_targets
list_targets-order tk c =
    list_ids-ordered tk [] tk.order (keys tk.targets) c c.once (λ k m. refl)
      (λ k m. sym (c.ordered k) ∙ m)
      (λ k m. rw (c.ordered k) (ground (arith, in_order-keys k tk.targets)))

keep-id_of :
    (tk : Tracker) (seen ids : List String)
    → map id_of (keep is_active (list_ids tk seen ids))
      ≡ keep (λ x. current_source_target_locked tk == x) (map id_of (list_ids tk seen ids))
unfolding list_ids
keep-id_of tk seen [] = refl
keep-id_of tk seen (x ∷ ids) = ground (arith, keep-id_of tk (x ∷ seen) ids, keep-id_of tk seen ids)

keep-none :
    (a : String) (xs : List String) → target_id_in_order a xs ≡ false → keep (λ x. a == x) xs ≡ []
unfolding target_id_in_order
keep-none a [] h = refl
keep-none a (x ∷ xs) h = ground (arith, keep-none a xs, eq_iff a x, eq_iff x a)

keep-one :
    (a : String) (xs : List String)
    → Once xs
    → target_id_in_order a xs ≡ true
    → keep (λ x. a == x) xs ≡ a ∷ []
unfolding target_id_in_order
keep-one a [] o h = ground (arith, h)
keep-one a (x ∷ xs) (new, o) h = elim (Bool-cases (a == x)) [
  | inl e ↦
      rw (e, keep-none a xs (ground (arith, new, e, eq_iff a x))) (ground (arith, e, eq_iff a x))
  | inr e ↦ rw e (keep-one a xs o (ground (arith, h, eq_iff a x, eq_iff x a)))
]

-- The listing of a consistent tracker that has an active target marks it and nothing else.
pub list_targets-active :
    (tk : Tracker)
    → IsTracked tk
    → (tk.active_id == "") ≡ false
    → map id_of (keep is_active (list_targets tk)) ≡ tk.active_id ∷ []
unfolding list_targets current_source_target_locked
list_targets-active tk c n =
    keep-id_of tk [] (tk.order ++ keys tk.targets)
    ∙ ap (keep (λ x. current_source_target_locked tk == x)) (list_targets-order tk c)
    ∙ rw n (
        keep-one tk.active_id tk.order c.once
          (ground (arith, c.ordered tk.active_id, c.active_is_target, n, eq_iff tk.active_id "")))

-- ===== src/Track/Order.antt =====
-- The order of the targets and the set of those that wait: browser/target_tracker.go.
use deepwork_browser.Prelude.{
  String, Bool, true, false, ◌||◌, List, [], ◌∷◌, ◌++◌, arith, refl, if◌then◌else◌, is_some, ◌==◌,
  eq_iff, eq_refl, ◌≡◌, ◌≢◌, ◌⊎◌, inl, inr, Map, lookup, Bool-cases, if_cases_dep,
}
use deepwork_browser.Track.State.{
  Tracked, target_id_in_order, remove_target_from_order, add_target_order_locked, last_live,
  add_pending, delete_pending,
}

-- Each id at most once.
abbrev pub Once : List String → Type 0
Once [] = Unit
Once (x ∷ xs) = (target_id_in_order x xs ≡ false) × Once xs

pub in_order-append :
    (k : String) (xs ys : List String)
    → target_id_in_order k (xs ++ ys) ≡ (target_id_in_order k xs || target_id_in_order k ys)
unfolding target_id_in_order
in_order-append k [] ys = refl
in_order-append k (x ∷ xs) ys = ground (arith, in_order-append k xs ys)

pub in_order-remove :
    (id k : String) (xs : List String)
    → Once xs
    → target_id_in_order k (remove_target_from_order id xs)
      ≡ (if id == k then false else target_id_in_order k xs)
unfolding target_id_in_order remove_target_from_order
in_order-remove id k [] h = ground arith
in_order-remove id k (x ∷ xs) (a, h) =
    ground (arith, a, in_order-remove id k xs h, eq_iff x id, eq_iff id k, eq_iff x k)

pub Once-remove : (id : String) (xs : List String) → Once xs → Once (remove_target_from_order id xs)
unfolding remove_target_from_order
Once-remove id [] h = tt
Once-remove id (x ∷ xs) (a, h) = elim (Bool-cases (x == id)) [
  | inl e ↦ rw e h
  | inr e ↦ rw e (rw (in_order-remove id x xs h) (ground (arith, a)), Once-remove id xs h)
]

pub in_order-add :
    (id k : String) (front : Bool) (xs : List String)
    → target_id_in_order k (add_target_order_locked id front xs)
      ≡ (if id == "" then target_id_in_order k xs else (id == k || target_id_in_order k xs))
unfolding target_id_in_order add_target_order_locked
in_order-add id k front xs = ground (arith, in_order-append k xs (id ∷ []), eq_iff id k)

Once-append :
    (id : String) (xs : List String)
    → target_id_in_order id xs ≡ false
    → Once xs
    → Once (xs ++ id ∷ [])
unfolding target_id_in_order
Once-append id [] h o = (refl, tt)
Once-append id (x ∷ xs) h (a, o) = (
  ground (arith, a, in_order-append x xs (id ∷ []), eq_iff x id, eq_iff id x),
  Once-append id xs (ground arith) o,
)

pub Once-add :
    (id : String) (front : Bool) (xs : List String)
    → Once xs
    → Once (add_target_order_locked id front xs)
unfolding add_target_order_locked
Once-add id front xs h =
    if_cases_dep Once (id == "" || target_id_in_order id xs) _ _ (λ _. h)
      (λ new.
        if_cases_dep Once front _ _ (λ _. (ground (arith, new), h))
          (λ _. Once-append id xs (ground (arith, new)) h))

-- The last live id is a target, unless no id is one.
pub last_live-lookup :
    (targets : Map Tracked) (xs : List String)
    → (last_live targets xs ≡ "") ⊎ (is_some (lookup (last_live targets xs) targets) ≡ true)
unfolding last_live
last_live-lookup targets [] = inl refl
last_live-lookup targets (x ∷ xs) =
    ground (arith, last_live-lookup targets xs, eq_iff (last_live targets xs) "")

pub last_live-none :
    (targets : Map Tracked) (x : String) (xs : List String)
    → is_some (lookup x targets) ≡ true
    → (x == "") ≡ false
    → last_live targets (x ∷ xs) ≢ ""
unfolding last_live
last_live-none targets x xs h n e =
    ground (
      arith,
      last_live-lookup targets xs,
      eq_iff (last_live targets xs) "",
      eq_iff x "",
      eq_refl "",
    )

pub in_order-delete_pending :
    (id k : String) (xs : List String)
    → target_id_in_order k (delete_pending id xs)
      ≡ (if id == k then false else target_id_in_order k xs)
unfolding target_id_in_order
in_order-delete_pending id k [] = ground arith
in_order-delete_pending id k (x ∷ xs) =
    ground (arith, in_order-delete_pending id k xs, eq_iff x id, eq_iff id k, eq_iff x k)

pub in_order-add_pending :
    (id k : String) (xs : List String)
    → target_id_in_order k (add_pending id xs) ≡ (id == k || target_id_in_order k xs)
unfolding target_id_in_order
in_order-add_pending id k xs = ground (arith, in_order-delete_pending id k xs)

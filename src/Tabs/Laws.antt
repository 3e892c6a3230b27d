-- ===== src/Tabs/Laws.antt =====
-- The index of browser/tab_index.go stays well formed, and its views agree with its look-ups.
use deepwork_browser.Prelude.{
  not, ℕ, String, true, false, List, [], ◌∷◌, Option, none, some, arith, if◌then◌else◌, is_some,
  ◌==◌, eq_iff, eq_refl, lookup, insert, delete, values, All, All-delete, All-lookup, keep, ◌≡◌,
  ◌↔◌, ap, lookup-insert, lookup-delete, if_cases_dep, Mem-values, Mem-keep, keep-Mem,
}
use mathlib.Core.List.{Memᴰ}
use deepwork_browser.Tabs.Order.{Sorted, sort_by-Sorted, Mem-sort_by_iff}
use deepwork_browser.Tabs.Index.{
  TabHandle, TabIndex, IndexError, is_valid_role, stamped, register, unregister, by_identity,
}

-- An entry stands under its own target, and has an identity and a role.
abbrev pub Filed : String × TabHandle → Type 0
Filed e =
    (e.1.target_id ≡ e.0)
    × ((e.0 == "") ≡ false)
    × ((e.1.identity_key == "") ≡ false)
    × (is_valid_role e.1.role ≡ true)

abbrev pub Distinct : TabIndex → Type 0
Distinct [] = Unit
Distinct (e ∷ m) = All (λ d. (d.0 == e.0) ≡ false) m × Distinct m

pub record IsIndexed (idx : TabIndex) : Type 0 where
  pub filed : All Filed idx
  pub distinct : Distinct idx

Distinct-delete : (k : String) (m : TabIndex) → Distinct m → Distinct (delete k m)
unfolding delete
Distinct-delete k [] h = tt
Distinct-delete k ((j, v) ∷ m) (a, u) =
    if_cases_dep Distinct (j == k) _ _ (λ _. Distinct-delete k m u)
      (λ _. (All-delete (λ d. (d.0 == j) ≡ false) k m a, Distinct-delete k m u))

delete-gone : (k : String) (m : TabIndex) → All (λ e. (e.0 == k) ≡ false) (delete k m)
unfolding delete
delete-gone k [] = tt
delete-gone k ((j, v) ∷ m) =
    if_cases_dep (All (λ e. (e.0 == k) ≡ false)) (j == k) _ _ (λ _. delete-gone k m)
      (λ other. (other, delete-gone k m))

-- A registration succeeds exactly if the handle has a target, an identity and a valid role, and its
-- target is not in the index.
pub register_iff :
    (t : TabHandle) (now : ℕ) (idx : TabIndex)
    → ((register (some t) now idx).1 ≡ none) ↔ (
        ((t.target_id == "") ≡ false)
        × ((t.identity_key == "") ≡ false)
        × (is_valid_role t.role ≡ true)
        × (lookup t.target_id idx ≡ none))
unfolding register
register_iff t now idx = ground arith

-- After a registration the index has what it had, and, if it succeeded, the handle with its time set.
pub lookup-register :
    (t : TabHandle) (now : ℕ) (idx : TabIndex) (j : String)
    → let (idx', err) = register (some t) now idx in
      lookup j idx' ≡ (
        if is_some err
        then lookup j idx
        else if t.target_id == j
        then some (stamped now t)
        else lookup j idx)
unfolding register
lookup-register t now idx j = ground (arith, lookup-insert t.target_id j (stamped now t) idx)

-- To take back a registration that succeeded leaves every look-up as it was.
pub unregister-register :
    (t : TabHandle) (now : ℕ) (idx : TabIndex) (j : String)
    → (register (some t) now idx).1 ≡ none
    → let (idx', err) = unregister t.target_id (register (some t) now idx).0 in
      (err ≡ none) × (lookup j idx' ≡ lookup j idx)
unfolding unregister
unregister-register t now idx j h =
    let idx' = (register (some t) now idx).0 in
    ground (
      arith,
      register_iff t now idx,
      lookup-register t now idx t.target_id,
      lookup-register t now idx j,
      lookup-delete t.target_id j idx',
      eq_iff t.target_id j,
      eq_refl t.target_id,
    )

pub data IndexOp : Type 0 where
  registers : Option TabHandle → ℕ → IndexOp
  unregisters : String → IndexOp

unfoldable pub apply : IndexOp → TabIndex → TabIndex
apply (registers t now) idx = (register t now idx).0
apply (unregisters k) idx = (unregister k idx).0

unfoldable pub run : List IndexOp → TabIndex → TabIndex
unfolding apply
run [] idx = idx
run (op ∷ ops) idx = run ops (apply op idx)

insert-IsIndexed :
    (t : TabHandle) (now : ℕ) (idx : TabIndex)
    → Filed (t.target_id, stamped now t)
    → IsIndexed idx
    → IsIndexed (insert t.target_id (stamped now t) idx)
unfolding insert
insert-IsIndexed t now idx f w = record {
  filed = (f, All-delete Filed t.target_id idx w.filed);
  distinct = (delete-gone t.target_id idx, Distinct-delete t.target_id idx w.distinct);
}

abbrev Stays : TabIndex × Option IndexError → Type 0
Stays r = IsIndexed (r.0)

apply-IsIndexed : (op : IndexOp) (idx : TabIndex) → IsIndexed idx → IsIndexed (apply op idx)
unfolding apply register unregister
apply-IsIndexed (registers none now) idx w = w
apply-IsIndexed (registers (some t) now) idx w =
    if_cases_dep Stays (t.target_id == "") _ _ (λ _. w)
      (λ a.
        if_cases_dep Stays (t.identity_key == "") _ _ (λ _. w)
          (λ b.
            if_cases_dep Stays (not (is_valid_role t.role)) _ _ (λ _. w)
              (λ c.
                if_cases_dep Stays (is_some (lookup t.target_id idx)) _ _ (λ _. w)
                  (λ d. insert-IsIndexed t now idx (ground arith) w))))
apply-IsIndexed (unregisters k) idx w =
    if_cases_dep Stays (is_some (lookup k idx)) _ _
      (λ _. record {
        filed = All-delete Filed k idx w.filed;
        distinct = Distinct-delete k idx w.distinct;
      })
      (λ _. w)

-- After any registrations and removals, every handle stands in the index under its own target, once,
-- and has an identity and one of the four roles.
pub run-IsIndexed : (ops : List IndexOp) (idx : TabIndex) → IsIndexed idx → IsIndexed (run ops idx)
unfolding run
run-IsIndexed [] idx w = w
run-IsIndexed (op ∷ ops) idx w = run-IsIndexed ops (apply op idx) (apply-IsIndexed op idx w)

values-lookup :
    (t : TabHandle) (idx : TabIndex)
    → All Filed idx
    → Distinct idx
    → Memᴰ t (values idx)
    → lookup t.target_id idx ≡ some t
unfolding values lookup
values-lookup t [] f d m = elim m [ ]
values-lookup t ((k, v) ∷ idx) ((f, _, _, _), fs) (a, d) (Memᴰ.head e) =
    ground (arith, e, f, ap (λ u. u.target_id) e, eq_iff k t.target_id)
values-lookup t ((k, v) ∷ idx) (f, fs) (a, d) (Memᴰ.tail m) = ground (
  arith,
  values-lookup t idx fs d m,
  eq_iff k t.target_id,
  eq_iff t.target_id k,
  All-lookup (λ d. (d.0 == k) ≡ false) t.target_id t idx a (values-lookup t idx fs d m),
)

-- A view by identity holds exactly the handles that a look-up finds and that have the identity, in
-- the order of their targets.
pub by_identity_lem :
    (key : String) (idx : TabIndex) (t : TabHandle)
    → IsIndexed idx
    → (Memᴰ t (by_identity key idx)
        ↔ ((lookup t.target_id idx ≡ some t) × ((t.identity_key == key) ≡ true)))
      × Sorted (λ u. u.target_id) (by_identity key idx)
unfolding by_identity
by_identity_lem key idx t w =
    let has = λ (u : TabHandle). u.identity_key == key in
    let kept = keep has (values idx) in
    (
      (
        λ m.
            let (n, q) =
              keep-Mem has (values idx) t ((Mem-sort_by_iff (λ u. u.target_id) t kept).0 m) in
            (values-lookup t idx w.filed w.distinct n, q),
        λ (l, q).
            (Mem-sort_by_iff (λ u. u.target_id) t kept).1
              (Mem-keep has (values idx) t (Mem-values t.target_id idx t l) q),
      ),
      sort_by-Sorted (λ u. u.target_id) kept,
    )

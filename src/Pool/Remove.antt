-- ===== src/Pool/Remove.antt =====
-- The loss of a whole Chrome, and of all of them: browser/pool.go.
use deepwork_browser.Prelude.{
  eq_refl, if_cases_dep, ◌≤◌, String, true, not, ◌||◌, [], ◌∷◌, none, some, if◌then◌else◌, is_some,
  arith, length, ◌==◌, eq_iff, Map, lookup, delete, lookup-delete, ◌≡◌, Option-cases, inl, inr,
  refl,
}
use deepwork_browser.Tabs.Index.{TabHandle, TabIndex, unregister}
use deepwork_browser.Pool.State.{TabEntry, ChromeEntry, Pool, tab_at}
use deepwork_browser.Pool.Close.{
  unregister_all, unregister_entries, remove_entry, reset_entry, graceful_shutdown,
}
use deepwork_browser.Pool.Invariant.{
  IsPooled, index_at, handle_at, length-unregister, lookup-unregister, index_at_alone,
}

pub lookup-unregister_all :
    (id : String) (tabs : Map TabEntry) (idx : TabIndex)
    → lookup id (unregister_all tabs idx)
      ≡ (if is_some (lookup id tabs) then none else lookup id idx)
unfolding unregister_all lookup
lookup-unregister_all id [] idx = refl
lookup-unregister_all id ((i, te) ∷ tabs) idx =
    ground (arith, lookup-unregister_all id tabs (unregister i idx).0, lookup-unregister i id idx)

pub length-unregister_all :
    (tabs : Map TabEntry) (idx : TabIndex) → length (unregister_all tabs idx) ≤ length idx
unfolding unregister_all
length-unregister_all [] idx = omega arith
length-unregister_all ((i, te) ∷ tabs) idx =
    omega (arith, length-unregister_all tabs (unregister i idx).0, length-unregister i idx)

pub index_at-unregister_all :
    (k id : String) (tabs : Map TabEntry) (idx : TabIndex)
    → index_at k id (unregister_all tabs idx)
      ≡ (if is_some (lookup id tabs) then none else index_at k id idx)
unfolding index_at
index_at-unregister_all k id tabs idx = ground (arith, lookup-unregister_all id tabs idx)

pub handle_at-delete :
    (k j id : String) (entries : Map ChromeEntry)
    → handle_at j id (delete k entries) ≡ (if k == j then none else handle_at j id entries)
unfolding handle_at tab_at
handle_at-delete k j id entries = ground (arith, lookup-delete k j entries)

pub tab_at-delete :
    (k j id : String) (entries : Map ChromeEntry)
    → tab_at j id (delete k entries) ≡ (if k == j then none else tab_at j id entries)
unfolding tab_at
tab_at-delete k j id entries = ground (arith, lookup-delete k j entries)

pub handle_at-lookup :
    (k id : String) (entries : Map ChromeEntry) (e : ChromeEntry)
    → lookup k entries ≡ some e
    → is_some (handle_at k id entries) ≡ is_some (lookup id e.tabs)
unfolding handle_at tab_at
handle_at-lookup k id entries e h = ground (arith, h)

remove_entry-agrees :
    (k j id : String) (e : ChromeEntry) (p : Pool)
    → IsPooled p
    → lookup k p.entries ≡ some e
    → handle_at j id (delete k p.entries) ≡ index_at j id (unregister_all e.tabs p.tab_index)
remove_entry-agrees k j id e p w h = ground (
  arith,
  w.agree j id,
  w.agree k id,
  handle_at-lookup k id p.entries e h,
  handle_at-delete k j id p.entries,
  index_at-unregister_all j id e.tabs p.tab_index,
  index_at_alone k j id p.tab_index,
  eq_iff k j,
)

pub remove_entry-IsPooled :
    (k : String) (e : ChromeEntry) (p : Pool)
    → IsPooled p
    → lookup k p.entries ≡ some e
    → IsPooled (remove_entry k e p)
unfolding remove_entry
remove_entry-IsPooled k e p w h = record {
  agree = λ j id. remove_entry-agrees k j id e p w h;
  filed = λ j id tab t. ground (arith, w.filed j id tab, tab_at-delete k j id p.entries);
  known = w.known;
  bounded = ground (arith, w.bounded, length-unregister_all e.tabs p.tab_index);
}

pub reset_entry-IsPooled : (k : String) (p : Pool) → IsPooled p → IsPooled (reset_entry k p).0
unfolding reset_entry
reset_entry-IsPooled k p w = elim (Option-cases (lookup k p.entries)) [
  | inl e ↦ rw (reset_entry, e) w
  | inr (c, e) ↦ rw (reset_entry, e) (remove_entry-IsPooled k c p w e)
]

lookup-unregister_entries :
    (k id : String) (entries : Map ChromeEntry) (idx : TabIndex)
    → is_some (tab_at k id entries) || not (is_some (lookup id idx)) ≡ true
    → lookup id (unregister_entries entries idx) ≡ none
unfolding unregister_entries tab_at lookup
lookup-unregister_entries k id [] idx h = ground arith
lookup-unregister_entries k id ((j, e) ∷ m) idx h =
    lookup-unregister_entries k id m (unregister_all e.tabs idx)
      (ground (arith, h, lookup-unregister_all id e.tabs idx))

pub length-unregister_entries :
    (entries : Map ChromeEntry) (idx : TabIndex)
    → length (unregister_entries entries idx) ≤ length idx
unfolding unregister_entries
length-unregister_entries [] idx = omega arith
length-unregister_entries ((k, e) ∷ m) idx = omega (
  arith,
  length-unregister_entries m (unregister_all e.tabs idx),
  length-unregister_all e.tabs idx,
)

tab_at-nil : (k id : String) → tab_at k id [] ≡ none
unfolding tab_at lookup
tab_at-nil k id = refl

listed-tab_at :
    (id : String) (h : TabHandle) (p : Pool)
    → IsPooled p
    → lookup id p.tab_index ≡ some h
    → is_some (tab_at h.identity_key id p.entries) ≡ true
unfolding handle_at index_at
listed-tab_at id h p w e = ground (arith, w.agree h.identity_key id, eq_refl h.identity_key)

pub unregister_entries-gone :
    (id : String) (p : Pool)
    → IsPooled p
    → lookup id (unregister_entries p.entries p.tab_index) ≡ none
unregister_entries-gone id p w = elim (Option-cases (lookup id p.tab_index)) [
  | inl e ↦ lookup-unregister_entries "" id p.entries p.tab_index (ground (arith, e))
  | inr (h, e) ↦
      lookup-unregister_entries h.identity_key id p.entries p.tab_index
        (ground (arith, listed-tab_at id h p w e))
]

emptied-agrees :
    (k id : String) (p : Pool)
    → IsPooled p
    → handle_at k id [] ≡ index_at k id (unregister_entries p.entries p.tab_index)
unfolding handle_at index_at tab_at lookup
emptied-agrees k id p w = ground (arith, unregister_entries-gone id p w)

pub graceful_shutdown-IsPooled : (p : Pool) → IsPooled p → IsPooled (graceful_shutdown p)
unfolding graceful_shutdown
graceful_shutdown-IsPooled p w =
    if_cases_dep IsPooled p.closed _ _ (λ _. w)
      (λ _. record {
        agree = λ k id. emptied-agrees k id p w;
        filed = λ k id tab e. ground (arith, tab_at-nil k id, e);
        known = w.known;
        bounded = ground (arith, w.bounded, length-unregister_entries p.entries p.tab_index);
      })

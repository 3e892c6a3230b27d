-- ===== src/Pool/Invariant.antt =====
-- What always holds of the pool of browser/pool.go: its index and its Chromes list the same tabs.
use deepwork_browser.Prelude.{
  refl, inr, inl, Option-cases, ◌≤◌, String, true, false, ◌&&◌, [], ◌∷◌, Option, none, some,
  if◌then◌else◌, is_some, arith, length, ◌==◌, eq_iff, Map, lookup, lookup-delete, length-delete,
  ◌≡◌,
}
use deepwork_browser.Tabs.Index.{TabHandle, TabIndex, unregister}
use deepwork_browser.Pool.State.{IdentityDescriptor, TabEntry, ChromeEntry, Pool, tab_at, update}
use deepwork_browser.Pool.Close.{without_tab, close_tab_entry}

unfoldable pub handle_at : String → String → Map ChromeEntry → Option TabHandle
unfolding tab_at
handle_at k id entries = elim (tab_at k id entries) [ none ↦ none | some te ↦ some te.handle ]

-- The handle of a target in the index, if it is one of the identity.
unfoldable pub index_at : String → String → TabIndex → Option TabHandle
unfolding lookup
index_at k id idx = elim (lookup id idx) [
  | none ↦ none
  | some h ↦ if h.identity_key == k then some h else none
]

pub record IsPooled (p : Pool) : Type 0 where
  pub agree : (k id : String) → handle_at k id p.entries ≡ index_at k id p.tab_index
  pub filed : (k id : String) (te : TabEntry) → tab_at k id p.entries ≡ some te → te.target_id ≡ id
  pub known : (k : String) (d : IdentityDescriptor) → lookup k p.registry ≡ some d → d.key ≡ k
  pub bounded : length p.tab_index ≤ p.config.max_tabs

pub lookup-update {ℓ} :
    {V : Type ℓ} (k j : String) (f : V → V) (m : Map V)
    → lookup j (update k f m)
      ≡ elim (lookup j m) [ none ↦ none | some v ↦ some (if k == j then f v else v) ]
unfolding lookup update
lookup-update k j f [] = ground arith
lookup-update k j f ((i, v) ∷ m) =
    ground (arith, eq_iff k j, eq_iff i k, eq_iff i j, lookup-update k j f m)

pub lookup-unregister :
    (id j : String) (idx : TabIndex)
    → lookup j (unregister id idx).0 ≡ (if id == j then none else lookup j idx)
unfolding unregister
lookup-unregister id j idx = ground (arith, eq_iff id j, lookup-delete id j idx)

pub length-unregister : (id : String) (idx : TabIndex) → length (unregister id idx).0 ≤ length idx
unfolding unregister
length-unregister id idx = ground (arith, length-delete id idx)

pub tab_at-without_tab :
    (k j id : String) (te : TabEntry) (entries : Map ChromeEntry)
    → tab_at j id (update k (without_tab te) entries)
      ≡ (if k == j && te.target_id == id then none else tab_at j id entries)
unfolding tab_at without_tab
tab_at-without_tab k j id te entries = elim (Option-cases (lookup j entries)) [
  | inl e ↦ ground (arith, lookup-update k j (without_tab te) entries)
  | inr (entry, e) ↦
      ground (
        arith,
        lookup-update k j (without_tab te) entries,
        lookup-delete te.target_id id entry.tabs,
      )
]

pub handle_at-close_tab_entry :
    (k j id : String) (te : TabEntry) (p : Pool)
    → handle_at j id (close_tab_entry k te p).entries
      ≡ (if k == j && te.target_id == id then none else handle_at j id p.entries)
unfolding close_tab_entry handle_at
handle_at-close_tab_entry k j id te p = ground (arith, tab_at-without_tab k j id te p.entries)

pub index_at-close_tab_entry :
    (k j id : String) (te : TabEntry) (p : Pool)
    → index_at j id (close_tab_entry k te p).tab_index
      ≡ (if te.target_id == id then none else index_at j id p.tab_index)
unfolding close_tab_entry index_at
index_at-close_tab_entry k j id te p = ground (arith, lookup-unregister te.target_id id p.tab_index)

-- A target is one of at most one identity.
pub index_at_alone :
    (k j id : String) (idx : TabIndex)
    → is_some (index_at k id idx) ≡ true
    → (k == j) ≡ false
    → index_at j id idx ≡ none
unfolding index_at
index_at_alone k j id idx h n = elim (Option-cases (lookup id idx)) [
  | inl e ↦ ground arith
  | inr (t, e) ↦ ground (arith, eq_iff t.identity_key k, eq_iff t.identity_key j, eq_iff k j)
]

pub handle_at-tab_at :
    (k id : String) (entries : Map ChromeEntry) (te : TabEntry)
    → tab_at k id entries ≡ some te
    → handle_at k id entries ≡ some te.handle
unfolding handle_at
handle_at-tab_at k id entries te h = rw (handle_at, h) refl

pub close_tab_entry-agrees :
    (k : String) (te : TabEntry) (p : Pool)
    → IsPooled p
    → tab_at k te.target_id p.entries ≡ some te
    → (j id : String)
    → handle_at j id (close_tab_entry k te p).entries
      ≡ index_at j id (close_tab_entry k te p).tab_index
close_tab_entry-agrees k te p w h j id = ground (
  arith,
  w.agree j id,
  w.agree k id,
  handle_at-tab_at k te.target_id p.entries te h,
  handle_at-close_tab_entry k j id te p,
  index_at-close_tab_entry k j id te p,
  index_at_alone k j id p.tab_index,
  eq_iff te.target_id id,
)

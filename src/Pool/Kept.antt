-- ===== src/Pool/Kept.antt =====
-- An acquisition keeps the pool in order: browser/pool.go.
use mathlib.Core.Path.{subst}
use deepwork_browser.Prelude.{
  if_cases, ℕ, ◌≤◌, suc, String, ◌&&◌, Option, none, some, if◌then◌else◌, arith, length, ◌==◌,
  eq_iff, Map, lookup, insert, lookup-insert, length-delete, ◌≡◌, sym, ◌∙◌, Option-cases, inl, inr,
  Text,
}
use deepwork_browser.Tabs.Index.{TabHandle, TabIndex, IndexError, register, stamped}
use deepwork_browser.Tabs.Laws.{register_iff, lookup-register}
use deepwork_browser.Pool.State.{
  IdentityDescriptor, TabEntry, ChromeEntry, Pool, tab_at, RuntimeContract,
}
use deepwork_browser.Pool.Acquire.{
  ensured, Answers, reuse_entry, start_entry, get_or_create_entry, create_tab, new_tab,
}
use deepwork_browser.Pool.Invariant.{IsPooled, index_at, handle_at}

-- An entry that can stand for what the pool has under the key: it has the same tabs.
abbrev pub Stands : String → Pool → ChromeEntry → Type 0
Stands k p e = (id : String) → lookup id e.tabs ≡ tab_at k id p.entries

pub tab_at-insert :
    (k j id : String) (e : ChromeEntry) (entries : Map ChromeEntry)
    → tab_at j id (insert k e entries) ≡ (if k == j then lookup id e.tabs else tab_at j id entries)
unfolding tab_at
tab_at-insert k j id e entries = ground (arith, lookup-insert k j e entries)

lookup-Stands :
    (k : String) (p : Pool) (e : ChromeEntry) → lookup k p.entries ≡ some e → Stands k p e
unfolding tab_at
lookup-Stands k p e h id = ground (arith, h)

reuse_entry_same :
    (mode : Text) (c : RuntimeContract) (e e' : ChromeEntry)
    → reuse_entry mode c e ≡ ensured e'
    → e ≡ e'
unfolding reuse_entry
reuse_entry_same mode c e e' h = ground arith

start_entry_empty :
    (a : Answers) (d : IdentityDescriptor) (mode : Text) (c : RuntimeContract) (p : Pool)
    (e : ChromeEntry) (id : String)
    → start_entry a d mode c p ≡ ensured e
    → lookup id e.tabs ≡ none
unfolding start_entry lookup
start_entry_empty a d mode c p e id h = ground arith

start_entry-Stands :
    (a : Answers) (d : IdentityDescriptor) (mode : Text) (c : RuntimeContract) (p : Pool)
    (e : ChromeEntry)
    → lookup d.key p.entries ≡ none
    → start_entry a d mode c p ≡ ensured e
    → Stands d.key p e
unfolding tab_at
start_entry-Stands a d mode c p e n h id = ground (arith, start_entry_empty a d mode c p e id h)

-- The Chrome that an acquisition uses is the one of the identity, if there is one.
pub get_or_create_entry-Stands :
    (a : Answers) (d : IdentityDescriptor) (mode : Text) (c : RuntimeContract) (p : Pool)
    (e : ChromeEntry)
    → get_or_create_entry a d mode c p ≡ ensured e
    → Stands d.key p e
unfolding get_or_create_entry
get_or_create_entry-Stands a d mode c p e h = elim (Option-cases (lookup d.key p.entries)) [
  | inl n ↦ start_entry-Stands a d mode c p e n (ground (arith, n, h))
  | inr (entry, f) ↦
      subst (Stands d.key p) (reuse_entry_same mode c entry e (ground (arith, f, h)))
        (lookup-Stands d.key p entry f)
]

pub create_tab-Stands :
    (a : Answers) (k : String) (p : Pool) (e : ChromeEntry)
    → Stands k p e
    → Stands k p (create_tab a e).0
unfolding create_tab
create_tab-Stands a k p e h =
    if_cases (λ (r : ChromeEntry × Option String). Stands k p (r.0)) _ _ _ h h

put-agrees :
    (k j id : String) (e : ChromeEntry) (p : Pool)
    → Stands k p e
    → tab_at j id (insert k e p.entries) ≡ tab_at j id p.entries
put-agrees k j id e p h = ground (arith, tab_at-insert k j id e p.entries, h id, eq_iff k j)

pub put-IsPooled :
    (k : String) (e : ChromeEntry) (p : Pool)
    → IsPooled p
    → Stands k p e
    → IsPooled (record p { entries = insert k e p.entries })
unfolding handle_at
put-IsPooled k e p w h = record {
  agree = λ j id. ground (arith, put-agrees k j id e p h, w.agree j id);
  filed = λ j id tab t. w.filed j id tab (sym (put-agrees k j id e p h) ∙ t);
  known = w.known;
  bounded = w.bounded;
}

-- A registration that is refused leaves the index as it is; one that is not adds one handle.
pub register_refused :
    (t : TabHandle) (now : ℕ) (idx : TabIndex) (err : IndexError)
    → (register (some t) now idx).1 ≡ some err
    → (register (some t) now idx).0 ≡ idx
unfolding register
register_refused t now idx err h = ground arith

pub length-register :
    (t : TabHandle) (now : ℕ) (idx : TabIndex)
    → length (register (some t) now idx).0 ≤ suc (length idx)
unfolding register insert
length-register t now idx = ground (arith, length-delete t.target_id idx)

pub tab_at-grown :
    (a : Answers) (h : TabHandle) (k j id : String) (e : ChromeEntry) (p : Pool)
    → Stands k p e
    → tab_at j id (insert k (record e { tabs = insert h.target_id (new_tab a h) e.tabs }) p.entries)
      ≡ (if k == j && h.target_id == id then some (new_tab a h) else tab_at j id p.entries)
tab_at-grown a h k j id e p s = ground (
  arith,
  s id,
  tab_at-insert k j id (record e { tabs = insert h.target_id (new_tab a h) e.tabs }) p.entries,
  lookup-insert h.target_id id (new_tab a h) e.tabs,
  eq_iff k j,
)

pub index_at-register :
    (h : TabHandle) (now : ℕ) (j id : String) (idx : TabIndex)
    → (register (some h) now idx).1 ≡ none
    → stamped now h ≡ h
    → index_at j id (register (some h) now idx).0 ≡ (
        if h.target_id == id
        then (if h.identity_key == j then some h else none)
        else index_at j id idx)
unfolding index_at
index_at-register h now j id idx r s = ground (arith, lookup-register h now idx id)

index_at_free : (j id : String) (idx : TabIndex) → lookup id idx ≡ none → index_at j id idx ≡ none
unfolding index_at
index_at_free j id idx h = ground (arith, h)

pub grown-agrees :
    (a : Answers) (h : TabHandle) (j id : String) (e : ChromeEntry) (p : Pool)
    → IsPooled p
    → Stands h.identity_key p e
    → (register (some h) a.now p.tab_index).1 ≡ none
    → stamped a.now h ≡ h
    → handle_at j id (
        insert h.identity_key
          (record e { tabs = insert h.target_id (new_tab a h) e.tabs })
          p.entries)
      ≡ index_at j id (register (some h) a.now p.tab_index).0
unfolding handle_at
grown-agrees a h j id e p w s r t = ground (
  arith,
  tab_at-grown a h h.identity_key j id e p s,
  index_at-register h a.now j id p.tab_index r t,
  w.agree j id,
  index_at_free j h.target_id p.tab_index,
  register_iff h a.now p.tab_index,
  eq_iff h.target_id id,
)

pub grown-filed :
    (a : Answers) (h : TabHandle) (j id : String) (e : ChromeEntry) (p : Pool) (tab : TabEntry)
    → IsPooled p
    → Stands h.identity_key p e
    → tab_at j id (
        insert h.identity_key
          (record e { tabs = insert h.target_id (new_tab a h) e.tabs })
          p.entries)
      ≡ some tab
    → tab.target_id ≡ id
grown-filed a h j id e p tab w s f =
    ground
      (arith, w.filed j id tab, tab_at-grown a h h.identity_key j id e p s, eq_iff h.target_id id)

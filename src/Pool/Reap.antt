-- ===== src/Pool/Reap.antt =====
-- Which tabs the reaper of browser/pool.go leaves.
use mathlib.Core.List.{Memᴰ}
use deepwork_browser.Prelude.{
  ℕ, String, Bool, true, false, List, [], ◌∷◌, Option, none, some, arith, if◌then◌else◌, ◌&&◌, ◌==◌,
  eq_iff, eq_refl, ◌≡◌, refl, any, ap, Option-cases, inl, inr,
}
use deepwork_browser.Pool.State.{TabEntry, Pool, tab_at, tab_keys}
use deepwork_browser.Pool.Close.{close_tab_entry, is_idle, reap_tab, reap_from, reap_idle_tabs}
use deepwork_browser.Pool.Invariant.{IsPooled, tab_at-without_tab}
use deepwork_browser.Pool.Evict.{tab_keys-Mem}
use deepwork_browser.Pool.Evict.{IsFiled}

-- What the reaper leaves of a place for a tab.
abbrev pub left_at : ℕ → ℕ → Option TabEntry → Option TabEntry
left_at now timeout none = none
left_at now timeout (some te) = if is_idle now timeout te then none else some te

abbrev is_place : String → String → String × String → Bool
is_place k id x = x.0 == k && x.1 == id

left_at_again :
    (now timeout : ℕ) (o : Option TabEntry)
    → left_at now timeout (left_at now timeout o) ≡ left_at now timeout o
left_at_again now timeout none = refl
left_at_again now timeout (some te) = ground arith

tab_at-close_tab_entry :
    (k j id : String) (te : TabEntry) (p : Pool)
    → tab_at j id (close_tab_entry k te p).entries
      ≡ (if k == j && te.target_id == id then none else tab_at j id p.entries)
unfolding close_tab_entry
tab_at-close_tab_entry k j id te p = tab_at-without_tab k j id te p.entries

reap_tab-config :
    (now : ℕ) (k : String) (o : Option TabEntry) (p : Pool) → (reap_tab now k o p).config ≡ p.config
unfolding close_tab_entry
reap_tab-config now k none p = refl
reap_tab-config now k (some te) p = ground arith

tab_at-reap_tab :
    (now : ℕ) (j i k id : String) (o : Option TabEntry) (p : Pool)
    → o ≡ tab_at j i p.entries
    → IsFiled p.entries
    → tab_at k id (reap_tab now j o p).entries ≡ (
        if is_place k id (j, i)
        then left_at now p.config.idle_timeout (tab_at k id p.entries)
        else tab_at k id p.entries)
tab_at-reap_tab now j i k id none p e w = ground (arith, e, eq_iff j k, eq_iff i id)
tab_at-reap_tab now j i k id (some te) p e w =
    ground (arith, e, w j i te, tab_at-close_tab_entry j k id te p, eq_iff j k, eq_iff i id)

reap_tab-IsFiled :
    (now : ℕ) (j i : String) (p : Pool)
    → IsFiled p.entries
    → IsFiled (reap_tab now j (tab_at j i p.entries) p).entries
reap_tab-IsFiled now j i p w k id te h = elim (Option-cases (tab_at k id p.entries)) [
  | inl n ↦ ground (arith, n, h, tab_at-reap_tab now j i k id (tab_at j i p.entries) p refl w)
  | inr (t, e) ↦
      ground (arith, e, h, w k id t, tab_at-reap_tab now j i k id (tab_at j i p.entries) p refl w)
]

tab_at-reap_from :
    (now : ℕ) (k id : String) (ks : List (String × String)) (p : Pool)
    → IsFiled p.entries
    → tab_at k id (reap_from now ks p).entries ≡ (
        if any (is_place k id) ks
        then left_at now p.config.idle_timeout (tab_at k id p.entries)
        else tab_at k id p.entries)
unfolding reap_from
tab_at-reap_from now k id [] p w = refl
tab_at-reap_from now k id ((j, i) ∷ ks) p w =
    let q = reap_tab now j (tab_at j i p.entries) p in
    ground (
      arith,
      tab_at-reap_from now k id ks q (reap_tab-IsFiled now j i p w),
      tab_at-reap_tab now j i k id (tab_at j i p.entries) p refl w,
      ap (λ c. c.idle_timeout) (reap_tab-config now j (tab_at j i p.entries) p),
      left_at_again now p.config.idle_timeout (tab_at k id p.entries),
    )

any-Mem :
    (k id : String) (ks : List (String × String))
    → Memᴰ {A = String × String} (k, id) ks
    → any (is_place k id) ks ≡ true
any-Mem k id [] m = elim m [ ]
any-Mem k id ((j, i) ∷ ks) (Memᴰ.head e) =
    ground (arith, ap (λ x. x.0) e, ap (λ x. x.1) e, eq_refl k, eq_refl id, eq_iff j k, eq_iff i id)
any-Mem k id ((j, i) ∷ ks) (Memᴰ.tail m) = ground (arith, any-Mem k id ks m)

-- In an open pool the reaper closes exactly the tabs that are not the panel's and that were last used
-- the idle time or longer ago, and leaves every other tab as it is.
pub tab_at-reap_idle_tabs :
    (now : ℕ) (p : Pool) (k id : String)
    → IsPooled p
    → p.closed ≡ false
    → tab_at k id (reap_idle_tabs now p).entries
      ≡ left_at now p.config.idle_timeout (tab_at k id p.entries)
unfolding reap_idle_tabs
tab_at-reap_idle_tabs now p k id w o = elim (Option-cases (tab_at k id p.entries)) [
  | inl n ↦ ground (arith, o, n, tab_at-reap_from now k id (tab_keys p.entries) p w.filed)
  | inr (te, e) ↦ ground (
    arith,
    o,
    tab_at-reap_from now k id (tab_keys p.entries) p w.filed,
    any-Mem k id (tab_keys p.entries) (tab_keys-Mem k id p.entries te e),
  )
]

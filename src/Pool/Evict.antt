-- ===== src/Pool/Evict.antt =====
-- The tab that the pool closes when it is full, and the tabs that have been idle: browser/pool.go.
use mathlib.Core.List.{Memᴰ}
use mathlib.Core.Path.{subst}
use deepwork_browser.Prelude.{
  Mem-append_right, map, Mem-append_left, refl, if_cases_dep, ℕ, ◌≤◌, ◌<◌, String, true, false,
  List, [], ◌∷◌, Option, none, some, arith, ltb, length, ◌==◌, eq_iff, Map, lookup,
  length-delete_lt, ◌≡◌, sym, ap, ◌∙◌, inl, inr, Bool-cases,
}
use deepwork_browser.Tabs.Index.{unregister}
use deepwork_browser.Pool.State.{TabEntry, ChromeEntry, Pool, tab_at, tab_keys}
use deepwork_browser.Pool.Close.{
  is_panel, older, oldest_from, oldest_tab, close_tab_entry, evict_oldest,
}
use deepwork_browser.Pool.Invariant.{
  IsPooled, index_at, tab_at-without_tab, length-unregister, close_tab_entry-agrees,
  handle_at-tab_at,
}

pub close_tab_entry-IsPooled :
    (k : String) (te : TabEntry) (p : Pool)
    → IsPooled p
    → tab_at k te.target_id p.entries ≡ some te
    → IsPooled (close_tab_entry k te p)
unfolding close_tab_entry
close_tab_entry-IsPooled k te p w h = record {
  agree = close_tab_entry-agrees k te p w h;
  filed = λ j id tab e. ground (arith, w.filed j id tab, tab_at-without_tab k j id te p.entries);
  known = w.known;
  bounded = ground (arith, w.bounded, length-unregister te.target_id p.tab_index);
}

-- A tab of the pool that is not the panel's.
abbrev pub IsCandidate : Map ChromeEntry → String → TabEntry → Type 0
IsCandidate entries k te = (tab_at k te.target_id entries ≡ some te) × (is_panel te ≡ false)

abbrev IsChoice : Map ChromeEntry → Option (String × TabEntry) → Type 0
IsChoice entries none = Unit
IsChoice entries (some (k, te)) = IsCandidate entries k te

older-IsChoice :
    (entries : Map ChromeEntry) (o : Option (String × TabEntry)) (k : String) (t : Option TabEntry)
    → IsChoice entries o
    → ((te : TabEntry) → t ≡ some te → tab_at k te.target_id entries ≡ some te)
    → IsChoice entries (older o k t)
older-IsChoice entries o k none c f = c
older-IsChoice entries none k (some te) c f =
    if_cases_dep (IsChoice entries) (is_panel te) _ _ (λ _. tt) (λ n. (f te refl, n))
older-IsChoice entries (some (j, old)) k (some te) c f =
    if_cases_dep (IsChoice entries) (is_panel te) _ _ (λ _. c)
      (λ n.
        if_cases_dep (IsChoice entries) (ltb te.last_active old.last_active) _ _
          (λ _. (f te refl, n)) (λ _. c))

-- Every tab stands under its own target.
abbrev pub IsFiled : Map ChromeEntry → Type 0
IsFiled entries =
    (k id : String) (te : TabEntry) → tab_at k id entries ≡ some te → te.target_id ≡ id

pub filed_at :
    (entries : Map ChromeEntry) (k id : String) (te : TabEntry)
    → IsFiled entries
    → tab_at k id entries ≡ some te
    → tab_at k te.target_id entries ≡ some te
filed_at entries k id te w e = ap (λ i. tab_at k i entries) (w k id te e) ∙ e

oldest_from-IsChoice :
    (entries : Map ChromeEntry) (o : Option (String × TabEntry)) (ks : List (String × String))
    → IsFiled entries
    → IsChoice entries o
    → IsChoice entries (oldest_from entries o ks)
unfolding oldest_from
oldest_from-IsChoice entries o [] w c = c
oldest_from-IsChoice entries o ((k, id) ∷ ks) w c =
    oldest_from-IsChoice entries (older o k (tab_at k id entries)) ks w
      (older-IsChoice entries o k (tab_at k id entries) c (λ te e. filed_at entries k id te w e))

-- A choice that is no later than the time.
abbrev IsBefore : ℕ → Option (String × TabEntry) → Type 0
IsBefore t none = ⊥
IsBefore t (some (k, te)) = te.last_active ≤ t

older-IsBefore :
    (t : ℕ) (o : Option (String × TabEntry)) (k : String) (tab : Option TabEntry)
    → IsBefore t o
    → IsBefore t (older o k tab)
older-IsBefore t o k none b = b
older-IsBefore t none k (some te) b = absurd b
older-IsBefore t (some (j, old)) k (some te) b =
    if_cases_dep (IsBefore t) (is_panel te) _ _ (λ _. b)
      (λ _.
        if_cases_dep (IsBefore t) (ltb te.last_active old.last_active) _ _ (λ e. ground (arith, b))
          (λ _. b))

older_self :
    (o : Option (String × TabEntry)) (k : String) (te : TabEntry)
    → is_panel te ≡ false
    → IsBefore te.last_active (older o k (some te))
older_self none k te n = rw n (omega arith)
older_self (some (j, old)) k te n =
    let P = IsBefore te.last_active in
    if_cases_dep P (is_panel te) _ _ (λ y. absurd (ground arith))
      (λ _.
        if_cases_dep P (ltb te.last_active old.last_active) _ _ (λ _. omega arith)
          (λ l. ground arith))

oldest_from-IsBefore :
    (entries : Map ChromeEntry) (t : ℕ) (o : Option (String × TabEntry))
    (ks : List (String × String))
    → IsBefore t o
    → IsBefore t (oldest_from entries o ks)
unfolding oldest_from
oldest_from-IsBefore entries t o [] b = b
oldest_from-IsBefore entries t o ((k, id) ∷ ks) b =
    oldest_from-IsBefore entries t (older o k (tab_at k id entries)) ks
      (older-IsBefore t o k (tab_at k id entries) b)

oldest_from-Mem :
    (entries : Map ChromeEntry) (k id : String) (te : TabEntry) (o : Option (String × TabEntry))
    (ks : List (String × String))
    → tab_at k id entries ≡ some te
    → is_panel te ≡ false
    → Memᴰ {A = String × String} (k, id) ks
    → IsBefore te.last_active (oldest_from entries o ks)
unfolding oldest_from
oldest_from-Mem entries k id te o [] h n m = elim m [ ]
oldest_from-Mem entries k id te o ((j, i) ∷ ks) h n (Memᴰ.head e) =
    oldest_from-IsBefore entries te.last_active (older o j (tab_at j i entries)) ks
      (rw (sym (ap (λ x. tab_at x.0 x.1 entries) e) ∙ h) (older_self o j te n))
oldest_from-Mem entries k id te o ((j, i) ∷ ks) h n (Memᴰ.tail m) =
    oldest_from-Mem entries k id te (older o j (tab_at j i entries)) ks h n m

keys-Mem :
    (k id : String) (tabs : Map TabEntry) (te : TabEntry)
    → lookup id tabs ≡ some te
    → Memᴰ {A = String × String} (k, id) (map (λ x. (k, x.0)) tabs)
unfolding lookup
keys-Mem k id [] te h = cc
keys-Mem k id ((i, tab) ∷ tabs) te h = elim (Bool-cases (i == id)) [
  | inl same ↦ Memᴰ.head (ap (λ x. (k, x)) (ground (arith, eq_iff i id)))
  | inr other ↦ Memᴰ.tail (keys-Mem k id tabs te (ground arith))
]

pub tab_keys-Mem :
    (k id : String) (entries : Map ChromeEntry) (te : TabEntry)
    → tab_at k id entries ≡ some te
    → Memᴰ {A = String × String} (k, id) (tab_keys entries)
unfolding tab_at tab_keys
tab_keys-Mem k id [] te h = cc
tab_keys-Mem k id ((j, e) ∷ m) te h = elim (Bool-cases (j == k)) [
  | inl same ↦
      let i : j ≡ k = ground (arith, eq_iff j k) in
      Mem-append_left _ (tab_keys m) (k, id)
        (subst (λ x. Memᴰ {A = String × String} (k, id) (map (λ y. (x, y.0)) e.tabs)) (sym i)
          (keys-Mem k id e.tabs te (ground arith)))
  | inr other ↦
      Mem-append_right (map (λ y. (j, y.0)) e.tabs) (tab_keys m) (k, id)
        (tab_keys-Mem k id m te (ground arith))
]

-- What `evictOldestLocked` did: no tab but those of the panel is there, or one is closed that was
-- not used later than any other.
abbrev pub Evicts : Pool → Option Pool → Type 0
Evicts p none =
    (j id : String) (tab : TabEntry) → tab_at j id p.entries ≡ some tab → is_panel tab ≡ true
Evicts p (some q) =
    (k : String) × (te : TabEntry) × IsCandidate p.entries k te
    × (q ≡ close_tab_entry k te p)
    × ((j id : String) (tab : TabEntry)
        → tab_at j id p.entries ≡ some tab
        → is_panel tab ≡ false
        → te.last_active ≤ tab.last_active)

abbrev closed_by : Pool → Option (String × TabEntry) → Option Pool
closed_by p o = elim o [ none ↦ none | some (k, te) ↦ some (close_tab_entry k te p) ]

closed_by-Evicts :
    (p : Pool) (o : Option (String × TabEntry))
    → IsChoice p.entries o
    → ((j id : String) (tab : TabEntry)
        → tab_at j id p.entries ≡ some tab
        → is_panel tab ≡ false
        → IsBefore tab.last_active o)
    → Evicts p (closed_by p o)
closed_by-Evicts p none c b =
    λ j id tab h. elim (Bool-cases (is_panel tab)) [ inl y ↦ y | inr n ↦ absurd (b j id tab h n) ]
closed_by-Evicts p (some (k, te)) c b = (k, te, c, refl, b)

-- When the pool makes room, it closes a tab that is not the panel's and that no other such tab was
-- left unused for longer than; it closes none only if every tab is the panel's.
pub evict_oldest-Evicts : (p : Pool) → IsPooled p → Evicts p (evict_oldest p)
unfolding evict_oldest oldest_tab
evict_oldest-Evicts p w =
    closed_by-Evicts p (oldest_tab p.entries)
      (oldest_from-IsChoice p.entries none (tab_keys p.entries) w.filed tt)
      (λ j id tab h n.
        oldest_from-Mem p.entries j id tab none (tab_keys p.entries) h n
          (tab_keys-Mem j id p.entries tab h))

pub closed_shorter :
    (k : String) (te : TabEntry) (p : Pool)
    → IsPooled p
    → tab_at k te.target_id p.entries ≡ some te
    → length (close_tab_entry k te p).tab_index < length p.tab_index
unfolding close_tab_entry unregister index_at
closed_shorter k te p w c = ground (
  arith,
  w.agree k te.target_id,
  handle_at-tab_at k te.target_id p.entries te c,
  length-delete_lt te.target_id p.tab_index,
)

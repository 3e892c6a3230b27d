-- ===== src/Pool/Close.antt =====
-- How the pool gives tabs back: browser/pool.go.
use deepwork_browser.Prelude.{
  ℕ, ◌+◌, String, Bool, true, false, not, List, [], ◌∷◌, Option, none, some, if◌then◌else◌, ltb,
  ◌==◌, Map, lookup, delete, Text, text_eq,
}
use deepwork_browser.Tabs.Index.{TabHandle, TabIndex, unregister}
use deepwork_browser.Session.Profiles.{normalize_profile_id}
use deepwork_browser.Pool.State.{
  TabEntry, ChromeEntry, Pool, update, tab_at, tab_keys, KeyOf, default_descriptor, resolve,
  PoolConfig,
}

unfoldable pub is_panel : TabEntry → Bool
is_panel te = te.handle.workspace_id == "webui-panel"

unfoldable pub without_tab : TabEntry → ChromeEntry → ChromeEntry
unfolding delete
without_tab te e = record e {
  root_claimed = if te.target_id == e.root_target_id then false else e.root_claimed;
  tabs = delete te.target_id e.tabs;
}

-- `closeTabEntryLocked`, on the entry under the key.
unfoldable pub close_tab_entry : String → TabEntry → Pool → Pool
unfolding update without_tab unregister
close_tab_entry k te p = record p {
  entries = update k (without_tab te) p.entries;
  tab_index = (unregister te.target_id p.tab_index).0;
}

abbrev pub older :
    Option (String × TabEntry) → String → Option TabEntry → Option (String × TabEntry)
older oldest k none = oldest
older none k (some te) = if is_panel te then none else some (k, te)
older (some (j, old)) k (some te) =
    if is_panel te
    then some (j, old)
    else if ltb te.last_active old.last_active
    then some (k, te)
    else some (j, old)

-- The loop of `evictOldestLocked`.
unfoldable pub oldest_from :
    Map ChromeEntry
    → Option (String × TabEntry)
    → List (String × String)
    → Option (String × TabEntry)
unfolding is_panel tab_at
oldest_from entries oldest [] = oldest
oldest_from entries oldest ((k, id) ∷ ks) =
    oldest_from entries (older oldest k (tab_at k id entries)) ks

unfoldable pub oldest_tab : Map ChromeEntry → Option (String × TabEntry)
unfolding oldest_from tab_keys
oldest_tab entries = oldest_from entries none (tab_keys entries)

unfoldable pub evict_oldest : Pool → Option Pool
unfolding oldest_tab close_tab_entry
evict_oldest p = elim (oldest_tab p.entries) [
  | none ↦ none
  | some (k, te) ↦ some (close_tab_entry k te p)
]

-- A tab is idle if it was last used no later than the idle time ago.
unfoldable pub is_idle : ℕ → ℕ → TabEntry → Bool
unfolding is_panel
is_idle now timeout te = if is_panel te then false else not (ltb now (te.last_active + timeout))

abbrev pub reap_tab : ℕ → String → Option TabEntry → Pool → Pool
reap_tab now k none p = p
reap_tab now k (some te) p =
    if is_idle now p.config.idle_timeout te then close_tab_entry k te p else p

unfoldable pub reap_from : ℕ → List (String × String) → Pool → Pool
unfolding is_idle close_tab_entry tab_at
reap_from now [] p = p
reap_from now ((k, id) ∷ ks) p = reap_from now ks (reap_tab now k (tab_at k id p.entries) p)

unfoldable pub reap_idle_tabs : ℕ → Pool → Pool
unfolding reap_from tab_keys
reap_idle_tabs now p = if p.closed then p else reap_from now (tab_keys p.entries) p

-- Every tab of an entry, out of the index.
unfoldable pub unregister_all : Map TabEntry → TabIndex → TabIndex
unfolding unregister
unregister_all [] idx = idx
unregister_all ((id, te) ∷ tabs) idx = unregister_all tabs (unregister id idx).0

unfoldable pub remove_entry : String → ChromeEntry → Pool → Pool
unfolding unregister_all delete
remove_entry k e p = record p {
  entries = delete k p.entries;
  tab_index = unregister_all e.tabs p.tab_index;
}

-- `resetEntryLocked`: whether there was an entry.
unfoldable pub reset_entry : String → Pool → Pool × Bool
unfolding lookup remove_entry
reset_entry k p = elim (lookup k p.entries) [
  | none ↦ (p, false)
  | some e ↦ (remove_entry k e p, true)
]

unfoldable pub switch_profile : KeyOf → Text → Pool → Pool × Bool
unfolding normalize_profile_id reset_entry default_descriptor resolve
switch_profile key_of id p =
    let profile = normalize_profile_id id in
    let q = (reset_entry p.default_identity_key p).0 in
    let config : PoolConfig = record q.config { profile_id = profile } in
    let d = default_descriptor key_of config in
    if text_eq (normalize_profile_id p.config.profile_id) profile then (p, false) else (
      record q { config = config; registry = resolve d q.registry; default_identity_key = d.key },
      true,
    )

unfoldable pub unregister_entries : Map ChromeEntry → TabIndex → TabIndex
unfolding unregister_all
unregister_entries [] idx = idx
unregister_entries ((k, e) ∷ m) idx = unregister_entries m (unregister_all e.tabs idx)

unfoldable pub graceful_shutdown : Pool → Pool
unfolding unregister_entries
graceful_shutdown p = if p.closed then p else record p {
  closed = true;
  entries = [];
  tab_index = unregister_entries p.entries p.tab_index;
}

pub data ReleaseError : Type 0 where
  tab_not_found orphan_tab : ReleaseError

abbrev pub release_in : String → TabHandle → Pool → Pool × Option ReleaseError
release_in id h p = elim (lookup h.identity_key p.entries) [
  | none ↦ (record p { tab_index = (unregister id p.tab_index).0 }, some orphan_tab)
  | some e ↦ elim (lookup id e.tabs) [
    | none ↦ (p, none)
    | some te ↦ (close_tab_entry h.identity_key te p, none)
  ]
]

unfoldable pub release_tab : String → Pool → Pool × Option ReleaseError
unfolding lookup unregister close_tab_entry
release_tab id p = elim (lookup id p.tab_index) [
  | none ↦ (p, some tab_not_found)
  | some h ↦ release_in id h p
]

abbrev pub touch : ℕ → TabEntry → TabEntry
touch now te = record te { last_active = now }

abbrev pub touch_tab : ℕ → String → ChromeEntry → ChromeEntry
touch_tab now id e = record e { tabs = update id (touch now) e.tabs }

abbrev pub core_at : ℕ → String → TabHandle → Pool → Pool × Option ℕ
core_at now id h p = elim (tab_at h.identity_key id p.entries) [
  | none ↦ (p, none)
  | some te ↦
      (record p { entries = update h.identity_key (touch_tab now id) p.entries }, some te.core)
]

unfoldable pub get_core : ℕ → String → Pool → Pool × Option ℕ
unfolding lookup tab_at update
get_core now id p = elim (lookup id p.tab_index) [ none ↦ (p, none) | some h ↦ core_at now id h p ]

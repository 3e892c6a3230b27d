-- ===== src/Pool/Tests.antt =====
-- Runs of the pool of browser/pool.go, and its theorems at concrete pools.
use deepwork_browser.Prelude.{
  ℕ, String, true, false, List, [], ◌∷◌, none, some, ◌≡◌, refl, lookup, codes, map, values,
}
use deepwork_browser.Pool.State.{
  IdentityDescriptor, RuntimeContract, ChromeEntry, Pool, PoolConfig, KeyOf, new_browser_pool,
  tab_at,
}
use deepwork_browser.Pool.Acquire.{
  mode_mismatch, not_ensured, Answers, AcquireTabRequest, acquire_tab, start_entry, reuse_entry,
  new_handle,
}
use deepwork_browser.Pool.Close.{
  evict_oldest, release_tab, get_core, reap_idle_tabs, graceful_shutdown,
}
use deepwork_browser.Pool.Invariant.{IsPooled}
use deepwork_browser.Pool.Evict.{Evicts, evict_oldest-Evicts}
use deepwork_browser.Pool.Outcome.{Ends, acquire_tab-Ends}
use deepwork_browser.Pool.Reap.{left_at, tab_at-reap_idle_tabs}
use deepwork_browser.Pool.Shut.{IsShut, run-IsShut}
use deepwork_browser.Pool.Returned.{
  release_tab-acquire_tab, get_core-acquire_tab, reuse_entry-start_entry_human,
}
use deepwork_browser.Pool.Run.{PoolOp, run, run-IsPooled}

abbrev profile_key : KeyOf
profile_key profile preset = "id"

abbrev config : PoolConfig
config = record {
  max_tabs = 2;
  idle_timeout = 100;
  preset_id = codes "p";
  profile_id = codes "a";
  mode = [];
}

-- Chrome opens with the target `root`.
abbrev answers : String → ℕ → Answers
answers id now = record {
  has_preset = λ t. true;
  default_preset = codes "p";
  started = λ mode. some "root";
  warmed_up = some id;
  local_id = "local";
  core = now;
  now = now;
}

abbrev request : String → AcquireTabRequest
request workspace = record {
  identity_key = "id";
  workspace_id = workspace;
  role = "agent";
  mode = [];
  browser_session_id = codes "s";
  session_kind = codes "task";
  goal = [];
  owner = codes "o";
  isolation = codes "i";
  service_name = [];
  account_id = [];
}

abbrev opening : List PoolOp
opening =
    PoolOp.acquires (answers "x" 10) (request "w")
    ∷ PoolOp.acquires (answers "y" 20) (request "webui-panel")
    ∷ []

abbrev fresh : Pool
fresh = new_browser_pool profile_key (codes "p") config

abbrev full : Pool
full = run opening fresh

abbrev one : Pool
one = run (PoolOp.acquires (answers "x" 10) (request "w") ∷ []) fresh

abbrev targets : Pool → List String
targets p = map (λ h. h.target_id) (values p.tab_index)

-- The first tab is the target that Chrome opened with.
targets-run : targets full ≡ "y" ∷ "root" ∷ []
unfolding run values new_browser_pool
targets-run = refl

-- The panel's tab stays; the other one makes room, and its target is used again.
targets-evicted :
    targets (run (PoolOp.acquires (answers "z" 30) (request "v") ∷ []) full) ≡ "root" ∷ "y" ∷ []
unfolding run values new_browser_pool
targets-evicted = refl

run-IsPooled_example : IsPooled full
run-IsPooled_example = run-IsPooled profile_key (codes "p") config opening

fresh-IsPooled : IsPooled fresh
unfolding run new_browser_pool
fresh-IsPooled = run-IsPooled profile_key (codes "p") config []

evict_oldest-Evicts_example : Evicts full (evict_oldest full)
evict_oldest-Evicts_example =
    evict_oldest-Evicts full (run-IsPooled profile_key (codes "p") config opening)

acquire_tab-Ends_example :
    Ends (answers "z" 30) (request "v") full (acquire_tab (answers "z" 30) (request "v") full)
acquire_tab-Ends_example =
    acquire_tab-Ends (answers "z" 30) (request "v") full
      (run-IsPooled profile_key (codes "p") config opening)

tab_at-reap_idle_tabs_example :
    tab_at "id" "root" (reap_idle_tabs 110 full).entries
    ≡ left_at 110 full.config.idle_timeout (tab_at "id" "root" full.entries)
unfolding run new_browser_pool
tab_at-reap_idle_tabs_example =
    tab_at-reap_idle_tabs 110 full "id" "root" (run-IsPooled profile_key (codes "p") config opening)
      refl

run-IsShut_example : IsShut (run opening (graceful_shutdown full))
unfolding run new_browser_pool
run-IsShut_example =
    run-IsShut opening full (run-IsPooled profile_key (codes "p") config opening) refl

release_tab-acquire_tab_example :
    let (q, err) = release_tab "y" (acquire_tab (answers "y" 20) (request "v") one).0 in
    (err ≡ none) × (lookup "root" q.tab_index ≡ lookup "root" one.tab_index)
unfolding run new_browser_pool
release_tab-acquire_tab_example =
    release_tab-acquire_tab (answers "y" 20) (request "v") one
      (new_handle (answers "y" 20) (request "v") "y") "root"
      (run-IsPooled profile_key (codes "p") config
        (PoolOp.acquires (answers "x" 10) (request "w") ∷ []))
      refl refl

get_core-acquire_tab_example :
    (get_core 30 "y" (acquire_tab (answers "y" 20) (request "v") one).0).1 ≡ some 20
unfolding run new_browser_pool
get_core-acquire_tab_example =
    get_core-acquire_tab (answers "y" 20) (request "v") one
      (new_handle (answers "y" 20) (request "v") "y") 30
      (run-IsPooled profile_key (codes "p") config
        (PoolOp.acquires (answers "x" 10) (request "w") ∷ []))
      refl refl

abbrev identity : IdentityDescriptor
identity = record { key = "id"; profile = codes "a"; preset_tag = codes "p" }

abbrev contract : RuntimeContract
contract = record {
  browser_session_id = codes "s";
  session_kind = codes "task";
  goal = [];
  owner = codes "o";
  isolation = codes "i";
  service_name = [];
  account_id = [];
}

abbrev seen : ChromeEntry
seen = record {
  identity = identity;
  preset_id = codes "p";
  profile_id = codes "a";
  mode = codes "visible";
  started = true;
  tabs = [];
  root_target_id = "root";
  root_claimed = false;
  runtime_contract = contract;
}

reuse_entry-start_entry_human_example :
    reuse_entry (codes "human") contract seen ≡ not_ensured mode_mismatch
unfolding start_entry
reuse_entry-start_entry_human_example =
    reuse_entry-start_entry_human (answers "x" 10) identity contract contract fresh seen refl

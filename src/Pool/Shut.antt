-- ===== src/Pool/Shut.antt =====
-- The pool of browser/pool.go after its shutdown.
use mathlib.Core.Path.{subst}
use deepwork_browser.Prelude.{
  text_eq, if_cases_dep, sym, ℕ, String, Bool, true, false, List, [], ◌∷◌, none, arith, lookup, ◌≡◌,
  refl, Text,
}
use deepwork_browser.Session.Profiles.{normalize_profile_id}
use deepwork_browser.Pool.State.{Pool, resolve_profile_identity, KeyOf}
use deepwork_browser.Pool.Acquire.{Answers, AcquireTabRequest, acquire_tab}
use deepwork_browser.Pool.Close.{
  release_tab, get_core, reap_idle_tabs, reset_entry, graceful_shutdown, switch_profile,
}
use deepwork_browser.Pool.Invariant.{IsPooled}
use deepwork_browser.Pool.Remove.{unregister_entries-gone}
use deepwork_browser.Pool.Run.{
  resolves_profile, resolves, switches, resets, reaps, reads, releases, acquires, PoolOp, apply,
  run,
}

pub record IsShut (p : Pool) : Type 0 where
  pub shut : p.closed ≡ true
  pub no_chrome : p.entries ≡ []
  pub no_tab : (id : String) → lookup id p.tab_index ≡ none

graceful_shutdown-IsShut : (p : Pool) → IsPooled p → p.closed ≡ false → IsShut (graceful_shutdown p)
unfolding graceful_shutdown
graceful_shutdown-IsShut p w h =
    rw (graceful_shutdown, h)
      record { shut = refl; no_chrome = refl; no_tab = λ id. unregister_entries-gone id p w }

acquire_tab_shut :
    (a : Answers) (req : AcquireTabRequest) (p : Pool) → IsShut p → (acquire_tab a req p).0 ≡ p
unfolding acquire_tab
acquire_tab_shut a req p w = ground (arith, w.shut)

release_tab_shut : (id : String) (p : Pool) → IsShut p → (release_tab id p).0 ≡ p
unfolding release_tab
release_tab_shut id p w = ground (arith, w.no_tab id)

get_core_shut : (now : ℕ) (id : String) (p : Pool) → IsShut p → (get_core now id p).0 ≡ p
unfolding get_core
get_core_shut now id p w = ground (arith, w.no_tab id)

reset_entry_shut : (k : String) (p : Pool) → IsShut p → (reset_entry k p).0 ≡ p
unfolding reset_entry lookup
reset_entry_shut k p w = ground (arith, w.no_chrome)

reap_idle_tabs_shut : (now : ℕ) (p : Pool) → IsShut p → reap_idle_tabs now p ≡ p
unfolding reap_idle_tabs
reap_idle_tabs_shut now p w = ground (arith, w.shut)

graceful_shutdown_shut : (p : Pool) → IsShut p → graceful_shutdown p ≡ p
unfolding graceful_shutdown
graceful_shutdown_shut p w = ground (arith, w.shut)

switch_profile-IsShut :
    (key_of : KeyOf) (id : Text) (p : Pool) → IsShut p → IsShut (switch_profile key_of id p).0
unfolding switch_profile
switch_profile-IsShut key_of id p w =
    let v : IsShut (reset_entry p.default_identity_key p).0 =
      subst IsShut (sym (reset_entry_shut p.default_identity_key p w)) w in
    if_cases_dep (λ (r : Pool × Bool). IsShut (r.0))
      (text_eq (normalize_profile_id p.config.profile_id) (normalize_profile_id id)) _ _ (λ _. w)
      (λ _. record { shut = v.shut; no_chrome = v.no_chrome; no_tab = v.no_tab })

apply-IsShut : (op : PoolOp) (p : Pool) → IsShut p → IsShut (apply op p)
unfolding apply resolve_profile_identity
apply-IsShut (acquires a req) p w = subst IsShut (sym (acquire_tab_shut a req p w)) w
apply-IsShut (releases id) p w = subst IsShut (sym (release_tab_shut id p w)) w
apply-IsShut (reads now id) p w = subst IsShut (sym (get_core_shut now id p w)) w
apply-IsShut (reaps now) p w = subst IsShut (sym (reap_idle_tabs_shut now p w)) w
apply-IsShut (resets k) p w = subst IsShut (sym (reset_entry_shut k p w)) w
apply-IsShut (switches key_of id) p w = switch_profile-IsShut key_of id p w
apply-IsShut (resolves d) p w = record { shut = w.shut; no_chrome = w.no_chrome; no_tab = w.no_tab }
apply-IsShut (resolves_profile key_of id) p w = record {
  shut = w.shut;
  no_chrome = w.no_chrome;
  no_tab = w.no_tab;
}
apply-IsShut PoolOp.shuts_down p w = subst IsShut (sym (graceful_shutdown_shut p w)) w

run_from-IsShut : (ops : List PoolOp) (p : Pool) → IsShut p → IsShut (run ops p)
unfolding run
run_from-IsShut [] p w = w
run_from-IsShut (op ∷ ops) p w = run_from-IsShut ops (apply op p) (apply-IsShut op p w)

-- Once an open pool in which the index and the Chromes agree is shut down, it has no Chrome and lists
-- no tab, whatever is called after that.
pub run-IsShut :
    (ops : List PoolOp) (p : Pool)
    → IsPooled p
    → p.closed ≡ false
    → IsShut (run ops (graceful_shutdown p))
run-IsShut ops p w h = run_from-IsShut ops (graceful_shutdown p) (graceful_shutdown-IsShut p w h)

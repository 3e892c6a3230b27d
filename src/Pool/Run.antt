-- ===== src/Pool/Run.antt =====
-- The pool of browser/pool.go under any calls, from its start on.
use deepwork_browser.Prelude.{
  ℕ, String, Bool, List, [], ◌∷◌, some, arith, eq_iff, Map, lookup, lookup-insert, ◌≡◌, if_cases,
  refl, Text,
}
use deepwork_browser.Session.Profiles.{normalize_profile_id}
use deepwork_browser.Pool.State.{
  IdentityDescriptor, Pool, PoolConfig, tab_at, KeyOf, new_browser_pool, resolve,
  resolve_profile_identity, default_descriptor,
}
use deepwork_browser.Pool.Acquire.{Answers, AcquireTabRequest, acquire_tab}
use deepwork_browser.Pool.Close.{
  release_tab, get_core, reap_idle_tabs, reset_entry, graceful_shutdown, switch_profile,
}
use deepwork_browser.Pool.Invariant.{IsPooled, handle_at, index_at}
use deepwork_browser.Pool.Remove.{reset_entry-IsPooled, graceful_shutdown-IsPooled}
use deepwork_browser.Pool.Reads.{get_core-IsPooled, release_tab-IsPooled, reap_idle_tabs-IsPooled}
use deepwork_browser.Pool.Opened.{acquire_tab-IsPooled}

pub data PoolOp : Type 0 where
  acquires : Answers → AcquireTabRequest → PoolOp
  releases : String → PoolOp
  reads : ℕ → String → PoolOp
  reaps : ℕ → PoolOp
  resets : String → PoolOp
  switches : KeyOf → Text → PoolOp
  resolves : IdentityDescriptor → PoolOp
  resolves_profile : KeyOf → Text → PoolOp
  shuts_down : PoolOp

unfoldable pub apply : PoolOp → Pool → Pool
unfolding acquire_tab release_tab get_core reap_idle_tabs reset_entry switch_profile resolve
    resolve_profile_identity graceful_shutdown
apply (acquires a req) p = (acquire_tab a req p).0
apply (releases id) p = (release_tab id p).0
apply (reads now id) p = (get_core now id p).0
apply (reaps now) p = reap_idle_tabs now p
apply (resets k) p = (reset_entry k p).0
apply (switches key_of id) p = (switch_profile key_of id p).0
apply (resolves d) p = record p { registry = resolve d p.registry }
apply (resolves_profile key_of id) p = (resolve_profile_identity key_of id p).0
apply shuts_down p = graceful_shutdown p

unfoldable pub run : List PoolOp → Pool → Pool
unfolding apply
run [] p = p
run (op ∷ ops) p = run ops (apply op p)

resolve_known :
    (d : IdentityDescriptor) (store : Map IdentityDescriptor)
    → ((k : String) (e : IdentityDescriptor) → lookup k store ≡ some e → e.key ≡ k)
    → (k : String) (e : IdentityDescriptor) → lookup k (resolve d store) ≡ some e
    → e.key ≡ k
unfolding resolve
resolve_known d store w k e h = ground (arith, w k e, lookup-insert d.key k d store, eq_iff d.key k)

resolved-IsPooled :
    (d : IdentityDescriptor) (p : Pool)
    → IsPooled p
    → IsPooled (record p { registry = resolve d p.registry })
resolved-IsPooled d p w = record {
  agree = w.agree;
  filed = w.filed;
  known = resolve_known d p.registry w.known;
  bounded = w.bounded;
}

resolve_profile_identity-IsPooled :
    (key_of : KeyOf) (id : Text) (p : Pool)
    → IsPooled p
    → IsPooled (resolve_profile_identity key_of id p).0
unfolding resolve_profile_identity
resolve_profile_identity-IsPooled key_of id p w = resolved-IsPooled _ p w

switched : KeyOf → Text → Pool → Pool
unfolding default_descriptor
switched key_of profile q =
    let config : PoolConfig = record q.config { profile_id = profile } in
    let d = default_descriptor key_of config in
    record q { config = config; registry = resolve d q.registry; default_identity_key = d.key }

switched-IsPooled :
    (key_of : KeyOf) (profile : Text) (q : Pool) → IsPooled q → IsPooled (switched key_of profile q)
unfolding switched
switched-IsPooled key_of profile q w = record {
  agree = w.agree;
  filed = w.filed;
  known = resolve_known _ q.registry w.known;
  bounded = w.bounded;
}

switch_profile-IsPooled :
    (key_of : KeyOf) (id : Text) (p : Pool) → IsPooled p → IsPooled (switch_profile key_of id p).0
unfolding switch_profile switched
switch_profile-IsPooled key_of id p w =
    if_cases (λ (r : Pool × Bool). IsPooled (r.0)) _ _ _ w
      (switched-IsPooled key_of (normalize_profile_id id) (reset_entry p.default_identity_key p).0
        (reset_entry-IsPooled p.default_identity_key p w))

apply-IsPooled : (op : PoolOp) (p : Pool) → IsPooled p → IsPooled (apply op p)
unfolding apply
apply-IsPooled (acquires a req) p w = acquire_tab-IsPooled a req p w
apply-IsPooled (releases id) p w = release_tab-IsPooled id p w
apply-IsPooled (reads now id) p w = get_core-IsPooled now id p w
apply-IsPooled (reaps now) p w = reap_idle_tabs-IsPooled now p w
apply-IsPooled (resets k) p w = reset_entry-IsPooled k p w
apply-IsPooled (switches key_of id) p w = switch_profile-IsPooled key_of id p w
apply-IsPooled (resolves d) p w = resolved-IsPooled d p w
apply-IsPooled (resolves_profile key_of id) p w = resolve_profile_identity-IsPooled key_of id p w
apply-IsPooled shuts_down p w = graceful_shutdown-IsPooled p w

pub new_browser_pool-IsPooled :
    (key_of : KeyOf) (preset : Text) (c : PoolConfig) → IsPooled (new_browser_pool key_of preset c)
unfolding new_browser_pool handle_at index_at tab_at lookup
new_browser_pool-IsPooled key_of preset c = record {
  agree = λ k id. refl;
  filed = λ k id te h. ground arith;
  known = resolve_known _ [] (λ k e h. ground arith);
  bounded = omega arith;
}

run_from-IsPooled : (ops : List PoolOp) (p : Pool) → IsPooled p → IsPooled (run ops p)
unfolding run
run_from-IsPooled [] p w = w
run_from-IsPooled (op ∷ ops) p w = run_from-IsPooled ops (apply op p) (apply-IsPooled op p w)

-- After any calls of a new pool, whatever Chrome answers, its index and its Chromes list the same
-- tabs with the same handles, each under its own target and in the Chrome of its identity, and there
-- are no more of them than the limit.
pub run-IsPooled :
    (key_of : KeyOf) (preset : Text) (c : PoolConfig) (ops : List PoolOp)
    → IsPooled (run ops (new_browser_pool key_of preset c))
run-IsPooled key_of preset c ops =
    run_from-IsPooled ops (new_browser_pool key_of preset c)
      (new_browser_pool-IsPooled key_of preset c)

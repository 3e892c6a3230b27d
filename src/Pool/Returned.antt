-- ===== src/Pool/Returned.antt =====
-- A tab of browser/pool.go given back, and a Chrome asked for again.
use mathlib.Core.Path.{subst}
use deepwork_browser.Prelude.{ℕ, refl}
use deepwork_browser.Prelude.{
  String, false, none, some, arith, if◌then◌else◌, leb, length, ◌==◌, eq_iff, eq_refl, lookup, ◌≡◌,
  ap, ◌∙◌, codes, inl, inr,
}
use deepwork_browser.Tabs.Index.{TabHandle}
use deepwork_browser.Session.Kinds.{normalize_browser_mode, visible}
use deepwork_browser.Pool.State.{
  TabEntry, IdentityDescriptor, RuntimeContract, ChromeEntry, Pool, tab_at,
}
use deepwork_browser.Pool.Acquire.{
  new_tab, mode_mismatch, acquired, ensured, not_ensured, Answers, AcquireTabRequest, acquire_tab,
  start_entry, reuse_entry,
}
use deepwork_browser.Pool.Close.{release_tab, get_core, core_at, close_tab_entry}
use deepwork_browser.Pool.Invariant.{IsPooled, lookup-unregister}
use deepwork_browser.Pool.Outcome.{Outcome, acquire_tab-Ends}
use deepwork_browser.Pool.Opened.{acquire_tab-IsPooled}
use deepwork_browser.Pool.Reads.{release_tab_listed}

outcome_of :
    (a : Answers) (req : AcquireTabRequest) (p : Pool) (h : TabHandle)
    → IsPooled p
    → leb p.config.max_tabs (length p.tab_index) ≡ false
    → (acquire_tab a req p).1 ≡ acquired h
    → Outcome a req p ((acquire_tab a req p).0, acquired h)
outcome_of a req p h w room got =
    let (q, which, o) = acquire_tab-Ends a req p w in
    elim which [
      | inl e ↦
          subst (λ x. Outcome a req p ((acquire_tab a req p).0, x)) got
            (subst (λ q. Outcome a req q (acquire_tab a req p)) e o)
      | inr (full, _) ↦ absurd (ground arith)
    ]

lookup-close_tab_entry :
    (k id : String) (te : TabEntry) (p : Pool)
    → lookup id (close_tab_entry k te p).tab_index
      ≡ (if te.target_id == id then none else lookup id p.tab_index)
unfolding close_tab_entry
lookup-close_tab_entry k id te p = lookup-unregister te.target_id id p.tab_index

-- A tab that a pool with room gave can be released, without an error, and every look-up is then as it
-- was before the acquisition.
pub release_tab-acquire_tab :
    (a : Answers) (req : AcquireTabRequest) (p : Pool) (h : TabHandle) (id : String)
    → IsPooled p
    → leb p.config.max_tabs (length p.tab_index) ≡ false
    → (acquire_tab a req p).1 ≡ acquired h
    → let (q, err) = release_tab h.target_id (acquire_tab a req p).0 in
      (err ≡ none) × (lookup id q.tab_index ≡ lookup id p.tab_index)
release_tab-acquire_tab a req p h id w room got =
    let p' = (acquire_tab a req p).0 in
    let (_, fresh, look, _) = outcome_of a req p h w room got in
    let listed : lookup h.target_id p'.tab_index ≡ some h =
      ground (arith, look h.target_id, eq_refl h.target_id) in
    let (te, _, same, r) =
      release_tab_listed h.target_id h p' (acquire_tab-IsPooled a req p w) listed in
    (
      ap (λ x. x.1) r,
      ap (λ x. lookup id (x.0).tab_index) r
          ∙ ground (
            arith,
            same,
            fresh,
            look id,
            lookup-close_tab_entry h.identity_key id te p',
            eq_iff h.target_id id,
          ),
    )

get_core_listed :
    (now : ℕ) (h : TabHandle) (id : String) (te : TabEntry) (p : Pool)
    → lookup id p.tab_index ≡ some h
    → tab_at h.identity_key id p.entries ≡ some te
    → (get_core now id p).1 ≡ some te.core
unfolding get_core
get_core_listed now h id te p l t = rw (get_core, core_at, l, t) refl

-- The core of a tab that a pool with room gave is found under its target.
pub get_core-acquire_tab :
    (a : Answers) (req : AcquireTabRequest) (p : Pool) (h : TabHandle) (now : ℕ)
    → IsPooled p
    → leb p.config.max_tabs (length p.tab_index) ≡ false
    → (acquire_tab a req p).1 ≡ acquired h
    → (get_core now h.target_id (acquire_tab a req p).0).1 ≡ some a.core
get_core-acquire_tab a req p h now w room got =
    let p' = (acquire_tab a req p).0 in
    let (_, _, look, tab) = outcome_of a req p h w room got in
    let listed : lookup h.target_id p'.tab_index ≡ some h =
      ground (arith, look h.target_id, eq_refl h.target_id) in
    get_core_listed now h h.target_id (new_tab a h) p' listed tab

human_mode :
    (a : Answers) (d : IdentityDescriptor) (c : RuntimeContract) (p : Pool) (e : ChromeEntry)
    → start_entry a d (codes "human") c p ≡ ensured e
    → e.mode ≡ visible
unfolding start_entry normalize_browser_mode
human_mode a d c p e h = ground (arith, h)

human_refused :
    (c : RuntimeContract) (e : ChromeEntry)
    → e.mode ≡ visible
    → reuse_entry (codes "human") c e ≡ not_ensured mode_mismatch
unfolding reuse_entry
human_refused c e h = rw (reuse_entry, h) refl

-- A Chrome that was started for the mode `human`, which is a name of `visible`, is refused to every
-- later request for the mode `human`.
pub reuse_entry-start_entry_human :
    (a : Answers) (d : IdentityDescriptor) (c c' : RuntimeContract) (p : Pool) (e : ChromeEntry)
    → start_entry a d (codes "human") c p ≡ ensured e
    → reuse_entry (codes "human") c' e ≡ not_ensured mode_mismatch
reuse_entry-start_entry_human a d c c' p e h = human_refused c' e (human_mode a d c p e h)

-- ===== src/Pool/Outcome.antt =====
-- What an acquisition of browser/pool.go does to the tabs of the others.
use mathlib.Core.Path.{subst}
use deepwork_browser.Pool.Kept.{register_refused, tab_at-insert}
use deepwork_browser.Pool.Invariant.{IsPooled}
use deepwork_browser.Prelude.{
  codes, lookup-insert, has_prefix, ◌&&◌, insert, String, true, Option, none, some, arith,
  if◌then◌else◌, not, leb, length, ◌==◌, eq_refl, lookup, ◌≡◌, ◌⊎◌, sym, ap, ◌∙◌, inl, inr,
  if_cases_dep, refl,
}
use deepwork_browser.Tabs.Index.{TabIndex, IndexError, register, len, is_valid_role}
use deepwork_browser.Tabs.Laws.{register_iff, lookup-register}
use deepwork_browser.Pool.State.{IdentityDescriptor, ChromeEntry, Pool, tab_at}
use deepwork_browser.Pool.Acquire.{
  ensured, not_ensured, acquired, refused, Answers, AcquireTabRequest, Acquired, Ensured,
  get_or_create_entry, create_tab, new_handle, new_tab, add_tab, open_tab, in_entry, acquire_for,
  acquire_in_place, acquire_within, acquire_known, acquire_tab, runtime_contract_from_acquire_tab,
}
use deepwork_browser.Pool.Close.{evict_oldest}

-- The new handle is listed, its tab has the new core, and every other target is as it was; without
-- one, every target is.
abbrev pub Outcome : Answers → AcquireTabRequest → Pool → Pool × Acquired → Type 0
Outcome a req p (q, refused err) = (id : String) → lookup id q.tab_index ≡ lookup id p.tab_index
Outcome a req p (q, acquired h) =
    (h ≡ new_handle a req h.target_id)
    × (lookup h.target_id p.tab_index ≡ none)
    × ((id : String)
        → lookup id q.tab_index ≡ (if h.target_id == id then some h else lookup id p.tab_index))
    × (tab_at h.identity_key h.target_id q.entries ≡ some (new_tab a h))

add_tab-Outcome :
    (a : Answers) (req : AcquireTabRequest) (id : String) (e : ChromeEntry)
    (r : TabIndex × Option IndexError) (p : Pool)
    → r ≡ register (some (new_handle a req id)) a.now p.tab_index
    → Outcome a req p (add_tab a (new_handle a req id) e r req.identity_key p)
unfolding add_tab
add_tab-Outcome a req id e (idx, some err) p q = λ j. ap (lookup j) (
    ap (λ r. r.0) q
    ∙ register_refused (new_handle a req id) a.now p.tab_index err (sym (ap (λ r. r.1) q)))
add_tab-Outcome a req id e (idx, none) p q = (
  refl,
  ground (arith, register_iff (new_handle a req id) a.now p.tab_index, ap (λ r. r.1) q),
  λ j. ground (
    arith,
    lookup-register (new_handle a req id) a.now p.tab_index j,
    ap (λ r. r.1) q,
    ap (λ r. lookup j (r.0)) q,
  ),
  ground (
    arith,
    tab_at-insert req.identity_key req.identity_key id
        (record e { tabs = insert id (new_tab a (new_handle a req id)) e.tabs }) p.entries,
    lookup-insert id id (new_tab a (new_handle a req id)) e.tabs,
    eq_refl id,
    eq_refl req.identity_key,
  ),
)

open_tab-Outcome :
    (a : Answers) (req : AcquireTabRequest) (r : ChromeEntry × Option String) (p : Pool)
    → Outcome a req p (open_tab a req req.identity_key r p)
unfolding open_tab
open_tab-Outcome a req (e, none) p = λ id. refl
open_tab-Outcome a req (e, some id) p =
    add_tab-Outcome a req id e (register (some (new_handle a req id)) a.now p.tab_index) p refl

in_entry-Outcome :
    (a : Answers) (req : AcquireTabRequest) (r : Ensured) (p : Pool)
    → Outcome a req p (in_entry a req req.identity_key r p)
in_entry-Outcome a req (not_ensured err) p = λ id. refl
in_entry-Outcome a req (ensured e) p = open_tab-Outcome a req (create_tab a e) p

acquire_for-Outcome :
    (a : Answers) (req : AcquireTabRequest) (d : IdentityDescriptor) (p : Pool)
    → d.key ≡ req.identity_key
    → Outcome a req p (acquire_for a req d p)
unfolding acquire_for
acquire_for-Outcome a req d p k =
    let r = get_or_create_entry a d req.mode (runtime_contract_from_acquire_tab req d) p in
    subst (λ i. Outcome a req p (in_entry a req i r p)) (sym k) (in_entry-Outcome a req r p)

-- The outcome for the pool itself, or for what the eviction left of a full pool.
abbrev pub Ends : Answers → AcquireTabRequest → Pool → Pool × Acquired → Type 0
Ends a req p r =
    (q : Pool) × ((q ≡ p)
      ⊎ ((leb p.config.max_tabs (length p.tab_index) ≡ true) × (evict_oldest p ≡ some q)))
    × Outcome a req q r

acquire_in_place-Ends :
    (a : Answers) (req : AcquireTabRequest) (d : IdentityDescriptor) (p : Pool) (o : Option Pool)
    → o ≡ evict_oldest p
    → d.key ≡ req.identity_key
    → leb p.config.max_tabs (length p.tab_index) ≡ true
    → Ends a req p (acquire_in_place a req d p o)
unfolding acquire_in_place
acquire_in_place-Ends a req d p none e k l = (p, inl refl, λ id. refl)
acquire_in_place-Ends a req d p (some q) e k l =
    (q, inr (l, sym e), acquire_for-Outcome a req d q k)

acquire_within-Ends :
    (a : Answers) (req : AcquireTabRequest) (d : IdentityDescriptor) (p : Pool)
    → d.key ≡ req.identity_key
    → Ends a req p (acquire_within a req d p)
unfolding acquire_within len
acquire_within-Ends a req d p k =
    if_cases_dep (Ends a req p) (leb p.config.max_tabs (length p.tab_index)) _ _
      (λ l. acquire_in_place-Ends a req d p (evict_oldest p) refl k l)
      (λ _. (p, inl refl, acquire_for-Outcome a req d p k))

acquire_known-Ends :
    (a : Answers) (req : AcquireTabRequest) (p : Pool) (o : Option IdentityDescriptor)
    → o ≡ lookup req.identity_key p.registry
    → IsPooled p
    → Ends a req p (acquire_known a req p o)
unfolding acquire_known
acquire_known-Ends a req p none e w = (p, inl refl, λ id. refl)
acquire_known-Ends a req p (some d) e w =
    if_cases_dep (Ends a req p)
      (req.role == "council" && not (has_prefix d.profile (codes "council-"))) _ _
      (λ _. (p, inl refl, λ id. refl))
      (λ _. acquire_within-Ends a req d p (w.known req.identity_key d (sym e)))

-- An acquisition either lists one new handle, of the requested identity, whose tab has the new core,
-- or it is refused. Every other target is as it was, or, only if the pool was full, as the eviction
-- left it.
pub acquire_tab-Ends :
    (a : Answers) (req : AcquireTabRequest) (p : Pool)
    → IsPooled p
    → Ends a req p (acquire_tab a req p)
unfolding acquire_tab
acquire_tab-Ends a req p w =
    if_cases_dep (Ends a req p) (not (is_valid_role req.role)) _ _ (λ _. (p, inl refl, λ id. refl))
      (λ _.
        if_cases_dep (Ends a req p) (req.identity_key == "") _ _ (λ _. (p, inl refl, λ id. refl))
          (λ _.
            if_cases_dep (Ends a req p) p.closed _ _ (λ _. (p, inl refl, λ id. refl))
              (λ _. acquire_known-Ends a req p (lookup req.identity_key p.registry) refl w)))

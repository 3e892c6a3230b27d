-- ===== src/Pool/Reads.antt =====
-- A read of a core, a release and the removal of idle tabs keep the pool in order: browser/pool.go.
use mathlib.Core.Path.{subst}
use deepwork_browser.Prelude.{refl}
use deepwork_browser.Prelude.{
  ℕ, String, ◌&&◌, List, [], ◌∷◌, Option, none, some, if◌then◌else◌, arith, ◌==◌, eq_refl, Map,
  lookup, ◌≡◌, sym, ◌∙◌, Option-cases, inl, inr, if_cases_dep,
}
use deepwork_browser.Tabs.Index.{TabHandle}
use deepwork_browser.Pool.State.{TabEntry, ChromeEntry, Pool, tab_at, tab_keys, update}
use deepwork_browser.Pool.Close.{
  reap_tab, close_tab_entry, is_idle, reap_from, reap_idle_tabs, touch, touch_tab, get_core,
  core_at, release_tab,
}
use deepwork_browser.Pool.Invariant.{IsPooled, index_at, handle_at, lookup-update}
use deepwork_browser.Pool.Evict.{close_tab_entry-IsPooled, filed_at}

pub tab_at-touch_tab :
    (now : ℕ) (k j i id : String) (entries : Map ChromeEntry)
    → tab_at j id (update k (touch_tab now i) entries) ≡ (elim (tab_at j id entries) [
      | none ↦ none
      | some te ↦ some (if k == j && i == id then touch now te else te)
    ])
unfolding tab_at
tab_at-touch_tab now k j i id entries = elim (Option-cases (lookup j entries)) [
  | inl e ↦ ground (arith, lookup-update k j (touch_tab now i) entries)
  | inr (entry, e) ↦ ground (
    arith,
    lookup-update k j (touch_tab now i) entries,
    lookup-update i id (touch now) entry.tabs,
  )
]

pub handle_at-touch_tab :
    (now : ℕ) (k j i id : String) (entries : Map ChromeEntry)
    → handle_at j id (update k (touch_tab now i) entries) ≡ handle_at j id entries
unfolding handle_at
handle_at-touch_tab now k j i id entries = ground (arith, tab_at-touch_tab now k j i id entries)

touched-IsPooled :
    (now : ℕ) (k i : String) (p : Pool)
    → IsPooled p
    → IsPooled (record p { entries = update k (touch_tab now i) p.entries })
touched-IsPooled now k i p w = record {
  agree = λ j id. handle_at-touch_tab now k j i id p.entries ∙ w.agree j id;
  filed = λ j id tab e. elim (Option-cases (tab_at j id p.entries)) [
    | inl n ↦ ground (arith, tab_at-touch_tab now k j i id p.entries)
    | inr (te, h) ↦ ground (arith, tab_at-touch_tab now k j i id p.entries, w.filed j id te h)
  ];
  known = w.known;
  bounded = w.bounded;
}

pub get_core-IsPooled :
    (now : ℕ) (id : String) (p : Pool) → IsPooled p → IsPooled (get_core now id p).0
unfolding get_core
get_core-IsPooled now id p w = elim (Option-cases (lookup id p.tab_index)) [
  | inl e ↦ rw (get_core, e) w
  | inr (h, e) ↦ elim (Option-cases (tab_at h.identity_key id p.entries)) [
    | inl n ↦ rw (get_core, core_at, e, n) w
    | inr (te, t) ↦ rw (get_core, core_at, e, t) (touched-IsPooled now h.identity_key id p w)
  ]
]

pub tab_at-lookup :
    (k id : String) (entries : Map ChromeEntry) (e : ChromeEntry)
    → lookup k entries ≡ some e
    → tab_at k id entries ≡ lookup id e.tabs
unfolding tab_at
tab_at-lookup k id entries e h = ground (arith, h)

-- A target of the index has its tab in the Chrome of its identity.
pub listed_tab :
    (id : String) (h : TabHandle) (p : Pool)
    → IsPooled p
    → lookup id p.tab_index ≡ some h
    → (te : TabEntry) × (tab_at h.identity_key id p.entries ≡ some te) × (te.handle ≡ h)
unfolding handle_at index_at
listed_tab id h p w e = elim (Option-cases (tab_at h.identity_key id p.entries)) [
  | inl n ↦ absurd (ground (arith, w.agree h.identity_key id, eq_refl h.identity_key))
  | inr (te, t) ↦ (te, t, ground (arith, w.agree h.identity_key id, eq_refl h.identity_key))
]

-- A release of a target of the index closes its tab, and reports no orphan.
pub release_tab_listed :
    (id : String) (h : TabHandle) (p : Pool)
    → IsPooled p
    → lookup id p.tab_index ≡ some h
    → (te : TabEntry) × (tab_at h.identity_key te.target_id p.entries ≡ some te)
      × (te.target_id ≡ id)
      × (release_tab id p ≡ (close_tab_entry h.identity_key te p, none))
unfolding release_tab tab_at
release_tab_listed id h p w e =
    let (te, t, _) = listed_tab id h p w e in
    (
      te,
      filed_at p.entries h.identity_key id te w.filed t,
      w.filed h.identity_key id te t,
      ground (arith, t, e),
    )

pub release_tab-IsPooled : (id : String) (p : Pool) → IsPooled p → IsPooled (release_tab id p).0
unfolding release_tab
release_tab-IsPooled id p w = elim (Option-cases (lookup id p.tab_index)) [
  | inl e ↦ rw (release_tab, e) w
  | inr (h, e) ↦
      let (te, t, _, r) = release_tab_listed id h p w e in
      subst (λ r. IsPooled (r.0)) (sym r) (close_tab_entry-IsPooled h.identity_key te p w t)
]

reap_tab-IsPooled :
    (now : ℕ) (k : String) (t : Option TabEntry) (p : Pool)
    → IsPooled p
    → ((te : TabEntry) → t ≡ some te → tab_at k te.target_id p.entries ≡ some te)
    → IsPooled (reap_tab now k t p)
reap_tab-IsPooled now k none p w h = w
reap_tab-IsPooled now k (some te) p w h =
    if_cases_dep IsPooled (is_idle now p.config.idle_timeout te) _ _
      (λ _. close_tab_entry-IsPooled k te p w (h te refl)) (λ _. w)

reap_from-IsPooled :
    (now : ℕ) (ks : List (String × String)) (p : Pool) → IsPooled p → IsPooled (reap_from now ks p)
unfolding reap_from
reap_from-IsPooled now [] p w = w
reap_from-IsPooled now ((k, id) ∷ ks) p w =
    reap_from-IsPooled now ks (reap_tab now k (tab_at k id p.entries) p) (
      reap_tab-IsPooled now k (tab_at k id p.entries) p w
        (λ te e. filed_at p.entries k id te w.filed e))

pub reap_idle_tabs-IsPooled : (now : ℕ) (p : Pool) → IsPooled p → IsPooled (reap_idle_tabs now p)
unfolding reap_idle_tabs
reap_idle_tabs-IsPooled now p w =
    if_cases_dep IsPooled p.closed _ _ (λ _. w)
      (λ _. reap_from-IsPooled now (tab_keys p.entries) p w)

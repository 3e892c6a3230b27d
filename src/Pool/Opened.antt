-- ===== src/Pool/Opened.antt =====
-- The pool after a tab was opened: browser/pool.go.
use mathlib.Core.Path.{subst}
use deepwork_browser.Prelude.{
  if_cases, ◌<◌, String, not, Option, none, some, arith, leb, length, ◌==◌, lookup, insert, ◌≡◌,
  sym, ap, ◌∙◌, if_cases_dep, refl,
}
use deepwork_browser.Tabs.Index.{
  TabHandle, TabIndex, IndexError, register, stamped, len, is_valid_role,
}
use deepwork_browser.Pool.State.{IdentityDescriptor, ChromeEntry, Pool}
use deepwork_browser.Pool.Acquire.{
  acquire_in_place, acquire_known, not_ensured, ensured, Answers, AcquireTabRequest, Acquired,
  Ensured, get_or_create_entry, create_tab, new_handle, add_tab, open_tab, in_entry, acquire_for,
  acquire_within, acquire_tab, runtime_contract_from_acquire_tab,
}
use deepwork_browser.Pool.Close.{close_tab_entry, evict_oldest}
use deepwork_browser.Pool.Invariant.{index_at, IsPooled}
use deepwork_browser.Pool.Evict.{
  closed_shorter, close_tab_entry-IsPooled, evict_oldest-Evicts, Evicts,
}
use deepwork_browser.Pool.Kept.{
  length-register, grown-filed, create_tab-Stands, grown-agrees, get_or_create_entry-Stands,
  register_refused, put-IsPooled, Stands,
}

add_tab-IsPooled :
    (a : Answers) (h : TabHandle) (e : ChromeEntry) (r : TabIndex × Option IndexError) (p : Pool)
    → r ≡ register (some h) a.now p.tab_index
    → stamped a.now h ≡ h
    → IsPooled p
    → Stands h.identity_key p e
    → length p.tab_index < p.config.max_tabs
    → IsPooled (add_tab a h e r h.identity_key p).0
unfolding add_tab
add_tab-IsPooled a h e (idx, some err) p q t w s l =
    subst (λ i. IsPooled (record p { entries = insert h.identity_key e p.entries; tab_index = i }))
      (sym (ap (λ r. r.0) q ∙ register_refused h a.now p.tab_index err (sym (ap (λ r. r.1) q))))
      (put-IsPooled h.identity_key e p w s)
add_tab-IsPooled a h e (idx, none) p q t w s l = record {
  agree = λ j id.
      grown-agrees a h j id e p w s (sym (ap (λ r. r.1) q)) t
      ∙ ap (λ r. index_at j id (r.0)) (sym q);
  filed = λ j id tab f. grown-filed a h j id e p tab w s f;
  known = w.known;
  bounded = ground (arith, length-register h a.now p.tab_index, ap (λ r. length (r.0)) q);
}

open_tab-IsPooled :
    (a : Answers) (req : AcquireTabRequest) (r : ChromeEntry × Option String) (p : Pool)
    → IsPooled p
    → Stands req.identity_key p (r.0)
    → length p.tab_index < p.config.max_tabs
    → IsPooled (open_tab a req req.identity_key r p).0
unfolding open_tab
open_tab-IsPooled a req (e, none) p w s l = put-IsPooled req.identity_key e p w s
open_tab-IsPooled a req (e, some id) p w s l =
    add_tab-IsPooled a (new_handle a req id) e
      (register (some (new_handle a req id)) a.now p.tab_index) p refl (ground arith) w s l

in_entry-IsPooled :
    (a : Answers) (req : AcquireTabRequest) (r : Ensured) (p : Pool)
    → ((e : ChromeEntry) → r ≡ ensured e → Stands req.identity_key p e)
    → IsPooled p
    → length p.tab_index < p.config.max_tabs
    → IsPooled (in_entry a req req.identity_key r p).0
in_entry-IsPooled a req (not_ensured err) p s w l = w
in_entry-IsPooled a req (ensured e) p s w l =
    open_tab-IsPooled a req (create_tab a e) p w
      (create_tab-Stands a req.identity_key p e (s e refl)) l

acquire_for-IsPooled :
    (a : Answers) (req : AcquireTabRequest) (d : IdentityDescriptor) (p : Pool)
    → d.key ≡ req.identity_key
    → IsPooled p
    → length p.tab_index < p.config.max_tabs
    → IsPooled (acquire_for a req d p).0
unfolding acquire_for
acquire_for-IsPooled a req d p k w l =
    let c = runtime_contract_from_acquire_tab req d in
    let r = get_or_create_entry a d req.mode c p in
    subst (λ i. IsPooled (in_entry a req i r p).0) (sym k)
      (in_entry-IsPooled a req r p
        (λ e h. subst (λ i. Stands i p e) k (get_or_create_entry-Stands a d req.mode c p e h)) w l)

-- The eviction makes room for one tab.
pub evict_oldest-IsPooled :
    (p q : Pool)
    → IsPooled p
    → evict_oldest p ≡ some q
    → IsPooled q × (q.config ≡ p.config) × (length q.tab_index < length p.tab_index)
unfolding close_tab_entry
evict_oldest-IsPooled p q w h =
    let (k, te, (c, _), e, _) = subst (Evicts p) h (evict_oldest-Evicts p w) in
    subst (λ q. IsPooled q × (q.config ≡ p.config) × (length q.tab_index < length p.tab_index))
      (sym e) (close_tab_entry-IsPooled k te p w c, refl, closed_shorter k te p w c)

acquire_in_place-IsPooled :
    (a : Answers) (req : AcquireTabRequest) (d : IdentityDescriptor) (p : Pool) (o : Option Pool)
    → o ≡ evict_oldest p
    → d.key ≡ req.identity_key
    → IsPooled p
    → IsPooled (acquire_in_place a req d p o).0
unfolding acquire_in_place
acquire_in_place-IsPooled a req d p none e k w = w
acquire_in_place-IsPooled a req d p (some q) e k w =
    let (v, c, l) = evict_oldest-IsPooled p q w (sym e) in
    acquire_for-IsPooled a req d q k v (ground (arith, l, w.bounded, ap (λ c. c.max_tabs) c))

acquire_within-IsPooled :
    (a : Answers) (req : AcquireTabRequest) (d : IdentityDescriptor) (p : Pool)
    → d.key ≡ req.identity_key
    → IsPooled p
    → IsPooled (acquire_within a req d p).0
unfolding acquire_within len
acquire_within-IsPooled a req d p k w =
    if_cases_dep (λ (r : Pool × Acquired). IsPooled (r.0))
      (leb p.config.max_tabs (length p.tab_index)) _ _
      (λ _. acquire_in_place-IsPooled a req d p (evict_oldest p) refl k w)
      (λ l. acquire_for-IsPooled a req d p k w (ground arith))

acquire_known-IsPooled :
    (a : Answers) (req : AcquireTabRequest) (p : Pool) (o : Option IdentityDescriptor)
    → o ≡ lookup req.identity_key p.registry
    → IsPooled p
    → IsPooled (acquire_known a req p o).0
unfolding acquire_known
acquire_known-IsPooled a req p none e w = w
acquire_known-IsPooled a req p (some d) e w =
    if_cases (λ (r : Pool × Acquired). IsPooled (r.0)) _ _ _ w
      (acquire_within-IsPooled a req d p (w.known req.identity_key d (sym e)) w)

abbrev LeavesPooled : Pool × Acquired → Type 0
LeavesPooled r = IsPooled (r.0)

pub acquire_tab-IsPooled :
    (a : Answers) (req : AcquireTabRequest) (p : Pool)
    → IsPooled p
    → IsPooled (acquire_tab a req p).0
unfolding acquire_tab
acquire_tab-IsPooled a req p w =
    if_cases_dep LeavesPooled (not (is_valid_role req.role)) _ _ (λ _. w)
      (λ _.
        if_cases_dep LeavesPooled (req.identity_key == "") _ _ (λ _. w)
          (λ _.
            if_cases_dep LeavesPooled p.closed _ _ (λ _. w)
              (λ _. acquire_known-IsPooled a req p (lookup req.identity_key p.registry) refl w)))

-- ===== src/Pool/Views.antt =====
-- What callers see of the pool of browser/pool.go.
use deepwork_browser.Prelude.{
  ℕ, String, Bool, false, List, [], none, some, map, Map, lookup, Text, ◌≡◌, arith, lookup-delete,
  eq_refl, Option-cases, inl, inr,
}
use deepwork_browser.Tabs.Index.{IdentityPoolStatus, snapshot, len}
use deepwork_browser.Session.Profiles.{normalize_profile_id}
use deepwork_browser.Pool.State.{ChromeEntry, Pool}
use deepwork_browser.Pool.Close.{reset_entry, remove_entry}

-- A row of the index with the mode of its Chrome, and whether this was started.
pub record StatusRow : Type 0 where
  pub tabs : IdentityPoolStatus
  pub mode : Text
  pub has_process : Bool

abbrev row_of : Map ChromeEntry → IdentityPoolStatus → StatusRow
row_of entries s = elim (lookup s.key entries) [
  | none ↦ record { tabs = s; mode = []; has_process = false }
  | some e ↦ record { tabs = s; mode = e.mode; has_process = e.started }
]

pub record PoolSnapshot : Type 0 where
  pub identities : List StatusRow
  pub total_tabs : ℕ

unfoldable pub inspect : Pool → PoolSnapshot
unfolding snapshot lookup len
inspect p = record {
  identities = map (row_of p.entries) (snapshot p.tab_index);
  total_tabs = len p.tab_index;
}

unfoldable pub is_started : Pool → Bool
unfolding lookup
is_started p = elim (lookup p.default_identity_key p.entries) [ none ↦ false | some e ↦ e.started ]

unfoldable pub get_profile_id : Pool → Text
unfolding normalize_profile_id
get_profile_id p = normalize_profile_id p.config.profile_id

unfoldable pub reset_default_identity : Pool → Pool × Bool
unfolding reset_entry
reset_default_identity p = reset_entry p.default_identity_key p

lookup-is_started :
    (q : Pool) → lookup q.default_identity_key q.entries ≡ none → is_started q ≡ false
unfolding is_started
lookup-is_started q h = ground (arith, h)

lookup-remove_entry :
    (k : String) (c : ChromeEntry) (p : Pool) → lookup k (remove_entry k c p).entries ≡ none
unfolding remove_entry
lookup-remove_entry k c p = ground (arith, lookup-delete k k p.entries, eq_refl k)

-- The reset of the default identity leaves it without a Chrome.
pub is_started-reset_default_identity : (p : Pool) → is_started (reset_default_identity p).0 ≡ false
unfolding reset_default_identity reset_entry remove_entry
is_started-reset_default_identity p =
    elim (Option-cases (lookup p.default_identity_key p.entries)) [
      | inl e ↦ rw (reset_entry, e) (lookup-is_started p e)
      | inr (c, e) ↦
          rw (reset_entry, e)
            (lookup-is_started (remove_entry p.default_identity_key c p)
              (lookup-remove_entry p.default_identity_key c p))
    ]

-- ===== src/Tabs/Index.antt =====
-- `memoryTabIndex` of browser/tab_index.go.
use deepwork_browser.Prelude.{
  ℕ, String, Bool, ◌||◌, not, List, [], ◌∷◌, Option, none, some, if◌then◌else◌, is_some, nat_eq,
  ◌==◌, Map, lookup, insert, delete, values, keep, length,
}
use deepwork_browser.Tabs.Order.{sort_by}

pub record TabHandle : Type 0 where
  pub target_id : String
  pub identity_key : String
  pub workspace_id : String
  pub role : String
  pub session_id : String
  pub acquired_at : ℕ

pub data IndexError : Type 0 where
  nil_handle empty_target_id empty_identity_key invalid_role : IndexError
  tab_already_registered tab_not_found : IndexError

-- The roles are the keys of `validRoles`.
unfoldable pub is_valid_role : String → Bool
is_valid_role r = r == "human" || r == "agent" || r == "council" || r == "background"

abbrev pub TabIndex : Type 0
TabIndex = Map TabHandle

abbrev pub new_tab_index : TabIndex
new_tab_index = []

-- The time that stands in the index: 0 is the zero `time.Time`.
abbrev pub stamped : ℕ → TabHandle → TabHandle
stamped now t = if nat_eq t.acquired_at 0 then record t { acquired_at = now } else t

unfoldable pub register : Option TabHandle → ℕ → TabIndex → TabIndex × Option IndexError
unfolding is_valid_role lookup insert
register none now idx = (idx, some nil_handle)
register (some t) now idx =
    if t.target_id == ""
    then (idx, some empty_target_id)
    else if t.identity_key == ""
    then (idx, some empty_identity_key)
    else if not (is_valid_role t.role)
    then (idx, some invalid_role)
    else if is_some (lookup t.target_id idx)
    then (idx, some tab_already_registered)
    else (insert t.target_id (stamped now t) idx, none)

-- `Lookup` is that of the map.

unfoldable pub unregister : String → TabIndex → TabIndex × Option IndexError
unfolding lookup delete
unregister target_id idx =
    if is_some (lookup target_id idx)
    then (delete target_id idx, none)
    else (idx, some tab_not_found)

unfoldable pub by_identity : String → TabIndex → List TabHandle
unfolding values sort_by
by_identity key idx = sort_by (λ t. t.target_id) (keep (λ t. t.identity_key == key) (values idx))

unfoldable pub by_workspace : String → TabIndex → List TabHandle
unfolding values sort_by
by_workspace ws idx = sort_by (λ t. t.target_id) (keep (λ t. t.workspace_id == ws) (values idx))

-- `IdentityPoolStatus` without the process and its mode, which the pool fills in.
pub record IdentityPoolStatus : Type 0 where
  pub key : String
  pub tab_count : ℕ
  pub tabs : List TabHandle

unfoldable pub grouped : List TabHandle → Map (List TabHandle)
unfolding lookup insert
grouped [] = []
grouped (t ∷ ts) =
    let rest = grouped ts in
    insert t.identity_key
      (t ∷ (elim (lookup t.identity_key rest) [ none ↦ [] | some others ↦ others ])) rest

abbrev statuses : Map (List TabHandle) → List IdentityPoolStatus
statuses [] = []
statuses ((key, tabs) ∷ rest) =
    record { key = key; tab_count = length tabs; tabs = sort_by (λ t. t.target_id) tabs }
    ∷ statuses rest

unfoldable pub snapshot : TabIndex → List IdentityPoolStatus
unfolding grouped values sort_by
snapshot idx = sort_by (λ s. s.key) (statuses (grouped (values idx)))

unfoldable pub len : TabIndex → ℕ
len idx = length idx

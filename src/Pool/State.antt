-- ===== src/Pool/State.antt =====
-- The state of the pool, and how a tab is looked up: browser/pool.go, browser/identity_registry.go.
use deepwork_browser.Prelude.{
  ℕ, String, Bool, false, List, [], ◌∷◌, ◌++◌, map, Option, none, some, if◌then◌else◌, is_some,
  nat_eq, ◌==◌, Map, lookup, insert, values, Text, trim_space, is_empty,
}
use deepwork_browser.Tabs.Index.{TabHandle, TabIndex}
use deepwork_browser.Tabs.Order.{sort_by}
use deepwork_browser.Session.Kinds.{normalize_browser_mode, headed}
use deepwork_browser.Session.Profiles.{normalize_profile_id}

-- Of the preset, the tag; the rest of it and the policy only go into the key, which is an argument.
pub record IdentityDescriptor : Type 0 where
  pub key : String
  pub profile : Text
  pub preset_tag : Text

pub record RuntimeContract : Type 0 where
  pub browser_session_id : Text
  pub session_kind : Text
  pub goal : Text
  pub owner : Text
  pub isolation : Text
  pub service_name : Text
  pub account_id : Text

-- A core is known by its number: two tabs have the same one exactly if they share it.
pub record TabEntry : Type 0 where
  pub target_id : String
  pub core : ℕ
  pub handle : TabHandle
  pub last_active : ℕ

pub record ChromeEntry : Type 0 where
  pub identity : IdentityDescriptor
  pub preset_id : Text
  pub profile_id : Text
  pub mode : Text
  pub started : Bool
  pub tabs : Map TabEntry
  pub root_target_id : String
  pub root_claimed : Bool
  pub runtime_contract : RuntimeContract

pub record PoolConfig : Type 0 where
  pub max_tabs : ℕ
  pub idle_timeout : ℕ
  pub preset_id : Text
  pub profile_id : Text
  pub mode : Text

pub record Pool : Type 0 where
  pub config : PoolConfig
  pub entries : Map ChromeEntry
  pub tab_index : TabIndex
  pub registry : Map IdentityDescriptor
  pub default_identity_key : String
  pub closed : Bool

-- `Resolve` of the registry, for a descriptor with the key that `NewIdentityKey` gives it.
unfoldable pub resolve : IdentityDescriptor → Map IdentityDescriptor → Map IdentityDescriptor
unfolding lookup insert
resolve d store = if is_some (lookup d.key store) then store else insert d.key d store

unfoldable pub list_identities : Map IdentityDescriptor → List IdentityDescriptor
unfolding sort_by values
list_identities store = sort_by (λ d. d.key) (values store)

unfoldable pub normalize_preset_id : Text → Text → Text
unfolding trim_space
normalize_preset_id default id = let t = trim_space id in if is_empty t then default else t

-- A number that is not positive is 0 here.
abbrev or_positive : ℕ → ℕ → ℕ
or_positive default n = if nat_eq n 0 then default else n

abbrev pub idle_ms : ℕ
idle_ms = 300000

-- The normalisation of the configuration.
unfoldable pub configured : Text → PoolConfig → PoolConfig
unfolding normalize_preset_id normalize_profile_id normalize_browser_mode
configured preset c = record {
  max_tabs = or_positive 10 c.max_tabs;
  idle_timeout = or_positive idle_ms c.idle_timeout;
  preset_id = normalize_preset_id preset c.preset_id;
  profile_id = normalize_profile_id c.profile_id;
  mode = normalize_browser_mode c.mode headed;
}

-- The key of a profile under the pool's preset: what `NewIdentityKey` makes of them.
abbrev pub KeyOf : Type 0
KeyOf = Text → Text → String

-- `defaultPresetForConfig` and the call of `Resolve` with it.
unfoldable pub default_descriptor : KeyOf → PoolConfig → IdentityDescriptor
default_descriptor key_of c = record {
  key = key_of c.profile_id c.preset_id;
  profile = c.profile_id;
  preset_tag = c.preset_id;
}

unfoldable pub new_browser_pool : KeyOf → Text → PoolConfig → Pool
unfolding configured default_descriptor resolve
new_browser_pool key_of preset c =
    let config = configured preset c in
    let d = default_descriptor key_of config in
    record {
      config = config;
      entries = [];
      tab_index = [];
      registry = resolve d [];
      default_identity_key = d.key;
      closed = false;
    }

unfoldable pub resolve_profile_identity : KeyOf → Text → Pool → Pool × String
unfolding normalize_profile_id default_descriptor resolve
resolve_profile_identity key_of profile p =
    let config : PoolConfig = record p.config { profile_id = normalize_profile_id profile } in
    let d = default_descriptor key_of config in
    (record p { registry = resolve d p.registry }, d.key)

-- A Go map of pointers: the entry under the key, changed in place.
unfoldable pub update {ℓ} : {V : Type ℓ} → String → (V → V) → Map V → Map V
update k f [] = []
update k f ((j, v) ∷ m) =
    let rest = update k f m in if j == k then (j, f v) ∷ rest else (j, v) ∷ rest

unfoldable pub tab_at : String → String → Map ChromeEntry → Option TabEntry
unfolding lookup
tab_at k id entries = elim (lookup k entries) [ none ↦ none | some e ↦ lookup id e.tabs ]

-- The tabs of every Chrome, in the order in which loops visit them.
unfoldable pub tab_keys : Map ChromeEntry → List (String × String)
tab_keys [] = []
tab_keys ((k, e) ∷ m) = map (λ x. (k, x.0)) e.tabs ++ tab_keys m

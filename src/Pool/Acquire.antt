-- ===== src/Pool/Acquire.antt =====
-- How the pool hands out a tab: browser/pool.go. What Chrome answers is an argument.
use deepwork_browser.Prelude.{
  ℕ, String, Bool, true, false, not, ◌&&◌, [], Option, none, some, if◌then◌else◌, leb, ◌==◌, lookup,
  insert, Text, text_eq, codes, trim_space, is_empty, has_prefix,
}
use deepwork_browser.Tabs.Index.{TabHandle, TabIndex, IndexError, is_valid_role, register, len}
use deepwork_browser.Session.Kinds.{
  normalize_browser_session_kind, normalize_browser_mode, defaults_for_browser_session_kind,
  interactive,
}
use deepwork_browser.Session.Ids.{
  browser_session_id_from_session_id, browser_session_id_from_pool_identity,
}
use deepwork_browser.Session.Profiles.{normalize_profile_id}
use deepwork_browser.Pool.State.{
  IdentityDescriptor, RuntimeContract, TabEntry, ChromeEntry, Pool, normalize_preset_id,
}
use deepwork_browser.Pool.Close.{evict_oldest}

pub record AcquireTabRequest : Type 0 where
  pub identity_key : String
  pub workspace_id : String
  pub role : String
  pub mode : Text
  pub browser_session_id : Text
  pub session_kind : Text
  pub goal : Text
  pub owner : Text
  pub isolation : Text
  pub service_name : Text
  pub account_id : Text

-- `started` has the target that Chrome opens with, empty if there is none; `warmed_up` is the target
-- of a new tab, empty if chromedp does not tell it, and `local_id` the name made for it then.
pub record Answers : Type 0 where
  pub has_preset : Text → Bool
  pub default_preset : Text
  pub started : Text → Option String
  pub warmed_up : Option String
  pub local_id : String
  pub core : ℕ
  pub now : ℕ

pub data AcquireError : Type 0 where
  pool_closed invalid_role identity_unresolved invalid_role_identity max_tabs_reached : AcquireError
  mode_mismatch contract_mismatch unknown_preset chrome_failed tab_failed : AcquireError
  register_failed : IndexError → AcquireError

pub data Acquired : Type 0 where
  acquired : TabHandle → Acquired
  refused : AcquireError → Acquired

abbrev given_or : Text → Text → Text
given_or given default = let t = trim_space given in if is_empty t then default else t

unfoldable pub runtime_contract_from_acquire_tab :
    AcquireTabRequest → IdentityDescriptor → RuntimeContract
unfolding normalize_browser_session_kind defaults_for_browser_session_kind
    browser_session_id_from_session_id browser_session_id_from_pool_identity trim_space
runtime_contract_from_acquire_tab req desc =
    let kind = normalize_browser_session_kind req.session_kind interactive in
    let defaults = defaults_for_browser_session_kind kind in
    record {
      browser_session_id =
          browser_session_id_from_session_id
            (given_or req.browser_session_id (browser_session_id_from_pool_identity desc.key));
      session_kind = kind;
      goal = trim_space req.goal;
      owner = given_or req.owner defaults.owner;
      isolation = given_or req.isolation defaults.isolation;
      service_name = trim_space req.service_name;
      account_id = trim_space req.account_id;
    }

-- Whether the contracts agree: all fields but the goal.
unfoldable pub validate_runtime_contract : RuntimeContract → RuntimeContract → Bool
validate_runtime_contract a b =
    text_eq a.browser_session_id b.browser_session_id
    && text_eq a.session_kind b.session_kind
    && text_eq a.owner b.owner
    && text_eq a.isolation b.isolation
    && text_eq a.service_name b.service_name
    && text_eq a.account_id b.account_id

-- An entry that is to be used, or why there is none.
pub data Ensured : Type 0 where
  ensured : ChromeEntry → Ensured
  not_ensured : AcquireError → Ensured

-- The reuse of the Chrome of an identity.
unfoldable pub reuse_entry : Text → RuntimeContract → ChromeEntry → Ensured
unfolding validate_runtime_contract
reuse_entry mode contract e =
    if not (is_empty mode) && (not (is_empty e.mode) && not (text_eq e.mode mode))
    then not_ensured mode_mismatch
    else if not (validate_runtime_contract e.runtime_contract contract)
    then not_ensured contract_mismatch
    else ensured e

abbrev preset_of : Answers → IdentityDescriptor → Pool → Text
preset_of a desc p =
    normalize_preset_id a.default_preset
      (if is_empty desc.preset_tag then p.config.preset_id else desc.preset_tag)

-- A new entry, started.
unfoldable pub start_entry : Answers → IdentityDescriptor → Text → RuntimeContract → Pool → Ensured
unfolding normalize_preset_id normalize_browser_mode normalize_profile_id
start_entry a desc requested contract p =
    let preset = preset_of a desc p in
    let mode = normalize_browser_mode requested p.config.mode in
    if not (a.has_preset preset) then not_ensured unknown_preset else elim (a.started mode) [
      | none ↦ not_ensured chrome_failed
      | some root ↦ ensured record {
        identity = desc;
        preset_id = preset;
        profile_id = normalize_profile_id desc.profile;
        mode = mode;
        started = true;
        tabs = [];
        root_target_id = root;
        root_claimed = false;
        runtime_contract = contract;
      }
    ]

unfoldable pub get_or_create_entry :
    Answers → IdentityDescriptor → Text → RuntimeContract → Pool → Ensured
unfolding lookup reuse_entry start_entry
get_or_create_entry a desc mode contract p = elim (lookup desc.key p.entries) [
  | some e ↦ reuse_entry mode contract e
  | none ↦ start_entry a desc mode contract p
]

-- The entry with its root target claimed or not, and the target of the new tab. An entry of the pool
-- has its context of the browser from its start until it is removed, so the guard on that is left out.
unfoldable pub create_tab : Answers → ChromeEntry → ChromeEntry × Option String
create_tab a e =
    let materialized = λ (id : String). if a.has_preset e.preset_id then some id else none in
    let claimed : ChromeEntry = record e { root_claimed = true } in
    if not e.root_claimed && not (e.root_target_id == "")
    then (claimed, materialized e.root_target_id)
    else (
      e,
      elim a.warmed_up [
        | none ↦ none
        | some id ↦ materialized (if id == "" then a.local_id else id)
      ],
    )

abbrev pub new_handle : Answers → AcquireTabRequest → String → TabHandle
new_handle a req id = record {
  target_id = id;
  identity_key = req.identity_key;
  workspace_id = req.workspace_id;
  role = req.role;
  session_id = "";
  acquired_at = a.now;
}

abbrev pub new_tab : Answers → TabHandle → TabEntry
new_tab a h = record { target_id = h.target_id; core = a.core; handle = h; last_active = a.now }

-- A registered handle gets its tab in the entry.
unfoldable pub add_tab :
    Answers
    → TabHandle
    → ChromeEntry
    → TabIndex × Option IndexError
    → String
    → Pool
    → Pool × Acquired
unfolding insert
add_tab a h e (idx, some err) k p =
    (record p { entries = insert k e p.entries; tab_index = idx }, refused (register_failed err))
add_tab a h e (idx, none) k p =
    let grown : ChromeEntry = record e { tabs = insert h.target_id (new_tab a h) e.tabs } in
    (record p { entries = insert k grown p.entries; tab_index = idx }, acquired h)

unfoldable pub open_tab :
    Answers → AcquireTabRequest → String → ChromeEntry × Option String → Pool → Pool × Acquired
unfolding register add_tab insert
open_tab a req k (e, none) p = (record p { entries = insert k e p.entries }, refused tab_failed)
open_tab a req k (e, some id) p =
    let h = new_handle a req id in add_tab a h e (register (some h) a.now p.tab_index) k p

abbrev pub in_entry : Answers → AcquireTabRequest → String → Ensured → Pool → Pool × Acquired
in_entry a req k (not_ensured err) p = (p, refused err)
in_entry a req k (ensured e) p = open_tab a req k (create_tab a e) p

-- From `getOrCreateEntryLocked` on.
unfoldable pub acquire_for :
    Answers → AcquireTabRequest → IdentityDescriptor → Pool → Pool × Acquired
unfolding get_or_create_entry runtime_contract_from_acquire_tab create_tab open_tab
acquire_for a req desc p =
    in_entry a req desc.key
      (get_or_create_entry a desc req.mode (runtime_contract_from_acquire_tab req desc) p) p

-- The acquisition in a pool that was full, with what the eviction left.
unfoldable pub acquire_in_place :
    Answers → AcquireTabRequest → IdentityDescriptor → Pool → Option Pool → Pool × Acquired
unfolding acquire_for
acquire_in_place a req desc p none = (p, refused max_tabs_reached)
acquire_in_place a req desc p (some q) = acquire_for a req desc q

-- From the limit of tabs on.
unfoldable pub acquire_within :
    Answers → AcquireTabRequest → IdentityDescriptor → Pool → Pool × Acquired
unfolding acquire_for acquire_in_place evict_oldest len
acquire_within a req desc p =
    if leb p.config.max_tabs (len p.tab_index)
    then acquire_in_place a req desc p (evict_oldest p)
    else acquire_for a req desc p

-- The acquisition for what the registry has under the key.
unfoldable pub acquire_known :
    Answers → AcquireTabRequest → Pool → Option IdentityDescriptor → Pool × Acquired
unfolding acquire_within has_prefix
acquire_known a req p none = (p, refused identity_unresolved)
acquire_known a req p (some desc) =
    if req.role == "council" && not (has_prefix desc.profile (codes "council-"))
    then (p, refused invalid_role_identity)
    else acquire_within a req desc p

unfoldable pub acquire_tab : Answers → AcquireTabRequest → Pool → Pool × Acquired
unfolding acquire_known is_valid_role lookup
acquire_tab a req p =
    if not (is_valid_role req.role)
    then (p, refused invalid_role)
    else if req.identity_key == ""
    then (p, refused identity_unresolved)
    else if p.closed
    then (p, refused pool_closed)
    else acquire_known a req p (lookup req.identity_key p.registry)

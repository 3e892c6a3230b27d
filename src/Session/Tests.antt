-- ===== src/Session/Tests.antt =====
-- The ids of a session at concrete texts.
use deepwork_browser.Prelude.{inl, has_prefix, trim_space, true, false, [], ◌∷◌, some, none, ◌↔◌}
use deepwork_browser.Session.Info.{
  bind_error, SessionInfo, Snapshot, unavailable, takeover_active, bind_session_observation,
  validate_session_observation, session_allows_ai_input, is_authority,
}
use deepwork_browser.Session.Observation.{Place, moved_to, validate-bind_session_observation}
use deepwork_browser.Session.Authority.{
  TakesFocus, SessionOp, run, held, given_back, HasNoFocus, run-HasNoFocus,
  set_session_authority-set_session_authority,
}
use deepwork_browser.Prelude.{true, ◌≡◌, refl, codes}
use deepwork_browser.Session.Kinds.{normalize_browser_mode, defaults_for_browser_session_kind}
use deepwork_browser.Session.Ids.{
  sanitize_browser_runtime_id, browser_session_id_from_pool_identity,
  browser_runtime_id_from_browser_session_id,
}
use deepwork_browser.Session.Profiles.{normalize_profile_id}
use deepwork_browser.Session.Slugs.{is_slug, normalize_profile_id-normalize_profile_id}

profile-shop : normalize_profile_id (codes " My_Shop  (2)/..") ≡ codes "my-shop-2"
unfolding normalize_profile_id
profile-shop = refl

id-path : sanitize_browser_runtime_id (codes "../a b//c.") ≡ codes "a-b-c"
unfolding sanitize_browser_runtime_id
id-path = refl

mode-human : normalize_browser_mode (codes " Human ") (codes "headless") ≡ codes "visible"
unfolding normalize_browser_mode
mode-human = refl

kind-unknown : (defaults_for_browser_session_kind (codes "portal")).kind ≡ codes "task"
unfolding defaults_for_browser_session_kind
kind-unknown = refl

pool_id-key : browser_session_id_from_pool_identity "a b" ≡ codes "browser-session-pool-a-b"
unfolding browser_session_id_from_pool_identity
pool_id-key = refl

runtime_id-empty :
    browser_runtime_id_from_browser_session_id (codes " ")
    ≡ codes "browser-runtime-browser-session-unknown"
unfolding browser_runtime_id_from_browser_session_id
runtime_id-empty = refl

normalize_profile_id-normalize_profile_id_example :
    (is_slug (normalize_profile_id (codes " My Shop/..")) ≡ true)
    × (normalize_profile_id (normalize_profile_id (codes " My Shop/.."))
        ≡ normalize_profile_id (codes " My Shop/.."))
normalize_profile_id-normalize_profile_id_example =
    normalize_profile_id-normalize_profile_id (codes " My Shop/..")

abbrev session : SessionInfo
session = record {
  session_kind = codes "task";
  owner = codes "agent";
  authority_state = codes "agentic";
  authority_previous_owner = [];
  browser_run_id = codes "run";
  target_id = codes "t";
  page_url = codes "https://a/";
  viewport_w = 800;
  viewport_h = 600;
  snap_epoch = 1;
  refs = [];
  observation_id = [];
  observation_path = [];
  observation_run_id = [];
  observation_target_id = [];
  observation_document_id = 0;
  observation_page_url = [];
  observation_valid = false;
  observation_scroll_x = 0;
  observation_scroll_y = 0;
  observation_dpr = 1;
  observation_viewport_w = 0;
  observation_viewport_h = 0;
  last_action_outcome = [];
  human_focus_backend_node_id = 7;
  human_focus_page_url = codes "https://a/";
  human_focus_epoch = 1;
  intervention_count = 0;
  last_intervention_operation_id = [];
  last_intervention_kind = [];
  last_intervention_at = [];
}

abbrev capture : Snapshot
capture = record {
  observation_id = codes "x";
  runtime_run_id = codes "run";
  target_id = codes "t";
  document_id = 3;
  url = codes "https://a/";
  scroll_x = 0;
  scroll_y = 0;
  device_pixel_ratio = 1;
  refs = record { ref = codes "@ox-r1"; backend_node_id = 7; human_focus_verified = true } ∷ [];
}

abbrev elsewhere : Place
elsewhere = record {
  url = codes "https://b/";
  target = codes "t";
  run = codes "run";
  width = 800;
  height = 600;
}

validate-bind_session_observation_example :
    (validate_session_observation
        (moved_to elsewhere (bind_session_observation session capture (codes "x") []).0)
      ≡ none)
    ↔ ((capture.url ≡ elsewhere.url)
        × (session.target_id ≡ elsewhere.target)
        × (session.browser_run_id ≡ elsewhere.run)
        × (session.viewport_w ≡ elsewhere.width)
        × (session.viewport_h ≡ elsewhere.height))
unfolding bind_session_observation
validate-bind_session_observation_example =
    validate-bind_session_observation session capture (codes "x") [] elsewhere refl

set_session_authority-set_session_authority_example :
    (session_allows_ai_input (held session) ≡ some takeover_active)
    × (session_allows_ai_input (given_back (codes "shared") session) ≡ none)
    × ((given_back (codes "shared") session).owner ≡ session.owner)
    × (validate_session_observation (held session) ≡ some unavailable)
    × (validate_session_observation (given_back (codes "shared") session) ≡ some unavailable)
unfolding is_authority
set_session_authority-set_session_authority_example =
    set_session_authority-set_session_authority session (codes "shared") refl refl refl refl

-- A proof of a focus on an element of document 4, which the next capture, of document 5, does not keep.
abbrev focused : SessionInfo
focused = record session { human_focus_backend_node_id = 7; observation_document_id = 4 }

abbrev reloaded : Snapshot
reloaded = record capture { document_id = 5; refs = [] }

run-HasNoFocus_example : HasNoFocus (
    run
      (SessionOp.binds reloaded reloaded.observation_id []
        ∷ SessionOp.sets (codes "shared")
        ∷ SessionOp.invalidates
        ∷ [])
      focused)
unfolding is_authority TakesFocus bind_error trim_space has_prefix
run-HasNoFocus_example =
    run-HasNoFocus (SessionOp.binds reloaded reloaded.observation_id [])
      (SessionOp.sets (codes "shared") ∷ SessionOp.invalidates ∷ []) focused (refl, inl refl)

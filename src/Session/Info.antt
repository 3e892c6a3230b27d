-- ===== src/Session/Info.antt =====
-- What a session keeps of its page and of who may act on it: `SessionInfo` of
-- browser/session_manager.go, with the operations of browser/session_observation.go on it.
-- Numbers that the code only tests for being positive are natural: one that is not positive is 0.
use deepwork_browser.Prelude.{
  ℕ, suc, Bool, true, false, not, ◌&&◌, ◌||◌, List, [], ◌++◌, Option, none, some, if◌then◌else◌,
  nat_eq, all, any, Text, codes, text_eq, trim_space, has_prefix, is_empty,
}
use deepwork_browser.Session.Kinds.{defaults_for_browser_session_kind}

pub record SessionRef : Type 0 where
  pub ref : Text
  pub backend_node_id : ℕ
  pub human_focus_verified : Bool

pub record SessionInfo : Type 0 where
  pub session_kind : Text
  pub owner : Text
  pub authority_state : Text
  pub authority_previous_owner : Text
  pub browser_run_id : Text
  pub target_id : Text
  pub page_url : Text
  pub viewport_w : ℕ
  pub viewport_h : ℕ
  pub snap_epoch : ℕ
  pub refs : List SessionRef
  pub observation_id : Text
  pub observation_path : Text
  pub observation_run_id : Text
  pub observation_target_id : Text
  pub observation_document_id : ℕ
  pub observation_page_url : Text
  pub observation_valid : Bool
  pub observation_scroll_x : ℕ
  pub observation_scroll_y : ℕ
  pub observation_dpr : ℕ
  pub observation_viewport_w : ℕ
  pub observation_viewport_h : ℕ
  pub last_action_outcome : Text
  pub human_focus_backend_node_id : ℕ
  pub human_focus_page_url : Text
  pub human_focus_epoch : ℕ
  pub intervention_count : ℕ
  pub last_intervention_operation_id : Text
  pub last_intervention_kind : Text
  pub last_intervention_at : Text

pub record Snapshot : Type 0 where
  pub observation_id : Text
  pub runtime_run_id : Text
  pub target_id : Text
  pub document_id : ℕ
  pub url : Text
  pub scroll_x : ℕ
  pub scroll_y : ℕ
  pub device_pixel_ratio : ℕ
  pub refs : List SessionRef

abbrev pub human : Text
human = codes "human"

abbrev pub agentic : Text
agentic = codes "agentic"

abbrev pub shared : Text
shared = codes "shared"

unfoldable pub revoke_session_observation_geometry : SessionInfo → SessionInfo
revoke_session_observation_geometry info = record info { observation_valid = false; refs = [] }

abbrev without_focus : SessionInfo → SessionInfo
without_focus info = record info {
  human_focus_backend_node_id = 0;
  human_focus_page_url = [];
  human_focus_epoch = 0;
}

unfoldable pub invalidate_session_observation : SessionInfo → SessionInfo
unfolding revoke_session_observation_geometry
invalidate_session_observation info = without_focus (revoke_session_observation_geometry info)

pub data ObservationError : Type 0 where
  unavailable stale : ObservationError

unfoldable pub validate_session_observation : SessionInfo → Option ObservationError
validate_session_observation info =
    if is_empty info.observation_id || not info.observation_valid
    then some unavailable
    else if not (text_eq info.observation_page_url info.page_url)
        || not (text_eq info.observation_run_id info.browser_run_id)
        || not (text_eq info.observation_target_id info.target_id)
        || not (nat_eq info.observation_viewport_w info.viewport_w)
        || not (nat_eq info.observation_viewport_h info.viewport_h)
    then some stale
    else none

pub data BindError : Type 0 where
  id_missing id_reused capture_mismatch runtime_mismatch target_mismatch foreign_ref : BindError

-- Whether the proof of a focus still holds in the capture.
unfoldable pub is_focus_kept : SessionInfo → Snapshot → Bool
is_focus_kept info snap =
    not (nat_eq info.human_focus_backend_node_id 0)
    && (text_eq info.authority_state agentic || text_eq info.authority_state shared)
    && not (text_eq info.last_action_outcome (codes "unknown"))
    && not (text_eq info.last_action_outcome (codes "in_progress"))
    && not (nat_eq info.observation_document_id 0)
    && nat_eq info.observation_document_id snap.document_id
    && not (is_empty info.observation_run_id)
    && text_eq info.observation_run_id snap.runtime_run_id
    && text_eq snap.runtime_run_id info.browser_run_id
    && not (is_empty info.observation_target_id)
    && text_eq info.observation_target_id snap.target_id
    && text_eq snap.target_id info.target_id
    && any
        (λ r. nat_eq r.backend_node_id info.human_focus_backend_node_id && r.human_focus_verified)
        snap.refs

unfoldable pub revalidate_session_human_focus : SessionInfo → Snapshot → SessionInfo
unfolding is_focus_kept
revalidate_session_human_focus info snap =
    if is_focus_kept info snap
    then record info { human_focus_epoch = info.snap_epoch; human_focus_page_url = snap.url }
    else without_focus info

abbrev pub of_capture : Text → SessionRef → Bool
of_capture id r = has_prefix r.ref (codes "@o" ++ (id ++ codes "-r"))

-- What a binding refuses.
unfoldable pub bind_error : SessionInfo → Snapshot → Text → Option BindError
unfolding trim_space has_prefix
bind_error info snap id =
    if is_empty (trim_space id)
    then some id_missing
    else if text_eq info.observation_id id
    then some id_reused
    else if is_empty snap.observation_id || not (text_eq snap.observation_id id)
    then some capture_mismatch
    else if not (is_empty snap.runtime_run_id)
        && not (text_eq snap.runtime_run_id info.browser_run_id)
    then some runtime_mismatch
    else if not (is_empty snap.target_id) && not (text_eq snap.target_id info.target_id)
    then some target_mismatch
    else if not (all (of_capture id) snap.refs)
    then some foreign_ref
    else none

unfoldable pub bound_to : SessionInfo → Snapshot → Text → Text → SessionInfo
unfolding revalidate_session_human_focus
bound_to info snap id path =
    let kept = revalidate_session_human_focus info snap in
    record kept {
      observation_document_id = snap.document_id;
      observation_scroll_x = snap.scroll_x;
      observation_scroll_y = snap.scroll_y;
      observation_dpr = snap.device_pixel_ratio;
      observation_valid = true;
      observation_page_url = snap.url;
      observation_id = id;
      observation_path = path;
      observation_run_id = info.browser_run_id;
      observation_target_id = info.target_id;
      observation_viewport_w = info.viewport_w;
      observation_viewport_h = info.viewport_h;
    }

unfoldable pub bind_session_observation :
    SessionInfo → Snapshot → Text → Text → SessionInfo × Option BindError
unfolding bind_error bound_to
bind_session_observation info snap id path = elim (bind_error info snap id) [
  | some err ↦ (info, some err)
  | none ↦ (bound_to info snap id path, none)
]

pub data InputError : Type 0 where
  takeover_active unknown_authority : InputError

unfoldable pub session_allows_ai_input : SessionInfo → Option InputError
session_allows_ai_input info =
    if text_eq info.authority_state human
    then some takeover_active
    else if text_eq info.authority_state agentic || text_eq info.authority_state shared
    then none
    else some unknown_authority

unfoldable pub is_authority : Text → Bool
is_authority a = text_eq a human || text_eq a agentic || text_eq a shared

abbrev owner_or_default : SessionInfo → Text
owner_or_default info =
    if is_empty info.authority_previous_owner
    then (defaults_for_browser_session_kind info.session_kind).owner
    else info.authority_previous_owner

-- The owner under a new authority.
unfoldable pub handed_over : Text → SessionInfo → SessionInfo
unfolding defaults_for_browser_session_kind
handed_over a info =
    if text_eq a human && not (text_eq info.authority_state human)
    then record info { authority_previous_owner = info.owner; owner = human }
    else if not (text_eq a human) && text_eq info.authority_state human
    then record info { owner = owner_or_default info; authority_previous_owner = [] }
    else info

-- Whether the authority was set.
unfoldable pub set_session_authority : Text → SessionInfo → SessionInfo × Bool
unfolding is_authority handed_over invalidate_session_observation
set_session_authority a info =
    let given : SessionInfo = record (handed_over a info) { authority_state = a } in
    if is_authority a then (invalidate_session_observation given, true) else (info, false)

unfoldable pub apply_session_intervention : Text → Text → Text → SessionInfo → SessionInfo × Bool
unfolding invalidate_session_observation
apply_session_intervention operation kind now info =
    let marked : SessionInfo = record (invalidate_session_observation info) {
      intervention_count = suc info.intervention_count;
      last_intervention_operation_id = operation;
      last_intervention_kind = kind;
      last_intervention_at = now;
      last_action_outcome = codes "unknown";
    } in
    if is_empty operation || is_empty kind then (info, false) else (marked, true)

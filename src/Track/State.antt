-- ===== src/Track/State.antt =====
-- `TargetTracker` of browser/target_tracker.go and what its methods do under the mutex alone. A
-- chromedp context is named by what it drives. Log lines are left out.
use deepwork_browser.Prelude.{
  ℕ, String, Bool, true, false, not, ◌&&◌, ◌||◌, List, [], ◌∷◌, ◌++◌, Option, none, some, codes,
  if◌then◌else◌, is_some, ◌==◌, Map, lookup, insert, length, keep,
}
use deepwork_browser.Targets.Select.{is_blank_target_url}

-- The browser's own context, one bound to a target, or nil.
pub data Context : Type 0 where
  browser_context no_context : Context
  target_context : String → Context

pub record Tracked : Type 0 where
  pub id : String
  pub url : String
  pub title : String
  pub opener_id : String
  pub ctx : Context
  pub created : ℕ
  pub closable : Bool

-- `target.Info`, not nil.
pub record TargetInfo : Type 0 where
  pub target_id : String
  pub type : String
  pub url : String
  pub title : String
  pub opener_id : String

pub record GestureClaim : Type 0 where
  pub source_id : String
  pub created : ℕ

pub record WindowOpenHint : Type 0 where
  pub source_id : String
  pub url : String
  pub window_name : String
  pub created : ℕ

-- `has_browser`: the context of the tracker carries a chromedp context; `has_live`: a live view engine
-- and its hub are attached.
pub record Tracker : Type 0 where
  pub has_browser : Bool
  pub has_live : Bool
  pub primary_id : String
  pub targets : Map Tracked
  pub active_id : String
  pub order : List String
  pub pending_switch : List String
  pub gesture_claims : List GestureClaim
  pub window_hints : List WindowOpenHint
  pub follow_programmatic_nav : Bool

-- `primary` is the target of the context that the tracker starts with, if it has one.
abbrev pub new_target_tracker : ℕ → Option String → Tracker
new_target_tracker now none = record {
  has_browser = false;
  has_live = false;
  primary_id = "";
  targets = [];
  active_id = "";
  order = [];
  pending_switch = [];
  gesture_claims = [];
  window_hints = [];
  follow_programmatic_nav = false;
}
new_target_tracker now (some primary) = record {
  has_browser = true;
  has_live = false;
  primary_id = primary;
  targets =
      (
        primary,
        record {
          id = primary;
          url = "";
          title = "";
          opener_id = "";
          ctx = browser_context;
          created = now;
          closable = false;
        },
      )
      ∷ [];
  active_id = primary;
  order = primary ∷ [];
  pending_switch = [];
  gesture_claims = [];
  window_hints = [];
  follow_programmatic_nav = false;
}

abbrev pub is_blank : String → Bool
is_blank url = is_blank_target_url (codes url)

unfoldable pub target_id_in_order : String → List String → Bool
target_id_in_order id [] = false
target_id_in_order id (x ∷ xs) = x == id || target_id_in_order id xs

unfoldable pub remove_target_from_order : String → List String → List String
remove_target_from_order id [] = []
remove_target_from_order id (x ∷ xs) = if x == id then xs else x ∷ remove_target_from_order id xs

unfoldable pub add_target_order_locked : String → Bool → List String → List String
add_target_order_locked id front order =
    if id == "" || target_id_in_order id order
    then order
    else if front
    then id ∷ order
    else order ++ id ∷ []

-- The set of a Go map with true values: what is added once, and what is deleted.
abbrev pub add_pending : String → List String → List String
add_pending id pending = id ∷ keep (λ x. not (x == id)) pending

abbrev pub delete_pending : String → List String → List String
delete_pending id pending = keep (λ x. not (x == id)) pending

unfoldable pub total_tab_count_locked : Tracker → ℕ
total_tab_count_locked tk = length tk.targets

unfoldable pub current_source_target_locked : Tracker → String
current_source_target_locked tk = if tk.active_id == "" then tk.primary_id else tk.active_id

abbrev url_and_title : Option Tracked → String × String
url_and_title none = ("", "")
url_and_title (some t) = (t.url, t.title)

unfoldable pub active_navigation_locked : Tracker → String × String
unfolding current_source_target_locked lookup
active_navigation_locked tk = url_and_title (lookup (current_source_target_locked tk) tk.targets)

-- The last id of the order that is a target, or the empty id.
unfoldable pub last_live : Map Tracked → List String → String
unfolding lookup
last_live targets [] = ""
last_live targets (id ∷ ids) =
    let later = last_live targets ids in
    if later == "" then (if is_some (lookup id targets) then id else "") else later

unfoldable pub fallback_active_target_locked : Tracker → String
unfolding last_live
fallback_active_target_locked tk = last_live tk.targets tk.order

abbrev pub context_of : Option Tracked → Context
context_of none = no_context
context_of (some t) = t.ctx

-- The entry that the primary target keeps when its information comes again.
abbrev pub refreshed : Tracker → TargetInfo → Tracked → Tracked
refreshed tk info t = record t {
  url = info.url;
  title = info.title;
  opener_id = info.opener_id;
  ctx = if info.target_id == tk.primary_id then browser_context else t.ctx;
  closable = if info.target_id == tk.primary_id then false else t.closable;
}

abbrev pub new_tracked : ℕ → Tracker → TargetInfo → Tracked
new_tracked now tk info =
    let closable = not (info.target_id == tk.primary_id) in
    record {
      id = info.target_id;
      url = info.url;
      title = info.title;
      opener_id = info.opener_id;
      ctx =
          if not closable
          then browser_context
          else if tk.has_browser
          then target_context info.target_id
          else no_context;
      created = now;
      closable = closable;
    }

abbrev pub is_page : TargetInfo → Bool
is_page info = info.type == "page" && not (info.target_id == "")

-- The tracker, the target if there is one, and whether it is new.
unfoldable pub register_target_locked : ℕ → TargetInfo → Tracker → Tracker × Option Tracked × Bool
unfolding add_target_order_locked lookup insert
register_target_locked now info tk =
    if not (is_page info) then (tk, none, false) else elim (lookup info.target_id tk.targets) [
      | some t ↦ (
        record tk { targets = insert info.target_id (refreshed tk info t) tk.targets },
        some (refreshed tk info t),
        false,
      )
      | none ↦ (
        record tk {
          targets = insert info.target_id (new_tracked now tk info) tk.targets;
          active_id = if tk.active_id == "" then info.target_id else tk.active_id;
          order = add_target_order_locked info.target_id (info.target_id == tk.primary_id) tk.order;
        },
        some (new_tracked now tk info),
        true,
      )
    ]

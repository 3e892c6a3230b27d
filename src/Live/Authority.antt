-- ===== src/Live/Authority.antt =====
-- `SessionAuthority` of browser/browser_session.go: the state of a session, and its fan-out. A change
-- is two steps of the code: the state is changed and copied under the mutex, then the copy is sent.
use deepwork_browser.Prelude.{
  ℕ, ◌+◌, ◌%◌, ◌^◌, String, Bool, false, List, [], ◌∷◌, Option, none, some,
}
use deepwork_browser.Live.Hub
use deepwork_browser.Live.Hub.{Hub, new_hub, publish}

pub record TabInfo : Type 0 where
  pub id : String
  pub title : String
  pub url : String
  pub active : Bool
  pub closable : Bool

pub record Viewport : Type 0 where
  pub css_w : ℕ
  pub css_h : ℕ

-- The integers of a state are kept as 64-bit words in two's complement.
pub record SessionState : Type 0 where
  pub mode : String
  pub owner : String
  pub lease_token : String
  pub lease_expiry : ℕ
  pub viewport : Viewport
  pub cursor : String
  pub url : String
  pub title : String
  pub seq : ℕ
  pub target_count : ℕ
  pub tabs : List TabInfo
  pub recording : Bool
  pub record_elapsed_ms : ℕ

pub record Authority : Type 0 where
  pub state : SessionState
  pub subscribers : Hub SessionState
  pub counter : ℕ

abbrev pub new_session_authority : ℕ → ℕ → Authority
new_session_authority viewport_w viewport_h = record {
  state = record {
    mode = "idle";
    owner = "";
    lease_token = "";
    lease_expiry = 0;
    viewport = record { css_w = viewport_w; css_h = viewport_h };
    cursor = "";
    url = "";
    title = "";
    seq = 0;
    target_count = 0;
    tabs = [];
    recording = false;
    record_elapsed_ms = 0;
  };
  subscribers = new_hub;
  counter = 0;
}

unfoldable pub subscribe : String → Authority → Option (Authority × ℕ)
subscribe conn a = elim (Hub.subscribe conn a.subscribers) [
  | none ↦ none
  | some (h, ch) ↦ some (record a { subscribers = h }, ch)
]

unfoldable pub unsubscribe : String → ℕ → Authority → Option Authority
unsubscribe conn ch a = elim (Hub.unsubscribe conn ch a.subscribers) [
  | none ↦ none
  | some h ↦ some (record a { subscribers = h })
]

-- `a.seq.Add(1)`, stored in the state that the change has reached.
abbrev pub stamp : SessionState → Authority → Authority
stamp s a =
    let n = (a.counter + 1) % 2 ^ 64 in record a { state = record s { seq = n }; counter = n }

unfoldable pub update_mode : String → String → String → ℕ → Authority → Authority
update_mode mode owner lease_token lease_expiry a =
    stamp
      (record (a.state) {
        mode = mode;
        owner = owner;
        lease_token = lease_token;
        lease_expiry = lease_expiry;
      })
      a

unfoldable pub update_navigation : String → String → Authority → Authority
update_navigation url title a = stamp (record (a.state) { url = url; title = title }) a

unfoldable pub update_cursor : String → Authority → Authority
update_cursor cursor a = stamp (record (a.state) { cursor = cursor }) a

unfoldable pub update_viewport : ℕ → ℕ → Authority → Authority
update_viewport css_w css_h a =
    stamp (record (a.state) { viewport = record { css_w = css_w; css_h = css_h } }) a

unfoldable pub update_recording : Bool → ℕ → Authority → Authority
update_recording recording elapsed_ms a =
    stamp (record (a.state) { recording = recording; record_elapsed_ms = elapsed_ms }) a

abbrev first_tabs : List (List TabInfo) → List TabInfo → List TabInfo
first_tabs [] old = old
first_tabs (tabs ∷ more) old = tabs

unfoldable pub update_target_info :
    String → String → ℕ → List (List TabInfo) → Authority → Authority
update_target_info url title target_count tabs a =
    stamp
      (record (a.state) {
        url = url;
        title = title;
        target_count = target_count;
        tabs = first_tabs tabs a.state.tabs;
      })
      a

pub data Update : Type 0 where
  mode_update : String → String → String → ℕ → Update
  navigation_update : String → String → Update
  cursor_update : String → Update
  viewport_update : ℕ → ℕ → Update
  recording_update : Bool → ℕ → Update
  target_info_update : String → String → ℕ → List (List TabInfo) → Update

-- The section under the mutex.
unfoldable pub change : Update → Authority → Authority
unfolding update_mode update_navigation update_cursor update_viewport update_recording
    update_target_info
change (mode_update m o t e) a = update_mode m o t e a
change (navigation_update u t) a = update_navigation u t a
change (cursor_update c) a = update_cursor c a
change (viewport_update w h) a = update_viewport w h a
change (recording_update r e) a = update_recording r e a
change (target_info_update u t n tabs) a = update_target_info u t n tabs a

-- `broadcast`: the loop is that of `Publish`.
unfoldable pub broadcast : SessionState → Authority → Option Authority
broadcast s a = elim (publish s a.subscribers) [
  | none ↦ none
  | some h ↦ some (record a { subscribers = h })
]

-- A change whose broadcast no other change comes between.
unfoldable pub update : Update → Authority → Option Authority
unfolding change broadcast
update u a = let a' = change u a in broadcast a'.state a'

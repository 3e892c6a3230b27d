-- ===== src/Session/Kinds.antt =====
-- The kinds of a session and their defaults (browser/session_contract.go), and the modes of a
-- browser (browser/pool.go).
use deepwork_browser.Prelude.{
  ◌||◌, if◌then◌else◌, Text, codes, text_eq, trim_space, to_lower, is_empty,
}

abbrev pub task : Text
task = codes "task"

abbrev pub interactive : Text
interactive = codes "interactive"

abbrev pub service : Text
service = codes "service"

abbrev pub debug : Text
debug = codes "debug"

abbrev pub test : Text
test = codes "test"

abbrev pub headless : Text
headless = codes "headless"

abbrev pub headed : Text
headed = codes "headed"

abbrev pub visible : Text
visible = codes "visible"

-- What a text that is no kind, or no mode, stands for.
abbrev fallback_or : Text → Text → Text
fallback_or fallback t = if is_empty fallback then t else fallback

abbrev kind_of : Text → Text → Text
kind_of fallback k =
    if text_eq k task
    then task
    else if text_eq k interactive
    then interactive
    else if text_eq k service
    then service
    else if text_eq k debug
    then debug
    else if text_eq k test
    then test
    else fallback_or fallback task

unfoldable pub normalize_browser_session_kind : Text → Text → Text
unfolding trim_space to_lower
normalize_browser_session_kind raw fallback = kind_of fallback (to_lower (trim_space raw))

abbrev mode_of : Text → Text → Text
mode_of fallback m =
    if text_eq m headless
    then headless
    else if text_eq m headed
    then headed
    else if text_eq m visible || text_eq m (codes "human")
    then visible
    else fallback_or fallback headed

unfoldable pub normalize_browser_mode : Text → Text → Text
unfolding trim_space to_lower
normalize_browser_mode mode fallback = mode_of fallback (to_lower (trim_space mode))

pub record BrowserSessionDefaults : Type 0 where
  pub kind : Text
  pub owner : Text
  pub mode : Text
  pub isolation : Text
  pub authority_state : Text

abbrev by_kind : Text → BrowserSessionDefaults
by_kind k =
    if text_eq k interactive
    then record {
      kind = k;
      owner = codes "human";
      mode = headed;
      isolation = codes "dedicated";
      authority_state = codes "human";
    }
    else if text_eq k service
    then record {
      kind = k;
      owner = codes "service";
      mode = headed;
      isolation = codes "dedicated";
      authority_state = codes "agentic";
    }
    else if text_eq k debug
    then record {
      kind = k;
      owner = codes "human";
      mode = visible;
      isolation = codes "dedicated";
      authority_state = codes "human";
    }
    else if text_eq k test
    then record {
      kind = k;
      owner = codes "agent";
      mode = headless;
      isolation = codes "ephemeral";
      authority_state = codes "agentic";
    }
    else record {
      kind = task;
      owner = codes "agent";
      mode = headless;
      isolation = codes "ephemeral";
      authority_state = codes "agentic";
    }

unfoldable pub defaults_for_browser_session_kind : Text → BrowserSessionDefaults
unfolding normalize_browser_session_kind
defaults_for_browser_session_kind kind = by_kind (normalize_browser_session_kind kind task)

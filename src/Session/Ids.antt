-- ===== src/Session/Ids.antt =====
-- The ids of a session and of its runtime: browser/session_contract.go.
use deepwork_browser.Prelude.{
  ℕ, String, Bool, true, false, ◌||◌, ◌&&◌, [], ◌∷◌, ◌++◌, if◌then◌else◌, leb, nat_eq, Text, codes,
  trim_space, has_prefix, is_empty, trim_text,
}

unfoldable pub is_id_rune : ℕ → Bool
is_id_rune r =
    (leb b'a' r && leb r b'z')
    || (leb b'A' r && leb r b'Z')
    || (leb b'0' r && leb r b'9')
    || nat_eq r b'_'
    || nat_eq r b'-'

-- What the loop writes: `lastDash` tells whether the last rune was replaced.
unfoldable pub id_runes : Bool → Text → Text
id_runes last_dash [] = []
id_runes last_dash (r ∷ s) =
    let kept = id_runes false s in
    let replaced = id_runes true s in
    if is_id_rune r then r ∷ kept else if last_dash then replaced else b'-' ∷ replaced

abbrev pub or_unknown : Text → Text
or_unknown s = if is_empty s then codes "unknown" else s

unfoldable pub sanitize_browser_runtime_id : Text → Text
unfolding id_runes is_id_rune trim_space trim_text
sanitize_browser_runtime_id raw =
    let t = trim_space raw in
    if is_empty t then codes "unknown" else or_unknown (trim_text b'-' (id_runes false t))

abbrev pub session_prefix : Text
session_prefix = codes "browser-session-"

abbrev prefixed : Text → Text
prefixed s =
    if is_empty s then [] else if has_prefix s session_prefix then s else session_prefix ++ s

unfoldable pub browser_session_id_from_session_id : Text → Text
unfolding trim_space has_prefix
browser_session_id_from_session_id session_id = prefixed (trim_space session_id)

unfoldable pub browser_session_id_from_pool_identity : String → Text
unfolding browser_session_id_from_session_id sanitize_browser_runtime_id
browser_session_id_from_pool_identity key =
    browser_session_id_from_session_id (codes "pool-" ++ sanitize_browser_runtime_id (codes key))

unfoldable pub browser_runtime_id_from_browser_session_id : Text → Text
unfolding sanitize_browser_runtime_id trim_space
browser_runtime_id_from_browser_session_id id =
    let t = trim_space id in
    codes "browser-runtime-"
    ++ sanitize_browser_runtime_id (if is_empty t then codes "browser-session-unknown" else t)

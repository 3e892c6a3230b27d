-- ===== src/Session/Profiles.antt =====
-- `NormalizeProfileID` of browser/profile_manager.go.
use deepwork_browser.Prelude.{
  ℕ, Bool, true, false, ◌||◌, ◌&&◌, not, [], ◌∷◌, if◌then◌else◌, leb, nat_eq, Text, codes,
  trim_space, to_lower, is_empty, trim_text,
}

abbrev pub is_slug_rune : ℕ → Bool
is_slug_rune r = (leb b'a' r && leb r b'z') || (leb b'0' r && leb r b'9')

abbrev pub is_gap : ℕ → Bool
is_gap r = nat_eq r b'-' || nat_eq r b'_' || nat_eq r b' '

-- What the loop writes: whether the last rune written was a dash, and whether any was written.
unfoldable pub slug_runes : Bool → Bool → Text → Text
slug_runes last_dash written [] = []
slug_runes last_dash written (r ∷ s) =
    let letter = slug_runes false true s in
    let dash = slug_runes true true s in
    let skipped = slug_runes last_dash written s in
    if is_slug_rune r
    then r ∷ letter
    else if is_gap r
    then (if not last_dash && written then b'-' ∷ dash else skipped)
    else skipped

abbrev pub default_profile_id : Text
default_profile_id = codes "default"

abbrev pub or_default : Text → Text
or_default s = if is_empty s then default_profile_id else s

unfoldable pub normalize_profile_id : Text → Text
unfolding slug_runes trim_space to_lower trim_text
normalize_profile_id id =
    let t = trim_space (to_lower id) in
    if is_empty t
    then default_profile_id
    else or_default (trim_text b'-' (slug_runes false false t))

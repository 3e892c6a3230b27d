-- ===== src/Targets/Select.antt =====
-- `SelectAttachablePageTarget` of browser/runtime_policy.go and the tests on URLs that it uses. A
-- DevTools target is a map of JSON values, of which the code reads four strings; none stands for a
-- key that is missing or is no string. Texts are lists of code points.
use deepwork_browser.Prelude.{
  Bool, not, ◌&&◌, ◌||◌, List, [], ◌∷◌, ◌++◌, Option, none, some, if◌then◌else◌, Text, codes,
  text_eq, trim_space, cut_prefix, before, split_last, nat_eq,
}
use deepwork_browser.Policy.Defs.{equal_fold}
use mathlib.Core.List.{reverse}

pub record Target : Type 0 where
  pub web_socket_debugger_url : Option Text
  pub id : Option Text
  pub url : Option Text
  pub type : Option Text

abbrev pub chrome_initial_page_url : Text
chrome_initial_page_url = codes "about:blank"

abbrev pub text_or_empty : Option Text → Text
text_or_empty none = []
text_or_empty (some t) = t

-- What follows the last slash of a text that does not end in it.
unfoldable pub last_part : Text → Option Text
unfolding split_last
last_part s = elim (split_last b'/' s) [
  | none ↦ none
  | some (path, []) ↦ none
  | some (path, c ∷ rest) ↦ some (c ∷ rest)
]

unfoldable pub extract_dev_tools_target_id : Target → Text
unfolding last_part
extract_dev_tools_target_id t = elim (last_part (text_or_empty t.web_socket_debugger_url)) [
  | some part ↦ part
  | none ↦ text_or_empty t.id
]

unfoldable pub extract_dev_tools_target_url : Target → Text
unfolding trim_space
extract_dev_tools_target_url t = trim_space (text_or_empty t.url)

unfoldable pub is_dev_tools_page_target : Target → Bool
is_dev_tools_page_target t = text_eq (text_or_empty t.type) (codes "page")

unfoldable pub is_chrome_initial_page_url : Text → Bool
unfolding trim_space equal_fold
is_chrome_initial_page_url raw = equal_fold (trim_space raw) chrome_initial_page_url

unfoldable pub is_blank_target_url : Text → Bool
unfolding is_chrome_initial_page_url
is_blank_target_url raw = text_eq (trim_space raw) [] || is_chrome_initial_page_url raw

unfoldable pub is_user_page_target_url : Text → Bool
unfolding is_blank_target_url
is_user_page_target_url raw = not (is_blank_target_url raw)

-- The loop that takes slashes off the end, on the text read backwards; one character stays.
abbrev strip_slashes : Text → Text
strip_slashes [] = []
strip_slashes (c ∷ []) = c ∷ []
strip_slashes (c ∷ d ∷ s) = if nat_eq c b'/' then strip_slashes (d ∷ s) else c ∷ d ∷ s

unfoldable pub trim : Text → Text
unfolding trim_space
trim s = reverse (strip_slashes (reverse (trim_space s)))

unfoldable pub urls_equivalent : Text → Text → Bool
unfolding trim
urls_equivalent a b = text_eq (trim a) (trim b)

abbrev origin_after : List Text → Text → Text
origin_after [] url = []
origin_after (p ∷ ps) url = elim (cut_prefix url p) [
  | some rest ↦ p ++ before b'/' rest
  | none ↦ origin_after ps url
]

unfoldable pub url_origin : Text → Text
unfolding cut_prefix before trim_space
url_origin url =
    origin_after (codes "http://" ∷ codes "https://" ∷ codes "ws://" ∷ codes "wss://" ∷ [])
      (trim_space url)

pub data Reason : Type 0 where
  no_reason first_page fallback_target exact_url first_user_page same_origin fallback_input : Reason

pub record PageTargetSelection : Type 0 where
  pub id : Text
  pub url : Text
  pub reason : Reason

abbrev pub zero_selection : PageTargetSelection
zero_selection = record { id = []; url = []; reason = no_reason }

-- The four variables of the loop.
pub record Candidates : Type 0 where
  pub origin_match : PageTargetSelection
  pub user_page : PageTargetSelection
  pub fallback : PageTargetSelection
  pub any_page : PageTargetSelection

abbrev pub no_candidates : Candidates
no_candidates = record {
  origin_match = zero_selection;
  user_page = zero_selection;
  fallback = zero_selection;
  any_page = zero_selection;
}

abbrev pub unset : PageTargetSelection → Bool
unset s = text_eq s.id []

-- The body of the loop for a page with an id, if it does not return.
unfoldable pub consider : Text → Text → Text → Text → Candidates → Candidates
unfolding is_user_page_target_url url_origin
consider expected_url fallback_id id url c =
    let with : Reason → PageTargetSelection = λ r. record { id = id; url = url; reason = r } in
    let is_user = is_user_page_target_url url in
    let expected_origin = url_origin expected_url in
    record {
      any_page = if unset c.any_page then with first_page else c.any_page;
      fallback =
          if not (text_eq fallback_id []) && text_eq id fallback_id
          then with fallback_target
          else c.fallback;
      user_page = if is_user && unset c.user_page then with first_user_page else c.user_page;
      origin_match =
          if is_user
            && (not (text_eq expected_origin [])
                && text_eq (url_origin url) expected_origin
                && unset c.origin_match)
          then with same_origin
          else c.origin_match;
    }

-- The choice after the loop.
unfoldable pub choose : Text → Candidates → PageTargetSelection
choose fallback_id c =
    if not (unset c.origin_match)
    then c.origin_match
    else if not (unset c.user_page)
    then c.user_page
    else if not (unset c.fallback)
    then c.fallback
    else if not (text_eq fallback_id [])
    then record { id = fallback_id; url = []; reason = fallback_input }
    else c.any_page

unfoldable pub select_from : List Target → Text → Text → Candidates → PageTargetSelection
unfolding consider choose urls_equivalent extract_dev_tools_target_id extract_dev_tools_target_url
    is_dev_tools_page_target
select_from [] expected_url fallback_id c = choose fallback_id c
select_from (t ∷ ts) expected_url fallback_id c =
    let id = extract_dev_tools_target_id t in
    let url = extract_dev_tools_target_url t in
    let skipped = select_from ts expected_url fallback_id c in
    let considered =
      select_from ts expected_url fallback_id (consider expected_url fallback_id id url c) in
    if not (is_dev_tools_page_target t) || text_eq id []
    then skipped
    else if not (text_eq expected_url []) && urls_equivalent url expected_url
    then record { id = id; url = url; reason = exact_url }
    else considered

unfoldable pub select_attachable_page_target : List Target → Text → Text → PageTargetSelection
unfolding select_from
select_attachable_page_target targets expected_url fallback_id =
    select_from targets expected_url fallback_id no_candidates

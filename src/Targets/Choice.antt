-- ===== src/Targets/Choice.antt =====
-- Which target `SelectAttachablePageTarget` of browser/runtime_policy.go prefers.
use deepwork_browser.Prelude.{
  ◌∙◌, Bool, true, false, not, ◌&&◌, ◌||◌, List, [], ◌∷◌, arith, any, if◌then◌else◌, if_cases_dep,
  Text, text_eq, ◌≡◌, refl, inl, inr, Bool-cases,
}
use deepwork_browser.Targets.Select.{
  url_origin, first_user_page, same_origin, Target, Reason, exact_url, PageTargetSelection,
  Candidates, no_candidates, unset, extract_dev_tools_target_id, extract_dev_tools_target_url,
  is_dev_tools_page_target, is_user_page_target_url, urls_equivalent, consider, choose, select_from,
  select_attachable_page_target,
}

-- A page with an id.
abbrev pub is_candidate : Target → Bool
is_candidate t = is_dev_tools_page_target t && not (text_eq (extract_dev_tools_target_id t) [])

abbrev pub is_user_page : Target → Bool
is_user_page t = is_candidate t && is_user_page_target_url (extract_dev_tools_target_url t)

abbrev pub is_expected : Text → Target → Bool
is_expected expected_url t =
    is_candidate t
    && not (text_eq expected_url [])
    && urls_equivalent (extract_dev_tools_target_url t) expected_url

abbrev Exact : Text → PageTargetSelection → Type 0
Exact expected_url r = (r.reason ≡ exact_url) × (urls_equivalent r.url expected_url ≡ true)

select_from-Exact :
    (ts : List Target) (expected_url fallback_id : Text) (c : Candidates)
    → any (is_expected expected_url) ts ≡ true
    → Exact expected_url (select_from ts expected_url fallback_id c)
unfolding select_from
select_from-Exact [] x f c h = cc
select_from-Exact (t ∷ ts) x f c h =
    if_cases_dep (Exact x)
      (not (is_dev_tools_page_target t) || text_eq (extract_dev_tools_target_id t) []) _ _
      (λ skip. select_from-Exact ts x f c (ground arith))
      (λ page.
        if_cases_dep (Exact x)
          (not (text_eq x []) && urls_equivalent (extract_dev_tools_target_url t) x) _ _
          (λ found. (refl, ground arith)) (λ other. select_from-Exact ts x f _ (ground arith)))

-- If a page has the URL that is expected, up to slashes at its end, a page with this URL is chosen,
-- whatever else there is.
pub select_attachable_page_target-expected :
    (ts : List Target) (expected_url fallback_id : Text)
    → any (is_expected expected_url) ts ≡ true
    → let r = select_attachable_page_target ts expected_url fallback_id in
      (r.reason ≡ exact_url) × (urls_equivalent r.url expected_url ≡ true)
unfolding select_attachable_page_target
select_attachable_page_target-expected ts x f h = select_from-Exact ts x f no_candidates h

abbrev is_exact : Reason → Bool
is_exact exact_url = true
is_exact _ = false

-- The URL is one that a user has opened, or the expected one.
abbrev pub is_wanted : PageTargetSelection → Bool
is_wanted r = is_exact r.reason || is_user_page_target_url r.url

abbrev UserOrUnset : PageTargetSelection → Type 0
UserOrUnset r = (unset r || is_user_page_target_url r.url) ≡ true

abbrev UserOnly : Candidates → Type 0
UserOnly c = UserOrUnset c.origin_match × UserOrUnset c.user_page

and_left : (a b : Bool) → (a && b) ≡ true → a ≡ true
and_left true b h = refl
and_left false b h = cc

and_true : (a b : Bool) → a ≡ true → b ≡ true → (a && b) ≡ true
and_true a b h k = rw (h, k)

or_right : (a b : Bool) → b ≡ true → (a || b) ≡ true
or_right true b h = refl
or_right false b h = h

or_resolve : (a b : Bool) → (a || b) ≡ true → not a ≡ true → b ≡ true
or_resolve true b h k = cc
or_resolve false b h k = h

picked_user :
    (u b : Bool) (new old : PageTargetSelection)
    → is_user_page_target_url new.url ≡ u
    → UserOrUnset old
    → UserOrUnset (if u && b then new else old)
picked_user u b new old e h =
    if_cases_dep UserOrUnset (u && b) new old
      (λ t. or_right (unset new) (is_user_page_target_url new.url) (e ∙ and_left u b t)) (λ _. h)

consider-UserOnly :
    (x f id url : Text) (c : Candidates) → UserOnly c → UserOnly (consider x f id url c)
unfolding consider
consider-UserOnly x f id url c (h, k) = (
  picked_user (is_user_page_target_url url)
      (not (text_eq (url_origin x) [])
        && text_eq (url_origin url) (url_origin x)
        && unset c.origin_match)
      (record { id = id; url = url; reason = same_origin }) c.origin_match refl h,
  picked_user (is_user_page_target_url url) (unset c.user_page)
      (record { id = id; url = url; reason = first_user_page }) c.user_page refl k,
)

abbrev IsFilled : PageTargetSelection → Type 0
IsFilled r = unset r ≡ false

still_set : (u b : Bool) → (not b || u) ≡ true → (u && b) ≡ false → b ≡ false
still_set u false h k = refl
still_set true true h k = cc
still_set false true h k = cc

consider-found :
    (x f id url : Text) (c : Candidates)
    → text_eq id [] ≡ false
    → (not (unset c.user_page) || is_user_page_target_url url) ≡ true
    → IsFilled (consider x f id url c).user_page
unfolding consider
consider-found x f id url c h k =
    if_cases_dep IsFilled (is_user_page_target_url url && unset c.user_page) _ _ (λ _. h)
      (λ e. still_set (is_user_page_target_url url) (unset c.user_page) k e)

abbrev Wanted : PageTargetSelection → Type 0
Wanted r = is_wanted r ≡ true

set_before : (b : Bool) → (not b || false) ≡ true → b ≡ false
set_before true h = cc
set_before false h = refl

choose-Wanted :
    (f : Text) (c : Candidates) → UserOnly c → IsFilled c.user_page → is_wanted (choose f c) ≡ true
unfolding choose
choose-Wanted f c (h, k) l =
    if_cases_dep Wanted (not (unset c.origin_match)) _ _
      (λ e. or_right _ _ (or_resolve (unset c.origin_match) _ h e))
      (λ _.
        if_cases_dep Wanted (not (unset c.user_page)) _ _
          (λ e. or_right _ _ (or_resolve (unset c.user_page) _ k e)) (λ e. cc))

skip_user :
    (page no_id user b r : Bool)
    → (not page || no_id) ≡ true
    → (b || (((page && not no_id) && user) || r)) ≡ true
    → (b || r) ≡ true
skip_user page no_id user b r h k = ground arith

has_id : (page no_id : Bool) → (not page || no_id) ≡ false → no_id ≡ false
has_id page no_id h = ground arith

next_user :
    (page no_id user b r b' : Bool)
    → (not page || no_id) ≡ false
    → (not b || (((page && not no_id) && user) || r)) ≡ true
    → ((not b || user) ≡ true → b' ≡ false)
    → (not b' || r) ≡ true
next_user page no_id user b r b' h k f = elim (Bool-cases (not b || user)) [
  | inl e ↦ rw (f e)
  | inr e ↦ or_right (not b') r (ground arith)
]

select_from-Wanted :
    (ts : List Target) (x f : Text) (c : Candidates)
    → UserOnly c
    → (not (unset c.user_page) || any is_user_page ts) ≡ true
    → Wanted (select_from ts x f c)
unfolding select_from
select_from-Wanted [] x f c u l = choose-Wanted f c u (set_before (unset c.user_page) l)
select_from-Wanted (t ∷ ts) x f c u l =
    if_cases_dep Wanted
      (not (is_dev_tools_page_target t) || text_eq (extract_dev_tools_target_id t) []) _ _
      (λ skip. select_from-Wanted ts x f c u (
        skip_user (is_dev_tools_page_target t) (text_eq (extract_dev_tools_target_id t) []) _ _
          (any is_user_page ts) skip l))
      (λ page.
        if_cases_dep Wanted
          (not (text_eq x []) && urls_equivalent (extract_dev_tools_target_url t) x) _ _
          (λ found. refl)
          (λ other.
            select_from-Wanted ts x f _
              (consider-UserOnly x f (extract_dev_tools_target_id t)
                (extract_dev_tools_target_url t) c u)
              (next_user (is_dev_tools_page_target t) (text_eq (extract_dev_tools_target_id t) [])
                (is_user_page_target_url (extract_dev_tools_target_url t)) (unset c.user_page)
                (any is_user_page ts) _ page l
                (consider-found x f (extract_dev_tools_target_id t) (extract_dev_tools_target_url t)
                  c (has_id (is_dev_tools_page_target t) _ page)))))

-- If some page shows more than the blank page that Chrome starts with, the choice shows more too, or
-- has the expected URL.
pub is_wanted-select_attachable_page_target :
    (ts : List Target) (expected_url fallback_id : Text)
    → any is_user_page ts ≡ true
    → is_wanted (select_attachable_page_target ts expected_url fallback_id) ≡ true
unfolding select_attachable_page_target
is_wanted-select_attachable_page_target ts x f h =
    select_from-Wanted ts x f no_candidates (refl, refl) h

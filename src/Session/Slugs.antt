-- ===== src/Session/Slugs.antt =====
-- `NormalizeProfileID` of browser/profile_manager.go gives a slug.
use deepwork_browser.Prelude.{
  Bool, true, false, not, ◌||◌, ◌&&◌, [], ◌∷◌, if◌then◌else◌, nat_eq, Text, trim_space, to_lower,
  lower_rune, is_space, is_empty, trim_text, trim_suffix_of, all, arith, ◌≡◌, refl, ap, ◌∙◌,
  if_cases_dep,
}
use deepwork_browser.Session.Profiles.{
  is_slug_rune, slug_runes, normalize_profile_id, or_default, default_profile_id,
}
use deepwork_browser.Session.Trimmed.{
  trim_prefix_same, starts_with, trim_text_same, trim_space_same,
}

-- Small letters, digits and single dashes; the end is no dash, and nor is the start.
abbrev pub is_slug_after : Bool → Text → Bool
is_slug_after dash [] = not dash
is_slug_after dash (r ∷ s) =
    if is_slug_rune r
    then is_slug_after false s
    else nat_eq r b'-' && not dash && is_slug_after true s

abbrev pub is_slug : Text → Bool
is_slug s = is_slug_after true s

-- The same, but that the end may be a dash.
abbrev is_run_after : Bool → Text → Bool
is_run_after dash [] = true
is_run_after dash (r ∷ s) =
    if is_slug_rune r
    then is_run_after false s
    else nat_eq r b'-' && not dash && is_run_after true s

slug_runes-run :
    (last_dash written : Bool) (s : Text)
    → is_run_after (last_dash || not written) (slug_runes last_dash written s) ≡ true
unfolding slug_runes
slug_runes-run last_dash written [] = refl
slug_runes-run last_dash written (r ∷ s) = ground (
  arith,
  slug_runes-run false true s,
  slug_runes-run true true s,
  slug_runes-run last_dash written s,
)

run-start : (s : Text) → is_run_after true s ≡ true → starts_with b'-' s ≡ false
run-start [] h = refl
run-start (r ∷ s) h = ground arith

trim_suffix-slug :
    (dash : Bool) (s : Text)
    → is_run_after dash s ≡ true
    → (is_empty (trim_suffix_of b'-' s) || is_slug_after dash (trim_suffix_of b'-' s)) ≡ true
unfolding trim_suffix_of
trim_suffix-slug dash [] h = refl
trim_suffix-slug dash (r ∷ s) h =
    ground (arith, h, trim_suffix-slug false s, trim_suffix-slug true s)

trim_text-slug :
    (s : Text)
    → is_run_after true s ≡ true
    → (is_empty (trim_text b'-' s) || is_slug (trim_text b'-' s)) ≡ true
unfolding trim_text
trim_text-slug s h =
    ap (λ t. is_empty (trim_suffix_of b'-' t) || is_slug (trim_suffix_of b'-' t))
      (trim_prefix_same b'-' s (run-start s h))
    ∙ trim_suffix-slug true s h

or_default-slug : (s : Text) → (is_empty s || is_slug s) ≡ true → is_slug (or_default s) ≡ true
or_default-slug [] h = refl
or_default-slug (r ∷ s) h = h

abbrev SlugText : Text → Type 0
SlugText s = is_slug s ≡ true

normalize_profile_id-is_slug : (id : Text) → is_slug (normalize_profile_id id) ≡ true
unfolding normalize_profile_id
normalize_profile_id-is_slug id =
    let t = trim_space (to_lower id) in
    if_cases_dep SlugText (is_empty t) _ _ (λ _. refl)
      (λ _.
        or_default-slug (trim_text b'-' (slug_runes false false t))
          (trim_text-slug (slug_runes false false t) (slug_runes-run false false t)))

slug_lower : (dash : Bool) (s : Text) → is_slug_after dash s ≡ true → to_lower s ≡ s
unfolding to_lower lower_rune
slug_lower dash [] h = refl
slug_lower dash (r ∷ s) h = ground (arith, h, slug_lower false s, slug_lower true s)

slug_black :
    (dash : Bool) (s : Text) → is_slug_after dash s ≡ true → all (λ c. not (is_space c)) s ≡ true
unfolding is_space
slug_black dash [] h = refl
slug_black dash (r ∷ s) h = ground (arith, h, slug_black false s, slug_black true s)

slug_runes_same :
    (last_dash written : Bool) (s : Text)
    → is_slug_after (last_dash || not written) s ≡ true
    → slug_runes last_dash written s ≡ s
unfolding slug_runes
slug_runes_same last_dash written [] h = refl
slug_runes_same last_dash written (r ∷ s) h =
    ground (arith, h, slug_runes_same false true s, slug_runes_same true true s)

trim_suffix_same :
    (dash : Bool) (s : Text) → is_slug_after dash s ≡ true → trim_suffix_of b'-' s ≡ s
unfolding trim_suffix_of
trim_suffix_same dash [] h = refl
trim_suffix_same dash (r ∷ []) h = ground (arith, h)
trim_suffix_same dash (r ∷ q ∷ s) h =
    ground (arith, h, trim_suffix_same false (q ∷ s), trim_suffix_same true (q ∷ s))

slug-start : (s : Text) → is_slug s ≡ true → starts_with b'-' s ≡ false
slug-start [] h = refl
slug-start (r ∷ s) h = ground arith

slugged :
    (t : Text) → is_slug t ≡ true → (if is_empty t then default_profile_id else or_default t) ≡ t
slugged [] h = absurd (ground arith)
slugged (r ∷ s) h = refl

normalize_slug : (s : Text) → is_slug s ≡ true → normalize_profile_id s ≡ s
unfolding normalize_profile_id
normalize_slug s h =
    let black = trim_space_same s (slug_black true s h) in
    let runes = slug_runes_same false false s h in
    let trimmed = trim_text_same b'-' s (slug-start s h) (trim_suffix_same true s h) in
    ap
      (λ t.
        if is_empty (trim_space t)
        then default_profile_id
        else or_default (trim_text b'-' (slug_runes false false (trim_space t))))
      (slug_lower true s h)
    ∙ ap
        (λ t.
          if is_empty t
          then default_profile_id
          else or_default (trim_text b'-' (slug_runes false false t)))
        black
    ∙ ap (λ t. if is_empty s then default_profile_id else or_default t)
        (ap (trim_text b'-') runes ∙ trimmed)
    ∙ slugged s h

-- A normalised profile id is not empty, has small letters, digits and single dashes only and a dash at
-- neither end, and normalising it again changes nothing.
pub normalize_profile_id-normalize_profile_id :
    (id : Text)
    → (is_slug (normalize_profile_id id) ≡ true)
      × (normalize_profile_id (normalize_profile_id id) ≡ normalize_profile_id id)
normalize_profile_id-normalize_profile_id id = (
  normalize_profile_id-is_slug id,
  normalize_slug (normalize_profile_id id) (normalize_profile_id-is_slug id),
)

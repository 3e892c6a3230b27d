-- ===== src/Track/Attention.antt =====
-- What may move the active target of browser/target_tracker.go, and what a close leaves.
use deepwork_browser.Prelude.{
  String, ◌&&◌, is_some, ℕ, Bool, true, false, not, ◌||◌, List, [], ◌∷◌, arith, refl, any, keep,
  ◌==◌, eq_iff, ◌≡◌, ◌⊎◌, inl, inr, ap, ◌∙◌, sym, Bool-cases, if_cases_dep,
}
use deepwork_browser.Track.State.{
  GestureClaim, is_blank, TargetInfo, Tracker, register_target_locked, current_source_target_locked,
}
use deepwork_browser.Track.Attribution.{
  find_index, Evidence, is_claimed, attribute, claim_is_fresh, hint_is_fresh,
  opener_matches_current_source_locked, consume_window_open_hint_locked,
  consume_gesture_claim_locked, prune_attribution_locked, no_entries,
}
use deepwork_browser.Track.Events.{Effect, handle_target_created, place_created}

-- A claim of an input on the source that is not two seconds old.
abbrev pub claim_of_source : ℕ → String → GestureClaim → Bool
claim_of_source now source c = claim_is_fresh now c && (source == "" || c.source_id == source)

-- The tracker has a sign that the user opened a target: the source, which is what the user acts on, is
-- named as its opener; or no opener is named, and a window was opened or the source got an input in the
-- last two seconds.
abbrev pub IsAttributed : ℕ → TargetInfo → Tracker → Type 0
IsAttributed now info tk =
    (((info.opener_id == "") ≡ false) × (info.opener_id ≡ current_source_target_locked tk))
    ⊎ (((info.opener_id == "") ≡ true)
        × ((any (hint_is_fresh now) tk.window_hints ≡ true)
            ⊎ (any (claim_of_source now (current_source_target_locked tk)) tk.gesture_claims
                ≡ true)))

keep-any {ℓ} : {A : Type ℓ} (p : A → Bool) (xs : List A) → no_entries (keep p xs) ≡ not (any p xs)
keep-any p [] = refl
keep-any p (x ∷ xs) = ground (arith, keep-any p xs)

consume_window_open_hint_locked-fresh :
    (now : ℕ) (info : TargetInfo) (tk : Tracker)
    → (consume_window_open_hint_locked now info tk).1 ≡ true
    → ((info.opener_id == "") ≡ true) × (any (hint_is_fresh now) tk.window_hints ≡ true)
unfolding consume_window_open_hint_locked prune_attribution_locked
consume_window_open_hint_locked-fresh now info tk h =
    (ground (arith, h), ground (arith, h, keep-any (hint_is_fresh now) tk.window_hints))

find_index-any {ℓ} :
    {A : Type ℓ} (p : A → Bool) (xs : List A) → is_some (find_index p xs) ≡ any p xs
unfolding find_index
find_index-any p [] = refl
find_index-any p (x ∷ xs) = ground (arith, find_index-any p xs)

any-keep {ℓ} :
    {A : Type ℓ} (p q : A → Bool) (xs : List A) → any p (keep q xs) ≡ any (λ x. q x && p x) xs
any-keep p q [] = refl
any-keep p q (x ∷ xs) = ground (arith, any-keep p q xs)

any-keep_again {ℓ} :
    {A : Type ℓ} (p q : A → Bool) (xs : List A)
    → any (λ x. q x && p x) (keep q xs) ≡ any (λ x. q x && p x) xs
any-keep_again p q [] = refl
any-keep_again p q (x ∷ xs) = ground (arith, any-keep_again p q xs)

consume_gesture_claim_locked-fresh :
    (now : ℕ) (info : TargetInfo) (tk : Tracker)
    → (consume_gesture_claim_locked now info tk).1 ≡ true
    → ((info.opener_id == "") ≡ true)
      × (any (claim_of_source now (current_source_target_locked tk)) tk.gesture_claims ≡ true)
unfolding consume_gesture_claim_locked prune_attribution_locked current_source_target_locked
consume_gesture_claim_locked-fresh now info tk h =
    let source = current_source_target_locked tk in
    let of_source = λ (c : GestureClaim). source == "" || c.source_id == source in
    (
      ground (arith, h),
      sym (any-keep of_source (claim_is_fresh now) tk.gesture_claims)
          ∙ ground
              (arith, h, find_index-any of_source (keep (claim_is_fresh now) tk.gesture_claims)),
    )

consume_window_open_hint_locked-claims :
    (now : ℕ) (info : TargetInfo) (tk : Tracker)
    → ((consume_window_open_hint_locked now info tk).0.gesture_claims
        ≡ keep (claim_is_fresh now) tk.gesture_claims)
      × (current_source_target_locked (consume_window_open_hint_locked now info tk).0
          ≡ current_source_target_locked tk)
unfolding consume_window_open_hint_locked prune_attribution_locked current_source_target_locked
consume_window_open_hint_locked-claims now info tk = (ground arith, ground arith)

gesture-fresh :
    (now : ℕ) (info : TargetInfo) (tk : Tracker)
    → (consume_gesture_claim_locked now info (consume_window_open_hint_locked now info tk).0).1
      ≡ true
    → ((info.opener_id == "") ≡ true)
      × (any (claim_of_source now (current_source_target_locked tk)) tk.gesture_claims ≡ true)
gesture-fresh now info tk h =
    let (claims, source) = consume_window_open_hint_locked-claims now info tk in
    let k = current_source_target_locked tk in
    let (alone, fresh) =
      consume_gesture_claim_locked-fresh now info (consume_window_open_hint_locked now info tk).0
        h in
    (
      alone,
      sym (any-keep_again (λ c. k == "" || c.source_id == k) (claim_is_fresh now) tk.gesture_claims)
          ∙ ap (any (claim_of_source now k)) (sym claims)
          ∙ ap
              (λ i.
                any (claim_of_source now i)
                  (consume_window_open_hint_locked now info tk).0.gesture_claims)
              (sym source)
          ∙ fresh,
    )

-- A claimed target is attributed to the user.
attribute-IsAttributed :
    (now : ℕ) (info : TargetInfo) (tk : Tracker)
    → is_claimed (attribute now info tk).1 ≡ true
    → IsAttributed now info tk
unfolding attribute opener_matches_current_source_locked
attribute-IsAttributed now info tk h =
    elim (Bool-cases (opener_matches_current_source_locked info tk)) [
      | inl e ↦ inl (
        ground (arith, e),
        ground (arith, e, eq_iff info.opener_id (current_source_target_locked tk)),
      )
      | inr e ↦ elim (Bool-cases (consume_window_open_hint_locked now info tk).1) [
        | inl o ↦
            let (alone, fresh) = consume_window_open_hint_locked-fresh now info tk o in
            inr (alone, inl fresh)
        | inr o ↦
            let (alone, fresh) = gesture-fresh now info tk (ground (arith, h, e, o)) in
            inr (alone, inr fresh)
      ]
    ]

-- Registration and attribution leave what is in front, unless nothing is.
register_target_locked-active :
    (now : ℕ) (info : TargetInfo) (tk : Tracker)
    → (tk.active_id == "") ≡ false
    → (register_target_locked now info tk).0.active_id ≡ tk.active_id
unfolding register_target_locked
register_target_locked-active now info tk n = ground (arith, n)

pub register_target_locked-source :
    (now : ℕ) (info : TargetInfo) (tk : Tracker)
    → (tk.active_id == "") ≡ false
    → current_source_target_locked (register_target_locked now info tk).0
      ≡ current_source_target_locked tk
unfolding register_target_locked current_source_target_locked
register_target_locked-source now info tk n = ground (arith, n)

register_target_locked-claims :
    (now : ℕ) (info : TargetInfo) (tk : Tracker)
    → (register_target_locked now info tk).0.gesture_claims ≡ tk.gesture_claims
unfolding register_target_locked
register_target_locked-claims now info tk = ground arith

register_target_locked-hints :
    (now : ℕ) (info : TargetInfo) (tk : Tracker)
    → (register_target_locked now info tk).0.window_hints ≡ tk.window_hints
unfolding register_target_locked
register_target_locked-hints now info tk = ground arith

consume_gesture_claim_locked-active :
    (now : ℕ) (info : TargetInfo) (tk : Tracker)
    → (consume_gesture_claim_locked now info tk).0.active_id ≡ tk.active_id
unfolding consume_gesture_claim_locked prune_attribution_locked
consume_gesture_claim_locked-active now info tk = ground arith

consume_window_open_hint_locked-active :
    (now : ℕ) (info : TargetInfo) (tk : Tracker)
    → (consume_window_open_hint_locked now info tk).0.active_id ≡ tk.active_id
unfolding consume_window_open_hint_locked prune_attribution_locked
consume_window_open_hint_locked-active now info tk = ground arith

attribute-active :
    (now : ℕ) (info : TargetInfo) (tk : Tracker)
    → (attribute now info tk).0.active_id ≡ tk.active_id
unfolding attribute
attribute-active now info tk = ground (
  arith,
  consume_window_open_hint_locked-active now info tk,
  consume_gesture_claim_locked-active now info (consume_window_open_hint_locked now info tk).0,
)

-- The evidence is about the tracker as it was before the target was registered.
registered-IsAttributed :
    (now : ℕ) (info : TargetInfo) (tk : Tracker)
    → (tk.active_id == "") ≡ false
    → IsAttributed now info (register_target_locked now info tk).0
    → IsAttributed now info tk
registered-IsAttributed now info tk n (inl (named, e)) =
    inl (named, e ∙ register_target_locked-source now info tk n)
registered-IsAttributed now info tk n (inr (alone, inl e)) =
    inr (
      alone,
      inl (ap (any (hint_is_fresh now)) (sym (register_target_locked-hints now info tk)) ∙ e),
    )
registered-IsAttributed now info tk n (inr (alone, inr e)) = inr (
  alone,
  inr (
      ap (any (claim_of_source now (current_source_target_locked tk)))
        (sym (register_target_locked-claims now info tk))
      ∙ ap (λ k. any (claim_of_source now k) (register_target_locked now info tk).0.gesture_claims)
          (sym (register_target_locked-source now info tk n))
      ∙ e),
)

place_created-active :
    (info : TargetInfo) (evidence : Evidence) (tk : Tracker)
    → ((place_created info evidence tk).active_id ≡ tk.active_id)
      ⊎ (((place_created info evidence tk).active_id ≡ info.target_id)
          × (is_blank info.url ≡ false)
          × (is_claimed evidence ≡ true))
unfolding place_created
place_created-active info evidence tk = ground arith

-- The target in front is as before, or it is the new one, which is a page with a URL that the tracker
-- attributes to the user.
abbrev pub StaysOrFollows : ℕ → TargetInfo → Tracker → Tracker × List Effect → Type 0
StaysOrFollows now info tk r =
    (r.0.active_id ≡ tk.active_id)
    ⊎ ((r.0.active_id ≡ info.target_id)
        × ((info.type == "page") ≡ true)
        × (is_blank info.url ≡ false)
        × IsAttributed now info tk)

-- While a target is in front, the creation of another leaves it there, or puts the new one there: then
-- that is a page with a URL, and either the source is named as its opener, or no opener is named and a
-- window was opened or the source got an input in the last two seconds.
pub handle_target_created-IsAttributed :
    (now : ℕ) (info : TargetInfo) (tk : Tracker)
    → (tk.active_id == "") ≡ false
    → StaysOrFollows now info tk (handle_target_created now info tk)
unfolding handle_target_created
handle_target_created-IsAttributed now info tk n =
    if_cases_dep (StaysOrFollows now info tk)
      (not (info.type == "page") || not (register_target_locked now info tk).2) _ _
      (λ _. inl (register_target_locked-active now info tk n))
      (λ page.
        elim (place_created-active info
          (attribute now info (register_target_locked now info tk).0).1
          (attribute now info (register_target_locked now info tk).0).0) [
            | inl e ↦ inl (
                e
                ∙ attribute-active now info (register_target_locked now info tk).0
                ∙ register_target_locked-active now info tk n)
            | inr (e, url, claimed) ↦ inr (
              e,
              ground (arith, page),
              url,
              registered-IsAttributed now info tk n
                  (attribute-IsAttributed now info (register_target_locked now info tk).0 claimed),
            )
          ])

-- ===== src/Compare/Laws.antt =====
-- What a comparison of browser/testing/diff.go tells.
use deepwork_browser.Prelude.{
  Bool, true, false, not, ◌&&◌, ◌||◌, List, [], ◌∷◌, Option, none, some, any, keep, eq_refl, Text,
  text_eq, text_eq_refl, text_eq_sound, ◌≡◌, refl, sym, ap, arith, inl, inr, Bool-cases,
}
use deepwork_browser.Compare.Diff.{
  Observation, Diff, TelemetryState, ConsoleEntry, NetworkEntry, telemetry_of, structural_of,
  behavior_of, url_of, has_line, without, text_diff, to_line_set, compute_diff,
  compute_telemetry_diff, same_console, same_network,
}

text_eq_trans_not : (line x : Text) (p : Text → Bool) → text_eq line x ≡ true → p x ≡ p line
text_eq_trans_not line x p h = ap p (sym (text_eq_sound line x h))

pub has_line-without :
    (line : Text) (set other : List Text)
    → has_line line (without set other) ≡ (has_line line set && not (has_line line other))
has_line-without line [] other = refl
has_line-without line (x ∷ set) other = elim (Bool-cases (text_eq line x)) [
  | inl e ↦ ground (
    arith,
    e,
    has_line-without line set other,
    text_eq_trans_not line x (λ l. has_line l other) e,
  )
  | inr e ↦ ground (arith, e, has_line-without line set other)
]

-- What was there and is not removed, and what is added, is what is there.
pub text_diff-patches :
    (before after line : Text)
    → has_line line (to_line_set after) ≡ (
        (has_line line (to_line_set before) && not (has_line line (text_diff before after).1))
        || has_line line (text_diff before after).0)
unfolding text_diff
text_diff-patches before after line = ground (
  arith,
  has_line-without line (to_line_set after) (to_line_set before),
  has_line-without line (to_line_set before) (to_line_set after),
)

module _ {ℓ} {A : Type ℓ} (same : A → A → Bool) where
  -- What is all known leaves nothing.
  keep_known :
      (xs ys : List A)
      → ((e : A) → any (same e) xs ≡ true → any (same e) ys ≡ true)
      → ((e : A) → same e e ≡ true)
      → keep (λ e. not (any (same e) ys)) xs ≡ []
  keep_known [] ys h r = refl
  keep_known (x ∷ xs) ys h r =
      rw (h x (rw (r x) refl)) (keep_known xs ys (λ e m. h e (ground (arith, m))) r)

  keep_self :
      (xs : List A) → ((e : A) → same e e ≡ true) → keep (λ e. not (any (same e) xs)) xs ≡ []
  keep_self xs r = keep_known xs xs (λ e m. m) r

same_console_refl : (e : ConsoleEntry) → same_console e e ≡ true
same_console_refl e = ground (arith, eq_refl e.level, eq_refl e.text, eq_refl e.source)

same_network_refl : (e : NetworkEntry) → same_network e e ≡ true
same_network_refl e = ground (arith, eq_refl e.url, eq_refl e.method, eq_refl e.error)

text_diff_same : (s : Text) → text_diff s s ≡ ([], [])
unfolding text_diff
text_diff_same s = rw (keep_self text_eq (to_line_set s) text_eq_refl) refl

compute_telemetry_diff_same :
    (t : Option TelemetryState)
    → (compute_telemetry_diff t t).new_console_errors ≡ []
      × ((compute_telemetry_diff t t).new_network_failures ≡ [])
unfolding compute_telemetry_diff
compute_telemetry_diff_same none = (refl, refl)
compute_telemetry_diff_same (some t) = (
  keep_self same_console t.console_errors same_console_refl,
  keep_self same_network t.network_failures same_network_refl,
)

-- Nothing has changed.
abbrev pub IsUnchanged : Diff → Type 0
IsUnchanged d =
    (d.url_changed ≡ false)
    × (d.active_changed ≡ false)
    × (d.before_count ≡ d.after_count)
    × (d.added_text ≡ [])
    × (d.removed_text ≡ [])
    × (d.added_refs ≡ 0)
    × (d.removed_refs ≡ 0)
    × (d.telemetry.new_console_errors ≡ [])
    × (d.telemetry.new_network_failures ≡ [])

-- An observation that is compared with itself, whatever parts it lacks, shows no change.
pub compute_diff-IsUnchanged : (o : Option Observation) → IsUnchanged (compute_diff o o)
unfolding compute_diff
compute_diff-IsUnchanged o =
    let text = text_diff_same (structural_of o).text in
    let telemetry = compute_telemetry_diff_same (telemetry_of o) in
    (
      rw (eq_refl (url_of o)) refl,
      rw (eq_refl (behavior_of o).active_tab_id) refl,
      refl,
      ap (λ t. t.0) text,
      ap (λ t. t.1) text,
      ground arith,
      ground arith,
      telemetry.0,
      telemetry.1,
    )

-- ===== src/Session/Safe.antt =====
-- The ids of browser/session_contract.go have safe characters only.
use deepwork_browser.Prelude.{
  ℕ, Bool, true, false, not, [], ◌∷◌, if◌then◌else◌, Text, codes, trim_space, is_space, is_empty,
  trim_text, ◌≤◌, all, arith, ◌≡◌, refl, ap, ◌∙◌, if_cases_dep,
}
use deepwork_browser.Session.Ids.{is_id_rune, id_runes, or_unknown, sanitize_browser_runtime_id}
use deepwork_browser.Session.Trimmed.{trim_text_again, all-trim_text, trim_space_same}

-- A text that is an id as it stands: not empty, of the runes of ids, and with a dash at neither end.
pub record IsId (s : Text) : Type 0 where
  pub nonempty : is_empty s ≡ false
  pub safe : all is_id_rune s ≡ true
  pub trimmed : trim_text b'-' s ≡ s

dash_safe : is_id_rune b'-' ≡ true
unfolding is_id_rune
dash_safe = refl

id_runes-safe : (last_dash : Bool) (s : Text) → all is_id_rune (id_runes last_dash s) ≡ true
unfolding id_runes
id_runes-safe last_dash [] = refl
id_runes-safe last_dash (r ∷ s) =
    ground (arith, id_runes-safe false s, id_runes-safe true s, dash_safe)

id_runes_same : (last_dash : Bool) (s : Text) → all is_id_rune s ≡ true → id_runes last_dash s ≡ s
unfolding id_runes
id_runes_same last_dash [] h = refl
id_runes_same last_dash (r ∷ s) h = ground (arith, h, id_runes_same false s)

id_rune_low : (r : ℕ) → is_id_rune r ≡ true → b'-' ≤ r
unfolding is_id_rune
id_rune_low r h = ground arith

id_rune_high : (r : ℕ) → is_id_rune r ≡ true → r ≤ b'z'
unfolding is_id_rune
id_rune_high r h = ground arith

black_between : (r : ℕ) → b'-' ≤ r → r ≤ b'z' → is_space r ≡ false
unfolding is_space
black_between r l h = ground arith

id_black : (s : Text) → all is_id_rune s ≡ true → all (λ c. not (is_space c)) s ≡ true
id_black [] h = refl
id_black (r ∷ s) h = ground (arith, h, id_black s, id_rune_low r, id_rune_high r, black_between r)

unknown-IsId : IsId (codes "unknown")
unfolding is_id_rune trim_text
unknown-IsId = record { nonempty = refl; safe = refl; trimmed = refl }

or_unknown-IsId : (s : Text) → all is_id_rune s ≡ true → trim_text b'-' s ≡ s → IsId (or_unknown s)
or_unknown-IsId [] h t = unknown-IsId
or_unknown-IsId (r ∷ s) h t = record { nonempty = refl; safe = h; trimmed = t }

sanitize-IsId : (raw : Text) → IsId (sanitize_browser_runtime_id raw)
unfolding sanitize_browser_runtime_id
sanitize-IsId raw =
    let t = trim_space raw in
    if_cases_dep IsId (is_empty t) _ _ (λ _. unknown-IsId)
      (λ _.
        or_unknown-IsId (trim_text b'-' (id_runes false t))
          (all-trim_text is_id_rune b'-' (id_runes false t) (id_runes-safe false t))
          (trim_text_again b'-' (id_runes false t)))

kept_id :
    (s : Text) → is_empty s ≡ false → (if is_empty s then codes "unknown" else or_unknown s) ≡ s
kept_id [] h = absurd (ground arith)
kept_id (r ∷ s) h = refl

sanitize_same : (s : Text) → IsId s → sanitize_browser_runtime_id s ≡ s
unfolding sanitize_browser_runtime_id
sanitize_same s w =
    ap (λ t. if is_empty t then codes "unknown" else or_unknown (trim_text b'-' (id_runes false t)))
      (trim_space_same s (id_black s w.safe))
    ∙ ap (λ t. if is_empty s then codes "unknown" else or_unknown t)
        (ap (trim_text b'-') (id_runes_same false s w.safe) ∙ w.trimmed)
    ∙ kept_id s w.nonempty

-- A sanitised id is not empty, has letters, digits, dashes and underscores only and a dash at neither
-- end, and sanitising it again changes nothing.
pub sanitize-sanitize :
    (raw : Text)
    → IsId (sanitize_browser_runtime_id raw)
      × (sanitize_browser_runtime_id (sanitize_browser_runtime_id raw)
          ≡ sanitize_browser_runtime_id raw)
sanitize-sanitize raw =
    (sanitize-IsId raw, sanitize_same (sanitize_browser_runtime_id raw) (sanitize-IsId raw))

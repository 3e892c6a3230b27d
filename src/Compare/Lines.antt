-- ===== src/Compare/Lines.antt =====
-- The lines of a text, against the sets of browser/testing/diff.go.
use deepwork_browser.Prelude.{
  ℕ, Bool, true, not, ◌&&◌, ◌||◌, List, [], ◌∷◌, ◌++◌, if◌then◌else◌, nat_eq, Text, text_eq,
  text_eq_sound, ◌≡◌, refl, ap, arith, inl, inr, Bool-cases,
}
use deepwork_browser.Compare.Diff.{has_line, is_empty, set_line, lines_from, to_line_set, text_diff}
use deepwork_browser.Compare.Laws.{has_line-without}

-- The text split at the ends of its lines, as `strings.Split` does it.
unfoldable pub first_line : Text → Text
first_line [] = []
first_line (c ∷ s) = if nat_eq c 10 then [] else c ∷ first_line s

unfoldable pub later_lines : Text → List Text
unfolding first_line
later_lines [] = []
later_lines (c ∷ s) = if nat_eq c 10 then first_line s ∷ later_lines s else later_lines s

abbrev pub split_lines : Text → List Text
split_lines s = first_line s ∷ later_lines s

-- A line that a text has, and that is not empty.
abbrev pub is_line_of : Text → Text → Bool
is_line_of line s = not (is_empty line) && has_line line (split_lines s)

has_line-set_line :
    (line l : Text) (set : List Text)
    → has_line line (set_line l set) ≡ ((not (is_empty l) && text_eq line l) || has_line line set)
unfolding set_line
has_line-set_line line l set = elim (Bool-cases (text_eq line l)) [
  | inl e ↦ ground (arith, e, ap (λ k. has_line k set) (text_eq_sound line l e))
  | inr e ↦ ground (arith, e)
]

same_empty : (line l : Text) → text_eq line l ≡ true → is_empty line ≡ is_empty l
same_empty line l e = ap is_empty (text_eq_sound line l e)

append_cons : (s : Text) (c : ℕ) (t : Text) → (s ++ c ∷ []) ++ t ≡ s ++ (c ∷ t)
append_cons [] c t = refl
append_cons (x ∷ s) c t = ap (λ u. x ∷ u) (append_cons s c t)

append_none : (s : Text) → s ++ [] ≡ s
append_none [] = refl
append_none (x ∷ s) = ap (λ u. x ∷ u) (append_none s)

has_line-lines_from :
    (line begun s : Text)
    → has_line line (lines_from begun s) ≡ (
        not (is_empty line)
        && (text_eq line (begun ++ first_line s) || has_line line (later_lines s)))
unfolding lines_from first_line later_lines
has_line-lines_from line begun [] =
    ground (arith, has_line-set_line line begun [], append_none begun, same_empty line begun)
has_line-lines_from line begun (c ∷ s) = elim (Bool-cases (nat_eq c 10)) [
  | inl e ↦ ground (
    arith,
    e,
    has_line-set_line line begun (lines_from [] s),
    has_line-lines_from line [] s,
    append_none begun,
    same_empty line begun,
  )
  | inr e ↦
      ground
        (arith, e, has_line-lines_from line (begun ++ c ∷ []) s, append_cons begun c (first_line s))
]

-- The set of lines of a text has exactly its lines that are not empty.
has_line-to_line_set : (line s : Text) → has_line line (to_line_set s) ≡ is_line_of line s
unfolding to_line_set
has_line-to_line_set line s = has_line-lines_from line [] s

-- Among the added lines of a comparison is exactly each line of the new text that is not empty and no
-- line of the old text, and among the removed ones each line of the old text that is no line of the new.
pub has_line-text_diff :
    (before after line : Text)
    → (has_line line (text_diff before after).0
        ≡ (is_line_of line after && not (is_line_of line before)))
      × (has_line line (text_diff before after).1
          ≡ (is_line_of line before && not (is_line_of line after)))
unfolding text_diff
has_line-text_diff before after line = ground (
  arith,
  has_line-without line (to_line_set after) (to_line_set before),
  has_line-without line (to_line_set before) (to_line_set after),
  has_line-to_line_set line before,
  has_line-to_line_set line after,
)

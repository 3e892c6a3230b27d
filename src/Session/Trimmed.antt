-- ===== src/Session/Trimmed.antt =====
-- What trimming leaves alone: for browser/session_contract.go and browser/profile_manager.go.
use deepwork_browser.Prelude.{
  ℕ, Bool, true, false, not, ◌&&◌, [], ◌∷◌, ◌++◌, nat_eq, Text, trim_space, trim_left, is_space,
  trim_text, trim_prefix_of, trim_suffix_of, all, arith, ◌≡◌, refl, ap, ◌∙◌,
}
use mathlib.Core.List.{reverse-cons, reverse-reverse, reverse}

all-append : (p : ℕ → Bool) (s t : Text) → all p (s ++ t) ≡ (all p s && all p t)
all-append p [] t = refl
all-append p (c ∷ s) t = ground (arith, all-append p s t)

all-reverse : (p : ℕ → Bool) (s : Text) → all p (reverse s) ≡ all p s
all-reverse p [] = refl
all-reverse p (c ∷ s) =
    ap (all p) (reverse-cons c s)
    ∙ ground (arith, all-append p (reverse s) (c ∷ []), all-reverse p s)

trim_left_same : (s : Text) → all (λ c. not (is_space c)) s ≡ true → trim_left s ≡ s
unfolding trim_left
trim_left_same [] h = refl
trim_left_same (c ∷ s) h = ground (arith, h)

pub trim_space_same : (s : Text) → all (λ c. not (is_space c)) s ≡ true → trim_space s ≡ s
unfolding trim_space
trim_space_same s h =
    ap (λ t. reverse (trim_left (reverse t))) (trim_left_same s h)
    ∙ ap reverse (trim_left_same (reverse s) (all-reverse (λ c. not (is_space c)) s ∙ h))
    ∙ reverse-reverse s

-- Not of the character at its start, and not at its end.
abbrev pub starts_with : ℕ → Text → Bool
starts_with k [] = false
starts_with k (c ∷ s) = nat_eq c k

pub trim_prefix_same : (k : ℕ) (s : Text) → starts_with k s ≡ false → trim_prefix_of k s ≡ s
unfolding trim_prefix_of
trim_prefix_same k [] h = refl
trim_prefix_same k (c ∷ s) h = ground (arith, h)

trim_prefix-start : (k : ℕ) (s : Text) → starts_with k (trim_prefix_of k s) ≡ false
unfolding trim_prefix_of
trim_prefix-start k [] = refl
trim_prefix-start k (c ∷ s) = ground (arith, trim_prefix-start k s)

trim_suffix-start :
    (k : ℕ) (s : Text) → starts_with k s ≡ false → starts_with k (trim_suffix_of k s) ≡ false
unfolding trim_suffix_of
trim_suffix-start k [] h = refl
trim_suffix-start k (c ∷ s) h = ground (arith, h)

trim_suffix_again : (k : ℕ) (s : Text) → trim_suffix_of k (trim_suffix_of k s) ≡ trim_suffix_of k s
unfolding trim_suffix_of
trim_suffix_again k [] = refl
trim_suffix_again k (c ∷ s) = ground (arith, trim_suffix_again k s)

pub trim_text_again : (k : ℕ) (s : Text) → trim_text k (trim_text k s) ≡ trim_text k s
unfolding trim_text
trim_text_again k s =
    let u = trim_prefix_of k s in
    ap (trim_suffix_of k)
      (trim_prefix_same k (trim_suffix_of k u) (trim_suffix-start k u (trim_prefix-start k s)))
    ∙ trim_suffix_again k u

-- A text in which the character stands neither at the start nor at the end.
pub trim_text_same :
    (k : ℕ) (s : Text) → starts_with k s ≡ false → trim_suffix_of k s ≡ s → trim_text k s ≡ s
unfolding trim_text
trim_text_same k s h e = ap (trim_suffix_of k) (trim_prefix_same k s h) ∙ e

all-trim_prefix :
    (p : ℕ → Bool) (k : ℕ) (s : Text) → all p s ≡ true → all p (trim_prefix_of k s) ≡ true
unfolding trim_prefix_of
all-trim_prefix p k [] h = refl
all-trim_prefix p k (c ∷ s) h = ground (arith, all-trim_prefix p k s)

all-trim_suffix :
    (p : ℕ → Bool) (k : ℕ) (s : Text) → all p s ≡ true → all p (trim_suffix_of k s) ≡ true
unfolding trim_suffix_of
all-trim_suffix p k [] h = refl
all-trim_suffix p k (c ∷ s) h = ground (arith, all-trim_suffix p k s)

pub all-trim_text :
    (p : ℕ → Bool) (k : ℕ) (s : Text) → all p s ≡ true → all p (trim_text k s) ≡ true
unfolding trim_text
all-trim_text p k s h = all-trim_suffix p k (trim_prefix_of k s) (all-trim_prefix p k s h)

-- ===== src/Prelude/Texts.antt =====
-- What the code uses of Go's `strings` and `net`, over texts as lists of code points.
use Prim.Native.Char.{code}
use Prim.Native.Nat.{ℕ, ◌+◌}
use Prim.Native.String.{String}
use mathlib.Core.Path.{◌≡◌, refl}
use mathlib.Core.Bool.{Bool, true, false, not, ◌&&◌, ◌||◌}
use mathlib.Core.List.{List, [], ◌∷◌, map, reverse}
use mathlib.Core.Option.{Option, none, some}
use native.Mathlib.Omega.{arith}
use deepwork_browser.Prelude.Tests.{leb, nat_eq, nat_eq_iff, if◌then◌else◌, is_some}

abbrev pub Text : Type 0
Text = List ℕ

-- The code points of a literal.
abbrev pub codes : String → Text
codes String.[] = []
codes (String.◌∷◌ c s) = code c ∷ codes s

abbrev pub text_eq : Text → Text → Bool
text_eq [] [] = true
text_eq [] (d ∷ t) = false
text_eq (c ∷ s) [] = false
text_eq (c ∷ s) (d ∷ t) = nat_eq c d && text_eq s t

pub text_eq_sound : (s t : Text) → text_eq s t ≡ true → s ≡ t
text_eq_sound [] [] h = refl
text_eq_sound [] (d ∷ t) h = cc
text_eq_sound (c ∷ s) [] h = cc
text_eq_sound (c ∷ s) (d ∷ t) h = ground (arith, text_eq_sound s t, nat_eq_iff c d)

pub text_eq_refl : (s : Text) → text_eq s s ≡ true
text_eq_refl [] = refl
text_eq_refl (c ∷ s) = ground (arith, text_eq_refl s, nat_eq_iff c c)

abbrev pub is_empty : Text → Bool
is_empty [] = true
is_empty (c ∷ s) = false

-- `strings.Trim` with one character: what stands between its first and its last other character.
unfoldable pub trim_prefix_of : ℕ → Text → Text
trim_prefix_of k [] = []
trim_prefix_of k (c ∷ s) = if nat_eq c k then trim_prefix_of k s else c ∷ s

unfoldable pub trim_suffix_of : ℕ → Text → Text
trim_suffix_of k [] = []
trim_suffix_of k (c ∷ s) =
    let rest = trim_suffix_of k s in if nat_eq c k && is_empty rest then [] else c ∷ rest

unfoldable pub trim_text : ℕ → Text → Text
unfolding trim_prefix_of trim_suffix_of
trim_text k s = trim_suffix_of k (trim_prefix_of k s)

-- `unicode.IsSpace`.
unfoldable pub is_space : ℕ → Bool
is_space c =
    (leb 0x09 c && leb c 0x0D)
    || nat_eq c 0x20
    || nat_eq c 0x85
    || nat_eq c 0xA0
    || nat_eq c 0x1680
    || (leb 0x2000 c && leb c 0x200A)
    || nat_eq c 0x2028
    || nat_eq c 0x2029
    || nat_eq c 0x202F
    || nat_eq c 0x205F
    || nat_eq c 0x3000

unfoldable pub trim_left : Text → Text
unfolding is_space
trim_left [] = []
trim_left (c ∷ s) = if is_space c then trim_left s else c ∷ s

-- `strings.TrimSpace`
unfoldable pub trim_space : Text → Text
unfolding trim_left
trim_space s = reverse (trim_left (reverse (trim_left s)))

-- `unicode.ToLower` on the code points whose lower case is ASCII; the others keep their value, which
-- is outside ASCII as their lower case is. So a comparison with an ASCII text comes out as in Go.
unfoldable pub lower_rune : ℕ → ℕ
lower_rune c =
    if leb b'A' c && leb c b'Z'
    then c + 32
    else if nat_eq c 0x212A
    then b'k'
    else if nat_eq c 0x130
    then b'i'
    else c

unfoldable pub to_lower : Text → Text
unfolding lower_rune
to_lower s = map lower_rune s

-- `strings.CutPrefix`: what follows the prefix.
unfoldable pub cut_prefix : Text → Text → Option Text
cut_prefix s [] = some s
cut_prefix [] (p ∷ ps) = none
cut_prefix (c ∷ s) (p ∷ ps) = if nat_eq c p then cut_prefix s ps else none

unfoldable pub has_prefix : Text → Text → Bool
unfolding cut_prefix
has_prefix s p = is_some (cut_prefix s p)

unfoldable pub has_suffix : Text → Text → Bool
unfolding has_prefix
has_suffix s p = has_prefix (reverse s) (reverse p)

-- What stands before the first occurrence of a character, and after it if there is one.
unfoldable pub before : ℕ → Text → Text
before k [] = []
before k (c ∷ s) = if nat_eq c k then [] else c ∷ before k s

unfoldable pub after : ℕ → Text → Option Text
after k [] = none
after k (c ∷ s) = if nat_eq c k then some s else after k s

unfoldable pub contains : ℕ → Text → Bool
contains k [] = false
contains k (c ∷ s) = nat_eq c k || contains k s

-- What stands before and after the last occurrence.
unfoldable pub split_last : ℕ → Text → Option (Text × Text)
split_last k [] = none
split_last k (c ∷ s) = elim (split_last k s) [
  | some (h, t) ↦ some (c ∷ h, t)
  | none ↦ if nat_eq c k then some ([], s) else none
]

abbrev plain_host : Text → Text → Option (Text × Text)
plain_host host port =
    if contains b':' host
      || contains b'[' host
      || contains b']' host
      || contains b'[' port
      || contains b']' port
    then none
    else some (host, port)

abbrev bracketed : Text → Option Text → Option (Text × Text)
bracketed host none = none
bracketed host (some []) = none
bracketed host (some (c ∷ port)) =
    if nat_eq c b':'
      && not (contains b':' port)
      && not (contains b'[' host)
      && not (contains b'[' port)
      && not (contains b']' port)
    then some (host, port)
    else none

-- `net.SplitHostPort`: the host and the port, or none where it reports an error.
unfoldable pub split_host_port : Text → Option (Text × Text)
unfolding split_last contains before after
split_host_port s = elim (split_last b':' s) [
  | none ↦ none
  | some (host, port) ↦ elim s [
    | [] ↦ none
    | c ∷ rest ↦
        if nat_eq c b'['
        then bracketed (before b']' rest) (after b']' rest)
        else plain_host host port
  ]
]

-- ===== src/Prelude/Lists.antt =====
-- Lists measured and indexed by native numbers, under the library's names, and lists of a property.
use Prim.Native.Nat.{ℕ, zero, suc, ◌+◌, ◌-◌, ◌≤◌}
use mathlib.Core.Path.{◌≡◌, ap, refl, sym, ◌∙◌}
use mathlib.Core.Bool.{Bool, true, false, ◌||◌, ◌&&◌}
use mathlib.Core.List.{List, [], ◌∷◌, ◌++◌}
use mathlib.Core.Option.{Option, none, some}
use mathlib.Core.List.{Memᴰ, map}
use native.Mathlib.Omega.{arith}
use deepwork_browser.Prelude.Tests.{if◌then◌else◌, if_cases_dep}

module _ {ℓ} {A : Type ℓ} where
  abbrev pub length : List A → ℕ
  length [] = 0
  length (x ∷ xs) = suc (length xs)

  abbrev pub drop : ℕ → List A → List A
  drop zero xs = xs
  drop (suc n) [] = []
  drop (suc n) (x ∷ xs) = drop n xs

  abbrev pub take : ℕ → List A → List A
  take zero xs = []
  take (suc n) [] = []
  take (suc n) (x ∷ xs) = x ∷ take n xs

  abbrev pub any : (A → Bool) → List A → Bool
  any p [] = false
  any p (x ∷ xs) = p x || any p xs

  abbrev pub all : (A → Bool) → List A → Bool
  all p [] = true
  all p (x ∷ xs) = p x && all p xs

  -- The entries that pass a test, in order.
  abbrev pub keep : (A → Bool) → List A → List A
  keep p [] = []
  keep p (x ∷ xs) = if p x then x ∷ keep p xs else keep p xs

  abbrev pub last? : List A → Option A
  last? [] = none
  last? (x ∷ []) = some x
  last? (x ∷ y ∷ ys) = last? (y ∷ ys)

  -- All but the last entry.
  abbrev pub drop_last : List A → List A
  drop_last [] = []
  drop_last (x ∷ []) = []
  drop_last (x ∷ y ∷ ys) = x ∷ drop_last (y ∷ ys)

  pub length-append : (xs ys : List A) → length (xs ++ ys) ≡ length xs + length ys
  length-append [] ys = omega arith
  length-append (x ∷ xs) ys = omega (arith, length-append xs ys)

  pub length-drop : (n : ℕ) (xs : List A) → length (drop n xs) ≡ length xs - n
  length-drop zero xs = omega arith
  length-drop (suc n) [] = omega arith
  length-drop (suc n) (x ∷ xs) = omega (arith, length-drop n xs)

  pub length-keep : (p : A → Bool) (xs : List A) → length (keep p xs) ≤ length xs
  length-keep p [] = omega arith
  length-keep p (x ∷ xs) = ground (arith, length-keep p xs)

module _ {ℓ} {A : Type ℓ} (p : A → Bool) where
  pub any-append : (xs ys : List A) → any p (xs ++ ys) ≡ (any p xs || any p ys)
  any-append [] ys = refl
  any-append (x ∷ xs) ys = ground (arith, any-append xs ys)

module _ {ℓ κ} {A : Type ℓ} (P : A → Type κ) where
  abbrev pub All : List A → Type κ
  All [] = Unit
  All (x ∷ xs) = P x × All xs

  pub All-append : (xs ys : List A) → All xs → All ys → All (xs ++ ys)
  All-append [] ys _ k = k
  All-append (x ∷ xs) ys (p, h) k = (p, All-append xs ys h k)

  pub All-keep : (p : A → Bool) (xs : List A) → All xs → All (keep p xs)
  All-keep p [] _ = tt
  All-keep p (x ∷ xs) (q, h) = elim (p x) as (λ b. All (if b then x ∷ keep p xs else keep p xs)) [
    | true ↦ (q, All-keep p xs h)
    | false ↦ All-keep p xs h
  ]

  pub All-drop : (n : ℕ) (xs : List A) → All xs → All (drop n xs)
  All-drop zero xs h = h
  All-drop (suc n) [] h = h
  All-drop (suc n) (x ∷ xs) (_, h) = All-drop n xs h

pub Mem-map {ℓ κ} :
    {A : Type ℓ} {B : Type κ} (f : A → B) (xs : List A) (a : A) → Memᴰ a xs → Memᴰ (f a) (map f xs)
Mem-map f (x ∷ xs) a (Memᴰ.head e) = Memᴰ.head (ap f e)
Mem-map f (x ∷ xs) a (Memᴰ.tail m) = Memᴰ.tail (Mem-map f xs a m)
Mem-map f [] a m = elim m [ ]

pub Mem-append_left {ℓ} : {A : Type ℓ} (xs ys : List A) (a : A) → Memᴰ a xs → Memᴰ a (xs ++ ys)
Mem-append_left (x ∷ xs) ys a (Memᴰ.head e) = Memᴰ.head e
Mem-append_left (x ∷ xs) ys a (Memᴰ.tail m) = Memᴰ.tail (Mem-append_left xs ys a m)
Mem-append_left [] ys a m = elim m [ ]

pub Mem-append_right {ℓ} : {A : Type ℓ} (xs ys : List A) (a : A) → Memᴰ a ys → Memᴰ a (xs ++ ys)
Mem-append_right [] ys a m = m
Mem-append_right (x ∷ xs) ys a m = Memᴰ.tail (Mem-append_right xs ys a m)

pub Mem-keep {ℓ} :
    {A : Type ℓ} (p : A → Bool) (xs : List A) (a : A) → Memᴰ a xs → p a ≡ true → Memᴰ a (keep p xs)
Mem-keep p (x ∷ xs) a (Memᴰ.head e) h = rw (ap p (sym e) ∙ h) (Memᴰ.head e)
Mem-keep p (x ∷ xs) a (Memᴰ.tail m) h =
    if_cases_dep (Memᴰ a) (p x) _ _ (λ _. Memᴰ.tail (Mem-keep p xs a m h))
      (λ _. Mem-keep p xs a m h)
Mem-keep p [] a m h = elim m [ ]

kept {ℓ} :
    {A : Type ℓ} (p : A → Bool) (x a : A) (xs r : List A)
    → p x ≡ true
    → (Memᴰ a r → Memᴰ a xs × (p a ≡ true))
    → Memᴰ a (x ∷ r)
    → Memᴰ a (x ∷ xs) × (p a ≡ true)
kept p x a xs r h f (Memᴰ.head e) = (Memᴰ.head e, ap p e ∙ h)
kept p x a xs r h f (Memᴰ.tail m) = let (n, q) = f m in (Memᴰ.tail n, q)

pub keep-Mem {ℓ} :
    {A : Type ℓ} (p : A → Bool) (xs : List A) (a : A)
    → Memᴰ a (keep p xs)
    → Memᴰ a xs × (p a ≡ true)
keep-Mem p [] a m = elim m [ ]
keep-Mem p (x ∷ xs) a m =
    if_cases_dep (λ r. Memᴰ a r → Memᴰ a (x ∷ xs) × (p a ≡ true)) (p x) _ _
      (λ yes. kept p x a xs _ yes (keep-Mem p xs a))
      (λ no n. let (k, q) = keep-Mem p xs a n in (Memᴰ.tail k, q)) m

-- ===== src/Tabs/Order.antt =====
-- `sort.Slice` by a string key: an insertion sort, which every sort by a key without duplicates equals.
-- Go compares strings by their bytes, which in UTF-8 is the order of the code points.
use deepwork_browser.Prelude.{
  ◌↔◌, String, Bool, true, false, ◌&&◌, ◌||◌, List, [], ◌∷◌, Text, codes, ltb, nat_eq,
  if◌then◌else◌, arith, ◌≡◌, if_cases_dep,
}
use mathlib.Core.List.{Memᴰ}

unfoldable pub text_lt : Text → Text → Bool
text_lt [] [] = false
text_lt [] (d ∷ t) = true
text_lt (c ∷ s) [] = false
text_lt (c ∷ s) (d ∷ t) = ltb c d || (nat_eq c d && text_lt s t)

unfoldable pub string_lt : String → String → Bool
unfolding text_lt
string_lt s t = text_lt (codes s) (codes t)

text_lt-asymmetric : (s t : Text) → text_lt s t ≡ true → text_lt t s ≡ false
unfolding text_lt
text_lt-asymmetric [] [] h = cc
text_lt-asymmetric [] (d ∷ t) h = ground arith
text_lt-asymmetric (c ∷ s) [] h = cc
text_lt-asymmetric (c ∷ s) (d ∷ t) h = ground (arith, text_lt-asymmetric s t)

string_lt-asymmetric : (s t : String) → string_lt s t ≡ true → string_lt t s ≡ false
unfolding string_lt
string_lt-asymmetric s t h = text_lt-asymmetric (codes s) (codes t) h

module _ {A : Type 0} where
  past_second :
      (a x b : A) (xs r : List A)
      → (Memᴰ b (a ∷ xs) → Memᴰ b r)
      → Memᴰ b (a ∷ x ∷ xs)
      → Memᴰ b (x ∷ r)
  past_second a x b xs r f (Memᴰ.head e) = Memᴰ.tail (f (Memᴰ.head e))
  past_second a x b xs r f (Memᴰ.tail (Memᴰ.head e)) = Memᴰ.head e
  past_second a x b xs r f (Memᴰ.tail (Memᴰ.tail m)) = Memᴰ.tail (f (Memᴰ.tail m))

  back_second :
      (a x b : A) (xs r : List A)
      → (Memᴰ b r → Memᴰ b (a ∷ xs))
      → Memᴰ b (x ∷ r)
      → Memᴰ b (a ∷ x ∷ xs)
  back_second a x b xs r f (Memᴰ.head e) = Memᴰ.tail (Memᴰ.head e)
  back_second a x b xs r f (Memᴰ.tail m) = elim (f m) [
    | Memᴰ.head e ↦ Memᴰ.head e
    | Memᴰ.tail n ↦ Memᴰ.tail (Memᴰ.tail n)
  ]

module _ {A : Type 0} (key : A → String) where
  unfoldable pub insert_by : A → List A → List A
  insert_by a [] = a ∷ []
  insert_by a (x ∷ xs) =
      let rest = insert_by a xs in if string_lt (key x) (key a) then x ∷ rest else a ∷ x ∷ xs

  unfoldable pub sort_by : List A → List A
  unfolding insert_by
  sort_by [] = []
  sort_by (x ∷ xs) = insert_by x (sort_by xs)

  -- No entry stands before one with a smaller key.
  abbrev pub Sorted : List A → Type 0
  Sorted [] = Unit
  Sorted (x ∷ []) = Unit
  Sorted (x ∷ y ∷ ys) = (string_lt (key y) (key x) ≡ false) × Sorted (y ∷ ys)

  insert_by-Sorted : (a : A) (xs : List A) → Sorted xs → Sorted (insert_by a xs)
  unfolding insert_by
  insert_by-Sorted a [] h = tt
  insert_by-Sorted a (x ∷ []) h =
      if_cases_dep Sorted (string_lt (key x) (key a)) _ _ (λ lt. (string_lt-asymmetric _ _ lt, tt))
        (λ ge. (ge, tt))
  insert_by-Sorted a (x ∷ y ∷ ys) (p, h) =
      if_cases_dep Sorted (string_lt (key x) (key a)) _ _
        (λ lt.
          if_cases_dep (λ r. Sorted r → Sorted (x ∷ r)) (string_lt (key y) (key a)) _ _
            (λ _ s. (p, s)) (λ _ s. (string_lt-asymmetric _ _ lt, s))
            (insert_by-Sorted a (y ∷ ys) h))
        (λ ge. (ge, (p, h)))

  pub sort_by-Sorted : (xs : List A) → Sorted (sort_by xs)
  unfolding sort_by
  sort_by-Sorted [] = tt
  sort_by-Sorted (x ∷ xs) = insert_by-Sorted x (sort_by xs) (sort_by-Sorted xs)

  Mem-insert_by : (a b : A) (xs : List A) → Memᴰ b (a ∷ xs) → Memᴰ b (insert_by a xs)
  unfolding insert_by
  Mem-insert_by a b [] m = m
  Mem-insert_by a b (x ∷ xs) m =
      if_cases_dep (Memᴰ b) (string_lt (key x) (key a)) _ _
        (λ lt. past_second a x b xs _ (Mem-insert_by a b xs) m) (λ ge. m)

  insert_by-Mem : (a b : A) (xs : List A) → Memᴰ b (insert_by a xs) → Memᴰ b (a ∷ xs)
  unfolding insert_by
  insert_by-Mem a b [] m = m
  insert_by-Mem a b (x ∷ xs) m =
      if_cases_dep (λ r. Memᴰ b r → Memᴰ b (a ∷ x ∷ xs)) (string_lt (key x) (key a)) _ _
        (λ lt. back_second a x b xs _ (insert_by-Mem a b xs)) (λ ge n. n) m

  Mem-sort_by : (b : A) (xs : List A) → Memᴰ b xs → Memᴰ b (sort_by xs)
  unfolding sort_by
  Mem-sort_by b (x ∷ xs) (Memᴰ.head e) = Mem-insert_by x b (sort_by xs) (Memᴰ.head e)
  Mem-sort_by b (x ∷ xs) (Memᴰ.tail m) =
      Mem-insert_by x b (sort_by xs) (Memᴰ.tail (Mem-sort_by b xs m))
  Mem-sort_by b [] m = elim m [ ]

  sort_by-Mem : (b : A) (xs : List A) → Memᴰ b (sort_by xs) → Memᴰ b xs
  unfolding sort_by
  sort_by-Mem b [] m = m
  sort_by-Mem b (x ∷ xs) m = elim (insert_by-Mem x b (sort_by xs) m) [
    | Memᴰ.head e ↦ Memᴰ.head e
    | Memᴰ.tail n ↦ Memᴰ.tail (sort_by-Mem b xs n)
  ]

  -- A sort keeps the entries.
  pub Mem-sort_by_iff : (b : A) (xs : List A) → Memᴰ b (sort_by xs) ↔ Memᴰ b xs
  Mem-sort_by_iff b xs = (sort_by-Mem b xs, Mem-sort_by b xs)

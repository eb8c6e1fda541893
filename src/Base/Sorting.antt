-- ===== src/Base/Sorting.antt =====
-- ORDER BY and LIMIT: a stable insertion sort by a strict order.
use mathlib.Core.Path.{◌≡◌, refl}
use mathlib.Core.Bool.{Bool, true, false}
use mathlib.Core.List.{List, [], ◌∷◌}
use native.Mathlib.Omega.{arith}
use go_fibe.Base.Tests.{if◌then◌else◌}
use go_fibe.Base.Lists.{count, all}

module _ {ℓ} {A : Type ℓ} where
  unfoldable pub insert_by : (A → A → Bool) → A → List A → List A
  insert_by before x [] = x ∷ []
  insert_by before x (y ∷ ys) = if before y x then y ∷ insert_by before x ys else x ∷ y ∷ ys

  unfoldable pub sort_by : (A → A → Bool) → List A → List A
  unfolding insert_by
  sort_by before [] = []
  sort_by before (x ∷ xs) = insert_by before x (sort_by before xs)

  -- No element stands behind one that it comes before.
  abbrev pub IsSorted : (A → A → Bool) → List A → Type 0
  IsSorted before [] = Unit
  IsSorted before (x ∷ xs) =
      (all (λ y. if before y x then false else true) xs ≡ true) × IsSorted before xs

  count-insert_by :
      (before : A → A → Bool) (p : A → Bool) (x : A) (xs : List A)
      → count p (insert_by before x xs) ≡ count p (x ∷ xs)
  unfolding insert_by
  count-insert_by before p x [] = refl
  count-insert_by before p x (y ∷ ys) = ground (arith, count-insert_by before p x ys)

  -- Sorting keeps every element as often as it was.
  pub count-sort_by :
      (before : A → A → Bool) (p : A → Bool) (xs : List A)
      → count p (sort_by before xs) ≡ count p xs
  unfolding sort_by
  count-sort_by before p [] = refl
  count-sort_by before p (x ∷ xs) =
      omega (arith, count-insert_by before p x (sort_by before xs), count-sort_by before p xs)

  pub all-insert_by :
      (before : A → A → Bool) (p : A → Bool) (x : A) (xs : List A)
      → p x ≡ true
      → all p xs ≡ true
      → all p (insert_by before x xs) ≡ true
  unfolding insert_by
  all-insert_by before p x [] h k = ground arith
  all-insert_by before p x (y ∷ ys) h k = ground (arith, all-insert_by before p x ys)

-- ===== src/Base/Counting.antt =====
-- How counts and tests fare under the changes that a table sees.
use Prim.Native.Nat.{◌≤◌}
use mathlib.Core.Path.{◌≡◌, refl}
use mathlib.Core.Bool.{Bool, true, false}
use mathlib.Core.List.{List, [], ◌∷◌, map}
use native.Mathlib.Omega.{arith}
use go_fibe.Base.Lists.{count, any, all, filter, update}

module _ {ℓ} {A : Type ℓ} where
  pub count-filter-le : (p q : A → Bool) (xs : List A) → count p (filter q xs) ≤ count p xs
  count-filter-le p q [] = omega arith
  count-filter-le p q (x ∷ xs) = ground (arith, count-filter-le p q xs)

  -- A change that makes no element pass adds nothing to the count.
  pub count-update-le :
      (p q : A → Bool) (f : A → A) (xs : List A)
      → ((x : A) → q x ≡ true → p (f x) ≡ true → p x ≡ true)
      → count p (update q f xs) ≤ count p xs
  count-update-le p q f [] h = omega arith
  count-update-le p q f (x ∷ xs) h = ground (arith, h x, count-update-le p q f xs h)

  pub count-map-le :
      (p : A → Bool) (f : A → A) (xs : List A)
      → ((x : A) → p (f x) ≡ true → p x ≡ true)
      → count p (map f xs) ≤ count p xs
  count-map-le p f [] h = omega arith
  count-map-le p f (x ∷ xs) h = ground (arith, h x, count-map-le p f xs h)

  -- A change of all that pass, after which they fail, leaves none.
  pub count-update_clear :
      (p : A → Bool) (f : A → A) (xs : List A)
      → ((x : A) → p (f x) ≡ false)
      → count p (update p f xs) ≡ 0
  count-update_clear p f [] h = refl
  count-update_clear p f (x ∷ xs) h = ground (arith, h x, count-update_clear p f xs h)

  pub count_zero : (p : A → Bool) (xs : List A) → any p xs ≡ false → count p xs ≡ 0
  count_zero p [] h = refl
  count_zero p (x ∷ xs) h = ground (arith, count_zero p xs)

  pub count_pos : (p : A → Bool) (xs : List A) → any p xs ≡ true → 1 ≤ count p xs
  count_pos p [] h = ground arith
  count_pos p (x ∷ xs) h = ground (arith, count_pos p xs)

  pub any-update :
      (p q : A → Bool) (f : A → A) (xs : List A)
      → ((x : A) → p (f x) ≡ p x)
      → any p (update q f xs) ≡ any p xs
  any-update p q f [] h = refl
  any-update p q f (x ∷ xs) h = ground (arith, h x, any-update p q f xs h)

  pub all-update :
      (p q : A → Bool) (f : A → A) (xs : List A)
      → ((x : A) → q x ≡ true → p x ≡ true → p (f x) ≡ true)
      → all p xs ≡ true
      → all p (update q f xs) ≡ true
  all-update p q f [] h k = refl
  all-update p q f (x ∷ xs) h k = ground (arith, h x, all-update p q f xs h)

  pub all-map :
      (p q : A → Bool) (f : A → A) (xs : List A)
      → ((x : A) → p x ≡ true → q (f x) ≡ true)
      → all p xs ≡ true
      → all q (map f xs) ≡ true
  all-map p q f [] h k = refl
  all-map p q f (x ∷ xs) h k = ground (arith, h x, all-map p q f xs h)

  pub all_mono :
      (p q : A → Bool) (xs : List A)
      → ((x : A) → p x ≡ true → q x ≡ true)
      → all p xs ≡ true
      → all q xs ≡ true
  all_mono p q [] h k = refl
  all_mono p q (x ∷ xs) h k = ground (arith, h x, all_mono p q xs h)

  -- What holds of the elements that a filter keeps, given that they pass it.
  pub all-filter :
      (p q r : A → Bool) (xs : List A)
      → ((x : A) → q x ≡ true → p x ≡ true → r x ≡ true)
      → all p xs ≡ true
      → all r (filter q xs) ≡ true
  all-filter p q r [] h k = refl
  all-filter p q r (x ∷ xs) h k = ground (arith, h x, all-filter p q r xs h)

  pub any-filter :
      (p q : A → Bool) (xs : List A)
      → ((x : A) → p x ≡ true → q x ≡ true)
      → any p (filter q xs) ≡ any p xs
  any-filter p q [] h = refl
  any-filter p q (x ∷ xs) h = ground (arith, h x, any-filter p q xs h)

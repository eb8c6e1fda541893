-- ===== src/Base/Keyed.antt =====
-- Sorting by a numeric key.
use mathlib.Core.Path.{refl}
use mathlib.Core.Bool.{Bool, true, false}
use mathlib.Core.List.{List, [], ◌∷◌}
use Prim.Native.Nat.{ℕ}
use native.Mathlib.Omega.{arith}
use go_fibe.Base.Tests.{if◌then◌else◌, ltb, Bool-cases}
use go_fibe.Base.Sorting.{insert_by, sort_by, IsSorted, all-insert_by}
use go_fibe.Base.Counting.{all_mono}
use mathlib.Core.Logic.{inl, inr}

module _ {ℓ} {A : Type ℓ} (key : A → ℕ) where
  abbrev pub lower : A → A → Bool
  lower x y = ltb (key x) (key y)

  abbrev not_lower : A → A → Bool
  not_lower x y = if lower y x then false else true

  insert_by-IsSorted :
      (x : A) (xs : List A) → IsSorted lower xs → IsSorted lower (insert_by lower x xs)
  unfolding insert_by
  insert_by-IsSorted x [] h = (refl, tt)
  insert_by-IsSorted x (y ∷ ys) (first, rest) = elim (Bool-cases (lower y x)) [
    | inl e ↦
        rw e (
          all-insert_by lower (not_lower y) x ys (ground arith) first,
          insert_by-IsSorted x ys rest,
        )
    | inr e ↦ rw e (
      ground (arith, all_mono (not_lower y) (not_lower x) ys (λ z k. ground arith) first),
      (first, rest),
    )
  ]

  pub sort_by-IsSorted : (xs : List A) → IsSorted lower (sort_by lower xs)
  unfolding sort_by
  sort_by-IsSorted [] = tt
  sort_by-IsSorted (x ∷ xs) = insert_by-IsSorted x (sort_by lower xs) (sort_by-IsSorted xs)

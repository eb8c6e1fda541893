-- ===== src/Base/Upserts.antt =====
-- The rows after an INSERT with ON CONFLICT DO UPDATE: those in conflict with the new one are updated,
-- or it comes last.
use mathlib.Core.Path.{◌≡◌, refl}
use mathlib.Core.Bool.{Bool, true, false}
use go_fibe.Base.{List, [], ◌∷◌, ◌++◌, any, filter, update, not, arith, any-append, if◌then◌else◌}

module _ {A : Type 0} (p : A → Bool) (f : A → A) (x : A) where
  abbrev pub upsert : List A → List A
  upsert xs = if any p xs then update p f xs else xs ++ x ∷ []

  updated_any :
      (r : A → Bool) (xs : List A)
      → ((y : A) → p y ≡ true → r (f y) ≡ true)
      → any p xs ≡ true
      → any r (update p f xs) ≡ true
  updated_any r [] h e = e
  updated_any r (y ∷ ys) h e = ground (arith, h y, updated_any r ys h)

  others_kept :
      (r : A → Bool) (xs : List A)
      → ((y : A) → r y ≡ true → p y ≡ false)
      → any r xs ≡ true
      → any r (update p f xs) ≡ true
  others_kept r [] h e = e
  others_kept r (y ∷ ys) h e = ground (arith, h y, others_kept r ys h)

  pub upserted_any :
      (r : A → Bool) (xs : List A)
      → ((y : A) → p y ≡ true → r (f y) ≡ true)
      → r x ≡ true
      → any r (upsert xs) ≡ true
  upserted_any r xs h e = ground (arith, updated_any r xs h, any-append r xs (x ∷ []))

  pub upserted_others :
      (r : A → Bool) (xs : List A)
      → ((y : A) → r y ≡ true → p y ≡ false)
      → any r xs ≡ true
      → any r (upsert xs) ≡ true
  upserted_others r xs h e = ground (arith, others_kept r xs h, any-append r xs (x ∷ []))

  filter-update :
      (q : A → Bool) (xs : List A)
      → ((y : A) → p y ≡ true → q y ≡ true)
      → ((y : A) → p y ≡ true → q (f y) ≡ true)
      → filter (λ y. not (q y)) (update p f xs) ≡ filter (λ y. not (q y)) xs
  filter-update q [] h k = refl
  filter-update q (y ∷ ys) h k = ground (arith, h y, k y, filter-update q ys h k)

  filter-append :
      (q : A → Bool) (xs : List A)
      → q x ≡ true
      → filter (λ y. not (q y)) (xs ++ x ∷ []) ≡ filter (λ y. not (q y)) xs
  filter-append q [] e = rw e refl
  filter-append q (y ∷ ys) e = ground (arith, filter-append q ys e)

  pub filter-upsert :
      (q : A → Bool) (xs : List A)
      → ((y : A) → p y ≡ true → q y ≡ true)
      → ((y : A) → p y ≡ true → q (f y) ≡ true)
      → q x ≡ true
      → filter (λ y. not (q y)) (upsert xs) ≡ filter (λ y. not (q y)) xs
  filter-upsert q xs h k e = ground (arith, filter-update q xs h k, filter-append q xs e)

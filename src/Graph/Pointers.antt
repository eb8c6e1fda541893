-- ===== src/Graph/Pointers.antt =====
-- The functions of graph/helpers.go that turn a slice into a slice of pointers into it: a pointer is
-- an index into the slice that it was taken of.
use go_fibe.Base.{ℕ, suc, ◌≡◌, refl, ap, ◌∙◌, Option, none, some, List, [], ◌∷◌, map}
use go_fibe.Models.{Monitor, CheckEvent, Incident, JobRun, MaintenanceTask, MaintenanceRun}

module _ {A : Type 0} where
  -- `for i := range items`
  pointers_from : ℕ → List A → List ℕ
  pointers_from i [] = []
  pointers_from i (x ∷ xs) = i ∷ pointers_from (suc i) xs

  -- `&items[i]` for each i
  unfoldable pub pointers : List A → List ℕ
  unfolding pointers_from
  pointers items = pointers_from 0 items

  pub deref : List A → ℕ → Option A
  deref [] i = none
  deref (x ∷ xs) ℕ.zero = some x
  deref (x ∷ xs) (suc i) = deref xs i

abbrev pub monitor_pointers : List Monitor → List ℕ
monitor_pointers = pointers

abbrev pub check_event_pointers : List CheckEvent → List ℕ
check_event_pointers = pointers

abbrev pub incident_pointers : List Incident → List ℕ
incident_pointers = pointers

abbrev pub job_run_pointers : List JobRun → List ℕ
job_run_pointers = pointers

abbrev pub maintenance_task_pointers : List MaintenanceTask → List ℕ
maintenance_task_pointers = pointers

abbrev pub maintenance_run_pointers : List MaintenanceRun → List ℕ
maintenance_run_pointers = pointers

module _ {A : Type 0} where
  shifted :
      (x : A) (xs ys : List A) (i : ℕ)
      → map (deref (x ∷ xs)) (pointers_from (suc i) ys) ≡ map (deref xs) (pointers_from i ys)
  unfolding deref pointers_from
  shifted x xs [] i = refl
  shifted x xs (y ∷ ys) i = ap (λ l. deref xs i ∷ l) (shifted x xs ys (suc i))

  -- The pointers lead to the items, each to its own.
  pub deref-pointers : (items : List A) → map (deref items) (pointers items) ≡ map some items
  unfolding pointers deref pointers_from
  deref-pointers [] = refl
  deref-pointers (x ∷ xs) = ap (λ l. some x ∷ l) (shifted x xs xs 0 ∙ deref-pointers xs)

-- ===== src/App/Retry.antt =====
-- retry of internal/app/app.go, over what each call of its function meets and what its select takes
-- after each failure.
use go_fibe.Base.{
  ◌≡◌, refl, Bool, true, false, Option, none, some, List, [], ◌∷◌, find, if◌then◌else◌,
}
use go_fibe.Base.Exec.{Result, ok, err, Exec}

pub data Wake : Type 0 where
  -- <-ctx.Done(), <-deadline.C and <-wait.C
  cancelled expired waited : Wake

abbrev is_waited : Wake → Bool
is_waited waited = true
is_waited cancelled = false
is_waited expired = false

module _ (E A : Type 0) where
  -- What a call of `fn` came to, and what ends the wait behind it.
  pub record Attempt : Type 0 where
    pub outcome : Result E A
    pub wake : Wake

pub data RetryError (E : Type 0) : Type 0 where
  -- errors.Join(ctx.Err(), lastErr)
  joined : E → RetryError E
  last : E → RetryError E

abbrev pub Pending : Type 0 → Type 0 → Type 0
Pending E A = Option (Result (RetryError E) A)

module _ {S E A : Type 0} where
  abbrev pub settled : Wake → Result E A × S → (S → Pending E A × S) → Pending E A × S
  settled wake (ok a, s) again = (some (ok a), s)
  settled cancelled (err e, s) again = (some (err (joined e)), s)
  settled expired (err e, s) again = (some (err (last e)), s)
  settled waited (err e, s) again = again s

  module _ {I : Type 0} (fn : I → Exec S E A) where
    -- `none` while the loop is still waiting.
    unfoldable pub retry : List (I × Wake) → S → Pending E A × S
    retry [] s = (none, s)
    retry ((i, wake) ∷ tries) s = let again = retry tries in settled wake (fn i s) again

    -- The calls, if nothing ended the loop.
    unfoldable pub attempts : List (I × Wake) → S → List (Attempt E A)
    attempts [] s = []
    attempts ((i, wake) ∷ tries) s =
        let (r, t) = fn i s in record { outcome = r; wake = wake } ∷ attempts tries t

module _ {E A : Type 0} where
  abbrev is_failed : Result E A → Bool
  is_failed (ok x) = false
  is_failed (err e) = true

  -- An attempt that succeeds, or after which the context or the deadline is over.
  abbrev pub is_final : Attempt E A → Bool
  is_final a = if is_failed a.outcome then (if is_waited a.wake then false else true) else true

  abbrev answer_of : Result E A → Wake → Result (RetryError E) A
  answer_of (ok x) wake = ok x
  answer_of (err e) cancelled = err (joined e)
  answer_of (err e) _ = err (last e)

  abbrev pub verdict : Option (Attempt E A) → Pending E A
  verdict none = none
  verdict (some a) = some (answer_of a.outcome a.wake)

module _ {S E A I : Type 0} (fn : I → Exec S E A) where
  settled_lem :
      (wake : Wake) (x : Result E A × S) (tries : List (I × Wake))
      → ((s : S) → (retry fn tries s).0 ≡ verdict (find is_final (attempts fn tries s)))
      → (settled wake x (retry fn tries)).0
        ≡ verdict (find is_final (record { outcome = x.0; wake = wake } ∷ attempts fn tries x.1))
  settled_lem wake (ok a, s) tries h = refl
  settled_lem cancelled (err e, s) tries h = refl
  settled_lem expired (err e, s) tries h = refl
  settled_lem waited (err e, s) tries h = h s

  -- retry returns with the first attempt that succeeds or after whose failure the context or the
  -- deadline is over: without an error, or with that attempt's error, joined with that of the
  -- context if it was cancelled; until then it goes on.
  pub retry_lem :
      (tries : List (I × Wake)) (s : S)
      → (retry fn tries s).0 ≡ verdict (find is_final (attempts fn tries s))
  unfolding retry attempts
  retry_lem [] s = refl
  retry_lem ((i, wake) ∷ tries) s = settled_lem wake (fn i s) tries (retry_lem tries)

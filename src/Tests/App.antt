-- ===== src/Tests/App.antt =====
-- Runs of the retry loop.
use go_fibe.Base.{◌≡◌, refl, ℕ, suc, List, [], ◌∷◌, some, find}
use go_fibe.Base.Exec.{Result, ok, err, Exec}
use go_fibe.App.Retry.{Wake, waited, expired, last, attempts, retry, retry_lem, verdict, is_final}

-- It counts its calls.
abbrev fn : Result ℕ (Unit {0}) → Exec ℕ ℕ (Unit {0})
fn r calls = (r, suc calls)

abbrev tries : List (Result ℕ (Unit {0}) × Wake)
tries = (err 1, waited) ∷ (err 2, expired) ∷ (ok tt, waited) ∷ []

deadline_wins : retry fn tries 0 ≡ (some (err (last 2)), 2)
unfolding retry
deadline_wins = refl

retry_lem_example : (retry fn tries 0).0 ≡ verdict (find is_final (attempts fn tries 0))
retry_lem_example = retry_lem fn tries 0

-- ===== src/Db/Due.antt =====
-- Which monitors DueMonitors of internal/db/store.go selects, and in which order.
use mathlib.Core.Path.{subst}
use go_fibe.Base.{
  ℕ, suc, ◌+◌, ◌*◌, ℤ, pos, negsuc, ◌≤◌, ◌≡◌, ◌∙◌, ◌⊎◌, inl, inr, ap, sym, refl, arith, Bool, true,
  false, ◌&&◌, Option, none, some, List, [], ◌∷◌, ◌++◌, length, length-take, take, filter, all,
  count, ltb, leb, eqb, sort_by, IsSorted, count-sort_by, count-append, if◌then◌else◌,
}
use go_fibe.Base.Exec.{ok}
use go_fibe.Base.Counting.{all_mono}
use go_fibe.Base.Keyed.{sort_by-IsSorted}
use go_fibe.Models.{Monitor, Time}
use go_fibe.Db.Schema.{Tables}
use go_fibe.Db.Engine.{Store, Fate, answered, refused, unacked, next, settle, query}
use go_fibe.Db.Monitors.{due, due_monitors, is_due, checked_earlier, checked_or_epoch}

-- A monitor with these columns waits for a check.
abbrev pub waits : Time → Bool → Option Time → ℤ → Bool
waits now false last interval = false
waits now true none interval = true
waits now true (some at) (pos seconds) = ltb (at + seconds * 1000000) now
waits now true (some at) (negsuc n) = ltb at (now + suc n * 1000000)

abbrev pub is_waiting : Time → Monitor → Bool
is_waiting now m = waits now m.enabled m.last_checked_at m.interval_seconds

-- The first date is no later than the second; no date is as early as any.
abbrev pub no_later : Option Time → Option Time → Bool
no_later none last = true
no_later (some at) none = eqb at 0
no_later (some at) (some last) = leb at last

abbrev pub is_oldest_first : List Monitor → Bool
is_oldest_first [] = true
is_oldest_first (m ∷ ms) =
    all (λ (n : Monitor). no_later m.last_checked_at n.last_checked_at) ms && is_oldest_first ms

-- A selection from the waiting monitors of a table, of which `rest` is left.
pub record IsSelection (now : Time) (limit : ℕ) (table selected : List Monitor) : Type 0 where
  pub rest : List Monitor
  -- Each waiting monitor is in one of both, as often as in the table, and no other monitor is.
  pub divided :
      (p : Monitor → Bool)
      → count p selected + count p rest ≡ count p (filter (is_waiting now) table)
  -- Each selected monitor was checked no later than those behind it and those that are left.
  pub oldest_first : is_oldest_first (selected ++ rest) ≡ true
  pub within_limit : length selected ≤ limit
  -- Monitors are left only where the selection is full.
  pub left : (rest ≡ []) ⊎ (length selected ≡ limit)

abbrev drop : {A : Type 0} → ℕ → List A → List A
drop ℕ.zero xs = xs
drop (suc n) [] = []
drop (suc n) (x ∷ xs) = drop n xs

taken_and_left : {A : Type 0} (n : ℕ) (xs : List A) → take n xs ++ drop n xs ≡ xs
taken_and_left ℕ.zero xs = refl
taken_and_left (suc n) [] = refl
taken_and_left (suc n) (x ∷ xs) = ap (λ ys. x ∷ ys) (taken_and_left n xs)

full_or_none_left : {A : Type 0} (n : ℕ) (xs : List A) → (drop n xs ≡ []) ⊎ (length (take n xs) ≡ n)
full_or_none_left ℕ.zero xs = inr refl
full_or_none_left (suc n) [] = inl refl
full_or_none_left (suc n) (x ∷ xs) = elim (full_or_none_left n xs) [
  | inl e ↦ inl e
  | inr e ↦ inr (ap suc e)
]

due_means_waiting : (now : Time) (m : Monitor) → is_due now m ≡ is_waiting now m
due_means_waiting now m = ground arith

no_later_of :
    (m n : Monitor)
    → (if checked_earlier n m then false else true) ≡ true
    → no_later m.last_checked_at n.last_checked_at ≡ true
no_later_of m n h = ground arith

filter-is_due :
    (now : Time) (ms : List Monitor) → filter (is_due now) ms ≡ filter (is_waiting now) ms
filter-is_due now [] = refl
filter-is_due now (m ∷ ms) = ground (arith, due_means_waiting now m, filter-is_due now ms)

sorted-is_oldest_first :
    (ms : List Monitor) → IsSorted checked_earlier ms → is_oldest_first ms ≡ true
sorted-is_oldest_first [] h = refl
sorted-is_oldest_first (m ∷ ms) (first, rest) = ground (
  arith,
  all_mono (λ n. if checked_earlier n m then false else true) _ ms (λ n k. no_later_of m n k) first,
  sorted-is_oldest_first ms rest,
)

due-IsSelection :
    (now : Time) (limit : ℕ) (ms : List Monitor) → IsSelection now limit ms (due now limit ms)
unfolding due
due-IsSelection now limit ms =
    let rows = sort_by checked_earlier (filter (is_due now) ms) in
    record {
      rest = drop limit rows;
      divided = λ p.
          sym (count-append p (take limit rows) (drop limit rows))
          ∙ ap (count p) (taken_and_left limit rows)
          ∙ count-sort_by checked_earlier p (filter (is_due now) ms)
          ∙ ap (count p) (filter-is_due now ms);
      oldest_first =
          ap is_oldest_first (taken_and_left limit rows)
          ∙ sorted-is_oldest_first rows
              (sort_by-IsSorted checked_or_epoch (filter (is_due now) ms));
      within_limit = length-take limit rows;
      left = full_or_none_left limit rows;
    }

settle_read :
    {A : Type 0} (fate : Fate) (x selected : A) (t : Tables) (s : Store)
    → (settle fate (ok (x, t)) s).0 ≡ ok selected
    → x ≡ selected
settle_read answered x selected t s h = cc
settle_read refused x selected t s h = cc
settle_read unacked x selected t s h = cc

-- DueMonitors that returns without an error divides the monitors of the table that are enabled and
-- were never checked or are overdue into those that it returns and those that are left: it returns
-- at most as many as asked for, leaves one only if it returns that many, and each that it returns
-- was checked no later than those behind it and those that are left, where never counts as the
-- epoch.
pub due_monitors-IsSelection :
    (limit : ℕ) (s : Store) (selected : List Monitor)
    → (due_monitors limit s).0 ≡ ok selected
    → IsSelection (s.clock s.calls) limit s.tables.monitors selected
unfolding due_monitors query
due_monitors-IsSelection limit s selected h =
    subst (IsSelection (s.clock s.calls) limit s.tables.monitors)
      (settle_read (s.fate s.calls) _ selected s.tables (next s) h)
      (due-IsSelection (s.clock s.calls) limit s.tables.monitors)

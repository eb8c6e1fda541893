-- ===== src/Strings/Atoi.antt =====
-- strconv.Atoi, and the conversions between Go's integer types.
use go_fibe.Base.{
  ℕ, ◌+◌, ◌-◌, ◌*◌, ◌%◌, ◌^◌, ℤ, pos, negsuc, pos_part, neg_part, Bool, true, false, ◌&&◌, Option,
  none, some, [], ◌∷◌, ltb, leb, eqb, if◌then◌else◌,
}
use go_fibe.Strings.{GoString}

abbrev is_digit : ℕ → Bool
is_digit c = leb b'0' c && leb c b'9'

-- The decimal digits of a text of at least one.
digits_from : ℕ → GoString → Option ℕ
digits_from acc [] = some acc
digits_from acc (c ∷ s) = elim (is_digit c) [
  | true ↦ digits_from (10 * acc + (c - b'0')) s
  | false ↦ none
]

digits : GoString → Option ℕ
unfolding digits_from
digits [] = none
digits (c ∷ s) = digits_from 0 (c ∷ s)

-- Within int64, or an error.
signed : Bool → Option ℕ → Option ℤ
signed negative none = none
signed true (some n) =
    if eqb n 0 then some (pos 0) else if leb n (2 ^ 63) then some (negsuc (n - 1)) else none
signed false (some n) = if ltb n (2 ^ 63) then some (pos n) else none

unfoldable pub atoi : GoString → Option ℤ
unfolding signed digits
atoi [] = none
atoi (c ∷ s) =
    if eqb c b'-'
    then signed true (digits s)
    else if eqb c b'+'
    then signed false (digits s)
    else signed false (digits (c ∷ s))

-- The w-bit integer with the given residue.
from_residue : ℕ → ℕ → ℤ
from_residue w r = if ltb r (2 ^ (w - 1)) then pos r else negsuc (2 ^ w - r - 1)

-- The product, wrapped to w bits: int32(n) is `wrap_mul 32 n 1`.
unfoldable pub wrap_mul : ℕ → ℤ → ℕ → ℤ
unfolding from_residue
wrap_mul w n k = from_residue w ((pos_part n * k + (2 ^ w - neg_part n * k % 2 ^ w)) % 2 ^ w)

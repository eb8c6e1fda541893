-- ===== src/Strings/Itoa.antt =====
-- fmt's %d for a number that is not negative.
use go_fibe.Base.{ℕ, zero, suc, ◌+◌, ◌/◌, ◌%◌, [], ◌∷◌, ltb, ℤ, pos, negsuc, if◌then◌else◌}
use go_fibe.Strings.{GoString}

itoa_from : ℕ → ℕ → GoString → GoString
itoa_from zero n acc = acc
itoa_from (suc fuel) n acc =
    let more = itoa_from fuel (n / 10) ((b'0' + n % 10) ∷ acc) in
    if ltb n 10 then (b'0' + n) ∷ acc else more

-- As many rounds as the number itself, plus one, are enough.
unfoldable pub itoa : ℕ → GoString
unfolding itoa_from
itoa n = itoa_from (suc n) n []

unfoldable pub itoa_ℤ : ℤ → GoString
unfolding itoa
itoa_ℤ (pos n) = itoa n
itoa_ℤ (negsuc n) = b'-' ∷ itoa (suc n)

-- ===== src/Strings/Equality.antt =====
-- The test of two Go strings decides their equality.
use go_fibe.Base.{◌≡◌, refl, ◌↔◌, true, [], ◌∷◌, arith}
use go_fibe.Strings.{GoString, ◌==◌}

pub eq_refl : (s : GoString) → (s == s) ≡ true
unfolding ◌==◌
eq_refl [] = refl
eq_refl (c ∷ s) = ground (arith, eq_refl s)

pub eq_sound : (s t : GoString) → (s == t) ≡ true → s ≡ t
unfolding ◌==◌
eq_sound [] [] h = refl
eq_sound [] (b ∷ t) h = ground arith
eq_sound (a ∷ s) [] h = ground arith
eq_sound (a ∷ s) (b ∷ t) h = ground (arith, eq_sound s t)

pub eq_iff : (s t : GoString) → ((s == t) ≡ true) ↔ (s ≡ t)
eq_iff s t = (eq_sound s t, λ h. ground (arith, eq_refl s, h))

-- ===== src/Strings/Cutting.antt =====
-- The length of a cut text, in bytes.
use go_fibe.Base.{ℕ, suc, ◌≤◌, ◌-◌, ◌≡◌, List, [], ◌∷◌, take, map, leb, Bool-cases, inl, inr, arith}
use go_fibe.Strings.{GoString, len, slice_to, width, encode, stray}

width-stray : (b : ℕ) → width (stray b) ≡ 1
unfolding width
width-stray b = ground arith

len_strays : (bytes : List ℕ) (n : ℕ) → len (map stray (take n bytes)) ≤ n
unfolding len
len_strays [] ℕ.zero = ground arith
len_strays [] (suc n) = ground arith
len_strays (b ∷ bytes) ℕ.zero = ground arith
len_strays (b ∷ bytes) (suc n) = ground (arith, width-stray b, len_strays bytes n)

-- s[:n] is no longer than n bytes.
pub len-slice_to : (s : GoString) (n : ℕ) → len (slice_to s n) ≤ n
unfolding len slice_to
len-slice_to [] n = ground arith
len-slice_to (c ∷ s) n = elim (Bool-cases (leb (width c) n)) [
  | inl fits ↦ ground (arith, len-slice_to s (n - width c))
  | inr cut ↦ ground (arith, len_strays (encode c) n)
]

-- ===== src/Strings/Trimming.antt =====
-- What strings.TrimSpace and strings.Fields return.
use go_fibe.Base.{
  ◌≡◌, ◌∙◌, refl, ap, inl, inr, Bool, true, false, not, ◌&&◌, List, [], ◌∷◌, ◌++◌, all, arith,
  Bool-cases, all-append,
}
use go_fibe.Strings.{
  GoString, is_space, trim_left, trim_right, trim_space, is_empty, fields, fields_from, flush,
}

all-trim_right : (s : GoString) → all is_space (trim_right s) ≡ all is_space s
unfolding trim_right
all-trim_right [] = refl
all-trim_right (c ∷ s) = ground (arith, all-trim_right s)

trim_right_idem : (s : GoString) → trim_right (trim_right s) ≡ trim_right s
unfolding trim_right
trim_right_idem [] = refl
trim_right_idem (c ∷ s) = ground (arith, trim_right_idem s, all-trim_right s)

-- A text that begins with a space holds one.
starts_spaced : GoString → Bool
starts_spaced [] = false
starts_spaced (c ∷ s) = is_space c

trim_left_start : (s : GoString) → starts_spaced (trim_left s) ≡ false
unfolding trim_left starts_spaced
trim_left_start [] = refl
trim_left_start (c ∷ s) = ground (arith, trim_left_start s)

trim_left_id : (s : GoString) → starts_spaced s ≡ false → trim_left s ≡ s
unfolding trim_left starts_spaced
trim_left_id [] h = refl
trim_left_id (c ∷ s) h = ground arith

trim_right_start : (s : GoString) → starts_spaced s ≡ false → starts_spaced (trim_right s) ≡ false
unfolding trim_right starts_spaced
trim_right_start [] h = refl
trim_right_start (c ∷ s) h = ground arith

-- Trimming twice is trimming once.
pub trim_space_idem : (s : GoString) → trim_space (trim_space s) ≡ trim_space s
unfolding trim_space
trim_space_idem s =
    let t = trim_right (trim_left s) in
    ap trim_right (trim_left_id t (trim_right_start (trim_left s) (trim_left_start s)))
    ∙ trim_right_idem (trim_left s)

-- The words that Fields returns are neither empty nor spaced.
abbrev pub is_word : GoString → Bool
is_word w = not (is_empty w) && all (λ c. not (is_space c)) w

flush_words :
    (word : GoString) (words : List GoString)
    → all (λ c. not (is_space c)) word ≡ true
    → all is_word words ≡ true
    → all is_word (flush word words) ≡ true
unfolding is_empty
flush_words [] words h k = k
flush_words (c ∷ word) words h k = ground arith

fields_from_words :
    (word s : GoString)
    → all (λ c. not (is_space c)) word ≡ true
    → all is_word (fields_from word s) ≡ true
unfolding fields_from
fields_from_words word [] h = flush_words word [] h refl
fields_from_words word (c ∷ s) h = elim (Bool-cases (is_space c)) [
  | inl space ↦
      rw (space, fields_from) (flush_words word (fields_from [] s) h (fields_from_words [] s refl))
  | inr other ↦
      rw (other, fields_from)
        (fields_from_words (word ++ c ∷ []) s
          (all-append (λ x. not (is_space x)) word (c ∷ []) ∙ ground arith))
]

pub fields_words : (s : GoString) → all is_word (fields s) ≡ true
unfolding fields
fields_words s = fields_from_words [] s refl

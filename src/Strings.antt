-- ===== src/Strings.antt =====
-- The parts of Go's `string` type and of package strings that the program uses. A Go string is a
-- sequence of bytes; it is written here as `range` reads it, a list of code points, where a byte
-- that belongs to no well-formed UTF-8 sequence stands as `stray` of that byte. Case mapping is
-- exact for the letters whose image is ASCII; other letters are left alone.
pub mod Base64
pub mod Cutting
pub mod Equality
pub mod Atoi
pub mod Trimming
pub mod Itoa
use Prim.Native.Char.{code}
use go_fibe.Base.{
  ℕ, suc, ◌+◌, ◌-◌, ◌*◌, ◌/◌, ◌%◌, String, Bool, true, false, ◌&&◌, ◌||◌, List, [], ◌∷◌, ◌++◌, map,
  ltb, leb, eqb, take, any, all, if◌then◌else◌,
}

abbrev pub GoString : Type 0
GoString = List ℕ

-- A literal of the source.
abbrev pub str : String → GoString
str String.[] = []
str (String.◌∷◌ c s) = code c ∷ str s

infix 50 ◌==◌
unfoldable pub ◌==◌ : GoString → GoString → Bool
[] == [] = true
(a ∷ s) == (b ∷ t) = eqb a b && s == t
_ == _ = false

unfoldable pub is_empty : GoString → Bool
is_empty [] = true
is_empty (_ ∷ _) = false

abbrev pub first_stray : ℕ
first_stray = 0x110000

abbrev pub stray : ℕ → ℕ
stray b = first_stray + b

-- Well-formed UTF-8 holds no stray byte.
unfoldable pub is_utf8 : GoString → Bool
is_utf8 s = all (λ c. ltb c first_stray) s

-- How many bytes a code point takes.
unfoldable pub width : ℕ → ℕ
width c =
    if ltb c 0x80
    then 1
    else if ltb c 0x800
    then 2
    else if ltb c 0x10000
    then 3
    else if ltb c first_stray
    then 4
    else 1

-- The bytes of a code point.
unfoldable pub encode : ℕ → List ℕ
encode c =
    if ltb c 0x80
    then c ∷ []
    else if ltb c 0x800
    then (0xc0 + c / 64) ∷ (0x80 + c % 64) ∷ []
    else if ltb c 0x10000
    then (0xe0 + c / 4096) ∷ (0x80 + c / 64 % 64) ∷ (0x80 + c % 64) ∷ []
    else if ltb c first_stray
    then (0xf0 + c / 262144) ∷ (0x80 + c / 4096 % 64) ∷ (0x80 + c / 64 % 64) ∷ (0x80 + c % 64) ∷ []
    else (c - first_stray) ∷ []

-- len(s)
unfoldable pub len : GoString → ℕ
unfolding width
len [] = 0
len (c ∷ s) = width c + len s

-- s[:n] for n < len(s): a code point that the cut goes through leaves its first bytes.
unfoldable pub slice_to : GoString → ℕ → GoString
unfolding width encode
slice_to [] n = []
slice_to (c ∷ s) n =
    if leb (width c) n then c ∷ slice_to s (n - width c) else map stray (take n (encode c))

-- unicode.IsSpace
unfoldable pub is_space : ℕ → Bool
is_space c =
    leb 9 c && leb c 13
    || eqb c 0x20
    || eqb c 0x85
    || eqb c 0xa0
    || eqb c 0x1680
    || leb 0x2000 c && leb c 0x200a
    || eqb c 0x2028
    || eqb c 0x2029
    || eqb c 0x202f
    || eqb c 0x205f
    || eqb c 0x3000

trim_left : GoString → GoString
trim_left [] = []
trim_left (c ∷ s) = if is_space c then trim_left s else c ∷ s

trim_right : GoString → GoString
trim_right [] = []
trim_right (c ∷ s) = if all is_space (c ∷ s) then [] else c ∷ trim_right s

-- strings.TrimSpace
unfoldable pub trim_space : GoString → GoString
unfolding trim_left trim_right
trim_space s = trim_right (trim_left s)

abbrev pub flush : GoString → List GoString → List GoString
flush [] words = words
flush (c ∷ word) words = (c ∷ word) ∷ words

-- `word` is the word being read.
unfoldable pub fields_from : GoString → GoString → List GoString
fields_from word [] = flush word []
fields_from word (c ∷ s) = elim (is_space c) [
  | true ↦ flush word (fields_from [] s)
  | false ↦ fields_from (word ++ c ∷ []) s
]

-- strings.Fields
unfoldable pub fields : GoString → List GoString
unfolding fields_from
fields s = fields_from [] s

-- strings.Join
unfoldable pub join : List GoString → GoString → GoString
join [] sep = []
join (w ∷ []) sep = w
join (w ∷ v ∷ ws) sep = w ++ (sep ++ join (v ∷ ws) sep)

split_from : ℕ → GoString → GoString → List GoString
split_from sep part [] = part ∷ []
split_from sep part (c ∷ s) = elim (eqb c sep) [
  | true ↦ part ∷ split_from sep [] s
  | false ↦ split_from sep (part ++ c ∷ []) s
]

-- strings.Split by a separator of one ASCII character
unfoldable pub split : GoString → ℕ → List GoString
unfolding split_from
split s sep = split_from sep [] s

-- strings.ReplaceAll of one ASCII character by another
unfoldable pub replace_all : GoString → ℕ → ℕ → GoString
replace_all s old new = map (λ c. if eqb c old then new else c) s

lower : ℕ → ℕ
lower c =
    if leb b'A' c && leb c b'Z'
    then c + 32
    else if eqb c 0x130
    then b'i'
    else if eqb c 0x212a
    then b'k'
    else if leb first_stray c
    then 0xfffd
    else c

-- strings.ToLower
unfoldable pub to_lower : GoString → GoString
unfolding lower
to_lower s = map lower s

upper : ℕ → ℕ
upper c =
    if leb b'a' c && leb c b'z'
    then c - 32
    else if eqb c 0x131
    then b'I'
    else if eqb c 0x17f
    then b'S'
    else if leb first_stray c
    then 0xfffd
    else c

-- strings.ToUpper
unfoldable pub to_upper : GoString → GoString
unfolding upper
to_upper s = map upper s

fold : ℕ → ℕ
fold c =
    if leb b'A' c && leb c b'Z'
    then c + 32
    else if eqb c 0x17f
    then b's'
    else if eqb c 0x212a
    then b'k'
    else if leb first_stray c
    then 0xfffd
    else c

-- strings.EqualFold
unfoldable pub equal_fold : GoString → GoString → Bool
unfolding fold ◌==◌
equal_fold s t = map fold s == map fold t

-- strings.HasPrefix
unfoldable pub has_prefix : GoString → GoString → Bool
has_prefix s [] = true
has_prefix [] (_ ∷ _) = false
has_prefix (c ∷ s) (p ∷ ps) = eqb c p && has_prefix s ps

-- strings.HasSuffix
unfoldable pub has_suffix : GoString → GoString → Bool
unfolding ◌==◌
has_suffix [] t = [] == t
has_suffix (c ∷ s) t = (c ∷ s) == t || has_suffix s t

-- strings.Contains of one ASCII character
unfoldable pub contains : GoString → ℕ → Bool
contains s c = any (eqb c) s

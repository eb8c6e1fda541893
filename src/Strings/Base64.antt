-- ===== src/Strings/Base64.antt =====
-- base64.RawURLEncoding of package encoding/base64.
use go_fibe.Base.{ℕ, ◌+◌, ◌-◌, ◌*◌, ◌/◌, ◌%◌, List, [], ◌∷◌, ltb, eqb, if◌then◌else◌}
use go_fibe.Strings.{GoString}

-- The character of six bits.
unfoldable pub digit : ℕ → ℕ
digit v =
    if ltb v 26
    then b'A' + v
    else if ltb v 52
    then b'a' + (v - 26)
    else if ltb v 62
    then b'0' + (v - 52)
    else if eqb v 62
    then b'-'
    else b'_'

-- Three bytes to four characters; what is left over is not padded.
unfoldable pub raw_url_encode : List ℕ → GoString
unfolding digit
raw_url_encode [] = []
raw_url_encode (a ∷ []) = digit (a / 4) ∷ digit (a % 4 * 16) ∷ []
raw_url_encode (a ∷ b ∷ []) = digit (a / 4) ∷ digit (a % 4 * 16 + b / 16) ∷ digit (b % 16 * 4) ∷ []
raw_url_encode (a ∷ b ∷ c ∷ rest) =
    digit (a / 4)
    ∷ digit (a % 4 * 16 + b / 16)
    ∷ digit (b % 16 * 4 + c / 64)
    ∷ digit (c % 64)
    ∷ raw_url_encode rest

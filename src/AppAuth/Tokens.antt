-- ===== src/AppAuth/Tokens.antt =====
-- The tokens and the Redis keys of the sessions of internal/appauth/auth.go.
use go_fibe.Base.{ℕ, suc, ◌+◌, ◌*◌, ◌/◌, ◌%◌, ◌^◌, Option, none, some, List, [], ◌∷◌, ◌++◌}
use go_fibe.Strings.{GoString, str, encode}
use go_fibe.Strings.Base64.{raw_url_encode}

-- The exclusive or of the last `width` bits.
pub xor_bits : ℕ → ℕ → ℕ → ℕ
xor_bits ℕ.zero a b = 0
xor_bits (suc width) a b = (a % 2 + b % 2) % 2 + 2 * xor_bits width (a / 2) (b / 2)

-- hash ^= uint64(b); hash *= 1099511628211
unfoldable pub fnv_step : ℕ → ℕ → ℕ
unfolding xor_bits
fnv_step hash b = (hash / 256 * 256 + xor_bits 8 (hash % 256) b) * 1099511628211 % 2 ^ 64

abbrev pub fold_bytes : ℕ → List ℕ → ℕ
fold_bytes hash [] = hash
fold_bytes hash (b ∷ bytes) = fold_bytes (fnv_step hash b) bytes

-- []byte(secret)
abbrev pub bytes_of : GoString → List ℕ
bytes_of [] = []
bytes_of (c ∷ s) = encode c ++ bytes_of s

-- The eight bytes of a 64-bit number, the highest first.
abbrev pub bytes_of_hash : ℕ → List ℕ
bytes_of_hash h =
    h / 2 ^ 56 % 256
    ∷ h / 2 ^ 48 % 256
    ∷ h / 2 ^ 40 % 256
    ∷ h / 2 ^ 32 % 256
    ∷ h / 2 ^ 24 % 256
    ∷ h / 2 ^ 16 % 256
    ∷ h / 2 ^ 8 % 256
    ∷ h % 256
    ∷ []

unfoldable pub stable_secret_fingerprint : GoString → GoString
stable_secret_fingerprint secret =
    raw_url_encode (bytes_of_hash (fold_bytes 14695981039346656037 (bytes_of secret)))

unfoldable pub session_key : GoString → GoString → GoString
session_key secret token =
    str "session:" ++ (stable_secret_fingerprint secret ++ (str ":" ++ token))

-- Of the outcome of rand.Read on 32 bytes.
unfoldable pub new_session_token : Option (List ℕ) → Option GoString
new_session_token none = none
new_session_token (some raw) = some (raw_url_encode raw)

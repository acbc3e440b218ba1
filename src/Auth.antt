-- ===== src/Auth.antt =====
-- apps/api/internal/auth/auth.go: the bearer tokens. SHA-256 is a parameter, and so are the random
-- bytes; the encoding in hexadecimal is that of Go's encoding/hex.
pub mod RoundTrip
use proxydock.Prelude.{
  Bool, List, Text, [], codes, false, if◌then◌else◌, inl, inr, leb, length, ltb, nat_eq, none, not,
  some, text_eq, true, ℕ, ◌%◌, ◌&&◌, ◌++◌, ◌+◌, ◌/◌, ◌==◌, ◌||◌, ◌∷◌, ◌⊎◌,
}
use proxydock.Prelude.Strings.{byte_length, cut, drop, has_prefix}

unfoldable pub hex_digit : ℕ → ℕ
hex_digit n = if ltb n 10 then 48 + n else 87 + n

unfoldable pub hex_encode : List ℕ → Text
unfolding hex_digit
hex_encode [] = []
hex_encode (b ∷ bs) = hex_digit (b / 16) ∷ hex_digit (b % 16) ∷ hex_encode bs

unfoldable pub is_hex : ℕ → Bool
is_hex c = (leb 48 c && leb c 57) || (leb 97 c && leb c 102) || (leb 65 c && leb c 70)

-- `hex.DecodeString` gives no error.
unfoldable pub hex_valid : Text → Bool
unfolding is_hex
hex_valid [] = true
hex_valid (c ∷ []) = false
hex_valid (c ∷ d ∷ s) = is_hex c && is_hex d && hex_valid s

abbrev pub token_prefix_len : ℕ
token_prefix_len = 8

abbrev pub token_secret_len : ℕ
token_secret_len = 32

abbrev pub token_scheme : Text
token_scheme = codes "tfm_"

pub data AuthError : Type 0 where
  bad_scheme malformed bad_length prefix_not_hex secret_not_hex : AuthError

pub record Minted : Type 0 where
  pub token : Text
  pub prefix : Text
  pub secret_hash : List ℕ

-- From the random bytes for the prefix and for the secret.
unfoldable pub mint_bearer : (Text → List ℕ) → List ℕ → List ℕ → Minted
unfolding hex_encode
mint_bearer sha256 prefix_bytes secret_bytes =
    let prefix = hex_encode prefix_bytes in
    let secret = hex_encode secret_bytes in
    record {
      token = token_scheme ++ (prefix ++ (b'_' ∷ secret));
      prefix = prefix;
      secret_hash = sha256 secret;
    }

unfoldable pub parse_rest : Text → AuthError ⊎ (Text × Text)
unfolding hex_valid byte_length
parse_rest rest = elim (cut b'_' rest) [
  | none ↦ inl malformed
  | some (prefix, secret) ↦
      if not (byte_length prefix == token_prefix_len)
        || not (byte_length secret == token_secret_len)
      then inl bad_length
      else if not (hex_valid prefix)
      then inl prefix_not_hex
      else if not (hex_valid secret)
      then inl secret_not_hex
      else inr (prefix, secret)
]

unfoldable pub parse_bearer : Text → AuthError ⊎ (Text × Text)
unfolding parse_rest drop
parse_bearer token =
    if not (has_prefix token token_scheme)
    then inl bad_scheme
    else parse_rest (drop (length token_scheme) token)

unfoldable pub verify_secret : (Text → List ℕ) → Text → List ℕ → Bool
verify_secret sha256 secret expected_hash = sha256 secret == expected_hash

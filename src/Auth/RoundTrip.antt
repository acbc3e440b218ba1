-- ===== src/Auth/RoundTrip.antt =====
-- apps/api/internal/auth/auth.go: a minted token is read back.
use proxydock.Auth.{
  hex_digit, hex_encode, hex_valid, is_hex, mint_bearer, parse_bearer, parse_rest, token_prefix_len,
  token_scheme, token_secret_len, verify_secret,
}
use proxydock.Prelude.{
  ==_iff, ==_refl, All, List, Text, [], ap, arith, false, inr, length, ltb, nat_eq, refl, some,
  text_eq, true, ℕ, ◌%◌, ◌*◌, ◌++◌, ◌/◌, ◌<◌, ◌==◌, ◌∙◌, ◌∷◌, ◌≡◌,
}
use proxydock.Prelude.Strings.{byte_length, cut, drop, has_prefix}

abbrev pub Bytes : List ℕ → Type 0
Bytes bs = All (λ b. b < 256) bs

hex_digit_facts :
    (n : ℕ)
    → n < 16
    → (is_hex (hex_digit n) ≡ true)
      × (ltb (hex_digit n) 0x80 ≡ true)
      × ((hex_digit n == b'_') ≡ false)
unfolding hex_digit is_hex
hex_digit_facts n h = ground arith

hex_encode_valid : (bs : List ℕ) → Bytes bs → hex_valid (hex_encode bs) ≡ true
unfolding hex_encode hex_valid
hex_encode_valid [] h = refl
hex_encode_valid (b ∷ bs) (h, hs) =
    let (x, _, _) = hex_digit_facts (b / 16) (omega arith) in
    let (y, _, _) = hex_digit_facts (b % 16) (omega arith) in
    let rest = hex_encode_valid bs hs in ground arith

byte_length-hex_encode : (bs : List ℕ) → Bytes bs → byte_length (hex_encode bs) ≡ length bs * 2
unfolding hex_encode byte_length
byte_length-hex_encode [] h = refl
byte_length-hex_encode (b ∷ bs) (h, hs) =
    let (_, x, _) = hex_digit_facts (b / 16) (omega arith) in
    let (_, y, _) = hex_digit_facts (b % 16) (omega arith) in
    let rest = byte_length-hex_encode bs hs in ground arith

cut-hex_encode :
    (bs : List ℕ) (s : Text)
    → Bytes bs
    → cut b'_' (hex_encode bs ++ (b'_' ∷ s)) ≡ some (hex_encode bs, s)
unfolding hex_encode cut
cut-hex_encode [] s h = refl
cut-hex_encode (b ∷ bs) s (h, hs) =
    let (_, _, x) = hex_digit_facts (b / 16) (omega arith) in
    let (_, _, y) = hex_digit_facts (b % 16) (omega arith) in
    let rest = cut-hex_encode bs s hs in ground arith

scheme-drop : (t : Text) → parse_bearer (token_scheme ++ t) ≡ parse_rest t
unfolding parse_bearer has_prefix drop
scheme-drop t = refl

parse_rest-inr :
    (rest prefix secret : Text)
    → cut b'_' rest ≡ some (prefix, secret)
    → (byte_length prefix == token_prefix_len) ≡ true
    → (byte_length secret == token_secret_len) ≡ true
    → hex_valid prefix ≡ true
    → hex_valid secret ≡ true
    → parse_rest rest ≡ inr (prefix, secret)
unfolding parse_rest
parse_rest-inr rest prefix secret c a b pv sv = ground arith

has_length :
    (bs : List ℕ) (n : ℕ) → Bytes bs → length bs ≡ n → (byte_length (hex_encode bs) == n * 2) ≡ true
has_length bs n h l = (==_iff _ _).1 (byte_length-hex_encode bs h ∙ ap (λ k. k * 2) l)

-- A token that is minted from four random bytes for the prefix and sixteen for the secret parses to
-- its prefix and the secret in hexadecimal, and that secret verifies against the stored hash.
pub parse_bearer-mint_bearer :
    (sha256 : Text → List ℕ) (prefix secret : List ℕ)
    → Bytes prefix
    → Bytes secret
    → length prefix ≡ 4
    → length secret ≡ 16
    → (parse_bearer (mint_bearer sha256 prefix secret).token
        ≡ inr ((mint_bearer sha256 prefix secret).prefix, hex_encode secret))
      × (verify_secret sha256 (hex_encode secret) (mint_bearer sha256 prefix secret).secret_hash
          ≡ true)
unfolding mint_bearer verify_secret
parse_bearer-mint_bearer sha256 prefix secret p s pl sl = (
  scheme-drop (hex_encode prefix ++ (b'_' ∷ hex_encode secret))
      ∙ parse_rest-inr _ (hex_encode prefix) (hex_encode secret)
          (cut-hex_encode prefix (hex_encode secret) p) (has_length prefix 4 p pl)
          (has_length secret 16 s sl) (hex_encode_valid prefix p) (hex_encode_valid secret s),
  ==_refl (sha256 (hex_encode secret)),
)

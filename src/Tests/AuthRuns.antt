-- ===== src/Tests/AuthRuns.antt =====
-- Bearer tokens (apps/api/internal/auth/auth.go) at work.
use proxydock.Auth.{
  bad_length, hex_digit, hex_encode, mint_bearer, parse_bearer, parse_rest, verify_secret,
}
use proxydock.Auth.RoundTrip.{parse_bearer-mint_bearer}
use proxydock.Prelude.{List, [], arith, codes, inl, inr, refl, true, ℕ, ◌∷◌, ◌≡◌}
use proxydock.Prelude.Strings.{byte_length, cut, drop, has_prefix}

abbrev prefix_bytes : List ℕ
prefix_bytes = 0 ∷ 171 ∷ 16 ∷ 255 ∷ []

abbrev secret_bytes : List ℕ
secret_bytes = 1 ∷ 2 ∷ 3 ∷ 4 ∷ 5 ∷ 6 ∷ 7 ∷ 8 ∷ 9 ∷ 10 ∷ 11 ∷ 12 ∷ 13 ∷ 14 ∷ 15 ∷ 16 ∷ []

parse_short : parse_bearer (codes "tfm_00_11") ≡ inl bad_length
unfolding parse_bearer parse_rest has_prefix drop cut byte_length
parse_short = refl

mint_prefix : (mint_bearer (λ t. t) prefix_bytes secret_bytes).prefix ≡ codes "00ab10ff"
unfolding mint_bearer hex_encode hex_digit
mint_prefix = refl

parse_bearer-mint_bearer_example :
    (parse_bearer (mint_bearer (λ t. t) prefix_bytes secret_bytes).token
      ≡ inr ((mint_bearer (λ t. t) prefix_bytes secret_bytes).prefix, hex_encode secret_bytes))
    × (verify_secret
          (λ t. t)
          (hex_encode secret_bytes)
          (mint_bearer (λ t. t) prefix_bytes secret_bytes).secret_hash
        ≡ true)
parse_bearer-mint_bearer_example =
    parse_bearer-mint_bearer (λ t. t) prefix_bytes secret_bytes (omega arith) (omega arith) refl
      refl

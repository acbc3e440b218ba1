-- ===== src/Compiler/Names.antt =====
-- apps/api/internal/compiler/compiler.go: the names of routers and middlewares, the entry points and
-- the check of a domain.
use proxydock.Labels.{label}
use proxydock.Prelude.{
  Bool, List, Option, Text, [], all, any, codes, false, if◌then◌else◌, items, leb, ltb, map, nat_eq,
  not, suc, text_eq, zero, ℕ, ◌%◌, ◌&&◌, ◌++◌, ◌+◌, ◌/◌, ◌==◌, ◌||◌, ◌∷◌,
}
use proxydock.Prelude.Strings.{byte_length, split, trim_space}

-- `%d` of a number that is not negative.
unfoldable pub decimal_within : ℕ → ℕ → Text
decimal_within zero n = []
decimal_within (suc fuel) n =
    let more = decimal_within fuel (n / 10) in
    if ltb n 10 then (48 + n) ∷ [] else more ++ ((48 + n % 10) ∷ [])

unfoldable pub decimal : ℕ → Text
unfolding decimal_within
decimal n = decimal_within (suc n) n

unfoldable pub is_alphanumeric : ℕ → Bool
is_alphanumeric r =
    (leb b'0' r && leb r b'9') || (leb b'a' r && leb r b'z') || (leb b'A' r && leb r b'Z')

unfoldable pub sanitize_rune : ℕ → ℕ
unfolding is_alphanumeric
sanitize_rune r = if r == b'-' || r == b'_' then r else if is_alphanumeric r then r else b'-'

unfoldable pub sanitize_name : Text → Text
unfolding sanitize_rune
sanitize_name s = map sanitize_rune s

-- `%s-%d-%s`, the name of the middleware at an index.
unfoldable pub middleware_name : Text → ℕ → Text → Text
unfolding sanitize_name decimal
middleware_name router i name = router ++ (b'-' ∷ (decimal i ++ (b'-' ∷ sanitize_name name)))

unfoldable pub is_label : Text → Bool
unfolding is_alphanumeric
is_label label = not (label == []) && all (λ r. r == b'-' || is_alphanumeric r) label

unfoldable pub looks_like_domain : Text → Bool
unfolding is_label
looks_like_domain raw =
    let s = trim_space raw in
    if s == [] || ltb 253 (byte_length s)
    then false
    else if any (λ r. r == b' ' || r == b'/' || r == b'\\') s
    then false
    else all is_label (split b'.' s)

unfoldable pub entry_points_or : Text → Option (List Text) → List Text
entry_points_or d ep = elim (items ep) [ [] ↦ d ∷ [] | e ∷ es ↦ e ∷ es ]

unfoldable pub or_web : Option (List Text) → List Text
unfolding entry_points_or
or_web ep = entry_points_or (codes "web") ep

unfoldable pub or_websecure : Option (List Text) → List Text
unfolding entry_points_or
or_websecure ep = entry_points_or (codes "websecure") ep

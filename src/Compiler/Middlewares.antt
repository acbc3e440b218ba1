-- ===== src/Compiler/Middlewares.antt =====
-- apps/api/internal/compiler/compiler.go: how a middleware is rendered, and the checks on a list of
-- middlewares. `fmt.Sprint` is an argument.
use mathlib.Core.Option
use proxydock.Model.{Middleware}
use proxydock.Model.Value.{
  Any, Anys, arr, cons, end, field, fields, int, negsuc, nil, null, num, obj, pos, str, strs, ℤ,
}
use proxydock.Prelude.{
  Bool, List, Option, Text, [], any, codes, false, if◌then◌else◌, inl, inr, length, ltb, map,
  nat_eq, none, not, some, text_eq, true, ◌&&◌, ◌==◌, ◌^◌, ◌∷◌, ◌⊎◌,
}
use proxydock.Prelude.GoMap.{GoMap, get, put}
use proxydock.Prelude.Strings.{trim_space}

-- supportedMiddlewareTypes, which are also the cases of renderMiddleware.
pub data Kind : Type 0 where
  headers redirect_scheme strip_prefix basic_auth forward_auth rate_limit : Kind
  ip_allow_list retry compress circuit_breaker chain : Kind

abbrev pub kinds : List (Text × Kind)
kinds =
    (codes "headers", headers)
    ∷ (codes "redirectScheme", redirect_scheme)
    ∷ (codes "stripPrefix", strip_prefix)
    ∷ (codes "basicAuth", basic_auth)
    ∷ (codes "forwardAuth", forward_auth)
    ∷ (codes "rateLimit", rate_limit)
    ∷ (codes "ipAllowList", ip_allow_list)
    ∷ (codes "retry", retry)
    ∷ (codes "compress", compress)
    ∷ (codes "circuitBreaker", circuit_breaker)
    ∷ (codes "chain", chain)
    ∷ []

unfoldable pub kind_of : Text → Option Kind
kind_of kind = get kind kinds

unfoldable pub is_chain : Text → Bool
unfolding kind_of
is_chain kind = elim (kind_of kind) [ none ↦ false | some k ↦ elim k [ chain ↦ true | _ ↦ false ] ]

pub data RenderError : Type 0 where
  unsupported_type not_positive : RenderError
  missing not_strings no_element : Text → RenderError
  unknown_middleware : Text → RenderError

-- A Go int64 has a value in this range.
unfoldable pub int_range : ℤ → Bool
int_range (pos n) = ltb n (2 ^ 63)
int_range (negsuc n) = ltb n (2 ^ 63)

unfoldable pub to_int : Any → Option ℤ
unfolding int_range
to_int (num z) = if int_range z then some z else none
to_int (int z) = some z
to_int _ = none

unfoldable pub strings_of : Anys → Option (List Text)
strings_of nil = some []
strings_of (cons (str s) vs) = Option.map (λ ss. s ∷ ss) (strings_of vs)
strings_of (cons _ vs) = none

unfoldable pub to_string_slice : Any → Option (List Text)
unfolding strings_of
to_string_slice (arr vs) = strings_of vs
to_string_slice (strs ss) = some ss
to_string_slice _ = none

-- `m[key].(string)`, which is empty if it fails.
unfoldable pub string_of : Option Any → Text
string_of (some (str s)) = s
string_of _ = []

-- A `map[string]any`; a nil one has no entries and is `null` in JSON.
unfoldable pub config_value : Option (GoMap Text Any) → Any
unfolding fields
config_value none = null
config_value (some m) = obj (fields m)

abbrev pub entries : Option (GoMap Text Any) → GoMap Text Any
entries none = []
entries (some m) = m

abbrev pub single : Text → Any → Any
single k v = obj (field k v end)

-- `{outer: {inner: strings}}`, from the list under the key `inner` of the config.
unfoldable pub render_strings : Bool → Text → Text → GoMap Text Any → RenderError ⊎ Any
unfolding to_string_slice
render_strings allow_empty outer inner config = elim (get inner config) [
  | none ↦ inl (missing inner)
  | some v ↦ elim (to_string_slice v) [
    | none ↦ inl (not_strings inner)
    | some ss ↦
        if not allow_empty && length ss == 0
        then inl (no_element inner)
        else inr (single outer (single inner (strs ss)))
  ]
]

unfoldable pub put_if : Option Any → Text → GoMap Text Any → GoMap Text Any
put_if none k m = m
put_if (some v) k m = put k v m

unfoldable pub redirect_body : (Any → Text) → GoMap Text Any → GoMap Text Any
unfolding put_if string_of
redirect_body sprint config =
    let scheme = string_of (get (codes "scheme") config) in
    let body = (codes "scheme", str (if scheme == [] then codes "https" else scheme)) ∷ [] in
    put_if (Option.map (λ v. str (sprint v)) (get (codes "port") config)) (codes "port")
      (put_if (get (codes "permanent") config) (codes "permanent") body)

unfoldable pub is_positive : ℤ → Bool
is_positive (pos n) = ltb 0 n
is_positive (negsuc n) = false

unfoldable pub retry_body : ℤ → GoMap Text Any → GoMap Text Any
unfolding string_of
retry_body attempts config =
    let interval = string_of (get (codes "initialInterval") config) in
    let body = (codes "attempts", int attempts) ∷ [] in
    if interval == [] then body else put (codes "initialInterval") (str interval) body

-- The value of `mw.Config["attempts"]`; a missing one is nil, which is no number.
unfoldable pub attempts_of : GoMap Text Any → Option ℤ
unfolding to_int
attempts_of config = elim (get (codes "attempts") config) [ none ↦ none | some v ↦ to_int v ]

unfoldable pub has_key : Text → GoMap Text Any → Bool
has_key k m = elim (get k m) [ none ↦ false | some _ ↦ true ]

unfoldable pub render_kind : (Any → Text) → Kind → Option (GoMap Text Any) → RenderError ⊎ Any
unfolding config_value redirect_body render_strings retry_body attempts_of is_positive has_key
    fields
render_kind sprint headers c = inr (single (codes "headers") (config_value c))
render_kind sprint redirect_scheme c =
    inr (single (codes "redirectScheme") (obj (fields (redirect_body sprint (entries c)))))
render_kind sprint strip_prefix c =
    render_strings true (codes "stripPrefix") (codes "prefixes") (entries c)
render_kind sprint basic_auth c =
    render_strings true (codes "basicAuth") (codes "users") (entries c)
render_kind sprint forward_auth c =
    if trim_space (string_of (get (codes "address") (entries c))) == []
    then inl (missing (codes "address"))
    else inr (single (codes "forwardAuth") (config_value c))
render_kind sprint rate_limit c =
    if not (has_key (codes "average") (entries c)) && not (has_key (codes "burst") (entries c))
    then inl (missing (codes "average"))
    else inr (single (codes "rateLimit") (config_value c))
render_kind sprint ip_allow_list c =
    render_strings false (codes "ipAllowList") (codes "sourceRange") (entries c)
render_kind sprint retry c = elim (attempts_of (entries c)) [
  | none ↦ inl not_positive
  | some n ↦
      if is_positive n
      then inr (single (codes "retry") (obj (fields (retry_body n (entries c)))))
      else inl not_positive
]
render_kind sprint compress c = inr (single (codes "compress") (config_value c))
render_kind sprint circuit_breaker c =
    let expression = string_of (get (codes "expression") (entries c)) in
    if trim_space expression == []
    then inl (missing (codes "expression"))
    else inr (single (codes "circuitBreaker") (single (codes "expression") (str expression)))
render_kind sprint chain c = render_strings false (codes "chain") (codes "middlewares") (entries c)

unfoldable pub render_middleware : (Any → Text) → Middleware → RenderError ⊎ Any
unfolding kind_of render_kind
render_middleware sprint mw = elim (kind_of mw.kind) [
  | none ↦ inl unsupported_type
  | some k ↦ render_kind sprint k mw.config
]

-- The names that a chain lists; what is no list of strings counts as empty.
unfoldable pub chain_refs : Middleware → List Text
unfolding to_string_slice
chain_refs mw = elim (get (codes "middlewares") (entries mw.config)) [
  | none ↦ []
  | some v ↦ elim (to_string_slice v) [ none ↦ [] | some ss ↦ ss ]
]

-- The first loop of ValidateMiddlewares.
unfoldable pub first_bad : (Any → Text) → List Middleware → Option RenderError
unfolding render_middleware
first_bad sprint [] = none
first_bad sprint (mw ∷ mws) = elim (render_middleware sprint mw) [
  | inl e ↦ some e
  | inr _ ↦ first_bad sprint mws
]

-- The first reference that names no middleware of the list.
unfoldable pub first_unknown : List Text → List Text → Option RenderError
first_unknown seen [] = none
first_unknown seen (ref ∷ refs) =
    let rest = first_unknown seen refs in
    if any (λ n. n == ref) seen then rest else some (unknown_middleware ref)

unfoldable pub first_dangling : List Text → List Middleware → Option RenderError
unfolding is_chain chain_refs first_unknown
first_dangling seen [] = none
first_dangling seen (mw ∷ mws) =
    let rest = first_dangling seen mws in
    if not (is_chain mw.kind)
    then rest
    else elim (first_unknown seen (chain_refs mw)) [ some e ↦ some e | none ↦ rest ]

unfoldable pub validate_middlewares : (Any → Text) → List Middleware → Option RenderError
unfolding first_bad first_dangling
validate_middlewares sprint mws = elim (first_bad sprint mws) [
  | some e ↦ some e
  | none ↦ first_dangling (map (λ mw. mw.name) mws) mws
]

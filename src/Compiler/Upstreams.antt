-- ===== src/Compiler/Upstreams.antt =====
-- apps/api/internal/compiler/compiler.go: the upstreams of a host, and their checks. `url.Parse` is an
-- argument, which gives the scheme and the host.
use proxydock.Model.{ProxyHost}
use proxydock.Prelude.{
  Bool, List, Option, Text, [], any, codes, false, if◌then◌else◌, items, keep, leb, length, nat_eq,
  none, not, some, text_eq, ℕ, ◌&&◌, ◌*◌, ◌+◌, ◌-◌, ◌==◌, ◌||◌, ◌∷◌,
}
use proxydock.Prelude.Strings.{contains, cut, drop, has_prefix, trim_space}

unfoldable pub trim_prefix : Text → Text → Text
trim_prefix p s = if has_prefix s p then drop (length p) s else s

-- The first of the two schemes that fits is cut off.
unfoldable pub tcp_address : Text → Text
unfolding trim_prefix
tcp_address s =
    if has_prefix s (codes "tcp://")
    then trim_prefix (codes "tcp://") s
    else trim_prefix (codes "udp://") s

unfoldable pub effective_upstream_urls : ProxyHost → List Text
effective_upstream_urls h = elim (keep (λ u. not (trim_space u == [])) (items h.upstream_urls)) [
  | u ∷ us ↦ u ∷ us
  | [] ↦ if trim_space h.upstream_url == [] then [] else h.upstream_url ∷ []
]

pub data UpstreamError : Type 0 where
  required no_parse bad_scheme not_host_port missing_host missing_port bad_port : UpstreamError

unfoldable pub check_upstream : (Text → Option (Text × Text)) → Text → Option UpstreamError
check_upstream parse_url s = if trim_space s == [] then some required else elim (parse_url s) [
  | none ↦ some no_parse
  | some (scheme, host) ↦
      if not (scheme == codes "http") && not (scheme == codes "https")
      then some bad_scheme
      else if host == []
      then some missing_host
      else none
]

-- `net.SplitHostPort`. What stands before the last colon, and what stands behind it.
unfoldable pub cut_last : ℕ → Text → Option (Text × Text)
cut_last sep [] = none
cut_last sep (c ∷ s) = elim (cut_last sep s) [
  | some (a, b) ↦ some (c ∷ a, b)
  | none ↦ if c == sep then some ([], s) else none
]

unfoldable pub split_host_port : Text → Option (Text × Text)
unfolding cut_last
split_host_port [] = none
split_host_port (c ∷ s) = elim (cut_last b':' (c ∷ s)) [
  | none ↦ none
  | some (before, port) ↦
      if c == b'['
      then elim (cut b']' s) [
        | none ↦ none
        | some (host, rest) ↦
            if not (rest == b':' ∷ port)
              || any (λ r. r == b'[') host
              || any (λ r. r == b'[' || r == b']') port
            then none
            else some (host, port)
      ]
      else if any (λ r. r == b':') before || any (λ r. r == b'[' || r == b']') (c ∷ s)
      then none
      else some (before, port)
]

-- The value of decimal digits; `none` if another character stands there.
unfoldable pub digits_from : ℕ → Text → Option ℕ
digits_from n [] = some n
digits_from n (c ∷ s) = if leb b'0' c && leb c b'9' then digits_from (n * 10 + (c - 48)) s else none

-- `strconv.Atoi` gives a number from 1 to 65535. A minus sign gives none that is so large.
unfoldable pub is_port : Text → Bool
unfolding digits_from
is_port port =
    let digits = trim_prefix (b'+' ∷ []) port in
    not (digits == [])
    && elim (digits_from 0 digits) [ none ↦ false | some n ↦ leb 1 n && leb n 65535 ]

unfoldable pub check_tcp_upstream : Text → Option UpstreamError
unfolding is_port split_host_port tcp_address
check_tcp_upstream raw =
    let s = tcp_address (trim_space raw) in
    if trim_space raw == []
    then some required
    else if contains (codes "://") s
    then some not_host_port
    else elim (split_host_port s) [
      | none ↦ some not_host_port
      | some (host, port) ↦
          if host == []
          then some missing_host
          else if port == []
          then some missing_port
          else if is_port port
          then none
          else some bad_port
    ]

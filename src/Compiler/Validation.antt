-- ===== src/Compiler/Validation.antt =====
-- apps/api/internal/compiler/compiler.go: Validate, which collects the faults of all hosts.
use proxydock.Compiler.Middlewares.{kind_of}
use proxydock.Compiler.Names.{looks_like_domain}
use proxydock.Compiler.Upstreams.{
  UpstreamError, check_tcp_upstream, check_upstream, effective_upstream_urls,
}
use proxydock.Model.{Middleware, ProxyHost}
use proxydock.Prelude.{
  Bool, List, Option, Text, [], codes, false, if◌then◌else◌, items, length, nat_eq, none, not, some,
  text_eq, true, ◌&&◌, ◌++◌, ◌==◌, ◌||◌, ◌∷◌,
}
use proxydock.Prelude.GoMap.{GoMap, get, put}
use proxydock.Prelude.Strings.{has_prefix, trim_space}

pub data HostError : Type 0 where
  empty_name duplicate_name unsupported_protocol : HostError
  invalid_domain domain_used no_upstream mixed_schemes bad_middleware : HostError
  bad_upstream : Text → UpstreamError → HostError
  middlewares_here no_entry_point entry_point_used tls_here : HostError

-- What the loop has seen: the names, and for each protocol who uses a domain or an entry point.
pub record Seen : Type 0 where
  pub names : GoMap Text (Unit {0})
  pub http_domains : GoMap Text Text
  pub tcp_domains : GoMap Text Text
  pub udp_entry_points : GoMap Text Text

abbrev pub unseen : Seen
unseen = record { names = []; http_domains = []; tcp_domains = []; udp_entry_points = [] }

-- A fault, if the test says so.
abbrev pub fault : Bool → HostError → List HostError
fault true e = e ∷ []
fault false e = []

abbrev pub is_some {ℓ} : {A : Type ℓ} → Option A → Bool
is_some none = false
is_some (some _) = true

-- `if other, ok := seen[k]; !ok { seen[k] = name }`
unfoldable pub note_use : Text → Text → GoMap Text Text → GoMap Text Text
note_use k name m = if is_some (get k m) then m else put k name m

unfoldable pub scheme_of : Text → Text
scheme_of u = if has_prefix u (codes "https://") then codes "https" else codes "http"

-- The loop over the upstreams of an HTTP host, with the scheme so far. Two schemes end it.
unfoldable pub http_upstream_errors :
    (Text → Option (Text × Text)) → Text → List Text → List HostError
unfolding check_upstream scheme_of
http_upstream_errors parse_url scheme [] = []
http_upstream_errors parse_url scheme (u ∷ us) = elim (check_upstream parse_url u) [
  | some e ↦ bad_upstream u e ∷ http_upstream_errors parse_url scheme us
  | none ↦
      let rest = http_upstream_errors parse_url (scheme_of u) us in
      if scheme == [] || scheme == scheme_of u then rest else mixed_schemes ∷ []
]

unfoldable pub tcp_upstream_errors : List Text → List HostError
unfolding check_tcp_upstream
tcp_upstream_errors [] = []
tcp_upstream_errors (u ∷ us) = elim (check_tcp_upstream u) [
  | some e ↦ bad_upstream u e ∷ tcp_upstream_errors us
  | none ↦ tcp_upstream_errors us
]

unfoldable pub middleware_errors : List Middleware → List HostError
unfolding kind_of
middleware_errors [] = []
middleware_errors (mw ∷ mws) =
    fault (not (is_some (kind_of mw.kind))) bad_middleware ++ middleware_errors mws

unfoldable pub entry_point_errors :
    Text → List Text → GoMap Text Text → List HostError × GoMap Text Text
unfolding note_use
entry_point_errors name [] m = ([], m)
entry_point_errors name (ep ∷ eps) m =
    let rest = entry_point_errors name eps (note_use ep name m) in
    (fault (is_some (get ep m)) entry_point_used ++ rest.0, rest.1)

unfoldable pub validate_http :
    (Text → Option (Text × Text)) → ProxyHost → GoMap Text Text → List HostError × GoMap Text Text
unfolding note_use http_upstream_errors middleware_errors effective_upstream_urls
validate_http parse_url h domains =
    let urls = effective_upstream_urls h in
    (
      fault (not (looks_like_domain h.domain)) invalid_domain
          ++ (fault (is_some (get h.domain domains)) domain_used
              ++ (fault (length urls == 0) no_upstream
                  ++ (http_upstream_errors parse_url [] urls
                      ++ middleware_errors (items h.middlewares)))),
      note_use h.domain h.name domains,
    )

unfoldable pub validate_tcp : ProxyHost → GoMap Text Text → List HostError × GoMap Text Text
unfolding note_use tcp_upstream_errors effective_upstream_urls
validate_tcp h domains =
    let urls = effective_upstream_urls h in
    (
      fault (not (h.domain == codes "*") && not (looks_like_domain h.domain)) invalid_domain
          ++ (fault (is_some (get h.domain domains)) domain_used
              ++ (fault (length urls == 0) no_upstream
                  ++ (tcp_upstream_errors urls
                      ++ fault (not (length (items h.middlewares) == 0)) middlewares_here))),
      note_use h.domain h.name domains,
    )

unfoldable pub validate_udp : ProxyHost → GoMap Text Text → List HostError × GoMap Text Text
unfolding entry_point_errors tcp_upstream_errors effective_upstream_urls
validate_udp h entry_points =
    let urls = effective_upstream_urls h in
    let eps = entry_point_errors h.name (items h.entry_points) entry_points in
    (
      fault (length (items h.entry_points) == 0) no_entry_point
          ++ (eps.0
              ++ (fault (length urls == 0) no_upstream
                  ++ (tcp_upstream_errors urls
                      ++ (fault h.tls tls_here
                          ++ fault (not (length (items h.middlewares) == 0)) middlewares_here)))),
      eps.1,
    )

-- The protocol of a host; an empty one is http.
pub data Protocol : Type 0 where
  http tcp udp : Protocol

unfoldable pub protocol_of : ProxyHost → Option Protocol
protocol_of h =
    if h.protocol == [] || h.protocol == codes "http"
    then some http
    else if h.protocol == codes "tcp"
    then some tcp
    else if h.protocol == codes "udp"
    then some udp
    else none

unfoldable pub validate_enabled :
    (Text → Option (Text × Text)) → Option Protocol → ProxyHost → Seen → List HostError × Seen
unfolding validate_http validate_tcp validate_udp
validate_enabled parse_url none h seen = (unsupported_protocol ∷ [], seen)
validate_enabled parse_url (some http) h seen =
    let r = validate_http parse_url h seen.http_domains in (r.0, record seen { http_domains = r.1 })
validate_enabled parse_url (some tcp) h seen =
    let r = validate_tcp h seen.tcp_domains in (r.0, record seen { tcp_domains = r.1 })
validate_enabled parse_url (some udp) h seen =
    let r = validate_udp h seen.udp_entry_points in (r.0, record seen { udp_entry_points = r.1 })

-- One round of the loop.
unfoldable pub validate_host :
    (Text → Option (Text × Text)) → ProxyHost → Seen → List HostError × Seen
unfolding validate_enabled protocol_of
validate_host parse_url h seen =
    let named = record seen { names = put h.name tt seen.names } in
    let again = fault (is_some (get h.name seen.names)) duplicate_name in
    let r = validate_enabled parse_url (protocol_of h) h named in
    if trim_space h.name == []
    then (empty_name ∷ [], seen)
    else if not h.enabled
    then (again, named)
    else (again ++ r.0, r.1)

unfoldable pub validate_hosts :
    (Text → Option (Text × Text)) → List ProxyHost → Seen → List HostError
unfolding validate_host
validate_hosts parse_url [] seen = []
validate_hosts parse_url (h ∷ hs) seen =
    let r = validate_host parse_url h seen in r.0 ++ validate_hosts parse_url hs r.1

-- No fault is no error.
unfoldable pub validate_all : (Text → Option (Text × Text)) → List ProxyHost → List HostError
unfolding validate_hosts
validate_all parse_url hs = validate_hosts parse_url hs unseen

-- ===== src/Compiler/Sections.antt =====
-- apps/api/internal/compiler/compiler.go: the sections of the configuration. A router is a record
-- until the section is closed; `router_value` makes the map that the code fills.
use mathlib.Core.Option
use proxydock.Compiler.Middlewares.{
  RenderError, entries, is_chain, is_positive, put_if, render_middleware, single, string_of, to_int,
  unknown_middleware,
}
use proxydock.Compiler.Names.{middleware_name, or_web, or_websecure, sanitize_name}
use proxydock.Compiler.Upstreams.{effective_upstream_urls, tcp_address}
use proxydock.Model.{Certificate, Middleware, ProxyHost}
use proxydock.Model.Value.{
  Any, Fields, anys, arr, bool, end, field, fields, get_field, int, null, obj, set_field, str, strs,
}
use proxydock.Prelude.{
  Bool, List, Option, Text, [], codes, false, if◌then◌else◌, inl, inr, items, length, map, nat_eq,
  none, not, some, sort, suc, text_eq, text_lt, ℕ, ◌++◌, ◌==◌, ◌∷◌, ◌⊎◌,
}
use proxydock.Prelude.GoMap.{GoMap, get, put}
use proxydock.Prelude.Strings.{trim_space}

pub record Router : Type 0 where
  pub rule : Option Text
  pub entry_points : Option (List Text)
  pub service : Text
  pub middlewares : List Text
  pub tls : Bool

-- A list of strings in JSON; a nil one is null.
unfoldable pub strings_value : Option (List Text) → Any
strings_value none = null
strings_value (some ss) = strs ss

unfoldable pub router_value : Router → Any
unfolding strings_value fields put_if
router_value r =
    let base =
      (codes "entryPoints", strings_value r.entry_points) ∷ (codes "service", str r.service) ∷ [] in
    let ruled = put_if (Option.map (λ t. str t) r.rule) (codes "rule") base in
    let chained =
      if length r.middlewares == 0
      then ruled
      else (codes "middlewares", strs r.middlewares) ∷ ruled in
    obj (fields (if r.tls then (codes "tls", obj end) ∷ chained else chained))

-- One server of a load balancer for each upstream.
unfoldable pub servers : Text → List Text → Any
unfolding anys
servers key urls = arr (anys (map (λ u. single key (str u)) urls))

unfoldable pub render_l4_service : ProxyHost → Any
unfolding servers effective_upstream_urls
render_l4_service h = single (codes "loadBalancer") (
    single (codes "servers")
      (servers (codes "address") (map tcp_address (effective_upstream_urls h))))

-- A string of the health check that is copied if it is there and not empty.
unfoldable pub copy_text : GoMap Text Any → Text → GoMap Text Any → GoMap Text Any
unfolding string_of
copy_text config key out =
    let v = string_of (get key config) in if v == [] then out else put key (str v) out

unfoldable pub copy_port : GoMap Text Any → GoMap Text Any → GoMap Text Any
unfolding to_int is_positive
copy_port config out = elim (get (codes "port") config) [
  | none ↦ out
  | some v ↦ elim (to_int v) [
    | none ↦ out
    | some n ↦ if is_positive n then put (codes "port") (int n) out else out
  ]
]

unfoldable pub copy_redirects : GoMap Text Any → GoMap Text Any → GoMap Text Any
copy_redirects config out = elim (get (codes "followRedirects") config) [
  | some (bool b) ↦ put (codes "followRedirects") (bool b) out
  | _ ↦ out
]

unfoldable pub health_check_block : ProxyHost → Option Any
unfolding copy_text copy_port copy_redirects fields
health_check_block h =
    let config = entries h.health_check in
    let path = string_of (get (codes "path") config) in
    let texts = copy_text config (codes "hostname") (
      copy_text config (codes "scheme") (
        copy_text config (codes "timeout")
          (copy_text config (codes "interval") ((codes "path", str path) ∷ [])))) in
    if trim_space path == []
    then none
    else some (obj (fields (copy_redirects config (copy_port config texts))))

unfoldable pub render_http_service : ProxyHost → Any
unfolding servers effective_upstream_urls health_check_block fields put_if
render_http_service h =
    let base = (codes "servers", servers (codes "url") (effective_upstream_urls h)) ∷ [] in
    let sticky =
      if h.sticky_session
      then (codes "sticky", single (codes "cookie") (obj end)) ∷ base
      else base in
    let checked = put_if (health_check_block h) (codes "healthCheck") sticky in
    single (codes "loadBalancer") (obj (fields checked))

pub record CompileError : Type 0 where
  pub host : Text
  pub middleware : Text
  pub error : RenderError

pub record HttpState : Type 0 where
  pub routers : GoMap Text Router
  pub services : GoMap Text Any
  pub middlewares : GoMap Text Any

-- The middlewares of a host as they are rendered: all of the section, the host's names in order, and
-- the map from the operator's names.
pub record Rendered : Type 0 where
  pub middlewares : GoMap Text Any
  pub names : List Text
  pub name_map : GoMap Text Text

-- The references of a chain by the names in the configuration.
unfoldable pub resolve_refs : GoMap Text Text → List Text → RenderError ⊎ List Text
resolve_refs name_map [] = inr []
resolve_refs name_map (ref ∷ refs) = elim (get ref name_map) [
  | none ↦ inl (unknown_middleware ref)
  | some n ↦ elim (resolve_refs name_map refs) [ inl e ↦ inl e | inr ns ↦ inr (n ∷ ns) ]
]

-- `inner["middlewares"].([]string)`
unfoldable pub listed : Fields → List Text
unfolding get_field
listed inner = elim (get_field (codes "middlewares") inner) [ some (strs refs) ↦ refs | _ ↦ [] ]

-- A rendered chain with its references resolved; what is not of that shape is left alone.
unfoldable pub resolve_value : GoMap Text Text → Any → RenderError ⊎ Any
unfolding resolve_refs listed get_field set_field
resolve_value name_map (obj outer) = elim (get_field (codes "chain") outer) [
  | some (obj inner) ↦ elim (resolve_refs name_map (listed inner)) [
    | inl e ↦ inl e
    | inr resolved ↦ inr (
        obj (
          set_field (codes "chain") (obj (set_field (codes "middlewares") (strs resolved) inner))
            outer))
  ]
  | _ ↦ inr (obj outer)
]
resolve_value name_map v = inr v

module _ (h : ProxyHost) where
  unfoldable pub resolve_chains :
      GoMap Text Text → List Middleware → List Text → GoMap Text Any → CompileError ⊎ GoMap Text Any
  unfolding is_chain resolve_value
  resolve_chains name_map [] names m = inr m
  resolve_chains name_map (mw ∷ mws) [] m = inr m
  resolve_chains name_map (mw ∷ mws) (n ∷ names) m =
      let rest = resolve_chains name_map mws names m in
      if not (is_chain mw.kind) then rest else elim (get n m) [
        | none ↦ resolve_chains name_map mws names m
        | some v ↦ elim (resolve_value name_map v) [
          | inl e ↦ inl record { host = h.name; middleware = mw.name; error = e }
          | inr w ↦ resolve_chains name_map mws names (put n w m)
        ]
      ]

  unfoldable pub http_router : List Text → Router
  http_router names = record {
    rule = some (codes "Host(`" ++ (h.domain ++ codes "`)"));
    entry_points = some (or_web h.entry_points);
    service = sanitize_name h.name;
    middlewares = names;
    tls = h.tls;
  }

module _ (sprint : Any → Text) (h : ProxyHost) where
  unfoldable pub render_all : ℕ → List Middleware → Rendered → CompileError ⊎ Rendered
  unfolding render_middleware middleware_name
  render_all i [] d = inr d
  render_all i (mw ∷ mws) d = elim (render_middleware sprint mw) [
    | inl e ↦ inl record { host = h.name; middleware = mw.name; error = e }
    | inr v ↦
        let n = middleware_name (sanitize_name h.name) i mw.name in
        render_all (suc i) mws record {
          middlewares = put n v d.middlewares;
          names = d.names ++ (n ∷ []);
          name_map = put mw.name n d.name_map;
        }
  ]

  -- One round of the loop over the hosts.
  unfoldable pub compile_http_host : HttpState → CompileError ⊎ HttpState
  unfolding render_all resolve_chains http_router
  compile_http_host st =
      elim (render_all 0 (items h.middlewares)
        record { middlewares = st.middlewares; names = []; name_map = [] }) [
          | inl e ↦ inl e
          | inr d ↦ elim (resolve_chains h d.name_map (items h.middlewares) d.names d.middlewares) [
            | inl e ↦ inl e
            | inr m ↦ inr record {
              routers = put (sanitize_name h.name) (http_router h d.names) st.routers;
              services = put (sanitize_name h.name) (render_http_service h) st.services;
              middlewares = m;
            }
          ]
        ]

unfoldable pub compile_http_hosts :
    (Any → Text) → List ProxyHost → HttpState → CompileError ⊎ HttpState
unfolding compile_http_host
compile_http_hosts sprint [] st = inr st
compile_http_hosts sprint (h ∷ hs) st = elim (compile_http_host sprint h st) [
  | inl e ↦ inl e
  | inr st' ↦ compile_http_hosts sprint hs st'
]

unfoldable pub routers_value : GoMap Text Router → Any
unfolding router_value fields
routers_value rs = obj (fields (map (λ e. (e.0, router_value e.1)) rs))

unfoldable pub http_value : HttpState → Any
unfolding routers_value fields
http_value st =
    let base =
      (codes "routers", routers_value st.routers)
      ∷ (codes "services", obj (fields st.services))
      ∷ [] in
    obj (
      fields (
        if length st.middlewares == 0
        then base
        else (codes "middlewares", obj (fields st.middlewares)) ∷ base))

unfoldable pub compile_http : (Any → Text) → List ProxyHost → CompileError ⊎ Any
unfolding compile_http_hosts http_value
compile_http sprint hs =
    elim (compile_http_hosts sprint hs record { routers = []; services = []; middlewares = [] }) [
      | inl e ↦ inl e
      | inr st ↦ inr (http_value st)
    ]

-- The routers and services of TCP and UDP hosts.
pub record L4State : Type 0 where
  pub routers : GoMap Text Router
  pub services : GoMap Text Any

unfoldable pub tcp_router : ProxyHost → Router
tcp_router h = record {
  rule = some (codes "HostSNI(`" ++ (h.domain ++ codes "`)"));
  entry_points = some (or_websecure h.entry_points);
  service = sanitize_name h.name;
  middlewares = [];
  tls = h.tls;
}

unfoldable pub udp_router : ProxyHost → Router
udp_router h = record {
  rule = none;
  entry_points = h.entry_points;
  service = sanitize_name h.name;
  middlewares = [];
  tls = false;
}

unfoldable pub compile_l4_hosts : (ProxyHost → Router) → List ProxyHost → L4State → L4State
compile_l4_hosts router [] st = st
compile_l4_hosts router (h ∷ hs) st = compile_l4_hosts router hs record {
  routers = put (sanitize_name h.name) (router h) st.routers;
  services = put (sanitize_name h.name) (render_l4_service h) st.services;
}

unfoldable pub compile_l4 : (ProxyHost → Router) → List ProxyHost → Option Any
unfolding compile_l4_hosts routers_value fields
compile_l4 router [] = none
compile_l4 router (h ∷ hs) =
    let st = compile_l4_hosts router (h ∷ hs) record { routers = []; services = [] } in
    some (
      obj (
        fields (
          (codes "routers", routers_value st.routers)
          ∷ (codes "services", obj (fields st.services))
          ∷ [])))

unfoldable pub compile_tcp : List ProxyHost → Option Any
unfolding compile_l4 tcp_router
compile_tcp hs = compile_l4 tcp_router hs

unfoldable pub compile_udp : List ProxyHost → Option Any
unfolding compile_l4 udp_router
compile_udp hs = compile_l4 udp_router hs

unfoldable pub certificate_value : Certificate → Any
certificate_value c =
    obj (field (codes "certFile") (str c.cert_pem) (field (codes "keyFile") (str c.key_pem) end))

unfoldable pub render_cert_pool : List Certificate → Option Any
unfolding anys certificate_value
render_cert_pool [] = none
render_cert_pool (c ∷ cs) = some (
    single (codes "certificates")
      (arr (anys (map certificate_value (sort (λ a b. text_lt a.name b.name) (c ∷ cs))))))

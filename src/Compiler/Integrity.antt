-- ===== src/Compiler/Integrity.antt =====
-- apps/api/internal/compiler/compiler.go, compileHTTP: the services and middlewares that the routers
-- of a section refer to.
use proxydock.Compiler.Middlewares.{is_chain, render_middleware}
use proxydock.Compiler.Names.{middleware_name, sanitize_name}
use proxydock.Compiler.Sections.{
  HttpState, Rendered, Router, compile_http_host, compile_http_hosts, http_router, render_all,
  render_http_service, resolve_chains, resolve_value,
}
use proxydock.Compiler.Validation.{is_some}
use proxydock.Model.{Middleware, ProxyHost}
use proxydock.Model.Value.{Any}
use proxydock.Prelude.{
  ==_refl, All, All-append_one, All-map, Bool-cases, List, Option-cases, Text, [], all, arith, inl,
  inr, items, nat_eq, refl, subst, suc, sum_cases, text_eq, true, ℕ, ◌++◌, ◌∷◌, ◌≡◌,
}
use proxydock.Prelude.GoMap.{GoMap, get, get-put, put, put-All}

abbrev pub Has : {V : Type 0} → Text → GoMap Text V → Type 0
Has k m = is_some (get k m) ≡ true

put-Has_self : {V : Type 0} (k : Text) (v : V) (m : GoMap Text V) → Has k (put k v m)
put-Has_self k v m = rw (get-put k k v m) (rw (==_refl k) refl)

put-Has : {V : Type 0} (j k : Text) (v : V) (m : GoMap Text V) → Has k m → Has k (put j v m)
put-Has j k v m h = ground (arith, get-put j k v m)

-- All of the section's maps that a router names have its names.
abbrev pub RouterOk : GoMap Text Any → GoMap Text Any → Text × Router → Type 0
RouterOk services middlewares (k, r) =
    Has r.service services × All (λ n. Has n middlewares) r.middlewares

abbrev pub HttpOk : HttpState → Type 0
HttpOk st = All (RouterOk st.services st.middlewares) st.routers

-- The keys of one map are among those of another.
abbrev Grows : GoMap Text Any → GoMap Text Any → Type 0
Grows m m' = (k : Text) → Has k m → Has k m'

module _ (sprint : Any → Text) (h : ProxyHost) where
  render_all-Grows :
      (i : ℕ) (mws : List Middleware) (d d' : Rendered)
      → render_all sprint h i mws d ≡ inr d'
      → Grows d.middlewares d'.middlewares
  unfolding render_all
  render_all-Grows i [] d d' e = λ k has. ground arith
  render_all-Grows i (mw ∷ mws) d d' e = elim (sum_cases (render_middleware sprint mw)) [
    | inl (x, f) ↦ absurd (ground arith)
    | inr (v, f) ↦
        let n = middleware_name (sanitize_name h.name) i mw.name in
        let next : Rendered = record {
          middlewares = put n v d.middlewares;
          names = d.names ++ (n ∷ []);
          name_map = put mw.name n d.name_map;
        } in
        λ k has.
          render_all-Grows (suc i) mws next d' (ground arith) k (put-Has n k v d.middlewares has)
  ]

  render_all-names :
      (i : ℕ) (mws : List Middleware) (d d' : Rendered)
      → render_all sprint h i mws d ≡ inr d'
      → All (λ n. Has n d.middlewares) d.names
      → All (λ n. Has n d'.middlewares) d'.names
  unfolding render_all
  render_all-names i [] d d' e all =
      let same : d ≡ d' = ground arith in
      subst (λ z. All (λ n. Has n z.middlewares) z.names) same all
  render_all-names i (mw ∷ mws) d d' e all = elim (sum_cases (render_middleware sprint mw)) [
    | inl (x, f) ↦ absurd (ground arith)
    | inr (v, f) ↦
        let n = middleware_name (sanitize_name h.name) i mw.name in
        let next : Rendered = record {
          middlewares = put n v d.middlewares;
          names = d.names ++ (n ∷ []);
          name_map = put mw.name n d.name_map;
        } in
        render_all-names (suc i) mws next d' (ground arith) (
          All-append_one (λ z. Has z next.middlewares) d.names n
            (All-map _ _ d.names (λ k has. put-Has n k v d.middlewares has) all)
            (put-Has_self n v d.middlewares))
  ]

  resolve_chains-Grows :
      (name_map : GoMap Text Text) (mws : List Middleware) (names : List Text)
      (m m' : GoMap Text Any)
      → resolve_chains h name_map mws names m ≡ inr m'
      → Grows m m'
  unfolding resolve_chains
  resolve_chains-Grows name_map [] names m m' e k has = ground arith
  resolve_chains-Grows name_map (mw ∷ mws) [] m m' e k has = ground arith
  resolve_chains-Grows name_map (mw ∷ mws) (n ∷ names) m m' e k has =
      elim (Bool-cases (is_chain mw.kind)) [
        | inr c ↦ resolve_chains-Grows name_map mws names m m' (ground arith) k has
        | inl c ↦ elim (Option-cases (get n m)) [
          | inl g ↦ resolve_chains-Grows name_map mws names m m' (ground arith) k has
          | inr (v, g) ↦ elim (sum_cases (resolve_value name_map v)) [
            | inl (x, f) ↦ absurd (ground arith)
            | inr (w, f) ↦
                resolve_chains-Grows name_map mws names (put n w m) m' (ground arith) k
                  (put-Has n k w m has)
          ]
        ]
      ]

  compile_http_host-HttpOk :
      (st st' : HttpState) → compile_http_host sprint h st ≡ inr st' → HttpOk st → HttpOk st'
  unfolding compile_http_host http_router
  compile_http_host-HttpOk st st' e good =
      let mws = items h.middlewares in
      let before : Rendered = record { middlewares = st.middlewares; names = []; name_map = [] } in
      let name = sanitize_name h.name in
      elim (sum_cases (render_all sprint h 0 mws before)) [
        | inl (x, f) ↦ absurd (ground arith)
        | inr (d, f) ↦ elim (sum_cases (resolve_chains h d.name_map mws d.names d.middlewares)) [
          | inl (x, g) ↦ absurd (ground arith)
          | inr (m, g) ↦
              let service = render_http_service h in
              let new : HttpState = record {
                routers = put name (http_router h d.names) st.routers;
                services = put name service st.services;
                middlewares = m;
              } in
              let same : new ≡ st' = ground arith in
              let resolved = resolve_chains-Grows d.name_map mws d.names d.middlewares m g in
              let grown = render_all-Grows 0 mws before d f in
              let named = render_all-names 0 mws before d f tt in
              let keeps : (r : Text × Router)
                  → RouterOk st.services st.middlewares r
                  → RouterOk new.services m r =
                λ r o. (
                  put-Has name r.1.service service st.services o.0,
                  All-map _ _ r.1.middlewares (λ n has. resolved n (grown n has)) o.1,
                ) in
              let own : RouterOk new.services m (name, http_router h d.names) =
                (put-Has_self name service st.services, All-map _ _ d.names resolved named) in
              let old = All-map _ _ st.routers keeps good in
              subst HttpOk same
                (put-All (RouterOk new.services m) name (http_router h d.names) st.routers own old)
        ]
      ]

compile_http_hosts-HttpOk :
    (sprint : Any → Text) (hs : List ProxyHost) (st st' : HttpState)
    → compile_http_hosts sprint hs st ≡ inr st'
    → HttpOk st
    → HttpOk st'
unfolding compile_http_hosts
compile_http_hosts-HttpOk sprint [] st st' e good = subst HttpOk (ground arith) good
compile_http_hosts-HttpOk sprint (h ∷ hs) st st' e good =
    elim (sum_cases (compile_http_host sprint h st)) [
      | inl (x, f) ↦ absurd (ground arith)
      | inr (u, f) ↦
          compile_http_hosts-HttpOk sprint hs u st' (ground arith)
            (compile_http_host-HttpOk sprint h st u f good)
    ]

-- In the http section of a configuration, every router's service is a service of the section and
-- every middleware that a router lists is a middleware of the section, also where the names of two
-- hosts come out the same.
pub compile_http_hosts_closed :
    (sprint : Any → Text) (hs : List ProxyHost) (st : HttpState)
    → compile_http_hosts sprint hs record { routers = []; services = []; middlewares = [] } ≡ inr st
    → HttpOk st
compile_http_hosts_closed sprint hs st e = compile_http_hosts-HttpOk sprint hs _ st e tt

-- ===== src/Compiler/Compile.antt =====
-- apps/api/internal/compiler/compiler.go: Compile. SHA-256, `fmt.Sprint`, `url.Parse` and json.Marshal
-- are parameters.
use proxydock.Auth.{hex_encode}
use proxydock.Compiler.Middlewares.{put_if}
use proxydock.Compiler.Sections.{
  CompileError, compile_http, compile_tcp, compile_udp, render_cert_pool,
}
use proxydock.Compiler.Validation.{HostError, Protocol, http, protocol_of, tcp, udp, validate_all}
use proxydock.Model.{Certificate, ProxyHost}
use proxydock.Model.Value.{Any, fields, obj}
use proxydock.Prelude.{
  Bool, List, Option, Text, [], codes, false, inl, inr, keep, none, some, sort, take, text_lt, true,
  ℕ, ◌++◌, ◌∷◌, ◌⊎◌,
}

pub record Libraries : Type 0 where
  pub sprint : Any → Text
  pub parse_url : Text → Option (Text × Text)
  pub marshal : Any → Option Text
  pub sha256 : Text → List ℕ

pub data Failure : Type 0 where
  invalid_hosts : List HostError → Failure
  not_rendered : CompileError → Failure
  not_marshalled : Failure

-- Of the package: the payload of a revision.
pub record Compiled : Type 0 where
  pub config : Text
  pub etag : Text

unfoldable pub is_protocol : Protocol → ProxyHost → Bool
is_protocol p h = elim (protocol_of h) [
  | none ↦ false
  | some q ↦ elim p [
    | http ↦ elim q [ http ↦ true | _ ↦ false ]
    | tcp ↦ elim q [ tcp ↦ true | _ ↦ false ]
    | udp ↦ elim q [ udp ↦ true | _ ↦ false ]
  ]
]

unfoldable pub filter_by_protocol : Protocol → List ProxyHost → List ProxyHost
unfolding is_protocol
filter_by_protocol p hs = keep (is_protocol p) hs

-- The enabled hosts by name.
unfoldable pub ordered : List ProxyHost → List ProxyHost
ordered hs = sort (λ a b. text_lt a.name b.name) (keep (λ h. h.enabled) hs)

-- The map `out`, which is marshalled.
unfoldable pub document : Any → Option Any → Option Any → Option Any → Any
unfolding put_if fields
document http_section tcp_section udp_section tls_section = obj (
    fields (
      put_if tls_section (codes "tls") (
        put_if udp_section (codes "udp")
          (put_if tcp_section (codes "tcp") ((codes "http", http_section) ∷ [])))))

unfoldable pub compiled : Libraries → Any → Failure ⊎ Compiled
compiled l out = elim (l.marshal out) [
  | none ↦ inl not_marshalled
  | some body ↦ inr record {
    config = body;
    etag = b'"' ∷ (codes "sha256-" ++ (hex_encode (take 8 (l.sha256 body)) ++ (b'"' ∷ [])));
  }
]

-- Compile, from the hosts in order.
unfoldable pub compile_ordered : Libraries → List ProxyHost → List Certificate → Failure ⊎ Compiled
unfolding filter_by_protocol document compiled
compile_ordered l hs certs = elim (compile_http l.sprint (filter_by_protocol http hs)) [
  | inl e ↦ inl (not_rendered e)
  | inr section ↦ compiled l (
      document section (compile_tcp (filter_by_protocol tcp hs))
        (compile_udp (filter_by_protocol udp hs)) (render_cert_pool certs))
]

unfoldable pub compile : Libraries → List ProxyHost → List Certificate → Failure ⊎ Compiled
unfolding compile_ordered ordered
compile l hs certs = elim (validate_all l.parse_url hs) [
  | [] ↦ compile_ordered l (ordered hs) certs
  | e ∷ es ↦ inl (invalid_hosts (e ∷ es))
]

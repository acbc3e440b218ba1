-- ===== src/Tests/CompilerRuns.antt =====
-- The compiler of configurations (apps/api/internal/compiler) at work.
use proxydock.Auth.{hex_digit, hex_encode}
use proxydock.Compiler.Compile.{
  Compiled, Libraries, compile, compile_ordered, compiled, document, filter_by_protocol,
  is_protocol, ordered,
}
use proxydock.Compiler.Integrity.{HttpOk, compile_http_hosts_closed}
use proxydock.Compiler.Middlewares.{
  attempts_of, chain_refs, config_value, first_bad, first_dangling, first_unknown, has_key,
  int_range, is_chain, is_positive, kind_of, put_if, redirect_body, render_kind, render_middleware,
  render_strings, retry_body, string_of, strings_of, to_int, to_string_slice, validate_middlewares,
}
use proxydock.Compiler.Names.{
  decimal, decimal_within, entry_points_or, is_alphanumeric, is_label, looks_like_domain,
  middleware_name, or_web, or_websecure, sanitize_name, sanitize_rune,
}
use proxydock.Compiler.Order.{compile_unique}
use proxydock.Compiler.Sections.{
  HttpState, certificate_value, compile_http, compile_http_host, compile_http_hosts, compile_l4,
  compile_l4_hosts, compile_tcp, compile_udp, copy_port, copy_redirects, copy_text,
  health_check_block, http_router, http_value, listed, render_all, render_cert_pool,
  render_http_service, render_l4_service, resolve_chains, resolve_refs, resolve_value, router_value,
  routers_value, servers, strings_value, tcp_router, udp_router,
}
use proxydock.Compiler.Upstreams.{
  bad_port, check_tcp_upstream, check_upstream, cut_last, digits_from, effective_upstream_urls,
  is_port, not_host_port, split_host_port, tcp_address, trim_prefix,
}
use proxydock.Compiler.Validation.{
  empty_name, entry_point_errors, http_upstream_errors, middleware_errors, note_use, protocol_of,
  scheme_of, tcp_upstream_errors, validate_all, validate_enabled, validate_host, validate_hosts,
  validate_http, validate_tcp, validate_udp,
}
use proxydock.Model.{ProxyHost}
use proxydock.Model.Value.{arr, cons, nil, str}
use proxydock.Prelude.{
  List, Text, [], all, any, codes, false, inl, inr, insert_sorted, keep, map, nat_eq, none, refl,
  some, sort, text_beq, text_eq, text_lt, true, ◌↔◌, ◌∷◌, ◌≡◌,
}
use proxydock.Prelude.GoMap.{delete, delete_where, find, get, put}
use proxydock.Prelude.Sorting.{Elem}
use proxydock.Prelude.Strings.{
  byte_length, contains, cut, drop, drop_while, has_prefix, is_space, split, trim_right, trim_space,
}

program : Unit {0}
unfolding is_protocol filter_by_protocol ordered document compiled compile_ordered compile kind_of
    is_chain int_range to_int strings_of to_string_slice string_of config_value render_strings
    put_if redirect_body is_positive retry_body attempts_of has_key render_kind render_middleware
    chain_refs first_bad first_unknown first_dangling validate_middlewares decimal_within decimal
    is_alphanumeric sanitize_rune sanitize_name middleware_name is_label looks_like_domain
    entry_points_or or_web or_websecure strings_value router_value servers render_l4_service
    copy_text copy_port copy_redirects health_check_block render_http_service resolve_refs listed
    resolve_value resolve_chains http_router render_all compile_http_host compile_http_hosts
    routers_value http_value compile_http tcp_router udp_router compile_l4_hosts compile_l4
    compile_tcp compile_udp certificate_value render_cert_pool trim_prefix tcp_address
    effective_upstream_urls check_upstream cut_last split_host_port digits_from is_port
    check_tcp_upstream note_use scheme_of http_upstream_errors tcp_upstream_errors middleware_errors
    entry_point_errors validate_http validate_tcp validate_udp protocol_of validate_enabled
    validate_host validate_hosts validate_all drop has_prefix trim_space trim_right drop_while
    is_space contains cut split byte_length get put delete find delete_where any all keep text_beq
    text_lt sort insert_sorted hex_encode hex_digit
program = tt

abbrev pub host : Text → Text → ProxyHost
host name domain = record {
  id = 0;
  fleet_id = codes "f";
  name = name;
  protocol = [];
  domain = domain;
  upstream_url = codes "http://u";
  upstream_urls = none;
  sticky_session = false;
  health_check = none;
  entry_points = none;
  middlewares = none;
  tls = false;
  label_selector = [];
  enabled = true;
  created_at = 0;
  updated_at = 0;
}

abbrev pub toy : Libraries
toy = record {
  sprint = λ v. codes "1";
  parse_url = λ u. some (codes "http", codes "u");
  marshal = λ v. some (codes "doc");
  sha256 = λ b. 1 ∷ 2 ∷ [];
}

sanitized : sanitize_name (codes "a.b_c") ≡ codes "a-b_c"
unfolding program
sanitized = refl

mangled : middleware_name (codes "web") 12 (codes "x y") ≡ codes "web-12-x-y"
unfolding program
mangled = refl

ports :
    map check_tcp_upstream (
      codes "tcp://h:80"
      ∷ codes "[::1]:443"
      ∷ codes "h:70000"
      ∷ codes "http://h:80"
      ∷ codes "::1:80"
      ∷ [])
    ≡ none ∷ none ∷ some bad_port ∷ some not_host_port ∷ some not_host_port ∷ []
unfolding program
ports = refl

domains :
    map looks_like_domain (codes "a.b-c" ∷ codes "a..b" ∷ codes " a" ∷ codes "a b" ∷ [])
    ≡ true ∷ false ∷ true ∷ false ∷ []
unfolding program
domains = refl

empty_name_refused : validate_all toy.parse_url (host [] (codes "d") ∷ []) ≡ empty_name ∷ []
unfolding program
empty_name_refused = refl

abbrev with_middleware : ProxyHost
with_middleware = record (host (codes "a") (codes "a.org")) {
  middlewares = some (
      record {
        name = codes "m";
        kind = codes "ipAllowList";
        config = some ((codes "sourceRange", arr (cons (str (codes "1.1.1.1")) nil)) ∷ []);
      }
      ∷ []);
}

abbrev hosts : List ProxyHost
hosts = with_middleware ∷ host (codes "b") (codes "b.org") ∷ []

abbrev no_section : HttpState
no_section = record { routers = []; services = []; middlewares = [] }

abbrev section : HttpState
unfolding program
section = elim (compile_http_hosts toy.sprint hosts no_section) [ inl x ↦ no_section | inr st ↦ st ]

section_compiled : compile_http_hosts toy.sprint hosts no_section ≡ inr section
unfolding program
section_compiled = refl

two_routers : map (λ r. r.0) section.routers ≡ codes "a" ∷ codes "b" ∷ []
unfolding program
two_routers = refl

compile_http_hosts_closed_example : HttpOk section
compile_http_hosts_closed_example =
    compile_http_hosts_closed toy.sprint hosts section section_compiled

abbrev reversed : List ProxyHost
reversed = host (codes "b") (codes "b.org") ∷ with_middleware ∷ []

abbrev nothing : Compiled
nothing = record { config = []; etag = [] }

abbrev result : List ProxyHost → Compiled
unfolding program
result hs = elim (compile toy hs []) [ inl x ↦ nothing | inr r ↦ r ]

hosts_compiled : compile toy hosts [] ≡ inr (result hosts)
unfolding program
hosts_compiled = refl

reversed_compiled : compile toy reversed [] ≡ inr (result reversed)
unfolding program
reversed_compiled = refl

same_hosts : (h : ProxyHost) → Elem h hosts ↔ Elem h reversed
same_hosts h = (
  (λ m. elim m [ inl e ↦ inr (inl e) | inr n ↦ elim n [ inl e ↦ inl e | inr x ↦ absurd x ] ]),
  (λ m. elim m [ inl e ↦ inr (inl e) | inr n ↦ elim n [ inl e ↦ inl e | inr x ↦ absurd x ] ]),
)

compile_unique_example : result hosts ≡ result reversed
compile_unique_example =
    compile_unique toy hosts reversed [] (result hosts) (result reversed) same_hosts hosts_compiled
      reversed_compiled

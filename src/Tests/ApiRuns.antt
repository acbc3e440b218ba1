-- ===== src/Tests/ApiRuns.antt =====
-- The API of the manager (apps/api/internal/api) at work.
use proxydock.Api.Access.{
  authenticate_agent, bearer_header, check_admin_auth, has_suffix, is_public_path, require_admin,
}
use proxydock.Api.Admins.{Authorized, require_admin_guarded}
use proxydock.Api.Answers.{
  Response, Server, bad_json, decoded, error_status, problem, refused_then, reply, store_error,
  written_after,
}
use proxydock.Api.Audit.{audit_row, fleet_id_from_path, serve_request, should_audit, status_of}
use proxydock.Api.Audited.{serve_request_audited}
use proxydock.Api.Configs.{
  ConfigBody, agent_hosts, build_agent_config_response, compile_for_agent, config_answer,
  etag_matches, handle_agent_config_preview, handle_get_config, handle_heartbeat, published_body,
  recompiled_body, serve_config, snapshot_certs,
}
use proxydock.Api.Delivery.{
  PrintsObjects, Serious, Trusts, read_reply-build_agent_config_response, wire,
}
use proxydock.Api.Enrolment.{handle_get_config-handle_mint_token}
use proxydock.Api.Etags.{IsTag}
use proxydock.Api.Guard.{Known, Served, handle_get_config_guarded}
use proxydock.Api.Publishing.{
  CanPublish, Serves, handle_publish_revision-Serves, handle_rollback-Serves, rolled_back,
  signed_row,
}
use proxydock.Api.Resources.{handle_create_fleet, handle_mint_token}
use proxydock.Api.Revisions.{
  copied_certificate, copied_host, enqueue_all, fire_webhooks, handle_publish_revision,
  handle_rollback, itoa, publish, publish_compiled, sign_revision, unsigned,
}
use proxydock.Api.Unchanged.{handle_get_config_again}
use proxydock.Auth.{
  Minted, hex_digit, hex_encode, hex_valid, is_hex, mint_bearer, parse_bearer, parse_rest,
  verify_secret,
}
use proxydock.Auth.RoundTrip.{Bytes}
use proxydock.Compiler.Compile.{
  Compiled, compile, compile_ordered, compiled, document, filter_by_protocol, is_protocol, ordered,
}
use proxydock.Compiler.Middlewares.{
  attempts_of, chain_refs, config_value, first_bad, first_dangling, first_unknown, has_key,
  int_range, is_chain, is_positive, kind_of, put_if, redirect_body, render_kind, render_middleware,
  render_strings, retry_body, string_of, strings_of, to_int, to_string_slice, validate_middlewares,
}
use proxydock.Compiler.Names.{
  decimal, decimal_within, entry_points_or, is_alphanumeric, is_label, looks_like_domain,
  middleware_name, or_web, or_websecure, sanitize_name, sanitize_rune,
}
use proxydock.Compiler.Sections.{
  certificate_value, compile_http, compile_http_host, compile_http_hosts, compile_l4,
  compile_l4_hosts, compile_tcp, compile_udp, copy_port, copy_redirects, copy_text,
  health_check_block, http_router, http_value, listed, render_all, render_cert_pool,
  render_http_service, render_l4_service, resolve_chains, resolve_refs, resolve_value, router_value,
  routers_value, servers, strings_value, tcp_router, udp_router,
}
use proxydock.Compiler.Upstreams.{
  check_tcp_upstream, check_upstream, cut_last, digits_from, effective_upstream_urls, is_port,
  split_host_port, tcp_address, trim_prefix,
}
use proxydock.Compiler.Validation.{
  entry_point_errors, http_upstream_errors, middleware_errors, note_use, protocol_of, scheme_of,
  tcp_upstream_errors, validate_all, validate_enabled, validate_host, validate_hosts, validate_http,
  validate_tcp, validate_udp,
}
use proxydock.Labels.{have, is_empty, label, matches, parse, parse_part, parse_parts, satisfied}
use proxydock.Model.{Agent, AgentToken, Fleet, Revision, json}
use proxydock.Prelude.{
  ==_refl, Bool-cases, List, Option, Text, [], all, any, arith, codes, false, inc, inl, inr,
  insert_sorted, keep, map, nat_eq, none, refl, some, sort, subst, text_beq, text_eq, text_lt, true,
  ℕ, ◌++◌, ◌==◌, ◌∷◌, ◌≡◌, ◌⊎◌,
}
use proxydock.Prelude.GoMap.{delete, delete_where, find, get, put}
use proxydock.Prelude.Strings.{
  byte_length, contains, cut, drop, drop_while, has_prefix, is_space, split, trim_right, trim_space,
}
use proxydock.Provider.Client.{Externals, modified, read_reply}
use proxydock.Provider.Config.{Resolved}
use proxydock.Store.Acme.{claim_next_acme_job, claim_scan, create_acme_job, new_acme_job}
use proxydock.Store.Agents.{create_agent, get_agent}
use proxydock.Store.Audit.{append_audit_entry}
use proxydock.Store.Certificates.{list_certificates}
use proxydock.Store.Fleets.{create_fleet, get_fleet}
use proxydock.Store.Invariant.{apply, run}
use proxydock.Store.Invariant.Reach.{run-Wf}
use proxydock.Store.ProxyHosts.{list_proxy_hosts}
use proxydock.Store.Revisions.{
  create_revision, get_published_revision, get_revision, max_number, next_revision_number,
  saved_revision,
}
use proxydock.Store.State.{Store, ok}
use proxydock.Store.Tokens.{
  TokenRecord, lookup_admin_token, lookup_token, mint_token, new_token, revoke_token,
  touch_admin_token, touch_token,
}
use proxydock.Store.Webhooks.{list_enabled_webhooks, listens}
use proxydock.Tests.CompilerRuns.{host, toy}
use proxydock.Tests.StoreRuns.{
  edge, fleet_found, fleet_row, next_is_two, ready, ready-Small, ready_room, revision, script,
}

program : Unit {0}
unfolding should_audit is_protocol filter_by_protocol ordered document compiled compile_ordered
    compile kind_of is_chain int_range to_int strings_of to_string_slice string_of config_value
    render_strings put_if redirect_body is_positive retry_body attempts_of has_key render_kind
    render_middleware chain_refs first_bad first_unknown first_dangling validate_middlewares
    decimal_within decimal is_alphanumeric sanitize_rune sanitize_name middleware_name is_label
    looks_like_domain entry_points_or or_web or_websecure strings_value router_value servers
    render_l4_service copy_text copy_port copy_redirects health_check_block render_http_service
    resolve_refs listed resolve_value resolve_chains http_router render_all compile_http_host
    compile_http_hosts routers_value http_value compile_http tcp_router udp_router compile_l4_hosts
    compile_l4 compile_tcp compile_udp certificate_value render_cert_pool trim_prefix tcp_address
    effective_upstream_urls check_upstream cut_last split_host_port digits_from is_port
    check_tcp_upstream note_use scheme_of http_upstream_errors tcp_upstream_errors middleware_errors
    entry_point_errors validate_http validate_tcp validate_udp protocol_of validate_enabled
    validate_host validate_hosts validate_all drop has_prefix trim_space trim_right drop_while
    is_space contains cut split byte_length get put delete find delete_where any all keep text_beq
    text_lt sort insert_sorted hex_encode hex_digit run apply create_fleet create_agent
    create_revision saved_revision create_acme_job new_acme_job next_revision_number max_number
    claim_next_acme_job claim_scan mint_token revoke_token append_audit_entry bearer_header
    authenticate_agent has_suffix is_public_path check_admin_auth require_admin error_status
    store_error written_after agent_hosts snapshot_certs recompiled_body compile_for_agent
    build_agent_config_response etag_matches config_answer serve_config handle_get_config
    handle_agent_config_preview handle_heartbeat sign_revision enqueue_all fire_webhooks copied_host
    copied_certificate publish publish_compiled handle_publish_revision itoa handle_rollback
    parse_bearer parse_rest verify_secret mint_bearer hex_valid is_hex lookup_token touch_token
    lookup_admin_token touch_admin_token get_agent get_published_revision get_revision get_fleet
    list_proxy_hosts list_certificates list_enabled_webhooks listens parse parse_parts parse_part
    matches satisfied have is_empty label
program = tt

abbrev pub server : Server
server = record {
  libraries = toy;
  signer = some (λ t. b's' ∷ t);
  bootstrap_admin_token = codes "boot";
  describe = λ f. codes "invalid";
  describe_label = λ e. codes "label";
  describe_render = λ e. codes "middleware";
  encode_event = λ e f r. some (codes "event");
}

public_paths :
    map is_public_path (
      codes "/healthz"
      ∷ codes "/api/v1/agents/a/config"
      ∷ codes "/api/v1/agents/a/tokens"
      ∷ codes "/api/v1/fleets"
      ∷ [])
    ≡ true ∷ true ∷ false ∷ false ∷ []
unfolding program
public_paths = refl

weak_tags : etag_matches (codes "x, W/e") (codes "e") ≡ true
unfolding program
weak_tags = refl

stranger :
    handle_get_config server 9 (codes "a") (codes "Bearer tfm_") [] ready
    ≡ (ready, problem 401 (codes "invalid or missing bearer token"))
unfolding program
stranger = refl

-- The code that net/http sends, that of the first WriteHeader.
abbrev client_status : {A : Type 0} → Response A → ℕ
client_status (problem status text) = status
client_status (reply status etag body) = status
client_status (refused_then text r) = 400

-- The client of a publish with a malformed body gets 400, and the log records 201.
abbrev refused_publish : Response Revision
refused_publish = (handle_publish_revision server 9 (codes "f") (bad_json (codes "EOF") []) ready).1

malformed_body_published : (client_status refused_publish ≡ 400) × (status_of refused_publish ≡ 201)
unfolding program
malformed_body_published = (refl, refl)

require_admin_guarded_example :
    (require_admin {A = Unit {0}} server 9
        (codes "/api/v1/fleets")
        (codes "Bearer boot")
        (λ a s. (s, reply 204 none none))
        ready
      ≡ (ready, problem 401 (codes "admin authentication required")))
    ⊎ ((actor : Text) × (t : Store) × Authorized server 9 (codes "Bearer boot") ready actor t
        × (require_admin {A = Unit {0}} server 9
              (codes "/api/v1/fleets")
              (codes "Bearer boot")
              (λ a s. (s, reply 204 none none))
              ready
            ≡ (t, reply 204 none none)))
unfolding program
require_admin_guarded_example =
    require_admin_guarded server 9 (codes "Bearer boot") ready {A = Unit {0}}
      (codes "/api/v1/fleets") (λ a s. (s, reply 204 none none)) refl

abbrev edge_row : Agent
edge_row = record edge { created_at = 6 }

edge_found : get (codes "a") ready.agents ≡ some edge_row
unfolding program
edge_found = refl

abbrev prefix_bytes : List ℕ
prefix_bytes = 1 ∷ 2 ∷ 3 ∷ 4 ∷ []

abbrev secret_bytes : List ℕ
secret_bytes = 1 ∷ 2 ∷ 3 ∷ 4 ∷ 5 ∷ 6 ∷ 7 ∷ 8 ∷ 9 ∷ 10 ∷ 11 ∷ 12 ∷ 13 ∷ 14 ∷ 15 ∷ 16 ∷ []

abbrev token : Minted
token = mint_bearer server.libraries.sha256 prefix_bytes secret_bytes

abbrev enrolled_edge : Store
enrolled_edge = (mint_token 8 (codes "a") (codes "t") token.prefix token.secret_hash ready).0

free_prefix : get token.prefix ready.tokens ≡ none
unfolding program
free_prefix = refl

prefix_Bytes : Bytes prefix_bytes
prefix_Bytes = omega arith

secret_Bytes : Bytes secret_bytes
secret_Bytes = omega arith

abbrev new_edge_token : AgentToken
new_edge_token = new_token 8 (codes "a") (codes "t") token.prefix

handle_get_config-handle_mint_token_example :
    ((handle_mint_token server 8
        (some (prefix_bytes, secret_bytes))
        (codes "a")
        (decoded (codes "t"))
        ready).1
      ≡ written_after
          (decoded (codes "t"))
          (reply 201 none (some record { token = token.token; metadata = new_edge_token })))
    × ((handle_get_config server 9
          (codes "a")
          (codes "Bearer " ++ token.token)
          []
          (handle_mint_token server 8
            (some (prefix_bytes, secret_bytes))
            (codes "a")
            (decoded (codes "t"))
            ready).0).1
        ≡ serve_config server
            (record { token = new_edge_token; agent = edge_row; fleet_id = codes "f" })
            []
            ready)
handle_get_config-handle_mint_token_example =
    handle_get_config-handle_mint_token server 8 9 (codes "a") [] (decoded (codes "t")) prefix_bytes
      secret_bytes ready edge_row prefix_Bytes secret_Bytes refl refl edge_found refl free_prefix

abbrev published : Revision
published = saved_revision 7 1 (revision 1)

abbrev body : ConfigBody
body = published_body edge_row published

served :
    (handle_get_config server 9 (codes "a") (codes "Bearer " ++ token.token) [] enrolled_edge).1
    ≡ reply 200 (some (codes "e")) (some body)
unfolding program
served = refl

handle_get_config_guarded_example :
    (rec : TokenRecord) × Known server (codes "Bearer " ++ token.token) enrolled_edge rec
    × (rec.agent.id ≡ codes "a")
    × Served server (codes "a") rec.agent.fleet_id enrolled_edge 200 (some (codes "e")) (some body)
handle_get_config_guarded_example =
    handle_get_config_guarded server 9 (codes "a") (codes "Bearer " ++ token.token) [] enrolled_edge
      200 (some (codes "e")) (some body) served

all_tags :
    (id : Text) (r : Revision) → get_published_revision id enrolled_edge ≡ ok r → IsTag r.etag
unfolding program
all_tags id r e = elim (Bool-cases (text_beq (codes "f") id)) [
  | inl same ↦
      subst (λ z. IsTag z.etag) (let one : published ≡ r = ground arith in one)
        (((refl, refl), tt), refl, λ q. ground arith)
  | inr other ↦ absurd (ground arith)
]

handle_get_config_again_example :
    (handle_get_config server 12
      (codes "a")
      (codes "Bearer " ++ token.token)
      (codes "e")
      (handle_get_config server 9
        (codes "a")
        (codes "Bearer " ++ token.token)
        []
        enrolled_edge).0).1
    ≡ reply 304 (some (codes "e")) none
handle_get_config_again_example =
    handle_get_config_again server 9 12 (codes "a") (codes "Bearer " ++ token.token) []
      enrolled_edge (codes "e") (some body) (λ t. omega arith) all_tags served

ready_can : CanPublish (codes "f") ready
ready_can = record {
  fleet = fleet_row;
  wf = run-Wf script (omega arith);
  there = fleet_found;
  small = ready-Small;
  room = ready_room;
}

abbrev compiled_nothing : Compiled
compiled_nothing = record { config = codes "doc"; etag = codes "\"sha256-0102\"" }

compiles :
    compile server.libraries
      (list_proxy_hosts (codes "f") ready)
      (list_certificates (codes "f") ready)
    ≡ inr compiled_nothing
unfolding program
compiles = refl

abbrev new_row : Revision
new_row =
    signed_row server 9
      (unsigned (codes "f") 2 compiled_nothing (list_proxy_hosts (codes "f") ready)
        (list_certificates (codes "f") ready) (trim_space (codes " note ")))
      ready

handle_publish_revision-Serves_example :
    ((handle_publish_revision server 9 (codes "f") (decoded (codes " note ")) ready).1
      ≡ written_after (decoded (codes " note ")) (reply 201 none (some new_row)))
    × Serves
        (codes "f")
        new_row
        ready
        (handle_publish_revision server 9 (codes "f") (decoded (codes " note ")) ready).0
handle_publish_revision-Serves_example =
    handle_publish_revision-Serves server 9 (codes "f") (decoded (codes " note ")) ready
      compiled_nothing 2 ready_can compiles next_is_two

first_found : get_revision (codes "f") 1 ready ≡ ok published
unfolding program
first_found = refl

handle_rollback-Serves_example :
    ((handle_rollback server 9 (codes "f") (some 1) ready).1
      ≡ reply 201 none (some (signed_row server 9 (rolled_back (codes "f") 2 1 published) ready)))
    × Serves
        (codes "f")
        (signed_row server 9 (rolled_back (codes "f") 2 1 published) ready)
        ready
        (handle_rollback server 9 (codes "f") (some 1) ready).0
handle_rollback-Serves_example =
    handle_rollback-Serves server 9 (codes "f") 1 ready published 2 ready_can first_found
      next_is_two

-- A signature is the key with the configuration behind it; a reply's text stands for its fields.
abbrev public_key : Text
public_key = codes "0123456789abcdef0123456789abcdef"

abbrev signing : Text → Text
signing t = public_key ++ t

abbrev signing_server : Server
signing_server = record server { signer = some signing }

abbrev snapshot : Revision
snapshot = record published { source_proxy_hosts = json (host (codes "b") (codes "b.org") ∷ []) }

abbrev built : ConfigBody
built = recompiled_body (some signing) compiled_nothing (published_body edge_row snapshot)

abbrev plugin : Externals
plugin = record {
  decode_response = λ t. some (wire built);
  encode_response = λ cr. none;
  decode_cache = λ t. none;
  encode_cache = λ c. none;
  decode_base64 = λ t. some t;
  ed25519_verify = λ key m sig. sig == key ++ m;
  parses_url = λ u. true;
}

abbrev settings : Resolved
settings = record {
  endpoint = codes "http://m";
  fleet_id = codes "f";
  agent_id = codes "a";
  token = codes "t";
  poll_interval = 0;
  poll_timeout = 0;
  cache_file = [];
  fail_mode = [];
  signing_public_key = public_key;
}

toy-PrintsObjects : PrintsObjects toy
unfolding trim_space trim_right drop_while is_space
toy-PrintsObjects k v m t e =
    subst Serious (let one : codes "doc" ≡ t = ground arith in one)
      ((λ q. ground arith), (λ q. ground arith), (λ q. ground arith))

settings-Trusts : Trusts plugin settings signing
settings-Trusts = record {
  key = public_key;
  configured = refl;
  key_size = refl;
  signed = λ m e. ground arith;
  verifies = λ m. (signing m, refl, ==_refl (signing m));
}

built_for_edge : build_agent_config_response signing_server edge_row snapshot ≡ inr built
unfolding program
built_for_edge = refl

read_reply-build_agent_config_response_example :
    read_reply plugin settings
      record { status_code = 200; etag = built.etag; body = some (codes "reply") }
    ≡ inr (modified (wire built) built.etag)
unfolding saved_revision
read_reply-build_agent_config_response_example =
    read_reply-build_agent_config_response plugin settings signing_server signing edge_row snapshot
      built (host (codes "b") (codes "b.org")) [] (codes "reply") toy-PrintsObjects refl
      settings-Trusts refl refl refl built_for_edge refl

abbrev create_b : Option Text → Store → Store × Response Fleet
create_b actor s = handle_create_fleet 9 (decoded record { id = codes "b"; name = codes "B" }) s

serve_request_audited_example :
    (serve_request server 9
        (codes "POST")
        (codes "/api/v1/fleets")
        (codes "Bearer boot")
        create_b
        ready
      ≡ (ready, problem 401 (codes "admin authentication required")))
    ⊎ ((actor : Text) × (t : Store) × Authorized server 9 (codes "Bearer boot") ready actor t
        × ((serve_request server 9
              (codes "POST")
              (codes "/api/v1/fleets")
              (codes "Bearer boot")
              create_b
              ready).1
            ≡ (create_b (some actor) t).1)
        × ((serve_request server 9
              (codes "POST")
              (codes "/api/v1/fleets")
              (codes "Bearer boot")
              create_b
              ready).0.audit
            ≡ (create_b (some actor) t).0.audit
              ++ (record (audit_row actor
                  (codes "POST")
                  (codes "/api/v1/fleets")
                  (status_of (create_b (some actor) t).1)) {
                    id = inc (create_b (some actor) t).0.audit_seq;
                    created_at = 9;
                  })
                ∷ []))
unfolding program
serve_request_audited_example =
    serve_request_audited server 9 (codes "POST") (codes "/api/v1/fleets") (codes "Bearer boot")
      create_b ready refl refl

fleets_of_paths :
    map fleet_id_from_path
      (codes "/api/v1/fleets/eu/revisions" ∷ codes "/api/v1/fleets" ∷ codes "/api/v1/fleets/" ∷ [])
    ≡ some (codes "eu") ∷ none ∷ none ∷ []
unfolding program fleet_id_from_path
fleets_of_paths = refl

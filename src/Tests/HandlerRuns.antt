-- ===== src/Tests/HandlerRuns.antt =====
-- The handlers for proxy hosts and certificates (apps/api/internal/api) at work.
use proxydock.Api.Access.{
  authenticate_agent, bearer_header, check_admin_auth, has_suffix, is_public_path, require_admin,
}
use proxydock.Api.Answers.{
  Decoded, and_answer, answer, decoded, error_status, no_body, no_content, problem, reply,
  store_error, with_body, written_after,
}
use proxydock.Api.Certificates.{
  CertificateInput, ParsedCertificate, create_from_input, handle_create_certificate,
  handle_delete_certificate, handle_get_certificate, handle_list_certificates, map_result,
  without_key,
}
use proxydock.Api.Checked.{Created, handle_create_proxy_host-Created}
use proxydock.Api.Configs.{
  agent_hosts, build_agent_config_response, compile_for_agent, config_answer, etag_matches,
  handle_agent_config_preview, handle_get_config, handle_heartbeat, recompiled_body, serve_config,
  snapshot_certs,
}
use proxydock.Api.HookSecrets.{IsSecretless, handlers_IsSecretless}
use proxydock.Api.Hooks.{
  WebhookInput, handle_create_webhook, handle_list_webhooks, handle_update_webhook,
}
use proxydock.Api.Hosts.{
  ProxyHostInput, create_host, enabled_or_default, handle_create_proxy_host,
  handle_delete_proxy_host, handle_get_proxy_host, handle_get_revision, handle_list_proxy_hosts,
  handle_list_revisions, handle_update_proxy_host, host_of_input, input_fault, input_text, no_input,
  validate_input, with_id,
}
use proxydock.Api.Resources.{
  handle_create_agent, handle_create_fleet, handle_delete_agent, handle_delete_fleet,
  handle_get_agent, handle_get_fleet, handle_list_admin_tokens, handle_list_agents,
  handle_list_fleets, handle_list_tokens, handle_mint_admin_token, handle_mint_token,
  handle_revoke_admin_token, handle_revoke_token, handle_update_agent_labels, label_fault, of_fleet,
}
use proxydock.Api.Revisions.{
  copied_certificate, copied_host, enqueue_all, fire_webhooks, handle_publish_revision,
  handle_rollback, itoa, publish, publish_compiled, sign_revision,
}
use proxydock.Api.Secrets.{Holds, IsKeyless, handlers_IsKeyless}
use proxydock.Auth.{
  hex_digit, hex_encode, hex_valid, is_hex, mint_bearer, parse_bearer, parse_rest, verify_secret,
}
use proxydock.Compiler.Compile.{
  compile, compile_ordered, compiled, document, filter_by_protocol, is_protocol, ordered,
}
use proxydock.Compiler.Middlewares.{
  attempts_of, chain_refs, config_value, first_bad, first_dangling, first_unknown, has_key,
  int_range, is_chain, is_positive, kind_of, put_if, redirect_body, render_kind, render_middleware,
  render_strings, retry_body, string_of, strings_of, to_int, to_string_slice, validate_middlewares,
}
use proxydock.Compiler.Names.{
  decimal, decimal_within, entry_points_or, is_alphanumeric, is_label, looks_like_domain,
  middleware_name, or_web, or_websecure, sanitize_name, sanitize_rune,
}
use proxydock.Compiler.Sections.{
  certificate_value, compile_http, compile_http_host, compile_http_hosts, compile_l4,
  compile_l4_hosts, compile_tcp, compile_udp, copy_port, copy_redirects, copy_text,
  health_check_block, http_router, http_value, listed, render_all, render_cert_pool,
  render_http_service, render_l4_service, resolve_chains, resolve_refs, resolve_value, router_value,
  routers_value, servers, strings_value, tcp_router, udp_router,
}
use proxydock.Compiler.Upstreams.{
  check_tcp_upstream, check_upstream, cut_last, digits_from, effective_upstream_urls, is_port,
  split_host_port, tcp_address, trim_prefix,
}
use proxydock.Compiler.Validation.{
  entry_point_errors, http_upstream_errors, middleware_errors, note_use, protocol_of, scheme_of,
  tcp_upstream_errors, validate_all, validate_enabled, validate_host, validate_hosts, validate_http,
  validate_tcp, validate_udp,
}
use proxydock.Labels.{have, is_empty, label, matches, parse, parse_part, parse_parts, satisfied}
use proxydock.Model.{ProxyHost}
use proxydock.Prelude.{
  All, Text, [], all, any, codes, inr, insert_sorted, keep, nat_eq, none, refl, some, sort,
  text_beq, text_eq, text_lt, ◌∷◌, ◌≡◌, ◌⊎◌,
}
use proxydock.Prelude.GoMap.{delete, delete_where, find, get, put}
use proxydock.Prelude.Strings.{
  byte_length, contains, cut, drop, drop_while, has_prefix, is_space, split, trim_right, trim_space,
}
use proxydock.Store.Acme.{claim_next_acme_job, claim_scan, create_acme_job, new_acme_job}
use proxydock.Store.Agents.{create_agent, get_agent}
use proxydock.Store.Audit.{append_audit_entry}
use proxydock.Store.Certificates.{list_certificates}
use proxydock.Store.Fleets.{create_fleet, get_fleet}
use proxydock.Store.Invariant.{apply, run}
use proxydock.Store.ProxyHosts.{
  create_proxy_host, delete_proxy_host, get_proxy_host, list_of_url, list_proxy_hosts,
  new_proxy_host, update_proxy_host, updated_proxy_host, url_of_list,
}
use proxydock.Store.Revisions.{
  create_revision, get_published_revision, get_revision, max_number, next_revision_number,
  saved_revision,
}
use proxydock.Store.State.{Store}
use proxydock.Store.Tokens.{
  lookup_admin_token, lookup_token, mint_token, revoke_token, touch_admin_token, touch_token,
}
use proxydock.Store.Webhooks.{list_enabled_webhooks, listens}
use proxydock.Tests.ApiRuns.{server}
use proxydock.Tests.StoreRuns.{ready}

program : Unit {0}
unfolding is_protocol filter_by_protocol ordered document compiled compile_ordered compile kind_of
    is_chain int_range to_int strings_of to_string_slice string_of config_value render_strings
    put_if redirect_body is_positive retry_body attempts_of has_key render_kind render_middleware
    chain_refs first_bad first_unknown first_dangling validate_middlewares decimal_within decimal
    is_alphanumeric sanitize_rune sanitize_name middleware_name is_label looks_like_domain
    entry_points_or or_web or_websecure strings_value router_value servers render_l4_service
    copy_text copy_port copy_redirects health_check_block render_http_service resolve_refs listed
    resolve_value resolve_chains http_router render_all compile_http_host compile_http_hosts
    routers_value http_value compile_http tcp_router udp_router compile_l4_hosts compile_l4
    compile_tcp compile_udp certificate_value render_cert_pool trim_prefix tcp_address
    effective_upstream_urls check_upstream cut_last split_host_port digits_from is_port
    check_tcp_upstream note_use scheme_of http_upstream_errors tcp_upstream_errors middleware_errors
    entry_point_errors validate_http validate_tcp validate_udp protocol_of validate_enabled
    validate_host validate_hosts validate_all drop has_prefix trim_space trim_right drop_while
    is_space contains cut split byte_length get put delete find delete_where any all keep text_beq
    text_lt sort insert_sorted hex_encode hex_digit run apply create_fleet create_agent
    create_revision saved_revision create_acme_job new_acme_job next_revision_number max_number
    claim_next_acme_job claim_scan mint_token revoke_token append_audit_entry bearer_header
    authenticate_agent has_suffix is_public_path check_admin_auth require_admin error_status
    store_error written_after agent_hosts snapshot_certs recompiled_body compile_for_agent
    build_agent_config_response etag_matches config_answer serve_config handle_get_config
    handle_agent_config_preview handle_heartbeat sign_revision enqueue_all fire_webhooks copied_host
    copied_certificate publish publish_compiled handle_publish_revision itoa handle_rollback
    parse_bearer parse_rest verify_secret mint_bearer hex_valid is_hex lookup_token touch_token
    lookup_admin_token touch_admin_token get_agent get_published_revision get_revision get_fleet
    list_proxy_hosts list_certificates list_enabled_webhooks listens parse parse_parts parse_part
    matches satisfied have is_empty label input_text validate_input enabled_or_default input_fault
    handle_list_proxy_hosts create_host handle_create_proxy_host with_id handle_get_proxy_host
    handle_update_proxy_host handle_delete_proxy_host handle_list_revisions handle_get_revision
    without_key map_result handle_list_certificates handle_get_certificate create_from_input
    handle_create_certificate handle_delete_certificate handle_list_fleets handle_create_fleet
    handle_get_fleet handle_delete_fleet of_fleet handle_list_agents handle_create_agent
    handle_get_agent handle_delete_agent label_fault handle_update_agent_labels handle_list_tokens
    handle_mint_token handle_revoke_token handle_list_admin_tokens handle_mint_admin_token
    handle_revoke_admin_token with_body answer no_content and_answer list_of_url url_of_list
    new_proxy_host create_proxy_host get_proxy_host updated_proxy_host update_proxy_host
    delete_proxy_host
program = tt

abbrev pem : Text → Text → Text ⊎ ParsedCertificate
pem c k = inr record {
  cert_pem = c;
  key_pem = k;
  fingerprint = [];
  subject = [];
  issuer = [];
  dns_names = none;
  not_before = 0;
  not_after = 9;
}

abbrev certificate_body : Decoded CertificateInput
certificate_body =
    decoded record { name = codes "c"; cert_pem = codes "public"; key_pem = codes "private" }

handlers_IsKeyless_example :
    Holds (All IsKeyless) (
      handle_list_certificates
        (codes "f")
        (handle_create_certificate pem 9 (codes "f") certificate_body ready).0)
    × Holds IsKeyless
        (handle_get_certificate
          (codes "f")
          (some 1)
          (handle_create_certificate pem 9 (codes "f") certificate_body ready).0).1
    × Holds IsKeyless
        (handle_create_certificate pem 9
          (codes "f")
          certificate_body
          (handle_create_certificate pem 9 (codes "f") certificate_body ready).0).1
handlers_IsKeyless_example =
    handlers_IsKeyless pem 9 (codes "f") (some 1) certificate_body
      (handle_create_certificate pem 9 (codes "f") certificate_body ready).0

abbrev host_input : ProxyHostInput
host_input = record no_input {
  name = codes "web";
  domain = codes "a.org";
  upstream_url = codes "http://u";
  label_selector = codes "zone=eu";
}

abbrev host_row : ProxyHost
host_row = new_proxy_host 9 1 (host_of_input 0 (codes "f") host_input)

host_created :
    (handle_create_proxy_host server 9 (codes "f") (decoded host_input) ready).1
    ≡ reply 201 none (some host_row)
unfolding program
host_created = refl

handle_create_proxy_host-Created_example :
    Created
      (codes "f")
      (handle_create_proxy_host server 9 (codes "f") (decoded host_input) ready).0
      host_row
handle_create_proxy_host-Created_example =
    handle_create_proxy_host-Created server 9 (codes "f") (decoded host_input) ready none host_row
      host_created

nameless :
    (handle_create_proxy_host server 9 (codes "f") no_body ready).1
    ≡ problem 400 (codes "name is required")
unfolding program
nameless = refl

bad_number :
    (handle_get_certificate (codes "f") none ready).1
    ≡ problem 400 (codes "cert_id must be an integer")
unfolding program
bad_number = refl

labelled :
    label_fault (codes "a=b" ∷ codes " =c" ∷ [])
    ≡ some (codes "labels: each entry must be key=value")
unfolding program
labelled = refl

abbrev hook_body : Decoded WebhookInput
hook_body = decoded record {
  name = codes "w";
  url = codes "http://u";
  secret = codes "s";
  events = some (codes "revision_published" ∷ []);
  enabled = none;
}

abbrev hooked : Store
hooked = (handle_create_webhook server 9 (codes "f") hook_body ready).0

handlers_IsSecretless_example :
    Holds (All IsSecretless) (handle_list_webhooks (codes "f") hooked)
    × Holds IsSecretless (handle_create_webhook server 10 (codes "f") hook_body hooked).1
    × Holds IsSecretless (handle_update_webhook server (codes "f") (some 1) hook_body hooked).1
handlers_IsSecretless_example =
    handlers_IsSecretless server 10 (codes "f") (some 1) hook_body hooked

-- ===== src/Tests/AcmeRuns.antt =====
-- The ACME worker (apps/api/cmd/manager-api) at work.
use proxydock.Api.Access.{
  authenticate_agent, bearer_header, check_admin_auth, has_suffix, is_public_path, require_admin,
}
use proxydock.Api.Answers.{
  and_answer, answer, error_status, no_content, store_error, with_body, written_after,
}
use proxydock.Api.Certificates.{
  certificate_of, create_from_input, handle_create_certificate, handle_delete_certificate,
  handle_get_certificate, handle_list_certificates, map_result, without_key,
}
use proxydock.Api.Configs.{
  agent_hosts, build_agent_config_response, compile_for_agent, config_answer, etag_matches,
  handle_agent_config_preview, handle_get_config, handle_heartbeat, recompiled_body, serve_config,
  snapshot_certs,
}
use proxydock.Api.Hosts.{
  create_host, enabled_or_default, handle_create_proxy_host, handle_delete_proxy_host,
  handle_get_proxy_host, handle_get_revision, handle_list_proxy_hosts, handle_list_revisions,
  handle_update_proxy_host, input_fault, input_text, validate_input, with_id,
}
use proxydock.Api.Resources.{
  handle_create_agent, handle_create_fleet, handle_delete_agent, handle_delete_fleet,
  handle_get_agent, handle_get_fleet, handle_list_admin_tokens, handle_list_agents,
  handle_list_fleets, handle_list_tokens, handle_mint_admin_token, handle_mint_token,
  handle_revoke_admin_token, handle_revoke_token, handle_update_agent_labels, label_fault, of_fleet,
}
use proxydock.Api.Revisions.{
  copied_certificate, copied_host, enqueue_all, fire_webhooks, handle_publish_revision,
  handle_rollback, itoa, publish, publish_compiled, sign_revision,
}
use proxydock.Auth.{
  hex_digit, hex_encode, hex_valid, is_hex, mint_bearer, parse_bearer, parse_rest, verify_secret,
}
use proxydock.Compiler.Compile.{
  compile, compile_ordered, compiled, document, filter_by_protocol, is_protocol, ordered,
}
use proxydock.Compiler.Middlewares.{
  attempts_of, chain_refs, config_value, first_bad, first_dangling, first_unknown, has_key,
  int_range, is_chain, is_positive, kind_of, put_if, redirect_body, render_kind, render_middleware,
  render_strings, retry_body, string_of, strings_of, to_int, to_string_slice, validate_middlewares,
}
use proxydock.Compiler.Names.{
  decimal, decimal_within, entry_points_or, is_alphanumeric, is_label, looks_like_domain,
  middleware_name, or_web, or_websecure, sanitize_name, sanitize_rune,
}
use proxydock.Compiler.Sections.{
  certificate_value, compile_http, compile_http_host, compile_http_hosts, compile_l4,
  compile_l4_hosts, compile_tcp, compile_udp, copy_port, copy_redirects, copy_text,
  health_check_block, http_router, http_value, listed, render_all, render_cert_pool,
  render_http_service, render_l4_service, resolve_chains, resolve_refs, resolve_value, router_value,
  routers_value, servers, strings_value, tcp_router, udp_router,
}
use proxydock.Compiler.Upstreams.{
  check_tcp_upstream, check_upstream, cut_last, digits_from, effective_upstream_urls, is_port,
  split_host_port, tcp_address, trim_prefix,
}
use proxydock.Compiler.Validation.{
  entry_point_errors, http_upstream_errors, middleware_errors, note_use, protocol_of, scheme_of,
  tcp_upstream_errors, validate_all, validate_enabled, validate_host, validate_hosts, validate_http,
  validate_tcp, validate_udp,
}
use proxydock.Labels.{have, is_empty, label, matches, parse, parse_part, parse_parts, satisfied}
use proxydock.Model.{AcmeJob, Certificate}
use proxydock.Prelude.{
  [], all, any, arith, codes, false, inr, insert_sorted, keep, map, nat_eq, none, refl, some, sort,
  text_beq, text_eq, text_lt, true, ℕ, ◌<◌, ◌∷◌, ◌≡◌,
}
use proxydock.Prelude.GoMap.{delete, delete_where, find, get, put}
use proxydock.Prelude.Strings.{
  byte_length, contains, cut, drop, drop_while, has_prefix, is_space, split, trim_right, trim_space,
}
use proxydock.Store.Acme.{
  claim_next_acme_job, claim_scan, create_acme_job, create_dns_provider, delete_acme_account,
  delete_dns_provider, get_acme_account, get_acme_job, get_dns_provider, get_dns_provider_by_name,
  is_pending, list_acme_jobs, list_dns_providers, mark_acme_job_failed, mark_acme_job_succeeded,
  new_acme_job, new_dns_provider, upsert_acme_account,
}
use proxydock.Store.Agents.{create_agent, get_agent}
use proxydock.Store.Audit.{append_audit_entry}
use proxydock.Store.Certificates.{
  create_certificate, delete_certificate, get_certificate, list_all_acme_certificates,
  list_certificates, new_certificate, renewed, update_certificate_material,
}
use proxydock.Store.Fleets.{create_fleet, get_fleet}
use proxydock.Store.Invariant.{apply, run}
use proxydock.Store.ProxyHosts.{
  create_proxy_host, delete_proxy_host, get_proxy_host, list_of_url, list_proxy_hosts,
  new_proxy_host, update_proxy_host, updated_proxy_host, url_of_list,
}
use proxydock.Store.Revisions.{
  create_revision, get_published_revision, get_revision, max_number, next_revision_number,
  saved_revision,
}
use proxydock.Store.State.{Store}
use proxydock.Store.Tokens.{
  lookup_admin_token, lookup_token, mint_token, revoke_token, touch_admin_token, touch_token,
}
use proxydock.Store.Webhooks.{list_enabled_webhooks, listens}
use proxydock.Tests.ApiRuns.{server}
use proxydock.Tests.StoreRuns.{job, ready}
use proxydock.Worker.Acme.{
  AcmeCalls, error_text, execute_acme_job, publish_fleets, publish_revision_for_fleet, renew_cert,
  renew_certs, renew_once, run_acme_job, should_renew, store_issued,
}
use proxydock.Worker.Drain.{count_pending, drain_acme_jobs, drain_acme_jobs_ends}
use proxydock.Worker.Outcome.{Finished, There, run_acme_job-Finished}

program : Unit {0}
unfolding is_protocol filter_by_protocol ordered document compiled compile_ordered compile kind_of
    is_chain int_range to_int strings_of to_string_slice string_of config_value render_strings
    put_if redirect_body is_positive retry_body attempts_of has_key render_kind render_middleware
    chain_refs first_bad first_unknown first_dangling validate_middlewares decimal_within decimal
    is_alphanumeric sanitize_rune sanitize_name middleware_name is_label looks_like_domain
    entry_points_or or_web or_websecure strings_value router_value servers render_l4_service
    copy_text copy_port copy_redirects health_check_block render_http_service resolve_refs listed
    resolve_value resolve_chains http_router render_all compile_http_host compile_http_hosts
    routers_value http_value compile_http tcp_router udp_router compile_l4_hosts compile_l4
    compile_tcp compile_udp certificate_value render_cert_pool trim_prefix tcp_address
    effective_upstream_urls check_upstream cut_last split_host_port digits_from is_port
    check_tcp_upstream note_use scheme_of http_upstream_errors tcp_upstream_errors middleware_errors
    entry_point_errors validate_http validate_tcp validate_udp protocol_of validate_enabled
    validate_host validate_hosts validate_all drop has_prefix trim_space trim_right drop_while
    is_space contains cut split byte_length get put delete find delete_where any all keep text_beq
    text_lt sort insert_sorted hex_encode hex_digit run apply create_fleet create_agent
    create_revision saved_revision create_acme_job new_acme_job next_revision_number max_number
    claim_next_acme_job claim_scan mint_token revoke_token append_audit_entry bearer_header
    authenticate_agent has_suffix is_public_path check_admin_auth require_admin error_status
    store_error written_after agent_hosts snapshot_certs recompiled_body compile_for_agent
    build_agent_config_response etag_matches config_answer serve_config handle_get_config
    handle_agent_config_preview handle_heartbeat sign_revision enqueue_all fire_webhooks copied_host
    copied_certificate publish publish_compiled handle_publish_revision itoa handle_rollback
    parse_bearer parse_rest verify_secret mint_bearer hex_valid is_hex lookup_token touch_token
    lookup_admin_token touch_admin_token get_agent get_published_revision get_revision get_fleet
    list_proxy_hosts list_certificates list_enabled_webhooks listens parse parse_parts parse_part
    matches satisfied have is_empty label input_text validate_input enabled_or_default input_fault
    handle_list_proxy_hosts create_host handle_create_proxy_host with_id handle_get_proxy_host
    handle_update_proxy_host handle_delete_proxy_host handle_list_revisions handle_get_revision
    without_key map_result handle_list_certificates handle_get_certificate create_from_input
    handle_create_certificate handle_delete_certificate handle_list_fleets handle_create_fleet
    handle_get_fleet handle_delete_fleet of_fleet handle_list_agents handle_create_agent
    handle_get_agent handle_delete_agent label_fault handle_update_agent_labels handle_list_tokens
    handle_mint_token handle_revoke_token handle_list_admin_tokens handle_mint_admin_token
    handle_revoke_admin_token with_body answer no_content and_answer list_of_url url_of_list
    new_proxy_host create_proxy_host get_proxy_host updated_proxy_host update_proxy_host
    delete_proxy_host error_text publish_revision_for_fleet store_issued execute_acme_job
    run_acme_job should_renew renew_cert renew_certs publish_fleets renew_once drain_acme_jobs
    get_acme_job list_acme_jobs mark_acme_job_succeeded mark_acme_job_failed upsert_acme_account
    get_acme_account delete_acme_account new_dns_provider create_dns_provider get_dns_provider
    get_dns_provider_by_name list_dns_providers delete_dns_provider new_certificate renewed
    create_certificate get_certificate delete_certificate list_all_acme_certificates
    update_certificate_material
program = tt

abbrev calls : AcmeCalls
calls = record {
  account_key = λ t. none;
  build = λ d. none;
  issue = λ a d names. inr record {
    cert_pem = codes "public";
    key_pem = codes "private";
    fingerprint = [];
    subject = [];
    issuer = [];
    dns_names = names;
    not_before = 0;
    not_after = 90;
  };
}

abbrev equipped : Store
equipped = record ready {
  acme_accounts =
      (
        codes "f",
        record {
          fleet_id = codes "f";
          directory_url = codes "https://acme";
          contact_email = [];
          account_key_pem = codes "key";
          account_url = [];
          created_at = 0;
        },
      )
      ∷ [];
  dns_providers =
      (
        1,
        record {
          id = 1;
          fleet_id = codes "f";
          name = codes "p";
          kind = codes "pebble";
          config = [];
          created_at = 0;
        },
      )
      ∷ [];
}

abbrev waiting : AcmeJob
waiting = new_acme_job 8 1 job

waiting_There : There 1 equipped
unfolding program
waiting_There = (waiting, refl)

run_acme_job-Finished_example : Finished 1 (run_acme_job server calls 9 waiting equipped)
unfolding new_acme_job
run_acme_job-Finished_example = run_acme_job-Finished server 9 calls waiting equipped waiting_There

issued :
    map (λ c. c.name) (list_certificates (codes "f") (run_acme_job server calls 9 waiting equipped))
    ≡ codes "c" ∷ []
unfolding program
issued = refl

one_pending : count_pending equipped.acme_jobs < 2
unfolding program
one_pending = omega arith

drain_acme_jobs_ends_example :
    (t : Store) × (drain_acme_jobs server calls 9 2 equipped ≡ some t)
    × ((i : ℕ) (j : AcmeJob) → get i t.acme_jobs ≡ some j → is_pending j.status ≡ false)
drain_acme_jobs_ends_example = drain_acme_jobs_ends server calls 9 2 equipped one_pending

abbrev certificate : Certificate
certificate =
    record (certificate_of (codes "f") (codes "c") record {
      cert_pem = [];
      key_pem = [];
      fingerprint = [];
      subject = [];
      issuer = [];
      dns_names = none;
      not_before = 0;
      not_after = 90;
    }) { source = codes "acme" }

two_thirds : map (should_renew certificate) (60 ∷ 61 ∷ []) ≡ false ∷ true ∷ []
unfolding program
two_thirds = refl

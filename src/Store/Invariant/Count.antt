-- ===== src/Store/Invariant/Count.antt =====
-- Each call raises a counter of the store by one at most.
use proxydock.Prelude.{arith, false, true, ℕ, ◌+◌, ◌<◌, ◌^◌}
use proxydock.Store.Audit.{append_audit_entry}
use proxydock.Store.Cases.Claims.{claim_next_acme_job_cases, claim_next_webhook_job_cases}
use proxydock.Store.Cases.Hooks.{
  create_certificate_cases, create_dns_provider_cases, create_webhook_cases,
  delete_certificate_cases, delete_dns_provider_cases, delete_webhook_cases,
  update_certificate_material_cases, update_webhook_cases,
}
use proxydock.Store.Cases.Hosts.{
  create_middleware_template_cases, create_proxy_host_cases, delete_middleware_template_cases,
  delete_proxy_host_cases, update_middleware_template_cases, update_proxy_host_cases,
}
use proxydock.Store.Cases.Jobs.{
  create_acme_job_cases, delete_acme_account_cases, finish_webhook_job_cases,
  mark_acme_job_failed_cases, mark_acme_job_succeeded_cases, upsert_acme_account_cases,
}
use proxydock.Store.Cases.Owners.{
  create_agent_cases, create_fleet_cases, delete_agent_cases, delete_fleet_cases,
  update_agent_heartbeat_cases, update_agent_labels_cases,
}
use proxydock.Store.Cases.Published.{create_revision_cases, set_published_revision_cases}
use proxydock.Store.Cases.Tokens.{
  mint_admin_token_cases, mint_token_cases, revoke_admin_token_cases, revoke_token_cases,
  touch_admin_token_cases, touch_token_cases,
}
use proxydock.Store.Invariant.{
  Counted, Op, append_audit, apply, asked_fleet, claim_acme_jobs, claim_webhook_jobs,
  create_acme_jobs, create_agents, create_certificates, create_fleets, create_hosts,
  create_providers, create_revisions, create_templates, create_webhooks, delete_accounts,
  delete_agents, delete_certificates, delete_fleets, delete_hosts, delete_providers,
  delete_templates, delete_webhooks, enqueue_webhook_jobs, finish_webhook_jobs, heartbeats,
  mark_acme_failed, mark_acme_succeeded, mint_admin_tokens, mint_tokens, revoke_admin_tokens,
  revoke_tokens, set_published, touch_admin_tokens, touch_tokens, update_certificates, update_hosts,
  update_labels, update_templates, update_webhooks, upsert_accounts,
}
use proxydock.Store.State.{Store}
use proxydock.Store.Webhooks.{enqueue_webhook_job}

module _ (b : ℕ) (room : b + 1 < 2 ^ 63) {s : Store} (counted : Counted b s) where
  up : Counted (b + 1) s
  up = omega arith

  pub step-Counted : (o : Op) → Counted (b + 1) (apply o s)
  unfolding apply enqueue_webhook_job append_audit_entry
  step-Counted (create_fleets now id name) =
      create_fleet_cases (Counted (b + 1)) s up now (asked_fleet id name) λ _. omega arith
  step-Counted (delete_fleets id) = delete_fleet_cases (Counted (b + 1)) s up id λ _ _. omega arith
  step-Counted (create_agents now a) =
      create_agent_cases (Counted (b + 1)) s up now a λ _ _ _. omega arith
  step-Counted (delete_agents id) = delete_agent_cases (Counted (b + 1)) s up id λ _ _. omega arith
  step-Counted (update_labels id labels) =
      update_agent_labels_cases (Counted (b + 1)) s up id labels λ _ _. omega arith
  step-Counted (heartbeats now id hb) =
      update_agent_heartbeat_cases (Counted (b + 1)) s up now id hb λ _ _. omega arith
  step-Counted (mint_tokens now agent_id name prefix hash) =
      mint_token_cases (Counted (b + 1)) s up now agent_id name prefix hash λ _ _ _. omega arith
  step-Counted (revoke_tokens now agent_id prefix) =
      revoke_token_cases (Counted (b + 1)) s up now agent_id prefix λ _ _ _. omega arith
  step-Counted (touch_tokens now prefix) =
      touch_token_cases (Counted (b + 1)) s up now prefix λ _ _. omega arith
  step-Counted (mint_admin_tokens now name prefix hash) =
      mint_admin_token_cases (Counted (b + 1)) s up now name prefix hash λ _. omega arith
  step-Counted (revoke_admin_tokens now prefix) =
      revoke_admin_token_cases (Counted (b + 1)) s up now prefix λ _ _. omega arith
  step-Counted (touch_admin_tokens now prefix) =
      touch_admin_token_cases (Counted (b + 1)) s up now prefix λ _ _. omega arith
  step-Counted (create_hosts now p) =
      create_proxy_host_cases (Counted (b + 1)) s up now p λ _ _ _. omega arith
  step-Counted (update_hosts now p) =
      update_proxy_host_cases (Counted (b + 1)) s up now p λ _ _ _ _. omega arith
  step-Counted (delete_hosts fleet_id id) =
      delete_proxy_host_cases (Counted (b + 1)) s up fleet_id id λ _ _ _. omega arith
  step-Counted (create_templates now t) =
      create_middleware_template_cases (Counted (b + 1)) s up now t λ _ _ _. omega arith
  step-Counted (update_templates now t) =
      update_middleware_template_cases (Counted (b + 1)) s up now t λ _ _ _ _. omega arith
  step-Counted (delete_templates fleet_id id) =
      delete_middleware_template_cases (Counted (b + 1)) s up fleet_id id λ _ _ _. omega arith
  step-Counted (create_webhooks now w) =
      create_webhook_cases (Counted (b + 1)) s up now w λ _ _ _. omega arith
  step-Counted (update_webhooks w) =
      update_webhook_cases (Counted (b + 1)) s up w λ _ _ _ _. omega arith
  step-Counted (delete_webhooks fleet_id id) =
      delete_webhook_cases (Counted (b + 1)) s up fleet_id id λ _ _ _. omega arith
  step-Counted (enqueue_webhook_jobs now j) = omega arith
  step-Counted (claim_webhook_jobs now) =
      claim_next_webhook_job_cases (Counted (b + 1)) s up now λ _ _ _. omega arith
  step-Counted (finish_webhook_jobs now id status e next n) =
      finish_webhook_job_cases (Counted (b + 1)) s up now id status e next n λ _ _. omega arith
  step-Counted (create_revisions now r true) =
      create_revision_cases (Counted (b + 1)) s up now r true λ _ _ _. omega arith
  step-Counted (create_revisions now r false) =
      create_revision_cases (Counted (b + 1)) s up now r false λ _ _ _. omega arith
  step-Counted (set_published fleet_id id) =
      set_published_revision_cases (Counted (b + 1)) s up fleet_id id λ _ _ _ _ _. omega arith
  step-Counted (create_certificates now c) =
      create_certificate_cases (Counted (b + 1)) s up now c λ _ _ _. omega arith
  step-Counted (update_certificates c) =
      update_certificate_material_cases (Counted (b + 1)) s up c λ _ _ _. omega arith
  step-Counted (delete_certificates fleet_id id) =
      delete_certificate_cases (Counted (b + 1)) s up fleet_id id λ _ _ _. omega arith
  step-Counted (create_acme_jobs now j) =
      create_acme_job_cases (Counted (b + 1)) s up now j λ _ _. omega arith
  step-Counted (claim_acme_jobs now) =
      claim_next_acme_job_cases (Counted (b + 1)) s up now λ _ _ _ _. omega arith
  step-Counted (mark_acme_succeeded now id cert_id) =
      mark_acme_job_succeeded_cases (Counted (b + 1)) s up now id cert_id λ _ _. omega arith
  step-Counted (mark_acme_failed now id e) =
      mark_acme_job_failed_cases (Counted (b + 1)) s up now id e λ _ _. omega arith
  step-Counted (upsert_accounts now a) =
      upsert_acme_account_cases (Counted (b + 1)) s up now a λ _ _. omega arith
  step-Counted (delete_accounts id) =
      delete_acme_account_cases (Counted (b + 1)) s up id λ _ _. omega arith
  step-Counted (create_providers now d) =
      create_dns_provider_cases (Counted (b + 1)) s up now d λ _ _ _. omega arith
  step-Counted (delete_providers fleet_id id) =
      delete_dns_provider_cases (Counted (b + 1)) s up fleet_id id λ _ _ _. omega arith
  step-Counted (append_audit now e) = omega arith

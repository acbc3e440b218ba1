-- ===== src/Store/Invariant/Step.antt =====
-- Each call keeps the store well-formed, as long as its counters have room.
use proxydock.Prelude.{arith, ℕ, ◌+◌, ◌<◌, ◌^◌}
use proxydock.Store.Audit.{append_audit_entry}
use proxydock.Store.Cases.Claims.{claim_next_acme_job_cases, claim_next_webhook_job_cases}
use proxydock.Store.Cases.Jobs.{
  create_acme_job_cases, delete_acme_account_cases, finish_webhook_job_cases,
  mark_acme_job_failed_cases, mark_acme_job_succeeded_cases, upsert_acme_account_cases,
}
use proxydock.Store.Cases.Tokens.{
  mint_admin_token_cases, mint_token_cases, revoke_admin_token_cases, revoke_token_cases,
  touch_admin_token_cases, touch_token_cases,
}
use proxydock.Store.Invariant.{
  Counted, Op, Wf, append_audit, apply, claim_acme_jobs, claim_webhook_jobs, create_acme_jobs,
  create_agents, create_certificates, create_fleets, create_hosts, create_providers,
  create_revisions, create_templates, create_webhooks, delete_accounts, delete_agents,
  delete_certificates, delete_fleets, delete_hosts, delete_providers, delete_templates,
  delete_webhooks, enqueue_webhook_jobs, finish_webhook_jobs, heartbeats, mark_acme_failed,
  mark_acme_succeeded, mint_admin_tokens, mint_tokens, revoke_admin_tokens, revoke_tokens,
  set_published, touch_admin_tokens, touch_tokens, update_certificates, update_hosts, update_labels,
  update_templates, update_webhooks, upsert_accounts,
}
use proxydock.Store.Invariant.Others.{
  create_certificate-Wf, create_dns_provider-Wf, create_middleware_template-Wf, create_webhook-Wf,
  delete_certificate-Wf, delete_dns_provider-Wf, delete_middleware_template-Wf, delete_webhook-Wf,
  update_certificate_material-Wf, update_middleware_template-Wf, update_webhook-Wf,
}
use proxydock.Store.Invariant.Publish.{create_revision-Wf, set_published_revision-Wf}
use proxydock.Store.Invariant.Rows.{
  create_agent-Wf, create_fleet-Wf, create_proxy_host-Wf, delete_agent-Wf, delete_fleet-Wf,
  delete_proxy_host-Wf, update_agent_heartbeat-Wf, update_agent_labels-Wf, update_proxy_host-Wf,
}
use proxydock.Store.State.{Store}
use proxydock.Store.Webhooks.{enqueue_webhook_job}

module _ (b : ℕ) (room : b + 1 < 2 ^ 63) {s : Store} (counted : Counted b s) (wf : Wf s) where
  pub step-Wf : (o : Op) → Wf (apply o s)
  unfolding apply enqueue_webhook_job append_audit_entry
  step-Wf (create_fleets now id name) = create_fleet-Wf wf now id name
  step-Wf (delete_fleets id) = delete_fleet-Wf wf id
  step-Wf (create_agents now a) = create_agent-Wf wf now a
  step-Wf (delete_agents id) = delete_agent-Wf wf id
  step-Wf (update_labels id labels) = update_agent_labels-Wf wf id labels
  step-Wf (heartbeats now id hb) = update_agent_heartbeat-Wf wf now id hb
  step-Wf (mint_tokens now agent_id name prefix hash) =
      mint_token_cases Wf s wf now agent_id name prefix hash λ _ _ _. assumption wf
  step-Wf (revoke_tokens now agent_id prefix) =
      revoke_token_cases Wf s wf now agent_id prefix λ _ _ _. assumption wf
  step-Wf (touch_tokens now prefix) = touch_token_cases Wf s wf now prefix λ _ _. assumption wf
  step-Wf (mint_admin_tokens now name prefix hash) =
      mint_admin_token_cases Wf s wf now name prefix hash λ _. assumption wf
  step-Wf (revoke_admin_tokens now prefix) =
      revoke_admin_token_cases Wf s wf now prefix λ _ _. assumption wf
  step-Wf (touch_admin_tokens now prefix) =
      touch_admin_token_cases Wf s wf now prefix λ _ _. assumption wf
  step-Wf (create_hosts now p) = create_proxy_host-Wf wf now p (omega arith)
  step-Wf (update_hosts now p) = update_proxy_host-Wf wf now p
  step-Wf (delete_hosts fleet_id id) = delete_proxy_host-Wf wf fleet_id id
  step-Wf (create_templates now t) = create_middleware_template-Wf wf now t (omega arith)
  step-Wf (update_templates now t) = update_middleware_template-Wf wf now t
  step-Wf (delete_templates fleet_id id) = delete_middleware_template-Wf wf fleet_id id
  step-Wf (create_webhooks now w) = create_webhook-Wf wf now w (omega arith)
  step-Wf (update_webhooks w) = update_webhook-Wf wf w
  step-Wf (delete_webhooks fleet_id id) = delete_webhook-Wf wf fleet_id id
  step-Wf (enqueue_webhook_jobs now j) = assumption wf
  step-Wf (claim_webhook_jobs now) = claim_next_webhook_job_cases Wf s wf now λ _ _ _. assumption wf
  step-Wf (finish_webhook_jobs now id status e next n) =
      finish_webhook_job_cases Wf s wf now id status e next n λ _ _. assumption wf
  step-Wf (create_revisions now r p) = create_revision-Wf wf now r p (omega arith)
  step-Wf (set_published fleet_id id) = set_published_revision-Wf wf fleet_id id
  step-Wf (create_certificates now c) = create_certificate-Wf wf now c (omega arith)
  step-Wf (update_certificates c) = update_certificate_material-Wf wf c
  step-Wf (delete_certificates fleet_id id) = delete_certificate-Wf wf fleet_id id
  step-Wf (create_acme_jobs now j) = create_acme_job_cases Wf s wf now j λ _ _. assumption wf
  step-Wf (claim_acme_jobs now) = claim_next_acme_job_cases Wf s wf now λ _ _ _ _. assumption wf
  step-Wf (mark_acme_succeeded now id cert_id) =
      mark_acme_job_succeeded_cases Wf s wf now id cert_id λ _ _. assumption wf
  step-Wf (mark_acme_failed now id e) =
      mark_acme_job_failed_cases Wf s wf now id e λ _ _. assumption wf
  step-Wf (upsert_accounts now a) = upsert_acme_account_cases Wf s wf now a λ _ _. assumption wf
  step-Wf (delete_accounts id) = delete_acme_account_cases Wf s wf id λ _ _. assumption wf
  step-Wf (create_providers now d) = create_dns_provider-Wf wf now d (omega arith)
  step-Wf (delete_providers fleet_id id) = delete_dns_provider-Wf wf fleet_id id
  step-Wf (append_audit now e) = assumption wf

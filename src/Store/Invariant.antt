-- ===== src/Store/Invariant.antt =====
-- The invariant of the store (memory.go), the operations that change the store, and runs of them.
pub mod Fleets
pub mod Rows
pub mod Publish
pub mod Others
pub mod Count
pub mod Step
pub mod Reach
use proxydock.Store.ProxyHosts
use proxydock.Store.Templates
use proxydock.Store.Webhooks
use proxydock.Store.Certificates
use proxydock.Model.{
  AcmeAccount, AcmeJob, Agent, AuditEntry, Certificate, DnsProvider, Fleet, MiddlewareTemplate,
  ProxyHost, Revision, Time, Webhook, WebhookJob,
}
use proxydock.Prelude.{
  Bool, List, Option, Text, [], nat_eq, none, some, text_eq, ℕ, ◌∷◌, ◌≡◌, ◌≢◌, ◌≤◌,
}
use proxydock.Prelude.GoMap.{GoMap, IsMap, get}
use proxydock.Store.Acme.{
  claim_next_acme_job, create_acme_job, create_dns_provider, delete_acme_account,
  delete_dns_provider, mark_acme_job_failed, mark_acme_job_succeeded, named, upsert_acme_account,
}
use proxydock.Store.Agents.{
  HeartbeatUpdate, create_agent, delete_agent, update_agent_heartbeat, update_agent_labels,
}
use proxydock.Store.Audit.{append_audit_entry}
use proxydock.Store.Certificates.{
  create_certificate, delete_certificate, update_certificate_material,
}
use proxydock.Store.Fleets.{create_fleet, delete_fleet}
use proxydock.Store.ProxyHosts.{create_proxy_host, delete_proxy_host, update_proxy_host}
use proxydock.Store.Revisions.{create_revision, same_number, set_published_revision}
use proxydock.Store.State.{Store}
use proxydock.Store.Table.{TableOk}
use proxydock.Store.Templates.{
  create_middleware_template, delete_middleware_template, update_middleware_template,
}
use proxydock.Store.Tokens.{
  mint_admin_token, mint_token, revoke_admin_token, revoke_token, touch_admin_token, touch_token,
}
use proxydock.Store.Webhooks.{
  claim_next_webhook_job, create_webhook, delete_webhook, enqueue_webhook_job, finish_webhook_job,
  update_webhook,
}

-- The fleet of a revision row that was looked up.
abbrev pub owner : Option Revision → Option Text
owner none = none
owner (some r) = some r.fleet_id

abbrev pub same_revision : Revision → Revision → Bool
same_revision r existing = same_number r.fleet_id r.number existing

abbrev pub same_provider : DnsProvider → DnsProvider → Bool
same_provider d existing = named d.fleet_id d.name existing

-- What fleets own: agents, proxy hosts and revisions stand under a fleet that exists, and what a
-- fleet has published is one of its own revisions.
pub record Owners (fleets : GoMap Text Fleet) (agents : GoMap Text Agent)
    (hosts : GoMap ℕ ProxyHost) (revisions : GoMap ℕ Revision) : Type 0 where
  pub fleets_map : IsMap fleets
  pub agents_map : IsMap agents
  pub fleet_id : (id : Text) (f : Fleet) → get id fleets ≡ some f → f.id ≡ id
  pub agent_id : (id : Text) (a : Agent) → get id agents ≡ some a → a.id ≡ id
  pub agent_fleet : (id : Text) (a : Agent) → get id agents ≡ some a → get a.fleet_id fleets ≢ none
  pub host_fleet : (k : ℕ) (p : ProxyHost) → get k hosts ≡ some p → get p.fleet_id fleets ≢ none
  pub revision_fleet :
      (k : ℕ) (r : Revision) → get k revisions ≡ some r → get r.fleet_id fleets ≢ none
  pub published :
      (id : Text) (f : Fleet) (n : ℕ)
      → get id fleets ≡ some f
      → f.published_revision_id ≡ some n
      → owner (get n revisions) ≡ some id

abbrev pub HostsOk : ℕ → GoMap ℕ ProxyHost → Type 0
HostsOk = TableOk (λ (p : ProxyHost). p.id) ProxyHosts.same_name

abbrev pub TemplatesOk : ℕ → GoMap ℕ MiddlewareTemplate → Type 0
TemplatesOk = TableOk (λ (t : MiddlewareTemplate). t.id) Templates.same_name

abbrev pub WebhooksOk : ℕ → GoMap ℕ Webhook → Type 0
WebhooksOk = TableOk (λ (w : Webhook). w.id) Webhooks.same_name

abbrev pub RevisionsOk : ℕ → GoMap ℕ Revision → Type 0
RevisionsOk = TableOk (λ (r : Revision). r.id) same_revision

abbrev pub CertificatesOk : ℕ → GoMap ℕ Certificate → Type 0
CertificatesOk = TableOk (λ (c : Certificate). c.id) Certificates.same_name

abbrev pub ProvidersOk : ℕ → GoMap ℕ DnsProvider → Type 0
ProvidersOk = TableOk (λ (d : DnsProvider). d.id) same_provider

pub record Wf (s : Store) : Type 0 where
  pub owners : Owners s.fleets s.agents s.proxy_hosts s.revisions
  pub hosts : HostsOk s.proxy_host_seq s.proxy_hosts
  pub templates : TemplatesOk s.mw_template_seq s.mw_templates
  pub webhooks : WebhooksOk s.webhook_seq s.webhooks
  pub revisions : RevisionsOk s.revision_seq s.revisions
  pub certificates : CertificatesOk s.certificate_seq s.certificates
  pub providers : ProvidersOk s.dns_provider_seq s.dns_providers

-- The counters of those tables are at most `n`.
pub record Counted (n : ℕ) (s : Store) : Type 0 where
  pub hosts : s.proxy_host_seq ≤ n
  pub templates : s.mw_template_seq ≤ n
  pub webhooks : s.webhook_seq ≤ n
  pub revisions : s.revision_seq ≤ n
  pub certificates : s.certificate_seq ≤ n
  pub providers : s.dns_provider_seq ≤ n

-- The fleet that the handler asks the store to create (admin_handlers.go:54-57).
abbrev pub asked_fleet : Text → Text → Fleet
asked_fleet id name = record { id = id; name = name; published_revision_id = none; created_at = 0 }

-- A call that changes the store, with its arguments and the time at which it is made.
pub data Op : Type 0 where
  create_fleets : Time → Text → Text → Op
  delete_fleets : Text → Op
  create_agents : Time → Agent → Op
  delete_agents : Text → Op
  update_labels : Text → List Text → Op
  heartbeats : Time → Text → HeartbeatUpdate → Op
  mint_tokens : Time → Text → Text → Text → Text → Op
  revoke_tokens : Time → Text → Text → Op
  touch_tokens : Time → Text → Op
  mint_admin_tokens : Time → Text → Text → Text → Op
  revoke_admin_tokens : Time → Text → Op
  touch_admin_tokens : Time → Text → Op
  create_hosts : Time → ProxyHost → Op
  update_hosts : Time → ProxyHost → Op
  delete_hosts : Text → ℕ → Op
  create_templates : Time → MiddlewareTemplate → Op
  update_templates : Time → MiddlewareTemplate → Op
  delete_templates : Text → ℕ → Op
  create_webhooks : Time → Webhook → Op
  update_webhooks : Webhook → Op
  delete_webhooks : Text → ℕ → Op
  enqueue_webhook_jobs : Time → WebhookJob → Op
  claim_webhook_jobs : Time → Op
  finish_webhook_jobs : Time → ℕ → Text → Text → Time → ℕ → Op
  create_revisions : Time → Revision → Bool → Op
  set_published : Text → ℕ → Op
  create_certificates : Time → Certificate → Op
  update_certificates : Certificate → Op
  delete_certificates : Text → ℕ → Op
  create_acme_jobs : Time → AcmeJob → Op
  claim_acme_jobs : Time → Op
  mark_acme_succeeded : Time → ℕ → ℕ → Op
  mark_acme_failed : Time → ℕ → Text → Op
  upsert_accounts : Time → AcmeAccount → Op
  delete_accounts : Text → Op
  create_providers : Time → DnsProvider → Op
  delete_providers : Text → ℕ → Op
  append_audit : Time → AuditEntry → Op

-- What the call leaves behind, whatever it returned.
unfoldable pub apply : Op → Store → Store
apply (create_fleets now id name) s = (create_fleet now (asked_fleet id name) s).0
apply (delete_fleets id) s = (delete_fleet id s).0
apply (create_agents now a) s = (create_agent now a s).0
apply (delete_agents id) s = (delete_agent id s).0
apply (update_labels id labels) s = (update_agent_labels id labels s).0
apply (heartbeats now id hb) s = (update_agent_heartbeat now id hb s).0
apply (mint_tokens now agent_id name prefix hash) s = (mint_token now agent_id name prefix hash s).0
apply (revoke_tokens now agent_id prefix) s = (revoke_token now agent_id prefix s).0
apply (touch_tokens now prefix) s = (touch_token now prefix s).0
apply (mint_admin_tokens now name prefix hash) s = (mint_admin_token now name prefix hash s).0
apply (revoke_admin_tokens now prefix) s = (revoke_admin_token now prefix s).0
apply (touch_admin_tokens now prefix) s = (touch_admin_token now prefix s).0
apply (create_hosts now p) s = (create_proxy_host now p s).0
apply (update_hosts now p) s = (update_proxy_host now p s).0
apply (delete_hosts fleet_id id) s = (delete_proxy_host fleet_id id s).0
apply (create_templates now t) s = (create_middleware_template now t s).0
apply (update_templates now t) s = (update_middleware_template now t s).0
apply (delete_templates fleet_id id) s = (delete_middleware_template fleet_id id s).0
apply (create_webhooks now w) s = (create_webhook now w s).0
apply (update_webhooks w) s = (update_webhook w s).0
apply (delete_webhooks fleet_id id) s = (delete_webhook fleet_id id s).0
apply (enqueue_webhook_jobs now j) s = (enqueue_webhook_job now j s).0
apply (claim_webhook_jobs now) s = (claim_next_webhook_job now s).0
apply (finish_webhook_jobs now id status e next n) s =
    (finish_webhook_job now id status e next n s).0
apply (create_revisions now r p) s = (create_revision now r p s).0
apply (set_published fleet_id id) s = (set_published_revision fleet_id id s).0
apply (create_certificates now c) s = (create_certificate now c s).0
apply (update_certificates c) s = (update_certificate_material c s).0
apply (delete_certificates fleet_id id) s = (delete_certificate fleet_id id s).0
apply (create_acme_jobs now j) s = (create_acme_job now j s).0
apply (claim_acme_jobs now) s = (claim_next_acme_job now s).0
apply (mark_acme_succeeded now id cert_id) s = (mark_acme_job_succeeded now id cert_id s).0
apply (mark_acme_failed now id e) s = (mark_acme_job_failed now id e s).0
apply (upsert_accounts now a) s = (upsert_acme_account now a s).0
apply (delete_accounts id) s = (delete_acme_account id s).0
apply (create_providers now d) s = (create_dns_provider now d s).0
apply (delete_providers fleet_id id) s = (delete_dns_provider fleet_id id s).0
apply (append_audit now e) s = append_audit_entry now e s

unfoldable pub run : List Op → Store → Store
unfolding apply
run [] s = s
run (o ∷ os) s = run os (apply o s)

-- ===== src/Store/State.antt =====
-- The store's fields and its errors (memory.go:20-87, store.go:14-33).
use proxydock.Prelude.{ℕ, Text, List, [], Bool}
use proxydock.Prelude.GoMap.{GoMap}
use proxydock.Model.{
  Fleet, Agent, AgentToken, AdminToken, ProxyHost, MiddlewareTemplate, Webhook, WebhookJob,
  Revision, Certificate, AcmeAccount, DnsProvider, AcmeJob, AuditEntry,
}

pub record AdminTokenEntry : Type 0 where
  pub token : AdminToken
  pub hash : Text

pub record TokenEntry : Type 0 where
  pub token : AgentToken
  pub hash : Text
  pub closed : Bool

pub record Store : Type 0 where
  pub fleets : GoMap Text Fleet
  pub agents : GoMap Text Agent
  pub tokens : GoMap Text TokenEntry
  pub proxy_host_seq : ℕ
  pub proxy_hosts : GoMap ℕ ProxyHost
  pub mw_template_seq : ℕ
  pub mw_templates : GoMap ℕ MiddlewareTemplate
  pub webhook_seq : ℕ
  pub webhooks : GoMap ℕ Webhook
  pub webhook_job_seq : ℕ
  pub webhook_jobs : GoMap ℕ WebhookJob
  pub revision_seq : ℕ
  pub revisions : GoMap ℕ Revision
  pub certificate_seq : ℕ
  pub certificates : GoMap ℕ Certificate
  pub acme_accounts : GoMap Text AcmeAccount
  pub dns_provider_seq : ℕ
  pub dns_providers : GoMap ℕ DnsProvider
  pub admin_tokens : GoMap Text AdminTokenEntry
  pub acme_job_seq : ℕ
  pub acme_jobs : GoMap ℕ AcmeJob
  pub audit_seq : ℕ
  pub audit : List AuditEntry

abbrev pub new : Store
new = record {
  fleets = [];
  agents = [];
  tokens = [];
  proxy_host_seq = 0;
  proxy_hosts = [];
  mw_template_seq = 0;
  mw_templates = [];
  webhook_seq = 0;
  webhooks = [];
  webhook_job_seq = 0;
  webhook_jobs = [];
  revision_seq = 0;
  revisions = [];
  certificate_seq = 0;
  certificates = [];
  acme_accounts = [];
  dns_provider_seq = 0;
  dns_providers = [];
  admin_tokens = [];
  acme_job_seq = 0;
  acme_jobs = [];
  audit_seq = 0;
  audit = [];
}

pub data StoreError : Type 0 where
  not_found conflict invalid_input token_revoked token_mismatch : StoreError

-- A Go result pair `(T, error)`.
pub data Result {ℓ} (A : Type ℓ) : Type ℓ where
  ok : A → Result A
  err : StoreError → Result A

infixl 5 ◌>>=◌
abbrev pub ◌>>=◌ {ℓ κ} : {A : Type ℓ} {B : Type κ} → Result A → (A → Result B) → Result B
ok a >>= f = f a
err e >>= f = err e

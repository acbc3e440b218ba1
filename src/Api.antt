-- ===== src/Api.antt =====
-- The HTTP API of the manager (apps/api/internal/api): who may call, what agents are served, and how
-- a revision is published.
pub mod Answers
pub mod Access
pub mod Configs
pub mod Revisions
pub mod Resources
pub mod Hosts
pub mod Certificates
pub mod Hooks
pub mod Issuing
pub mod Guard
pub mod Admins
pub mod Etags
pub mod Unchanged
pub mod Built
pub mod Delivery
pub mod Publishing
pub mod Enrolment
pub mod Secrets
pub mod Checked
pub mod Audit
pub mod Audited
pub mod HookSecrets

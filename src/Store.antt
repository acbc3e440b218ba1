-- ===== src/Store.antt =====
-- apps/api/internal/store/memory/memory.go: the in-memory store. Each method returns the new store
-- beside its result; the clock's reading is the argument `now`. The methods stand in the modules
-- below, one to each section of the file.
pub mod State
pub mod Table
pub mod Cases
pub mod Fleets
pub mod Agents
pub mod Tokens
pub mod ProxyHosts
pub mod Templates
pub mod Webhooks
pub mod Revisions
pub mod Certificates
pub mod Acme
pub mod Audit
pub mod Invariant
pub mod Queue
pub mod Publishing
pub mod Credentials
pub mod AuditLog

-- ===== src/Model.antt =====
-- apps/api/internal/model/model.go: the domain types. A time is the number of nanoseconds since
-- Go's zero time, so `IsZero` is `== 0`. An int or int64 is its 64-bit pattern. A nil pointer, slice
-- or map is `none`.
pub mod Value
use proxydock.Prelude.{ℕ, Text, List, Bool, Option}
use proxydock.Prelude.GoMap.{GoMap}
use Value.{Any}

abbrev pub Time : Type 0
Time = ℕ

pub record Fleet : Type 0 where
  pub id : Text
  pub name : Text
  pub published_revision_id : Option ℕ
  pub created_at : Time

pub record Agent : Type 0 where
  pub id : Text
  pub fleet_id : Text
  pub name : Text
  pub labels : List Text
  pub last_heartbeat_at : Option Time
  pub last_revision_seen : Option ℕ
  pub last_provider_version : Option Text
  pub last_traefik_version : Option Text
  pub last_error : Option Text
  pub created_at : Time

pub record AgentToken : Type 0 where
  pub prefix : Text
  pub agent_id : Text
  pub name : Text
  pub created_at : Time
  pub last_used_at : Option Time
  pub revoked_at : Option Time

pub record Middleware : Type 0 where
  pub name : Text
  pub kind : Text
  pub config : Option (GoMap Text Any)

pub record MiddlewareTemplate : Type 0 where
  pub id : ℕ
  pub fleet_id : Text
  pub name : Text
  pub description : Text
  pub middlewares : Option (List Middleware)
  pub created_at : Time
  pub updated_at : Time

pub record ProxyHost : Type 0 where
  pub id : ℕ
  pub fleet_id : Text
  pub name : Text
  pub protocol : Text
  pub domain : Text
  pub upstream_url : Text
  pub upstream_urls : Option (List Text)
  pub sticky_session : Bool
  pub health_check : Option (GoMap Text Any)
  pub entry_points : Option (List Text)
  pub middlewares : Option (List Middleware)
  pub tls : Bool
  pub label_selector : Text
  pub enabled : Bool
  pub created_at : Time
  pub updated_at : Time

pub record Certificate : Type 0 where
  pub id : ℕ
  pub fleet_id : Text
  pub name : Text
  pub cert_pem : Text
  pub key_pem : Text
  pub fingerprint : Text
  pub subject : Text
  pub issuer : Text
  pub dns_names : Option (List Text)
  pub not_before : Time
  pub not_after : Time
  pub source : Text
  pub created_at : Time

pub record AcmeAccount : Type 0 where
  pub fleet_id : Text
  pub directory_url : Text
  pub contact_email : Text
  pub account_key_pem : Text
  pub account_url : Text
  pub created_at : Time

pub record Webhook : Type 0 where
  pub id : ℕ
  pub fleet_id : Text
  pub name : Text
  pub url : Text
  pub secret : Text
  pub has_secret : Bool
  pub events : Option (List Text)
  pub enabled : Bool
  pub created_at : Time

pub record WebhookJob : Type 0 where
  pub id : ℕ
  pub webhook_id : ℕ
  pub payload : Text
  pub status : Text
  pub attempts : ℕ
  pub next_run_at : Time
  pub last_error : Text
  pub created_at : Time
  pub finished_at : Option Time

pub record AdminToken : Type 0 where
  pub prefix : Text
  pub name : Text
  pub created_at : Time
  pub last_used_at : Option Time
  pub revoked_at : Option Time

pub record AuditEntry : Type 0 where
  pub id : ℕ
  pub actor : Text
  pub method : Text
  pub path : Text
  pub status : ℕ
  pub fleet_id : Option Text
  pub summary : Text
  pub created_at : Time

-- The type is a Go string; `unset` is the empty one.
pub data AcmeJobStatus : Type 0 where
  unset pending running succeeded failed : AcmeJobStatus

pub record AcmeJob : Type 0 where
  pub id : ℕ
  pub fleet_id : Text
  pub name : Text
  pub dns_names : Option (List Text)
  pub dns_provider : Text
  pub status : AcmeJobStatus
  pub error : Text
  pub cert_id : Option ℕ
  pub created_at : Time
  pub started_at : Option Time
  pub finished_at : Option Time

pub record DnsProvider : Type 0 where
  pub id : ℕ
  pub fleet_id : Text
  pub name : Text
  pub kind : Text
  pub config : Text
  pub created_at : Time

-- A JSON document that the code stores and decodes again, by the value that it decodes to.
-- `empty` is the document of no bytes.
pub data Doc (A : Type 0) : Type 0 where
  empty : Doc A
  invalid : Doc A
  json : A → Doc A

pub record Revision : Type 0 where
  pub id : ℕ
  pub fleet_id : Text
  pub number : ℕ
  pub compiled_config : Text
  pub source_proxy_hosts : Doc (List ProxyHost)
  pub source_certs : Doc (List Certificate)
  pub etag : Text
  pub notes : Text
  pub signature : Text
  pub signature_alg : Text
  pub generated_at : Time

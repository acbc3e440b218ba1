-- ===== src/Tests/StoreRuns.antt =====
-- The in-memory store (apps/api/internal/store/memory/memory.go) at work.
use proxydock.Model.{AcmeJob, Agent, AuditEntry, Fleet, Revision, empty, unset}
use proxydock.Prelude.{
  List, Option, Text, [], all, any, arith, codes, false, insert_sorted, int_lt, keep, nat_eq, none,
  refl, reverse, some, sort, take, text_beq, text_eq, true, ℕ, ◌+◌, ◌<◌, ◌^◌, ◌↔◌, ◌∷◌, ◌≡◌,
}
use proxydock.Prelude.GoMap.{get, put, values}
use proxydock.Store.Acme.{
  claim_next_acme_job, claim_scan, create_acme_job, is_pending, new_acme_job,
}
use proxydock.Store.Agents.{create_agent}
use proxydock.Store.Audit.{
  AuditQuery, append_audit_entry, effective_limit, list_audit_entries, wanted,
}
use proxydock.Store.AuditLog.{IsLimit, IsWanted, list_audit_entries_page}
use proxydock.Store.Credentials.{keeps_tokens, lookup_token-mint_token, lookup_token-revoke_token}
use proxydock.Store.Fleets.{create_fleet}
use proxydock.Store.Invariant.{
  Op, Wf, append_audit, apply, asked_fleet, create_acme_jobs, create_agents, create_fleets,
  create_revisions, delete_fleets, run, touch_tokens,
}
use proxydock.Store.Invariant.Reach.{run-Wf}
use proxydock.Store.Publishing.{Publishes, Small, publish_next}
use proxydock.Store.Queue.{Took, claim_next_acme_job_empty, claim_next_acme_job_fifo, claimed}
use proxydock.Store.Revisions.{create_revision, max_number, next_revision_number, saved_revision}
use proxydock.Store.State.{Store, err, new, not_found, ok, token_revoked}
use proxydock.Store.Tokens.{lookup_token, mint_token, new_token, revoke_token}

abbrev fleet : Text
fleet = codes "f"

abbrev pub edge : Agent
edge = record {
  id = codes "a";
  fleet_id = fleet;
  name = codes "edge";
  labels = [];
  last_heartbeat_at = none;
  last_revision_seen = none;
  last_provider_version = none;
  last_traefik_version = none;
  last_error = none;
  created_at = 0;
}

abbrev pub revision : ℕ → Revision
revision n = record {
  id = 0;
  fleet_id = fleet;
  number = n;
  compiled_config = codes "{}";
  source_proxy_hosts = empty;
  source_certs = empty;
  etag = codes "e";
  notes = [];
  signature = [];
  signature_alg = [];
  generated_at = 0;
}

abbrev pub job : AcmeJob
job = record {
  id = 0;
  fleet_id = fleet;
  name = codes "c";
  dns_names = none;
  dns_provider = codes "p";
  status = unset;
  error = [];
  cert_id = none;
  created_at = 0;
  started_at = none;
  finished_at = none;
}

abbrev entry : Option Text → AuditEntry
entry id = record {
  id = 0;
  actor = codes "admin";
  method = codes "POST";
  path = codes "/";
  status = 201;
  fleet_id = id;
  summary = [];
  created_at = 0;
}

abbrev pub script : List Op
script =
    create_fleets 5 fleet (codes "F")
    ∷ create_agents 6 edge
    ∷ create_revisions 7 (revision 1) true
    ∷ create_acme_jobs 8 job
    ∷ append_audit 8 (entry none)
    ∷ append_audit 9 (entry (some fleet))
    ∷ []

program : Unit {0}
unfolding run apply create_fleet create_agent create_revision saved_revision get put text_beq any
    create_acme_job new_acme_job next_revision_number max_number claim_next_acme_job claim_scan sort
    insert_sorted mint_token revoke_token all append_audit_entry
program = tt

abbrev pub ready : Store
ready = run script new

abbrev pub fleet_row : Fleet
fleet_row = record (asked_fleet fleet (codes "F")) {
  published_revision_id = some 1;
  created_at = 5;
}

pub fleet_found : get fleet ready.fleets ≡ some fleet_row
unfolding program
fleet_found = refl

pub next_is_two : next_revision_number fleet ready ≡ ok 2
unfolding program
next_is_two = refl

pub ready-Small : Small (values ready.revisions)
unfolding program
ready-Small = omega arith

pub ready_room : ready.revision_seq + 1 < 2 ^ 63
unfolding program
ready_room = omega arith

run-Wf_example : Wf (run script new)
run-Wf_example = run-Wf script (omega arith)

publish_next_example : Publishes 9 (revision 2) ready
publish_next_example =
    publish_next 9 (revision 2) fleet_row run-Wf_example fleet_found ready-Small ready_room
      next_is_two

abbrev claimed_job : AcmeJob
claimed_job = claimed 9 (new_acme_job 8 1 job)

claim_succeeds :
    claim_next_acme_job 9 ready
    ≡ (record ready { acme_jobs = put 1 claimed_job ready.acme_jobs }, ok claimed_job)
unfolding program
claim_succeeds = refl

claim_next_acme_job_fifo_example :
    (t : Took 9 ready (record ready { acme_jobs = put 1 claimed_job ready.acme_jobs }) claimed_job)
    × ((i : ℕ) (x : AcmeJob)
        → get i ready.acme_jobs ≡ some x
        → is_pending x.status ≡ true
        → int_lt i t.k ≡ false)
claim_next_acme_job_fifo_example =
    claim_next_acme_job_fifo 9 ready
      (record ready { acme_jobs = put 1 claimed_job ready.acme_jobs }) claimed_job claim_succeeds

abbrev drained : Store
drained = (claim_next_acme_job 9 ready).0

claim_fails : claim_next_acme_job 10 drained ≡ (drained, err not_found)
unfolding program
claim_fails = refl

claim_next_acme_job_empty_example :
    (drained ≡ drained)
    × ((i : ℕ) (x : AcmeJob) → get i drained.acme_jobs ≡ some x → is_pending x.status ≡ false)
claim_next_acme_job_empty_example =
    claim_next_acme_job_empty 10 drained drained not_found claim_fails

agent_found : get (codes "a") ready.agents ≡ some (record edge { created_at = 6 })
unfolding program
agent_found = refl

prefix_free : get (codes "p") ready.tokens ≡ none
unfolding program
prefix_free = refl

lookup_token-mint_token_example :
    lookup_token (codes "p") (mint_token 9 (codes "a") (codes "t") (codes "p") (codes "h") ready).0
    ≡ ok (
      record {
        token = new_token 9 (codes "a") (codes "t") (codes "p");
        agent = record edge { created_at = 6 };
        fleet_id = fleet;
      },
      codes "h",
    )
lookup_token-mint_token_example =
    lookup_token-mint_token 9 (codes "a") (codes "t") (codes "p") (codes "h") ready
      (record edge { created_at = 6 }) agent_found prefix_free

abbrev minted : Store
minted = (mint_token 9 (codes "a") (codes "t") (codes "p") (codes "h") ready).0

revoke_succeeds : (revoke_token 10 (codes "a") (codes "p") minted).1 ≡ ok tt
unfolding program
revoke_succeeds = refl

later_keeps : all keeps_tokens (touch_tokens 11 (codes "p") ∷ delete_fleets fleet ∷ []) ≡ true
unfolding program
later_keeps = refl

lookup_token-revoke_token_example :
    lookup_token (codes "p") (
      run
        (touch_tokens 11 (codes "p") ∷ delete_fleets fleet ∷ [])
        (revoke_token 10 (codes "a") (codes "p") minted).0)
    ≡ err token_revoked
lookup_token-revoke_token_example =
    lookup_token-revoke_token 10 (codes "a") (codes "p") minted
      (touch_tokens 11 (codes "p") ∷ delete_fleets fleet ∷ []) revoke_succeeds later_keeps

abbrev page_query : AuditQuery
page_query = record { fleet_id = some (codes "f"); before_id = 2; limit = 1000 }

list_audit_entries_page_example :
    (list_audit_entries page_query ready
      ≡ take (effective_limit 1000) (keep (wanted page_query) (reverse ready.audit)))
    × ((e : AuditEntry) → (wanted page_query e ≡ true) ↔ IsWanted page_query e)
    × IsLimit 1000 (effective_limit 1000)
list_audit_entries_page_example = list_audit_entries_page page_query ready (omega arith)

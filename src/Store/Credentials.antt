-- ===== src/Store/Credentials.antt =====
-- Agent tokens over time (memory.go:441-526): a minted token is accepted, a revoked one never again.
use proxydock.Model.{Agent, Time}
use proxydock.Prelude.{
  Bool, List, Option, Option-cases, Text, [], all, arith, false, inl, inr, nat_eq, none, some,
  text_beq_iff, text_eq, true, ◌∷◌, ◌≡◌,
}
use proxydock.Prelude.GoMap.{get, get-put, put}
use proxydock.Store.Audit.{append_audit_entry}
use proxydock.Store.Cases.Claims.{claim_next_acme_job_cases, claim_next_webhook_job_cases}
use proxydock.Store.Cases.Hooks.{
  create_certificate_cases, create_dns_provider_cases, create_webhook_cases,
  delete_certificate_cases, delete_dns_provider_cases, delete_webhook_cases,
  update_certificate_material_cases, update_webhook_cases,
}
use proxydock.Store.Cases.Hosts.{
  create_middleware_template_cases, create_proxy_host_cases, delete_middleware_template_cases,
  delete_proxy_host_cases, update_middleware_template_cases, update_proxy_host_cases,
}
use proxydock.Store.Cases.Jobs.{
  create_acme_job_cases, delete_acme_account_cases, finish_webhook_job_cases,
  mark_acme_job_failed_cases, mark_acme_job_succeeded_cases, upsert_acme_account_cases,
}
use proxydock.Store.Cases.Owners.{
  create_agent_cases, create_fleet_cases, delete_fleet_cases, update_agent_heartbeat_cases,
  update_agent_labels_cases,
}
use proxydock.Store.Cases.Published.{create_revision_cases, set_published_revision_cases}
use proxydock.Store.Cases.Tokens.{
  mint_admin_token_cases, mint_token_cases, revoke_admin_token_cases, revoke_token_cases,
  touch_admin_token_cases, touch_token_cases,
}
use proxydock.Store.Invariant.{
  Op, append_audit, apply, asked_fleet, claim_acme_jobs, claim_webhook_jobs, create_acme_jobs,
  create_agents, create_certificates, create_fleets, create_hosts, create_providers,
  create_revisions, create_templates, create_webhooks, delete_accounts, delete_agents,
  delete_certificates, delete_fleets, delete_hosts, delete_providers, delete_templates,
  delete_webhooks, enqueue_webhook_jobs, finish_webhook_jobs, heartbeats, mark_acme_failed,
  mark_acme_succeeded, mint_admin_tokens, mint_tokens, revoke_admin_tokens, revoke_tokens, run,
  set_published, touch_admin_tokens, touch_tokens, update_certificates, update_hosts, update_labels,
  update_templates, update_webhooks, upsert_accounts,
}
use proxydock.Store.State.{Store, TokenEntry, err, ok, token_revoked}
use proxydock.Store.Tokens.{lookup_token, mint_token, new_token, revoke_token}
use proxydock.Store.Webhooks.{enqueue_webhook_job}

-- Whether a row is there and has been revoked.
abbrev pub is_revoked : Option TokenEntry → Bool
is_revoked none = false
is_revoked (some t) = elim t.token.revoked_at [ none ↦ false | some _ ↦ true ]

abbrev pub Revoked : Text → Store → Type 0
Revoked k s = is_revoked (get k s.tokens) ≡ true

-- Only the deletion of an agent takes token rows away.
abbrev pub keeps_tokens : Op → Bool
keeps_tokens (delete_agents id) = false
keeps_tokens o = true

-- Minting for an existing agent under a free prefix makes a token that a lookup accepts, with the
-- agent, its fleet and the hash that was given.
pub lookup_token-mint_token :
    (now : Time) (agent_id name prefix hash : Text) (s : Store) (a : Agent)
    → get agent_id s.agents ≡ some a
    → get prefix s.tokens ≡ none
    → lookup_token prefix (mint_token now agent_id name prefix hash s).0
      ≡ ok (
        record { token = new_token now agent_id name prefix; agent = a; fleet_id = a.fleet_id },
        hash,
      )
unfolding lookup_token mint_token
lookup_token-mint_token now agent_id name prefix hash s a there free = ground (
  arith,
  get-put prefix prefix
      (record { token = new_token now agent_id name prefix; hash = hash; closed = false }) s.tokens,
  text_beq_iff prefix prefix,
)

module _ (k : Text) (s : Store) (h : Revoked k s) where
  minted-Revoked :
      (now : Time) (agent_id name prefix hash : Text)
      → get prefix s.tokens ≡ none
      → is_revoked (
          get k (
            put prefix
              (record { token = new_token now agent_id name prefix; hash = hash; closed = false })
              s.tokens))
        ≡ true
  minted-Revoked now agent_id name prefix hash free = ground (
    arith,
    text_beq_iff prefix k,
    get-put prefix k
        (record { token = new_token now agent_id name prefix; hash = hash; closed = false })
        s.tokens,
  )

  revoked-Revoked :
      (now : Time) (prefix : Text) (t : TokenEntry)
      → is_revoked (
          get k
            (put prefix (record t { token = record t.token { revoked_at = some now } }) s.tokens))
        ≡ true
  revoked-Revoked now prefix t = ground (
    arith,
    get-put prefix k (record t { token = record t.token { revoked_at = some now } }) s.tokens,
  )

  touched-Revoked :
      (now : Time) (prefix : Text) (t : TokenEntry)
      → get prefix s.tokens ≡ some t
      → is_revoked (
          get k
            (put prefix (record t { token = record t.token { last_used_at = some now } }) s.tokens))
        ≡ true
  touched-Revoked now prefix t e = ground (
    arith,
    text_beq_iff prefix k,
    get-put prefix k (record t { token = record t.token { last_used_at = some now } }) s.tokens,
  )

  step-Revoked : (o : Op) → keeps_tokens o ≡ true → Revoked k (apply o s)
  unfolding apply enqueue_webhook_job append_audit_entry
  step-Revoked (create_fleets now id name) kept =
      create_fleet_cases (Revoked k) s h now (asked_fleet id name) λ _. h
  step-Revoked (delete_fleets id) kept = delete_fleet_cases (Revoked k) s h id λ _ _. h
  step-Revoked (create_agents now a) kept = create_agent_cases (Revoked k) s h now a λ _ _ _. h
  step-Revoked (delete_agents id) kept = absurd (ground arith)
  step-Revoked (update_labels id labels) kept =
      update_agent_labels_cases (Revoked k) s h id labels λ _ _. h
  step-Revoked (heartbeats now id hb) kept =
      update_agent_heartbeat_cases (Revoked k) s h now id hb λ _ _. h
  step-Revoked (mint_tokens now agent_id name prefix hash) kept =
      mint_token_cases (Revoked k) s h now agent_id name prefix hash
        λ _ _ free. minted-Revoked now agent_id name prefix hash free
  step-Revoked (revoke_tokens now agent_id prefix) kept =
      revoke_token_cases (Revoked k) s h now agent_id prefix λ t _ _. revoked-Revoked now prefix t
  step-Revoked (touch_tokens now prefix) kept =
      touch_token_cases (Revoked k) s h now prefix λ t e. touched-Revoked now prefix t e
  step-Revoked (mint_admin_tokens now name prefix hash) kept =
      mint_admin_token_cases (Revoked k) s h now name prefix hash λ _. h
  step-Revoked (revoke_admin_tokens now prefix) kept =
      revoke_admin_token_cases (Revoked k) s h now prefix λ _ _. h
  step-Revoked (touch_admin_tokens now prefix) kept =
      touch_admin_token_cases (Revoked k) s h now prefix λ _ _. h
  step-Revoked (create_hosts now p) kept = create_proxy_host_cases (Revoked k) s h now p λ _ _ _. h
  step-Revoked (update_hosts now p) kept =
      update_proxy_host_cases (Revoked k) s h now p λ _ _ _ _. h
  step-Revoked (delete_hosts fleet_id id) kept =
      delete_proxy_host_cases (Revoked k) s h fleet_id id λ _ _ _. h
  step-Revoked (create_templates now t) kept =
      create_middleware_template_cases (Revoked k) s h now t λ _ _ _. h
  step-Revoked (update_templates now t) kept =
      update_middleware_template_cases (Revoked k) s h now t λ _ _ _ _. h
  step-Revoked (delete_templates fleet_id id) kept =
      delete_middleware_template_cases (Revoked k) s h fleet_id id λ _ _ _. h
  step-Revoked (create_webhooks now w) kept = create_webhook_cases (Revoked k) s h now w λ _ _ _. h
  step-Revoked (update_webhooks w) kept = update_webhook_cases (Revoked k) s h w λ _ _ _ _. h
  step-Revoked (delete_webhooks fleet_id id) kept =
      delete_webhook_cases (Revoked k) s h fleet_id id λ _ _ _. h
  step-Revoked (enqueue_webhook_jobs now j) kept = h
  step-Revoked (claim_webhook_jobs now) kept =
      claim_next_webhook_job_cases (Revoked k) s h now λ _ _ _. h
  step-Revoked (finish_webhook_jobs now id status e next n) kept =
      finish_webhook_job_cases (Revoked k) s h now id status e next n λ _ _. h
  step-Revoked (create_revisions now r true) kept =
      create_revision_cases (Revoked k) s h now r true λ _ _ _. h
  step-Revoked (create_revisions now r false) kept =
      create_revision_cases (Revoked k) s h now r false λ _ _ _. h
  step-Revoked (set_published fleet_id id) kept =
      set_published_revision_cases (Revoked k) s h fleet_id id λ _ _ _ _ _. h
  step-Revoked (create_certificates now c) kept =
      create_certificate_cases (Revoked k) s h now c λ _ _ _. h
  step-Revoked (update_certificates c) kept =
      update_certificate_material_cases (Revoked k) s h c λ _ _ _. h
  step-Revoked (delete_certificates fleet_id id) kept =
      delete_certificate_cases (Revoked k) s h fleet_id id λ _ _ _. h
  step-Revoked (create_acme_jobs now j) kept = create_acme_job_cases (Revoked k) s h now j λ _ _. h
  step-Revoked (claim_acme_jobs now) kept =
      claim_next_acme_job_cases (Revoked k) s h now λ _ _ _ _. h
  step-Revoked (mark_acme_succeeded now id cert_id) kept =
      mark_acme_job_succeeded_cases (Revoked k) s h now id cert_id λ _ _. h
  step-Revoked (mark_acme_failed now id e) kept =
      mark_acme_job_failed_cases (Revoked k) s h now id e λ _ _. h
  step-Revoked (upsert_accounts now a) kept =
      upsert_acme_account_cases (Revoked k) s h now a λ _ _. h
  step-Revoked (delete_accounts id) kept = delete_acme_account_cases (Revoked k) s h id λ _ _. h
  step-Revoked (create_providers now d) kept =
      create_dns_provider_cases (Revoked k) s h now d λ _ _ _. h
  step-Revoked (delete_providers fleet_id id) kept =
      delete_dns_provider_cases (Revoked k) s h fleet_id id λ _ _ _. h
  step-Revoked (append_audit now e) kept = h

run-Revoked :
    (os : List Op) (k : Text) (s : Store)
    → all keeps_tokens os ≡ true
    → Revoked k s
    → Revoked k (run os s)
unfolding run all
run-Revoked [] k s kept h = h
run-Revoked (o ∷ os) k s kept h =
    run-Revoked os k (apply o s) (ground arith) (step-Revoked k s h o (ground arith))

just-Revoked :
    (now : Time) (agent_id prefix : Text) (s : Store)
    → (revoke_token now agent_id prefix s).1 ≡ ok tt
    → Revoked prefix (revoke_token now agent_id prefix s).0
unfolding revoke_token
just-Revoked now agent_id prefix s done = elim (Option-cases (get prefix s.tokens)) [
  | inl e ↦ absurd (ground arith)
  | inr (t, e) ↦ ground (
    arith,
    text_beq_iff prefix prefix,
    get-put prefix prefix (record t { token = record t.token { revoked_at = some now } }) s.tokens,
  )
]

-- Once revoked by its agent, a token is refused as revoked after every further sequence of calls
-- that deletes no agent.
pub lookup_token-revoke_token :
    (now : Time) (agent_id prefix : Text) (s : Store) (os : List Op)
    → (revoke_token now agent_id prefix s).1 ≡ ok tt
    → all keeps_tokens os ≡ true
    → lookup_token prefix (run os (revoke_token now agent_id prefix s).0) ≡ err token_revoked
unfolding lookup_token
lookup_token-revoke_token now agent_id prefix s os done kept =
    let s' = (revoke_token now agent_id prefix s).0 in
    let r : Revoked prefix (run os s') =
      run-Revoked os prefix s' kept (just-Revoked now agent_id prefix s done) in
    ground arith

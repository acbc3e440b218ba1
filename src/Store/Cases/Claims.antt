-- ===== src/Store/Cases/Claims.antt =====
-- How the two claims of the job queues can end, in the form of the other rules.
use proxydock.Model.{AcmeJob, Time, WebhookJob, running}
use proxydock.Prelude.{
  Bool-cases, List, Option-cases, [], codes, inl, inr, nat_eq, some, text_eq, true, ℕ, ◌∷◌, ◌≡◌,
}
use proxydock.Prelude.GoMap.{get, put}
use proxydock.Store.Acme.{claim_next_acme_job, claim_scan, is_pending}
use proxydock.Store.State.{Store}
use proxydock.Store.Webhooks.{claim_next_webhook_job, due, find_entry}

module _ (P : Store → Type 0) (s : Store) (same : P s) where
  pub claim_next_webhook_job_cases :
      (now : Time)
      → ((id : ℕ) (j : WebhookJob)
          → find_entry (due now) s.webhook_jobs ≡ some (id, j)
          → P (record s {
            webhook_jobs = put id (record j { status = codes "running" }) s.webhook_jobs;
          }))
      → P (claim_next_webhook_job now s).0
  unfolding claim_next_webhook_job
  claim_next_webhook_job_cases now made =
      elim (Option-cases (find_entry (due now) s.webhook_jobs)) [
        | inl e ↦ rw (e, claim_next_webhook_job) same
        | inr (entry, e) ↦ elim (Option-cases (get entry.1.webhook_id s.webhooks)) [
          | inl g ↦ rw (e, g, claim_next_webhook_job) (made entry.0 entry.1 e)
          | inr (hook, g) ↦ rw (e, g, claim_next_webhook_job) (made entry.0 entry.1 e)
        ]
      ]

  claim_scan_cases :
      (now : Time) (ks : List ℕ)
      → ((k : ℕ) (j : AcmeJob)
          → get k s.acme_jobs ≡ some j
          → is_pending j.status ≡ true
          → P (record s {
            acme_jobs = put k (record j { status = running; started_at = some now }) s.acme_jobs;
          }))
      → P (claim_scan now ks s).0
  unfolding claim_scan
  claim_scan_cases now [] made = same
  claim_scan_cases now (k ∷ ks) made = elim (Option-cases (get k s.acme_jobs)) [
    | inl e ↦ rw (e, claim_scan) (claim_scan_cases now ks made)
    | inr (j, e) ↦ elim (Bool-cases (is_pending j.status)) [
      | inl g ↦ rw (e, g, claim_scan) (made k j e g)
      | inr g ↦ rw (e, g, claim_scan) (claim_scan_cases now ks made)
    ]
  ]

  pub claim_next_acme_job_cases :
      (now : Time)
      → ((k : ℕ) (j : AcmeJob)
          → get k s.acme_jobs ≡ some j
          → is_pending j.status ≡ true
          → P (record s {
            acme_jobs = put k (record j { status = running; started_at = some now }) s.acme_jobs;
          }))
      → P (claim_next_acme_job now s).0
  unfolding claim_next_acme_job
  claim_next_acme_job_cases now made = claim_scan_cases now _ made

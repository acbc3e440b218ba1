-- ===== src/Store/Cases/Jobs.antt =====
-- How the methods on jobs and ACME accounts can end: to show `P` of the store after a call, show it of the
-- store as it was and of the store that the call may write.
use proxydock.Model.{AcmeAccount, AcmeJob, Fleet, Time, WebhookJob, failed, succeeded}
use proxydock.Prelude.{Option-cases, Text, [], inc, inl, inr, nat_eq, some, text_eq, ℕ, ◌≡◌}
use proxydock.Prelude.GoMap.{delete, get, put}
use proxydock.Store.Acme.{
  create_acme_job, delete_acme_account, mark_acme_job_failed, mark_acme_job_succeeded, new_acme_job,
  upsert_acme_account,
}
use proxydock.Store.Fleets.{stamp}
use proxydock.Store.State.{Store}
use proxydock.Store.Webhooks.{finish_webhook_job, finished_job}

module _ (P : Store → Type 0) (s : Store) (same : P s) where
  pub finish_webhook_job_cases :
      (now : Time) (id : ℕ) (status e : Text) (next : Time) (n : ℕ)
      → ((j : WebhookJob)
          → get id s.webhook_jobs ≡ some j
          → P (record s {
            webhook_jobs = put id (finished_job now status e next n j) s.webhook_jobs;
          }))
      → P (finish_webhook_job now id status e next n s).0
  unfolding finish_webhook_job
  finish_webhook_job_cases now id status e next n made =
      elim (Option-cases (get id s.webhook_jobs)) [
        | inl e0 ↦ rw (e0, finish_webhook_job) same
        | inr (j0, e0) ↦ rw (e0, finish_webhook_job) (made j0 e0)
      ]

  pub create_acme_job_cases :
      (now : Time) (j : AcmeJob)
      → ((f : Fleet)
          → get j.fleet_id s.fleets ≡ some f
          → P (record s {
            acme_job_seq = inc s.acme_job_seq;
            acme_jobs =
                put (inc s.acme_job_seq) (new_acme_job now (inc s.acme_job_seq) j) s.acme_jobs;
          }))
      → P (create_acme_job now j s).0
  unfolding create_acme_job
  create_acme_job_cases now j made = elim (Option-cases (get j.fleet_id s.fleets)) [
    | inl e0 ↦ rw (e0, create_acme_job) same
    | inr (f0, e0) ↦ rw (e0, create_acme_job) (made f0 e0)
  ]

  pub mark_acme_job_succeeded_cases :
      (now : Time) (id cert_id : ℕ)
      → ((j : AcmeJob)
          → get id s.acme_jobs ≡ some j
          → P (record s {
            acme_jobs =
                put id
                  (record j {
                    status = succeeded;
                    cert_id = some cert_id;
                    finished_at = some now;
                    error = [];
                  })
                  s.acme_jobs;
          }))
      → P (mark_acme_job_succeeded now id cert_id s).0
  unfolding mark_acme_job_succeeded
  mark_acme_job_succeeded_cases now id cert_id made = elim (Option-cases (get id s.acme_jobs)) [
    | inl e0 ↦ rw (e0, mark_acme_job_succeeded) same
    | inr (j0, e0) ↦ rw (e0, mark_acme_job_succeeded) (made j0 e0)
  ]

  pub mark_acme_job_failed_cases :
      (now : Time) (id : ℕ) (e : Text)
      → ((j : AcmeJob)
          → get id s.acme_jobs ≡ some j
          → P (record s {
            acme_jobs =
                put id
                  (record j { status = failed; error = e; finished_at = some now })
                  s.acme_jobs;
          }))
      → P (mark_acme_job_failed now id e s).0
  unfolding mark_acme_job_failed
  mark_acme_job_failed_cases now id e made = elim (Option-cases (get id s.acme_jobs)) [
    | inl e0 ↦ rw (e0, mark_acme_job_failed) same
    | inr (j0, e0) ↦ rw (e0, mark_acme_job_failed) (made j0 e0)
  ]

  pub upsert_acme_account_cases :
      (now : Time) (a : AcmeAccount)
      → ((f : Fleet)
          → get a.fleet_id s.fleets ≡ some f
          → P (record s {
            acme_accounts =
                put a.fleet_id (record a { created_at = stamp now a.created_at }) s.acme_accounts;
          }))
      → P (upsert_acme_account now a s).0
  unfolding upsert_acme_account
  upsert_acme_account_cases now a made = elim (Option-cases (get a.fleet_id s.fleets)) [
    | inl e0 ↦ rw (e0, upsert_acme_account) same
    | inr (f0, e0) ↦ rw (e0, upsert_acme_account) (made f0 e0)
  ]

  pub delete_acme_account_cases :
      (fleet_id : Text)
      → ((a : AcmeAccount)
          → get fleet_id s.acme_accounts ≡ some a
          → P (record s { acme_accounts = delete fleet_id s.acme_accounts }))
      → P (delete_acme_account fleet_id s).0
  unfolding delete_acme_account
  delete_acme_account_cases fleet_id made = elim (Option-cases (get fleet_id s.acme_accounts)) [
    | inl e0 ↦ rw (e0, delete_acme_account) same
    | inr (a0, e0) ↦ rw (e0, delete_acme_account) (made a0 e0)
  ]

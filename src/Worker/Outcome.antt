-- ===== src/Worker/Outcome.antt =====
-- apps/api/cmd/manager-api/acme_worker.go: the end of a job that has been claimed.
use proxydock.Api.Answers.{Server}
use proxydock.Api.Certificates.{ParsedCertificate, certificate_of}
use proxydock.Api.Guard.{result_cases}
use proxydock.Api.Revisions.{sign_revision, unsigned}
use proxydock.Compiler.Compile.{compile}
use proxydock.Model.{AcmeJob, Time, failed, succeeded}
use proxydock.Prelude.{
  ==_refl, Option, Option-cases, Text, [], ap, arith, codes, inl, inr, nat_eq, none, refl, some,
  sum_cases, text_eq, true, ℕ, ◌++◌, ◌∙◌, ◌≡◌, ◌⊎◌,
}
use proxydock.Prelude.GoMap.{get, get-put}
use proxydock.Store.Acme.{
  get_acme_account, get_dns_provider_by_name, mark_acme_job_failed, mark_acme_job_succeeded,
}
use proxydock.Store.Cases.Hooks.{create_certificate_cases}
use proxydock.Store.Cases.Published.{create_revision_cases}
use proxydock.Store.Certificates.{create_certificate, list_certificates}
use proxydock.Store.ProxyHosts.{list_proxy_hosts}
use proxydock.Store.Revisions.{create_revision, next_revision_number}
use proxydock.Store.State.{Store}
use proxydock.Worker.Acme.{
  AcmeCalls, execute_acme_job, publish_revision_for_fleet, run_acme_job, store_issued,
}

abbrev pub Finished : ℕ → Store → Type 0
Finished id s =
    (j : AcmeJob) × (get id s.acme_jobs ≡ some j) × ((j.status ≡ succeeded) ⊎ (j.status ≡ failed))

abbrev pub There : ℕ → Store → Type 0
There id s = (j : AcmeJob) × (get id s.acme_jobs ≡ some j)

abbrev pub SameJobs : Store → Store → Type 0
SameJobs s t = t.acme_jobs ≡ s.acme_jobs

-- The row is still there, and if there was no error it is finished.
abbrev Outcome : ℕ → Store × Option Text → Type 0
Outcome id r = There id r.0 × (r.1 ≡ none → Finished id r.0)

There-same : (id : ℕ) (s t : Store) → SameJobs s t → There id s → There id t
There-same id s t e (j, g) = (j, ap (get id) e ∙ g)

Finished-same : (id : ℕ) (s t : Store) → SameJobs s t → Finished id s → Finished id t
Finished-same id s t e (j, g, o) = (j, ap (get id) e ∙ g, o)

mark_acme_job_failed-Finished :
    (now : Time) (id : ℕ) (text : Text) (s : Store)
    → There id s
    → Finished id (mark_acme_job_failed now id text s).0
unfolding mark_acme_job_failed
mark_acme_job_failed-Finished now id text s (j, g) =
    let row = record j { status = failed; error = text; finished_at = some now } in
    rw (g, mark_acme_job_failed)
      (row, ground (arith, get-put id id row s.acme_jobs, ==_refl id), inr refl)

mark_acme_job_succeeded-Finished :
    (now : Time) (id cert : ℕ) (s : Store)
    → There id s
    → Finished id (mark_acme_job_succeeded now id cert s).0
unfolding mark_acme_job_succeeded
mark_acme_job_succeeded-Finished now id cert s (j, g) =
    let row = record j {
      status = succeeded;
      cert_id = some cert;
      finished_at = some now;
      error = [];
    } in
    rw (g, mark_acme_job_succeeded)
      (row, ground (arith, get-put id id row s.acme_jobs, ==_refl id), inl refl)

module _ (sv : Server) (now : Time) where
  pub publish_revision_for_fleet-SameJobs :
      (id notes : Text) (s : Store) → SameJobs s (publish_revision_for_fleet sv now id notes s).0
  unfolding publish_revision_for_fleet
  publish_revision_for_fleet-SameJobs id notes s =
      let hosts = list_proxy_hosts id s in
      let certs = list_certificates id s in
      elim (sum_cases (compile sv.libraries hosts certs)) [
        | inl (e, c) ↦ rw (c, publish_revision_for_fleet) refl
        | inr (res, c) ↦ elim (result_cases (next_revision_number id s)) [
          | inl (e, n) ↦ rw (c, n, publish_revision_for_fleet) refl
          | inr (n, m) ↦
              let made =
                create_revision now (sign_revision sv.signer (unsigned id n res hosts certs notes))
                  true s in
              let same : SameJobs s made.0 =
                create_revision_cases (SameJobs s) s refl now
                  (sign_revision sv.signer (unsigned id n res hosts certs notes)) true
                  (λ f g n. refl) in
              elim (result_cases made.1) [
                | inl (e, f) ↦ rw (c, m, f, publish_revision_for_fleet) same
                | inr (row, f) ↦ rw (c, m, f, publish_revision_for_fleet) same
              ]
        ]
      ]

  publish_revision_for_fleet-Finished :
      (id : ℕ) (fleet notes : Text) (s : Store)
      → Finished id s
      → Outcome id (publish_revision_for_fleet sv now fleet notes s)
  publish_revision_for_fleet-Finished id fleet notes s done =
      let same = publish_revision_for_fleet-SameJobs fleet notes s in
      let (j, g, o) =
        Finished-same id s (publish_revision_for_fleet sv now fleet notes s).0 same done in
      ((j, g), λ e. (j, g, o))

  store_issued-Outcome :
      (job : AcmeJob) (p : ParsedCertificate) (s : Store)
      → There job.id s
      → Outcome job.id (store_issued sv now job p s)
  unfolding store_issued
  store_issued-Outcome job p s there =
      let c = record (certificate_of job.fleet_id job.name p) { source = codes "acme" } in
      let made = create_certificate now c s in
      let same : SameJobs s made.0 =
        create_certificate_cases (SameJobs s) s refl now c (λ f g n. refl) in
      let kept = There-same job.id s made.0 same there in
      elim (result_cases made.1) [
        | inl (e, f) ↦ rw (f, store_issued) (kept, λ q. ground arith)
        | inr (saved, f) ↦
            let marked = mark_acme_job_succeeded now job.id saved.id made.0 in
            let (row, at, end_status) =
              mark_acme_job_succeeded-Finished now job.id saved.id made.0 kept in
            elim (result_cases marked.1) [
              | inl (e, g) ↦ rw (f, g, store_issued) ((row, at), λ q. ground arith)
              | inr (x, g) ↦
                  rw (f, g, store_issued)
                    (publish_revision_for_fleet-Finished job.id job.fleet_id
                      (codes "ACME issuance: " ++ job.name) marked.0 (row, at, end_status))
            ]
      ]

  module _ (x : AcmeCalls) (job : AcmeJob) (s : Store) (there : There job.id s) where
    execute_acme_job-Outcome : Outcome job.id (execute_acme_job sv x now job s)
    unfolding execute_acme_job
    execute_acme_job-Outcome = elim (result_cases (get_acme_account job.fleet_id s)) [
      | inl (e, f) ↦ rw (f, execute_acme_job) (there, λ q. ground arith)
      | inr (account, f) ↦ elim (Option-cases (x.account_key account.account_key_pem)) [
        | inr (text, k) ↦ rw (f, k, execute_acme_job) (there, λ q. ground arith)
        | inl k ↦ elim (result_cases (get_dns_provider_by_name job.fleet_id job.dns_provider s)) [
          | inl (e, d) ↦ rw (f, k, d, execute_acme_job) (there, λ q. ground arith)
          | inr (provider, d) ↦ elim (Option-cases (x.build provider)) [
            | inr (text, b) ↦ rw (f, k, d, b, execute_acme_job) (there, λ q. ground arith)
            | inl b ↦ elim (sum_cases (x.issue account provider job.dns_names)) [
              | inl (text, i) ↦ rw (f, k, d, b, i, execute_acme_job) (there, λ q. ground arith)
              | inr (p, i) ↦
                  rw (f, k, d, b, i, execute_acme_job) (store_issued-Outcome job p s there)
            ]
          ]
        ]
      ]
    ]

    -- A job of the table that the worker runs is marked succeeded or failed when the worker is done with
    -- it, whatever the ACME server, the DNS provider and the compilation answer.
    pub run_acme_job-Finished : Finished job.id (run_acme_job sv x now job s)
    unfolding run_acme_job
    run_acme_job-Finished =
        let r = execute_acme_job sv x now job s in
        let (row, done) = execute_acme_job-Outcome in
        elim (Option-cases r.1) [
          | inl e ↦ rw (e, run_acme_job) (done e)
          | inr (text, e) ↦
              rw (e, run_acme_job) (mark_acme_job_failed-Finished now job.id text r.0 row)
        ]

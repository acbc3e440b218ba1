-- ===== src/Worker/Drain.antt =====
-- apps/api/cmd/manager-api/acme_worker.go, runACMEJobWorker: a pass over the queue.
use proxydock.Api.Answers.{Server}
use proxydock.Api.Certificates.{ParsedCertificate, certificate_of}
use proxydock.Api.Guard.{result_cases}
use proxydock.Model.{AcmeJob, Time, failed, succeeded}
use proxydock.Prelude.{
  Bool, Bool-cases, Option, Option-cases, Text, [], ap, arith, codes, false, if◌then◌else◌, inl,
  inr, nat_eq, none, refl, some, subst, suc, sum_cases, sym, text_eq, zero, ℕ, ◌++◌, ◌+◌, ◌<◌, ◌==◌,
  ◌∙◌, ◌∷◌, ◌≡◌, ◌≤◌,
}
use proxydock.Prelude.GoMap.{GoMap, get, put}
use proxydock.Store.Acme.{
  claim_next_acme_job, get_acme_account, get_dns_provider_by_name, is_pending, mark_acme_job_failed,
  mark_acme_job_succeeded,
}
use proxydock.Store.Cases.Hooks.{create_certificate_cases}
use proxydock.Store.Certificates.{create_certificate}
use proxydock.Store.Queue.{claim_next_acme_job_empty, claim_next_acme_job_fifo, claimed}
use proxydock.Store.State.{Store, err, ok}
use proxydock.Worker.Acme.{
  AcmeCalls, execute_acme_job, publish_revision_for_fleet, run_acme_job, store_issued,
}
use proxydock.Worker.Outcome.{SameJobs, publish_revision_for_fleet-SameJobs}

-- The inner loop, on fuel: none if it has not ended by then.
unfoldable pub drain_acme_jobs : Server → AcmeCalls → Time → ℕ → Store → Option Store
drain_acme_jobs sv x now zero s = none
drain_acme_jobs sv x now (suc n) s =
    let (t, claimed) = claim_next_acme_job now s in
    elim claimed [
      | err e ↦ some t
      | ok job ↦ drain_acme_jobs sv x now n (run_acme_job sv x now job t)
    ]

abbrev one_if : Bool → ℕ
one_if b = if b then 1 else 0

-- The pending jobs of a table.
abbrev pub count_pending : GoMap ℕ AcmeJob → ℕ
count_pending [] = 0
count_pending ((k, j) ∷ m) = one_if (is_pending j.status) + count_pending m

put-count_pending :
    (k : ℕ) (j v : AcmeJob) (m : GoMap ℕ AcmeJob)
    → get k m ≡ some j
    → count_pending (put k v m) + one_if (is_pending j.status)
      ≡ count_pending m + one_if (is_pending v.status)
unfolding get put
put-count_pending k j v [] e = absurd (ground arith)
put-count_pending k j v ((i, w) ∷ m) e = elim (Bool-cases (i == k)) [
  | inl same ↦ let one : w ≡ j = ground arith in rw same (rw one (omega arith))
  | inr other ↦ let rest = put-count_pending k j v m (ground arith) in rw other (omega arith)
]

-- Not more pending jobs than before.
abbrev Fewer : ℕ → Store → Type 0
Fewer n s = count_pending s.acme_jobs ≤ n

mark_acme_job_failed-Fewer :
    (now : Time) (id n : ℕ) (text : Text) (s : Store)
    → Fewer n s
    → Fewer n (mark_acme_job_failed now id text s).0
unfolding mark_acme_job_failed is_pending
mark_acme_job_failed-Fewer now id n text s h = elim (Option-cases (get id s.acme_jobs)) [
  | inl g ↦ rw (g, mark_acme_job_failed) h
  | inr (j, g) ↦
      let c =
        put-count_pending id j (record j { status = failed; error = text; finished_at = some now })
          s.acme_jobs g in
      rw (g, mark_acme_job_failed) (omega arith)
]

mark_acme_job_succeeded-Fewer :
    (now : Time) (id cert n : ℕ) (s : Store)
    → Fewer n s
    → Fewer n (mark_acme_job_succeeded now id cert s).0
unfolding mark_acme_job_succeeded is_pending
mark_acme_job_succeeded-Fewer now id cert n s h = elim (Option-cases (get id s.acme_jobs)) [
  | inl g ↦ rw (g, mark_acme_job_succeeded) h
  | inr (j, g) ↦
      let c =
        put-count_pending id j
          (record j { status = succeeded; cert_id = some cert; finished_at = some now; error = [] })
          s.acme_jobs g in
      rw (g, mark_acme_job_succeeded) (omega arith)
]

Fewer-same : (n : ℕ) (s t : Store) → SameJobs s t → Fewer n s → Fewer n t
Fewer-same n s t e h = subst (λ m. count_pending m ≤ n) (sym e) h

module _ (sv : Server) (now : Time) where
  store_issued-Fewer :
      (job : AcmeJob) (p : ParsedCertificate) (n : ℕ) (s : Store)
      → Fewer n s
      → Fewer n (store_issued sv now job p s).0
  unfolding store_issued
  store_issued-Fewer job p n s h =
      let c = record (certificate_of job.fleet_id job.name p) { source = codes "acme" } in
      let made = create_certificate now c s in
      let same : SameJobs s made.0 =
        create_certificate_cases (SameJobs s) s refl now c (λ f g n. refl) in
      let kept = Fewer-same n s made.0 same h in
      elim (result_cases made.1) [
        | inl (e, f) ↦ rw (f, store_issued) kept
        | inr (saved, f) ↦
            let marked = mark_acme_job_succeeded now job.id saved.id made.0 in
            let fewer = mark_acme_job_succeeded-Fewer now job.id saved.id n made.0 kept in
            let notes = codes "ACME issuance: " ++ job.name in
            elim (result_cases marked.1) [
              | inl (e, g) ↦ rw (f, g, store_issued) fewer
              | inr (x, g) ↦
                  rw (f, g, store_issued)
                    (Fewer-same n marked.0
                      (publish_revision_for_fleet sv now job.fleet_id notes marked.0).0
                      (publish_revision_for_fleet-SameJobs sv now job.fleet_id notes marked.0)
                      fewer)
            ]
      ]

  module _ (x : AcmeCalls) (job : AcmeJob) (n : ℕ) (s : Store) (h : Fewer n s) where
    execute_acme_job-Fewer : Fewer n (execute_acme_job sv x now job s).0
    unfolding execute_acme_job
    execute_acme_job-Fewer = elim (result_cases (get_acme_account job.fleet_id s)) [
      | inl (e, f) ↦ rw (f, execute_acme_job) h
      | inr (account, f) ↦ elim (Option-cases (x.account_key account.account_key_pem)) [
        | inr (text, k) ↦ rw (f, k, execute_acme_job) h
        | inl k ↦ elim (result_cases (get_dns_provider_by_name job.fleet_id job.dns_provider s)) [
          | inl (e, d) ↦ rw (f, k, d, execute_acme_job) h
          | inr (provider, d) ↦ elim (Option-cases (x.build provider)) [
            | inr (text, b) ↦ rw (f, k, d, b, execute_acme_job) h
            | inl b ↦ elim (sum_cases (x.issue account provider job.dns_names)) [
              | inl (text, i) ↦ rw (f, k, d, b, i, execute_acme_job) h
              | inr (p, i) ↦ rw (f, k, d, b, i, execute_acme_job) (store_issued-Fewer job p n s h)
            ]
          ]
        ]
      ]
    ]

    run_acme_job-Fewer : Fewer n (run_acme_job sv x now job s)
    unfolding run_acme_job
    run_acme_job-Fewer =
        let r = execute_acme_job sv x now job s in
        let fewer = execute_acme_job-Fewer in
        elim (Option-cases r.1) [
          | inl e ↦ rw (e, run_acme_job) fewer
          | inr (text, e) ↦
              rw (e, run_acme_job) (mark_acme_job_failed-Fewer now job.id n text r.0 fewer)
        ]

-- A claim takes one pending job away.
claim_next_acme_job-less :
    (now : Time) (s t : Store) (job : AcmeJob)
    → claim_next_acme_job now s ≡ (t, ok job)
    → count_pending t.acme_jobs < count_pending s.acme_jobs
unfolding is_pending
claim_next_acme_job-less now s t job e =
    let (took, first) = claim_next_acme_job_fifo now s t job e in
    let c = put-count_pending took.k took.found (claimed now took.found) s.acme_jobs took.row in
    let d = rw (took.was_pending) at c in
    subst (λ z. count_pending z.acme_jobs < count_pending s.acme_jobs) (sym took.store)
      (omega arith)

-- With fuel above the number of pending jobs, a pass of the ACME worker ends, and then no job of the
-- queue is pending: each round claims one, and running a job, whatever its outcome, makes none.
pub drain_acme_jobs_ends :
    (sv : Server) (x : AcmeCalls) (now : Time) (n : ℕ) (s : Store)
    → count_pending s.acme_jobs < n
    → (t : Store) × (drain_acme_jobs sv x now n s ≡ some t)
      × ((i : ℕ) (j : AcmeJob) → get i t.acme_jobs ≡ some j → is_pending j.status ≡ false)
unfolding drain_acme_jobs
drain_acme_jobs_ends sv x now zero s h = absurd (omega arith)
drain_acme_jobs_ends sv x now (suc n) s h =
    let r = claim_next_acme_job now s in
    elim (result_cases r.1) [
      | inl (e, c) ↦
          let (same, idle) = claim_next_acme_job_empty now s r.0 e (ap (λ z. (r.0, z)) c) in
          (
            r.0,
            rw (c, drain_acme_jobs) refl,
            λ i j g. idle i j (ap (λ z. get i z.acme_jobs) (sym same) ∙ g),
          )
      | inr (job, c) ↦
          let less = claim_next_acme_job-less now s r.0 job (ap (λ z. (r.0, z)) c) in
          let after = run_acme_job sv x now job r.0 in
          let fewer =
            run_acme_job-Fewer sv now x job (count_pending r.0.acme_jobs) r.0 (omega arith) in
          let (t, ends, idle) = drain_acme_jobs_ends sv x now n after (omega arith) in
          (t, rw (c, drain_acme_jobs) ends, idle)
    ]

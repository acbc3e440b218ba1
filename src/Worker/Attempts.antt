-- ===== src/Worker/Attempts.antt =====
-- apps/api/cmd/manager-api/webhook_worker.go: how often a job is delivered.
use proxydock.Model.{Time, WebhookJob}
use proxydock.Prelude.{
  ==_iff, All, Bool, Bool-cases, List, Option-cases, Text, [], all, arith, codes, false,
  if◌then◌else◌, inc, inl, inr, leb, ltb, nat_eq, refl, some, subst, text_beq, text_eq, true, ℕ,
  ◌&&◌, ◌++◌, ◌+◌, ◌<◌, ◌==◌, ◌||◌, ◌∷◌, ◌≡◌, ◌≤◌, ◌⊎◌,
}
use proxydock.Prelude.GoMap.{GoMap, get, put, put-All}
use proxydock.Store.Cases.Jobs.{finish_webhook_job_cases}
use proxydock.Store.State.{Store}
use proxydock.Store.Webhooks.{
  claim_next_webhook_job, due, enqueue_webhook_job, find_entry, finish_webhook_job, finished_job,
  new_webhook_job,
}
use proxydock.Worker.{
  Answer, HookRequest, WorkerOp, answered, delay, deliver_webhook, enqueues, finish_delivery,
  finish_webhook, hook_request, max_webhook_attempts, no_answer, no_request, retry_webhook, work,
  work_claimed, work_op, work_run, works,
}

-- A job that still waits or is being delivered.
unfoldable pub is_open : Text → Bool
is_open status = status == codes "pending" || status == codes "running"

-- A row of the queue carries its key, counts at most five attempts, and fewer while it is open.
abbrev pub JobOk : ℕ × WebhookJob → Type 0
JobOk (id, j) =
    (j.id ≡ id)
    × (j.attempts ≤ max_webhook_attempts)
    × ((is_open j.status ≡ false) ⊎ (j.attempts < max_webhook_attempts))

All-get :
    {V : Type 0} (P : ℕ × V → Type 0) (k : ℕ) (v : V) (m : GoMap ℕ V)
    → All P m
    → get k m ≡ some v
    → P (k, v)
unfolding get
All-get P k v [] all e = absurd (ground arith)
All-get P k v ((i, w) ∷ m) (q, all) e = elim (Bool-cases (i == k)) [
  | inl h ↦
      let same : w ≡ v = (ground arith) in
      subst (λ z. P (z, v)) ((==_iff i k).0 h) (subst (λ z. P (i, z)) same q)
  | inr h ↦ All-get P k v m all (ground arith)
]

find_entry-All :
    {V : Type 0} (P : ℕ × V → Type 0) (p : V → Bool) (m : GoMap ℕ V) (k : ℕ) (v : V)
    → All P m
    → find_entry p m ≡ some (k, v)
    → (p v ≡ true) × P (k, v)
unfolding find_entry
find_entry-All P p [] k v all e = absurd (ground arith)
find_entry-All P p ((i, w) ∷ m) k v (q, all) e = elim (Bool-cases (p w)) [
  | inl h ↦
      let key : i ≡ k = (ground arith) in
      let same : w ≡ v = (ground arith) in
      (subst (λ z. p z ≡ true) same h, subst (λ z. P (z, v)) key (subst (λ z. P (i, z)) same q))
  | inr h ↦ find_entry-All P p m k v all (ground arith)
]

abbrev pub Bounded : Store → Type 0
Bounded s = All JobOk s.webhook_jobs

finish_webhook_job-Bounded :
    (now : Time) (id : ℕ) (status e : Text) (next : Time) (n : ℕ) (s : Store)
    → Bounded s
    → n ≤ max_webhook_attempts
    → (is_open status ≡ false) ⊎ (n < max_webhook_attempts)
    → Bounded (finish_webhook_job now id status e next n s).0
unfolding finished_job
finish_webhook_job-Bounded now id status e next n s b le open_less =
    finish_webhook_job_cases Bounded s b now id status e next n (λ j h.
      put-All JobOk id (finished_job now status e next n j) s.webhook_jobs
        (let (own, _, _) = All-get JobOk id j s.webhook_jobs b h in (own, le, open_less)) b)

closed_failed : is_open (codes "failed") ≡ false
unfolding is_open text_beq
closed_failed = refl

closed_succeeded : is_open (codes "succeeded") ≡ false
unfolding is_open text_beq
closed_succeeded = refl

retry_webhook-Bounded :
    (now : Time) (id : ℕ) (e : Text) (n : ℕ) (s : Store)
    → Bounded s
    → n ≤ max_webhook_attempts
    → Bounded (retry_webhook now id e n s)
unfolding retry_webhook finish_webhook
retry_webhook-Bounded now id e n s b le = elim (Bool-cases (leb max_webhook_attempts n)) [
  | inl h ↦
      let ends : (finish_webhook_job now id (codes "failed") e now n s).0
          ≡ retry_webhook now id e n s =
        (ground arith) in
      subst Bounded ends
        (finish_webhook_job-Bounded now id (codes "failed") e now n s b le (inl closed_failed))
  | inr h ↦
      let ends : (finish_webhook_job now id (codes "pending") e (now + delay n) n s).0
          ≡ retry_webhook now id e n s =
        (ground arith) in
      subst Bounded ends (
        finish_webhook_job-Bounded now id (codes "pending") e (now + delay n) n s b le
          (inr (ground arith)))
]

finish_delivery-Bounded :
    (now : Time) (job : WebhookJob) (a : Answer) (s : Store)
    → Bounded s
    → job.attempts < max_webhook_attempts
    → Bounded (finish_delivery now job a s)
unfolding finish_delivery finish_webhook
finish_delivery-Bounded now job (no_request e) s b less =
    finish_webhook_job-Bounded now job.id (codes "failed") e now (inc job.attempts) s b
      (ground arith) (inl closed_failed)
finish_delivery-Bounded now job (no_answer e) s b less =
    retry_webhook-Bounded now job.id (codes "transport: " ++ e) (inc job.attempts) s b
      (ground arith)
finish_delivery-Bounded now job (answered status line) s b less =
    elim (leb 200 status && ltb status 300)
      as (λ t. Bounded (
        if t
        then finish_webhook now job.id (codes "succeeded") [] (inc job.attempts) s
        else retry_webhook now job.id (codes "non-2xx: " ++ line) (inc job.attempts) s)) [
          | true ↦
              finish_webhook_job-Bounded now job.id (codes "succeeded") [] now (inc job.attempts) s
                b (ground arith) (inl closed_succeeded)
          | false ↦
              retry_webhook-Bounded now job.id (codes "non-2xx: " ++ line) (inc job.attempts) s b
                (ground arith)
        ]

work-Bounded :
    (hmac : Text → Text → Text) (post : HookRequest → Answer) (now : Time) (s : Store)
    → Bounded s
    → Bounded (work hmac post now s)
unfolding work claim_next_webhook_job work_claimed deliver_webhook due is_open
work-Bounded hmac post now s b = elim (Option-cases (find_entry (due now) s.webhook_jobs)) [
  | inl e ↦ let ends : s ≡ work hmac post now s = (ground arith) in subst Bounded ends b
  | inr ((id, j), e) ↦
      let (is_due, (own, le, less)) = find_entry-All JobOk (due now) s.webhook_jobs id j b e in
      let fewer : j.attempts < max_webhook_attempts = (ground arith) in
      let picked = record j { status = codes "running" } in
      let s' = record s { webhook_jobs = put id picked s.webhook_jobs } in
      let b' : Bounded s' = put-All JobOk id picked s.webhook_jobs (own, le, inr fewer) b in
      elim (Option-cases (get j.webhook_id s.webhooks)) [
        | inl g ↦ let ends : s' ≡ work hmac post now s = (ground arith) in subst Bounded ends b'
        | inr (hook, g) ↦
            let ends : finish_delivery now picked (post (hook_request hmac picked hook)) s'
                ≡ work hmac post now s =
              (ground arith) in
            subst Bounded ends (
              finish_delivery-Bounded now picked (post (hook_request hmac picked hook)) s' b' fewer)
      ]
]

-- Whatever the endpoints answer, rounds of the worker and new jobs keep the queue bounded, in any
-- order and at any times: each row carries its key and counts at most five attempts, and fewer than
-- five if it is pending or running.
pub work_run-Bounded : (os : List WorkerOp) (s : Store) → Bounded s → Bounded (work_run os s)
unfolding work_run work_op enqueue_webhook_job new_webhook_job
work_run-Bounded [] s b = b
work_run-Bounded (enqueues now j ∷ os) s b =
    work_run-Bounded os _
      (put-All JobOk _ _ s.webhook_jobs (refl, ground arith, inr (ground arith)) b)
work_run-Bounded (works hmac post now ∷ os) s b =
    work_run-Bounded os _ (work-Bounded hmac post now s b)

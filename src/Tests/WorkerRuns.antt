-- ===== src/Tests/WorkerRuns.antt =====
-- The webhook worker (apps/api/cmd/manager-api/webhook_worker.go) at work.
use proxydock.Model.{Webhook, WebhookJob}
use proxydock.Prelude.{
  [], codes, false, map, nat_eq, none, refl, text_beq, text_eq, true, ℕ, ◌^◌, ◌∷◌, ◌≡◌,
}
use proxydock.Prelude.GoMap.{get, put}
use proxydock.Store.State.{Store, new}
use proxydock.Store.Webhooks.{
  claim_next_webhook_job, due, enqueue_webhook_job, find_entry, finish_webhook_job, finished_job,
  new_webhook_job,
}
use proxydock.Worker.{
  WorkerOp, answered, delay, deliver_webhook, enqueues, finish_delivery, finish_webhook,
  hook_request, no_answer, retry_webhook, work, work_claimed, work_op, work_run, works,
}
use proxydock.Worker.Attempts.{Bounded, work_run-Bounded}

abbrev hook : Webhook
hook = record {
  id = 1;
  fleet_id = codes "f";
  name = codes "h";
  url = codes "u";
  secret = [];
  has_secret = false;
  events = none;
  enabled = true;
  created_at = 0;
}

abbrev job : WebhookJob
job = record {
  id = 0;
  webhook_id = 1;
  payload = codes "p";
  status = [];
  attempts = 0;
  next_run_at = 0;
  last_error = [];
  created_at = 0;
  finished_at = none;
}

-- Nobody answers.
abbrev down : WorkerOp
down = works (λ k b. b) (λ q. no_answer (codes "x")) (10 ^ 15)

abbrev up : ℕ → WorkerOp
up now = works (λ k b. b) (λ q. answered 204 (codes "ok")) now

abbrev hooked : Store
hooked = record new { webhooks = (1, hook) ∷ [] }

-- The second delivery waits for five seconds after the first, then succeeds.
retry_run :
    map {B = ℕ × ℕ}
      (λ e. (e.1.attempts, e.1.next_run_at))
      (work_run
        (enqueues 1 job ∷ works (λ k b. b) (λ q. no_answer (codes "x")) 2 ∷ up 3 ∷ [])
        hooked).webhook_jobs
    ≡ (1, 5_000_000_002) ∷ []
unfolding work_run work_op work work_claimed claim_next_webhook_job find_entry due deliver_webhook
    finish_delivery retry_webhook finish_webhook delay hook_request finish_webhook_job finished_job
    enqueue_webhook_job new_webhook_job put get text_beq
retry_run = refl

work_run-Bounded_example : Bounded (work_run (enqueues 1 job ∷ down ∷ up 3 ∷ down ∷ []) hooked)
work_run-Bounded_example = work_run-Bounded (enqueues 1 job ∷ down ∷ up 3 ∷ down ∷ []) hooked tt

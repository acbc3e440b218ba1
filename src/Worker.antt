-- ===== src/Worker.antt =====
-- apps/api/cmd/manager-api/webhook_worker.go: the worker that delivers the webhook jobs of the store.
-- The endpoint of a webhook is a function of the request, and HMAC-SHA256 in hexadecimal is a
-- parameter. The clock is read once for a delivery.
pub mod Attempts
pub mod Acme
pub mod Outcome
pub mod Drain
use proxydock.Model.{Time, Webhook, WebhookJob}
use proxydock.Prelude.{
  List, Option, Text, [], codes, if◌then◌else◌, inc, leb, ltb, nat_eq, none, some, suc, text_eq,
  zero, ℕ, ◌&&◌, ◌*◌, ◌++◌, ◌+◌, ◌==◌, ◌∷◌,
}
use proxydock.Store.State.{Result, Store, err, ok}
use proxydock.Store.Webhooks.{claim_next_webhook_job, enqueue_webhook_job, finish_webhook_job}

pub record HookRequest : Type 0 where
  pub url : Text
  pub body : Text
  pub signature : Option Text

-- What net/http gives back: no request can be built, no answer comes, or there is one. The texts are
-- those of the errors and of the status line.
pub data Answer : Type 0 where
  no_request no_answer : Text → Answer
  answered : ℕ → Text → Answer

-- How long until the next attempt, in nanoseconds.
unfoldable pub delay : ℕ → ℕ
delay zero = 1_000_000_000
delay (suc attempts) = delay attempts * 5

abbrev pub max_webhook_attempts : ℕ
max_webhook_attempts = 5

unfoldable pub finish_webhook : Time → ℕ → Text → Text → ℕ → Store → Store
finish_webhook now id status last_err attempts s =
    (finish_webhook_job now id status last_err now attempts s).0

unfoldable pub retry_webhook : Time → ℕ → Text → ℕ → Store → Store
unfolding finish_webhook delay
retry_webhook now id last_err attempts s =
    if leb max_webhook_attempts attempts
    then finish_webhook now id (codes "failed") last_err attempts s
    else (finish_webhook_job now id (codes "pending") last_err (now + delay attempts) attempts s).0

unfoldable pub hook_request : (Text → Text → Text) → WebhookJob → Webhook → HookRequest
hook_request hmac job hook = record {
  url = hook.url;
  body = job.payload;
  signature =
      if hook.secret == [] then none else some (codes "sha256=" ++ hmac hook.secret job.payload);
}

unfoldable pub finish_delivery : Time → WebhookJob → Answer → Store → Store
unfolding retry_webhook
finish_delivery now job (no_request e) s =
    finish_webhook now job.id (codes "failed") e (inc job.attempts) s
finish_delivery now job (no_answer e) s =
    retry_webhook now job.id (codes "transport: " ++ e) (inc job.attempts) s
finish_delivery now job (answered status line) s =
    if leb 200 status && ltb status 300
    then finish_webhook now job.id (codes "succeeded") [] (inc job.attempts) s
    else retry_webhook now job.id (codes "non-2xx: " ++ line) (inc job.attempts) s

unfoldable pub deliver_webhook :
    (Text → Text → Text) → (HookRequest → Answer) → Time → WebhookJob → Webhook → Store → Store
unfolding finish_delivery hook_request
deliver_webhook hmac post now job hook s =
    finish_delivery now job (post (hook_request hmac job hook)) s

-- What follows a claim. One that fails ends the loop.
unfoldable pub work_claimed :
    (Text → Text → Text)
    → (HookRequest → Answer)
    → Time
    → Store
    → Result (WebhookJob × Webhook)
    → Store
unfolding deliver_webhook
work_claimed hmac post now s (err e) = s
work_claimed hmac post now s (ok (job, hook)) = deliver_webhook hmac post now job hook s

-- One round of the inner loop.
unfoldable pub work : (Text → Text → Text) → (HookRequest → Answer) → Time → Store → Store
unfolding work_claimed
work hmac post now s =
    work_claimed hmac post now (claim_next_webhook_job now s).0 (claim_next_webhook_job now s).1

-- What happens to the queue: a job is enqueued, or the worker does a round.
pub data WorkerOp : Type 0 where
  enqueues : Time → WebhookJob → WorkerOp
  works : (Text → Text → Text) → (HookRequest → Answer) → Time → WorkerOp

unfoldable pub work_op : WorkerOp → Store → Store
unfolding work
work_op (enqueues now j) s = (enqueue_webhook_job now j s).0
work_op (works hmac post now) s = work hmac post now s

unfoldable pub work_run : List WorkerOp → Store → Store
unfolding work_op
work_run [] s = s
work_run (o ∷ os) s = work_run os (work_op o s)

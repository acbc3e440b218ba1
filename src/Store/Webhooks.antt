-- ===== src/Store/Webhooks.antt =====
-- Webhooks and their delivery queue (memory.go:732-885).
use proxydock.Model.{Time, Webhook, WebhookJob}
use proxydock.Prelude.{
  Bool, List, Option, Text, [], any, codes, copy_slice, false, if◌then◌else◌, inc, items, keep, ltb,
  nat_eq, none, not, or_default, some, sort, text_eq, text_lt, ℕ, ◌&&◌, ◌==◌, ◌||◌, ◌∷◌,
}
use proxydock.Prelude.GoMap.{GoMap, delete, get, put, values}
use proxydock.Store.Fleets.{stamp}
use proxydock.Store.State.{Result, Store, conflict, err, not_found, ok}

-- A webhook of the fleet under that name.
abbrev pub same_name : Webhook → Webhook → Bool
same_name w existing = existing.fleet_id == w.fleet_id && existing.name == w.name

unfoldable pub new_webhook : Time → ℕ → Webhook → Webhook
new_webhook now id w = record w {
  id = id;
  created_at = now;
  events = or_default w.events (codes "revision_published" ∷ []);
  has_secret = not (w.secret == []);
}

unfoldable pub create_webhook : Time → Webhook → Store → Store × Result Webhook
create_webhook now w s = elim (get w.fleet_id s.fleets) [
  | none ↦ (s, err not_found)
  | some _ ↦
      if any (same_name w) (values s.webhooks)
      then (s, err conflict)
      else (let n = inc s.webhook_seq in
          let v = new_webhook now n w in
          (record s { webhook_seq = n; webhooks = put n v s.webhooks }, ok v))
]

unfoldable pub get_webhook : Text → ℕ → Store → Result Webhook
get_webhook fleet_id id s = elim (get id s.webhooks) [
  | none ↦ err not_found
  | some w ↦ if w.fleet_id == fleet_id then ok w else err not_found
]

unfoldable pub list_webhooks : Text → Store → List Webhook
list_webhooks fleet_id s =
    sort (λ a b. text_lt a.name b.name) (keep (λ w. w.fleet_id == fleet_id) (values s.webhooks))

-- Enabled, of the fleet, and subscribed to the event.
unfoldable pub listens : Text → Text → Webhook → Bool
listens fleet_id event w =
    if not (w.fleet_id == fleet_id) || not w.enabled
    then false
    else any (λ e. e == event) (items w.events)

unfoldable pub list_enabled_webhooks : Text → Text → Store → List Webhook
unfolding listens
list_enabled_webhooks fleet_id event s = keep (listens fleet_id event) (values s.webhooks)

unfoldable pub updated_webhook : Webhook → Webhook → Webhook
updated_webhook w cur =
    let secret = if w.secret == [] then cur.secret else w.secret in
    record cur {
      name = w.name;
      url = w.url;
      secret = secret;
      has_secret = not (secret == []);
      events = copy_slice w.events;
      enabled = w.enabled;
    }

unfoldable pub update_webhook : Webhook → Store → Store × Result Webhook
update_webhook w s = elim (get w.id s.webhooks) [
  | none ↦ (s, err not_found)
  | some cur ↦
      if cur.fleet_id == w.fleet_id
      then if any (λ existing. not (existing.id == w.id) && same_name w existing)
          (values s.webhooks)
        then (s, err conflict)
        else (let v = updated_webhook w cur in
            (record s { webhooks = put w.id v s.webhooks }, ok v))
      else (s, err not_found)
]

unfoldable pub delete_webhook : Text → ℕ → Store → Store × Result (Unit {0})
delete_webhook fleet_id id s = elim (get id s.webhooks) [
  | none ↦ (s, err not_found)
  | some w ↦
      if w.fleet_id == fleet_id
      then (record s { webhooks = delete id s.webhooks }, ok tt)
      else (s, err not_found)
]

unfoldable pub new_webhook_job : Time → ℕ → WebhookJob → WebhookJob
new_webhook_job now id j = record j {
  id = id;
  status = codes "pending";
  attempts = 0;
  created_at = now;
  next_run_at = stamp now j.next_run_at;
}

-- The row that FinishWebhookJob writes over `j`.
unfoldable pub finished_job : Time → Text → Text → Time → ℕ → WebhookJob → WebhookJob
finished_job now status last_err next_run_at attempts j = record j {
  status = status;
  last_error = last_err;
  attempts = attempts;
  next_run_at = next_run_at;
  finished_at =
      if status == codes "succeeded" || status == codes "failed" then some now else j.finished_at;
}

unfoldable pub enqueue_webhook_job : Time → WebhookJob → Store → Store × Result WebhookJob
enqueue_webhook_job now j s =
    let n = inc s.webhook_job_seq in
    let k = new_webhook_job now n j in
    (record s { webhook_job_seq = n; webhook_jobs = put n k s.webhook_jobs }, ok k)

-- A job that a claim may pick: pending, and due by now.
unfoldable pub due : Time → WebhookJob → Bool
due now j = if not (j.status == codes "pending") then false else not (ltb now j.next_run_at)

-- The first entry of a scan that passes the test, with its key.
unfoldable pub find_entry {ℓ} : {V : Type ℓ} → (V → Bool) → GoMap ℕ V → Option (ℕ × V)
find_entry p [] = none
find_entry p ((k, v) ∷ m) = if p v then some (k, v) else find_entry p m

unfoldable pub claim_next_webhook_job : Time → Store → Store × Result (WebhookJob × Webhook)
unfolding due
claim_next_webhook_job now s = elim (find_entry (due now) s.webhook_jobs) [
  | none ↦ (s, err not_found)
  | some (id, j) ↦
      let picked = record j { status = codes "running" } in
      let s' = record s { webhook_jobs = put id picked s.webhook_jobs } in
      elim (get picked.webhook_id s.webhooks) [
        | none ↦ (s', err not_found)
        | some w ↦ (s', ok (picked, w))
      ]
]

unfoldable pub finish_webhook_job :
    Time → ℕ → Text → Text → Time → ℕ → Store → Store × Result (Unit {0})
finish_webhook_job now id status last_err next_run_at attempts s = elim (get id s.webhook_jobs) [
  | none ↦ (s, err not_found)
  | some j ↦ (
    record s {
      webhook_jobs =
          put id (finished_job now status last_err next_run_at attempts j) s.webhook_jobs;
    },
    ok tt,
  )
]

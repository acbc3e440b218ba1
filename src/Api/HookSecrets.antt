-- ===== src/Api/HookSecrets.antt =====
-- apps/api/internal/api/webhook_handlers.go: the secrets of webhooks in the answers.
use proxydock.Api.Answers.{
  Decoded, Server, and_answer, answer, bad_json, decoded, no_body, store_error, with_body,
}
use proxydock.Api.Certificates.{map_result}
use proxydock.Api.Hooks.{
  WebhookInput, handle_create_webhook, handle_list_webhooks, handle_update_webhook, no_webhook,
  webhook_fault, webhook_from_input, webhook_of, without_secret,
}
use proxydock.Api.Hosts.{with_id}
use proxydock.Api.Secrets.{Holds, of_fleet-Holds}
use proxydock.Model.{Time, Webhook}
use proxydock.Prelude.{
  All, List, Option, Option-cases, Text, [], inl, inr, map, none, refl, some, ℕ, ◌∷◌, ◌≡◌,
}
use proxydock.Store.State.{Result, Store, err, ok}
use proxydock.Store.Webhooks.{create_webhook, list_webhooks, update_webhook}

abbrev pub IsSecretless : Webhook → Type 0
IsSecretless w = w.secret ≡ []

without_secret-IsSecretless : (ws : List Webhook) → All IsSecretless (map without_secret ws)
unfolding without_secret
without_secret-IsSecretless [] = tt
without_secret-IsSecretless (w ∷ ws) = (refl, without_secret-IsSecretless ws)

answer-IsSecretless :
    (status : ℕ) (r : Result Webhook)
    → Holds IsSecretless (answer status (map_result without_secret r))
unfolding answer map_result without_secret store_error
answer-IsSecretless status (ok w) = refl
answer-IsSecretless status (err e) = tt

module _ (sv : Server) (status : ℕ) (call : Webhook → Store → Store × Result Webhook) (n : ℕ)
    (id : Text) where
  webhook_from_input-IsSecretless :
      (x : WebhookInput) (s : Store)
      → Holds IsSecretless (webhook_from_input sv status call n id x s).1
  unfolding webhook_from_input and_answer
  webhook_from_input-IsSecretless x s = elim (Option-cases (webhook_fault sv x)) [
    | inr (text, f) ↦ rw (f, webhook_from_input) tt
    | inl f ↦
        rw (f, webhook_from_input, and_answer)
          (answer-IsSecretless status (call (webhook_of n id x) s).1)
  ]

  with_body-IsSecretless :
      (body : Decoded WebhookInput) (s : Store)
      → Holds IsSecretless (with_body no_webhook body (webhook_from_input sv status call n id) s).1
  unfolding with_body
  with_body-IsSecretless no_body s = webhook_from_input-IsSecretless no_webhook s
  with_body-IsSecretless (bad_json text x) s = tt
  with_body-IsSecretless (decoded x) s = webhook_from_input-IsSecretless x s

handle_update_webhook-IsSecretless :
    (sv : Server) (id : Text) (n : Option ℕ) (body : Decoded WebhookInput) (s : Store)
    → Holds IsSecretless (handle_update_webhook sv id n body s).1
unfolding handle_update_webhook with_id
handle_update_webhook-IsSecretless sv id none body s = tt
handle_update_webhook-IsSecretless sv id (some n) body s =
    with_body-IsSecretless sv 200 update_webhook n id body s

-- Whatever is stored and asked, each webhook that the handlers answer with has an empty secret: in the
-- list of a fleet, when one has been created, and when one has been changed.
pub handlers_IsSecretless :
    (sv : Server) (now : Time) (id : Text) (n : Option ℕ) (body : Decoded WebhookInput) (s : Store)
    → Holds (All IsSecretless) (handle_list_webhooks id s)
      × Holds IsSecretless (handle_create_webhook sv now id body s).1
      × Holds IsSecretless (handle_update_webhook sv id n body s).1
unfolding handle_list_webhooks handle_create_webhook
handlers_IsSecretless sv now id n body s = (
  of_fleet-Holds (All IsSecretless) id (map without_secret (list_webhooks id s)) s
      (without_secret-IsSecretless (list_webhooks id s)),
  with_body-IsSecretless sv 201 (create_webhook now) 0 id body s,
  handle_update_webhook-IsSecretless sv id n body s,
)

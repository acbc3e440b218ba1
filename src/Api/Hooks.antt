-- ===== src/Api/Hooks.antt =====
-- apps/api/internal/api/webhook_handlers.go and middleware_template_handlers.go.
use proxydock.Api.Answers.{
  Decoded, Response, Server, and_answer, answer, no_content, problem, with_body,
}
use proxydock.Api.Certificates.{map_result}
use proxydock.Api.Hosts.{with_id}
use proxydock.Api.Resources.{of_fleet}
use proxydock.Compiler.Middlewares.{validate_middlewares}
use proxydock.Model.{Middleware, MiddlewareTemplate, Time, Webhook}
use proxydock.Prelude.{
  Bool, List, Option, Text, [], any, codes, false, if◌then◌else◌, items, map, nat_eq, none, not,
  some, text_eq, true, ℕ, ◌&&◌, ◌++◌, ◌==◌, ◌||◌, ◌∷◌,
}
use proxydock.Prelude.Strings.{trim_space}
use proxydock.Store.State.{Result, Store}
use proxydock.Store.Templates.{
  create_middleware_template, delete_middleware_template, get_middleware_template,
  list_middleware_templates, update_middleware_template,
}
use proxydock.Store.Webhooks.{create_webhook, delete_webhook, list_webhooks, update_webhook}

-- webhookInput
pub record WebhookInput : Type 0 where
  pub name : Text
  pub url : Text
  pub secret : Text
  pub events : Option (List Text)
  pub enabled : Option Bool

abbrev pub no_webhook : WebhookInput
no_webhook = record { name = []; url = []; secret = []; events = none; enabled = none }

abbrev pub allowed_events : List Text
allowed_events =
    codes "revision_published" ∷ codes "revision_rolled_back" ∷ codes "acme_certificate_issued" ∷ []

-- The message for the first event that is not allowed.
unfoldable pub event_fault : List Text → Option Text
event_fault [] = none
event_fault (e ∷ es) =
    let rest = event_fault es in
    if any (λ a. a == e) allowed_events then rest else some (codes "unknown event: " ++ e)

-- `url.Parse` gives a scheme and a host.
unfoldable pub is_http_url : Option (Text × Text) → Bool
is_http_url none = false
is_http_url (some (scheme, h)) =
    (scheme == codes "http" || scheme == codes "https") && not (h == [])

-- webhookInput.validate
unfoldable pub webhook_fault : Server → WebhookInput → Option Text
unfolding event_fault is_http_url
webhook_fault sv x =
    if trim_space x.name == []
    then some (codes "name is required")
    else if not (is_http_url (sv.libraries.parse_url (trim_space x.url)))
    then some (codes "url must be an absolute http(s) URL")
    else elim (items x.events) [
      | [] ↦ some (codes "events must include at least one event")
      | e ∷ es ↦ event_fault (e ∷ es)
    ]

abbrev pub webhook_of : ℕ → Text → WebhookInput → Webhook
webhook_of id fleet_id x = record {
  id = id;
  fleet_id = fleet_id;
  name = x.name;
  url = x.url;
  secret = x.secret;
  has_secret = false;
  events = x.events;
  enabled = elim x.enabled [ none ↦ true | some b ↦ b ];
  created_at = 0;
}

-- Only `has_secret` is exposed.
unfoldable pub without_secret : Webhook → Webhook
without_secret w = record w { secret = [] }

unfoldable pub handle_list_webhooks : Text → Store → Response (List Webhook)
unfolding of_fleet without_secret
handle_list_webhooks fleet_id s =
    of_fleet fleet_id (map without_secret (list_webhooks fleet_id s)) s

-- A webhook from a body that has been decoded: `call` is the method of the store.
unfoldable pub webhook_from_input :
    Server
    → ℕ
    → (Webhook → Store → Store × Result Webhook)
    → ℕ
    → Text
    → WebhookInput
    → Store
    → Store × Response Webhook
unfolding webhook_fault and_answer answer map_result without_secret
webhook_from_input sv status call id fleet_id x s = elim (webhook_fault sv x) [
  | some text ↦ (s, problem 400 text)
  | none ↦
      and_answer (λ r. answer status (map_result without_secret r))
        (call (webhook_of id fleet_id x) s)
]

unfoldable pub handle_create_webhook :
    Server → Time → Text → Decoded WebhookInput → Store → Store × Response Webhook
unfolding with_body webhook_from_input
handle_create_webhook sv now fleet_id body s =
    with_body no_webhook body (webhook_from_input sv 201 (create_webhook now) 0 fleet_id) s

unfoldable pub handle_update_webhook :
    Server → Text → Option ℕ → Decoded WebhookInput → Store → Store × Response Webhook
unfolding with_id with_body webhook_from_input
handle_update_webhook sv fleet_id id body s =
    with_id (codes "webhook_id") id
      (λ n. with_body no_webhook body (webhook_from_input sv 200 update_webhook n fleet_id)) s

unfoldable pub handle_delete_webhook : Text → Option ℕ → Store → Store × Response (Unit {0})
unfolding with_id and_answer no_content
handle_delete_webhook fleet_id id s =
    with_id (codes "webhook_id") id (λ n t. and_answer no_content (delete_webhook fleet_id n t)) s

-- middlewareTemplateInput
pub record TemplateInput : Type 0 where
  pub name : Text
  pub description : Text
  pub middlewares : Option (List Middleware)

abbrev pub no_template : TemplateInput
no_template = record { name = []; description = []; middlewares = none }

-- middlewareTemplateInput.validate
unfoldable pub template_fault : Server → TemplateInput → Option Text
template_fault sv x =
    if trim_space x.name == []
    then some (codes "name is required")
    else elim (validate_middlewares sv.libraries.sprint (items x.middlewares)) [
      | none ↦ none
      | some e ↦ some (sv.describe_render e)
    ]

abbrev pub template_of : ℕ → Text → TemplateInput → MiddlewareTemplate
template_of id fleet_id x = record {
  id = id;
  fleet_id = fleet_id;
  name = x.name;
  description = x.description;
  middlewares = x.middlewares;
  created_at = 0;
  updated_at = 0;
}

unfoldable pub handle_list_middleware_templates : Text → Store → Response (List MiddlewareTemplate)
unfolding of_fleet
handle_list_middleware_templates fleet_id s =
    of_fleet fleet_id (list_middleware_templates fleet_id s) s

unfoldable pub template_from_input :
    Server
    → ℕ
    → (MiddlewareTemplate → Store → Store × Result MiddlewareTemplate)
    → ℕ
    → Text
    → TemplateInput
    → Store
    → Store × Response MiddlewareTemplate
unfolding template_fault and_answer answer
template_from_input sv status call id fleet_id x s = elim (template_fault sv x) [
  | some text ↦ (s, problem 400 text)
  | none ↦ and_answer (answer status) (call (template_of id fleet_id x) s)
]

unfoldable pub handle_create_middleware_template :
    Server → Time → Text → Decoded TemplateInput → Store → Store × Response MiddlewareTemplate
unfolding with_body template_from_input
handle_create_middleware_template sv now fleet_id body s =
    with_body no_template body
      (template_from_input sv 201 (create_middleware_template now) 0 fleet_id) s

unfoldable pub handle_get_middleware_template :
    Text → Option ℕ → Store → Store × Response MiddlewareTemplate
unfolding with_id answer
handle_get_middleware_template fleet_id id s =
    with_id (codes "tpl_id") id (λ n t. (t, answer 200 (get_middleware_template fleet_id n t))) s

unfoldable pub handle_update_middleware_template :
    Server
    → Time
    → Text
    → Option ℕ
    → Decoded TemplateInput
    → Store
    → Store × Response MiddlewareTemplate
unfolding with_id with_body template_from_input
handle_update_middleware_template sv now fleet_id id body s =
    with_id (codes "tpl_id") id
      (λ n.
        with_body no_template body
          (template_from_input sv 200 (update_middleware_template now) n fleet_id))
      s

unfoldable pub handle_delete_middleware_template :
    Text → Option ℕ → Store → Store × Response (Unit {0})
unfolding with_id and_answer no_content
handle_delete_middleware_template fleet_id id s =
    with_id (codes "tpl_id") id
      (λ n t. and_answer no_content (delete_middleware_template fleet_id n t)) s

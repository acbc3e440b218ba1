-- ===== src/Api/Revisions.antt =====
-- apps/api/internal/api/admin_handlers.go: publishing, roll-back and the webhooks that they fire.
use proxydock.Api.Answers.{
  Decoded, Response, Server, decoded_or, problem, reply, store_error, written_after,
}
use proxydock.Compiler.Compile.{Compiled, compile}
use proxydock.Compiler.Names.{decimal}
use proxydock.Model.{Certificate, Middleware, ProxyHost, Revision, Time, Webhook, json}
use proxydock.Prelude.{
  List, Option, Text, [], codes, if◌then◌else◌, inl, inr, ltb, map, none, some, true, ℕ, ◌++◌, ◌-◌,
  ◌^◌, ◌∷◌,
}
use proxydock.Prelude.Strings.{trim_space}
use proxydock.Store.Certificates.{list_certificates}
use proxydock.Store.Fleets.{get_fleet}
use proxydock.Store.ProxyHosts.{list_proxy_hosts}
use proxydock.Store.Revisions.{create_revision, get_revision, next_revision_number}
use proxydock.Store.State.{Store, err, ok}
use proxydock.Store.Webhooks.{enqueue_webhook_job, list_enabled_webhooks}

unfoldable pub sign_revision : Option (Text → Text) → Revision → Revision
sign_revision signer rev = elim signer [
  | none ↦ rev
  | some sign ↦ record rev { signature = sign rev.compiled_config; signature_alg = codes "ed25519" }
]

-- One job for each webhook; a failure is only logged.
unfoldable pub enqueue_all : Time → Text → List Webhook → Store → Store
enqueue_all now payload [] s = s
enqueue_all now payload (h ∷ hs) s =
    enqueue_all now payload hs
      (enqueue_webhook_job now
        (record {
          id = 0;
          webhook_id = h.id;
          payload = payload;
          status = [];
          attempts = 0;
          next_run_at = 0;
          last_error = [];
          created_at = 0;
          finished_at = none;
        })
        s).0

unfoldable pub fire_webhooks : Server → Time → Text → Text → Revision → Store → Store
unfolding enqueue_all
fire_webhooks sv now fleet_id event rev s = elim (list_enabled_webhooks fleet_id event s) [
  | [] ↦ s
  | h ∷ hs ↦ elim (sv.encode_event event fleet_id rev) [
    | none ↦ s
    | some payload ↦ enqueue_all now payload (h ∷ hs) s
  ]
]

-- The copies that json.Marshal and json.Unmarshal make: an empty map is left out, and so is the key
-- of a certificate.
abbrev pub without_empty {ℓ} : {A : Type ℓ} → Option (List A) → Option (List A)
without_empty none = none
without_empty (some []) = none
without_empty (some (x ∷ xs)) = some (x ∷ xs)

abbrev pub copied_middlewares : Option (List Middleware) → Option (List Middleware)
copied_middlewares none = none
copied_middlewares (some mws) =
    some (map (λ (mw : Middleware). record mw { config = without_empty mw.config }) mws)

unfoldable pub copied_host : ProxyHost → ProxyHost
copied_host h = record h {
  health_check = without_empty h.health_check;
  middlewares = copied_middlewares h.middlewares;
}

unfoldable pub copied_certificate : Certificate → Certificate
copied_certificate c = record c { key_pem = [] }

-- Stores the signed revision under the fleet's next number, publishes it and fires the webhooks.
unfoldable pub publish : Server → Time → Text → Revision → Store → Store × Response Revision
unfolding sign_revision fire_webhooks
publish sv now event rev s =
    let (t, made) = create_revision now (sign_revision sv.signer rev) true s in
    elim made [
      | err e ↦ (t, store_error e)
      | ok saved ↦ (fire_webhooks sv now rev.fleet_id event saved t, reply 201 none (some saved))
    ]

abbrev pub unsigned : Text → ℕ → Compiled → List ProxyHost → List Certificate → Text → Revision
unsigned fleet_id number res hosts certs notes = record {
  id = 0;
  fleet_id = fleet_id;
  number = number;
  compiled_config = res.config;
  source_proxy_hosts = json (map copied_host hosts);
  source_certs = json (map copied_certificate certs);
  etag = res.etag;
  notes = notes;
  signature = [];
  signature_alg = [];
  generated_at = 0;
}

-- handlePublishRevision from the compilation on.
unfoldable pub publish_compiled : Server → Time → Text → Text → Store → Store × Response Revision
unfolding publish copied_host copied_certificate
publish_compiled sv now fleet_id notes s =
    let hosts = list_proxy_hosts fleet_id s in
    let certs = list_certificates fleet_id s in
    elim (compile sv.libraries hosts certs) [
      | inl e ↦ (s, problem 400 (sv.describe e))
      | inr res ↦ elim (next_revision_number fleet_id s) [
        | err e ↦ (s, store_error e)
        | ok n ↦
            publish sv now (codes "revision_published")
              (unsigned fleet_id n res hosts certs (trim_space notes)) s
      ]
    ]

-- The body is optional, and the failure of decodeBody is ignored.
unfoldable pub handle_publish_revision :
    Server → Time → Text → Decoded Text → Store → Store × Response Revision
unfolding publish_compiled
handle_publish_revision sv now fleet_id body s = elim (get_fleet fleet_id s) [
  | err e ↦ (s, store_error e)
  | ok f ↦
      let (t, r) = publish_compiled sv now fleet_id (decoded_or (λ n. n) [] body) s in
      (t, written_after body r)
]

-- strconv.Itoa
unfoldable pub itoa : ℕ → Text
itoa n = if ltb n (2 ^ 63) then decimal n else b'-' ∷ decimal (2 ^ 64 - n)

-- `number` is what strconv.Atoi makes of the number in the path.
unfoldable pub handle_rollback : Server → Time → Text → Option ℕ → Store → Store × Response Revision
unfolding publish itoa
handle_rollback sv now fleet_id number s = elim number [
  | none ↦ (s, problem 400 (codes "number must be an integer"))
  | some n ↦ elim (get_revision fleet_id n s) [
    | err e ↦ (s, store_error e)
    | ok old ↦ elim (next_revision_number fleet_id s) [
      | err e ↦ (s, store_error e)
      | ok next ↦
          publish sv now (codes "revision_rolled_back")
            (record {
              id = 0;
              fleet_id = fleet_id;
              number = next;
              compiled_config = old.compiled_config;
              source_proxy_hosts = old.source_proxy_hosts;
              source_certs = old.source_certs;
              etag = old.etag;
              notes = codes "rollback to revision " ++ itoa n;
              signature = [];
              signature_alg = [];
              generated_at = 0;
            })
            s
    ]
  ]
]

-- ===== src/Api/Configs.antt =====
-- apps/api/internal/api/agent_handlers.go: what agents are served, and their heartbeats.
use proxydock.Api.Access.{authenticate_agent}
use proxydock.Api.Answers.{Response, Server, problem, reply, store_error}
use proxydock.Compiler.Compile.{Compiled, Failure, compile}
use proxydock.Compiler.Upstreams.{trim_prefix}
use proxydock.Labels.{matches, parse}
use proxydock.Model.{Agent, Certificate, Doc, ProxyHost, Revision, Time, empty, invalid, json}
use proxydock.Prelude.{
  Bool, List, Octets, Option, Text, [], any, codes, if◌then◌else◌, inl, inr, nat_eq, none, not,
  some, take, text_eq, ℕ, ◌&&◌, ◌==◌, ◌^◌, ◌∷◌, ◌⊎◌,
}
use proxydock.Prelude.Strings.{split, trim_space}
use proxydock.Store.Agents.{HeartbeatUpdate, get_agent, update_agent_heartbeat}
use proxydock.Store.Revisions.{get_published_revision}
use proxydock.Store.State.{Store, err, not_found, ok}
use proxydock.Store.Tokens.{TokenRecord}

-- configResponse
pub record ConfigBody : Type 0 where
  pub fleet_id : Text
  pub agent_id : Text
  pub revision : ℕ
  pub etag : Text
  pub generated_at : Time
  pub config : Text
  pub signature : Text
  pub signature_alg : Text

pub data BuildError : Type 0 where
  bad_hosts bad_certs : BuildError
  not_compiled : Failure → BuildError

-- The hosts whose label selector the agent matches.
unfoldable pub agent_hosts : List Text → List ProxyHost → List ProxyHost
agent_hosts labels [] = []
agent_hosts labels (h ∷ hs) =
    let rest = agent_hosts labels hs in
    elim (parse h.label_selector) [
      | inl e ↦ rest
      | inr sel ↦ if not (matches sel labels) then rest else h ∷ rest
    ]

unfoldable pub snapshot_certs : Doc (List Certificate) → Option (List Certificate)
snapshot_certs empty = some []
snapshot_certs invalid = none
snapshot_certs (json certs) = some certs

abbrev pub published_body : Agent → Revision → ConfigBody
published_body agent rev = record {
  fleet_id = rev.fleet_id;
  agent_id = agent.id;
  revision = rev.number;
  etag = rev.etag;
  generated_at = rev.generated_at;
  config = rev.compiled_config;
  signature = rev.signature;
  signature_alg = rev.signature_alg;
}

-- The body with a new payload, which is signed if the server has a key.
unfoldable pub recompiled_body : Option (Text → Text) → Compiled → ConfigBody → ConfigBody
recompiled_body signer res body = record body {
  config = res.config;
  etag = res.etag;
  signature = elim signer [ none ↦ [] | some sign ↦ sign res.config ];
  signature_alg = elim signer [ none ↦ [] | some sign ↦ codes "ed25519" ];
}

unfoldable pub compile_for_agent :
    Server → Agent → Revision → List ProxyHost → BuildError ⊎ ConfigBody
unfolding agent_hosts snapshot_certs recompiled_body
compile_for_agent sv agent rev hosts = elim (snapshot_certs rev.source_certs) [
  | none ↦ inl bad_certs
  | some certs ↦ elim (compile sv.libraries (agent_hosts agent.labels hosts) certs) [
    | inl e ↦ inl (not_compiled e)
    | inr res ↦ inr (recompiled_body sv.signer res (published_body agent rev))
  ]
]

-- A snapshot of no hosts is the text "[]".
unfoldable pub build_agent_config_response : Server → Agent → Revision → BuildError ⊎ ConfigBody
unfolding compile_for_agent
build_agent_config_response sv agent rev = elim rev.source_proxy_hosts [
  | empty ↦ inr (published_body agent rev)
  | invalid ↦ inl bad_hosts
  | json hosts ↦ elim hosts [
    | [] ↦ inr (published_body agent rev)
    | h ∷ hs ↦ compile_for_agent sv agent rev (h ∷ hs)
  ]
]

unfoldable pub etag_matches : Text → Text → Bool
etag_matches header etag =
    any (λ v. trim_prefix (codes "W/") (trim_space v) == etag) (split b',' header)

abbrev pub internal_error : {A : Type 0} → Response A
internal_error = problem 500 (codes "internal error")

-- The answer for an agent whose fleet has published `rev`.
unfoldable pub config_answer : Text → BuildError ⊎ ConfigBody → Response ConfigBody
unfolding etag_matches
config_answer if_none_match built = elim built [
  | inl e ↦ internal_error
  | inr resp ↦
      if not (if_none_match == []) && etag_matches if_none_match resp.etag
      then reply 304 (some resp.etag) none
      else reply 200 (some resp.etag) (some resp)
]

-- handleGetConfig, for a caller that is known.
unfoldable pub serve_config : Server → TokenRecord → Text → Store → Response ConfigBody
unfolding build_agent_config_response config_answer
serve_config sv rec if_none_match s = elim (get_published_revision rec.fleet_id s) [
  | err e ↦ elim e [
    | not_found ↦ problem 404 (codes "no published revision for fleet")
    | _ ↦ internal_error
  ]
  | ok rev ↦ elim (get_agent rec.agent.id s) [
    | err e ↦ internal_error
    | ok agent ↦ config_answer if_none_match (build_agent_config_response sv agent rev)
  ]
]

-- `agent_id` is the one of the path.
unfoldable pub handle_get_config :
    Server → Time → Text → Text → Text → Store → Store × Response ConfigBody
unfolding serve_config
handle_get_config sv now agent_id authorization if_none_match s =
    let (t, who) = authenticate_agent sv now authorization s in
    elim who [
      | none ↦ (t, problem 401 (codes "invalid or missing bearer token"))
      | some rec ↦
          if not (rec.agent.id == agent_id)
          then (t, problem 403 (codes "token does not match agent_id"))
          else (t, serve_config sv rec if_none_match t)
    ]

unfoldable pub handle_agent_config_preview : Server → Text → Store → Response ConfigBody
unfolding build_agent_config_response
handle_agent_config_preview sv agent_id s = elim (get_agent agent_id s) [
  | err e ↦ store_error e
  | ok agent ↦ elim (get_published_revision agent.fleet_id s) [
    | err e ↦ elim e [
      | not_found ↦ problem 404 (codes "no published revision for fleet")
      | _ ↦ internal_error
    ]
    | ok rev ↦ elim (build_agent_config_response sv agent rev) [
      | inl e ↦ internal_error
      | inr resp ↦ reply 200 none (some resp)
    ]
  ]
]

-- The body of a heartbeat, decoded.
pub record Beat : Type 0 where
  pub agent_id : Text
  pub current_revision : ℕ
  pub provider_version : Text
  pub traefik_version : Text
  pub last_error : Text

-- `body` is none if its bytes could not be read, which io.LimitReader cuts off after 1 << 16;
-- `decode` is json.Unmarshal.
unfoldable pub handle_heartbeat :
    Server
    → (Octets → Option Beat)
    → Time
    → Text
    → Text
    → Option Octets
    → Store
    → Store × Response (Unit {0})
handle_heartbeat sv decode now agent_id authorization body s =
    let (t, who) = authenticate_agent sv now authorization s in
    elim who [
      | none ↦ (t, problem 401 (codes "invalid or missing bearer token"))
      | some rec ↦
          if not (rec.agent.id == agent_id)
          then (t, problem 403 (codes "token does not match agent_id"))
          else elim body [
            | none ↦ (t, problem 400 (codes "could not read body"))
            | some bytes ↦ elim (decode (take (2 ^ 16) bytes)) [
              | none ↦ (t, problem 400 (codes "invalid JSON"))
              | some b ↦
                  if not (b.agent_id == []) && not (b.agent_id == rec.agent.id)
                  then (t, problem 400 (codes "heartbeat agent_id mismatch"))
                  else (let hb : HeartbeatUpdate = record {
                    current_revision = b.current_revision;
                    provider_version = b.provider_version;
                    traefik_version = b.traefik_version;
                    last_error = b.last_error;
                  } in
                      let (u, done) = update_agent_heartbeat now rec.agent.id hb t in
                      elim done [
                        | err e ↦ (u, store_error e)
                        | ok x ↦ (u, reply 200 none (some tt))
                      ])
            ]
          ]
    ]

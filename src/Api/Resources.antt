-- ===== src/Api/Resources.antt =====
-- apps/api/internal/api/admin_handlers.go (fleets, agents and their tokens) and admin_tokens.go. An
-- argument of type Decoded is what decodeBody finds; the other arguments are parts of the path.
use proxydock.Api.Answers.{
  Decoded, Response, Server, and_answer, answer, decoded_or, no_content, problem, reply,
  store_error, with_body, written_after,
}
use proxydock.Auth.{mint_bearer}
use proxydock.Model.{AdminToken, Agent, AgentToken, Fleet, Time}
use proxydock.Prelude.{
  List, Option, Text, [], codes, if◌then◌else◌, nat_eq, none, some, text_eq, ℕ, ◌==◌, ◌||◌, ◌∷◌,
}
use proxydock.Prelude.Strings.{cut, trim_space}
use proxydock.Store.Agents.{create_agent, delete_agent, get_agent, list_agents, update_agent_labels}
use proxydock.Store.Fleets.{create_fleet, delete_fleet, get_fleet, list_fleets}
use proxydock.Store.State.{Store, err, ok}
use proxydock.Store.Tokens.{
  list_admin_tokens, list_tokens, mint_admin_token, mint_token, revoke_admin_token, revoke_token,
}

-- The struct `in` of handleCreateFleet and handleCreateAgent.
pub record Named : Type 0 where
  pub id : Text
  pub name : Text

abbrev no_name : Named
no_name = record { id = []; name = [] }

unfoldable pub handle_list_fleets : Store → Response (List Fleet)
handle_list_fleets s = reply 200 none (some (list_fleets s))

unfoldable pub handle_create_fleet : Time → Decoded Named → Store → Store × Response Fleet
unfolding with_body and_answer answer
handle_create_fleet now body s =
    with_body no_name body
      (λ x t.
        if x.id == [] || x.name == []
        then (t, problem 400 (codes "id and name are required"))
        else and_answer (answer 201) (
            create_fleet now
              record { id = x.id; name = x.name; published_revision_id = none; created_at = 0 } t))
      s

unfoldable pub handle_get_fleet : Text → Store → Response Fleet
unfolding answer
handle_get_fleet fleet_id s = answer 200 (get_fleet fleet_id s)

unfoldable pub handle_delete_fleet : Text → Store → Store × Response (Unit {0})
unfolding and_answer no_content
handle_delete_fleet fleet_id s = and_answer no_content (delete_fleet fleet_id s)

-- Confirms that the fleet exists, so that callers see a 404 and not an empty list.
unfoldable pub of_fleet : {A : Type 0} → Text → A → Store → Response A
of_fleet fleet_id a s = elim (get_fleet fleet_id s) [
  | err e ↦ store_error e
  | ok f ↦ reply 200 none (some a)
]

unfoldable pub handle_list_agents : Text → Store → Response (List Agent)
unfolding of_fleet
handle_list_agents fleet_id s = of_fleet fleet_id (list_agents fleet_id s) s

abbrev pub new_agent : Text → Named → Agent
new_agent fleet_id x = record {
  id = x.id;
  fleet_id = fleet_id;
  name = x.name;
  labels = [];
  last_heartbeat_at = none;
  last_revision_seen = none;
  last_provider_version = none;
  last_traefik_version = none;
  last_error = none;
  created_at = 0;
}

unfoldable pub handle_create_agent : Time → Text → Decoded Named → Store → Store × Response Agent
unfolding with_body and_answer answer
handle_create_agent now fleet_id body s =
    with_body no_name body
      (λ x t.
        if x.id == [] || x.name == []
        then (t, problem 400 (codes "id and name are required"))
        else and_answer (answer 201) (create_agent now (new_agent fleet_id x) t))
      s

unfoldable pub handle_get_agent : Text → Store → Response Agent
unfolding answer
handle_get_agent agent_id s = answer 200 (get_agent agent_id s)

unfoldable pub handle_delete_agent : Text → Store → Store × Response (Unit {0})
unfolding and_answer no_content
handle_delete_agent agent_id s = and_answer no_content (delete_agent agent_id s)

-- The first fault of a list of labels.
unfoldable pub label_fault : List Text → Option Text
label_fault [] = none
label_fault (l ∷ ls) =
    let rest = label_fault ls in
    let no_key = some (codes "labels: each entry must be key=value") in
    if l == [] then some (codes "labels: empty entry not allowed") else elim (cut b'=' l) [
      | none ↦ no_key
      | some (k, v) ↦ if trim_space k == [] then no_key else rest
    ]

unfoldable pub handle_update_agent_labels :
    Text → Decoded (List Text) → Store → Store × Response Agent
unfolding with_body label_fault answer
handle_update_agent_labels agent_id body s =
    with_body [] body
      (λ labels t. elim (label_fault labels) [
        | some text ↦ (t, problem 400 text)
        | none ↦
            let (u, done) = update_agent_labels agent_id labels t in
            elim done [ err e ↦ (u, store_error e) | ok x ↦ (u, answer 200 (get_agent agent_id u)) ]
      ])
      s

unfoldable pub handle_list_tokens : Text → Store → Response (List AgentToken)
handle_list_tokens agent_id s = elim (get_agent agent_id s) [
  | err e ↦ store_error e
  | ok a ↦ reply 200 none (some (list_tokens agent_id s))
]

-- The token in plain text, which is given once, with its row.
pub record TokenBody (A : Type 0) : Type 0 where
  pub token : Text
  pub metadata : A

-- The random bytes for the prefix and the secret, if crypto/rand gives them. A failure of
-- decodeBody is ignored.
unfoldable pub handle_mint_token :
    Server
    → Time
    → Option (List ℕ × List ℕ)
    → Text
    → Decoded Text
    → Store
    → Store × Response (TokenBody AgentToken)
unfolding written_after
handle_mint_token sv now random agent_id body s = elim (get_agent agent_id s) [
  | err e ↦ (s, store_error e)
  | ok a ↦ elim random [
    | none ↦ (s, written_after body (problem 500 (codes "could not mint token")))
    | some (p, q) ↦
        let m = mint_bearer sv.libraries.sha256 p q in
        let (t, made) =
          mint_token now agent_id (decoded_or (λ n. n) [] body) m.prefix m.secret_hash s in
        elim made [
          | err e ↦ (t, written_after body (store_error e))
          | ok row ↦ (
            t,
            written_after body (reply 201 none (some record { token = m.token; metadata = row })),
          )
        ]
  ]
]

unfoldable pub handle_revoke_token : Time → Text → Text → Store → Store × Response (Unit {0})
unfolding and_answer no_content
handle_revoke_token now agent_id prefix s =
    and_answer no_content (revoke_token now agent_id prefix s)

unfoldable pub handle_list_admin_tokens : Store → Response (List AdminToken)
handle_list_admin_tokens s = reply 200 none (some (list_admin_tokens s))

unfoldable pub handle_mint_admin_token :
    Server
    → Time
    → Option (List ℕ × List ℕ)
    → Decoded Text
    → Store
    → Store × Response (TokenBody AdminToken)
unfolding written_after
handle_mint_admin_token sv now random body s = elim random [
  | none ↦ (s, written_after body (problem 500 (codes "could not mint token")))
  | some (p, q) ↦
      let m = mint_bearer sv.libraries.sha256 p q in
      let (t, made) = mint_admin_token now (decoded_or (λ n. n) [] body) m.prefix m.secret_hash s in
      elim made [
        | err e ↦ (t, written_after body (store_error e))
        | ok row ↦ (
          t,
          written_after body (reply 201 none (some record { token = m.token; metadata = row })),
        )
      ]
]

unfoldable pub handle_revoke_admin_token : Time → Text → Store → Store × Response (Unit {0})
unfolding and_answer no_content
handle_revoke_admin_token now prefix s = and_answer no_content (revoke_admin_token now prefix s)

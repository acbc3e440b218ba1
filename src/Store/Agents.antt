-- ===== src/Store/Agents.antt =====
-- Agents (memory.go:350-439).
use proxydock.Model.{Agent, Time}
use proxydock.Prelude.{
  List, Text, [], if◌then◌else◌, keep, nat_eq, none, some, sort, text_eq, text_lt, ℕ, ◌==◌,
}
use proxydock.Prelude.GoMap.{delete, delete_where, get, put, values}
use proxydock.Store.Fleets.{stamp}
use proxydock.Store.State.{Result, Store, conflict, err, not_found, ok}

-- store.go:151-157
pub record HeartbeatUpdate : Type 0 where
  pub current_revision : ℕ
  pub provider_version : Text
  pub traefik_version : Text
  pub last_error : Text

unfoldable pub create_agent : Time → Agent → Store → Store × Result Agent
create_agent now a s = elim (get a.fleet_id s.fleets) [
  | none ↦ (s, err not_found)
  | some _ ↦ elim (get a.id s.agents) [
    | some _ ↦ (s, err conflict)
    | none ↦
        let b = record a { created_at = stamp now a.created_at } in
        (record s { agents = put a.id b s.agents }, ok b)
  ]
]

unfoldable pub get_agent : Text → Store → Result Agent
get_agent id s = elim (get id s.agents) [ none ↦ err not_found | some a ↦ ok a ]

unfoldable pub list_agents : Text → Store → List Agent
list_agents fleet_id s =
    sort (λ a b. text_lt a.id b.id) (keep (λ a. a.fleet_id == fleet_id) (values s.agents))

unfoldable pub delete_agent : Text → Store → Store × Result (Unit {0})
delete_agent id s = elim (get id s.agents) [
  | none ↦ (s, err not_found)
  | some _ ↦ (
    record s {
      agents = delete id s.agents;
      tokens = delete_where (λ t. t.token.agent_id == id) s.tokens;
    },
    ok tt,
  )
]

unfoldable pub update_agent_labels : Text → List Text → Store → Store × Result (Unit {0})
update_agent_labels agent_id labels s = elim (get agent_id s.agents) [
  | none ↦ (s, err not_found)
  | some a ↦ (record s { agents = put agent_id (record a { labels = labels }) s.agents }, ok tt)
]

unfoldable pub beat : Time → HeartbeatUpdate → Agent → Agent
beat now hb a = record a {
  last_heartbeat_at = some now;
  last_revision_seen = some hb.current_revision;
  last_provider_version = some hb.provider_version;
  last_traefik_version = some hb.traefik_version;
  last_error = if hb.last_error == [] then none else some hb.last_error;
}

unfoldable pub update_agent_heartbeat :
    Time → Text → HeartbeatUpdate → Store → Store × Result (Unit {0})
unfolding beat
update_agent_heartbeat now agent_id hb s = elim (get agent_id s.agents) [
  | none ↦ (s, err not_found)
  | some a ↦ (record s { agents = put agent_id (beat now hb a) s.agents }, ok tt)
]

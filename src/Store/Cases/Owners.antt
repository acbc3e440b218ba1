-- ===== src/Store/Cases/Owners.antt =====
-- How the methods on fleets and agents can end: to show `P` of the store after a call, show it of the
-- store as it was and of the store that the call may write.
use proxydock.Model.{Agent, Fleet, Time}
use proxydock.Prelude.{List, Option-cases, Text, inl, inr, nat_eq, none, some, text_eq, ◌==◌, ◌≡◌}
use proxydock.Prelude.GoMap.{delete, delete_where, get, put}
use proxydock.Store.Agents.{
  HeartbeatUpdate, beat, create_agent, delete_agent, update_agent_heartbeat, update_agent_labels,
}
use proxydock.Store.Fleets.{create_fleet, delete_fleet, stamp}
use proxydock.Store.State.{Store}

module _ (P : Store → Type 0) (s : Store) (same : P s) where
  pub create_fleet_cases :
      (now : Time) (f : Fleet)
      → (get f.id s.fleets ≡ none
          → P (record s {
            fleets = put f.id (record f { created_at = stamp now f.created_at }) s.fleets;
          }))
      → P (create_fleet now f s).0
  unfolding create_fleet
  create_fleet_cases now f made = elim (Option-cases (get f.id s.fleets)) [
    | inl e0 ↦ rw (e0, create_fleet) (made e0)
    | inr (_, e0) ↦ rw (e0, create_fleet) same
  ]

  pub delete_fleet_cases :
      (id : Text)
      → ((f : Fleet)
          → get id s.fleets ≡ some f
          → P (record s {
            fleets = delete id s.fleets;
            agents = delete_where (λ a. a.fleet_id == id) s.agents;
            proxy_hosts = delete_where (λ p. p.fleet_id == id) s.proxy_hosts;
            revisions = delete_where (λ r. r.fleet_id == id) s.revisions;
          }))
      → P (delete_fleet id s).0
  unfolding delete_fleet
  delete_fleet_cases id made = elim (Option-cases (get id s.fleets)) [
    | inl e0 ↦ rw (e0, delete_fleet) same
    | inr (f0, e0) ↦ rw (e0, delete_fleet) (made f0 e0)
  ]

  pub create_agent_cases :
      (now : Time) (a : Agent)
      → ((f : Fleet)
          → get a.fleet_id s.fleets ≡ some f
          → get a.id s.agents ≡ none
          → P (record s {
            agents = put a.id (record a { created_at = stamp now a.created_at }) s.agents;
          }))
      → P (create_agent now a s).0
  unfolding create_agent
  create_agent_cases now a made = elim (Option-cases (get a.fleet_id s.fleets)) [
    | inl e0 ↦ rw (e0, create_agent) same
    | inr (f0, e0) ↦ elim (Option-cases (get a.id s.agents)) [
      | inl e1 ↦ rw (e0, e1, create_agent) (made f0 e0 e1)
      | inr (_, e1) ↦ rw (e0, e1, create_agent) same
    ]
  ]

  pub delete_agent_cases :
      (id : Text)
      → ((a : Agent)
          → get id s.agents ≡ some a
          → P (record s {
            agents = delete id s.agents;
            tokens = delete_where (λ t. t.token.agent_id == id) s.tokens;
          }))
      → P (delete_agent id s).0
  unfolding delete_agent
  delete_agent_cases id made = elim (Option-cases (get id s.agents)) [
    | inl e0 ↦ rw (e0, delete_agent) same
    | inr (a0, e0) ↦ rw (e0, delete_agent) (made a0 e0)
  ]

  pub update_agent_labels_cases :
      (id : Text) (labels : List Text)
      → ((a : Agent)
          → get id s.agents ≡ some a
          → P (record s { agents = put id (record a { labels = labels }) s.agents }))
      → P (update_agent_labels id labels s).0
  unfolding update_agent_labels
  update_agent_labels_cases id labels made = elim (Option-cases (get id s.agents)) [
    | inl e0 ↦ rw (e0, update_agent_labels) same
    | inr (a0, e0) ↦ rw (e0, update_agent_labels) (made a0 e0)
  ]

  pub update_agent_heartbeat_cases :
      (now : Time) (id : Text) (hb : HeartbeatUpdate)
      → ((a : Agent)
          → get id s.agents ≡ some a
          → P (record s { agents = put id (beat now hb a) s.agents }))
      → P (update_agent_heartbeat now id hb s).0
  unfolding update_agent_heartbeat
  update_agent_heartbeat_cases now id hb made = elim (Option-cases (get id s.agents)) [
    | inl e0 ↦ rw (e0, update_agent_heartbeat) same
    | inr (a0, e0) ↦ rw (e0, update_agent_heartbeat) (made a0 e0)
  ]

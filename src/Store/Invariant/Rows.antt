-- ===== src/Store/Invariant/Rows.antt =====
-- Each method on fleets, agents, proxy hosts and revisions keeps the store well-formed.
use proxydock.Model.{Agent, ProxyHost, Time}
use proxydock.Prelude.{
  List, Text, arith, inc, nat_eq, refl, text_beq_iff, text_eq, true, ℕ, ◌&&◌, ◌+◌, ◌<◌, ◌==◌, ◌^◌,
  ◌≡◌,
}
use proxydock.Store.Agents.{
  HeartbeatUpdate, beat, create_agent, delete_agent, update_agent_heartbeat, update_agent_labels,
}
use proxydock.Store.Cases.Hosts.{
  create_proxy_host_cases, delete_proxy_host_cases, update_proxy_host_cases,
}
use proxydock.Store.Cases.Owners.{
  create_agent_cases, create_fleet_cases, delete_agent_cases, delete_fleet_cases,
  update_agent_heartbeat_cases, update_agent_labels_cases,
}
use proxydock.Store.Fleets.{create_fleet, delete_fleet, stamp}
use proxydock.Store.Invariant.{Wf, asked_fleet}
use proxydock.Store.Invariant.Fleets.{
  delete-Owners, delete_agent-Owners, delete_host-Owners, put-Owners, put_agent-Owners,
  put_host-Owners,
}
use proxydock.Store.ProxyHosts.{
  create_proxy_host, delete_proxy_host, new_proxy_host, update_proxy_host, updated_proxy_host,
}
use proxydock.Store.State.{Store}
use proxydock.Store.Table.{create-TableOk, delete-TableOk, delete_where-TableOk, update-TableOk}

-- A counter that is below the limit does not wrap around.
pub inc_lem : (n : ℕ) → n + 1 < 2 ^ 63 → inc n ≡ n + 1
inc_lem n h = omega arith

-- Two rows that agree on fleet and name do so in either order.
pub same_pair : (a b c d : Text) → (a == b && c == d) ≡ true → (b == a && d == c) ≡ true
same_pair a b c d h =
    ground (arith, text_beq_iff a b, text_beq_iff b a, text_beq_iff c d, text_beq_iff d c)

module _ {s : Store} (w : Wf s) where
  pub create_fleet-Wf :
      (now : Time) (id name : Text) → Wf (create_fleet now (asked_fleet id name) s).0
  create_fleet-Wf now id name = create_fleet_cases Wf s w now (asked_fleet id name) λ e.
      assumption (
        put-Owners w.owners id (record (asked_fleet id name) { created_at = stamp now 0 }) refl
          (λ n h. absurd (ground arith)))

  pub delete_fleet-Wf : (id : Text) → Wf (delete_fleet id s).0
  delete_fleet-Wf id = delete_fleet_cases Wf s w id λ f e. assumption (
    delete-Owners w.owners id w.hosts.is_map w.revisions.is_map,
    delete_where-TableOk _ _ w.hosts (λ p. p.fleet_id == id),
    delete_where-TableOk _ _ w.revisions (λ r. r.fleet_id == id),
  )

  pub create_agent-Wf : (now : Time) (a : Agent) → Wf (create_agent now a s).0
  create_agent-Wf now a = create_agent_cases Wf s w now a λ f there free. assumption (
      put_agent-Owners w.owners a.id (record a { created_at = stamp now a.created_at }) refl
        (ground arith))

  pub delete_agent-Wf : (id : Text) → Wf (delete_agent id s).0
  delete_agent-Wf id =
      delete_agent_cases Wf s w id λ a e. assumption (delete_agent-Owners w.owners id)

  pub update_agent_labels-Wf :
      (id : Text) (labels : List Text) → Wf (update_agent_labels id labels s).0
  update_agent_labels-Wf id labels = update_agent_labels_cases Wf s w id labels λ a e. assumption (
      put_agent-Owners w.owners id (record a { labels = labels }) (w.owners.agent_id id a e)
        (w.owners.agent_fleet id a e))

  pub update_agent_heartbeat-Wf :
      (now : Time) (id : Text) (hb : HeartbeatUpdate) → Wf (update_agent_heartbeat now id hb s).0
  unfolding beat
  update_agent_heartbeat-Wf now id hb = update_agent_heartbeat_cases Wf s w now id hb λ a e.
      assumption (
        put_agent-Owners w.owners id (beat now hb a) (w.owners.agent_id id a e)
          (w.owners.agent_fleet id a e))

  pub create_proxy_host-Wf :
      (now : Time) (p : ProxyHost)
      → s.proxy_host_seq + 1 < 2 ^ 63
      → Wf (create_proxy_host now p s).0
  unfolding new_proxy_host
  create_proxy_host-Wf now p room = create_proxy_host_cases Wf s w now p λ f there free.
      rw (inc_lem s.proxy_host_seq room) (
        assumption (
          put_host-Owners w.owners (s.proxy_host_seq + 1)
              (new_proxy_host now (s.proxy_host_seq + 1) p) (ground arith),
          create-TableOk _ _ w.hosts (λ a b. same_pair b.fleet_id a.fleet_id b.name a.name)
              (new_proxy_host now (s.proxy_host_seq + 1) p) refl free,
        ))

  pub update_proxy_host-Wf : (now : Time) (p : ProxyHost) → Wf (update_proxy_host now p s).0
  unfolding updated_proxy_host
  update_proxy_host-Wf now p = update_proxy_host_cases Wf s w now p λ cur there same free.
      assumption (
        put_host-Owners w.owners p.id (updated_proxy_host now p cur)
            (w.owners.host_fleet p.id cur there),
        update-TableOk _ _ w.hosts (λ a b. same_pair b.fleet_id a.fleet_id b.name a.name) p.id cur
            (updated_proxy_host now p cur) there (w.hosts.own_id p.id cur there)
            (rw ((text_beq_iff cur.fleet_id p.fleet_id).0 same) free),
      )

  pub delete_proxy_host-Wf : (fleet_id : Text) (id : ℕ) → Wf (delete_proxy_host fleet_id id s).0
  delete_proxy_host-Wf fleet_id id =
      delete_proxy_host_cases Wf s w fleet_id id
        λ p there same. assumption (delete_host-Owners w.owners id, delete-TableOk _ _ w.hosts id)

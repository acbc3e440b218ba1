-- ===== src/Store/Invariant/Fleets.antt =====
-- The methods on fleets, agents and revisions keep what fleets own in order.
use proxydock.Model.{Agent, Fleet, ProxyHost, Revision}
use proxydock.Prelude.{Text, arith, nat_eq, none, some, text_beq_iff, text_eq, ℕ, ◌==◌, ◌≡◌, ◌≢◌}
use proxydock.Prelude.GoMap.{
  GoMap, IsMap, delete, delete-IsMap, delete_where, delete_where-IsMap, get, get-delete,
  get-delete_where, get-put, put, put-IsMap,
}
use proxydock.Store.Invariant.{Owners, owner}

module _ {fleets : GoMap Text Fleet} {agents : GoMap Text Agent} {hosts : GoMap ℕ ProxyHost}
    {revisions : GoMap ℕ Revision} (o : Owners fleets agents hosts revisions) where
  -- A fleet row that is added or changed, and publishes nothing or a revision of its own.
  pub put-Owners :
      (id : Text) (f : Fleet)
      → f.id ≡ id
      → ((n : ℕ) → f.published_revision_id ≡ some n → owner (get n revisions) ≡ some id)
      → Owners (put id f fleets) agents hosts revisions
  put-Owners id f same pub_ok = record {
    fleets_map = put-IsMap id f fleets o.fleets_map;
    agents_map = o.agents_map;
    fleet_id = λ j g h. ground (arith, get-put id j f fleets, text_beq_iff id j, o.fleet_id j g);
    agent_id = o.agent_id;
    agent_fleet = λ j a h. ground (arith, get-put id a.fleet_id f fleets, o.agent_fleet j a);
    host_fleet = λ k p h. ground (arith, get-put id p.fleet_id f fleets, o.host_fleet k p);
    revision_fleet = λ k r h. ground (arith, get-put id r.fleet_id f fleets, o.revision_fleet k r);
    published = λ j g n h e.
        ground (arith, get-put id j f fleets, text_beq_iff id j, pub_ok n, o.published j g n);
  }

  -- An agent row that is added or changed, under a fleet that exists.
  pub put_agent-Owners :
      (id : Text) (a : Agent)
      → a.id ≡ id
      → get a.fleet_id fleets ≢ none
      → Owners fleets (put id a agents) hosts revisions
  put_agent-Owners id a same there = record {
    fleets_map = o.fleets_map;
    agents_map = put-IsMap id a agents o.agents_map;
    fleet_id = o.fleet_id;
    agent_id = λ j b h. ground (arith, get-put id j a agents, text_beq_iff id j, o.agent_id j b);
    agent_fleet = λ j b h. ground (arith, get-put id j a agents, o.agent_fleet j b);
    host_fleet = o.host_fleet;
    revision_fleet = o.revision_fleet;
    published = o.published;
  }

  pub delete_agent-Owners : (id : Text) → Owners fleets (delete id agents) hosts revisions
  delete_agent-Owners id = record {
    fleets_map = o.fleets_map;
    agents_map = delete-IsMap id agents o.agents_map;
    fleet_id = o.fleet_id;
    agent_id = λ j b h. ground (arith, get-delete id j agents, o.agent_id j b);
    agent_fleet = λ j b h. ground (arith, get-delete id j agents, o.agent_fleet j b);
    host_fleet = o.host_fleet;
    revision_fleet = o.revision_fleet;
    published = o.published;
  }

  pub put_host-Owners :
      (k : ℕ) (p : ProxyHost)
      → get p.fleet_id fleets ≢ none
      → Owners fleets agents (put k p hosts) revisions
  put_host-Owners k p there = record {
    fleets_map = o.fleets_map;
    agents_map = o.agents_map;
    fleet_id = o.fleet_id;
    agent_id = o.agent_id;
    agent_fleet = o.agent_fleet;
    host_fleet = λ j q h. ground (arith, get-put k j p hosts, o.host_fleet j q);
    revision_fleet = o.revision_fleet;
    published = o.published;
  }

  pub delete_host-Owners : (k : ℕ) → Owners fleets agents (delete k hosts) revisions
  delete_host-Owners k = record {
    fleets_map = o.fleets_map;
    agents_map = o.agents_map;
    fleet_id = o.fleet_id;
    agent_id = o.agent_id;
    agent_fleet = o.agent_fleet;
    host_fleet = λ j q h. ground (arith, get-delete k j hosts, o.host_fleet j q);
    revision_fleet = o.revision_fleet;
    published = o.published;
  }

  -- A revision row under an id that is free.
  pub put_revision-Owners :
      (k : ℕ) (r : Revision)
      → get k revisions ≡ none
      → get r.fleet_id fleets ≢ none
      → Owners fleets agents hosts (put k r revisions)
  put_revision-Owners k r free there = record {
    fleets_map = o.fleets_map;
    agents_map = o.agents_map;
    fleet_id = o.fleet_id;
    agent_id = o.agent_id;
    agent_fleet = o.agent_fleet;
    host_fleet = o.host_fleet;
    revision_fleet = λ j q h. ground (arith, get-put k j r revisions, o.revision_fleet j q);
    published = λ id f n h e. ground (arith, get-put k n r revisions, o.published id f n);
  }

  -- A fleet goes with its agents, proxy hosts and revisions.
  module _ (id : Text) (hosts_map : IsMap hosts) (revisions_map : IsMap revisions) where
    abbrev fewer_agents : GoMap Text Agent
    fewer_agents = delete_where (λ a. a.fleet_id == id) agents

    abbrev fewer_hosts : GoMap ℕ ProxyHost
    fewer_hosts = delete_where (λ p. p.fleet_id == id) hosts

    abbrev fewer_revisions : GoMap ℕ Revision
    fewer_revisions = delete_where (λ r. r.fleet_id == id) revisions

    pub delete-Owners : Owners (delete id fleets) fewer_agents fewer_hosts fewer_revisions
    delete-Owners = record {
      fleets_map = delete-IsMap id fleets o.fleets_map;
      agents_map = delete_where-IsMap _ agents o.agents_map;
      fleet_id = λ j g h. ground (arith, get-delete id j fleets, o.fleet_id j g);
      agent_id = λ j a h.
          ground
            (arith, get-delete_where (λ a. a.fleet_id == id) j agents o.agents_map, o.agent_id j a);
      agent_fleet = λ j a h. ground (
        arith,
        get-delete_where (λ a. a.fleet_id == id) j agents o.agents_map,
        get-delete id a.fleet_id fleets,
        text_beq_iff id a.fleet_id,
        text_beq_iff a.fleet_id id,
        o.agent_fleet j a,
      );
      host_fleet = λ j p h. ground (
        arith,
        get-delete_where (λ p. p.fleet_id == id) j hosts hosts_map,
        get-delete id p.fleet_id fleets,
        text_beq_iff id p.fleet_id,
        text_beq_iff p.fleet_id id,
        o.host_fleet j p,
      );
      revision_fleet = λ j r h. ground (
        arith,
        get-delete_where (λ r. r.fleet_id == id) j revisions revisions_map,
        get-delete id r.fleet_id fleets,
        text_beq_iff id r.fleet_id,
        text_beq_iff r.fleet_id id,
        o.revision_fleet j r,
      );
      published = λ j f n h e. ground (
        arith,
        get-delete_where (λ r. r.fleet_id == id) n revisions revisions_map,
        get-delete id j fleets,
        text_beq_iff id j,
        text_beq_iff j id,
        o.published j f n,
      );
    }

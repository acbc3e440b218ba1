-- ===== src/Store/Fleets.antt =====
-- Fleets (memory.go:287-346).
use proxydock.Model.{Fleet, Time}
use proxydock.Prelude.{List, Text, if◌then◌else◌, nat_eq, none, some, sort, text_eq, text_lt, ◌==◌}
use proxydock.Prelude.GoMap.{delete, delete_where, get, put, values}
use proxydock.Store.State.{Result, Store, conflict, err, not_found, ok}

-- `if t.IsZero() { t = time.Now().UTC() }`
abbrev pub stamp : Time → Time → Time
stamp now t = if t == 0 then now else t

unfoldable pub create_fleet : Time → Fleet → Store → Store × Result Fleet
create_fleet now f s = elim (get f.id s.fleets) [
  | some _ ↦ (s, err conflict)
  | none ↦
      let g = record f { created_at = stamp now f.created_at } in
      (record s { fleets = put f.id g s.fleets }, ok g)
]

unfoldable pub get_fleet : Text → Store → Result Fleet
get_fleet id s = elim (get id s.fleets) [ none ↦ err not_found | some f ↦ ok f ]

unfoldable pub list_fleets : Store → List Fleet
list_fleets s = sort (λ a b. text_lt a.id b.id) (values s.fleets)

unfoldable pub delete_fleet : Text → Store → Store × Result (Unit {0})
delete_fleet id s = elim (get id s.fleets) [
  | none ↦ (s, err not_found)
  | some _ ↦ (
    record s {
      fleets = delete id s.fleets;
      agents = delete_where (λ a. a.fleet_id == id) s.agents;
      proxy_hosts = delete_where (λ p. p.fleet_id == id) s.proxy_hosts;
      revisions = delete_where (λ r. r.fleet_id == id) s.revisions;
    },
    ok tt,
  )
]

-- ===== src/Store/Revisions.antt =====
-- Revisions (memory.go:889-1001).
use proxydock.Model.{Doc, Revision, Time, empty, invalid, json}
use proxydock.Prelude.{
  Bool, List, Text, [], any, if◌then◌else◌, inc, int_lt, keep, map, nat_eq, none, some, sort,
  text_eq, ℕ, ◌&&◌, ◌==◌, ◌∷◌,
}
use proxydock.Prelude.GoMap.{find, get, put, values}
use proxydock.Store.Fleets.{stamp}
use proxydock.Store.State.{Result, Store, conflict, err, not_found, ok}

-- A revision of the fleet with that number.
abbrev pub same_number : Text → ℕ → Revision → Bool
same_number fleet_id number r = r.fleet_id == fleet_id && r.number == number

-- `if len(doc) == 0 { doc = []byte("[]") }`
abbrev pub or_empty_list : {A : Type 0} → Doc (List A) → Doc (List A)
or_empty_list empty = json []
or_empty_list invalid = invalid
or_empty_list (json xs) = json xs

-- The row that CreateRevision writes.
unfoldable pub saved_revision : Time → ℕ → Revision → Revision
saved_revision now id r = record r {
  id = id;
  generated_at = stamp now r.generated_at;
  source_proxy_hosts = or_empty_list r.source_proxy_hosts;
  source_certs = or_empty_list r.source_certs;
}

unfoldable pub create_revision : Time → Revision → Bool → Store → Store × Result Revision
create_revision now r make_published s = elim (get r.fleet_id s.fleets) [
  | none ↦ (s, err not_found)
  | some f ↦
      if any (same_number r.fleet_id r.number) (values s.revisions)
      then (s, err conflict)
      else (let n = inc s.revision_seq in
          let saved = saved_revision now n r in
          (
            record s {
              revision_seq = n;
              revisions = put n saved s.revisions;
              fleets =
                  if make_published
                  then put r.fleet_id (record f { published_revision_id = some n }) s.fleets
                  else s.fleets;
            },
            ok saved,
          ))
]

unfoldable pub get_revision : Text → ℕ → Store → Result Revision
get_revision fleet_id number s = elim (find (same_number fleet_id number) s.revisions) [
  | none ↦ err not_found
  | some r ↦ ok r
]

-- A row of the list, without the configs.
abbrev pub cleaned : Revision → Revision
cleaned r = record r { compiled_config = []; source_proxy_hosts = empty }

unfoldable pub list_revisions : Text → Store → List Revision
list_revisions fleet_id s =
    sort (λ a b. int_lt b.number a.number)
      (map cleaned (keep (λ r. r.fleet_id == fleet_id) (values s.revisions)))

unfoldable pub get_published_revision : Text → Store → Result Revision
get_published_revision fleet_id s = elim (get fleet_id s.fleets) [
  | none ↦ err not_found
  | some f ↦ elim f.published_revision_id [
    | none ↦ err not_found
    | some id ↦ elim (get id s.revisions) [ none ↦ err not_found | some r ↦ ok r ]
  ]
]

unfoldable pub set_published_revision : Text → ℕ → Store → Store × Result (Unit {0})
set_published_revision fleet_id revision_id s = elim (get fleet_id s.fleets) [
  | none ↦ (s, err not_found)
  | some f ↦ elim (get revision_id s.revisions) [
    | none ↦ (s, err not_found)
    | some r ↦
        if r.fleet_id == fleet_id
        then (
          record s {
            fleets = put fleet_id (record f { published_revision_id = some revision_id }) s.fleets;
          },
          ok tt,
        )
        else (s, err not_found)
  ]
]

-- The scan of NextRevisionNumber, with the maximum so far.
unfoldable pub max_number : Text → ℕ → List Revision → ℕ
max_number fleet_id m [] = m
max_number fleet_id m (r ∷ rs) =
    max_number fleet_id (if r.fleet_id == fleet_id && int_lt m r.number then r.number else m) rs

unfoldable pub next_revision_number : Text → Store → Result ℕ
unfolding max_number
next_revision_number fleet_id s = elim (get fleet_id s.fleets) [
  | none ↦ err not_found
  | some _ ↦ ok (inc (max_number fleet_id 0 (values s.revisions)))
]

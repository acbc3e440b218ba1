-- ===== src/Store/Audit.antt =====
-- The audit log (memory.go:91-128).
use proxydock.Model.{AuditEntry, Time}
use proxydock.Prelude.{
  Bool, List, Option, Text, [], false, if◌then◌else◌, inc, int_lt, leb, nat_eq, none, not, reverse,
  some, text_eq, true, ℕ, ◌&&◌, ◌++◌, ◌-◌, ◌==◌, ◌||◌, ◌∷◌,
}
use proxydock.Store.Fleets.{stamp}
use proxydock.Store.State.{Store}

-- store.go:142-149
pub record AuditQuery : Type 0 where
  pub fleet_id : Option Text
  pub before_id : ℕ
  pub limit : ℕ

unfoldable pub append_audit_entry : Time → AuditEntry → Store → Store
append_audit_entry now e s =
    let n = inc s.audit_seq in
    record s {
      audit_seq = n;
      audit = s.audit ++ (record e { id = n; created_at = stamp now e.created_at }) ∷ [];
    }

-- `if limit <= 0 || limit > 500 { limit = 100 }`
unfoldable pub effective_limit : ℕ → ℕ
effective_limit n = if not (int_lt 0 n) || int_lt 500 n then 100 else n

-- Whether the walk keeps an entry.
unfoldable pub wanted : AuditQuery → AuditEntry → Bool
wanted q e =
    if int_lt 0 q.before_id && not (int_lt e.id q.before_id) then false else elim q.fleet_id [
      | none ↦ true
      | some want ↦
          if want == []
          then elim e.fleet_id [ none ↦ true | some _ ↦ false ]
          else elim e.fleet_id [ none ↦ false | some id ↦ id == want ]
    ]

-- The walk, newest first, with the room that is left; `out` grows until it reaches the limit, and
-- the test for that comes after an append.
unfoldable pub walk : AuditQuery → ℕ → List AuditEntry → List AuditEntry
unfolding wanted
walk q room [] = []
walk q room (e ∷ es) =
    let skipped = walk q room es in
    let rest = walk q (room - 1) es in
    if wanted q e then if leb room 1 then e ∷ [] else e ∷ rest else skipped

unfoldable pub list_audit_entries : AuditQuery → Store → List AuditEntry
unfolding walk effective_limit
list_audit_entries q s = walk q (effective_limit q.limit) (reverse s.audit)

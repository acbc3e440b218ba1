-- ===== src/Api/Audit.antt =====
-- apps/api/internal/api/audit.go: the log of what administrators have changed, and the chain of
-- middlewares of api.go without logs and metrics.
use proxydock.Api.Access.{require_admin}
use proxydock.Api.Answers.{Response, Server, problem, refused_then, reply}
use proxydock.Compiler.Upstreams.{trim_prefix}
use proxydock.Model.{AuditEntry, Time}
use proxydock.Prelude.{
  Bool, List, Option, Text, [], codes, if◌then◌else◌, nat_eq, none, not, some, text_eq, ℕ, ◌==◌,
  ◌||◌,
}
use proxydock.Prelude.Strings.{cut, has_prefix}
use proxydock.Store.Audit.{append_audit_entry, list_audit_entries}
use proxydock.Store.State.{Store}

-- The fleet in a path /api/v1/fleets/{id}[/...], by the regular expression of audit.go.
unfoldable pub fleet_id_from_path : Text → Option Text
fleet_id_from_path p =
    if has_prefix p (codes "/api/v1/fleets/")
    then (let rest = trim_prefix (codes "/api/v1/fleets/") p in
        let id : Text = elim (cut b'/' rest) [ none ↦ rest | some (a, b) ↦ a ] in
        if id == [] then none else some id)
    else none

unfoldable pub should_audit : Text → Bool
should_audit method =
    method == codes "POST"
    || method == codes "PUT"
    || method == codes "PATCH"
    || method == codes "DELETE"

-- What statusRecorder keeps: the code of the last WriteHeader.
abbrev pub status_of : {A : Type 0} → Response A → ℕ
status_of (problem status text) = status
status_of (reply status etag body) = status
status_of (refused_then text r) = status_of r

abbrev pub audit_row : Text → Text → Text → ℕ → AuditEntry
audit_row actor method path status = record {
  id = 0;
  actor = actor;
  method = method;
  path = path;
  status = status;
  fleet_id = fleet_id_from_path path;
  summary = [];
  created_at = 0;
}

-- `actor` is that of the context, where there is one.
unfoldable pub audit :
    {A : Type 0}
    → Time
    → Text
    → Text
    → (Option Text → Store → Store × Response A)
    → Option Text
    → Store
    → Store × Response A
unfolding should_audit
audit now method path next actor s =
    let (t, r) = next actor s in
    if not (should_audit method) then (t, r) else elim actor [
      | none ↦ (t, r)
      | some who ↦ (append_audit_entry now (audit_row who method path (status_of r)) t, r)
    ]

-- A request: the handler behind the authorization and the log.
unfoldable pub serve_request :
    {A : Type 0}
    → Server
    → Time
    → Text
    → Text
    → Text
    → (Option Text → Store → Store × Response A)
    → Store
    → Store × Response A
unfolding require_admin audit
serve_request sv now method path authorization next s =
    require_admin sv now path authorization (audit now method path next) s

-- handleListAuditEntries. The parameters of the query, a missing one empty, with what strconv makes
-- of the numbers; one that is no number is ignored.
unfoldable pub handle_list_audit_entries :
    Text → Option ℕ → Option ℕ → Store → Response (List AuditEntry)
handle_list_audit_entries fleet_id before limit s = reply 200 none (
    some (
      list_audit_entries
        (record {
          fleet_id =
              if fleet_id == []
              then none
              else if fleet_id == codes "global"
              then some []
              else some fleet_id;
          before_id = elim before [ none ↦ 0 | some n ↦ n ];
          limit = elim limit [ none ↦ 100 | some n ↦ n ];
        })
        s))

-- ===== src/Store/Templates.antt =====
-- Middleware templates (memory.go:653-728).
use proxydock.Model.{MiddlewareTemplate, Time}
use proxydock.Prelude.{
  Bool, List, Text, [], any, copy_slice, if◌then◌else◌, inc, keep, nat_eq, none, not, or_default,
  some, sort, text_eq, text_lt, ℕ, ◌&&◌, ◌==◌,
}
use proxydock.Prelude.GoMap.{delete, get, put, values}
use proxydock.Store.State.{Result, Store, conflict, err, not_found, ok}

-- A template of the fleet under that name.
abbrev pub same_name : MiddlewareTemplate → MiddlewareTemplate → Bool
same_name t existing = existing.fleet_id == t.fleet_id && existing.name == t.name

-- The rows that the create and the update write.
unfoldable pub new_template : Time → ℕ → MiddlewareTemplate → MiddlewareTemplate
new_template now id t = record t {
  id = id;
  created_at = now;
  updated_at = now;
  middlewares = or_default t.middlewares [];
}

unfoldable pub updated_template :
    Time → MiddlewareTemplate → MiddlewareTemplate → MiddlewareTemplate
updated_template now t cur = record cur {
  name = t.name;
  description = t.description;
  middlewares = copy_slice t.middlewares;
  updated_at = now;
}

unfoldable pub create_middleware_template :
    Time → MiddlewareTemplate → Store → Store × Result MiddlewareTemplate
create_middleware_template now t s = elim (get t.fleet_id s.fleets) [
  | none ↦ (s, err not_found)
  | some _ ↦
      if any (same_name t) (values s.mw_templates)
      then (s, err conflict)
      else (let n = inc s.mw_template_seq in
          let u = new_template now n t in
          (record s { mw_template_seq = n; mw_templates = put n u s.mw_templates }, ok u))
]

unfoldable pub get_middleware_template : Text → ℕ → Store → Result MiddlewareTemplate
get_middleware_template fleet_id id s = elim (get id s.mw_templates) [
  | none ↦ err not_found
  | some t ↦ if t.fleet_id == fleet_id then ok t else err not_found
]

unfoldable pub list_middleware_templates : Text → Store → List MiddlewareTemplate
list_middleware_templates fleet_id s =
    sort (λ a b. text_lt a.name b.name) (keep (λ t. t.fleet_id == fleet_id) (values s.mw_templates))

unfoldable pub update_middleware_template :
    Time → MiddlewareTemplate → Store → Store × Result MiddlewareTemplate
update_middleware_template now t s = elim (get t.id s.mw_templates) [
  | none ↦ (s, err not_found)
  | some cur ↦
      if cur.fleet_id == t.fleet_id
      then if any (λ existing. not (existing.id == t.id) && same_name t existing)
          (values s.mw_templates)
        then (s, err conflict)
        else (let u = updated_template now t cur in
            (record s { mw_templates = put t.id u s.mw_templates }, ok u))
      else (s, err not_found)
]

unfoldable pub delete_middleware_template : Text → ℕ → Store → Store × Result (Unit {0})
delete_middleware_template fleet_id id s = elim (get id s.mw_templates) [
  | none ↦ (s, err not_found)
  | some t ↦
      if t.fleet_id == fleet_id
      then (record s { mw_templates = delete id s.mw_templates }, ok tt)
      else (s, err not_found)
]

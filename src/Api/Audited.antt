-- ===== src/Api/Audited.antt =====
-- apps/api/internal/api/audit.go and api.go: requests that change something, and the log.
use proxydock.Api.Access.{is_public_path}
use proxydock.Api.Admins.{Authorized, require_admin_guarded}
use proxydock.Api.Answers.{Response, Server, problem}
use proxydock.Api.Audit.{audit, audit_row, serve_request, should_audit, status_of}
use proxydock.Model.{Time}
use proxydock.Prelude.{
  Option, Text, [], ap, codes, false, inc, inl, inr, refl, some, true, ◌++◌, ◌∙◌, ◌∷◌, ◌≡◌, ◌⊎◌,
}
use proxydock.Store.Audit.{append_audit_entry}
use proxydock.Store.State.{Store}

audit_lem :
    {A : Type 0} (now : Time) (method path : Text) (next : Option Text → Store → Store × Response A)
    (actor : Text) (s : Store)
    → should_audit method ≡ true
    → audit now method path next (some actor) s ≡ (
      append_audit_entry now
          (audit_row actor method path (status_of (next (some actor) s).1))
          (next (some actor) s).0,
      (next (some actor) s).1,
    )
unfolding audit
audit_lem now method path next actor s e = rw (e, audit) refl

-- A request with POST, PUT, PATCH or DELETE on a path that is not public is either refused with 401, and
-- nothing is written, or it is answered by its handler, for a caller who is authorized, and the log
-- gets one new entry at its end: the caller's name, the method, the path with its fleet, and the
-- status that statusRecorder keeps, which is the last one that the handler writes.
pub serve_request_audited :
    {A : Type 0} (sv : Server) (now : Time) (method path authorization : Text)
    (next : Option Text → Store → Store × Response A) (s : Store)
    → is_public_path path ≡ false
    → should_audit method ≡ true
    → (serve_request sv now method path authorization next s
        ≡ (s, problem 401 (codes "admin authentication required")))
      ⊎ ((actor : Text) × (t : Store) × Authorized sv now authorization s actor t
          × ((serve_request sv now method path authorization next s).1 ≡ (next (some actor) t).1)
          × ((serve_request sv now method path authorization next s).0.audit
              ≡ (next (some actor) t).0.audit
                ++ (record (audit_row actor method path (status_of (next (some actor) t).1)) {
                  id = inc (next (some actor) t).0.audit_seq;
                  created_at = now;
                })
                  ∷ []))
unfolding serve_request append_audit_entry
serve_request_audited sv now method path authorization next s private writes =
    elim (require_admin_guarded sv now authorization s path (audit now method path next) private) [
      | inl e ↦ inl e
      | inr (actor, t, k, e) ↦
          let whole = e ∙ audit_lem now method path next actor t writes in
          inr (actor, t, k, ap (λ r. r.1) whole, ap (λ r. r.0.audit) whole)
    ]

-- ===== src/Store/Cases/Published.antt =====
-- How the methods on revisions can end: to show `P` of the store after a call, show it of the
-- store as it was and of the store that the call may write.
use proxydock.Model.{Fleet, Revision, Time}
use proxydock.Prelude.{
  Bool, Bool-cases, Option-cases, Text, any, false, if◌then◌else◌, inc, inl, inr, nat_eq, some,
  text_eq, true, ℕ, ◌==◌, ◌≡◌,
}
use proxydock.Prelude.GoMap.{get, put, values}
use proxydock.Store.Revisions.{create_revision, same_number, saved_revision, set_published_revision}
use proxydock.Store.State.{Store}

module _ (P : Store → Type 0) (s : Store) (same : P s) where
  pub create_revision_cases :
      (now : Time) (r : Revision) (make_published : Bool)
      → ((f : Fleet)
          → get r.fleet_id s.fleets ≡ some f
          → (any (same_number r.fleet_id r.number) (values s.revisions)) ≡ false
          → P (record s {
            revision_seq = inc s.revision_seq;
            revisions =
                put (inc s.revision_seq) (saved_revision now (inc s.revision_seq) r) s.revisions;
            fleets =
                if make_published
                then put r.fleet_id
                    (record f { published_revision_id = some (inc s.revision_seq) })
                    s.fleets
                else s.fleets;
          }))
      → P (create_revision now r make_published s).0
  unfolding create_revision
  create_revision_cases now r make_published made = elim (Option-cases (get r.fleet_id s.fleets)) [
    | inl e0 ↦ rw (e0, create_revision) same
    | inr (f0, e0) ↦
        elim (Bool-cases (any (same_number r.fleet_id r.number) (values s.revisions))) [
          | inl e1 ↦ rw (e0, e1, create_revision) same
          | inr e1 ↦ rw (e0, e1, create_revision) (made f0 e0 e1)
        ]
  ]

  pub set_published_revision_cases :
      (fleet_id : Text) (id : ℕ)
      → ((f : Fleet)
          → get fleet_id s.fleets ≡ some f
          → (r : Revision) → get id s.revisions ≡ some r
          → (r.fleet_id == fleet_id) ≡ true
          → P (record s {
            fleets = put fleet_id (record f { published_revision_id = some id }) s.fleets;
          }))
      → P (set_published_revision fleet_id id s).0
  unfolding set_published_revision
  set_published_revision_cases fleet_id id made = elim (Option-cases (get fleet_id s.fleets)) [
    | inl e0 ↦ rw (e0, set_published_revision) same
    | inr (f0, e0) ↦ elim (Option-cases (get id s.revisions)) [
      | inl e1 ↦ rw (e0, e1, set_published_revision) same
      | inr (r1, e1) ↦ elim (Bool-cases (r1.fleet_id == fleet_id)) [
        | inl e2 ↦ rw (e0, e1, e2, set_published_revision) (made f0 e0 r1 e1 e2)
        | inr e2 ↦ rw (e0, e1, e2, set_published_revision) same
      ]
    ]
  ]

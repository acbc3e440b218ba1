-- ===== src/Store/Invariant/Publish.antt =====
-- Creating and publishing revisions keeps the store well-formed.
use proxydock.Model.{Fleet, Revision, Time}
use proxydock.Prelude.{
  Bool, Text, any, arith, false, nat_eq, refl, some, text_beq_iff, text_eq, true, ℕ, ◌&&◌, ◌+◌, ◌<◌,
  ◌==◌, ◌^◌, ◌≡◌,
}
use proxydock.Prelude.GoMap.{get, get-put, put, values}
use proxydock.Store.Cases.Published.{create_revision_cases, set_published_revision_cases}
use proxydock.Store.Invariant.{Owners, RevisionsOk, Wf, owner}
use proxydock.Store.Invariant.Fleets.{put-Owners, put_revision-Owners}
use proxydock.Store.Invariant.Rows.{inc_lem}
use proxydock.Store.Revisions.{create_revision, same_number, saved_revision, set_published_revision}
use proxydock.Store.State.{Store}
use proxydock.Store.Table.{create-TableOk, fresh}

same_numbered : (a b : Text) (m n : ℕ) → (a == b && m == n) ≡ true → (b == a && n == m) ≡ true
same_numbered a b m n h = ground (arith, text_beq_iff a b, text_beq_iff b a)

module _ {s : Store} (w : Wf s) where
  -- The row goes into the table of revisions, under the next id.
  revision_row :
      (now : Time) (r : Revision)
      → any (same_number r.fleet_id r.number) (values s.revisions) ≡ false
      → RevisionsOk
          (s.revision_seq + 1)
          (put (s.revision_seq + 1) (saved_revision now (s.revision_seq + 1) r) s.revisions)
  unfolding saved_revision
  revision_row now r free =
      create-TableOk _ _ w.revisions (λ a b. same_numbered b.fleet_id a.fleet_id b.number a.number)
        (saved_revision now (s.revision_seq + 1) r) refl free

  own_row :
      (now : Time) (r : Revision) (n : ℕ)
      → n ≡ s.revision_seq + 1
      → owner
          (get n (put (s.revision_seq + 1) (saved_revision now (s.revision_seq + 1) r) s.revisions))
        ≡ some r.fleet_id
  unfolding saved_revision
  own_row now r n e = ground (
    arith,
    get-put (s.revision_seq + 1) n (saved_revision now (s.revision_seq + 1) r) s.revisions,
  )

  -- What fleets own stays in order, with the revision unpublished or published.
  keep_row :
      (now : Time) (r : Revision) (f : Fleet)
      → get r.fleet_id s.fleets ≡ some f
      → Owners s.fleets s.agents s.proxy_hosts
          (put (s.revision_seq + 1) (saved_revision now (s.revision_seq + 1) r) s.revisions)
  unfolding saved_revision
  keep_row now r f there =
      put_revision-Owners w.owners (s.revision_seq + 1) (saved_revision now (s.revision_seq + 1) r)
        (fresh _ _ w.revisions) (ground arith)

  publish_row :
      (now : Time) (r : Revision) (f : Fleet)
      → get r.fleet_id s.fleets ≡ some f
      → Owners
          (put r.fleet_id (record f { published_revision_id = some (s.revision_seq + 1) }) s.fleets)
          s.agents
          s.proxy_hosts
          (put (s.revision_seq + 1) (saved_revision now (s.revision_seq + 1) r) s.revisions)
  publish_row now r f there =
      put-Owners (keep_row now r f there) r.fleet_id
        (record f { published_revision_id = some (s.revision_seq + 1) })
        (w.owners.fleet_id r.fleet_id f there) (λ n h. own_row now r n (ground arith))

  pub create_revision-Wf :
      (now : Time) (r : Revision) (make_published : Bool)
      → s.revision_seq + 1 < 2 ^ 63
      → Wf (create_revision now r make_published s).0
  create_revision-Wf now r true room = create_revision_cases Wf s w now r true λ f there free.
      rw (inc_lem s.revision_seq room)
        (assumption (revision_row now r free, publish_row now r f there))
  create_revision-Wf now r false room = create_revision_cases Wf s w now r false λ f there free.
      rw (inc_lem s.revision_seq room)
        (assumption (revision_row now r free, keep_row now r f there))

  pub set_published_revision-Wf :
      (fleet_id : Text) (id : ℕ) → Wf (set_published_revision fleet_id id s).0
  set_published_revision-Wf fleet_id id =
      set_published_revision_cases Wf s w fleet_id id λ f there r found same. assumption (
        put-Owners w.owners fleet_id (record f { published_revision_id = some id })
          (w.owners.fleet_id fleet_id f there)
          (λ n h. ground (arith, text_beq_iff r.fleet_id fleet_id)))

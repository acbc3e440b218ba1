-- ===== src/Api/Publishing.antt =====
-- apps/api/internal/api/admin_handlers.go: what a fleet serves after a publish or a
-- roll-back.
use proxydock.Api.Answers.{Decoded, Server, answer, decoded_or, reply, written_after}
use proxydock.Api.Built.{list_cases}
use proxydock.Api.Guard.{get_published_revision_same}
use proxydock.Api.Revisions.{
  enqueue_all, fire_webhooks, handle_publish_revision, handle_rollback, itoa, publish,
  publish_compiled, sign_revision, unsigned,
}
use proxydock.Compiler.Compile.{Compiled, compile}
use proxydock.Model.{Fleet, Revision, Time, Webhook}
use proxydock.Prelude.{
  List, Option, Option-cases, Text, [], ap, codes, inl, inr, nat_eq, none, refl, some, subst, sym,
  text_eq, true, ℕ, ◌++◌, ◌+◌, ◌<◌, ◌^◌, ◌∙◌, ◌∷◌, ◌≡◌, ◌≢◌,
}
use proxydock.Prelude.GoMap.{get, values}
use proxydock.Prelude.Strings.{trim_space}
use proxydock.Store.Certificates.{list_certificates}
use proxydock.Store.Fleets.{get_fleet}
use proxydock.Store.Invariant.{Wf}
use proxydock.Store.ProxyHosts.{list_proxy_hosts}
use proxydock.Store.Publishing.{Small, publish_next}
use proxydock.Store.Revisions.{
  create_revision, get_published_revision, get_revision, next_revision_number, saved_revision,
}
use proxydock.Store.State.{Result, Store, ok}
use proxydock.Store.Webhooks.{enqueue_webhook_job, list_enabled_webhooks}

enqueue_all-others :
    (now : Time) (payload : Text) (hooks : List Webhook) (s : Store)
    → ((enqueue_all now payload hooks s).fleets ≡ s.fleets)
      × ((enqueue_all now payload hooks s).revisions ≡ s.revisions)
unfolding enqueue_all enqueue_webhook_job
enqueue_all-others now payload [] s = (refl, refl)
enqueue_all-others now payload (h ∷ hs) s =
    let (f, r) = enqueue_all-others now payload hs _ in (f, r)

fire_webhooks-others :
    (sv : Server) (now : Time) (id event : Text) (rev : Revision) (s : Store)
    → ((fire_webhooks sv now id event rev s).fleets ≡ s.fleets)
      × ((fire_webhooks sv now id event rev s).revisions ≡ s.revisions)
unfolding fire_webhooks
fire_webhooks-others sv now id event rev s = elim (list_cases (list_enabled_webhooks id event s)) [
  | inl n ↦ rw (n, fire_webhooks) (refl, refl)
  | inr (h, hs, c) ↦ elim (Option-cases (sv.encode_event event id rev)) [
    | inl e ↦ rw (c, e, fire_webhooks) (refl, refl)
    | inr (payload, e) ↦ rw (c, e, fire_webhooks) (enqueue_all-others now payload (h ∷ hs) s)
  ]
]

fire_webhooks-published :
    (sv : Server) (now : Time) (id event : Text) (rev : Revision) (s : Store) (fleet : Text)
    → get_published_revision fleet (fire_webhooks sv now id event rev s)
      ≡ get_published_revision fleet s
fire_webhooks-published sv now id event rev s fleet =
    let (f, r) = fire_webhooks-others sv now id event rev s in
    get_published_revision_same fleet s (fire_webhooks sv now id event rev s) f r

sign_revision-fields :
    (signer : Option (Text → Text)) (rev : Revision)
    → ((sign_revision signer rev).fleet_id ≡ rev.fleet_id)
      × ((sign_revision signer rev).number ≡ rev.number)
unfolding sign_revision
sign_revision-fields none rev = (refl, refl)
sign_revision-fields (some sign) rev = (refl, refl)

-- The row that publish writes.
abbrev pub signed_row : Server → Time → Revision → Store → Revision
signed_row sv now rev s = saved_revision now (s.revision_seq + 1) (sign_revision sv.signer rev)

-- The fleet serves the new row, and the other fleets what they served.
abbrev pub Serves : Text → Revision → Store → Store → Type 0
Serves fleet_id row s t =
    (get_published_revision fleet_id t ≡ ok row)
    × ((id : Text) → id ≢ fleet_id → get_published_revision id t ≡ get_published_revision id s)

-- What lets a fleet publish: it exists, and the numbers and the counter are below the largest int.
pub record CanPublish (fleet_id : Text) (s : Store) : Type 0 where
  pub fleet : Fleet
  pub wf : Wf s
  pub there : get fleet_id s.fleets ≡ some fleet
  pub small : Small (values s.revisions)
  pub room : s.revision_seq + 1 < 2 ^ 63

module _ (sv : Server) (now : Time) (event : Text) (rev : Revision) (s : Store) where
  abbrev created : Store × Result Revision
  created = create_revision now (sign_revision sv.signer rev) true s

  publish_created :
      (saved : Revision)
      → created.1 ≡ ok saved
      → ((publish sv now event rev s).1 ≡ reply 201 none (some saved))
        × ((publish sv now event rev s).0 ≡ fire_webhooks sv now rev.fleet_id event saved created.0)
  unfolding publish
  publish_created saved e = rw (e, publish) (refl, refl)

  publish-Serves :
      CanPublish rev.fleet_id s
      → next_revision_number rev.fleet_id s ≡ ok rev.number
      → ((publish sv now event rev s).1 ≡ reply 201 none (some (signed_row sv now rev s)))
        × Serves rev.fleet_id (signed_row sv now rev s) s (publish sv now event rev s).0
  publish-Serves can next =
      let signed = sign_revision sv.signer rev in
      let (id, number) = sign_revision-fields sv.signer rev in
      let there = subst (λ z. get z s.fleets ≡ some can.fleet) (sym id) can.there in
      let numbered = ap (λ z. next_revision_number z s) id ∙ next ∙ ap (λ z. ok z) (sym number) in
      let (made, served, larger, others) =
        publish_next now signed can.fleet can.wf there can.small can.room numbered in
      let (answer, store) = publish_created (signed_row sv now rev s) made in
      let fired : (fleet : Text)
          → get_published_revision fleet (publish sv now event rev s).0
            ≡ get_published_revision fleet created.0 =
        λ fleet.
          ap (get_published_revision fleet) store
          ∙ fire_webhooks-published sv now rev.fleet_id event (signed_row sv now rev s) created.0
              fleet in
      (
        answer,
        (
          fired rev.fleet_id
              ∙ subst (λ z. get_published_revision z created.0 ≡ ok (signed_row sv now rev s)) id
                  served,
          λ other apart. fired other ∙ others other (λ e. apart (e ∙ id)),
        ),
      )

-- In a store where the fleet can publish and its hosts compile, a publish writes the new revision
-- as its answer, which the fleet then serves: the compiled configuration of the fleet's hosts and
-- certificates, its ETag and the snapshots of both, under the fleet's next number, signed if the
-- server has a key. The other fleets serve what they served. If decodeBody refused the body, the
-- response is status 400 with its error and then the revision, which is published all the same.
pub handle_publish_revision-Serves :
    (sv : Server) (now : Time) (fleet_id : Text) (body : Decoded Text) (s : Store) (res : Compiled)
    (n : ℕ)
    → CanPublish fleet_id s
    → compile sv.libraries (list_proxy_hosts fleet_id s) (list_certificates fleet_id s) ≡ inr res
    → next_revision_number fleet_id s ≡ ok n
    → let row =
        signed_row sv now
          (unsigned fleet_id n res
            (list_proxy_hosts fleet_id s)
            (list_certificates fleet_id s)
            (trim_space (decoded_or (λ z. z) [] body)))
          s in
      ((handle_publish_revision sv now fleet_id body s).1
        ≡ written_after body (reply 201 none (some row)))
      × Serves fleet_id row s (handle_publish_revision sv now fleet_id body s).0
unfolding handle_publish_revision publish_compiled get_fleet
handle_publish_revision-Serves sv now fleet_id body s res n can e next =
    let notes = decoded_or (λ z. z) [] body in
    let rev =
      unsigned fleet_id n res (list_proxy_hosts fleet_id s) (list_certificates fleet_id s)
        (trim_space notes) in
    let (answer, served) = publish-Serves sv now (codes "revision_published") rev s can next in
    rw (can.there, e, next, handle_publish_revision, publish_compiled, get_fleet)
      (ap (written_after body) answer, served)

-- What a roll-back to `old` stores.
abbrev pub rolled_back : Text → ℕ → ℕ → Revision → Revision
rolled_back fleet_id next n old = record {
  id = 0;
  fleet_id = fleet_id;
  number = next;
  compiled_config = old.compiled_config;
  source_proxy_hosts = old.source_proxy_hosts;
  source_certs = old.source_certs;
  etag = old.etag;
  notes = codes "rollback to revision " ++ itoa n;
  signature = [];
  signature_alg = [];
  generated_at = 0;
}

-- Where the fleet can publish, a roll-back to one of its revisions answers with a new revision, which
-- the fleet then serves: the old one's configuration, ETag and snapshots under the fleet's next
-- number, signed anew if the server has a key. The other fleets serve what they served.
pub handle_rollback-Serves :
    (sv : Server) (now : Time) (fleet_id : Text) (n : ℕ) (s : Store) (old : Revision) (next : ℕ)
    → CanPublish fleet_id s
    → get_revision fleet_id n s ≡ ok old
    → next_revision_number fleet_id s ≡ ok next
    → ((handle_rollback sv now fleet_id (some n) s).1
        ≡ reply 201 none (some (signed_row sv now (rolled_back fleet_id next n old) s)))
      × Serves fleet_id
          (signed_row sv now (rolled_back fleet_id next n old) s)
          s
          (handle_rollback sv now fleet_id (some n) s).0
unfolding handle_rollback
handle_rollback-Serves sv now fleet_id n s old next can found number =
    rw (found, number, handle_rollback)
      (publish-Serves sv now (codes "revision_rolled_back") (rolled_back fleet_id next n old) s can
        number)

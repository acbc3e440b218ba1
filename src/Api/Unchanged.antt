-- ===== src/Api/Unchanged.antt =====
-- apps/api/internal/api: an agent that polls again with the ETag that it was given.
use proxydock.Api.Access.{authenticate_agent}
use proxydock.Api.Answers.{Server, reply}
use proxydock.Api.Built.{build_agent_config_response_cases}
use proxydock.Api.Configs.{
  ConfigBody, agent_hosts, build_agent_config_response, config_answer, handle_get_config,
  recompiled_body, serve_config,
}
use proxydock.Api.Etags.{IsTag, compile-IsTag, etag_matches_self}
use proxydock.Api.Guard.{
  Known, get_agent_same, get_published_revision_same, handle_get_config_guarded,
  serve_config-Served, touch_token-others,
}
use proxydock.Auth.{verify_secret}
use proxydock.Auth.RoundTrip.{Bytes}
use proxydock.Model.{Agent, Revision, Time}
use proxydock.Prelude.{
  ==_iff, Option, Text, [], ap, arith, inl, inr, nat_eq, none, refl, some, subst, sym, text_beq_iff,
  text_eq, ℕ, ◌∙◌, ◌≡◌,
}
use proxydock.Prelude.GoMap.{get, get-put}
use proxydock.Store.Agents.{get_agent}
use proxydock.Store.Revisions.{get_published_revision}
use proxydock.Store.State.{Store, TokenEntry, ok}
use proxydock.Store.Tokens.{TokenRecord, lookup_token, touch_token}

lookup_token-row_found :
    (prefix : Text) (s : Store) (t : TokenEntry) (a : Agent)
    → get prefix s.tokens ≡ some t
    → t.token.revoked_at ≡ none
    → get t.token.agent_id s.agents ≡ some a
    → lookup_token prefix s
      ≡ ok (record { token = t.token; agent = a; fleet_id = a.fleet_id }, t.hash)
unfolding lookup_token
lookup_token-row_found prefix s t a g live there = ground arith

-- Whoever holds the secret of a live token passes, and the token's use is noted.
pub authenticate_agent_complete :
    (sv : Server) (now : Time) (authorization : Text) (s : Store) (rec : TokenRecord)
    → (k : Known sv authorization s rec)
    → authenticate_agent sv now authorization s ≡ (
      (touch_token now k.prefix s).0,
      some record { token = k.entry.token; agent = rec.agent; fleet_id = rec.agent.fleet_id },
    )
unfolding authenticate_agent verify_secret
authenticate_agent_complete sv now authorization s rec k =
    let found = lookup_token-row_found k.prefix s k.entry rec.agent k.row k.live k.agent in
    let same = (==_iff (sv.libraries.sha256 k.secret) k.entry.hash).1 k.verified in
    rw (k.header, k.parsed, found, same, authenticate_agent) refl

-- The entry of a token after its use.
abbrev pub used : Time → TokenEntry → TokenEntry
used now t = record t { token = record t.token { last_used_at = some now } }

touched_row :
    (now : Time) (prefix : Text) (t : TokenEntry) (s : Store)
    → get prefix s.tokens ≡ some t
    → get prefix (touch_token now prefix s).0.tokens ≡ some (used now t)
unfolding touch_token
touched_row now prefix t s g =
    rw (g, touch_token)
      (ground (arith, get-put prefix prefix (used now t) s.tokens, text_beq_iff prefix prefix))

touch_token-Known :
    (sv : Server) (now : Time) (authorization : Text) (s : Store) (rec : TokenRecord)
    → (k : Known sv authorization s rec)
    → Known sv authorization (touch_token now k.prefix s).0 record {
      token = (used now k.entry).token;
      agent = rec.agent;
      fleet_id = rec.agent.fleet_id;
    }
touch_token-Known sv now authorization s rec k =
    let (agents, fleets, revisions) = touch_token-others now k.prefix s in
    record {
      tok = k.tok;
      prefix = k.prefix;
      secret = k.secret;
      entry = used now k.entry;
      header = k.header;
      parsed = k.parsed;
      row = touched_row now k.prefix k.entry s k.row;
      live = k.live;
      agent = ap (λ z. get k.entry.token.agent_id z) agents ∙ k.agent;
      fleet = refl;
      verified = k.verified;
    }

build-IsTag :
    (sv : Server) (a : Agent) (rev : Revision) (b : ConfigBody)
    → ((t : Text) → Bytes (sv.libraries.sha256 t))
    → IsTag rev.etag
    → build_agent_config_response sv a rev ≡ inr b
    → IsTag b.etag
unfolding recompiled_body
build-IsTag sv a rev b bytes tag e = elim (build_agent_config_response_cases sv a rev b e) [
  | inl same ↦ subst (λ z. IsTag z.etag) (sym same) tag
  | inr (hosts, certs, res, d, c, same) ↦
      subst (λ z. IsTag z.etag) (sym same)
        (compile-IsTag sv.libraries (agent_hosts a.labels hosts) certs res bytes c)
]

config_answer-unchanged :
    (etag : Text) (b : ConfigBody)
    → IsTag etag
    → b.etag ≡ etag
    → config_answer etag (inr b) ≡ reply 304 (some etag) none
unfolding config_answer
config_answer-unchanged etag b tag same =
    let self = etag_matches_self etag tag in
    let (plain, weak, some_text) = tag in
    rw same (rw self (ground (arith, some_text, text_beq_iff etag [])))

serve_config-stable :
    (sv : Server) (rec : TokenRecord) (inm : Text) (s : Store) (g : Agent) (rev : Revision)
    → get_agent rec.agent.id s ≡ ok g
    → get_published_revision rec.fleet_id s ≡ ok rev
    → serve_config sv rec inm s ≡ config_answer inm (build_agent_config_response sv g rev)
unfolding serve_config
serve_config-stable sv rec inm s g rev there published = rw (published, there, serve_config) refl

serve_config-again :
    (sv : Server) (rec who : TokenRecord) (inm : Text) (s t : Store) (code : ℕ) (etag : Text)
    (body : Option ConfigBody)
    → who.agent ≡ rec.agent
    → who.fleet_id ≡ rec.fleet_id
    → t.agents ≡ s.agents
    → t.fleets ≡ s.fleets
    → t.revisions ≡ s.revisions
    → IsTag etag
    → serve_config sv rec inm s ≡ reply code (some etag) body
    → serve_config sv who etag t ≡ reply 304 (some etag) none
serve_config-again sv rec who inm s t code etag body a f agents fleets revisions tag e =
    let (g, rev, b, ag, published, built, done) =
      serve_config-Served sv rec inm s code (some etag) body e in
    let there =
      ap (λ z. get_agent z t) (ap (λ z. z.id) a) ∙ get_agent_same rec.agent.id s t agents ∙ ag in
    let live =
      ap (λ z. get_published_revision z t) f
      ∙ get_published_revision_same rec.fleet_id s t fleets revisions
      ∙ published in
    serve_config-stable sv who etag t g rev there live
    ∙ ap (config_answer etag) built
    ∙ config_answer-unchanged etag b tag (ground (arith, done.0))

-- The answer for a caller that Known describes.
pub handle_get_config-Known :
    (sv : Server) (now : Time) (agent_id authorization inm : Text) (s : Store) (rec : TokenRecord)
    → (k : Known sv authorization s rec) → rec.agent.id ≡ agent_id
    → (handle_get_config sv now agent_id authorization inm s).1
      ≡ serve_config sv
          record { token = k.entry.token; agent = rec.agent; fleet_id = rec.agent.fleet_id }
          inm
          (touch_token now k.prefix s).0
unfolding handle_get_config
handle_get_config-Known sv now agent_id authorization inm s rec k mine =
    let called = authenticate_agent_complete sv now authorization s rec k in
    let same = (==_iff rec.agent.id agent_id).1 mine in
    rw (called, same, handle_get_config) (rw (ap (λ p. p.0) called) refl)

handle_get_config-store :
    (sv : Server) (now : Time) (agent_id authorization inm : Text) (s : Store) (rec : TokenRecord)
    → (k : Known sv authorization s rec) → rec.agent.id ≡ agent_id
    → (handle_get_config sv now agent_id authorization inm s).0 ≡ (touch_token now k.prefix s).0
unfolding handle_get_config
handle_get_config-store sv now agent_id authorization inm s rec k mine =
    let called = authenticate_agent_complete sv now authorization s rec k in
    let same = (==_iff rec.agent.id agent_id).1 mine in
    rw (called, same, handle_get_config) (ap (λ p. p.0) called)

-- An agent that has been given a configuration under an ETag and polls again with that ETag gets
-- status 304 and the ETag, in the store that the first poll has left and at whatever time. Conditions:
-- SHA-256 gives bytes, and the published revisions have ETags that stand unchanged in a header, as
-- those of Compile do.
pub handle_get_config_again :
    (sv : Server) (now later : Time) (agent_id authorization inm : Text) (s : Store) (etag : Text)
    (body : Option ConfigBody)
    → ((t : Text) → Bytes (sv.libraries.sha256 t))
    → ((id : Text) (r : Revision) → get_published_revision id s ≡ ok r → IsTag r.etag)
    → (handle_get_config sv now agent_id authorization inm s).1 ≡ reply 200 (some etag) body
    → (handle_get_config sv later agent_id authorization etag
        (handle_get_config sv now agent_id authorization inm s).0).1
      ≡ reply 304 (some etag) none
handle_get_config_again sv now later agent_id authorization inm s etag body bytes tags e =
    let (rec, k, mine, (a, rev, b, g, published, built, done)) =
      handle_get_config_guarded sv now agent_id authorization inm s 200 (some etag) body e in
    let tag = build-IsTag sv a rev b bytes (tags rec.agent.fleet_id rev published) built in
    let known = touch_token-Known sv now authorization s rec k in
    let (agents', fleets', revisions') =
      touch_token-others later known.prefix (touch_token now k.prefix s).0 in
    let first = sym (handle_get_config-Known sv now agent_id authorization inm s rec k mine) ∙ e in
    let same : b.etag ≡ etag = ground (arith, done.0) in
    subst
      (λ t.
        (handle_get_config sv later agent_id authorization etag t).1 ≡ reply 304 (some etag) none)
      (sym (handle_get_config-store sv now agent_id authorization inm s rec k mine))
      (handle_get_config-Known sv later agent_id authorization etag (touch_token now k.prefix s).0 _
          known mine
        ∙ serve_config-again sv
            record { token = k.entry.token; agent = rec.agent; fleet_id = rec.agent.fleet_id } _ inm
            (touch_token now k.prefix s).0 _ 200 etag body refl refl agents' fleets' revisions'
            (subst IsTag same tag) first)

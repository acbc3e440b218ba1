-- ===== src/Api/Guard.antt =====
-- apps/api/internal/api: who is served a configuration.
use proxydock.Api.Access.{authenticate_agent, bearer_header}
use proxydock.Api.Answers.{Server, reply}
use proxydock.Api.Configs.{
  BuildError, ConfigBody, build_agent_config_response, config_answer, etag_matches,
  handle_get_config, serve_config,
}
use proxydock.Auth.{parse_bearer, verify_secret}
use proxydock.Model.{Agent, Revision, Time}
use proxydock.Prelude.{
  ==_iff, Bool-cases, Option, Option-cases, Text, [], ap, arith, inl, inr, nat_eq, none, not, refl,
  some, subst, sum_cases, sym, text_eq, ℕ, ◌&&◌, ◌==◌, ◌∙◌, ◌≡◌, ◌⊎◌,
}
use proxydock.Prelude.GoMap.{get}
use proxydock.Store.Agents.{get_agent}
use proxydock.Store.Revisions.{get_published_revision}
use proxydock.Store.State.{Result, Store, StoreError, TokenEntry, err, ok}
use proxydock.Store.Tokens.{TokenRecord, lookup_token, touch_token}

-- What authenticateAgent has checked when it lets a request pass as `rec`.
pub record Known (sv : Server) (authorization : Text) (s : Store) (rec : TokenRecord) : Type 0 where
  pub tok : Text
  pub prefix : Text
  pub secret : Text
  pub entry : TokenEntry
  pub header : bearer_header authorization ≡ inr tok
  pub parsed : parse_bearer tok ≡ inr (prefix, secret)
  pub row : get prefix s.tokens ≡ some entry
  pub live : entry.token.revoked_at ≡ none
  pub agent : get entry.token.agent_id s.agents ≡ some rec.agent
  pub fleet : rec.fleet_id ≡ rec.agent.fleet_id
  pub verified : sv.libraries.sha256 secret ≡ entry.hash

pub result_cases :
    {A : Type 0} (r : Result A) → ((e : StoreError) × (r ≡ err e)) ⊎ ((a : A) × (r ≡ ok a))
result_cases (ok a) = inr (a, refl)
result_cases (err e) = inl (e, refl)

-- A token that a lookup finds stands in the table and has not been revoked.
lookup_token-row :
    (prefix : Text) (s : Store) (rec : TokenRecord) (hash : Text)
    → lookup_token prefix s ≡ ok (rec, hash)
    → (t : TokenEntry) × (get prefix s.tokens ≡ some t)
      × (t.token.revoked_at ≡ none)
      × (get t.token.agent_id s.agents ≡ some rec.agent)
      × (rec.fleet_id ≡ rec.agent.fleet_id)
      × (hash ≡ t.hash)
unfolding lookup_token
lookup_token-row prefix s rec hash e = elim (Option-cases (get prefix s.tokens)) [
  | inl g ↦ absurd (ground arith)
  | inr (t, g) ↦ elim (Option-cases t.token.revoked_at) [
    | inr (w, r) ↦ absurd (ground arith)
    | inl r ↦ elim (Option-cases (get t.token.agent_id s.agents)) [
      | inl a ↦ absurd (ground arith)
      | inr (a, f) ↦
          let made : TokenRecord = record { token = t.token; agent = a; fleet_id = a.fleet_id } in
          let same : made ≡ rec = ground arith in
          let one : t.hash ≡ hash = ground arith in
          (
            t,
            g,
            r,
            f ∙ ap (λ x. some x.agent) same,
            sym (ap (λ x. x.fleet_id) same) ∙ ap (λ x. x.agent.fleet_id) same,
            sym one,
          )
    ]
  ]
]

pub touch_token-others :
    (now : Time) (prefix : Text) (s : Store)
    → ((touch_token now prefix s).0.agents ≡ s.agents)
      × ((touch_token now prefix s).0.fleets ≡ s.fleets)
      × ((touch_token now prefix s).0.revisions ≡ s.revisions)
unfolding touch_token
touch_token-others now prefix s = elim (Option-cases (get prefix s.tokens)) [
  | inl g ↦ rw (g, touch_token) (refl, refl, refl)
  | inr (t, g) ↦ rw (g, touch_token) (refl, refl, refl)
]

authenticate_agent-Known :
    (sv : Server) (now : Time) (authorization : Text) (s : Store) (rec : TokenRecord)
    → (authenticate_agent sv now authorization s).1 ≡ some rec
    → Known sv authorization s rec
      × ((prefix : Text) × ((authenticate_agent sv now authorization s).0
            ≡ (touch_token now prefix s).0))
unfolding authenticate_agent verify_secret
authenticate_agent-Known sv now authorization s rec e =
    elim (sum_cases (bearer_header authorization)) [
      | inl (x, h) ↦ absurd (ground arith)
      | inr (tok, h) ↦ elim (sum_cases (parse_bearer tok)) [
        | inl (x, p) ↦ absurd (ground arith)
        | inr ((prefix, secret), p) ↦ elim (result_cases (lookup_token prefix s)) [
          | inl (x, l) ↦ absurd (ground arith)
          | inr ((found, hash), l) ↦ elim (Bool-cases (sv.libraries.sha256 secret == hash)) [
            | inr v ↦ absurd (ground arith)
            | inl v ↦
                let (t, g, r, a, fl, same) = lookup_token-row prefix s found hash l in
                let me : found ≡ rec = ground arith in
                (
                  subst (Known sv authorization s) me record {
                    tok = tok;
                    prefix = prefix;
                    secret = secret;
                    entry = t;
                    header = h;
                    parsed = p;
                    row = g;
                    live = r;
                    agent = a;
                    fleet = fl;
                    verified = (==_iff (sv.libraries.sha256 secret) hash).0 v ∙ same;
                  },
                  (prefix, ground arith),
                )
          ]
        ]
      ]
    ]

-- What was built for an agent, and how it was answered.
abbrev pub Answered : ConfigBody → ℕ → Option Text → Option ConfigBody → Type 0
Answered b code etag body =
    (etag ≡ some b.etag) × (((code ≡ 304) × (body ≡ none)) ⊎ ((code ≡ 200) × (body ≡ some b)))

config_answer-Answered :
    (inm : Text) (built : BuildError ⊎ ConfigBody) (code : ℕ) (etag : Option Text)
    (body : Option ConfigBody)
    → config_answer inm built ≡ reply code etag body
    → (b : ConfigBody) × (built ≡ inr b) × Answered b code etag body
unfolding config_answer
config_answer-Answered inm built code etag body e = elim (sum_cases built) [
  | inl (x, p) ↦ absurd (ground arith)
  | inr (b, p) ↦ elim (Bool-cases (not (inm == []) && etag_matches inm b.etag)) [
    | inl m ↦ (b, p, (ground arith, inl (ground arith)))
    | inr m ↦ (b, p, (ground arith, inr (ground arith)))
  ]
]

-- The answer is that of the revision which the fleet of the caller has published, built for the
-- agent `id` as it is stored now.
abbrev pub Served : Server → Text → Text → Store → ℕ → Option Text → Option ConfigBody → Type 0
Served sv id fleet_id s code etag body =
    (a : Agent) × (rev : Revision) × (b : ConfigBody) × (get_agent id s ≡ ok a)
    × (get_published_revision fleet_id s ≡ ok rev)
    × (build_agent_config_response sv a rev ≡ inr b)
    × Answered b code etag body

pub serve_config-Served :
    (sv : Server) (rec : TokenRecord) (inm : Text) (s : Store) (code : ℕ) (etag : Option Text)
    (body : Option ConfigBody)
    → serve_config sv rec inm s ≡ reply code etag body
    → Served sv rec.agent.id rec.fleet_id s code etag body
unfolding serve_config
serve_config-Served sv rec inm s code etag body e =
    elim (result_cases (get_published_revision rec.fleet_id s)) [
      | inl (x, p) ↦ absurd (ground arith)
      | inr (rev, p) ↦ elim (result_cases (get_agent rec.agent.id s)) [
        | inl (x, g) ↦ absurd (ground arith)
        | inr (a, g) ↦
            let (b, built, done) =
              config_answer-Answered inm (build_agent_config_response sv a rev) code etag body
                (ground arith) in
            (a, rev, b, g, p, built, done)
      ]
    ]

pub get_published_revision_same :
    (id : Text) (s t : Store)
    → t.fleets ≡ s.fleets
    → t.revisions ≡ s.revisions
    → get_published_revision id t ≡ get_published_revision id s
unfolding get_published_revision
get_published_revision_same id s t f r = rw (f, r) refl

pub get_agent_same :
    (id : Text) (s t : Store) → t.agents ≡ s.agents → get_agent id t ≡ get_agent id s
unfolding get_agent
get_agent_same id s t a = rw a refl

touch_token-Served :
    (sv : Server) (now : Time) (prefix id fleet_id : Text) (s : Store) (code : ℕ)
    (etag : Option Text) (body : Option ConfigBody)
    → Served sv id fleet_id (touch_token now prefix s).0 code etag body
    → Served sv id fleet_id s code etag body
touch_token-Served sv now prefix id fleet_id s code etag body (a, rev, b, g, p, built, done) =
    let (agents, fleets, revisions) = touch_token-others now prefix s in
    (
      a,
      rev,
      b,
      sym (get_agent_same id s (touch_token now prefix s).0 agents) ∙ g,
      sym (get_published_revision_same fleet_id s (touch_token now prefix s).0 fleets revisions)
          ∙ p,
      built,
      done,
    )

-- An agent is given a configuration, or told that it is unchanged, only if the request carries the
-- secret of a token that has not been revoked and that belongs to the agent of the path. The answer
-- is then that for the revision which the agent's fleet has published, built for that agent: status
-- 200 with the body, or 304 without one, under the body's ETag.
pub handle_get_config_guarded :
    (sv : Server) (now : Time) (agent_id authorization inm : Text) (s : Store) (code : ℕ)
    (etag : Option Text) (body : Option ConfigBody)
    → (handle_get_config sv now agent_id authorization inm s).1 ≡ reply code etag body
    → (rec : TokenRecord) × Known sv authorization s rec
      × (rec.agent.id ≡ agent_id)
      × Served sv agent_id rec.agent.fleet_id s code etag body
unfolding handle_get_config
handle_get_config_guarded sv now agent_id authorization inm s code etag body e =
    let r = authenticate_agent sv now authorization s in
    elim (Option-cases r.1) [
      | inl n ↦ absurd (ground arith)
      | inr (rec, n) ↦ elim (Bool-cases (rec.agent.id == agent_id)) [
        | inr m ↦ absurd (ground arith)
        | inl m ↦
            let (known, (prefix, touched)) =
              authenticate_agent-Known sv now authorization s rec n in
            let mine = (==_iff rec.agent.id agent_id).0 m in
            let served = serve_config-Served sv rec inm r.0 code etag body (ground arith) in
            let before =
              touch_token-Served sv now prefix rec.agent.id rec.fleet_id s code etag body (
                subst (λ z. Served sv rec.agent.id rec.fleet_id z code etag body) touched served) in
            (
              rec,
              known,
              mine,
              subst (λ z. Served sv z rec.agent.fleet_id s code etag body) mine
                  (subst (λ z. Served sv rec.agent.id z s code etag body) known.fleet before),
            )
      ]
    ]

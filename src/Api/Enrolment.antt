-- ===== src/Api/Enrolment.antt =====
-- From a minted token to the configuration: auth.go, store.MintToken and handleGetConfig together.
use proxydock.Api.Access.{bearer_header}
use proxydock.Api.Answers.{Decoded, Server, decoded_or, reply, written_after}
use proxydock.Api.Configs.{handle_get_config, serve_config}
use proxydock.Api.Etags.{Plain, hex_encode-Plain}
use proxydock.Api.Guard.{
  Known, get_agent_same, get_published_revision_same, result_cases, touch_token-others,
}
use proxydock.Api.Resources.{handle_mint_token}
use proxydock.Api.Unchanged.{handle_get_config-Known}
use proxydock.Auth.{Minted, hex_encode, mint_bearer, token_scheme}
use proxydock.Auth.RoundTrip.{Bytes, parse_bearer-mint_bearer}
use proxydock.Model.{Agent, Time}
use proxydock.Prelude.{
  All, All-map, List, Option-cases, Text, [], ap, arith, codes, false, inl, inr, length, nat_eq,
  none, refl, some, subst, sym, text_beq, text_beq_iff, text_eq, ℕ, ◌++◌, ◌==◌, ◌∙◌, ◌∷◌, ◌≡◌, ◌≢◌,
}
use proxydock.Prelude.GoMap.{get, get-put, put}
use proxydock.Prelude.PlainText.{All-append, trim_space-All}
use proxydock.Prelude.Strings.{drop, has_prefix, is_space}
use proxydock.Store.Agents.{get_agent}
use proxydock.Store.Revisions.{get_published_revision}
use proxydock.Store.State.{Store, TokenEntry, ok}
use proxydock.Store.Tokens.{TokenRecord, mint_token, new_token, touch_token}

pub bearer_header-token :
    (t : Text)
    → All (λ c. is_space c ≡ false) t
    → t ≢ []
    → bearer_header (codes "Bearer " ++ t) ≡ inr t
unfolding bearer_header has_prefix drop text_beq
bearer_header-token t plain some_text =
    let full : (t == []) ≡ false = ground (arith, text_beq_iff t []) in
    rw (trim_space-All t plain) (rw full refl)

spaceless : (bs : List ℕ) → Bytes bs → All (λ c. is_space c ≡ false) (hex_encode bs)
spaceless bs h =
    All-map Plain (λ c. is_space c ≡ false) (hex_encode bs) (λ c p. p.0) (hex_encode-Plain bs h)

token-spaceless :
    (p q : List ℕ)
    → Bytes p
    → Bytes q
    → All (λ c. is_space c ≡ false) (token_scheme ++ (hex_encode p ++ (b'_' ∷ hex_encode q)))
unfolding is_space
token-spaceless p q h k =
    let rest =
      All-append (λ c. is_space c ≡ false) (hex_encode p) (b'_' ∷ hex_encode q) (spaceless p h)
        (refl, spaceless q k) in
    (refl, (refl, (refl, (refl, rest))))

serve_config-same :
    (sv : Server) (rec : TokenRecord) (inm : Text) (s t : Store)
    → t.agents ≡ s.agents
    → t.fleets ≡ s.fleets
    → t.revisions ≡ s.revisions
    → serve_config sv rec inm t ≡ serve_config sv rec inm s
unfolding serve_config
serve_config-same sv rec inm s t a f r =
    let one = get_published_revision_same rec.fleet_id s t f r in
    let two = get_agent_same rec.agent.id s t a in
    elim (result_cases (get_published_revision rec.fleet_id s)) [
      | inl (e, p) ↦ rw (one ∙ p, p, serve_config) refl
      | inr (rev, p) ↦ rw (one ∙ p, p, two, serve_config) refl
    ]

mint_token-others :
    (now : Time) (id name prefix hash : Text) (s : Store)
    → ((mint_token now id name prefix hash s).0.agents ≡ s.agents)
      × ((mint_token now id name prefix hash s).0.fleets ≡ s.fleets)
      × ((mint_token now id name prefix hash s).0.revisions ≡ s.revisions)
unfolding mint_token
mint_token-others now id name prefix hash s = elim (Option-cases (get id s.agents)) [
  | inl g ↦ rw (g, mint_token) (refl, refl, refl)
  | inr (a, g) ↦ elim (Option-cases (get prefix s.tokens)) [
    | inr (t, h) ↦ rw (g, h, mint_token) (refl, refl, refl)
    | inl h ↦ rw (g, h, mint_token) (refl, refl, refl)
  ]
]

mint_token-fresh :
    (now : Time) (id name prefix hash : Text) (s : Store) (a : Agent)
    → get id s.agents ≡ some a
    → get prefix s.tokens ≡ none
    → mint_token now id name prefix hash s ≡ (
      record s {
        tokens =
            put prefix
              record { token = new_token now id name prefix; hash = hash; closed = false }
              s.tokens;
      },
      ok (new_token now id name prefix),
    )
unfolding mint_token
mint_token-fresh now id name prefix hash s a there free = rw (there, free, mint_token) refl

module _ (sv : Server) (now later : Time) (agent_id name inm : Text) (p q : List ℕ) (s : Store)
    (a : Agent) (pb : Bytes p) (qb : Bytes q) (pl : length p ≡ 4) (ql : length q ≡ 16)
    (there : get agent_id s.agents ≡ some a) (mine : a.id ≡ agent_id)
    (free : get (mint_bearer sv.libraries.sha256 p q).prefix s.tokens ≡ none) where
  abbrev minted : Minted
  minted = mint_bearer sv.libraries.sha256 p q

  abbrev enrolled : Store
  enrolled = (mint_token now agent_id name minted.prefix minted.secret_hash s).0

  abbrev who : TokenRecord
  who = record {
    token = new_token now agent_id name minted.prefix;
    agent = a;
    fleet_id = a.fleet_id;
  }

  abbrev minted_entry : TokenEntry
  minted_entry = record {
    token = new_token now agent_id name minted.prefix;
    hash = minted.secret_hash;
    closed = false;
  }

  enrolled_row : get minted.prefix enrolled.tokens ≡ some minted_entry
  enrolled_row =
      ap (λ t. get minted.prefix t.0.tokens)
        (mint_token-fresh now agent_id name minted.prefix minted.secret_hash s a there free)
      ∙ ground (
        arith,
        get-put minted.prefix minted.prefix minted_entry s.tokens,
        text_beq_iff minted.prefix minted.prefix,
      )

  minted-Known : Known sv (codes "Bearer " ++ minted.token) enrolled who
  unfolding mint_bearer
  minted-Known =
      let (parses, verifies) = parse_bearer-mint_bearer sv.libraries.sha256 p q pb qb pl ql in
      record {
        tok = minted.token;
        prefix = minted.prefix;
        secret = hex_encode q;
        entry = minted_entry;
        header = bearer_header-token minted.token (token-spaceless p q pb qb) (λ e. ground arith);
        parsed = parses;
        row = enrolled_row;
        live = refl;
        agent =
            (ap (λ m. get agent_id m)
                (mint_token-others now agent_id name minted.prefix minted.secret_hash s).0
              ∙ there);
        fleet = refl;
        verified = refl;
      }

  minted_config :
      (handle_get_config sv later agent_id (codes "Bearer " ++ minted.token) inm enrolled).1
      ≡ serve_config sv who inm s
  unfolding serve_config
  minted_config =
      let (agents, fleets, revisions) =
        mint_token-others now agent_id name minted.prefix minted.secret_hash s in
      let (agents', fleets', revisions') = touch_token-others later minted-Known.prefix enrolled in
      handle_get_config-Known sv later agent_id (codes "Bearer " ++ minted.token) inm enrolled who
        minted-Known mine
      ∙ serve_config-same sv who inm enrolled (touch_token later minted-Known.prefix enrolled).0
          agents' fleets' revisions'
      ∙ serve_config-same sv who inm s enrolled agents fleets revisions

handle_mint_token-fresh :
    (sv : Server) (now : Time) (agent_id : Text) (body : Decoded Text) (p q : List ℕ) (s : Store)
    (a : Agent)
    → get agent_id s.agents ≡ some a
    → get (mint_bearer sv.libraries.sha256 p q).prefix s.tokens ≡ none
    → let m = mint_bearer sv.libraries.sha256 p q in
      let name = decoded_or (λ n. n) [] body in
      handle_mint_token sv now (some (p, q)) agent_id body s ≡ (
        (mint_token now agent_id name m.prefix m.secret_hash s).0,
        written_after body (
            reply 201 none
              (some record { token = m.token; metadata = new_token now agent_id name m.prefix })),
      )
unfolding handle_mint_token get_agent
handle_mint_token-fresh sv now agent_id body p q s a there free =
    let m = mint_bearer sv.libraries.sha256 p q in
    let fresh =
      mint_token-fresh now agent_id (decoded_or (λ n. n) [] body) m.prefix m.secret_hash s a there
        free in
    rw (there, ap (λ r. r.1) fresh, handle_mint_token, get_agent) refl

-- The handler for new tokens writes into its answer a token with which the agent then gets, in the
-- Authorization header, the answer for its fleet's published revision; minting and authentication
-- do not change it. Conditions: the agent exists under its id, crypto/rand gives 4 and 16 bytes, and
-- their prefix is free. If decodeBody refused the body, the response is
-- status 400 with its error and then the token, which is valid all the same.
pub handle_get_config-handle_mint_token :
    (sv : Server) (now later : Time) (agent_id inm : Text) (body : Decoded Text) (p q : List ℕ)
    (s : Store) (a : Agent)
    → Bytes p
    → Bytes q
    → length p ≡ 4
    → length q ≡ 16
    → get agent_id s.agents ≡ some a
    → a.id ≡ agent_id
    → get (mint_bearer sv.libraries.sha256 p q).prefix s.tokens ≡ none
    → let m = mint_bearer sv.libraries.sha256 p q in
      let row = new_token now agent_id (decoded_or (λ n. n) [] body) m.prefix in
      let after = handle_mint_token sv now (some (p, q)) agent_id body s in
      (after.1
        ≡ written_after body (reply 201 none (some record { token = m.token; metadata = row })))
      × ((handle_get_config sv later agent_id (codes "Bearer " ++ m.token) inm after.0).1
          ≡ serve_config sv (record { token = row; agent = a; fleet_id = a.fleet_id }) inm s)
handle_get_config-handle_mint_token sv now later agent_id inm body p q s a pb qb pl ql there mine
      free =
    let m = mint_bearer sv.libraries.sha256 p q in
    let row = new_token now agent_id (decoded_or (λ n. n) [] body) m.prefix in
    subst
      (λ r.
        (r.1
          ≡ written_after body (reply 201 none (some record { token = m.token; metadata = row })))
        × ((handle_get_config sv later agent_id (codes "Bearer " ++ m.token) inm r.0).1
            ≡ serve_config sv (record { token = row; agent = a; fleet_id = a.fleet_id }) inm s))
      (sym (handle_mint_token-fresh sv now agent_id body p q s a there free))
      (
        refl,
        minted_config sv now later agent_id (decoded_or (λ n. n) [] body) inm p q s a pb qb pl ql
            there mine free,
      )

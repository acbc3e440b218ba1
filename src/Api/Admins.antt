-- ===== src/Api/Admins.antt =====
-- apps/api/internal/api/api.go, requireAdmin: who gets to the handlers of protected paths.
use proxydock.Api.Access.{
  actor_bootstrap, bearer_header, check_admin_auth, is_public_path, require_admin,
}
use proxydock.Api.Answers.{Response, Server, problem}
use proxydock.Api.Guard.{result_cases}
use proxydock.Auth.{parse_bearer, verify_secret}
use proxydock.Model.{AdminToken, Time}
use proxydock.Prelude.{
  ==_iff, Bool-cases, Option, Option-cases, Text, [], ap, arith, codes, false, inl, inr, nat_eq,
  none, not, refl, some, sum_cases, sym, text_eq, ◌&&◌, ◌++◌, ◌==◌, ◌∙◌, ◌≡◌, ◌≢◌, ◌⊎◌,
}
use proxydock.Prelude.GoMap.{get}
use proxydock.Store.State.{AdminTokenEntry, Store, ok}
use proxydock.Store.Tokens.{lookup_admin_token, touch_admin_token}

-- A request with the token that the server was started with.
abbrev pub Bootstrapped : Server → Text → Store → Text → Store → Type 0
Bootstrapped sv authorization s actor t =
    (sv.bootstrap_admin_token ≢ [])
    × (bearer_header authorization ≡ inr sv.bootstrap_admin_token)
    × (actor ≡ actor_bootstrap)
    × (t ≡ s)

-- A request with a stored admin token, and the store `t` in which its handler runs.
pub record ByToken (sv : Server) (now : Time) (authorization : Text) (s : Store) (actor : Text)
    (t : Store) : Type 0 where
  pub tok : Text
  pub prefix : Text
  pub secret : Text
  pub entry : AdminTokenEntry
  pub header : bearer_header authorization ≡ inr tok
  pub parsed : parse_bearer tok ≡ inr (prefix, secret)
  pub row : get prefix s.admin_tokens ≡ some entry
  pub live : entry.token.revoked_at ≡ none
  pub verified : sv.libraries.sha256 secret ≡ entry.hash
  pub named : actor ≡ codes "admin:" ++ entry.token.prefix
  pub touched : t ≡ (touch_admin_token now prefix s).0

abbrev pub Authorized : Server → Time → Text → Store → Text → Store → Type 0
Authorized sv now authorization s actor t =
    Bootstrapped sv authorization s actor t ⊎ ByToken sv now authorization s actor t

lookup_admin_token-row :
    (prefix : Text) (s : Store) (rec : AdminToken) (hash : Text)
    → lookup_admin_token prefix s ≡ ok (rec, hash)
    → (t : AdminTokenEntry) × (get prefix s.admin_tokens ≡ some t)
      × (t.token.revoked_at ≡ none)
      × (t.token ≡ rec)
      × (t.hash ≡ hash)
unfolding lookup_admin_token
lookup_admin_token-row prefix s rec hash e = elim (Option-cases (get prefix s.admin_tokens)) [
  | inl g ↦ absurd (ground arith)
  | inr (t, g) ↦ elim (Option-cases t.token.revoked_at) [
    | inr (w, r) ↦ absurd (ground arith)
    | inl r ↦ (t, g, r, ground arith, ground arith)
  ]
]

module _ (sv : Server) (now : Time) (authorization : Text) (s : Store) where
  abbrev checked : Store × Option Text
  checked = check_admin_auth sv now authorization s

  token_check :
      (tok : Text)
      → bearer_header authorization ≡ inr tok
      → (not (sv.bootstrap_admin_token == []) && tok == sv.bootstrap_admin_token) ≡ false
      → (checked ≡ (s, none))
        ⊎ ((actor : Text) × (checked.1 ≡ some actor)
            × ByToken sv now authorization s actor checked.0)
  unfolding check_admin_auth verify_secret
  token_check tok h b = elim (sum_cases (parse_bearer tok)) [
    | inl (x, p) ↦ inl (ground arith)
    | inr ((prefix, secret), p) ↦ elim (result_cases (lookup_admin_token prefix s)) [
      | inl (x, l) ↦ inl (ground arith)
      | inr ((rec, hash), l) ↦ elim (Bool-cases (sv.libraries.sha256 secret == hash)) [
        | inr v ↦ inl (ground arith)
        | inl v ↦
            let (t, g, r, same, one) = lookup_admin_token-row prefix s rec hash l in
            inr (
              codes "admin:" ++ rec.prefix,
              ground arith,
              record {
                tok = tok;
                prefix = prefix;
                secret = secret;
                entry = t;
                header = h;
                parsed = p;
                row = g;
                live = r;
                verified = (==_iff (sv.libraries.sha256 secret) hash).0 v ∙ sym one;
                named = ap (λ x. codes "admin:" ++ x.prefix) (sym same);
                touched = ground arith;
              },
            )
      ]
    ]
  ]

  check_admin_auth-Authorized :
      (checked ≡ (s, none))
      ⊎ ((actor : Text) × (checked.1 ≡ some actor)
          × Authorized sv now authorization s actor checked.0)
  unfolding check_admin_auth
  check_admin_auth-Authorized = elim (sum_cases (bearer_header authorization)) [
    | inl (x, h) ↦ inl (ground arith)
    | inr (tok, h) ↦
        elim (Bool-cases
          (not (sv.bootstrap_admin_token == []) && tok == sv.bootstrap_admin_token)) [
            | inr b ↦ elim (token_check tok h b) [
              | inl n ↦ inl n
              | inr (actor, c, k) ↦ inr (actor, c, inr k)
            ]
            | inl b ↦ inr (
              actor_bootstrap,
              ground arith,
              inl (
                (λ q. ground (arith, (==_iff sv.bootstrap_admin_token []).1 q)),
                h ∙ ap (λ z. inr z) ((==_iff tok sv.bootstrap_admin_token).0 (ground arith)),
                refl,
                ground arith,
              ),
            )
          ]
  ]

  -- On a path that is not public, a handler runs only for the holder of the bootstrap token, which
  -- is not empty, or of the secret of an admin token that has not been revoked. It then runs under
  -- that actor's name. Everyone else is answered with 401 and nothing is written.
  pub require_admin_guarded :
      {A : Type 0} (path : Text) (next : Option Text → Store → Store × Response A)
      → is_public_path path ≡ false
      → (require_admin sv now path authorization next s
          ≡ (s, problem 401 (codes "admin authentication required")))
        ⊎ ((actor : Text) × (t : Store) × Authorized sv now authorization s actor t
            × (require_admin sv now path authorization next s ≡ next (some actor) t))
  unfolding require_admin
  require_admin_guarded path next private = elim check_admin_auth-Authorized [
    | inl n ↦ inl (ground arith)
    | inr (actor, c, k) ↦ inr (actor, checked.0, k, ground arith)
  ]

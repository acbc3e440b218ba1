-- ===== src/Api/Access.antt =====
-- apps/api/internal/api/api.go (bearerHeader, isPublicPath, checkAdminAuth, requireAdmin) and
-- agent_handlers.go (authenticateAgent). The argument `authorization` is the header's value, which
-- is empty where the header is missing.
use proxydock.Api.Answers.{Response, Server, problem}
use proxydock.Auth.{parse_bearer, verify_secret}
use proxydock.Compiler.Upstreams.{trim_prefix}
use proxydock.Model.{Time}
use proxydock.Prelude.{
  Bool, Option, Text, [], codes, false, if◌then◌else◌, inl, inr, nat_eq, none, not, reverse, some,
  text_eq, true, ◌&&◌, ◌++◌, ◌==◌, ◌||◌, ◌⊎◌,
}
use proxydock.Prelude.Strings.{drop, has_prefix, trim_space}
use proxydock.Store.State.{Store, err, ok}
use proxydock.Store.Tokens.{
  TokenRecord, lookup_admin_token, lookup_token, touch_admin_token, touch_token,
}

pub data HeaderError : Type 0 where
  missing_header malformed_header empty_bearer : HeaderError

unfoldable pub bearer_header : Text → HeaderError ⊎ Text
bearer_header authorization =
    if authorization == []
    then inl missing_header
    else if not (has_prefix authorization (codes "Bearer "))
    then inl malformed_header
    else (let tok = trim_space (drop 7 authorization) in
        if tok == [] then inl empty_bearer else inr tok)

-- Every failure gives the client the same message. The time of use is noted as far as possible.
unfoldable pub authenticate_agent : Server → Time → Text → Store → Store × Option TokenRecord
unfolding bearer_header
authenticate_agent sv now authorization s = elim (bearer_header authorization) [
  | inl e ↦ (s, none)
  | inr tok ↦ elim (parse_bearer tok) [
    | inl e ↦ (s, none)
    | inr (prefix, secret) ↦ elim (lookup_token prefix s) [
      | err e ↦ (s, none)
      | ok (rec, hash) ↦
          if not (verify_secret sv.libraries.sha256 secret hash)
          then (s, none)
          else ((touch_token now prefix s).0, some rec)
    ]
  ]
]

unfoldable pub has_suffix : Text → Text → Bool
has_suffix s p = has_prefix (reverse s) (reverse p)

unfoldable pub is_public_path : Text → Bool
unfolding has_suffix
is_public_path p =
    if p == codes "/healthz" || p == codes "/api/v1/signing/pubkey" || p == codes "/metrics"
    then true
    else if has_prefix p (codes "/api/v1/agents/")
    then (let rest = trim_prefix (codes "/api/v1/agents/") p in
        has_suffix rest (codes "/config") || has_suffix rest (codes "/heartbeat"))
    else false

abbrev pub actor_bootstrap : Text
actor_bootstrap = codes "bootstrap"

-- The actor, where the call is authorized.
unfoldable pub check_admin_auth : Server → Time → Text → Store → Store × Option Text
unfolding bearer_header
check_admin_auth sv now authorization s = elim (bearer_header authorization) [
  | inl e ↦ (s, none)
  | inr tok ↦
      if not (sv.bootstrap_admin_token == []) && tok == sv.bootstrap_admin_token
      then (s, some actor_bootstrap)
      else elim (parse_bearer tok) [
        | inl e ↦ (s, none)
        | inr (prefix, secret) ↦ elim (lookup_admin_token prefix s) [
          | err e ↦ (s, none)
          | ok (rec, hash) ↦
              if not (verify_secret sv.libraries.sha256 secret hash)
              then (s, none)
              else ((touch_admin_token now prefix s).0, some (codes "admin:" ++ rec.prefix))
        ]
      ]
]

-- What requireAdmin does with a request: `next` is the wrapped handler, which sees the actor in its
-- context if there is one.
unfoldable pub require_admin :
    {A : Type 0}
    → Server
    → Time
    → Text
    → Text
    → (Option Text → Store → Store × Response A)
    → Store
    → Store × Response A
unfolding is_public_path check_admin_auth
require_admin sv now path authorization next s =
    if is_public_path path
    then next none s
    else (let (t, actor) = check_admin_auth sv now authorization s in
        elim actor [
          | none ↦ (t, problem 401 (codes "admin authentication required"))
          | some a ↦ next (some a) t
        ])

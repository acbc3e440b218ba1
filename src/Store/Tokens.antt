-- ===== src/Store/Tokens.antt =====
-- Agent tokens and admin tokens (memory.go:224-283 and 441-526).
use proxydock.Model.{AdminToken, Agent, AgentToken, Time}
use proxydock.Prelude.{
  List, Text, false, if◌then◌else◌, keep, ltb, map, nat_eq, none, some, sort, text_eq, ◌==◌,
}
use proxydock.Prelude.GoMap.{get, put, values}
use proxydock.Store.State.{
  AdminTokenEntry, Result, Store, TokenEntry, conflict, err, not_found, ok, token_revoked,
}

-- What an authenticated request knows (store.go:35-41).
pub record TokenRecord : Type 0 where
  pub token : AgentToken
  pub agent : Agent
  pub fleet_id : Text

abbrev pub new_token : Time → Text → Text → Text → AgentToken
new_token now agent_id name prefix = record {
  prefix = prefix;
  agent_id = agent_id;
  name = name;
  created_at = now;
  last_used_at = none;
  revoked_at = none;
}

unfoldable pub mint_token : Time → Text → Text → Text → Text → Store → Store × Result AgentToken
mint_token now agent_id name prefix secret_hash s = elim (get agent_id s.agents) [
  | none ↦ (s, err not_found)
  | some _ ↦ elim (get prefix s.tokens) [
    | some _ ↦ (s, err conflict)
    | none ↦
        let t = new_token now agent_id name prefix in
        let entry : TokenEntry = record { token = t; hash = secret_hash; closed = false } in
        (record s { tokens = put prefix entry s.tokens }, ok t)
  ]
]

unfoldable pub list_tokens : Text → Store → List AgentToken
list_tokens agent_id s =
    sort (λ a b. ltb a.created_at b.created_at)
      (keep (λ t. t.agent_id == agent_id) (map (λ e. e.token) (values s.tokens)))

unfoldable pub revoke_token : Time → Text → Text → Store → Store × Result (Unit {0})
revoke_token now agent_id prefix s = elim (get prefix s.tokens) [
  | none ↦ (s, err not_found)
  | some t ↦
      if t.token.agent_id == agent_id
      then (
        record s {
          tokens =
              put prefix (record t { token = record t.token { revoked_at = some now } }) s.tokens;
        },
        ok tt,
      )
      else (s, err not_found)
]

unfoldable pub lookup_token : Text → Store → Result (TokenRecord × Text)
lookup_token prefix s = elim (get prefix s.tokens) [
  | none ↦ err not_found
  | some t ↦ elim t.token.revoked_at [
    | some _ ↦ err token_revoked
    | none ↦ elim (get t.token.agent_id s.agents) [
      | none ↦ err not_found
      | some a ↦ ok (record { token = t.token; agent = a; fleet_id = a.fleet_id }, t.hash)
    ]
  ]
]

unfoldable pub touch_token : Time → Text → Store → Store × Result (Unit {0})
touch_token now prefix s = elim (get prefix s.tokens) [
  | none ↦ (s, err not_found)
  | some t ↦ (
    record s {
      tokens =
          put prefix (record t { token = record t.token { last_used_at = some now } }) s.tokens;
    },
    ok tt,
  )
]

abbrev pub new_admin_token : Time → Text → Text → AdminToken
new_admin_token now name prefix = record {
  prefix = prefix;
  name = name;
  created_at = now;
  last_used_at = none;
  revoked_at = none;
}

unfoldable pub mint_admin_token : Time → Text → Text → Text → Store → Store × Result AdminToken
mint_admin_token now name prefix secret_hash s = elim (get prefix s.admin_tokens) [
  | some _ ↦ (s, err conflict)
  | none ↦
      let t = new_admin_token now name prefix in
      let entry : AdminTokenEntry = record { token = t; hash = secret_hash } in
      (record s { admin_tokens = put prefix entry s.admin_tokens }, ok t)
]

unfoldable pub list_admin_tokens : Store → List AdminToken
list_admin_tokens s =
    sort (λ a b. ltb a.created_at b.created_at) (map (λ e. e.token) (values s.admin_tokens))

unfoldable pub lookup_admin_token : Text → Store → Result (AdminToken × Text)
lookup_admin_token prefix s = elim (get prefix s.admin_tokens) [
  | none ↦ err not_found
  | some e ↦ elim e.token.revoked_at [ some _ ↦ err token_revoked | none ↦ ok (e.token, e.hash) ]
]

unfoldable pub touch_admin_token : Time → Text → Store → Store × Result (Unit {0})
touch_admin_token now prefix s = elim (get prefix s.admin_tokens) [
  | none ↦ (s, err not_found)
  | some e ↦ (
    record s {
      admin_tokens =
          put prefix (record e { token = record e.token { last_used_at = some now } })
            s.admin_tokens;
    },
    ok tt,
  )
]

unfoldable pub revoke_admin_token : Time → Text → Store → Store × Result (Unit {0})
revoke_admin_token now prefix s = elim (get prefix s.admin_tokens) [
  | none ↦ (s, err not_found)
  | some e ↦ (
    record s {
      admin_tokens =
          put prefix (record e { token = record e.token { revoked_at = some now } }) s.admin_tokens;
    },
    ok tt,
  )
]

-- ===== src/Store/Cases/Tokens.antt =====
-- How the methods on tokens can end: to show `P` of the store after a call, show it of the
-- store as it was and of the store that the call may write.
use proxydock.Model.{Agent, Time}
use proxydock.Prelude.{
  Bool-cases, Option-cases, Text, false, inl, inr, nat_eq, none, some, text_eq, true, ◌==◌, ◌≡◌,
}
use proxydock.Prelude.GoMap.{get, put}
use proxydock.Store.State.{AdminTokenEntry, Store, TokenEntry}
use proxydock.Store.Tokens.{
  mint_admin_token, mint_token, new_admin_token, new_token, revoke_admin_token, revoke_token,
  touch_admin_token, touch_token,
}

module _ (P : Store → Type 0) (s : Store) (same : P s) where
  pub mint_token_cases :
      (now : Time) (agent_id name prefix hash : Text)
      → ((a : Agent)
          → get agent_id s.agents ≡ some a
          → get prefix s.tokens ≡ none
          → P (record s {
            tokens =
                put prefix
                  (record {
                    token = new_token now agent_id name prefix;
                    hash = hash;
                    closed = false;
                  })
                  s.tokens;
          }))
      → P (mint_token now agent_id name prefix hash s).0
  unfolding mint_token
  mint_token_cases now agent_id name prefix hash made =
      elim (Option-cases (get agent_id s.agents)) [
        | inl e0 ↦ rw (e0, mint_token) same
        | inr (a0, e0) ↦ elim (Option-cases (get prefix s.tokens)) [
          | inl e1 ↦ rw (e0, e1, mint_token) (made a0 e0 e1)
          | inr (_, e1) ↦ rw (e0, e1, mint_token) same
        ]
      ]

  pub revoke_token_cases :
      (now : Time) (agent_id prefix : Text)
      → ((t : TokenEntry)
          → get prefix s.tokens ≡ some t
          → (t.token.agent_id == agent_id) ≡ true
          → P (record s {
            tokens =
                put prefix (record t { token = record t.token { revoked_at = some now } }) s.tokens;
          }))
      → P (revoke_token now agent_id prefix s).0
  unfolding revoke_token
  revoke_token_cases now agent_id prefix made = elim (Option-cases (get prefix s.tokens)) [
    | inl e0 ↦ rw (e0, revoke_token) same
    | inr (t0, e0) ↦ elim (Bool-cases (t0.token.agent_id == agent_id)) [
      | inl e1 ↦ rw (e0, e1, revoke_token) (made t0 e0 e1)
      | inr e1 ↦ rw (e0, e1, revoke_token) same
    ]
  ]

  pub touch_token_cases :
      (now : Time) (prefix : Text)
      → ((t : TokenEntry)
          → get prefix s.tokens ≡ some t
          → P (record s {
            tokens =
                put prefix
                  (record t { token = record t.token { last_used_at = some now } })
                  s.tokens;
          }))
      → P (touch_token now prefix s).0
  unfolding touch_token
  touch_token_cases now prefix made = elim (Option-cases (get prefix s.tokens)) [
    | inl e0 ↦ rw (e0, touch_token) same
    | inr (t0, e0) ↦ rw (e0, touch_token) (made t0 e0)
  ]

  pub mint_admin_token_cases :
      (now : Time) (name prefix hash : Text)
      → (get prefix s.admin_tokens ≡ none
          → P (record s {
            admin_tokens =
                put prefix
                  (record { token = new_admin_token now name prefix; hash = hash })
                  s.admin_tokens;
          }))
      → P (mint_admin_token now name prefix hash s).0
  unfolding mint_admin_token
  mint_admin_token_cases now name prefix hash made =
      elim (Option-cases (get prefix s.admin_tokens)) [
        | inl e0 ↦ rw (e0, mint_admin_token) (made e0)
        | inr (_, e0) ↦ rw (e0, mint_admin_token) same
      ]

  pub revoke_admin_token_cases :
      (now : Time) (prefix : Text)
      → ((t : AdminTokenEntry)
          → get prefix s.admin_tokens ≡ some t
          → P (record s {
            admin_tokens =
                put prefix
                  (record t { token = record t.token { revoked_at = some now } })
                  s.admin_tokens;
          }))
      → P (revoke_admin_token now prefix s).0
  unfolding revoke_admin_token
  revoke_admin_token_cases now prefix made = elim (Option-cases (get prefix s.admin_tokens)) [
    | inl e0 ↦ rw (e0, revoke_admin_token) same
    | inr (t0, e0) ↦ rw (e0, revoke_admin_token) (made t0 e0)
  ]

  pub touch_admin_token_cases :
      (now : Time) (prefix : Text)
      → ((t : AdminTokenEntry)
          → get prefix s.admin_tokens ≡ some t
          → P (record s {
            admin_tokens =
                put prefix
                  (record t { token = record t.token { last_used_at = some now } })
                  s.admin_tokens;
          }))
      → P (touch_admin_token now prefix s).0
  unfolding touch_admin_token
  touch_admin_token_cases now prefix made = elim (Option-cases (get prefix s.admin_tokens)) [
    | inl e0 ↦ rw (e0, touch_admin_token) same
    | inr (t0, e0) ↦ rw (e0, touch_admin_token) (made t0 e0)
  ]

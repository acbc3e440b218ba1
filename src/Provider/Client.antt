-- ===== src/Provider/Client.antt =====
-- providers/traefik-fleet/client.go and verify.go: one request for the configuration, the checks on
-- the answer, and the heartbeat. What encoding/json, encoding/base64, crypto/ed25519 and net/http do
-- is a parameter; an answer of the manager is a function of the request.
use proxydock.Prelude.{
  Bool, List, Octets, Option, Text, [], codes, if◌then◌else◌, inl, inr, length, nat_eq, none, not,
  some, take, text_eq, ℕ, ◌&&◌, ◌*◌, ◌++◌, ◌==◌, ◌^◌, ◌||◌, ◌⊎◌,
}
use proxydock.Prelude.Strings.{trim_space}
use proxydock.Provider.Config.{Config, Resolved}

pub record ConfigResponse : Type 0 where
  pub fleet_id : Text
  pub agent_id : Text
  pub revision : ℕ
  pub etag : Text
  pub generated_at : ℕ
  pub config : Text
  pub signature : Text
  pub signature_alg : Text

-- The struct of cache.go.
pub record CacheFile : Type 0 where
  pub saved_at : ℕ
  pub revision : ℕ
  pub etag : Text
  pub response : Octets

-- encoding/json, encoding/base64, ed25519.Verify and the parsing of a URL by net/http.
pub record Externals : Type 0 where
  pub decode_response : Octets → Option ConfigResponse
  pub encode_response : ConfigResponse → Option Octets
  pub decode_cache : Octets → Option CacheFile
  pub encode_cache : CacheFile → Option Octets
  pub decode_base64 : Text → Option (List ℕ)
  pub ed25519_verify : List ℕ → Text → List ℕ → Bool
  pub parses_url : Text → Bool

-- What one polling cycle returns, with the ETag: there is a response exactly where the struct's
-- NotModified is false.
pub data FetchResult : Type 0 where
  not_modified : Text → FetchResult
  modified : ConfigResponse → Text → FetchResult

pub record Request : Type 0 where
  pub url : Text
  pub authorization : Text
  pub if_none_match : Option Text

-- What net/http gives back, with the bytes of the body; one that cannot be read is `none`.
pub record Reply : Type 0 where
  pub status_code : ℕ
  pub etag : Text
  pub body : Option Octets

pub data ResponseError : Type 0 where
  agent_mismatch fleet_mismatch empty_payload empty_object : ResponseError

pub data SignatureError : Type 0 where
  unsupported_alg missing_signature bad_key key_length bad_signature not_verified : SignatureError

pub data TokenError : Type 0 where
  unreadable_file empty_file no_token : TokenError

pub data FetchError : Type 0 where
  bad_request transport read_body decode_body auth_failed : FetchError
  token_failed : TokenError → FetchError
  bad_response : ResponseError → FetchError
  signature_verify : SignatureError → FetchError
  unexpected_status : ℕ → FetchError

-- `none` is no error.
unfoldable pub validate_response : Resolved → ConfigResponse → Option ResponseError
validate_response r cr =
    if not (cr.agent_id == []) && not (cr.agent_id == r.agent_id)
    then some agent_mismatch
    else if not (cr.fleet_id == []) && not (cr.fleet_id == r.fleet_id)
    then some fleet_mismatch
    else if cr.config == [] || trim_space cr.config == codes "null"
    then some empty_payload
    else if trim_space cr.config == codes "{}"
    then some empty_object
    else none

unfoldable pub verify_signature : Externals → Resolved → Text → Text → Text → Option SignatureError
verify_signature x r raw signature alg =
    if r.signing_public_key == []
    then none
    else if not (alg == []) && not (alg == codes "ed25519")
    then some unsupported_alg
    else if signature == []
    then some missing_signature
    else elim (x.decode_base64 r.signing_public_key) [
      | none ↦ some bad_key
      | some key ↦
          if not (length key == 32) then some key_length else elim (x.decode_base64 signature) [
            | none ↦ some bad_signature
            | some sig ↦ if x.ed25519_verify key raw sig then none else some not_verified
          ]
    ]

-- `file` is the content of the token file, which is read each time.
unfoldable pub load_token : Config → Resolved → Option Text → TokenError ⊎ Text
load_token c r file =
    if not (c.token_file == [])
    then elim file [
      | none ↦ inl unreadable_file
      | some b ↦ let t = trim_space b in if t == [] then inl empty_file else inr t
    ]
    else if not (r.token == [])
    then inr r.token
    else inl no_token

unfoldable pub config_url : Resolved → Text
config_url r = r.endpoint ++ (codes "/api/v1/agents/" ++ (r.agent_id ++ codes "/config"))

-- The checks on a body that came with status 200. io.LimitReader cuts it off after 4 << 20 bytes.
unfoldable pub read_response : Externals → Resolved → Reply → FetchError ⊎ FetchResult
unfolding validate_response verify_signature
read_response x r reply = elim reply.body [
  | none ↦ inl read_body
  | some body ↦ elim (x.decode_response (take (4 * 2 ^ 20) body)) [
    | none ↦ inl decode_body
    | some cr ↦ elim (validate_response r cr) [
      | some e ↦ inl (bad_response e)
      | none ↦ elim (verify_signature x r cr.config cr.signature cr.signature_alg) [
        | some e ↦ inl (signature_verify e)
        | none ↦ inr (modified cr (if reply.etag == [] then cr.etag else reply.etag))
      ]
    ]
  ]
]

unfoldable pub read_reply : Externals → Resolved → Reply → FetchError ⊎ FetchResult
unfolding read_response
read_reply x r reply =
    if reply.status_code == 304
    then inr (not_modified reply.etag)
    else if reply.status_code == 200
    then read_response x r reply
    else if reply.status_code == 401 || reply.status_code == 403
    then inl auth_failed
    else inl (unexpected_status reply.status_code)

unfoldable pub fetch_config :
    Externals
    → Config
    → Resolved
    → Option Text
    → (Request → Option Reply)
    → Text
    → FetchError ⊎ FetchResult
unfolding load_token config_url read_reply
fetch_config x c r file serve if_none_match =
    if not (x.parses_url (config_url r)) then inl bad_request else elim (load_token c r file) [
      | inl e ↦ inl (token_failed e)
      | inr token ↦
          elim (serve record {
            url = config_url r;
            authorization = codes "Bearer " ++ token;
            if_none_match = if if_none_match == [] then none else some if_none_match;
          }) [ none ↦ inl transport | some reply ↦ read_reply x r reply ]
    ]

-- What a heartbeat says; the rest of its body is constant.
pub record Report : Type 0 where
  pub agent_id : Text
  pub current_revision : ℕ
  pub last_error : Option FetchError

unfoldable pub heartbeat_url : Resolved → Text
heartbeat_url r = r.endpoint ++ (codes "/api/v1/agents/" ++ (r.agent_id ++ codes "/heartbeat"))

-- The heartbeat that is sent, if one is. What the manager answers is only logged.
unfoldable pub heartbeat :
    Externals → Config → Resolved → Option Text → ℕ → Option FetchError → Option Report
unfolding load_token heartbeat_url
heartbeat x c r file revision last_error =
    if not (x.parses_url (heartbeat_url r)) then none else elim (load_token c r file) [
      | inl e ↦ none
      | inr token ↦
          some
            record { agent_id = r.agent_id; current_revision = revision; last_error = last_error }
    ]

-- ===== src/Api/Answers.antt =====
-- apps/api/internal/api/api.go: the answers of handlers. An answer is the status code with the
-- ETag header, if it is set, and the body, if there is one.
use proxydock.Compiler.Compile.{Failure, Libraries}
use proxydock.Compiler.Middlewares.{RenderError}
use proxydock.Labels.{ParseError}
use proxydock.Model.{Revision}
use proxydock.Prelude.{
  Option, Text, codes, if◌then◌else◌, nat_eq, none, some, text_eq, ℕ, ◌++◌, ◌==◌,
}
use proxydock.Store.State.{
  Result, Store, StoreError, conflict, err, invalid_input, not_found, ok, token_mismatch,
  token_revoked,
}

pub record Server : Type 0 where
  pub libraries : Libraries
  -- The base64 signature of a payload, if the server has a key.
  pub signer : Option (Text → Text)
  pub bootstrap_admin_token : Text
  -- The text of an error of Compile.
  pub describe : Failure → Text
  -- The text of an error of labels.Parse.
  pub describe_label : ParseError → Text
  -- That of an error of ValidateMiddlewares.
  pub describe_render : RenderError → Text
  -- json.Marshal of an event of a fleet with a revision.
  pub encode_event : Text → Text → Revision → Option Text

pub data Response (A : Type 0) : Type 0 where
  problem : ℕ → Text → Response A
  reply : ℕ → Option Text → Option A → Response A
  -- decodeBody has written status 400 and its error, and the handler went on and wrote the rest.
  refused_then : Text → Response A → Response A

unfoldable pub error_status : StoreError → ℕ
error_status not_found = 404
error_status conflict = 409
error_status invalid_input = 400
error_status token_revoked = 401
error_status token_mismatch = 500

unfoldable pub store_error : {A : Type 0} → StoreError → Response A
unfolding error_status
store_error e =
    let status = error_status e in
    problem status (
      if status == 500
      then codes "internal error"
      else if status == 404
      then codes "not found"
      else if status == 409
      then codes "already exists"
      else if status == 400
      then codes "invalid input"
      else codes "token revoked")

-- What decodeBody finds: no body, a body that is refused with what had been read of it, or a body.
pub data Decoded (A : Type 0) : Type 0 where
  no_body : Decoded A
  bad_json : Text → A → Decoded A
  decoded : A → Decoded A

abbrev pub decoded_or {ℓ} : {A : Type 0} {B : Type ℓ} → (A → B) → B → Decoded A → B
decoded_or f b no_body = b
decoded_or f b (bad_json text a) = f a
decoded_or f b (decoded a) = f a

-- Where decodeBody has refused the body and the handler goes on, what the handler writes comes after
-- the error in the same response.
unfoldable pub written_after : {A B : Type 0} → Decoded A → Response B → Response B
written_after no_body r = r
written_after (bad_json text a) r = refused_then (codes "invalid JSON: " ++ text) r
written_after (decoded a) r = r

-- A body that must decode: where decodeBody refuses it, the handler returns. No body leaves the
-- zero value.
unfoldable pub with_body :
    {A B : Type 0} → A → Decoded A → (A → Store → Store × Response B) → Store → Store × Response B
with_body zero_value no_body go s = go zero_value s
with_body zero_value (bad_json text a) go s = (s, problem 400 (codes "invalid JSON: " ++ text))
with_body zero_value (decoded a) go s = go a s

-- The answers for a call of the store: its value with a status, or no content.
unfoldable pub answer : {A : Type 0} → ℕ → Result A → Response A
unfolding store_error
answer status (ok a) = reply status none (some a)
answer status (err e) = store_error e

unfoldable pub no_content : Result (Unit {0}) → Response (Unit {0})
unfolding store_error
no_content (ok x) = reply 204 none none
no_content (err e) = store_error e

unfoldable pub and_answer : {A B : Type 0} → (A → Response B) → Store × A → Store × Response B
and_answer f (s, a) = (s, f a)

-- ===== src/Api/Delivery.antt =====
-- apps/api/internal/api/agent_handlers.go against providers/traefik-fleet: what the manager compiles
-- and signs for an agent, and the checks of the plugin.
use proxydock.Api.Answers.{Server}
use proxydock.Api.Built.{build-snapshot}
use proxydock.Api.Configs.{
  ConfigBody, agent_hosts, build_agent_config_response, published_body, recompiled_body,
}
use proxydock.Api.Etags.{compile-compiled}
use proxydock.Compiler.Compile.{Compiled, Libraries, compile, compiled, document}
use proxydock.Compiler.Middlewares.{put_if}
use proxydock.Model.{Agent, Certificate, ProxyHost, Revision, json}
use proxydock.Model.Value.{Any, fields, obj}
use proxydock.Prelude.{
  Bool-cases, List, Octets, Option, Option-cases, Text, [], ap, arith, codes, inl, inr, length,
  nat_eq, none, refl, some, subst, sym, take, text_beq_iff, text_eq, true, ℕ, ◌*◌, ◌==◌, ◌^◌, ◌∙◌,
  ◌∷◌, ◌≡◌, ◌≢◌,
}
use proxydock.Prelude.GoMap.{GoMap, put}
use proxydock.Prelude.Strings.{trim_space}
use proxydock.Provider.Client.{
  ConfigResponse, Externals, modified, read_reply, read_response, validate_response,
  verify_signature,
}
use proxydock.Provider.Config.{Resolved}

-- The fields of the body, as the plugin decodes them.
abbrev pub wire : ConfigBody → ConfigResponse
wire b = record {
  fleet_id = b.fleet_id;
  agent_id = b.agent_id;
  revision = b.revision;
  etag = b.etag;
  generated_at = b.generated_at;
  config = b.config;
  signature = b.signature;
  signature_alg = b.signature_alg;
}

-- A payload that the plugin does not take for an empty one.
abbrev pub Serious : Text → Type 0
Serious t = (t ≢ []) × (trim_space t ≢ codes "null") × (trim_space t ≢ codes "{}")

-- json.Marshal does not print an object that has a key as null or {}.
abbrev pub PrintsObjects : Libraries → Type 0
PrintsObjects l =
    (k : Text) (v : Any) (m : GoMap Text Any) (t : Text)
    → l.marshal (obj (fields ((k, v) ∷ m))) ≡ some t
    → Serious t

-- The plugin is configured with the public key of the signer: ed25519 verifies what was signed.
pub record Trusts (x : Externals) (r : Resolved) (sign : Text → Text) : Type 0 where
  pub key : List ℕ
  pub configured : x.decode_base64 r.signing_public_key ≡ some key
  pub key_size : length key ≡ 32
  pub signed : (m : Text) → sign m ≢ []
  pub verifies :
      (m : Text)
      → (sig : List ℕ) × (x.decode_base64 (sign m) ≡ some sig) × (x.ed25519_verify key m sig ≡ true)

put-cons :
    (k : Text) (v : Any) (e : Text × Any) (m : GoMap Text Any)
    → (f : Text × Any) × (n : GoMap Text Any) × (put k v (e ∷ m) ≡ f ∷ n)
unfolding put
put-cons k v (j, w) m = elim (Bool-cases (j == k)) [
  | inl same ↦ ((k, v), m, ground arith)
  | inr other ↦ ((j, w), put k v m, ground arith)
]

put_if-cons :
    (o : Option Any) (k : Text) (e : Text × Any) (m : GoMap Text Any)
    → (f : Text × Any) × (n : GoMap Text Any) × (put_if o k (e ∷ m) ≡ f ∷ n)
unfolding put_if
put_if-cons none k e m = (e, m, refl)
put_if-cons (some v) k e m = put-cons k v e m

-- The document of Compile always has a key, since the http section is always written.
document-cons :
    (http_section : Any) (t u c : Option Any)
    → (k : Text) × (v : Any) × (m : GoMap Text Any) × (document http_section t u c
        ≡ obj (fields ((k, v) ∷ m)))
unfolding document
document-cons http_section t u c =
    let (e, m, p) = put_if-cons t (codes "tcp") (codes "http", http_section) [] in
    let (f, n, q) = put_if-cons u (codes "udp") e m in
    let (g, o, r) = put_if-cons c (codes "tls") f n in (g.0, g.1, o, rw p (rw q (rw r refl)))

compiled-marshal :
    (l : Libraries) (d : Any) (r : Compiled) → compiled l d ≡ inr r → l.marshal d ≡ some r.config
unfolding compiled
compiled-marshal l d r e = elim (Option-cases (l.marshal d)) [
  | inl m ↦ absurd (ground arith)
  | inr (body, m) ↦ m ∙ ap (λ z. some z) (ground arith)
]

compile-Serious :
    (l : Libraries) (hs : List ProxyHost) (certs : List Certificate) (r : Compiled)
    → PrintsObjects l
    → compile l hs certs ≡ inr r
    → Serious r.config
compile-Serious l hs certs r prints e =
    let (section, t, u, c, made) = compile-compiled l hs certs r e in
    let (k, v, m, d) = document-cons section t u c in
    let printed = compiled-marshal l (document section t u c) r made in
    prints k v m r.config (sym (ap l.marshal d) ∙ printed)

check_passes :
    (x : Externals) (r : Resolved) (sign : Text → Text) (m : Text)
    → Trusts x r sign
    → verify_signature x r m (sign m) (codes "ed25519") ≡ none
unfolding verify_signature
check_passes x r sign m trusts = elim (Bool-cases (r.signing_public_key == [])) [
  | inl e ↦ ground arith
  | inr e ↦
      let (sig, from_base64, verified) = trusts.verifies m in
      ground (
        arith,
        trusts.signed m,
        trusts.configured,
        trusts.key_size,
        text_beq_iff (sign m) [],
        text_beq_iff (codes "ed25519") (codes "ed25519"),
      )
]

response_passes :
    (r : Resolved) (cr : ConfigResponse)
    → cr.agent_id ≡ r.agent_id
    → cr.fleet_id ≡ r.fleet_id
    → Serious cr.config
    → validate_response r cr ≡ none
unfolding validate_response
response_passes r cr agent fleet (full, no_null, no_braces) = ground (
  arith,
  text_beq_iff cr.agent_id r.agent_id,
  text_beq_iff cr.fleet_id r.fleet_id,
  text_beq_iff cr.config [],
  text_beq_iff (trim_space cr.config) (codes "null"),
  text_beq_iff (trim_space cr.config) (codes "{}"),
)

recompiled_signature :
    (signer : Option (Text → Text)) (sign : Text → Text) (res : Compiled) (from b : ConfigBody)
    → signer ≡ some sign
    → b ≡ recompiled_body signer res from
    → (b.signature ≡ sign b.config) × (b.signature_alg ≡ codes "ed25519")
unfolding recompiled_body
recompiled_signature signer sign res from b e same =
    let whole : b ≡ recompiled_body (some sign) res from =
      same ∙ ap (λ z. recompiled_body z res from) e in
    (
      ap (λ z. z.signature) whole ∙ ap sign (sym (ap (λ z. z.config) whole)),
      ap (λ z. z.signature_alg) whole,
    )

-- A configuration that is compiled for an agent whose revision has a snapshot of hosts, and signed by
-- the manager, passes all checks of the plugin of that agent: a reply with it is read as the new
-- configuration, under the ETag that it has. Conditions: the plugin names this agent and fleet and
-- trusts the manager's key, the plugin decodes the reply's bytes, cut off after 4 MiB, to the
-- fields of the body,
-- json.Marshal prints an object that has a key as such.
pub read_reply-build_agent_config_response :
    (x : Externals) (r : Resolved) (sv : Server) (sign : Text → Text) (a : Agent) (rev : Revision)
    (b : ConfigBody) (h : ProxyHost) (hs : List ProxyHost) (bytes : Octets)
    → PrintsObjects sv.libraries
    → sv.signer ≡ some sign
    → Trusts x r sign
    → a.id ≡ r.agent_id
    → rev.fleet_id ≡ r.fleet_id
    → rev.source_proxy_hosts ≡ json (h ∷ hs)
    → build_agent_config_response sv a rev ≡ inr b
    → x.decode_response (take (4 * 2 ^ 20) bytes) ≡ some (wire b)
    → read_reply x r record { status_code = 200; etag = b.etag; body = some bytes }
      ≡ inr (modified (wire b) b.etag)
unfolding recompiled_body read_reply read_response
read_reply-build_agent_config_response x r sv sign a rev b h hs bytes prints signer trusts agent
      fleet hosts built wired =
    let (certs, res, compiled_for, same) = build-snapshot sv a rev b h hs hosts built in
    let valid =
      response_passes r (wire b) (ap (λ z. z.agent_id) same ∙ agent)
        (ap (λ z. z.fleet_id) same ∙ fleet)
        (subst Serious (sym (ap (λ z. z.config) same)) (
          compile-Serious sv.libraries (agent_hosts a.labels (h ∷ hs)) certs res prints
            compiled_for)) in
    let (signature, alg) =
      recompiled_signature sv.signer sign res (published_body a rev) b signer same in
    let verified : verify_signature x r b.config b.signature b.signature_alg ≡ none =
      subst (λ z. verify_signature x r b.config z b.signature_alg ≡ none) (sym signature)
        (subst (λ z. verify_signature x r b.config (sign b.config) z ≡ none) (sym alg)
          (check_passes x r sign b.config trusts)) in
    rw (wired, valid, verified, read_reply, read_response) (ground (arith))

-- ===== src/Provider/Vetting.antt =====
-- providers/traefik-fleet/client.go and verify.go: what an answer has passed before it is sent on.
use proxydock.Prelude.{
  ==_iff, All, All-map, Bool, Bool-cases, List, Octets, Option, Option-cases, Text, [], all, ap,
  arith, beq_false, codes, false, if◌then◌else◌, inl, inr, length, nat_eq, none, not, refl, some,
  subst, sum_cases, take, text_eq, true, ℕ, ◌&&◌, ◌*◌, ◌++◌, ◌==◌, ◌^◌, ◌∙◌, ◌∷◌, ◌≡◌, ◌≢◌, ◌⊎◌,
}
use proxydock.Prelude.Sorting.{Elem}
use proxydock.Prelude.Strings.{trim_space}
use proxydock.Provider.Cache.{CacheError, Disk, load_cache}
use proxydock.Provider.Client.{
  CacheFile, ConfigResponse, Externals, FetchError, FetchResult, Reply, Request, ResponseError,
  config_url, fetch_config, load_token, modified, not_modified, read_reply, read_response,
  validate_response, verify_signature,
}
use proxydock.Provider.Config.{Config, Resolved}
use proxydock.Provider.Loop.{
  Cycle, Provider, finish_poll, poll, polls, provide, send, start, start_checked, start_decoded,
  start_loaded,
}

-- What a response that is addressed to this agent is, with a configuration in it.
pub record IsAddressed (r : Resolved) (cr : ConfigResponse) : Type 0 where
  pub agent : (cr.agent_id ≡ []) ⊎ (cr.agent_id ≡ r.agent_id)
  pub fleet : (cr.fleet_id ≡ []) ⊎ (cr.fleet_id ≡ r.fleet_id)
  pub payload : cr.config ≢ []
  pub not_null : trim_space cr.config ≢ codes "null"
  pub not_object : trim_space cr.config ≢ codes "{}"

-- The signature of a response verifies with the key of the settings.
pub record IsSigned (x : Externals) (r : Resolved) (cr : ConfigResponse) : Type 0 where
  pub key : List ℕ
  pub sig : List ℕ
  pub key_decoded : x.decode_base64 r.signing_public_key ≡ some key
  pub key_length : length key ≡ 32
  pub sig_decoded : x.decode_base64 cr.signature ≡ some sig
  pub verified : x.ed25519_verify key cr.config sig ≡ true

-- The request of a fetch.
unfoldable pub config_request : Resolved → Text → Text → Request
config_request r if_none_match token = record {
  url = config_url r;
  authorization = codes "Bearer " ++ token;
  if_none_match = if if_none_match == [] then none else some if_none_match;
}

-- A response of the manager: it is decoded from the first 4 MiB of the body of a reply with status
-- 200, which the manager gave to the plugin's request in one of the cycles.
pub record IsServed (x : Externals) (r : Resolved) (ys : List Cycle) (cr : ConfigResponse)
    : Type 0 where
  pub cycle : Cycle
  pub is_cycle : Elem cycle ys
  pub etag : Text
  pub token : Text
  pub reply : Reply
  pub body : Octets
  pub served : cycle.serve (config_request r etag token) ≡ some reply
  pub status : reply.status_code ≡ 200
  pub has_body : reply.body ≡ some body
  pub decoded : x.decode_response (take (4 * 2 ^ 20) body) ≡ some cr

-- A response that stands in the cache file.
pub record IsCached (x : Externals) (d : Disk) (cr : ConfigResponse) : Type 0 where
  pub bytes : Octets
  pub file : CacheFile
  pub on_disk : d.cache ≡ some bytes
  pub file_decoded : x.decode_cache bytes ≡ some file
  pub decoded : x.decode_response file.response ≡ some cr

-- The configuration of a response of the manager that is addressed to this agent and, with a key,
-- signed.
abbrev pub Vetted : Externals → Resolved → List Cycle → Text → Type 0
Vetted x r ys config =
    (cr : ConfigResponse) × (cr.config ≡ config)
    × IsServed x r ys cr
    × IsAddressed r cr
    × ((r.signing_public_key ≡ []) ⊎ IsSigned x r cr)

-- The configuration of a response in the cache file that is addressed to this agent.
abbrev pub Cached : Externals → Resolved → Disk → Text → Type 0
Cached x r d config =
    (cr : ConfigResponse) × (cr.config ≡ config) × IsCached x d cr × IsAddressed r cr

All-Elem : (ts : List Text) → All (λ t. Elem t ts) ts
All-Elem [] = tt
All-Elem (t ∷ ts) =
    (inl refl, All-map (λ z. Elem z ts) (λ z. Elem z (t ∷ ts)) ts (λ z at. inr at) (All-Elem ts))

or_equal : (a b : Text) → (not (a == []) && not (a == b)) ≡ false → (a ≡ []) ⊎ (a ≡ b)
or_equal a b h = ground (arith, ==_iff a [], ==_iff a b)

pub validate_response_tests :
    (r : Resolved) (cr : ConfigResponse)
    → validate_response r cr ≡ none
    → ((not (cr.agent_id == []) && not (cr.agent_id == r.agent_id)) ≡ false)
      × ((not (cr.fleet_id == []) && not (cr.fleet_id == r.fleet_id)) ≡ false)
      × ((cr.config == []) ≡ false)
      × ((trim_space cr.config == codes "null") ≡ false)
      × ((trim_space cr.config == codes "{}") ≡ false)
unfolding validate_response
validate_response_tests r cr h = ground arith

pub validate_response-IsAddressed :
    (r : Resolved) (cr : ConfigResponse) → validate_response r cr ≡ none → IsAddressed r cr
validate_response-IsAddressed r cr h =
    let (a, f, c, n, o) = validate_response_tests r cr h in
    record {
      agent = or_equal _ _ a;
      fleet = or_equal _ _ f;
      payload = beq_false _ _ c;
      not_null = beq_false _ _ n;
      not_object = beq_false _ _ o;
    }

pub verify_signature-IsSigned :
    (x : Externals) (r : Resolved) (cr : ConfigResponse)
    → verify_signature x r cr.config cr.signature cr.signature_alg ≡ none
    → (r.signing_public_key == []) ≡ false
    → IsSigned x r cr
unfolding verify_signature
verify_signature-IsSigned x r cr h m = elim (Option-cases (x.decode_base64 r.signing_public_key)) [
  | inl k ↦ absurd (ground arith)
  | inr (key, k) ↦ elim (Option-cases (x.decode_base64 cr.signature)) [
    | inl s ↦ absurd (ground arith)
    | inr (sig, s) ↦ record {
      key = key;
      sig = sig;
      key_decoded = k;
      key_length = ground arith;
      sig_decoded = s;
      verified = ground arith;
    }
  ]
]

-- What a fetch that brings a configuration has read and checked.
read_response_passes :
    (x : Externals) (r : Resolved) (reply : Reply) (cr : ConfigResponse) (etag : Text)
    → read_response x r reply ≡ inr (modified cr etag)
    → (body : Octets) × (reply.body ≡ some body)
      × (x.decode_response (take (4 * 2 ^ 20) body) ≡ some cr)
      × (validate_response r cr ≡ none)
      × (verify_signature x r cr.config cr.signature cr.signature_alg ≡ none)
unfolding read_response
read_response_passes x r reply cr etag h = elim (Option-cases reply.body) [
  | inl b ↦ absurd (ground arith)
  | inr (body, b) ↦ elim (Option-cases (x.decode_response (take (4 * 2 ^ 20) body))) [
    | inl d ↦ absurd (ground arith)
    | inr (got, d) ↦ elim (Option-cases (validate_response r got)) [
      | inr (e, v) ↦ absurd (ground arith)
      | inl v ↦
          elim (Option-cases (verify_signature x r got.config got.signature got.signature_alg)) [
            | inr (e, s) ↦ absurd (ground arith)
            | inl s ↦
                let same : got ≡ cr = ground arith in
                (
                  body,
                  b,
                  d ∙ ap (λ z. some z) same,
                  subst (λ z. validate_response r z ≡ none) same v,
                  subst (λ z. verify_signature x r z.config z.signature z.signature_alg ≡ none) same
                      s,
                )
          ]
    ]
  ]
]

read_reply_modified :
    (x : Externals) (r : Resolved) (reply : Reply) (cr : ConfigResponse) (etag : Text)
    → read_reply x r reply ≡ inr (modified cr etag)
    → ((reply.status_code == 200) ≡ true) × (read_response x r reply ≡ inr (modified cr etag))
unfolding read_reply
read_reply_modified x r reply cr etag h = ground arith

-- A configuration comes in a reply of the manager to the request with that ETag.
pub fetch_config_modified :
    (x : Externals) (c : Config) (r : Resolved) (file : Option Text)
    (serve : Request → Option Reply) (if_none_match : Text) (cr : ConfigResponse) (etag : Text)
    → fetch_config x c r file serve if_none_match ≡ inr (modified cr etag)
    → (token : Text) × (reply : Reply) × (serve (config_request r if_none_match token) ≡ some reply)
      × ((reply.status_code == 200) ≡ true)
      × (read_response x r reply ≡ inr (modified cr etag))
unfolding fetch_config config_request
fetch_config_modified x c r file serve if_none_match cr etag h =
    elim (Bool-cases (x.parses_url (config_url r))) [
      | inr u ↦ absurd (ground arith)
      | inl u ↦ elim (sum_cases (load_token c r file)) [
        | inl (e, t) ↦ absurd (ground arith)
        | inr (token, t) ↦ elim (Option-cases (serve (config_request r if_none_match token))) [
          | inl s ↦ absurd (ground arith)
          | inr (reply, s) ↦
              let got : read_reply x r reply ≡ inr (modified cr etag) = ground arith in
              let (fine, m) = read_reply_modified x r reply cr etag got in
              (token, reply, s, fine, m)
        ]
      ]
    ]

pub fetch_config_valid :
    (x : Externals) (c : Config) (r : Resolved) (file : Option Text)
    (serve : Request → Option Reply) (if_none_match : Text) (cr : ConfigResponse) (etag : Text)
    → fetch_config x c r file serve if_none_match ≡ inr (modified cr etag)
    → validate_response r cr ≡ none
fetch_config_valid x c r file serve if_none_match cr etag h =
    let (_, reply, _, _, m) = fetch_config_modified x c r file serve if_none_match cr etag h in
    let (_, _, _, v, _) = read_response_passes x r reply cr etag m in v

fetch_config-Vetted :
    (x : Externals) (c : Config) (r : Resolved) (ys : List Cycle) (y : Cycle) (if_none_match : Text)
    (cr : ConfigResponse) (etag : Text)
    → Elem y ys
    → fetch_config x c r y.token_file y.serve if_none_match ≡ inr (modified cr etag)
    → Vetted x r ys cr.config
fetch_config-Vetted x c r ys y if_none_match cr etag at h =
    let (token, reply, s, fine, m) =
      fetch_config_modified x c r y.token_file y.serve if_none_match cr etag h in
    let (body, b, d, v, g) = read_response_passes x r reply cr etag m in
    let from : IsServed x r ys cr = record {
      cycle = y;
      is_cycle = at;
      etag = if_none_match;
      token = token;
      reply = reply;
      body = body;
      served = s;
      status = (==_iff reply.status_code 200).0 fine;
      has_body = b;
      decoded = d;
    } in
    (
      cr,
      refl,
      from,
      validate_response-IsAddressed r cr v,
      elim (Bool-cases (r.signing_public_key == [])) [
        | inl e ↦ inl ((==_iff r.signing_public_key []).0 e)
        | inr e ↦ inr (verify_signature-IsSigned x r cr g e)
      ],
    )

-- What a load of the cache file gives stands in it.
load_cache_read :
    (x : Externals) (readable : Bool) (path : Text) (d : Disk) (cf : CacheFile)
    → load_cache x readable path d ≡ inr (some cf)
    → (bytes : Octets) × (d.cache ≡ some bytes) × (x.decode_cache bytes ≡ some cf)
unfolding load_cache
load_cache_read x readable path d cf h = elim (Option-cases d.cache) [
  | inl e ↦ absurd (ground arith)
  | inr (bytes, e) ↦ elim (Option-cases (x.decode_cache bytes)) [
    | inl f ↦ absurd (ground arith)
    | inr (got, f) ↦ let same : got ≡ cf = ground arith in (bytes, e, f ∙ ap (λ z. some z) same)
  ]
]

module _ (x : Externals) (c : Config) (r : Resolved) where
  send-All :
      (P : Text → Type 0) (accepts : Bool) (cr : ConfigResponse) (sent : List Text)
      → P cr.config
      → All P sent
      → All P (send x c r accepts cr sent)
  unfolding send
  send-All P true cr sent added all = (added, all)
  send-All P false cr sent added all = all

  -- The polls of the cycles `zs`, which are among `ys`.
  module _ (ys : List Cycle) (P : Text → Type 0)
      (passed : (config : Text) → Vetted x r ys config → P config) where
    finish_poll-All :
        (y : Cycle) (p : Provider) (f : FetchError ⊎ FetchResult)
        → Elem y ys
        → fetch_config x c r y.token_file y.serve p.last_etag ≡ f
        → All P p.sent
        → All P (finish_poll x c r y p f).sent
    unfolding finish_poll
    finish_poll-All y p (inl e) at h all = all
    finish_poll-All y p (inr (not_modified etag)) at h all = all
    finish_poll-All y p (inr (modified cr etag)) at h all =
        send-All P y.accepts cr p.sent
          (passed cr.config (fetch_config-Vetted x c r ys y p.last_etag cr etag at h)) all

    polls-All :
        (zs : List Cycle) (p : Provider)
        → ((z : Cycle) → Elem z zs → Elem z ys)
        → All P p.sent
        → All P (polls x c r zs p).sent
    unfolding polls poll
    polls-All [] p among all = all
    polls-All (z ∷ zs) p among all =
        polls-All zs _ (λ w at. among w (inr at))
          (finish_poll-All z p _ (among z (inl refl)) refl all)

  -- Whatever the manager answers, each configuration that the polls hand over to Traefik is one that
  -- was handed over before, or it is that of a response which is decoded from the body, cut off
  -- after 4 MiB, of a reply with status 200 to one of the polls' requests. Such a response is
  -- addressed to this agent and fleet (or to none), its configuration is neither empty nor `null`
  -- nor `{}`, and, if a key is configured, its signature is one that ed25519 verifies over the
  -- configuration.
  pub polls-Vetted :
      (ys : List Cycle) (p : Provider)
      → All (λ t. Elem t p.sent ⊎ Vetted x r ys t) (polls x c r ys p).sent
  polls-Vetted ys p =
      polls-All ys (λ t. Elem t p.sent ⊎ Vetted x r ys t) (λ config v. inr v) ys p (λ z at. at)
        (All-map (λ t. Elem t p.sent) (λ t. Elem t p.sent ⊎ Vetted x r ys t) p.sent (λ t at. inl at)
          (All-Elem p.sent))

  module _ (d : Disk) where
    start_checked-Cached :
        (accepts : Bool) (cf : CacheFile) (cr : ConfigResponse) (v : Option ResponseError)
        → IsCached x d cr
        → validate_response r cr ≡ v
        → All (Cached x r d) (start_checked x c r accepts d cf cr v).sent
    unfolding start_checked
    start_checked-Cached accepts cf cr none from h =
        send-All (Cached x r d) accepts cr [] (cr, refl, from, validate_response-IsAddressed r cr h)
          tt
    start_checked-Cached accepts cf cr (some e) from h = tt

    start_decoded-Cached :
        (accepts : Bool) (bytes : Octets) (cf : CacheFile) (o : Option ConfigResponse)
        → d.cache ≡ some bytes
        → x.decode_cache bytes ≡ some cf
        → x.decode_response cf.response ≡ o
        → All (Cached x r d) (start_decoded x c r accepts d cf o).sent
    unfolding start_decoded
    start_decoded-Cached accepts bytes cf none b f e = tt
    start_decoded-Cached accepts bytes cf (some cr) b f e =
        let from : IsCached x d cr = record {
          bytes = bytes;
          file = cf;
          on_disk = b;
          file_decoded = f;
          decoded = e;
        } in
        start_checked-Cached accepts cf cr _ from refl

    start_loaded-Cached :
        (readable accepts : Bool) (l : CacheError ⊎ Option CacheFile)
        → load_cache x readable r.cache_file d ≡ l
        → All (Cached x r d) (start_loaded x c r accepts d l).sent
    unfolding start_loaded
    start_loaded-Cached readable accepts (inl e) h = tt
    start_loaded-Cached readable accepts (inr none) h = tt
    start_loaded-Cached readable accepts (inr (some cf)) h =
        let (bytes, b, f) = load_cache_read x readable r.cache_file d cf h in
        start_decoded-Cached accepts bytes cf _ b f refl

    -- All that a run hands over is the configuration of a response that stands in the cache file as
    -- the start finds it, or of one that the manager gave to a poll as a reply with status 200, each
    -- of them addressed to this agent and fleet (or to none), with a configuration that is neither
    -- empty nor `null` nor `{}`. If a key is configured, the ones of the polls are signed too; a
    -- signature is not among the checks on the cache file.
    pub provide-Addressed :
        (readable accepts : Bool) (ys : List Cycle)
        → All (λ t. Cached x r d t ⊎ Vetted x r ys t) (provide x c r readable accepts d ys).sent
    unfolding provide start
    provide-Addressed readable accepts ys =
        polls-All ys (λ t. Cached x r d t ⊎ Vetted x r ys t) (λ config v. inr v) ys _ (λ z at. at)
          (All-map (Cached x r d) (λ t. Cached x r d t ⊎ Vetted x r ys t) _ (λ t h. inl h)
            (start_loaded-Cached readable accepts _ refl))

-- ===== src/Provider/Restart.antt =====
-- providers/traefik-fleet/cache.go and fleet.go: a restart after a poll that has been saved.
use proxydock.Model.Value.{Any, end, null, obj}
use proxydock.Prelude.{
  ==_iff, Bool-cases, Octets, Option, Option-cases, Text, [], ap, arith, codes, false, inl, inr,
  nat_eq, none, some, subst, sym, text_eq, true, ◌==◌, ◌∙◌, ◌∷◌, ◌≡◌, ◌≢◌,
}
use proxydock.Prelude.Strings.{trim_space}
use proxydock.Provider.Cache.{
  Disk, SaveCalls, cache_text, load_cache, save_cache, save_cache_complete,
}
use proxydock.Provider.Client.{
  CacheFile, ConfigResponse, Externals, fetch_config, modified, validate_response,
}
use proxydock.Provider.Config.{Config, Resolved}
use proxydock.Provider.Loop.{
  Cycle, Provider, finish_poll, poll, send, start, start_checked, start_decoded, start_loaded,
}
use proxydock.Provider.Vetting.{fetch_config_valid, validate_response_tests}

-- The cache file of a response, with what stands in its raw message.
abbrev pub file_of : SaveCalls → ConfigResponse → Text → Octets → CacheFile
file_of o cr etag raw = record {
  saved_at = o.now;
  revision = cr.revision;
  etag = etag;
  response = raw;
}

-- The value of a JSON text, if it is one. The empty text is none, and one that is `null` or `{}`
-- within white space has that value.
pub record JsonValues (value : Text → Option Any) : Type 0 where
  pub none_of_empty : value [] ≡ none
  pub null_of : (t : Text) (v : Any) → value t ≡ some v → trim_space t ≡ codes "null" → v ≡ null
  pub object_of : (t : Text) (v : Any) → value t ≡ some v → trim_space t ≡ codes "{}" → v ≡ obj end

-- What encoding/json does with the response and the cache file that a save writes: reading back
-- gives the same values, but for the white space and the escapes in a raw message, which `restored`
-- stands for. The raw message has the JSON value that it had.
pub record JsonKeeps (x : Externals) (value : Text → Option Any) (o : SaveCalls)
    (cr : ConfigResponse) (etag : Text) : Type 0 where
  pub restored : Octets → Octets
  pub file_back :
      (raw : Octets) (out : Octets)
      → x.encode_response cr ≡ some raw
      → x.encode_cache (file_of o cr etag raw) ≡ some out
      → x.decode_cache out ≡ some (file_of o cr etag (restored raw))
  pub response_back :
      (raw : Octets)
      → x.encode_response cr ≡ some raw
      → ((restored raw == []) ≡ false)
        × (x.decode_response (restored raw) ≡ some (record cr { config = restored cr.config }))
  pub value_back : value (restored cr.config) ≡ value cr.config

-- A text with another value than null and the empty object is none of the texts that are refused.
serious_text :
    {value : Text → Option Any}
    → JsonValues value
    → (t : Text) (v : Any) → value t ≡ some v
    → v ≢ null
    → v ≢ obj end
    → ((t == []) ≡ false)
      × ((trim_space t == codes "null") ≡ false)
      × ((trim_space t == codes "{}") ≡ false)
serious_text {value} k t v h some_value some_object = (
  elim (Bool-cases (t == [])) [
    | inr e ↦ e
    | inl e ↦
        let empty : value t ≡ none = ap value ((==_iff t []).0 e) ∙ k.none_of_empty in
        absurd (ground arith)
  ],
  elim (Bool-cases (trim_space t == codes "null")) [
    | inr e ↦ e
    | inl e ↦ absurd (some_value (k.null_of t v h ((==_iff (trim_space t) (codes "null")).0 e)))
  ],
  elim (Bool-cases (trim_space t == codes "{}")) [
    | inr e ↦ e
    | inl e ↦ absurd (some_object (k.object_of t v h ((==_iff (trim_space t) (codes "{}")).0 e)))
  ],
)

module _ {x : Externals} {value : Text → Option Any} {o : SaveCalls} {cr : ConfigResponse}
    {etag : Text} (j : JsonKeeps x value o cr etag) where
  -- A response that passes still passes with the configuration as it is read back.
  restored_passes :
      (k : JsonValues value) (r : Resolved) (v : Any)
      → value cr.config ≡ some v
      → v ≢ null
      → v ≢ obj end
      → validate_response r cr ≡ none
      → validate_response r (record cr { config = j.restored cr.config }) ≡ none
  unfolding validate_response
  restored_passes k r v e some_value some_object h =
      let (a, f, _, _, _) = validate_response_tests r cr h in
      let (c, n, b) =
        serious_text k (j.restored cr.config) v (j.value_back ∙ e) some_value some_object in
      ground arith

  -- What a load gives after the cache file was written.
  load_cache_back :
      (path : Text) (d : Disk) (out : Octets)
      → (path == []) ≡ false
      → d.cache ≡ some out
      → cache_text x o cr etag ≡ some out
      → (raw : Octets) × (x.encode_response cr ≡ some raw)
        × (load_cache x true path d ≡ inr (some (file_of o cr etag (j.restored raw))))
  unfolding load_cache cache_text
  load_cache_back path d out named c t = elim (Option-cases (x.encode_response cr)) [
    | inl e ↦ absurd (ground arith)
    | inr (raw, e) ↦
        let written : x.encode_cache (file_of o cr etag raw) ≡ some out = ground arith in
        let back = j.file_back raw out e written in
        let full = (j.response_back raw e).0 in (raw, e, ground arith)
  ]

module _ (x : Externals) (c : Config) (r : Resolved) where
  -- If a poll fetched a configuration that is a JSON value other than null and the object without
  -- fields, and its save reported no error, then a start from the disk it left, whose cache file can
  -- be read, hands over a configuration with the same JSON value, and goes on with the ETag and the
  -- revision that the poll left. The text can differ in its white space and escapes.
  pub start-poll :
      {value : Text → Option Any} (y : Cycle) (p : Provider) (cr : ConfigResponse) (etag : Text)
      (v : Any)
      → JsonValues value
      → JsonKeeps x value y.save cr etag
      → fetch_config x c r y.token_file y.serve p.last_etag ≡ inr (modified cr etag)
      → value cr.config ≡ some v
      → v ≢ null
      → v ≢ obj end
      → (r.cache_file == []) ≡ false
      → (save_cache x y.save r.cache_file cr etag p.disk).1 ≡ none
      → (config : Text) × (value config ≡ some v)
        × (start x c r true true (poll x c r y p).disk ≡ record {
          last_etag = (poll x c r y p).last_etag;
          last_applied = (poll x c r y p).last_applied;
          sent = config ∷ [];
          disk = (poll x c r y p).disk;
          reports = [];
        })
  unfolding start poll finish_poll start_loaded start_decoded start_checked send
  start-poll y p cr etag v k j h is_value some_value some_object named saved =
      let q = finish_poll x c r y p (inr (modified cr etag)) in
      let step : poll x c r y p ≡ q = ap (finish_poll x c r y p) h in
      let (out, t, e) = save_cache_complete x y.save r.cache_file cr etag p.disk named saved in
      let (raw, enc, loaded) = load_cache_back j r.cache_file q.disk out named e t in
      let valid =
        restored_passes j k r v is_value some_value some_object
          (fetch_config_valid x c r y.token_file y.serve p.last_etag cr etag h) in
      let file = file_of y.save cr etag (j.restored raw) in
      let back = record cr { config = j.restored cr.config } in
      let started =
        ap (start_loaded x c r true q.disk) loaded
        ∙ ap (start_decoded x c r true q.disk file) (j.response_back raw enc).1
        ∙ ap (start_checked x c r true q.disk file back) valid in
      (
        j.restored cr.config,
        j.value_back ∙ is_value,
        subst
            (λ z. start x c r true true z.disk ≡ record {
              last_etag = z.last_etag;
              last_applied = z.last_applied;
              sent = j.restored cr.config ∷ [];
              disk = z.disk;
              reports = [];
            })
            (sym step) started,
      )

-- ===== src/Tests/ProviderRuns.antt =====
-- The provider plugin (providers/traefik-fleet) at work, with a toy in place of the libraries: the
-- response is written by its configuration, a key by itself, and a signature is the sum of the key.
use mathlib.Core.Option.{some-injective}
use proxydock.Model.Value.{Any, end, null, obj, str}
use proxydock.Prelude.{
  All, Bool, Option, Text, [], arith, codes, false, if◌then◌else◌, nat_eq, none, refl, some, subst,
  text_beq, text_beq_iff, text_eq, true, ◌*◌, ◌++◌, ◌==◌, ◌∷◌, ◌≡◌, ◌⊎◌,
}
use proxydock.Prelude.Sorting.{Elem}
use proxydock.Prelude.Strings.{has_prefix, trim_right, trim_space}
use proxydock.Provider.Cache.{
  Disk, SaveCalls, cache_text, replace_file, save_cache, save_cache-atomic,
}
use proxydock.Provider.Client.{
  ConfigResponse, Externals, Reply, config_url, fetch_config, load_token, read_reply, read_response,
  validate_response, verify_signature,
}
use proxydock.Provider.Config.{
  Config, IsUsable, Resolved, resolve, second, validate, validate-IsUsable,
}
use proxydock.Provider.LastGood.{SameConfig, Silent, polls_keep_last_good, polls_lose_untaken}
use proxydock.Provider.Loop.{Cycle, Provider, finish_poll, poll, polls, provide, send, start}
use proxydock.Provider.Restart.{JsonKeeps, JsonValues, file_of, start-poll}
use proxydock.Provider.Vetting.{Cached, Vetted, polls-Vetted, provide-Addressed}

abbrev settings : Config
settings = record {
  endpoint = codes "http://m/";
  fleet_id = codes "f";
  agent_id = codes " a ";
  token = codes "t";
  token_file = [];
  poll_interval = [];
  poll_timeout = [];
  cache_file = codes "c";
  fail_mode = [];
  signing_public_key = codes "kkkkkkkkkkkkkkkkkkkkkkkkkkkkkkkk";
}

abbrev resolved : Resolved
resolved = resolve settings (10 * second) (5 * second)

-- A signature is good if it is the key with the configuration behind it.
abbrev toy : Externals
toy = record {
  decode_response = λ b. some record {
    fleet_id = codes "f";
    agent_id = codes "a";
    revision = 7;
    etag = codes "e7";
    generated_at = 0;
    config = b;
    signature = resolved.signing_public_key ++ b;
    signature_alg = codes "ed25519";
  };
  encode_response = λ cr. some cr.config;
  decode_cache = λ b. some record { saved_at = 0; revision = 7; etag = codes "e7"; response = b };
  encode_cache = λ cf. some cf.response;
  decode_base64 = λ s. some s;
  ed25519_verify = λ key config sig. sig == key ++ config;
  parses_url = λ u. true;
}

abbrev saves : SaveCalls
saves = record {
  now = 0;
  written = λ t. t;
  makes_dir = true;
  creates = true;
  writes = true;
  closes = true;
  renames = true;
  removes = true;
}

abbrev cycle : Bool → Option Reply → Cycle
cycle accepts reply = record {
  token_file = none;
  heartbeat_token_file = none;
  serve = λ q. reply;
  accepts = accepts;
  save = saves;
}

abbrev served : Option Reply
served = some record { status_code = 200; etag = []; body = some (codes "{http}") }

abbrev unchanged : Option Reply
unchanged = some record { status_code = 304; etag = codes "e7"; body = none }

abbrev no_disk : Disk
no_disk = record { cache = none; temps = [] }

abbrev fresh : Provider
fresh = record { last_etag = []; last_applied = 0; sent = []; disk = no_disk; reports = [] }

abbrev answered : ConfigResponse
answered = record {
  fleet_id = codes "f";
  agent_id = codes "a";
  revision = 7;
  etag = codes "e7";
  generated_at = 0;
  config = codes "{http}";
  signature = resolved.signing_public_key ++ codes "{http}";
  signature_alg = codes "ed25519";
}

polls_run :
    (polls toy settings resolved
      (cycle true served ∷ cycle true none ∷ cycle true unchanged ∷ [])
      fresh).sent
    ≡ codes "{http}" ∷ []
unfolding polls poll finish_poll send fetch_config read_reply read_response verify_signature
    validate_response load_token config_url resolve text_beq trim_space trim_right has_prefix
polls_run = refl

validate-IsUsable_example : IsUsable resolved
unfolding validate resolve text_beq trim_right trim_space has_prefix
validate-IsUsable_example = validate-IsUsable (λ s. none) settings resolved refl

save_cache-atomic_example :
    All
      (λ e. (e.cache ≡ none) ⊎ (e.cache ≡ cache_text toy saves answered (codes "e7")))
      (save_cache toy saves (codes "c") answered (codes "e7") no_disk).0
save_cache-atomic_example = save_cache-atomic toy saves (codes "c") answered (codes "e7") no_disk

polls-Vetted_example :
    All
      (λ t. Elem t [] ⊎ Vetted toy resolved (cycle true served ∷ cycle true unchanged ∷ []) t)
      (polls toy settings resolved (cycle true served ∷ cycle true unchanged ∷ []) fresh).sent
polls-Vetted_example =
    polls-Vetted toy settings resolved (cycle true served ∷ cycle true unchanged ∷ []) fresh

abbrev old_disk : Disk
old_disk = record { cache = some (codes "{x}"); temps = [] }

provide-Addressed_example :
    All
      (λ t. Cached toy resolved old_disk t ⊎ Vetted toy resolved (cycle true served ∷ []) t)
      (provide toy settings resolved true true old_disk (cycle true served ∷ [])).sent
provide-Addressed_example =
    provide-Addressed toy settings resolved old_disk true true (cycle true served ∷ [])

abbrev held : Provider
held = record {
  last_etag = codes "e7";
  last_applied = 7;
  sent = codes "{http}" ∷ [];
  disk = no_disk;
  reports = [];
}

unchanged-Silent : (accepts : Bool) → Silent (codes "e7") (cycle accepts unchanged)
unchanged-Silent accepts request reply e s =
    subst (λ o. (o.status_code == 200) ≡ false) (some-injective _ _ s) refl

down-Silent : (accepts : Bool) → Silent (codes "e7") (cycle accepts none)
down-Silent accepts request reply e s = absurd (ground arith)

polls_keep_last_good_example :
    SameConfig held (polls toy settings resolved (cycle true unchanged ∷ cycle true none ∷ []) held)
polls_keep_last_good_example =
    polls_keep_last_good toy settings resolved (cycle true unchanged ∷ cycle true none ∷ []) held
      (unchanged-Silent true, (down-Silent true, tt))

polls_lose_untaken_example :
    ((polls toy settings resolved (cycle false served ∷ cycle true unchanged ∷ []) fresh).sent ≡ [])
    × ((polls toy settings resolved
          (cycle false served ∷ cycle true unchanged ∷ [])
          fresh).last_applied
        ≡ 7)
unfolding fetch_config read_reply read_response verify_signature validate_response load_token
    config_url resolve text_beq trim_space trim_right has_prefix
polls_lose_untaken_example =
    polls_lose_untaken toy settings resolved (cycle false served) (cycle true unchanged ∷ []) fresh
      answered (codes "e7") refl refl (unchanged-Silent true, tt)

abbrev toy_value : Text → Option Any
toy_value t =
    if t == []
    then none
    else if trim_space t == codes "null"
    then some null
    else if trim_space t == codes "{}"
    then some (obj end)
    else some (str t)

toy_values : JsonValues toy_value
unfolding text_beq
toy_values = record {
  none_of_empty = refl;
  null_of = λ t v e n. ground (arith, text_beq_iff (trim_space t) (codes "null"));
  object_of = λ t v e n.
      ground (
        arith,
        text_beq_iff (trim_space t) (codes "{}"),
        text_beq_iff (trim_space t) (codes "null"),
      );
}

toy_keeps : JsonKeeps toy toy_value saves answered (codes "e7")
unfolding text_beq
toy_keeps = record {
  restored = λ t. t;
  file_back = λ raw out e f.
      subst
        (λ t.
          some (file_of saves answered (codes "e7") t)
          ≡ some (file_of saves answered (codes "e7") raw))
        (some-injective raw out f) refl;
  response_back = λ raw e.
      subst (λ t. ((t == []) ≡ false) × (toy.decode_response t ≡ some answered))
        (some-injective (codes "{http}") raw e) (refl, refl);
  value_back = refl;
}

start-poll_example :
    (config : Text) × (toy_value config ≡ some (str (codes "{http}")))
    × (start toy settings resolved true true
          (poll toy settings resolved (cycle true served) fresh).disk
        ≡ record {
          last_etag = (poll toy settings resolved (cycle true served) fresh).last_etag;
          last_applied = (poll toy settings resolved (cycle true served) fresh).last_applied;
          sent = config ∷ [];
          disk = (poll toy settings resolved (cycle true served) fresh).disk;
          reports = [];
        })
unfolding fetch_config read_reply read_response verify_signature validate_response load_token
    config_url resolve text_beq trim_space trim_right has_prefix save_cache replace_file cache_text
start-poll_example =
    start-poll toy settings resolved (cycle true served) fresh answered (codes "e7")
      (str (codes "{http}")) toy_values toy_keeps refl refl (λ e. ground arith) (λ e. ground arith)
      refl refl

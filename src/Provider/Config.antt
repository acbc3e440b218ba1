-- ===== src/Provider/Config.antt =====
-- providers/traefik-fleet/config.go: the plugin's settings and their validation. A duration is an
-- int64 of nanoseconds, by its bit pattern.
use proxydock.Prelude.{
  ==_iff, Option, Option-cases, Text, [], arith, beq_false, codes, false, if◌then◌else◌, inl, inr,
  int_lt, keep, nat_eq, none, not, some, subst, sym, text_eq, true, ℕ, ◌&&◌, ◌*◌, ◌==◌, ◌||◌, ◌≡◌,
  ◌≢◌, ◌⊎◌,
}
use proxydock.Prelude.Strings.{has_prefix, trim_right, trim_space}

pub record Config : Type 0 where
  pub endpoint : Text
  pub fleet_id : Text
  pub agent_id : Text
  pub token : Text
  pub token_file : Text
  pub poll_interval : Text
  pub poll_timeout : Text
  pub cache_file : Text
  pub fail_mode : Text
  pub signing_public_key : Text

abbrev pub create_config : Config
create_config = record {
  endpoint = [];
  fleet_id = [];
  agent_id = [];
  token = [];
  token_file = [];
  poll_interval = codes "10s";
  poll_timeout = codes "5s";
  cache_file = [];
  fail_mode = codes "keep-last-good";
  signing_public_key = [];
}

pub record Resolved : Type 0 where
  pub endpoint : Text
  pub fleet_id : Text
  pub agent_id : Text
  pub token : Text
  pub poll_interval : ℕ
  pub poll_timeout : ℕ
  pub cache_file : Text
  pub fail_mode : Text
  pub signing_public_key : Text

pub data ConfigError : Type 0 where
  endpoint_required endpoint_scheme fleet_required agent_required token_required : ConfigError
  bad_interval short_interval bad_timeout bad_fail_mode : ConfigError

abbrev pub second : ℕ
second = 1_000_000_000

-- `time.ParseDuration` is the argument `parse`.
unfoldable pub parse_duration : (Text → Option ℕ) → Text → ℕ → Option ℕ
parse_duration parse s d = if trim_space s == [] then some d else parse s

unfoldable pub resolve : Config → ℕ → ℕ → Resolved
resolve c interval timeout = record {
  endpoint = trim_right (λ x. x == b'/') (trim_space c.endpoint);
  fleet_id = trim_space c.fleet_id;
  agent_id = trim_space c.agent_id;
  token = c.token;
  poll_interval = interval;
  poll_timeout = timeout;
  cache_file = c.cache_file;
  fail_mode = if c.fail_mode == [] then codes "keep-last-good" else c.fail_mode;
  signing_public_key = trim_space c.signing_public_key;
}

-- The checks on the texts, in the code's order; `none` is no error.
unfoldable pub text_error : Config → Resolved → Option ConfigError
text_error c r =
    if r.endpoint == []
    then some endpoint_required
    else if not (has_prefix r.endpoint (codes "http://"))
        && not (has_prefix r.endpoint (codes "https://"))
    then some endpoint_scheme
    else if r.fleet_id == []
    then some fleet_required
    else if r.agent_id == []
    then some agent_required
    else if c.token == [] && c.token_file == []
    then some token_required
    else none

unfoldable pub validate : (Text → Option ℕ) → Config → ConfigError ⊎ Resolved
unfolding resolve text_error parse_duration
validate parse c = elim (text_error c (resolve c 0 0)) [
  | some e ↦ inl e
  | none ↦ elim (parse_duration parse c.poll_interval (10 * second)) [
    | none ↦ inl bad_interval
    | some interval ↦
        if int_lt interval second
        then inl short_interval
        else elim (parse_duration parse c.poll_timeout (5 * second)) [
          | none ↦ inl bad_timeout
          | some timeout ↦
              let r = resolve c interval timeout in
              if r.fail_mode == codes "keep-last-good" then inr r else inl bad_fail_mode
        ]
  ]
]

-- What the rest of the plugin relies on.
pub record IsUsable (r : Resolved) : Type 0 where
  pub fleet_named : r.fleet_id ≢ []
  pub agent_named : r.agent_id ≢ []
  pub scheme :
      (has_prefix r.endpoint (codes "http://") || has_prefix r.endpoint (codes "https://")) ≡ true
  pub interval : int_lt r.poll_interval second ≡ false
  pub keeps : r.fail_mode ≡ codes "keep-last-good"

text_error-none :
    (c : Config) (r : Resolved)
    → text_error c r ≡ none
    → ((r.endpoint == []) ≡ false)
      × ((has_prefix r.endpoint (codes "http://") || has_prefix r.endpoint (codes "https://"))
          ≡ true)
      × ((r.fleet_id == []) ≡ false)
      × ((r.agent_id == []) ≡ false)
unfolding text_error
text_error-none c r h = ground arith

validate-inr :
    (parse : Text → Option ℕ) (c : Config) (r : Resolved)
    → validate parse c ≡ inr r
    → (text_error c (resolve c 0 0) ≡ none)
      × ((interval : ℕ) × (timeout : ℕ) × (r ≡ resolve c interval timeout)
          × (int_lt interval second ≡ false)
          × (((resolve c interval timeout).fail_mode == codes "keep-last-good") ≡ true))
unfolding validate
validate-inr parse c r h =
    elim (Option-cases (parse_duration parse c.poll_interval (10 * second))) [
      | inl p ↦ absurd (ground arith)
      | inr (interval, p) ↦ elim (Option-cases (parse_duration parse c.poll_timeout (5 * second))) [
        | inl q ↦ absurd (ground arith)
        | inr (timeout, q) ↦
            (ground arith, (interval, timeout, ground arith, ground arith, ground arith))
      ]
    ]

-- Settings that pass validation name a fleet and an agent, have an http or https endpoint and a
-- poll interval of a second or more, and ask to keep the last good configuration.
pub validate-IsUsable :
    (parse : Text → Option ℕ) (c : Config) (r : Resolved) → validate parse c ≡ inr r → IsUsable r
unfolding validate
validate-IsUsable parse c r h =
    let (t, (interval, timeout, e, long, keep)) = validate-inr parse c r h in
    let (_, scheme, fleet, agent) = text_error-none c (resolve c 0 0) t in
    subst IsUsable (sym e) record {
      fleet_named = beq_false _ _ fleet;
      agent_named = beq_false _ _ agent;
      scheme = scheme;
      interval = long;
      keeps = (==_iff _ _).0 keep;
    }

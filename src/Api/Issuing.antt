-- ===== src/Api/Issuing.antt =====
-- apps/api/internal/api/acme_handlers.go: ACME accounts, DNS providers and requests for certificates.
-- The registration with the ACME server and dns.Build are parameters.
use proxydock.Api.Answers.{
  Decoded, Response, and_answer, answer, no_content, problem, reply, store_error, with_body,
}
use proxydock.Api.Certificates.{map_result}
use proxydock.Api.Hosts.{with_id}
use proxydock.Api.Resources.{of_fleet}
use proxydock.Model.{AcmeAccount, AcmeJob, DnsProvider, Time, pending}
use proxydock.Prelude.{
  List, Option, Text, [], codes, if◌then◌else◌, inl, inr, items, length, map, nat_eq, none, some,
  text_eq, ℕ, ◌==◌, ◌||◌, ◌⊎◌,
}
use proxydock.Prelude.Strings.{trim_space}
use proxydock.Store.Acme.{
  create_acme_job, create_dns_provider, delete_acme_account, delete_dns_provider, get_acme_account,
  get_acme_job, get_dns_provider_by_name, list_acme_jobs, list_dns_providers, upsert_acme_account,
}
use proxydock.Store.Fleets.{get_fleet}
use proxydock.Store.State.{Store, err, ok}

-- The struct `in` of handleRegisterACMEAccount.
pub record AccountInput : Type 0 where
  pub directory_url : Text
  pub contact_email : Text

abbrev no_account : AccountInput
no_account = record { directory_url = []; contact_email = [] }

-- A new key and the URL of the account, or the status and the text of what failed.
abbrev pub Register : Type 0
Register = AccountInput → (ℕ × Text) ⊎ (Text × Text)

unfoldable pub without_account_key : AcmeAccount → AcmeAccount
without_account_key a = record a { account_key_pem = [] }

unfoldable pub handle_get_acme_account : Text → Store → Response AcmeAccount
unfolding without_account_key answer map_result
handle_get_acme_account fleet_id s = elim (get_fleet fleet_id s) [
  | err e ↦ store_error e
  | ok f ↦ answer 200 (map_result without_account_key (get_acme_account fleet_id s))
]

unfoldable pub register_account :
    Register → Time → Text → AccountInput → Store → Store × Response AcmeAccount
unfolding without_account_key
register_account register now fleet_id x s =
    if trim_space x.directory_url == [] || trim_space x.contact_email == []
    then (s, problem 400 (codes "directory_url and contact_email are required"))
    else elim (register x) [
      | inl (status, text) ↦ (s, problem status text)
      | inr (key, url) ↦
          let rec : AcmeAccount = record {
            fleet_id = fleet_id;
            directory_url = x.directory_url;
            contact_email = x.contact_email;
            account_key_pem = key;
            account_url = url;
            created_at = 0;
          } in
          let (t, done) = upsert_acme_account now rec s in
          elim done [
            | err e ↦ (t, store_error e)
            | ok y ↦ (t, reply 201 none (some (without_account_key rec)))
          ]
    ]

unfoldable pub handle_register_acme_account :
    Register → Time → Text → Decoded AccountInput → Store → Store × Response AcmeAccount
unfolding with_body register_account
handle_register_acme_account register now fleet_id body s = elim (get_fleet fleet_id s) [
  | err e ↦ (s, store_error e)
  | ok f ↦ with_body no_account body (register_account register now fleet_id) s
]

unfoldable pub handle_delete_acme_account : Text → Store → Store × Response (Unit {0})
unfolding and_answer no_content
handle_delete_acme_account fleet_id s = and_answer no_content (delete_acme_account fleet_id s)

unfoldable pub without_config : DnsProvider → DnsProvider
without_config d = record d { config = [] }

unfoldable pub handle_list_dns_providers : Text → Store → Response (List DnsProvider)
unfolding of_fleet without_config
handle_list_dns_providers fleet_id s =
    of_fleet fleet_id (map without_config (list_dns_providers fleet_id s)) s

pub record DnsInput : Type 0 where
  pub name : Text
  pub kind : Text
  pub config : Text

abbrev no_dns : DnsInput
no_dns = record { name = []; kind = []; config = [] }

-- `build` is the text of the error of dns.Build, if it fails.
unfoldable pub dns_from_input :
    (Text → Text → Option Text) → Time → Text → DnsInput → Store → Store × Response DnsProvider
unfolding and_answer answer map_result without_config
dns_from_input build now fleet_id x s =
    if trim_space x.name == [] || trim_space x.kind == []
    then (s, problem 400 (codes "name and type are required"))
    else elim (build x.kind x.config) [
      | some text ↦ (s, problem 400 text)
      | none ↦
          and_answer (λ r. answer 201 (map_result without_config r))
            (create_dns_provider now
              (record {
                id = 0;
                fleet_id = fleet_id;
                name = x.name;
                kind = x.kind;
                config = x.config;
                created_at = 0;
              })
              s)
    ]

unfoldable pub handle_create_dns_provider :
    (Text → Text → Option Text)
    → Time
    → Text
    → Decoded DnsInput
    → Store
    → Store × Response DnsProvider
unfolding with_body dns_from_input
handle_create_dns_provider build now fleet_id body s = elim (get_fleet fleet_id s) [
  | err e ↦ (s, store_error e)
  | ok f ↦ with_body no_dns body (dns_from_input build now fleet_id) s
]

unfoldable pub handle_delete_dns_provider : Text → Option ℕ → Store → Store × Response (Unit {0})
unfolding with_id and_answer no_content
handle_delete_dns_provider fleet_id id s =
    with_id (codes "dns_id") id (λ n t. and_answer no_content (delete_dns_provider fleet_id n t)) s

pub record JobInput : Type 0 where
  pub name : Text
  pub dns_names : Option (List Text)
  pub dns_provider : Text

abbrev no_job : JobInput
no_job = record { name = []; dns_names = none; dns_provider = [] }

unfoldable pub request_certificate : Time → Text → JobInput → Store → Store × Response AcmeJob
unfolding and_answer answer
request_certificate now fleet_id x s =
    if trim_space x.name == [] || length (items x.dns_names) == 0 || trim_space x.dns_provider == []
    then (s, problem 400 (codes "name, dns_names, and dns_provider are required"))
    else elim (get_acme_account fleet_id s) [
      | err e ↦ (s, store_error e)
      | ok account ↦ elim (get_dns_provider_by_name fleet_id x.dns_provider s) [
        | err e ↦ (s, store_error e)
        | ok provider ↦ and_answer (answer 202) (
            create_acme_job now
              (record {
                id = 0;
                fleet_id = fleet_id;
                name = x.name;
                dns_names = x.dns_names;
                dns_provider = x.dns_provider;
                status = pending;
                error = [];
                cert_id = none;
                created_at = 0;
                started_at = none;
                finished_at = none;
              })
              s)
      ]
    ]

unfoldable pub handle_request_acme_certificate :
    Time → Text → Decoded JobInput → Store → Store × Response AcmeJob
unfolding with_body request_certificate
handle_request_acme_certificate now fleet_id body s = elim (get_fleet fleet_id s) [
  | err e ↦ (s, store_error e)
  | ok f ↦ with_body no_job body (request_certificate now fleet_id) s
]

unfoldable pub handle_get_acme_job : Option ℕ → Store → Store × Response AcmeJob
unfolding with_id answer
handle_get_acme_job id s = with_id (codes "job_id") id (λ n t. (t, answer 200 (get_acme_job n t))) s

unfoldable pub handle_list_acme_jobs : Text → Store → Response (List AcmeJob)
unfolding of_fleet
handle_list_acme_jobs fleet_id s = of_fleet fleet_id (list_acme_jobs fleet_id 50 s) s

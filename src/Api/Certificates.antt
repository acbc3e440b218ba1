-- ===== src/Api/Certificates.antt =====
-- apps/api/internal/api/admin_handlers.go: certificates. cert.Parse is a function of the two PEM texts.
use proxydock.Api.Answers.{
  Decoded, Response, and_answer, answer, no_content, problem, store_error, with_body,
}
use proxydock.Api.Hosts.{with_id}
use proxydock.Api.Resources.{of_fleet}
use proxydock.Model.{Certificate, Time}
use proxydock.Prelude.{
  List, Option, Text, [], codes, if◌then◌else◌, inl, inr, map, nat_eq, text_eq, ℕ, ◌==◌, ◌⊎◌,
}
use proxydock.Prelude.Strings.{trim_space}
use proxydock.Store.Certificates.{
  create_certificate, delete_certificate, get_certificate, list_certificates,
}
use proxydock.Store.Fleets.{get_fleet}
use proxydock.Store.State.{Result, Store, err, ok}

-- Key bytes do not leave the process.
unfoldable pub without_key : Certificate → Certificate
without_key c = record c { key_pem = [] }

unfoldable pub map_result : {A B : Type 0} → (A → B) → Result A → Result B
map_result f (ok a) = ok (f a)
map_result f (err e) = err e

unfoldable pub handle_list_certificates : Text → Store → Response (List Certificate)
unfolding of_fleet without_key
handle_list_certificates fleet_id s =
    of_fleet fleet_id (map without_key (list_certificates fleet_id s)) s

unfoldable pub handle_get_certificate : Text → Option ℕ → Store → Store × Response Certificate
unfolding with_id answer without_key map_result
handle_get_certificate fleet_id id s =
    with_id (codes "cert_id") id
      (λ n t. (t, answer 200 (map_result without_key (get_certificate fleet_id n t)))) s

pub record CertificateInput : Type 0 where
  pub name : Text
  pub cert_pem : Text
  pub key_pem : Text

-- What cert.Parse gives, with the text of its error.
pub record ParsedCertificate : Type 0 where
  pub cert_pem : Text
  pub key_pem : Text
  pub fingerprint : Text
  pub subject : Text
  pub issuer : Text
  pub dns_names : Option (List Text)
  pub not_before : Time
  pub not_after : Time

abbrev pub certificate_of : Text → Text → ParsedCertificate → Certificate
certificate_of fleet_id name p = record {
  id = 0;
  fleet_id = fleet_id;
  name = name;
  cert_pem = p.cert_pem;
  key_pem = p.key_pem;
  fingerprint = p.fingerprint;
  subject = p.subject;
  issuer = p.issuer;
  dns_names = p.dns_names;
  not_before = p.not_before;
  not_after = p.not_after;
  source = [];
  created_at = 0;
}

abbrev pub no_certificate : CertificateInput
no_certificate = record { name = []; cert_pem = []; key_pem = [] }

-- handleCreateCertificate, for a body that has been decoded.
unfoldable pub create_from_input :
    (Text → Text → Text ⊎ ParsedCertificate)
    → Time
    → Text
    → CertificateInput
    → Store
    → Store × Response Certificate
unfolding and_answer answer without_key map_result
create_from_input parse_pem now fleet_id x s =
    if trim_space x.name == []
    then (s, problem 400 (codes "name is required"))
    else elim (parse_pem x.cert_pem x.key_pem) [
      | inl text ↦ (s, problem 400 text)
      | inr p ↦
          and_answer (λ r. answer 201 (map_result without_key r))
            (create_certificate now (certificate_of fleet_id x.name p) s)
    ]

unfoldable pub handle_create_certificate :
    (Text → Text → Text ⊎ ParsedCertificate)
    → Time
    → Text
    → Decoded CertificateInput
    → Store
    → Store × Response Certificate
unfolding with_body create_from_input
handle_create_certificate parse_pem now fleet_id body s = elim (get_fleet fleet_id s) [
  | err e ↦ (s, store_error e)
  | ok f ↦ with_body no_certificate body (create_from_input parse_pem now fleet_id) s
]

unfoldable pub handle_delete_certificate : Text → Option ℕ → Store → Store × Response (Unit {0})
unfolding with_id and_answer no_content
handle_delete_certificate fleet_id id s =
    with_id (codes "cert_id") id (λ n t. and_answer no_content (delete_certificate fleet_id n t)) s

-- ===== src/Api/Secrets.antt =====
-- apps/api/internal/api/admin_handlers.go: private keys in the answers of the handlers for certificates.
use proxydock.Api.Answers.{
  Decoded, Response, and_answer, answer, bad_json, decoded, no_body, problem, refused_then, reply,
  store_error, with_body,
}
use proxydock.Api.Certificates.{
  CertificateInput, ParsedCertificate, certificate_of, create_from_input, handle_create_certificate,
  handle_get_certificate, handle_list_certificates, map_result, no_certificate, without_key,
}
use proxydock.Api.Guard.{result_cases}
use proxydock.Api.Hosts.{with_id}
use proxydock.Api.Resources.{of_fleet}
use proxydock.Model.{Certificate, Time}
use proxydock.Prelude.{
  All, Bool-cases, List, Option, Text, [], inl, inr, map, nat_eq, none, refl, some, sum_cases,
  text_eq, ℕ, ◌==◌, ◌∷◌, ◌≡◌, ◌⊎◌,
}
use proxydock.Prelude.Strings.{trim_space}
use proxydock.Store.Certificates.{create_certificate, get_certificate, list_certificates}
use proxydock.Store.Fleets.{get_fleet}
use proxydock.Store.State.{Result, Store, err, ok}

abbrev pub IsKeyless : Certificate → Type 0
IsKeyless c = c.key_pem ≡ []

-- No body, or one with the property.
abbrev pub Holds : {A : Type 0} → (A → Type 0) → Response A → Type 0
Holds P (problem code text) = Unit
Holds P (reply code etag none) = Unit
Holds P (reply code etag (some a)) = P a
Holds P (refused_then text r) = Holds P r

without_key-IsKeyless : (cs : List Certificate) → All IsKeyless (map without_key cs)
unfolding without_key
without_key-IsKeyless [] = tt
without_key-IsKeyless (c ∷ cs) = (refl, without_key-IsKeyless cs)

pub of_fleet-Holds :
    {A : Type 0} (P : A → Type 0) (id : Text) (a : A) (s : Store) → P a → Holds P (of_fleet id a s)
unfolding of_fleet store_error
of_fleet-Holds P id a s p = elim (result_cases (get_fleet id s)) [
  | inl (e, g) ↦ rw (g, of_fleet) tt
  | inr (f, g) ↦ rw (g, of_fleet) p
]

answer-IsKeyless :
    (status : ℕ) (r : Result Certificate)
    → Holds IsKeyless (answer status (map_result without_key r))
unfolding answer map_result without_key store_error
answer-IsKeyless status (ok c) = refl
answer-IsKeyless status (err e) = tt

handle_get_certificate-IsKeyless :
    (id : Text) (n : Option ℕ) (s : Store) → Holds IsKeyless (handle_get_certificate id n s).1
unfolding handle_get_certificate with_id
handle_get_certificate-IsKeyless id none s = tt
handle_get_certificate-IsKeyless id (some n) s = answer-IsKeyless 200 (get_certificate id n s)

module _ (parse_pem : Text → Text → Text ⊎ ParsedCertificate) (now : Time) (id : Text) where
  input-IsKeyless :
      (x : CertificateInput) (s : Store)
      → Holds IsKeyless (create_from_input parse_pem now id x s).1
  unfolding create_from_input and_answer
  input-IsKeyless x s = elim (Bool-cases (trim_space x.name == [])) [
    | inl e ↦ rw (e, create_from_input) tt
    | inr e ↦ elim (sum_cases (parse_pem x.cert_pem x.key_pem)) [
      | inl (text, p) ↦ rw (e, p, create_from_input) tt
      | inr (cert, p) ↦
          rw (e, p, create_from_input, and_answer)
            (answer-IsKeyless 201 (create_certificate now (certificate_of id x.name cert) s).1)
    ]
  ]

  with_body-IsKeyless :
      (body : Decoded CertificateInput) (s : Store)
      → Holds IsKeyless (with_body no_certificate body (create_from_input parse_pem now id) s).1
  unfolding with_body
  with_body-IsKeyless no_body s = input-IsKeyless no_certificate s
  with_body-IsKeyless (bad_json text x) s = tt
  with_body-IsKeyless (decoded x) s = input-IsKeyless x s

  handle_create_certificate-IsKeyless :
      (body : Decoded CertificateInput) (s : Store)
      → Holds IsKeyless (handle_create_certificate parse_pem now id body s).1
  unfolding handle_create_certificate store_error
  handle_create_certificate-IsKeyless body s = elim (result_cases (get_fleet id s)) [
    | inl (e, g) ↦ rw (g, handle_create_certificate) tt
    | inr (f, g) ↦ rw (g, handle_create_certificate) (with_body-IsKeyless body s)
  ]

-- Whatever is stored and asked, each certificate that the handlers answer with has an empty key: in
-- the list of a fleet, when one is asked for, and when one has just been created.
pub handlers_IsKeyless :
    (parse_pem : Text → Text → Text ⊎ ParsedCertificate) (now : Time) (id : Text) (n : Option ℕ)
    (body : Decoded CertificateInput) (s : Store)
    → Holds (All IsKeyless) (handle_list_certificates id s)
      × Holds IsKeyless (handle_get_certificate id n s).1
      × Holds IsKeyless (handle_create_certificate parse_pem now id body s).1
unfolding handle_list_certificates
handlers_IsKeyless parse_pem now id n body s = (
  of_fleet-Holds (All IsKeyless) id (map without_key (list_certificates id s)) s
      (without_key-IsKeyless (list_certificates id s)),
  handle_get_certificate-IsKeyless id n s,
  handle_create_certificate-IsKeyless parse_pem now id body s,
)

-- ===== src/Worker/Acme.antt =====
-- apps/api/cmd/manager-api/acme_worker.go and acme_renew.go: the jobs that issue certificates, and the
-- renewal of those that are due. The ACME client, the DNS solvers and the parsing of keys and
-- certificates are parameters; the clock is read once in a job and in a pass.
use proxydock.Api.Answers.{Server}
use proxydock.Api.Certificates.{ParsedCertificate, certificate_of}
use proxydock.Api.Revisions.{copied_certificate, copied_host, sign_revision, unsigned}
use proxydock.Compiler.Compile.{compile}
use proxydock.Model.{AcmeAccount, AcmeJob, Certificate, DnsProvider, Time}
use proxydock.Prelude.{
  Bool, List, Option, Text, [], codes, if◌then◌else◌, inl, inr, leb, ltb, map, nat_eq, none, some,
  text_eq, true, ◌*◌, ◌++◌, ◌+◌, ◌-◌, ◌/◌, ◌∷◌, ◌⊎◌,
}
use proxydock.Prelude.GoMap.{GoMap, put}
use proxydock.Store.Acme.{
  get_acme_account, get_dns_provider, get_dns_provider_by_name, list_dns_providers,
  mark_acme_job_failed, mark_acme_job_succeeded,
}
use proxydock.Store.Certificates.{
  create_certificate, list_all_acme_certificates, list_certificates, update_certificate_material,
}
use proxydock.Store.ProxyHosts.{list_proxy_hosts}
use proxydock.Store.Revisions.{create_revision, next_revision_number}
use proxydock.Store.State.{
  Store, StoreError, conflict, err, invalid_input, not_found, ok, token_mismatch, token_revoked,
}

pub record AcmeCalls : Type 0 where
  -- The text of the error of ParseAccountKey, if it fails.
  pub account_key : Text → Option Text
  -- That of dns.Build.
  pub build : DnsProvider → Option Text
  -- Issue and cert.Parse.
  pub issue : AcmeAccount → DnsProvider → Option (List Text) → Text ⊎ ParsedCertificate

-- Error() of the errors of store.go.
unfoldable pub error_text : StoreError → Text
error_text not_found = codes "not found"
error_text conflict = codes "conflict"
error_text invalid_input = codes "invalid input"
error_text token_revoked = codes "token revoked"
error_text token_mismatch = codes "token does not match"

-- The error, if there is one, with the store that is left.
unfoldable pub publish_revision_for_fleet :
    Server → Time → Text → Text → Store → Store × Option Text
unfolding error_text sign_revision copied_host copied_certificate
publish_revision_for_fleet sv now fleet_id notes s =
    let hosts = list_proxy_hosts fleet_id s in
    let certs = list_certificates fleet_id s in
    elim (compile sv.libraries hosts certs) [
      | inl e ↦ (s, some (sv.describe e))
      | inr res ↦ elim (next_revision_number fleet_id s) [
        | err e ↦ (s, some (error_text e))
        | ok n ↦
            let (t, made) =
              create_revision now
                (sign_revision sv.signer (unsigned fleet_id n res hosts certs notes)) true s in
            elim made [ err e ↦ (t, some (error_text e)) | ok row ↦ (t, none) ]
      ]
    ]

-- executeACMEJob from the new certificate on.
unfoldable pub store_issued :
    Server → Time → AcmeJob → ParsedCertificate → Store → Store × Option Text
unfolding error_text publish_revision_for_fleet
store_issued sv now job parsed s =
    let (t, made) =
      create_certificate now
        (record (certificate_of job.fleet_id job.name parsed) { source = codes "acme" }) s in
    elim made [
      | err e ↦ (t, some (error_text e))
      | ok saved ↦
          let (u, marked) = mark_acme_job_succeeded now job.id saved.id t in
          elim marked [
            | err e ↦ (u, some (error_text e))
            | ok x ↦
                publish_revision_for_fleet sv now job.fleet_id (codes "ACME issuance: " ++ job.name)
                  u
          ]
    ]

unfoldable pub execute_acme_job : Server → AcmeCalls → Time → AcmeJob → Store → Store × Option Text
unfolding error_text store_issued
execute_acme_job sv x now job s = elim (get_acme_account job.fleet_id s) [
  | err e ↦ (s, some (error_text e))
  | ok account ↦ elim (x.account_key account.account_key_pem) [
    | some text ↦ (s, some text)
    | none ↦ elim (get_dns_provider_by_name job.fleet_id job.dns_provider s) [
      | err e ↦ (s, some (error_text e))
      | ok provider ↦ elim (x.build provider) [
        | some text ↦ (s, some text)
        | none ↦ elim (x.issue account provider job.dns_names) [
          | inl text ↦ (s, some text)
          | inr parsed ↦ store_issued sv now job parsed s
        ]
      ]
    ]
  ]
]

unfoldable pub run_acme_job : Server → AcmeCalls → Time → AcmeJob → Store → Store
unfolding execute_acme_job
run_acme_job sv x now job s =
    let (t, error) = execute_acme_job sv x now job s in
    elim error [ none ↦ t | some text ↦ (mark_acme_job_failed now job.id text t).0 ]

-- For lifetimes whose double does not overflow an int64 (146 years), as `lifetime * 2 / 3` has it.
unfoldable pub should_renew : Certificate → Time → Bool
should_renew c now =
    if leb c.not_after c.not_before
    then true
    else ltb (c.not_before + (c.not_after - c.not_before) * 2 / 3) now

unfoldable pub renew_cert : AcmeCalls → Certificate → Store → Store × Option Text
unfolding error_text
renew_cert x c s = elim (get_acme_account c.fleet_id s) [
  | err e ↦ (s, some (error_text e))
  | ok account ↦ elim (x.account_key account.account_key_pem) [
    | some text ↦ (s, some text)
    | none ↦ elim (list_dns_providers c.fleet_id s) [
      | [] ↦ (s, some (codes "acme renewal: no DNS provider configured for fleet"))
      | first ∷ others ↦ elim (get_dns_provider first.fleet_id first.id s) [
        | err e ↦ (s, some (error_text e))
        | ok full ↦ elim (x.build full) [
          | some text ↦ (s, some text)
          | none ↦ elim (x.issue account full c.dns_names) [
            | inl text ↦ (s, some text)
            | inr p ↦
                let (t, done) =
                  update_certificate_material
                    (record c {
                      cert_pem = p.cert_pem;
                      key_pem = p.key_pem;
                      fingerprint = p.fingerprint;
                      subject = p.subject;
                      issuer = p.issuer;
                      dns_names = p.dns_names;
                      not_before = p.not_before;
                      not_after = p.not_after;
                    })
                    s in
                elim done [ err e ↦ (t, some (error_text e)) | ok y ↦ (t, none) ]
          ]
        ]
      ]
    ]
  ]
]

-- The certificates of a pass, with the fleets that have had one renewed, each once.
unfoldable pub renew_certs :
    AcmeCalls → Time → List Certificate → GoMap Text Bool → Store → Store × GoMap Text Bool
unfolding should_renew renew_cert
renew_certs x now [] fleets s = (s, fleets)
renew_certs x now (c ∷ cs) fleets s =
    let (t, error) = renew_cert x c s in
    let renewed_fleets : GoMap Text Bool = elim error [
      | none ↦ put c.fleet_id true fleets
      | some text ↦ fleets
    ] in
    let due = should_renew c now in
    renew_certs x now cs (if due then renewed_fleets else fleets) (if due then t else s)

unfoldable pub publish_fleets : Server → Time → List Text → Store → Store
unfolding publish_revision_for_fleet
publish_fleets sv now [] s = s
publish_fleets sv now (id ∷ ids) s =
    publish_fleets sv now ids
      (publish_revision_for_fleet sv now id (codes "automatic ACME renewal") s).0

unfoldable pub renew_once : Server → AcmeCalls → Time → Store → Store
unfolding renew_certs publish_fleets
renew_once sv x now s =
    let (t, fleets) = renew_certs x now (list_all_acme_certificates s) [] s in
    publish_fleets sv now (map (λ f. f.0) fleets) t

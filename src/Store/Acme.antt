-- ===== src/Store/Acme.antt =====
-- ACME jobs, ACME accounts and DNS providers (memory.go:130-222 and 1089-1186).
use proxydock.Model.{
  AcmeAccount, AcmeJob, AcmeJobStatus, DnsProvider, Time, failed, pending, running, succeeded,
  unset,
}
use proxydock.Prelude.{
  Bool, List, Text, [], any, false, if◌then◌else◌, inc, int_lt, keep, length, ltb, map, nat_eq,
  none, some, sort, take, text_eq, text_lt, true, ℕ, ◌&&◌, ◌==◌, ◌∷◌,
}
use proxydock.Prelude.GoMap.{delete, find, get, put, values}
use proxydock.Store.Fleets.{stamp}
use proxydock.Store.State.{Result, Store, conflict, err, not_found, ok}

unfoldable pub new_acme_job : Time → ℕ → AcmeJob → AcmeJob
new_acme_job now id j = record j {
  id = id;
  created_at = stamp now j.created_at;
  status = elim j.status [ unset ↦ pending | x ↦ x ];
}

unfoldable pub create_acme_job : Time → AcmeJob → Store → Store × Result AcmeJob
create_acme_job now j s = elim (get j.fleet_id s.fleets) [
  | none ↦ (s, err not_found)
  | some _ ↦
      let n = inc s.acme_job_seq in
      let k = new_acme_job now n j in
      (record s { acme_job_seq = n; acme_jobs = put n k s.acme_jobs }, ok k)
]

unfoldable pub get_acme_job : ℕ → Store → Result AcmeJob
get_acme_job id s = elim (get id s.acme_jobs) [ none ↦ err not_found | some j ↦ ok j ]

-- The limit is an int; 0 and the negative ones mean no limit.
unfoldable pub list_acme_jobs : Text → ℕ → Store → List AcmeJob
list_acme_jobs fleet_id limit s =
    let out =
      sort (λ a b. int_lt b.id a.id) (keep (λ j. j.fleet_id == fleet_id) (values s.acme_jobs)) in
    if int_lt 0 limit && ltb limit (length out) then take limit out else out

-- `j.Status == model.ACMEJobPending`
abbrev pub is_pending : AcmeJobStatus → Bool
is_pending pending = true
is_pending x = false

-- The claim's scan over the keys in ascending order.
unfoldable pub claim_scan : Time → List ℕ → Store → Store × Result AcmeJob
claim_scan now [] s = (s, err not_found)
claim_scan now (k ∷ ks) s =
    let rest = claim_scan now ks s in
    elim (get k s.acme_jobs) [
      | none ↦ rest
      | some j ↦
          if is_pending j.status
          then (let claimed = record j { status = running; started_at = some now } in
              (record s { acme_jobs = put k claimed s.acme_jobs }, ok claimed))
          else rest
    ]

unfoldable pub claim_next_acme_job : Time → Store → Store × Result AcmeJob
unfolding claim_scan
claim_next_acme_job now s = claim_scan now (sort int_lt (map (λ e. e.0) s.acme_jobs)) s

unfoldable pub mark_acme_job_succeeded : Time → ℕ → ℕ → Store → Store × Result (Unit {0})
mark_acme_job_succeeded now id cert_id s = elim (get id s.acme_jobs) [
  | none ↦ (s, err not_found)
  | some j ↦ (
    record s {
      acme_jobs =
          put id
            (record j {
              status = succeeded;
              cert_id = some cert_id;
              finished_at = some now;
              error = [];
            })
            s.acme_jobs;
    },
    ok tt,
  )
]

unfoldable pub mark_acme_job_failed : Time → ℕ → Text → Store → Store × Result (Unit {0})
mark_acme_job_failed now id err_msg s = elim (get id s.acme_jobs) [
  | none ↦ (s, err not_found)
  | some j ↦ (
    record s {
      acme_jobs =
          put id (record j { status = failed; error = err_msg; finished_at = some now })
            s.acme_jobs;
    },
    ok tt,
  )
]

unfoldable pub upsert_acme_account : Time → AcmeAccount → Store → Store × Result (Unit {0})
upsert_acme_account now a s = elim (get a.fleet_id s.fleets) [
  | none ↦ (s, err not_found)
  | some _ ↦ (
    record s {
      acme_accounts =
          put a.fleet_id (record a { created_at = stamp now a.created_at }) s.acme_accounts;
    },
    ok tt,
  )
]

unfoldable pub get_acme_account : Text → Store → Result AcmeAccount
get_acme_account fleet_id s = elim (get fleet_id s.acme_accounts) [
  | none ↦ err not_found
  | some a ↦ ok a
]

unfoldable pub delete_acme_account : Text → Store → Store × Result (Unit {0})
delete_acme_account fleet_id s = elim (get fleet_id s.acme_accounts) [
  | none ↦ (s, err not_found)
  | some _ ↦ (record s { acme_accounts = delete fleet_id s.acme_accounts }, ok tt)
]

-- A provider of the fleet under that name.
abbrev pub named : Text → Text → DnsProvider → Bool
named fleet_id name d = d.fleet_id == fleet_id && d.name == name

unfoldable pub new_dns_provider : Time → ℕ → DnsProvider → DnsProvider
new_dns_provider now id d = record d { id = id; created_at = stamp now d.created_at }

unfoldable pub create_dns_provider : Time → DnsProvider → Store → Store × Result DnsProvider
create_dns_provider now d s = elim (get d.fleet_id s.fleets) [
  | none ↦ (s, err not_found)
  | some _ ↦
      if any (named d.fleet_id d.name) (values s.dns_providers)
      then (s, err conflict)
      else (let n = inc s.dns_provider_seq in
          let e = new_dns_provider now n d in
          (record s { dns_provider_seq = n; dns_providers = put n e s.dns_providers }, ok e))
]

unfoldable pub get_dns_provider : Text → ℕ → Store → Result DnsProvider
get_dns_provider fleet_id id s = elim (get id s.dns_providers) [
  | none ↦ err not_found
  | some d ↦ if d.fleet_id == fleet_id then ok d else err not_found
]

unfoldable pub get_dns_provider_by_name : Text → Text → Store → Result DnsProvider
get_dns_provider_by_name fleet_id name s = elim (find (named fleet_id name) s.dns_providers) [
  | none ↦ err not_found
  | some d ↦ ok d
]

unfoldable pub list_dns_providers : Text → Store → List DnsProvider
list_dns_providers fleet_id s =
    sort (λ a b. text_lt a.name b.name)
      (keep (λ d. d.fleet_id == fleet_id) (values s.dns_providers))

unfoldable pub delete_dns_provider : Text → ℕ → Store → Store × Result (Unit {0})
delete_dns_provider fleet_id id s = elim (get id s.dns_providers) [
  | none ↦ (s, err not_found)
  | some d ↦
      if d.fleet_id == fleet_id
      then (record s { dns_providers = delete id s.dns_providers }, ok tt)
      else (s, err not_found)
]

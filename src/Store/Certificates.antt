-- ===== src/Store/Certificates.antt =====
-- Certificates (memory.go:1005-1085).
use proxydock.Model.{Certificate, Time}
use proxydock.Prelude.{
  Bool, List, Text, any, codes, copy_slice, if◌then◌else◌, inc, keep, nat_eq, none, some, sort,
  text_eq, text_lt, ℕ, ◌&&◌, ◌==◌,
}
use proxydock.Prelude.GoMap.{delete, get, put, values}
use proxydock.Store.Fleets.{stamp}
use proxydock.Store.State.{Result, Store, conflict, err, not_found, ok}

-- A certificate of the fleet under that name.
abbrev pub same_name : Certificate → Certificate → Bool
same_name c existing = existing.fleet_id == c.fleet_id && existing.name == c.name

unfoldable pub new_certificate : Time → ℕ → Certificate → Certificate
new_certificate now id c = record c { id = id; created_at = stamp now c.created_at }

-- The row that UpdateCertificateMaterial writes over `cur`.
unfoldable pub renewed : Certificate → Certificate → Certificate
renewed c cur = record cur {
  cert_pem = c.cert_pem;
  key_pem = c.key_pem;
  fingerprint = c.fingerprint;
  subject = c.subject;
  issuer = c.issuer;
  dns_names = copy_slice c.dns_names;
  not_before = c.not_before;
  not_after = c.not_after;
}

unfoldable pub create_certificate : Time → Certificate → Store → Store × Result Certificate
create_certificate now c s = elim (get c.fleet_id s.fleets) [
  | none ↦ (s, err not_found)
  | some _ ↦
      if any (same_name c) (values s.certificates)
      then (s, err conflict)
      else (let n = inc s.certificate_seq in
          let d = new_certificate now n c in
          (record s { certificate_seq = n; certificates = put n d s.certificates }, ok d))
]

unfoldable pub get_certificate : Text → ℕ → Store → Result Certificate
get_certificate fleet_id id s = elim (get id s.certificates) [
  | none ↦ err not_found
  | some c ↦ if c.fleet_id == fleet_id then ok c else err not_found
]

unfoldable pub list_certificates : Text → Store → List Certificate
list_certificates fleet_id s =
    sort (λ a b. text_lt a.name b.name) (keep (λ c. c.fleet_id == fleet_id) (values s.certificates))

unfoldable pub delete_certificate : Text → ℕ → Store → Store × Result (Unit {0})
delete_certificate fleet_id id s = elim (get id s.certificates) [
  | none ↦ (s, err not_found)
  | some c ↦
      if c.fleet_id == fleet_id
      then (record s { certificates = delete id s.certificates }, ok tt)
      else (s, err not_found)
]

unfoldable pub list_all_acme_certificates : Store → List Certificate
list_all_acme_certificates s = keep (λ c. c.source == codes "acme") (values s.certificates)

unfoldable pub update_certificate_material : Certificate → Store → Store × Result (Unit {0})
update_certificate_material c s = elim (get c.id s.certificates) [
  | none ↦ (s, err not_found)
  | some cur ↦
      if cur.fleet_id == c.fleet_id
      then (record s { certificates = put c.id (renewed c cur) s.certificates }, ok tt)
      else (s, err not_found)
]

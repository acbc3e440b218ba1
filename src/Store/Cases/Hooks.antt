-- ===== src/Store/Cases/Hooks.antt =====
-- How the methods on webhooks, certificates and DNS providers can end: to show `P` of the store after a call, show it of the
-- store as it was and of the store that the call may write.
use proxydock.Store.Webhooks
use proxydock.Store.Certificates
use proxydock.Model.{Certificate, DnsProvider, Fleet, Time, Webhook}
use proxydock.Prelude.{
  Bool-cases, Option-cases, Text, any, false, inc, inl, inr, nat_eq, not, some, text_eq, true, ℕ,
  ◌&&◌, ◌==◌, ◌≡◌,
}
use proxydock.Prelude.GoMap.{delete, get, put, values}
use proxydock.Store.Acme.{create_dns_provider, delete_dns_provider, named, new_dns_provider}
use proxydock.Store.Certificates.{
  create_certificate, delete_certificate, new_certificate, renewed, update_certificate_material,
}
use proxydock.Store.State.{Store}
use proxydock.Store.Webhooks.{
  create_webhook, delete_webhook, new_webhook, update_webhook, updated_webhook,
}

module _ (P : Store → Type 0) (s : Store) (same : P s) where
  pub create_webhook_cases :
      (now : Time) (w : Webhook)
      → ((f : Fleet)
          → get w.fleet_id s.fleets ≡ some f
          → (any (Webhooks.same_name w) (values s.webhooks)) ≡ false
          → P (record s {
            webhook_seq = inc s.webhook_seq;
            webhooks = put (inc s.webhook_seq) (new_webhook now (inc s.webhook_seq) w) s.webhooks;
          }))
      → P (create_webhook now w s).0
  unfolding create_webhook
  create_webhook_cases now w made = elim (Option-cases (get w.fleet_id s.fleets)) [
    | inl e0 ↦ rw (e0, create_webhook) same
    | inr (f0, e0) ↦ elim (Bool-cases (any (Webhooks.same_name w) (values s.webhooks))) [
      | inl e1 ↦ rw (e0, e1, create_webhook) same
      | inr e1 ↦ rw (e0, e1, create_webhook) (made f0 e0 e1)
    ]
  ]

  pub update_webhook_cases :
      (p : Webhook)
      → ((cur : Webhook)
          → get p.id s.webhooks ≡ some cur
          → (cur.fleet_id == p.fleet_id) ≡ true
          → (any
              (λ existing. not (existing.id == p.id) && Webhooks.same_name p existing)
              (values s.webhooks))
            ≡ false
          → P (record s { webhooks = put p.id (updated_webhook p cur) s.webhooks }))
      → P (update_webhook p s).0
  unfolding update_webhook
  update_webhook_cases p made = elim (Option-cases (get p.id s.webhooks)) [
    | inl e0 ↦ rw (e0, update_webhook) same
    | inr (cur0, e0) ↦ elim (Bool-cases (cur0.fleet_id == p.fleet_id)) [
      | inl e1 ↦
          elim (Bool-cases (
            any (λ existing. not (existing.id == p.id) && Webhooks.same_name p existing)
              (values s.webhooks))) [
                | inl e2 ↦ rw (e0, e1, e2, update_webhook) same
                | inr e2 ↦ rw (e0, e1, e2, update_webhook) (made cur0 e0 e1 e2)
              ]
      | inr e1 ↦ rw (e0, e1, update_webhook) same
    ]
  ]

  pub delete_webhook_cases :
      (fleet_id : Text) (id : ℕ)
      → ((p : Webhook)
          → get id s.webhooks ≡ some p
          → (p.fleet_id == fleet_id) ≡ true
          → P (record s { webhooks = delete id s.webhooks }))
      → P (delete_webhook fleet_id id s).0
  unfolding delete_webhook
  delete_webhook_cases fleet_id id made = elim (Option-cases (get id s.webhooks)) [
    | inl e0 ↦ rw (e0, delete_webhook) same
    | inr (p0, e0) ↦ elim (Bool-cases (p0.fleet_id == fleet_id)) [
      | inl e1 ↦ rw (e0, e1, delete_webhook) (made p0 e0 e1)
      | inr e1 ↦ rw (e0, e1, delete_webhook) same
    ]
  ]

  pub create_certificate_cases :
      (now : Time) (c : Certificate)
      → ((f : Fleet)
          → get c.fleet_id s.fleets ≡ some f
          → (any (Certificates.same_name c) (values s.certificates)) ≡ false
          → P (record s {
            certificate_seq = inc s.certificate_seq;
            certificates =
                put
                  (inc s.certificate_seq)
                  (new_certificate now (inc s.certificate_seq) c)
                  s.certificates;
          }))
      → P (create_certificate now c s).0
  unfolding create_certificate
  create_certificate_cases now c made = elim (Option-cases (get c.fleet_id s.fleets)) [
    | inl e0 ↦ rw (e0, create_certificate) same
    | inr (f0, e0) ↦ elim (Bool-cases (any (Certificates.same_name c) (values s.certificates))) [
      | inl e1 ↦ rw (e0, e1, create_certificate) same
      | inr e1 ↦ rw (e0, e1, create_certificate) (made f0 e0 e1)
    ]
  ]

  pub update_certificate_material_cases :
      (c : Certificate)
      → ((cur : Certificate)
          → get c.id s.certificates ≡ some cur
          → (cur.fleet_id == c.fleet_id) ≡ true
          → P (record s { certificates = put c.id (renewed c cur) s.certificates }))
      → P (update_certificate_material c s).0
  unfolding update_certificate_material
  update_certificate_material_cases c made = elim (Option-cases (get c.id s.certificates)) [
    | inl e0 ↦ rw (e0, update_certificate_material) same
    | inr (cur0, e0) ↦ elim (Bool-cases (cur0.fleet_id == c.fleet_id)) [
      | inl e1 ↦ rw (e0, e1, update_certificate_material) (made cur0 e0 e1)
      | inr e1 ↦ rw (e0, e1, update_certificate_material) same
    ]
  ]

  pub delete_certificate_cases :
      (fleet_id : Text) (id : ℕ)
      → ((p : Certificate)
          → get id s.certificates ≡ some p
          → (p.fleet_id == fleet_id) ≡ true
          → P (record s { certificates = delete id s.certificates }))
      → P (delete_certificate fleet_id id s).0
  unfolding delete_certificate
  delete_certificate_cases fleet_id id made = elim (Option-cases (get id s.certificates)) [
    | inl e0 ↦ rw (e0, delete_certificate) same
    | inr (p0, e0) ↦ elim (Bool-cases (p0.fleet_id == fleet_id)) [
      | inl e1 ↦ rw (e0, e1, delete_certificate) (made p0 e0 e1)
      | inr e1 ↦ rw (e0, e1, delete_certificate) same
    ]
  ]

  pub create_dns_provider_cases :
      (now : Time) (d : DnsProvider)
      → ((f : Fleet)
          → get d.fleet_id s.fleets ≡ some f
          → (any (named d.fleet_id d.name) (values s.dns_providers)) ≡ false
          → P (record s {
            dns_provider_seq = inc s.dns_provider_seq;
            dns_providers =
                put
                  (inc s.dns_provider_seq)
                  (new_dns_provider now (inc s.dns_provider_seq) d)
                  s.dns_providers;
          }))
      → P (create_dns_provider now d s).0
  unfolding create_dns_provider
  create_dns_provider_cases now d made = elim (Option-cases (get d.fleet_id s.fleets)) [
    | inl e0 ↦ rw (e0, create_dns_provider) same
    | inr (f0, e0) ↦ elim (Bool-cases (any (named d.fleet_id d.name) (values s.dns_providers))) [
      | inl e1 ↦ rw (e0, e1, create_dns_provider) same
      | inr e1 ↦ rw (e0, e1, create_dns_provider) (made f0 e0 e1)
    ]
  ]

  pub delete_dns_provider_cases :
      (fleet_id : Text) (id : ℕ)
      → ((p : DnsProvider)
          → get id s.dns_providers ≡ some p
          → (p.fleet_id == fleet_id) ≡ true
          → P (record s { dns_providers = delete id s.dns_providers }))
      → P (delete_dns_provider fleet_id id s).0
  unfolding delete_dns_provider
  delete_dns_provider_cases fleet_id id made = elim (Option-cases (get id s.dns_providers)) [
    | inl e0 ↦ rw (e0, delete_dns_provider) same
    | inr (p0, e0) ↦ elim (Bool-cases (p0.fleet_id == fleet_id)) [
      | inl e1 ↦ rw (e0, e1, delete_dns_provider) (made p0 e0 e1)
      | inr e1 ↦ rw (e0, e1, delete_dns_provider) same
    ]
  ]

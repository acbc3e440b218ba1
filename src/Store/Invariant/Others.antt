-- ===== src/Store/Invariant/Others.antt =====
-- The methods on templates, webhooks, certificates and DNS providers keep the store well-formed.
use proxydock.Model.{Certificate, DnsProvider, MiddlewareTemplate, Time, Webhook}
use proxydock.Prelude.{Text, refl, text_beq_iff, ℕ, ◌+◌, ◌<◌, ◌^◌}
use proxydock.Store.Acme.{create_dns_provider, delete_dns_provider, new_dns_provider}
use proxydock.Store.Cases.Hooks.{
  create_certificate_cases, create_dns_provider_cases, create_webhook_cases,
  delete_certificate_cases, delete_dns_provider_cases, delete_webhook_cases,
  update_certificate_material_cases, update_webhook_cases,
}
use proxydock.Store.Cases.Hosts.{
  create_middleware_template_cases, delete_middleware_template_cases,
  update_middleware_template_cases,
}
use proxydock.Store.Certificates.{
  create_certificate, delete_certificate, new_certificate, renewed, update_certificate_material,
}
use proxydock.Store.Invariant.{Wf}
use proxydock.Store.Invariant.Rows.{inc_lem, same_pair}
use proxydock.Store.State.{Store}
use proxydock.Store.Table.{create-TableOk, delete-TableOk, rewrite-TableOk, update-TableOk}
use proxydock.Store.Templates.{
  create_middleware_template, delete_middleware_template, new_template, update_middleware_template,
  updated_template,
}
use proxydock.Store.Webhooks.{
  create_webhook, delete_webhook, new_webhook, update_webhook, updated_webhook,
}

module _ {s : Store} (w : Wf s) where
  pub create_middleware_template-Wf :
      (now : Time) (t : MiddlewareTemplate)
      → s.mw_template_seq + 1 < 2 ^ 63
      → Wf (create_middleware_template now t s).0
  unfolding new_template
  create_middleware_template-Wf now t room =
      create_middleware_template_cases Wf s w now t λ f there free.
        rw (inc_lem s.mw_template_seq room) (
          assumption (
            create-TableOk _ _ w.templates (λ a b. same_pair b.fleet_id a.fleet_id b.name a.name)
              (new_template now (s.mw_template_seq + 1) t) refl free))

  pub update_middleware_template-Wf :
      (now : Time) (t : MiddlewareTemplate) → Wf (update_middleware_template now t s).0
  unfolding updated_template
  update_middleware_template-Wf now t =
      update_middleware_template_cases Wf s w now t λ cur there same free. assumption (
        update-TableOk _ _ w.templates (λ a b. same_pair b.fleet_id a.fleet_id b.name a.name) t.id
          cur (updated_template now t cur) there (w.templates.own_id t.id cur there)
          (rw ((text_beq_iff cur.fleet_id t.fleet_id).0 same) free))

  pub delete_middleware_template-Wf :
      (fleet_id : Text) (id : ℕ) → Wf (delete_middleware_template fleet_id id s).0
  delete_middleware_template-Wf fleet_id id =
      delete_middleware_template_cases Wf s w fleet_id id
        λ t there same. assumption (delete-TableOk _ _ w.templates id)

  pub create_webhook-Wf :
      (now : Time) (h : Webhook) → s.webhook_seq + 1 < 2 ^ 63 → Wf (create_webhook now h s).0
  unfolding new_webhook
  create_webhook-Wf now h room = create_webhook_cases Wf s w now h λ f there free.
      rw (inc_lem s.webhook_seq room) (
        assumption (
          create-TableOk _ _ w.webhooks (λ a b. same_pair b.fleet_id a.fleet_id b.name a.name)
            (new_webhook now (s.webhook_seq + 1) h) refl free))

  pub update_webhook-Wf : (h : Webhook) → Wf (update_webhook h s).0
  unfolding updated_webhook
  update_webhook-Wf h = update_webhook_cases Wf s w h λ cur there same free. assumption (
      update-TableOk _ _ w.webhooks (λ a b. same_pair b.fleet_id a.fleet_id b.name a.name) h.id cur
        (updated_webhook h cur) there (w.webhooks.own_id h.id cur there)
        (rw ((text_beq_iff cur.fleet_id h.fleet_id).0 same) free))

  pub delete_webhook-Wf : (fleet_id : Text) (id : ℕ) → Wf (delete_webhook fleet_id id s).0
  delete_webhook-Wf fleet_id id =
      delete_webhook_cases Wf s w fleet_id id
        λ h there same. assumption (delete-TableOk _ _ w.webhooks id)

  pub create_certificate-Wf :
      (now : Time) (c : Certificate)
      → s.certificate_seq + 1 < 2 ^ 63
      → Wf (create_certificate now c s).0
  unfolding new_certificate
  create_certificate-Wf now c room = create_certificate_cases Wf s w now c λ f there free.
      rw (inc_lem s.certificate_seq room) (
        assumption (
          create-TableOk _ _ w.certificates (λ a b. same_pair b.fleet_id a.fleet_id b.name a.name)
            (new_certificate now (s.certificate_seq + 1) c) refl free))

  pub update_certificate_material-Wf : (c : Certificate) → Wf (update_certificate_material c s).0
  unfolding renewed
  update_certificate_material-Wf c = update_certificate_material_cases Wf s w c λ cur there same.
      assumption (
        rewrite-TableOk _ _ w.certificates c.id cur (renewed c cur) there
          (w.certificates.own_id c.id cur there) (λ d. refl) (λ d. refl))

  pub delete_certificate-Wf : (fleet_id : Text) (id : ℕ) → Wf (delete_certificate fleet_id id s).0
  delete_certificate-Wf fleet_id id =
      delete_certificate_cases Wf s w fleet_id id
        λ c there same. assumption (delete-TableOk _ _ w.certificates id)

  pub create_dns_provider-Wf :
      (now : Time) (d : DnsProvider)
      → s.dns_provider_seq + 1 < 2 ^ 63
      → Wf (create_dns_provider now d s).0
  unfolding new_dns_provider
  create_dns_provider-Wf now d room = create_dns_provider_cases Wf s w now d λ f there free.
      rw (inc_lem s.dns_provider_seq room) (
        assumption (
          create-TableOk _ _ w.providers (λ a b. same_pair b.fleet_id a.fleet_id b.name a.name)
            (new_dns_provider now (s.dns_provider_seq + 1) d) refl free))

  pub delete_dns_provider-Wf : (fleet_id : Text) (id : ℕ) → Wf (delete_dns_provider fleet_id id s).0
  delete_dns_provider-Wf fleet_id id =
      delete_dns_provider_cases Wf s w fleet_id id
        λ d there same. assumption (delete-TableOk _ _ w.providers id)

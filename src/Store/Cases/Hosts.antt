-- ===== src/Store/Cases/Hosts.antt =====
-- How the methods on proxy hosts and templates can end: to show `P` of the store after a call, show it of the
-- store as it was and of the store that the call may write.
use proxydock.Store.ProxyHosts
use proxydock.Store.Templates
use proxydock.Model.{Fleet, MiddlewareTemplate, ProxyHost, Time}
use proxydock.Prelude.{
  Bool-cases, Option-cases, Text, any, false, inc, inl, inr, nat_eq, not, some, text_eq, true, ℕ,
  ◌&&◌, ◌==◌, ◌≡◌,
}
use proxydock.Prelude.GoMap.{delete, get, put, values}
use proxydock.Store.ProxyHosts.{
  create_proxy_host, delete_proxy_host, new_proxy_host, update_proxy_host, updated_proxy_host,
}
use proxydock.Store.State.{Store}
use proxydock.Store.Templates.{
  create_middleware_template, delete_middleware_template, new_template, update_middleware_template,
  updated_template,
}

module _ (P : Store → Type 0) (s : Store) (same : P s) where
  pub create_proxy_host_cases :
      (now : Time) (p : ProxyHost)
      → ((f : Fleet)
          → get p.fleet_id s.fleets ≡ some f
          → (any (ProxyHosts.same_name p) (values s.proxy_hosts)) ≡ false
          → P (record s {
            proxy_host_seq = inc s.proxy_host_seq;
            proxy_hosts =
                put
                  (inc s.proxy_host_seq)
                  (new_proxy_host now (inc s.proxy_host_seq) p)
                  s.proxy_hosts;
          }))
      → P (create_proxy_host now p s).0
  unfolding create_proxy_host
  create_proxy_host_cases now p made = elim (Option-cases (get p.fleet_id s.fleets)) [
    | inl e0 ↦ rw (e0, create_proxy_host) same
    | inr (f0, e0) ↦ elim (Bool-cases (any (ProxyHosts.same_name p) (values s.proxy_hosts))) [
      | inl e1 ↦ rw (e0, e1, create_proxy_host) same
      | inr e1 ↦ rw (e0, e1, create_proxy_host) (made f0 e0 e1)
    ]
  ]

  pub update_proxy_host_cases :
      (now : Time) (p : ProxyHost)
      → ((cur : ProxyHost)
          → get p.id s.proxy_hosts ≡ some cur
          → (cur.fleet_id == p.fleet_id) ≡ true
          → (any
              (λ existing. not (existing.id == p.id) && ProxyHosts.same_name p existing)
              (values s.proxy_hosts))
            ≡ false
          → P (record s { proxy_hosts = put p.id (updated_proxy_host now p cur) s.proxy_hosts }))
      → P (update_proxy_host now p s).0
  unfolding update_proxy_host
  update_proxy_host_cases now p made = elim (Option-cases (get p.id s.proxy_hosts)) [
    | inl e0 ↦ rw (e0, update_proxy_host) same
    | inr (cur0, e0) ↦ elim (Bool-cases (cur0.fleet_id == p.fleet_id)) [
      | inl e1 ↦
          elim (Bool-cases (
            any (λ existing. not (existing.id == p.id) && ProxyHosts.same_name p existing)
              (values s.proxy_hosts))) [
                | inl e2 ↦ rw (e0, e1, e2, update_proxy_host) same
                | inr e2 ↦ rw (e0, e1, e2, update_proxy_host) (made cur0 e0 e1 e2)
              ]
      | inr e1 ↦ rw (e0, e1, update_proxy_host) same
    ]
  ]

  pub delete_proxy_host_cases :
      (fleet_id : Text) (id : ℕ)
      → ((p : ProxyHost)
          → get id s.proxy_hosts ≡ some p
          → (p.fleet_id == fleet_id) ≡ true
          → P (record s { proxy_hosts = delete id s.proxy_hosts }))
      → P (delete_proxy_host fleet_id id s).0
  unfolding delete_proxy_host
  delete_proxy_host_cases fleet_id id made = elim (Option-cases (get id s.proxy_hosts)) [
    | inl e0 ↦ rw (e0, delete_proxy_host) same
    | inr (p0, e0) ↦ elim (Bool-cases (p0.fleet_id == fleet_id)) [
      | inl e1 ↦ rw (e0, e1, delete_proxy_host) (made p0 e0 e1)
      | inr e1 ↦ rw (e0, e1, delete_proxy_host) same
    ]
  ]

  pub create_middleware_template_cases :
      (now : Time) (t : MiddlewareTemplate)
      → ((f : Fleet)
          → get t.fleet_id s.fleets ≡ some f
          → (any (Templates.same_name t) (values s.mw_templates)) ≡ false
          → P (record s {
            mw_template_seq = inc s.mw_template_seq;
            mw_templates =
                put
                  (inc s.mw_template_seq)
                  (new_template now (inc s.mw_template_seq) t)
                  s.mw_templates;
          }))
      → P (create_middleware_template now t s).0
  unfolding create_middleware_template
  create_middleware_template_cases now t made = elim (Option-cases (get t.fleet_id s.fleets)) [
    | inl e0 ↦ rw (e0, create_middleware_template) same
    | inr (f0, e0) ↦ elim (Bool-cases (any (Templates.same_name t) (values s.mw_templates))) [
      | inl e1 ↦ rw (e0, e1, create_middleware_template) same
      | inr e1 ↦ rw (e0, e1, create_middleware_template) (made f0 e0 e1)
    ]
  ]

  pub update_middleware_template_cases :
      (now : Time) (p : MiddlewareTemplate)
      → ((cur : MiddlewareTemplate)
          → get p.id s.mw_templates ≡ some cur
          → (cur.fleet_id == p.fleet_id) ≡ true
          → (any
              (λ existing. not (existing.id == p.id) && Templates.same_name p existing)
              (values s.mw_templates))
            ≡ false
          → P (record s { mw_templates = put p.id (updated_template now p cur) s.mw_templates }))
      → P (update_middleware_template now p s).0
  unfolding update_middleware_template
  update_middleware_template_cases now p made = elim (Option-cases (get p.id s.mw_templates)) [
    | inl e0 ↦ rw (e0, update_middleware_template) same
    | inr (cur0, e0) ↦ elim (Bool-cases (cur0.fleet_id == p.fleet_id)) [
      | inl e1 ↦
          elim (Bool-cases (
            any (λ existing. not (existing.id == p.id) && Templates.same_name p existing)
              (values s.mw_templates))) [
                | inl e2 ↦ rw (e0, e1, e2, update_middleware_template) same
                | inr e2 ↦ rw (e0, e1, e2, update_middleware_template) (made cur0 e0 e1 e2)
              ]
      | inr e1 ↦ rw (e0, e1, update_middleware_template) same
    ]
  ]

  pub delete_middleware_template_cases :
      (fleet_id : Text) (id : ℕ)
      → ((p : MiddlewareTemplate)
          → get id s.mw_templates ≡ some p
          → (p.fleet_id == fleet_id) ≡ true
          → P (record s { mw_templates = delete id s.mw_templates }))
      → P (delete_middleware_template fleet_id id s).0
  unfolding delete_middleware_template
  delete_middleware_template_cases fleet_id id made = elim (Option-cases (get id s.mw_templates)) [
    | inl e0 ↦ rw (e0, delete_middleware_template) same
    | inr (p0, e0) ↦ elim (Bool-cases (p0.fleet_id == fleet_id)) [
      | inl e1 ↦ rw (e0, e1, delete_middleware_template) (made p0 e0 e1)
      | inr e1 ↦ rw (e0, e1, delete_middleware_template) same
    ]
  ]

-- ===== src/Api/Checked.antt =====
-- apps/api/internal/api/admin_handlers.go: the checks that a created proxy host has passed, and
-- reading it again.
use proxydock.Api.Answers.{
  Decoded, Server, and_answer, answer, bad_json, decoded, no_body, reply, store_error, with_body,
}
use proxydock.Api.Guard.{result_cases}
use proxydock.Api.Hosts.{
  ProxyHostInput, create_host, handle_create_proxy_host, host_of_input, input_fault, no_input,
  validate_input,
}
use proxydock.Labels.{Selector, parse}
use proxydock.Model.{ProxyHost, Time}
use proxydock.Prelude.{
  ==_iff, ==_refl, Bool-cases, Option, Option-cases, Text, [], any, ap, arith, beq_false, codes,
  if◌then◌else◌, inc, inl, inr, nat_eq, none, refl, some, subst, sum_cases, sym, text_beq_iff,
  text_eq, ◌==◌, ◌∙◌, ◌≡◌, ◌≢◌, ◌⊎◌,
}
use proxydock.Prelude.GoMap.{get, get-put, put, values}
use proxydock.Prelude.Strings.{trim_space}
use proxydock.Store.Acme.{named}
use proxydock.Store.ProxyHosts.{create_proxy_host, get_proxy_host, new_proxy_host, same_name}
use proxydock.Store.State.{Store, ok}

-- What validate and labels.Validate ask of a stored host.
abbrev pub Sound : ProxyHost → Type 0
Sound h =
    (trim_space h.name ≢ [])
    × ((h.protocol ≡ codes "udp") ⊎ (trim_space h.domain ≢ []))
    × ((sel : Selector) × (parse h.label_selector ≡ inr sel))

-- The fields that the checks are about, of a row made from an input.
abbrev Taken : ProxyHostInput → ProxyHost → Type 0
Taken x h =
    (h.name ≡ x.name)
    × (h.domain ≡ x.domain)
    × (h.label_selector ≡ x.label_selector)
    × (h.protocol ≡ (if x.protocol == [] then codes "http" else x.protocol))

validate_input-none :
    (x : ProxyHostInput)
    → validate_input x ≡ none
    → (trim_space x.name ≢ [])
      × (((if x.protocol == [] then codes "http" else x.protocol) ≡ codes "udp")
          ⊎ (trim_space x.domain ≢ []))
unfolding validate_input
validate_input-none x e =
    let proto = if x.protocol == [] then codes "http" else x.protocol in
    elim (Bool-cases (trim_space x.name == [])) [
      | inl n ↦ absurd (ground arith)
      | inr n ↦ elim (Bool-cases (proto == codes "udp")) [
        | inl u ↦ (beq_false (trim_space x.name) [] n, inl ((==_iff proto (codes "udp")).0 u))
        | inr u ↦ (
          beq_false (trim_space x.name) [] n,
          inr (beq_false (trim_space x.domain) [] (ground arith)),
        )
      ]
    ]

input_fault-Sound :
    (sv : Server) (x : ProxyHostInput) (h : ProxyHost)
    → input_fault sv x ≡ none
    → Taken x h
    → Sound h
unfolding input_fault
input_fault-Sound sv x h e (name, domain, selector, protocol) =
    elim (Option-cases (validate_input x)) [
      | inr (f, v) ↦ absurd (ground arith)
      | inl v ↦ elim (sum_cases (parse x.label_selector)) [
        | inl (f, p) ↦ absurd (ground arith)
        | inr (sel, p) ↦
            let (named, placed) = validate_input-none x v in
            (
              subst (λ z. trim_space z ≢ []) (sym name) named,
              elim placed [
                | inl u ↦ inl (protocol ∙ u)
                | inr d ↦ inr (subst (λ z. trim_space z ≢ []) (sym domain) d)
              ],
              (sel, ap parse selector ∙ p),
            )
      ]
    ]

create_proxy_host-stored :
    (now : Time) (x : ProxyHostInput) (id : Text) (s : Store) (p : ProxyHost)
    → (create_proxy_host now (host_of_input 0 id x) s).1 ≡ ok p
    → Taken x p × (get_proxy_host id p.id (create_proxy_host now (host_of_input 0 id x) s).0 ≡ ok p)
unfolding create_proxy_host new_proxy_host get_proxy_host
create_proxy_host-stored now x id s p e =
    let h = host_of_input 0 id x in
    elim (Option-cases (get id s.fleets)) [
      | inl g ↦ absurd (ground arith)
      | inr (f, g) ↦ elim (Bool-cases (any (same_name h) (values s.proxy_hosts))) [
        | inl c ↦ absurd (ground arith)
        | inr c ↦
            let row = new_proxy_host now (inc s.proxy_host_seq) h in
            let same : row ≡ p = ground arith in
            let n = inc s.proxy_host_seq in
            let after : Store = record s {
              proxy_host_seq = n;
              proxy_hosts = put n row s.proxy_hosts;
            } in
            let store : (create_proxy_host now h s).0 ≡ after = rw (g, c, create_proxy_host) refl in
            let found : get_proxy_host id n after ≡ ok row =
              ground (arith, get-put n n row s.proxy_hosts, ==_refl n, text_beq_iff id id) in
            (
              subst (Taken x) same (refl, refl, refl, refl),
              ap (get_proxy_host id p.id) store
                  ∙ subst (λ (z : ProxyHost). get_proxy_host id z.id after ≡ ok z) same found,
            )
      ]
    ]

-- What a created host is: checked, and found again under its id.
abbrev pub Created : Text → Store → ProxyHost → Type 0
Created id t p = Sound p × (get_proxy_host id p.id t ≡ ok p)

create_host-Created :
    (sv : Server) (now : Time) (id : Text) (x : ProxyHostInput) (s : Store) (etag : Option Text)
    (p : ProxyHost)
    → (create_host sv now id x s).1 ≡ reply 201 etag (some p)
    → Created id (create_host sv now id x s).0 p
unfolding create_host and_answer answer store_error
create_host-Created sv now id x s etag p e = elim (Option-cases (input_fault sv x)) [
  | inr (text, f) ↦ absurd (ground arith)
  | inl f ↦ elim (result_cases (create_proxy_host now (host_of_input 0 id x) s).1) [
    | inl (y, c) ↦ absurd (ground arith)
    | inr (q, c) ↦
        let same : q ≡ p = ground arith in
        let (taken, found) = create_proxy_host-stored now x id s p (c ∙ ap (λ z. ok z) same) in
        let store : (create_host sv now id x s).0
            ≡ (create_proxy_host now (host_of_input 0 id x) s).0 =
          rw (f, create_host, and_answer) refl in
        (input_fault-Sound sv x p f taken, ap (get_proxy_host id p.id) store ∙ found)
  ]
]

-- If the API answers that it has created a proxy host, the host has a name, a domain unless it is a
-- UDP host, and a label selector that parses, and it is found in the store under its fleet and id.
pub handle_create_proxy_host-Created :
    (sv : Server) (now : Time) (id : Text) (body : Decoded ProxyHostInput) (s : Store)
    (etag : Option Text) (p : ProxyHost)
    → (handle_create_proxy_host sv now id body s).1 ≡ reply 201 etag (some p)
    → Created id (handle_create_proxy_host sv now id body s).0 p
unfolding handle_create_proxy_host with_body
handle_create_proxy_host-Created sv now id no_body s etag p e =
    create_host-Created sv now id no_input s etag p e
handle_create_proxy_host-Created sv now id (bad_json text x) s etag p e = absurd (ground arith)
handle_create_proxy_host-Created sv now id (decoded x) s etag p e =
    create_host-Created sv now id x s etag p e

-- ===== src/Api/Hosts.antt =====
-- apps/api/internal/api/admin_handlers.go: proxy hosts and revisions. A number in the path is what
-- strconv makes of it.
use proxydock.Api.Answers.{
  Decoded, Response, Server, and_answer, answer, no_content, problem, with_body,
}
use proxydock.Api.Resources.{of_fleet}
use proxydock.Labels.{parse}
use proxydock.Model.{Middleware, ProxyHost, Revision, Time}
use proxydock.Model.Value.{Any}
use proxydock.Prelude.{
  Bool, List, Option, Text, [], any, codes, false, if◌then◌else◌, inl, inr, items, nat_eq, none,
  not, some, text_eq, true, ℕ, ◌&&◌, ◌++◌, ◌==◌,
}
use proxydock.Prelude.GoMap.{GoMap}
use proxydock.Prelude.Strings.{trim_space}
use proxydock.Store.ProxyHosts.{
  create_proxy_host, delete_proxy_host, get_proxy_host, list_proxy_hosts, update_proxy_host,
}
use proxydock.Store.Revisions.{get_revision, list_revisions}
use proxydock.Store.State.{Store}

-- proxyHostInput
pub record ProxyHostInput : Type 0 where
  pub name : Text
  pub protocol : Text
  pub domain : Text
  pub upstream_url : Text
  pub upstream_urls : Option (List Text)
  pub sticky_session : Bool
  pub health_check : Option (GoMap Text Any)
  pub entry_points : Option (List Text)
  pub middlewares : Option (List Middleware)
  pub tls : Bool
  pub label_selector : Text
  pub enabled : Option Bool

abbrev pub no_input : ProxyHostInput
no_input = record {
  name = [];
  protocol = [];
  domain = [];
  upstream_url = [];
  upstream_urls = none;
  sticky_session = false;
  health_check = none;
  entry_points = none;
  middlewares = none;
  tls = false;
  label_selector = [];
  enabled = none;
}

pub data InputError : Type 0 where
  no_host_name no_upstream no_domain : InputError

unfoldable pub input_text : InputError → Text
input_text no_host_name = codes "name is required"
input_text no_upstream = codes "upstream_url or upstream_urls is required"
input_text no_domain = codes "domain is required for http and tcp protocols"

-- proxyHostInput.validate
unfoldable pub validate_input : ProxyHostInput → Option InputError
validate_input x =
    let proto = if x.protocol == [] then codes "http" else x.protocol in
    if trim_space x.name == []
    then some no_host_name
    else if trim_space x.upstream_url == []
        && not (any (λ u. not (trim_space u == [])) (items x.upstream_urls))
    then some no_upstream
    else if not (proto == codes "udp") && trim_space x.domain == []
    then some no_domain
    else none

unfoldable pub enabled_or_default : ProxyHostInput → Bool
enabled_or_default x = elim x.enabled [ none ↦ true | some b ↦ b ]

abbrev pub host_of_input : ℕ → Text → ProxyHostInput → ProxyHost
host_of_input id fleet_id x = record {
  id = id;
  fleet_id = fleet_id;
  name = x.name;
  protocol = x.protocol;
  domain = x.domain;
  upstream_url = x.upstream_url;
  upstream_urls = x.upstream_urls;
  sticky_session = x.sticky_session;
  health_check = x.health_check;
  entry_points = x.entry_points;
  middlewares = x.middlewares;
  tls = x.tls;
  label_selector = x.label_selector;
  enabled = enabled_or_default x;
  created_at = 0;
  updated_at = 0;
}

-- The text of what is wrong with an input, label selector included.
unfoldable pub input_fault : Server → ProxyHostInput → Option Text
unfolding validate_input input_text
input_fault sv x = elim (validate_input x) [
  | some e ↦ some (input_text e)
  | none ↦ elim (parse x.label_selector) [ inl e ↦ some (sv.describe_label e) | inr sel ↦ none ]
]

unfoldable pub handle_list_proxy_hosts : Text → Store → Response (List ProxyHost)
unfolding of_fleet
handle_list_proxy_hosts fleet_id s = of_fleet fleet_id (list_proxy_hosts fleet_id s) s

-- handleCreateProxyHost, for a body that has been decoded.
unfoldable pub create_host :
    Server → Time → Text → ProxyHostInput → Store → Store × Response ProxyHost
unfolding and_answer answer input_fault enabled_or_default
create_host sv now fleet_id x s = elim (input_fault sv x) [
  | some text ↦ (s, problem 400 text)
  | none ↦ and_answer (answer 201) (create_proxy_host now (host_of_input 0 fleet_id x) s)
]

unfoldable pub handle_create_proxy_host :
    Server → Time → Text → Decoded ProxyHostInput → Store → Store × Response ProxyHost
unfolding with_body create_host
handle_create_proxy_host sv now fleet_id body s =
    with_body no_input body (create_host sv now fleet_id) s

unfoldable pub with_id :
    {A : Type 0} → Text → Option ℕ → (ℕ → Store → Store × Response A) → Store → Store × Response A
with_id what none go s = (s, problem 400 (what ++ codes " must be an integer"))
with_id what (some id) go s = go id s

unfoldable pub handle_get_proxy_host : Text → Option ℕ → Store → Store × Response ProxyHost
unfolding with_id answer
handle_get_proxy_host fleet_id id s =
    with_id (codes "ph_id") id (λ n t. (t, answer 200 (get_proxy_host fleet_id n t))) s

unfoldable pub handle_update_proxy_host :
    Server → Time → Text → Option ℕ → Decoded ProxyHostInput → Store → Store × Response ProxyHost
unfolding with_id with_body and_answer answer input_fault enabled_or_default
handle_update_proxy_host sv now fleet_id id body s =
    with_id (codes "ph_id") id
      (λ n. with_body no_input body (λ x t. elim (input_fault sv x) [
        | some text ↦ (t, problem 400 text)
        | none ↦ and_answer (answer 200) (update_proxy_host now (host_of_input n fleet_id x) t)
      ]))
      s

unfoldable pub handle_delete_proxy_host : Text → Option ℕ → Store → Store × Response (Unit {0})
unfolding with_id and_answer no_content
handle_delete_proxy_host fleet_id id s =
    with_id (codes "ph_id") id (λ n t. and_answer no_content (delete_proxy_host fleet_id n t)) s

unfoldable pub handle_list_revisions : Text → Store → Response (List Revision)
unfolding of_fleet
handle_list_revisions fleet_id s = of_fleet fleet_id (list_revisions fleet_id s) s

unfoldable pub handle_get_revision : Text → Option ℕ → Store → Store × Response Revision
unfolding with_id answer
handle_get_revision fleet_id number s =
    with_id (codes "number") number (λ n t. (t, answer 200 (get_revision fleet_id n t))) s

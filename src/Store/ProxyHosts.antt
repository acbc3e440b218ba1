-- ===== src/Store/ProxyHosts.antt =====
-- Proxy hosts (memory.go:530-649).
use proxydock.Model.{ProxyHost, Time}
use proxydock.Prelude.{
  Bool, List, Option, Text, [], any, codes, copy_slice, if◌then◌else◌, inc, items, keep, nat_eq,
  none, not, or_default, some, sort, text_eq, text_lt, ℕ, ◌&&◌, ◌==◌, ◌∷◌,
}
use proxydock.Prelude.GoMap.{delete, get, put, values}
use proxydock.Store.State.{Result, Store, conflict, err, not_found, ok}

-- A row of the fleet under that name (`existing.FleetID == p.FleetID && existing.Name == p.Name`).
abbrev pub same_name : ProxyHost → ProxyHost → Bool
same_name p existing = existing.fleet_id == p.fleet_id && existing.name == p.name

-- Phase 7: the singular `upstream_url` and the list `upstream_urls` fill one another.
unfoldable pub list_of_url : Text → Option (List Text) → Option (List Text)
list_of_url url urls = elim (items urls) [
  | [] ↦ if url == [] then urls else some (url ∷ [])
  | _ ∷ _ ↦ urls
]

unfoldable pub url_of_list : Text → Option (List Text) → Text
url_of_list url urls = if url == [] then elim (items urls) [ [] ↦ url | u ∷ _ ↦ u ] else url

-- The row that CreateProxyHost writes.
unfoldable pub new_proxy_host : Time → ℕ → ProxyHost → ProxyHost
unfolding list_of_url url_of_list
new_proxy_host now id p =
    let urls = list_of_url p.upstream_url p.upstream_urls in
    record p {
      id = id;
      created_at = now;
      updated_at = now;
      middlewares = or_default p.middlewares [];
      entry_points = or_default p.entry_points (codes "web" ∷ []);
      protocol = if p.protocol == [] then codes "http" else p.protocol;
      upstream_urls = or_default urls [];
      upstream_url = url_of_list p.upstream_url urls;
    }

unfoldable pub create_proxy_host : Time → ProxyHost → Store → Store × Result ProxyHost
create_proxy_host now p s = elim (get p.fleet_id s.fleets) [
  | none ↦ (s, err not_found)
  | some _ ↦
      if any (same_name p) (values s.proxy_hosts)
      then (s, err conflict)
      else (let id = inc s.proxy_host_seq in
          let q = new_proxy_host now id p in
          (record s { proxy_host_seq = id; proxy_hosts = put id q s.proxy_hosts }, ok q))
]

unfoldable pub get_proxy_host : Text → ℕ → Store → Result ProxyHost
get_proxy_host fleet_id id s = elim (get id s.proxy_hosts) [
  | none ↦ err not_found
  | some p ↦ if p.fleet_id == fleet_id then ok p else err not_found
]

unfoldable pub list_proxy_hosts : Text → Store → List ProxyHost
list_proxy_hosts fleet_id s =
    sort (λ a b. text_lt a.name b.name) (keep (λ p. p.fleet_id == fleet_id) (values s.proxy_hosts))

-- The row that UpdateProxyHost writes over `cur`.
unfoldable pub updated_proxy_host : Time → ProxyHost → ProxyHost → ProxyHost
unfolding list_of_url url_of_list
updated_proxy_host now p cur =
    let urls = list_of_url p.upstream_url (copy_slice p.upstream_urls) in
    record cur {
      name = p.name;
      protocol = if p.protocol == [] then codes "http" else p.protocol;
      domain = p.domain;
      upstream_url = url_of_list p.upstream_url urls;
      upstream_urls = urls;
      sticky_session = p.sticky_session;
      health_check = p.health_check;
      entry_points = copy_slice p.entry_points;
      middlewares = copy_slice p.middlewares;
      tls = p.tls;
      label_selector = p.label_selector;
      enabled = p.enabled;
      updated_at = now;
    }

unfoldable pub update_proxy_host : Time → ProxyHost → Store → Store × Result ProxyHost
update_proxy_host now p s = elim (get p.id s.proxy_hosts) [
  | none ↦ (s, err not_found)
  | some cur ↦
      if cur.fleet_id == p.fleet_id
      then if any (λ existing. not (existing.id == p.id) && same_name p existing)
          (values s.proxy_hosts)
        then (s, err conflict)
        else (let q = updated_proxy_host now p cur in
            (record s { proxy_hosts = put p.id q s.proxy_hosts }, ok q))
      else (s, err not_found)
]

unfoldable pub delete_proxy_host : Text → ℕ → Store → Store × Result (Unit {0})
delete_proxy_host fleet_id id s = elim (get id s.proxy_hosts) [
  | none ↦ (s, err not_found)
  | some p ↦
      if p.fleet_id == fleet_id
      then (record s { proxy_hosts = delete id s.proxy_hosts }, ok tt)
      else (s, err not_found)
]

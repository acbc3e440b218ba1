-- ===== src/Provider/Loop.antt =====
-- providers/traefik-fleet/fleet.go: the polling loop. The goroutine is alone in using this state, so
-- it is a sequence of polls. What has been handed over to Traefik is kept, newest first, and so are
-- the heartbeats.
use proxydock.Prelude.{
  Bool, List, Option, Text, [], if◌then◌else◌, inl, inr, none, some, ℕ, ◌∷◌, ◌⊎◌,
}
use proxydock.Provider.Cache.{CacheError, Disk, SaveCalls, last_disk, load_cache, save_cache}
use proxydock.Provider.Client.{
  CacheFile, ConfigResponse, Externals, FetchError, FetchResult, Reply, Report, Request,
  ResponseError, fetch_config, heartbeat, modified, not_modified, validate_response,
}
use proxydock.Provider.Config.{Config, Resolved}

pub record Provider : Type 0 where
  pub last_etag : Text
  pub last_applied : ℕ
  pub sent : List Text
  pub disk : Disk
  pub reports : List Report

-- What the world does during a poll: the token file as the two requests read it, the manager's
-- answer to the request for the configuration, whether Traefik takes the configuration before the
-- timeout, and the save.
pub record Cycle : Type 0 where
  pub token_file : Option Text
  pub heartbeat_token_file : Option Text
  pub serve : Request → Option Reply
  pub accepts : Bool
  pub save : SaveCalls

module _ (x : Externals) (c : Config) (r : Resolved) where
  unfoldable pub send : Bool → ConfigResponse → List Text → List Text
  send accepts cr sent = if accepts then cr.config ∷ sent else sent

  unfoldable pub report : Option Report → List Report → List Report
  report none rs = rs
  report (some p) rs = p ∷ rs

  -- What follows a fetch, with its result.
  unfoldable pub finish_poll : Cycle → Provider → FetchError ⊎ FetchResult → Provider
  unfolding send report
  finish_poll y p (inl e) = record {
    last_etag = p.last_etag;
    last_applied = p.last_applied;
    sent = p.sent;
    disk = p.disk;
    reports = report (heartbeat x c r y.heartbeat_token_file p.last_applied (some e)) p.reports;
  }
  finish_poll y p (inr (not_modified etag)) = record {
    last_etag = p.last_etag;
    last_applied = p.last_applied;
    sent = p.sent;
    disk = p.disk;
    reports = report (heartbeat x c r y.heartbeat_token_file p.last_applied none) p.reports;
  }
  finish_poll y p (inr (modified cr etag)) = record {
    last_etag = etag;
    last_applied = cr.revision;
    sent = send y.accepts cr p.sent;
    disk = last_disk p.disk (save_cache x y.save r.cache_file cr etag p.disk).0;
    reports = report (heartbeat x c r y.heartbeat_token_file cr.revision none) p.reports;
  }

  unfoldable pub poll : Cycle → Provider → Provider
  unfolding finish_poll
  poll y p = finish_poll y p (fetch_config x c r y.token_file y.serve p.last_etag)

  -- The part of the loop before the first poll: with the cache file as it was loaded, the response
  -- in it as it was decoded, and the outcome of the checks on it.
  abbrev pub unstarted : Disk → Provider
  unstarted d = record { last_etag = []; last_applied = 0; sent = []; disk = d; reports = [] }

  unfoldable pub start_checked :
      Bool → Disk → CacheFile → ConfigResponse → Option ResponseError → Provider
  unfolding send
  start_checked accepts d cf cr (some e) = unstarted d
  start_checked accepts d cf cr none = record {
    last_etag = cf.etag;
    last_applied = cr.revision;
    sent = send accepts cr [];
    disk = d;
    reports = [];
  }

  unfoldable pub start_decoded : Bool → Disk → CacheFile → Option ConfigResponse → Provider
  unfolding start_checked
  start_decoded accepts d cf none = unstarted d
  start_decoded accepts d cf (some cr) = start_checked accepts d cf cr (validate_response r cr)

  unfoldable pub start_loaded : Bool → Disk → CacheError ⊎ Option CacheFile → Provider
  unfolding start_decoded
  start_loaded accepts d (inl e) = unstarted d
  start_loaded accepts d (inr none) = unstarted d
  start_loaded accepts d (inr (some cf)) =
      start_decoded accepts d cf (x.decode_response cf.response)

  unfoldable pub start : Bool → Bool → Disk → Provider
  unfolding start_loaded
  start readable accepts d = start_loaded accepts d (load_cache x readable r.cache_file d)

  -- The polls, in order.
  unfoldable pub polls : List Cycle → Provider → Provider
  unfolding poll
  polls [] p = p
  polls (y ∷ ys) p = polls ys (poll y p)

  unfoldable pub provide : Bool → Bool → Disk → List Cycle → Provider
  unfolding start polls
  provide readable accepts d ys = polls ys (start readable accepts d)

-- ===== src/Provider/LastGood.antt =====
-- providers/traefik-fleet/fleet.go: what stays while the manager has nothing new, or is not there.
use proxydock.Prelude.{
  All, List, Text, [], all, ap, arith, false, if◌then◌else◌, inl, inr, nat_eq, none, refl, some,
  subst, sym, text_eq, ◌==◌, ◌∙◌, ◌∷◌, ◌≡◌, ◌⊎◌,
}
use proxydock.Provider.Client.{
  ConfigResponse, Externals, FetchError, FetchResult, Reply, Request, fetch_config, modified,
  not_modified,
}
use proxydock.Provider.Config.{Config, Resolved}
use proxydock.Provider.Loop.{Cycle, Provider, finish_poll, poll, polls, send}
use proxydock.Provider.Vetting.{config_request, fetch_config_modified}

-- The manager has no configuration for one who asks with this ETag: no answer comes, or one with
-- another status than 200.
abbrev pub Silent : Text → Cycle → Type 0
Silent etag y =
    (request : Request) (reply : Reply)
    → request.if_none_match ≡ (if etag == [] then none else some etag)
    → y.serve request ≡ some reply
    → (reply.status_code == 200) ≡ false

-- All but the reports.
pub record SameConfig (p q : Provider) : Type 0 where
  pub etag : q.last_etag ≡ p.last_etag
  pub applied : q.last_applied ≡ p.last_applied
  pub sent : q.sent ≡ p.sent
  pub disk : q.disk ≡ p.disk

module _ (x : Externals) (c : Config) (r : Resolved) where
  finish_poll-SameConfig :
      (y : Cycle) (p : Provider) (f : FetchError ⊎ FetchResult)
      → fetch_config x c r y.token_file y.serve p.last_etag ≡ f
      → Silent p.last_etag y
      → SameConfig p (finish_poll x c r y p f)
  unfolding finish_poll config_request
  finish_poll-SameConfig y p (inl e) h q = record {
    etag = refl;
    applied = refl;
    sent = refl;
    disk = refl;
  }
  finish_poll-SameConfig y p (inr (not_modified etag)) h q = record {
    etag = refl;
    applied = refl;
    sent = refl;
    disk = refl;
  }
  finish_poll-SameConfig y p (inr (modified cr etag)) h q =
      let (token, reply, s, fine, _) =
        fetch_config_modified x c r y.token_file y.serve p.last_etag cr etag h in
      let silent = q (config_request r p.last_etag token) reply refl s in absurd (ground arith)

  -- While the manager is unreachable, refuses, or answers that nothing has changed, as many polls
  -- as there are keep the last good configuration: nothing is handed over to Traefik, and the ETag,
  -- the applied revision and the disk stay as they are.
  pub polls_keep_last_good :
      (ys : List Cycle) (p : Provider)
      → All (Silent p.last_etag) ys
      → SameConfig p (polls x c r ys p)
  unfolding polls poll
  polls_keep_last_good [] p all = record { etag = refl; applied = refl; sent = refl; disk = refl }
  polls_keep_last_good (y ∷ ys) p (silent, all) =
      let one = finish_poll-SameConfig y p _ refl silent in
      let more = polls_keep_last_good ys _ (subst (λ e. All (Silent e) ys) (sym one.etag) all) in
      record {
        etag = more.etag ∙ one.etag;
        applied = more.applied ∙ one.applied;
        sent = more.sent ∙ one.sent;
        disk = more.disk ∙ one.disk;
      }

  -- A configuration that Traefik does not take before the timeout counts as applied: if the manager
  -- then has nothing newer for its ETag, no later poll hands it over, though the revision of the
  -- lost configuration is the one that is reported.
  pub polls_lose_untaken :
      (y : Cycle) (ys : List Cycle) (p : Provider) (cr : ConfigResponse) (etag : Text)
      → fetch_config x c r y.token_file y.serve p.last_etag ≡ inr (modified cr etag)
      → y.accepts ≡ false
      → All (Silent etag) ys
      → ((polls x c r (y ∷ ys) p).sent ≡ p.sent)
        × ((polls x c r (y ∷ ys) p).last_applied ≡ cr.revision)
  unfolding polls poll finish_poll send
  polls_lose_untaken y ys p cr etag h a all =
      let q = finish_poll x c r y p (inr (modified cr etag)) in
      let keep = polls_keep_last_good ys q all in
      let step : poll x c r y p ≡ q = ap (finish_poll x c r y p) h in
      let untaken : q.sent ≡ p.sent = ap (λ b. send x c r b cr p.sent) a in
      subst
        (λ z. ((polls x c r ys z).sent ≡ p.sent) × ((polls x c r ys z).last_applied ≡ cr.revision))
        (sym step) (keep.sent ∙ untaken, keep.applied)

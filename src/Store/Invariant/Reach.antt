-- ===== src/Store/Invariant/Reach.antt =====
-- What holds of every store that a sequence of calls leads to.
use proxydock.Prelude.{List, [], arith, length, nat_eq, text_eq, ℕ, ◌+◌, ◌<◌, ◌^◌, ◌∷◌}
use proxydock.Prelude.GoMap.{get}
use proxydock.Store.Invariant.{Counted, Op, Wf, run}
use proxydock.Store.Invariant.Count.{step-Counted}
use proxydock.Store.Invariant.Step.{step-Wf}
use proxydock.Store.State.{Store, new}
use proxydock.Store.Table.{empty-TableOk}

new-Wf : Wf new
unfolding get
new-Wf = record {
  owners = record {
    fleets_map = tt;
    agents_map = tt;
    fleet_id = λ id f h. ground arith;
    agent_id = λ id a h. ground arith;
    agent_fleet = λ id a h. ground arith;
    host_fleet = λ k p h. ground arith;
    revision_fleet = λ k r h. ground arith;
    published = λ id f n h e. ground arith;
  };
  hosts = empty-TableOk _ _;
  templates = empty-TableOk _ _;
  webhooks = empty-TableOk _ _;
  revisions = empty-TableOk _ _;
  certificates = empty-TableOk _ _;
  providers = empty-TableOk _ _;
}

run-Wf_from :
    (os : List Op) (n : ℕ) {s : Store} → n + length os < 2 ^ 63 → Counted n s → Wf s → Wf (run os s)
unfolding run
run-Wf_from [] n room c w = w
run-Wf_from (o ∷ os) n room c w =
    run-Wf_from os (n + 1) (omega arith) (step-Counted n (omega arith) c o)
      (step-Wf n (omega arith) c w o)

-- Every store that fewer than 2^63 calls make out of an empty one is well-formed, where fleets are
-- created as the API does it, without a published revision. Fleets and agents stand under their own
-- ids; each agent, proxy host and revision belongs to a fleet that exists; and the revision that a
-- fleet has published exists and is the fleet's own. In the tables of proxy hosts, middleware
-- templates, webhooks, revisions, certificates and DNS providers, each id has one row, which
-- carries it, no id is above the table's counter, and no two rows of a fleet have the same name (or
-- number, for revisions).
pub run-Wf : (os : List Op) → length os < 2 ^ 63 → Wf (run os new)
run-Wf os h = run-Wf_from os 0 (omega arith) (omega arith) new-Wf

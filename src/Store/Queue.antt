-- ===== src/Store/Queue.antt =====
-- What the claim of the ACME queue promises (ClaimNextACMEJob, memory.go:177-200).
use proxydock.Model.{AcmeJob, Time, running}
use proxydock.Prelude.{
  ==_iff, Bool-cases, List, Option-cases, [], ap, arith, false, inl, inr, int_lt, map, nat_eq, some,
  sort, sym, text_eq, true, ℕ, ◌==◌, ◌∷◌, ◌≡◌,
}
use proxydock.Prelude.GoMap.{GoMap, get, put}
use proxydock.Prelude.Sorting.{Elem, IsSorted, sort-Elem, sort-IsSorted}
use proxydock.Store.Acme.{claim_next_acme_job, claim_scan, is_pending}
use proxydock.Store.State.{Store, StoreError, err, ok}

int_lt_asymmetric : (a b : ℕ) → int_lt a b ≡ true → int_lt b a ≡ false
int_lt_asymmetric a b h = ground arith

int_lt_transitive : (a b c : ℕ) → int_lt b a ≡ false → int_lt c b ≡ false → int_lt c a ≡ false
int_lt_transitive a b c h g = ground arith

int_lt_irreflexive : (a : ℕ) → int_lt a a ≡ false
int_lt_irreflexive a = ground arith

ok_injective : {A : Type 0} {a b : A} → ok a ≡ ok b → a ≡ b
ok_injective h = cc

ok_ne_err : {A : Type 0} {a : A} {e : StoreError} → ok a ≡ err e → ⊥
ok_ne_err h = cc

-- A key that a lookup finds is among the keys.
key-Elem :
    {V : Type 0} (k : ℕ) (v : V) (m : GoMap ℕ V) → get k m ≡ some v → Elem k (map (λ e. e.0) m)
unfolding get
key-Elem k v [] h = absurd (ground arith)
key-Elem k v ((j, w) ∷ m) h = elim (Bool-cases (j == k)) [
  | inl e ↦ inl (ground (arith, ==_iff j k))
  | inr e ↦ inr (key-Elem k v m (ground arith))
]

-- The job after its claim.
abbrev pub claimed : Time → AcmeJob → AcmeJob
claimed now j = record j { status = running; started_at = some now }

-- The claim took job `found` from under `k`.
pub record Took (now : Time) (s s' : Store) (j : AcmeJob) : Type 0 where
  pub k : ℕ
  pub found : AcmeJob
  pub row : get k s.acme_jobs ≡ some found
  pub was_pending : is_pending found.status ≡ true
  pub result : j ≡ claimed now found
  pub store : s' ≡ record s { acme_jobs = put k (claimed now found) s.acme_jobs }

-- Whether a row of the store holds a pending job that would come before `k`.
abbrev NoneBefore : ℕ → List ℕ → Store → Type 0
NoneBefore k ks s =
    (i : ℕ) (j : AcmeJob)
    → Elem i ks
    → get i s.acme_jobs ≡ some j
    → is_pending j.status ≡ true
    → int_lt i k ≡ false

scan_first :
    (now : Time) (ks : List ℕ) (s s' : Store) (j : AcmeJob)
    → IsSorted int_lt ks
    → claim_scan now ks s ≡ (s', ok j)
    → (t : Took now s s' j) × NoneBefore t.k ks s
unfolding claim_scan
scan_first now [] s s' j sorted h = absurd (ground arith)
scan_first now (k ∷ ks) s s' j sorted h = elim (Option-cases (get k s.acme_jobs)) [
  | inl e ↦
      let (t, before) = scan_first now ks s s' j sorted.1 (rw (e, claim_scan) at h) in
      (t, λ i x m g p. elim m [ inl q ↦ ground arith | inr r ↦ before i x r g p ])
  | inr (found, e) ↦ elim (Bool-cases (is_pending found.status)) [
    | inl p ↦
        let q = rw (e, p, claim_scan) at h in
        (
          record {
            k = k;
            found = found;
            row = e;
            was_pending = p;
            result = sym (ok_injective (ap (λ r. r.1) q));
            store = sym (ap (λ r. r.0) q);
          },
          λ i x m g r. elim m [
            | inl here ↦ rw here (int_lt_irreflexive k)
            | inr later ↦ sorted.0 i later
          ],
        )
    | inr p ↦
        let (t, before) = scan_first now ks s s' j sorted.1 (rw (e, p, claim_scan) at h) in
        (t, λ i x m g r. elim m [ inl q ↦ ground arith | inr later ↦ before i x later g r ])
  ]
]

-- A successful claim of the ACME queue takes a pending job, marks it running and started, returns it
-- so marked and writes nothing else; no pending job of the store has a smaller id.
pub claim_next_acme_job_fifo :
    (now : Time) (s s' : Store) (j : AcmeJob)
    → claim_next_acme_job now s ≡ (s', ok j)
    → (t : Took now s s' j) × ((i : ℕ) (x : AcmeJob)
        → get i s.acme_jobs ≡ some x
        → is_pending x.status ≡ true
        → int_lt i t.k ≡ false)
unfolding claim_next_acme_job
claim_next_acme_job_fifo now s s' j h =
    let keys = map (λ e. e.0) s.acme_jobs in
    let (t, before) =
      scan_first now (sort int_lt keys) s s' j
        (sort-IsSorted int_lt int_lt_asymmetric int_lt_transitive keys) h in
    (t, λ i x g p. before i x ((sort-Elem int_lt i keys).1 (key-Elem i x s.acme_jobs g)) g p)

scan_none :
    (now : Time) (ks : List ℕ) (s s' : Store) (e : StoreError)
    → claim_scan now ks s ≡ (s', err e)
    → (s' ≡ s)
      × ((i : ℕ) (x : AcmeJob)
          → Elem i ks
          → get i s.acme_jobs ≡ some x
          → is_pending x.status ≡ false)
unfolding claim_scan
scan_none now [] s s' e h = (sym (ap (λ r. r.0) h), λ i x m g. absurd m)
scan_none now (k ∷ ks) s s' e h = elim (Option-cases (get k s.acme_jobs)) [
  | inl g ↦
      let (same, idle) = scan_none now ks s s' e (rw (g, claim_scan) at h) in
      (same, λ i x m r. elim m [ inl q ↦ ground arith | inr later ↦ idle i x later r ])
  | inr (found, g) ↦ elim (Bool-cases (is_pending found.status)) [
    | inl p ↦ absurd (ok_ne_err (ap (λ r. r.1) (rw (g, p, claim_scan) at h)))
    | inr p ↦
        let (same, idle) = scan_none now ks s s' e (rw (g, p, claim_scan) at h) in
        (same, λ i x m r. elim m [ inl q ↦ ground arith | inr later ↦ idle i x later r ])
  ]
]

-- A claim that fails leaves the store as it was, and then no job of the store is pending.
pub claim_next_acme_job_empty :
    (now : Time) (s s' : Store) (e : StoreError)
    → claim_next_acme_job now s ≡ (s', err e)
    → (s' ≡ s) × ((i : ℕ) (x : AcmeJob) → get i s.acme_jobs ≡ some x → is_pending x.status ≡ false)
unfolding claim_next_acme_job
claim_next_acme_job_empty now s s' e h =
    let keys = map (λ e. e.0) s.acme_jobs in
    let (same, idle) = scan_none now (sort int_lt keys) s s' e h in
    (same, λ i x g. idle i x ((sort-Elem int_lt i keys).1 (key-Elem i x s.acme_jobs g)) g)

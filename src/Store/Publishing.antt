-- ===== src/Store/Publishing.antt =====
-- A revision with the next number can always be created and published (NextRevisionNumber and
-- CreateRevision, memory.go:889-1001).
use proxydock.Model.{Fleet, Revision, Time}
use proxydock.Prelude.{
  All, Bool-cases, List, Option-cases, Text, [], any, ap, arith, false, inl, inr, int_lt, nat_eq,
  refl, some, subst, sym, text_beq_iff, text_eq, true, ℕ, ◌&&◌, ◌+◌, ◌<◌, ◌==◌, ◌^◌, ◌∷◌, ◌≡◌, ◌≢◌,
  ◌≤◌,
}
use proxydock.Prelude.GoMap.{GoMap, get, get-put, put, values}
use proxydock.Prelude.Sorting.{Elem}
use proxydock.Store.Invariant.{Wf}
use proxydock.Store.Invariant.Rows.{inc_lem}
use proxydock.Store.Revisions.{
  create_revision, get_published_revision, max_number, next_revision_number, same_number,
  saved_revision,
}
use proxydock.Store.State.{Store, ok}
use proxydock.Store.Table.{fresh}

-- Revision numbers stay below the largest int.
abbrev pub Small : List Revision → Type 0
Small = All (λ r. r.number + 1 < 2 ^ 63)

max_number_bounds :
    (id : Text) (m : ℕ) (rs : List Revision)
    → m + 1 < 2 ^ 63
    → Small rs
    → (m ≤ max_number id m rs) × (max_number id m rs + 1 < 2 ^ 63)
unfolding max_number
max_number_bounds id m [] h small = omega arith
max_number_bounds id m (r ∷ rs) h small =
    elim (Bool-cases (r.fleet_id == id && int_lt m r.number)) [
      | inl e ↦ rw e (let b = max_number_bounds id r.number rs small.0 small.1 in ground arith)
      | inr e ↦ rw e (max_number_bounds id m rs h small.1)
    ]

not_more :
    (id : Text) (m : ℕ) (r : Revision) (top : ℕ) (q : Revision)
    → m + 1 < 2 ^ 63
    → r.number + 1 < 2 ^ 63
    → (q.fleet_id == id) ≡ true
    → (r.fleet_id == id && int_lt m r.number) ≡ false
    → m ≤ top
    → q ≡ r
    → q.number ≤ top
not_more id m r top q h small same c b e =
    let n : q.number ≡ r.number = ap (λ x. x.number) e in
    let g : q.fleet_id ≡ r.fleet_id = ap (λ x. x.fleet_id) e in ground arith

-- Every number of the fleet is at most the maximum.
max_number_ge :
    (id : Text) (m : ℕ) (rs : List Revision)
    → m + 1 < 2 ^ 63
    → Small rs
    → (q : Revision) → Elem q rs
    → (q.fleet_id == id) ≡ true
    → q.number ≤ max_number id m rs
unfolding max_number
max_number_ge id m [] h small q e same = absurd e
max_number_ge id m (r ∷ rs) h small q e same =
    elim (Bool-cases (r.fleet_id == id && int_lt m r.number)) [
      | inl c ↦
          let b = max_number_bounds id r.number rs small.0 small.1 in
          rw c (elim e [
            | inl here ↦ rw here b.0
            | inr there ↦ max_number_ge id r.number rs small.0 small.1 q there same
          ])
      | inr c ↦
          let b = max_number_bounds id m rs h small.1 in
          rw c (elim e [
            | inl here ↦ not_more id m r (max_number id m rs) q h small.0 same c b.0 here
            | inr there ↦ max_number_ge id m rs h small.1 q there same
          ])
    ]

number_free :
    (id : Text) (n : ℕ) (rs : List Revision)
    → ((q : Revision) → Elem q rs → (q.fleet_id == id) ≡ true → q.number ≤ n)
    → any (same_number id (n + 1)) rs ≡ false
unfolding any
number_free id n [] h = refl
number_free id n (r ∷ rs) h =
    ground (arith, h r (inl refl), number_free id n rs (λ q e. h q (inr e)))

row-Elem : (k : ℕ) (r : Revision) (m : GoMap ℕ Revision) → get k m ≡ some r → Elem r (values m)
unfolding get
row-Elem k r [] h = absurd (ground arith)
row-Elem k r ((j, w) ∷ m) h = elim (Bool-cases (j == k)) [
  | inl e ↦ inl (ground arith)
  | inr e ↦ inr (row-Elem k r m (ground arith))
]

next_eq :
    (id : Text) (f : Fleet) (s : Store) {n : ℕ}
    → get id s.fleets ≡ some f
    → Small (values s.revisions)
    → next_revision_number id s ≡ ok n
    → n ≡ max_number id 0 (values s.revisions) + 1
unfolding next_revision_number
next_eq id f s there small h =
    ground (arith, max_number_bounds id 0 (values s.revisions) (omega arith) small)

-- What a publish promises: the row is created and is the one that the fleet serves, its number is
-- above the fleet's others, and the other fleets serve what they served.
abbrev pub Publishes : Time → Revision → Store → Type 0
Publishes now r s =
    ((create_revision now r true s).1 ≡ ok (saved_revision now (s.revision_seq + 1) r))
    × (get_published_revision r.fleet_id (create_revision now r true s).0
        ≡ ok (saved_revision now (s.revision_seq + 1) r))
    × ((k : ℕ) (q : Revision)
        → get k s.revisions ≡ some q
        → q.fleet_id ≡ r.fleet_id
        → q.number < r.number)
    × ((id : Text)
        → id ≢ r.fleet_id
        → get_published_revision id (create_revision now r true s).0 ≡ get_published_revision id s)

module _ (now : Time) (r : Revision) (f : Fleet) {s : Store} (w : Wf s)
    (there : get r.fleet_id s.fleets ≡ some f) (small : Small (values s.revisions))
    (room : s.revision_seq + 1 < 2 ^ 63)
    (next : next_revision_number r.fleet_id s ≡ ok r.number) where
  abbrev saved : Revision
  saved = saved_revision now (s.revision_seq + 1) r

  abbrev after : Store
  after = record s {
    revision_seq = s.revision_seq + 1;
    revisions = put (s.revision_seq + 1) saved s.revisions;
    fleets =
        put r.fleet_id (record f { published_revision_id = some (s.revision_seq + 1) }) s.fleets;
  }

  number_is_free : any (same_number r.fleet_id r.number) (values s.revisions) ≡ false
  number_is_free =
      let m = max_number r.fleet_id 0 (values s.revisions) in
      rw (next_eq r.fleet_id f s there small next) (
        number_free r.fleet_id m (values s.revisions)
          (max_number_ge r.fleet_id 0 (values s.revisions) (omega arith) small))

  created : create_revision now r true s ≡ (after, ok saved)
  unfolding create_revision
  created = rw (there, number_is_free, create_revision) (rw (inc_lem s.revision_seq room))

  -- The new number is above every number that the fleet has used.
  larger :
      (k : ℕ) (q : Revision)
      → get k s.revisions ≡ some q
      → q.fleet_id ≡ r.fleet_id
      → q.number < r.number
  larger k q e same =
      let m =
        max_number_ge r.fleet_id 0 (values s.revisions) (omega arith) small q
          (row-Elem k q s.revisions e) ((text_beq_iff q.fleet_id r.fleet_id).1 same) in
      omega (arith, next_eq r.fleet_id f s there small next)

  served : get_published_revision r.fleet_id after ≡ ok saved
  unfolding get_published_revision
  served = ground (
    arith,
    text_beq_iff r.fleet_id r.fleet_id,
    get-put r.fleet_id r.fleet_id (record f { published_revision_id = some (s.revision_seq + 1) })
        s.fleets,
    get-put (s.revision_seq + 1) (s.revision_seq + 1) saved s.revisions,
  )

  -- A revision that another fleet has published is in the table, so its id is not the new one.
  untouched :
      (g : Fleet) (n : ℕ) (id : Text)
      → get id s.fleets ≡ some g
      → g.published_revision_id ≡ some n
      → get n (put (s.revision_seq + 1) saved s.revisions) ≡ get n s.revisions
  untouched g n id e p = ground (
    arith,
    get-put (s.revision_seq + 1) n saved s.revisions,
    w.owners.published id g n e p,
    fresh _ _ w.revisions,
  )

  others :
      (id : Text) → id ≢ r.fleet_id → get_published_revision id after ≡ get_published_revision id s
  unfolding get_published_revision
  others id other =
      let g =
        get-put r.fleet_id id (record f { published_revision_id = some (s.revision_seq + 1) })
          s.fleets in
      elim (Option-cases (get id s.fleets)) [
        | inl e ↦ ground (arith, text_beq_iff r.fleet_id id, g)
        | inr (h, e) ↦ elim (Option-cases h.published_revision_id) [
          | inl p ↦ ground (arith, text_beq_iff r.fleet_id id, g)
          | inr (n, p) ↦ ground (arith, text_beq_iff r.fleet_id id, g, untouched h n id e p)
        ]
      ]

  -- In a well-formed store, a revision of an existing fleet that carries the fleet's next number is
  -- created without a conflict, and is then the one that the fleet serves. Its number is above every
  -- number that the fleet has used, and no other fleet's published revision changes. Conditions: the
  -- numbers and the revision counter are below the largest int.
  pub publish_next : Publishes now r s
  publish_next = (
    ap (λ p. p.1) created,
    subst (λ p. get_published_revision r.fleet_id p.0 ≡ ok saved) (sym created) served,
    larger,
    λ id other.
        subst (λ p. get_published_revision id p.0 ≡ get_published_revision id s) (sym created)
          (others id other),
  )

-- ===== src/Store/AuditLog.antt =====
-- What a page of the audit log holds (ListAuditEntries, memory.go:103-128).
use proxydock.Model.{AuditEntry}
use proxydock.Prelude.{
  Bool, Bool-cases, List, Option, Option-cases, Text, [], arith, false, if◌then◌else◌, inl, inr,
  int_lt, keep, nat_eq, none, not, refl, reverse, some, suc, take, text_beq, text_beq_iff, text_eq,
  true, zero, ℕ, ◌%◌, ◌&&◌, ◌-◌, ◌<◌, ◌==◌, ◌^◌, ◌↔◌, ◌∷◌, ◌≡◌, ◌≤◌, ◌⊎◌,
}
use proxydock.Store.Audit.{AuditQuery, effective_limit, list_audit_entries, walk, wanted}
use proxydock.Store.State.{Store}

walk_lem :
    (q : AuditQuery) (n : ℕ) (es : List AuditEntry)
    → walk q (suc n) es ≡ take (suc n) (keep (wanted q) es)
unfolding walk keep
walk_lem q n [] = refl
walk_lem q zero (e ∷ es) = elim (Bool-cases (wanted q e)) [
  | inl w ↦ rw (w, walk, keep) refl
  | inr w ↦ rw (w, walk, keep) (walk_lem q zero es)
]
walk_lem q (suc n) (e ∷ es) = elim (Bool-cases (wanted q e)) [
  | inl w ↦ let p : suc (suc n) - 1 ≡ suc n = omega arith in rw p (ground (arith, walk_lem q n es))
  | inr w ↦ rw (w, walk, keep) (walk_lem q (suc n) es)
]

page :
    (q : AuditQuery) (n : ℕ) (es : List AuditEntry)
    → 0 < n
    → walk q n es ≡ take n (keep (wanted q) es)
page q zero es h = absurd (omega arith)
page q (suc n) es h = walk_lem q n es

effective_limit_bounds : (n : ℕ) → n < 2 ^ 64 → (0 < effective_limit n) × (effective_limit n ≤ 500)
unfolding effective_limit
effective_limit_bounds n h = ground arith

-- An id below the one asked for. The numbers are 64-bit patterns: 0 and a negative number ask for
-- none, and a negative id is below every positive one.
abbrev pub IsNegative : ℕ → Type 0
IsNegative n = 2 ^ 63 ≤ n % 2 ^ 64

abbrev pub IsBefore : ℕ → ℕ → Type 0
IsBefore before id =
    (before % 2 ^ 64 ≡ 0) ⊎ IsNegative before ⊎ IsNegative id ⊎ (id % 2 ^ 64 < before % 2 ^ 64)

-- No fleet is asked for, the entries without a fleet are (by the empty name), or those of one fleet.
abbrev pub InFleet : Option Text → Option Text → Type 0
InFleet none fleet = Unit
InFleet (some []) fleet = fleet ≡ none
InFleet (some (c ∷ want)) fleet = fleet ≡ some (c ∷ want)

-- A limit from 1 to 500 is taken as it is, and every other one, also a negative one, is 100.
abbrev pub IsLimit : ℕ → ℕ → Type 0
IsLimit limit n =
    ((1 ≤ limit) × (limit ≤ 500) × (n ≡ limit)) ⊎ (((limit ≡ 0) ⊎ (500 < limit)) × (n ≡ 100))

effective_limit-IsLimit : (n : ℕ) → n < 2 ^ 64 → IsLimit n (effective_limit n)
unfolding effective_limit
effective_limit-IsLimit n h = ground arith

-- The two tests of `wanted`.
late : ℕ → ℕ → Bool
late before id = int_lt 0 before && not (int_lt id before)

late-IsBefore : (before id : ℕ) → (late before id ≡ false) ↔ IsBefore before id
unfolding late
late-IsBefore before id = ground arith

in_fleet : Option Text → Option Text → Bool
in_fleet none fleet = true
in_fleet (some want) fleet =
    if want == []
    then elim fleet [ none ↦ true | some _ ↦ false ]
    else elim fleet [ none ↦ false | some id ↦ id == want ]

in_fleet-InFleet : (q fleet : Option Text) → (in_fleet q fleet ≡ true) ↔ InFleet q fleet
unfolding in_fleet text_beq
in_fleet-InFleet none fleet = ((λ h. tt), (λ h. refl))
in_fleet-InFleet (some []) none = ((λ h. refl), (λ h. refl))
in_fleet-InFleet (some []) (some id) = ground arith
in_fleet-InFleet (some (c ∷ want)) none = ground arith
in_fleet-InFleet (some (c ∷ want)) (some id) = ground (arith, text_beq_iff id (c ∷ want))

-- What a query asks for.
abbrev pub IsWanted : AuditQuery → AuditEntry → Type 0
IsWanted q e = IsBefore q.before_id e.id × InFleet q.fleet_id e.fleet_id

wanted_tests :
    (q : AuditQuery) (e : AuditEntry)
    → wanted q e ≡ (if late q.before_id e.id then false else in_fleet q.fleet_id e.fleet_id)
unfolding wanted late in_fleet
wanted_tests q e = elim (Option-cases q.fleet_id) [ inl f ↦ rw f refl | inr (want, f) ↦ rw f refl ]

wanted-IsWanted : (q : AuditQuery) (e : AuditEntry) → (wanted q e ≡ true) ↔ IsWanted q e
wanted-IsWanted q e =
    let tests = wanted_tests q e in
    let before = late-IsBefore q.before_id e.id in
    let fleet = in_fleet-InFleet q.fleet_id e.fleet_id in ground arith

-- A page of the log, for any query: the entries, newest first, with an id below the one asked for
-- (if it is positive), and of the fleet asked for (if one is: the empty name stands for the entries
-- without a fleet), cut off at the limit, which is 100 where none from 1 to 500 is given.
pub list_audit_entries_page :
    (q : AuditQuery) (s : Store)
    → q.limit < 2 ^ 64
    → (list_audit_entries q s ≡ take (effective_limit q.limit) (keep (wanted q) (reverse s.audit)))
      × ((e : AuditEntry) → (wanted q e ≡ true) ↔ IsWanted q e)
      × IsLimit q.limit (effective_limit q.limit)
unfolding list_audit_entries
list_audit_entries_page q s h =
    let (some_room, _) = effective_limit_bounds q.limit h in
    (
      page q (effective_limit q.limit) (reverse s.audit) some_room,
      wanted-IsWanted q,
      effective_limit-IsLimit q.limit h,
    )

-- ===== src/Compiler/Order.antt =====
-- apps/api/internal/compiler/compiler.go: the order of the hosts, and the result.
use proxydock.Compiler.Compile.{Compiled, Libraries, compile, compile_ordered, ordered}
use proxydock.Compiler.Validation.{
  Protocol, Seen, http, is_some, protocol_of, tcp, udp, unseen, validate_all, validate_enabled,
  validate_host, validate_hosts,
}
use proxydock.Model.{Certificate, ProxyHost}
use proxydock.Prelude.{
  ==_iff, Bool, Bool-cases, List, Option, Text, [], ap, append_nil_parts, arith, beq_false, false,
  inl, inr, insert_sorted, keep, nat_eq, none, refl, some, sort, subst, sym, text_eq, text_lt, true,
  ◌==◌, ◌↔◌, ◌∷◌, ◌≡◌,
}
use proxydock.Prelude.GoMap.{get, get-put, put}
use proxydock.Prelude.Sorting.{Elem, IsAscending, IsAscending-unique, insert_sorted-Elem, sort-Elem}
use proxydock.Prelude.TextOrder.{text_lt_asymmetric, text_lt_total, text_lt_transitive}
use proxydock.Store.State.{new}

-- No two hosts of the list have the same name.
abbrev Distinct : List ProxyHost → Type 0
Distinct [] = Unit
Distinct (h ∷ hs) = ((g : ProxyHost) → Elem g hs → (g.name == h.name) ≡ false) × Distinct hs

abbrev by_name : ProxyHost → ProxyHost → Bool
by_name a b = text_lt a.name b.name

module _ (parse_url : Text → Option (Text × Text)) where
  validate_enabled-names :
      (p : Option Protocol) (h : ProxyHost) (seen : Seen)
      → (validate_enabled parse_url p h seen).1.names ≡ seen.names
  unfolding validate_enabled
  validate_enabled-names none h seen = refl
  validate_enabled-names (some http) h seen = refl
  validate_enabled-names (some tcp) h seen = refl
  validate_enabled-names (some udp) h seen = refl

  validate_host-names :
      (h : ProxyHost) (seen : Seen)
      → (validate_host parse_url h seen).0 ≡ []
      → (is_some (get h.name seen.names) ≡ false)
        × ((validate_host parse_url h seen).1.names ≡ put h.name tt seen.names)
  unfolding validate_host
  validate_host-names h seen e =
      let kept =
        validate_enabled-names (protocol_of h) h
          (record seen { names = put h.name tt seen.names }) in
      ground arith

  validate_hosts-Distinct :
      (hs : List ProxyHost) (seen : Seen)
      → validate_hosts parse_url hs seen ≡ []
      → Distinct hs × ((h : ProxyHost) → Elem h hs → is_some (get h.name seen.names) ≡ false)
  unfolding validate_hosts
  validate_hosts-Distinct [] seen e = (tt, λ h m. absurd m)
  validate_hosts-Distinct (h ∷ hs) seen e =
      let r = validate_host parse_url h seen in
      let faults = append_nil_parts r.0 (validate_hosts parse_url hs r.1) e in
      let (new, noted) = validate_host-names h seen faults.0 in
      let (apart, unseen_rest) = validate_hosts-Distinct hs r.1 faults.1 in
      let other : (g : ProxyHost)
          → Elem g hs
          → is_some (get g.name (put h.name tt seen.names)) ≡ false =
        λ g m. subst (λ z. is_some (get g.name z) ≡ false) noted (unseen_rest g m) in
      (
        (
          (λ g m.
              let o = other g m in
              ground (
                arith,
                get-put h.name g.name tt seen.names,
                ==_iff g.name h.name,
                ==_iff h.name g.name,
              )),
          apart,
        ),
        (λ g m. elim m [
          | inl same ↦ subst (λ z. is_some (get z.name seen.names) ≡ false) (sym same) new
          | inr n ↦ let o = other g n in ground (arith, get-put h.name g.name tt seen.names)
        ]),
      )

keep-Elem :
    (p : ProxyHost → Bool) (h : ProxyHost) (hs : List ProxyHost)
    → Elem h (keep p hs) ↔ (Elem h hs × (p h ≡ true))
unfolding keep
keep-Elem p h [] = ((λ m. absurd m), (λ m. absurd m.0))
keep-Elem p h (g ∷ hs) =
    let rest = keep-Elem p h hs in
    elim (Bool-cases (p g)) [
      | inl e ↦ rw e (
        (λ m. elim m [
          | inl same ↦ (inl same, subst (λ z. p z ≡ true) (sym same) e)
          | inr n ↦ (inr (rest.0 n).0, (rest.0 n).1)
        ]),
        (λ m. elim m.0 [ inl same ↦ inl same | inr n ↦ inr (rest.1 (n, m.1)) ]),
      )
      | inr e ↦ rw e (
        (λ m. (inr (rest.0 m).0, (rest.0 m).1)),
        (λ m. elim m.0 [ inl same ↦ absurd (ground (arith, ap p same)) | inr n ↦ rest.1 (n, m.1) ]),
      )
    ]

keep-Distinct : (p : ProxyHost → Bool) (hs : List ProxyHost) → Distinct hs → Distinct (keep p hs)
unfolding keep
keep-Distinct p [] d = tt
keep-Distinct p (h ∷ hs) d = elim (Bool-cases (p h)) [
  | inl e ↦ rw e ((λ g m. d.0 g ((keep-Elem p g hs).0 m).0), keep-Distinct p hs d.1)
  | inr e ↦ rw e (keep-Distinct p hs d.1)
]

comes_before :
    (h g : ProxyHost) → (g.name == h.name) ≡ false → by_name g h ≡ false → by_name h g ≡ true
comes_before h g apart e = elim (Bool-cases (by_name h g)) [
  | inl t ↦ t
  | inr n ↦ absurd (beq_false g.name h.name apart (text_lt_total g.name h.name e n))
]

by_name_chain : (h g y : ProxyHost) → by_name h g ≡ true → by_name g y ≡ true → by_name h y ≡ true
by_name_chain h g y a b = elim (Bool-cases (by_name h y)) [
  | inl t ↦ t
  | inr n ↦
      let no = text_lt_transitive g.name y.name h.name (text_lt_asymmetric g.name y.name b) n in
      absurd (ground arith)
]

-- Sorting puts hosts with different names in ascending order.
insert_sorted-IsAscending :
    (h : ProxyHost) (hs : List ProxyHost)
    → ((g : ProxyHost) → Elem g hs → (g.name == h.name) ≡ false)
    → IsAscending by_name hs
    → IsAscending by_name (insert_sorted by_name h hs)
unfolding insert_sorted
insert_sorted-IsAscending h [] apart asc = ((λ y m. absurd m), tt)
insert_sorted-IsAscending h (g ∷ gs) apart asc = elim (Bool-cases (by_name g h)) [
  | inl e ↦
      rw (e, insert_sorted)
        (
          (λ y m. elim ((insert_sorted-Elem by_name h y gs).0 m) [
            | inl same ↦ subst (λ z. by_name g z ≡ true) (sym same) e
            | inr n ↦ asc.0 y n
          ]),
          insert_sorted-IsAscending h gs (λ k m. apart k (inr m)) asc.1,
        )
  | inr e ↦
      let before = comes_before h g (apart g (inl refl)) e in
      rw (e, insert_sorted)
        (
          (λ y m. elim m [
            | inl same ↦ subst (λ z. by_name h z ≡ true) (sym same) before
            | inr n ↦ by_name_chain h g y before (asc.0 y n)
          ]),
          asc,
        )
]

sort-IsAscending : (hs : List ProxyHost) → Distinct hs → IsAscending by_name (sort by_name hs)
unfolding sort
sort-IsAscending [] d = tt
sort-IsAscending (h ∷ hs) d =
    insert_sorted-IsAscending h (sort by_name hs) (λ g m. d.0 g ((sort-Elem by_name g hs).0 m))
      (sort-IsAscending hs d.1)

ordered_unique :
    (hs gs : List ProxyHost)
    → Distinct hs
    → Distinct gs
    → ((h : ProxyHost) → Elem h hs ↔ Elem h gs)
    → ordered hs ≡ ordered gs
unfolding ordered
ordered_unique hs gs d e same =
    let on = λ (h : ProxyHost). h.enabled in
    IsAscending-unique by_name (λ a b. text_lt_asymmetric a.name b.name) (sort by_name (keep on hs))
      (sort by_name (keep on gs)) (sort-IsAscending (keep on hs) (keep-Distinct on hs d))
      (sort-IsAscending (keep on gs) (keep-Distinct on gs e))
      (λ h. (
        (λ m.
            let k = (keep-Elem on h hs).0 ((sort-Elem by_name h (keep on hs)).0 m) in
            (sort-Elem by_name h (keep on gs)).1 ((keep-Elem on h gs).1 ((same h).0 k.0, k.1))),
        (λ m.
            let k = (keep-Elem on h gs).0 ((sort-Elem by_name h (keep on gs)).0 m) in
            (sort-Elem by_name h (keep on hs)).1 ((keep-Elem on h hs).1 ((same h).1 k.0, k.1))),
      ))

pub compile-inr :
    (l : Libraries) (hs : List ProxyHost) (certs : List Certificate) (r : Compiled)
    → compile l hs certs ≡ inr r
    → (validate_all l.parse_url hs ≡ []) × (compile_ordered l (ordered hs) certs ≡ inr r)
unfolding compile
compile-inr l hs certs r e = ground arith

-- The payload and its ETag do not depend on the order in which the hosts come:
-- two lists of the same hosts that both compile give the same bytes and the same ETag.
pub compile_unique :
    (l : Libraries) (hs gs : List ProxyHost) (certs : List Certificate) (r t : Compiled)
    → ((h : ProxyHost) → Elem h hs ↔ Elem h gs)
    → compile l hs certs ≡ inr r
    → compile l gs certs ≡ inr t
    → r ≡ t
unfolding validate_all
compile_unique l hs gs certs r t same e f =
    let (v, p) = compile-inr l hs certs r e in
    let (w, q) = compile-inr l gs certs t f in
    let d = (validate_hosts-Distinct l.parse_url hs unseen v).0 in
    let g = (validate_hosts-Distinct l.parse_url gs unseen w).0 in
    let one = ap (λ z. compile_ordered l z certs) (ordered_unique hs gs d g same) in ground arith

-- ===== src/Labels/Selection.antt =====
-- apps/api/internal/labels/labels.go: which agents a selector selects, by its text.
use proxydock.Labels.{
  Selector, have, is_empty, label, matches, parse, parse_part, parse_parts, satisfied,
}
use proxydock.Prelude.{
  ==_iff, ==_refl, Bool-cases, List, Option, Option-cases, Text, [], all, ap, arith, if◌then◌else◌,
  inl, inr, nat_eq, none, refl, some, subst, sum_cases, sym, text_eq, true, ◌==◌, ◌↔◌, ◌∙◌, ◌∷◌,
  ◌≡◌, ◌⊎◌,
}
use proxydock.Prelude.GoMap.{GoMap, IsMap, get, get-put, put, put-IsMap}
use proxydock.Prelude.Strings.{cut, drop_while, split, trim_right, trim_space}

-- The requirement stands in one of the parts of the text.
abbrev pub Written : Text → Text → List Text → Type 0
Written k v [] = ⊥
Written k v (p ∷ ps) = (label (trim_space p) ≡ some (k, v)) ⊎ Written k v ps

-- The last value that the labels give the key.
unfoldable pub latest : Text → List Text → Option Text
latest k [] = none
latest k (l ∷ ls) = elim (latest k ls) [
  | some v ↦ some v
  | none ↦ elim (label l) [ none ↦ none | some (j, v) ↦ if j == k then some v else none ]
]

get-have :
    (k : Text) (ls : List Text) (m : GoMap Text Text)
    → get k (have ls m) ≡ elim (latest k ls) [ some v ↦ some v | none ↦ get k m ]
unfolding have latest
get-have k [] m = refl
get-have k (l ∷ ls) m = elim (Option-cases (label l)) [
  | inl e ↦ ground (arith, get-have k ls m)
  | inr ((j, v), e) ↦ ground (arith, get-have k ls (put j v m), get-put j k v m)
]

-- The empty part has no label, since it has no `=`.
label_empty : label [] ≡ none
unfolding label cut
label_empty = refl

parse_part-get :
    (p : Text) (s t : Selector) (k v : Text)
    → parse_part p s ≡ inr t
    → (get k t ≡ some v) ↔ ((get k s ≡ some v) ⊎ (label (trim_space p) ≡ some (k, v)))
unfolding parse_part
parse_part-get p s t k v h = elim (Bool-cases (trim_space p == [])) [
  | inl e ↦
      let none_there : label (trim_space p) ≡ none =
        ap label ((==_iff (trim_space p) []).0 e) ∙ label_empty in
      ground arith
  | inr e ↦ elim (Option-cases (label (trim_space p))) [
    | inl n ↦ absurd (ground arith)
    | inr ((j, w), n) ↦ elim (Option-cases (get j s)) [
      | inl g ↦ ground (arith, get-put j k w s, ==_iff j k)
      | inr (old, g) ↦ ground (arith, get-put j k w s, ==_iff j k, ==_iff old w)
    ]
  ]
]

parse_part-IsMap : (p : Text) (s t : Selector) → parse_part p s ≡ inr t → IsMap s → IsMap t
unfolding parse_part
parse_part-IsMap p s t h m = elim (Option-cases (label (trim_space p))) [
  | inl n ↦ ground arith
  | inr ((j, w), n) ↦ let put_ok = put-IsMap j w s m in ground arith
]

parse_parts-get :
    (ps : List Text) (s t : Selector) (k v : Text)
    → parse_parts ps s ≡ inr t
    → (get k t ≡ some v) ↔ ((get k s ≡ some v) ⊎ Written k v ps)
unfolding parse_parts
parse_parts-get [] s t k v h = ground arith
parse_parts-get (p ∷ ps) s t k v h = elim (sum_cases (parse_part p s)) [
  | inl (e, f) ↦ absurd (ground arith)
  | inr (u, f) ↦
      let rest = parse_parts-get ps u t k v (ground arith) in
      let one = parse_part-get p s u k v f in ground arith
]

parse_parts-IsMap : (ps : List Text) (s t : Selector) → parse_parts ps s ≡ inr t → IsMap s → IsMap t
unfolding parse_parts
parse_parts-IsMap [] s t h m = subst IsMap (ground arith) m
parse_parts-IsMap (p ∷ ps) s t h m = elim (sum_cases (parse_part p s)) [
  | inl (e, f) ↦ absurd (ground arith)
  | inr (u, f) ↦ parse_parts-IsMap ps u t (ground arith) (parse_part-IsMap p s u f m)
]

-- What a whole text asks for.
blank_label : label (trim_space []) ≡ none
unfolding label cut trim_space trim_right drop_while
blank_label = refl

parse-get :
    (raw : Text) (s : Selector) (k v : Text)
    → parse raw ≡ inr s
    → (get k s ≡ some v) ↔ Written k v (split b',' (trim_space raw))
unfolding parse get split
parse-get raw s k v h = elim (Bool-cases (trim_space raw == [])) [
  | inl e ↦
      let blank : trim_space raw ≡ [] = (==_iff (trim_space raw) []).0 e in
      let empty_map : s ≡ [] = ground arith in
      let no_label = blank_label in
      subst (λ z. (get k s ≡ some v) ↔ Written k v (split b',' z)) (sym blank) (ground arith)
  | inr e ↦
      let g = parse_parts-get (split b',' (trim_space raw)) [] s k v (ground arith) in ground arith
]

parse-IsMap : (raw : Text) (s : Selector) → parse raw ≡ inr s → IsMap s
unfolding parse
parse-IsMap raw s h = elim (Bool-cases (trim_space raw == [])) [
  | inl e ↦ let empty_map : [] ≡ s = ground arith in subst IsMap empty_map tt
  | inr e ↦ parse_parts-IsMap (split b',' (trim_space raw)) [] s (ground arith) tt
]

all-get :
    (m s : GoMap Text Text) (k v : Text)
    → all (satisfied m) s ≡ true
    → get k s ≡ some v
    → get k m ≡ some v
unfolding all satisfied get
all-get m [] k v h e = absurd (ground arith)
all-get m ((j, w) ∷ s) k v h e = elim (Option-cases (get j m)) [
  | inl g ↦ absurd (ground arith)
  | inr (u, g) ↦ let rest = all-get m s k v (ground arith) in ground (arith, ==_iff j k, ==_iff u w)
]

get-all :
    (m s : GoMap Text Text)
    → IsMap s
    → ((k v : Text) → get k s ≡ some v → get k m ≡ some v)
    → all (satisfied m) s ≡ true
unfolding all satisfied get
get-all m [] i h = refl
get-all m ((j, w) ∷ s) i h =
    let here = h j w (ground (arith, ==_refl j)) in
    let rest = get-all m s i.1 (λ k v e. h k v (ground (arith, ==_iff j k))) in
    ground (arith, ==_refl w)

have-latest : (k : Text) (ls : List Text) → get k (have ls []) ≡ latest k ls
unfolding get
have-latest k ls =
    let e = get-have k ls [] in
    elim (Option-cases (latest k ls)) [ inl n ↦ ground arith | inr (v, n) ↦ ground arith ]

matches-all : (s : Selector) (ls : List Text) → matches s ls ≡ all (satisfied (have ls [])) s
unfolding matches is_empty all
matches-all [] ls = refl
matches-all (_ ∷ _) ls = refl

-- A selector that a text parses to matches an agent exactly if, for every part of the text that
-- reads `key=value`, the last label of the agent with that key has that value. White space around
-- parts, keys and values does not count; nor do the order of the parts or their repetition.
pub matches-parse :
    (raw : Text) (s : Selector) (agent_labels : List Text)
    → parse raw ≡ inr s
    → (matches s agent_labels ≡ true)
      ↔ ((k v : Text) → Written k v (split b',' (trim_space raw)) → latest k agent_labels ≡ some v)
matches-parse raw s ls h = (
  λ m k v w.
      sym (have-latest k ls)
      ∙ all-get (have ls []) s k v (sym (matches-all s ls) ∙ m) ((parse-get raw s k v h).1 w),
  λ f.
      matches-all s ls
      ∙ get-all (have ls []) s (parse-IsMap raw s h)
          (λ k v g. have-latest k ls ∙ f k v ((parse-get raw s k v h).0 g)),
)

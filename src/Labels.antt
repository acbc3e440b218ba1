-- ===== src/Labels.antt =====
-- apps/api/internal/labels/labels.go: the label selectors that target a proxy host at some agents.
-- A selector is its map of requirements; a nil one is an empty one.
pub mod Selection
use proxydock.Prelude.{
  Bool, List, Option, Text, [], all, false, if◌then◌else◌, inl, inr, nat_eq, none, some, text_eq,
  true, ◌==◌, ◌∷◌, ◌⊎◌,
}
use proxydock.Prelude.GoMap.{GoMap, get, put}
use proxydock.Prelude.Strings.{cut, split, trim_space}

abbrev pub Selector : Type 0
Selector = GoMap Text Text

pub data ParseError : Type 0 where
  no_equals empty_key contradictory : ParseError

-- `strings.Cut(l, "=")`, with both halves trimmed.
unfoldable pub label : Text → Option (Text × Text)
label l = elim (cut b'=' l) [ none ↦ none | some (k, v) ↦ some (trim_space k, trim_space v) ]

-- One round of the loop, for one part of the text.
unfoldable pub parse_part : Text → Selector → ParseError ⊎ Selector
unfolding label
parse_part raw s =
    let part = trim_space raw in
    if part == [] then inr s else elim (label part) [
      | none ↦ inl no_equals
      | some (k, v) ↦ if k == [] then inl empty_key else elim (get k s) [
        | none ↦ inr (put k v s)
        | some existing ↦ if existing == v then inr (put k v s) else inl contradictory
      ]
    ]

unfoldable pub parse_parts : List Text → Selector → ParseError ⊎ Selector
unfolding parse_part
parse_parts [] s = inr s
parse_parts (p ∷ ps) s = elim (parse_part p s) [ inl e ↦ inl e | inr t ↦ parse_parts ps t ]

unfoldable pub parse : Text → ParseError ⊎ Selector
unfolding parse_parts
parse raw = if trim_space raw == [] then inr [] else parse_parts (split b',' (trim_space raw)) []

unfoldable pub is_empty : Selector → Bool
is_empty [] = true
is_empty (_ ∷ _) = false

-- The labels of an agent as a map; where a key stands twice, the later one counts.
unfoldable pub have : List Text → GoMap Text Text → GoMap Text Text
unfolding label
have [] m = m
have (l ∷ ls) m = elim (label l) [ none ↦ have ls m | some (k, v) ↦ have ls (put k v m) ]

unfoldable pub satisfied : GoMap Text Text → Text × Text → Bool
satisfied m (k, want) = elim (get k m) [ none ↦ false | some got ↦ got == want ]

unfoldable pub matches : Selector → List Text → Bool
unfolding is_empty have satisfied
matches s agent_labels = if is_empty s then true else all (satisfied (have agent_labels [])) s

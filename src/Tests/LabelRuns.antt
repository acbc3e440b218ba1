-- ===== src/Tests/LabelRuns.antt =====
-- The label selectors (apps/api/internal/labels) at work.
use proxydock.Labels.{
  Selector, contradictory, have, is_empty, label, matches, parse, parse_part, parse_parts,
  satisfied,
}
use proxydock.Labels.Selection.{Written, latest, matches-parse}
use proxydock.Prelude.{
  Text, [], all, codes, false, inl, nat_eq, refl, some, text_beq, text_eq, true, ◌↔◌, ◌∷◌, ◌≡◌,
}
use proxydock.Prelude.GoMap.{get, put}
use proxydock.Prelude.Strings.{cut, drop_while, split, trim_right, trim_space}

abbrev selector : Text
selector = codes " env=prod , tier = web,,"

abbrev parsed : Selector
parsed = (codes "env", codes "prod") ∷ (codes "tier", codes "web") ∷ []

matches_run :
    (matches parsed (codes "tier=db" ∷ codes "env=prod" ∷ codes "tier=web" ∷ []) ≡ true)
    × (matches parsed (codes "env=prod" ∷ codes "tier=web" ∷ codes "tier=db" ∷ []) ≡ false)
unfolding matches is_empty all satisfied get have label cut put trim_space trim_right drop_while
    text_beq
matches_run = (refl, refl)

parse_clash : parse (codes "a=1,a=2") ≡ inl contradictory
unfolding parse parse_parts parse_part label split cut trim_space trim_right drop_while get put
    text_beq
parse_clash = refl

matches-parse_example : (matches parsed (codes "env=prod" ∷ []) ≡ true) ↔ (
    (k v : Text)
    → Written k v (split b',' (trim_space selector))
    → latest k (codes "env=prod" ∷ []) ≡ some v)
unfolding parse parse_parts parse_part label split cut trim_space trim_right drop_while get put
    text_beq
matches-parse_example = matches-parse selector parsed (codes "env=prod" ∷ []) refl

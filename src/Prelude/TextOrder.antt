-- ===== src/Prelude/TextOrder.antt =====
-- The order of texts is a strict total order.
use mathlib.Core.Path.{◌≡◌, refl}
use mathlib.Core.List.{[], ◌∷◌}
use mathlib.Core.Bool.{true, false}
use native.Mathlib.Omega.{arith}
use proxydock.Prelude.Classes.{Text}
use proxydock.Prelude.Go.{text_lt}

pub text_lt_asymmetric : (s t : Text) → text_lt s t ≡ true → text_lt t s ≡ false
unfolding text_lt
text_lt_asymmetric [] [] h = ground arith
text_lt_asymmetric [] (y ∷ t) h = refl
text_lt_asymmetric (x ∷ s) [] h = ground arith
text_lt_asymmetric (x ∷ s) (y ∷ t) h = ground (arith, text_lt_asymmetric s t)

pub text_lt_total : (s t : Text) → text_lt s t ≡ false → text_lt t s ≡ false → s ≡ t
unfolding text_lt
text_lt_total [] [] h k = refl
text_lt_total [] (y ∷ t) h k = ground arith
text_lt_total (x ∷ s) [] h k = ground arith
text_lt_total (x ∷ s) (y ∷ t) h k = ground (arith, text_lt_total s t)

-- Not to stand before is transitive.
pub text_lt_transitive :
    (s t u : Text) → text_lt t s ≡ false → text_lt u t ≡ false → text_lt u s ≡ false
unfolding text_lt
text_lt_transitive [] [] [] h k = refl
text_lt_transitive [] [] (z ∷ u) h k = ground arith
text_lt_transitive [] (y ∷ t) [] h k = ground arith
text_lt_transitive [] (y ∷ t) (z ∷ u) h k = ground arith
text_lt_transitive (x ∷ s) [] [] h k = ground arith
text_lt_transitive (x ∷ s) [] (z ∷ u) h k = ground arith
text_lt_transitive (x ∷ s) (y ∷ t) [] h k = ground arith
text_lt_transitive (x ∷ s) (y ∷ t) (z ∷ u) h k = ground (arith, text_lt_transitive s t u)

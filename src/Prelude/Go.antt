-- ===== src/Prelude/Go.antt =====
-- What Go's language and standard library do with 64-bit integers, slices and sorting, as far as
-- the program relies on it.
use Prim.Native.Nat.{ℕ, ◌+◌, ◌%◌, ◌^◌}
use mathlib.Core.Bool.{Bool}
use mathlib.Core.Option.{Option, none, some}
use mathlib.Core.List.{List, [], ◌∷◌}
use proxydock.Prelude.Tests.{ltb, if◌then◌else◌}

-- An int64 is its bit pattern. Adding 1 wraps around, and the order is the signed one.
abbrev pub inc : ℕ → ℕ
inc n = (n + 1) % 2 ^ 64

abbrev pub int_lt : ℕ → ℕ → Bool
int_lt a b = ltb ((a + 2 ^ 63) % 2 ^ 64) ((b + 2 ^ 63) % 2 ^ 64)

module _ {ℓ} {A : Type ℓ} where
  -- The elements of a slice; a nil slice has none.
  abbrev pub items : Option (List A) → List A
  items none = []
  items (some xs) = xs

  -- `append([]T(nil), xs...)`: a copy, which is nil if nothing is copied.
  abbrev pub copy_slice : Option (List A) → Option (List A)
  copy_slice none = none
  copy_slice (some []) = none
  copy_slice (some (x ∷ xs)) = some (x ∷ xs)

  -- `if xs == nil { xs = d }`
  abbrev pub or_default : Option (List A) → List A → Option (List A)
  or_default none d = some d
  or_default (some xs) d = some xs

  -- `sort.Slice`. Where two elements are equal in the order, Go may put them either way.
  unfoldable pub insert_sorted : (A → A → Bool) → A → List A → List A
  insert_sorted less x [] = x ∷ []
  insert_sorted less x (y ∷ ys) =
      let rest = insert_sorted less x ys in if less y x then y ∷ rest else x ∷ y ∷ ys

  unfoldable pub sort : (A → A → Bool) → List A → List A
  unfolding insert_sorted
  sort less [] = []
  sort less (x ∷ xs) = insert_sorted less x (sort less xs)

-- Strings are compared by their bytes, which is the order of their code points.
unfoldable pub text_lt : List ℕ → List ℕ → Bool
text_lt [] [] = Bool.false
text_lt [] (y ∷ ys) = Bool.true
text_lt (x ∷ xs) [] = Bool.false
text_lt (x ∷ xs) (y ∷ ys) =
    let rest = text_lt xs ys in if ltb x y then Bool.true else if ltb y x then Bool.false else rest

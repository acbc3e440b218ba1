-- ===== src/Model/Value.antt =====
-- The dynamic values of Go's `any` that the middleware and health-check configs hold
-- (apps/api/internal/model/model.go, `map[string]any`), and the documents the compiler builds.
use Prim.Native.Nat.{ℕ}
use mathlib.Core.Bool.{Bool}
use mathlib.Core.List.{List, [], ◌∷◌}
use mathlib.Core.Option.{Option, none, some}
use proxydock.Prelude.{Text, text_eq, ◌==◌, if◌then◌else◌}

-- `negsuc n` is -(n + 1).
pub data ℤ : Type 0 where
  pos : ℕ → ℤ
  negsuc : ℕ → ℤ

mutual
  -- `num` is a float64 with an integral value, `frac` one with a fractional part, by its text;
  -- `int` is a Go int and `strs` a []string, which the compiler itself puts in.
  pub data Any : Type 0 where
    null : Any
    bool : Bool → Any
    num : ℤ → Any
    frac : Text → Any
    int : ℤ → Any
    str : Text → Any
    strs : List Text → Any
    arr : Anys → Any
    obj : Fields → Any

  pub data Anys : Type 0 where
    nil : Anys
    cons : Any → Anys → Anys

  pub data Fields : Type 0 where
    end : Fields
    field : Text → Any → Fields → Fields

-- A `map[string]any` as a value.
unfoldable pub fields : List (Text × Any) → Fields
fields [] = end
fields ((k, v) ∷ m) = field k v (fields m)

unfoldable pub anys : List Any → Anys
anys [] = nil
anys (v ∷ vs) = cons v (anys vs)

-- `m[key]` and `m[key] = v` of a `map[string]any` that is such a value.
unfoldable pub get_field : Text → Fields → Option Any
get_field k end = none
get_field k (field j v m) = if j == k then some v else get_field k m

unfoldable pub set_field : Text → Any → Fields → Fields
set_field k v end = field k v end
set_field k v (field j w m) =
    let rest = set_field k v m in if j == k then field k v m else field j w rest

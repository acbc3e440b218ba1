-- ===== src/Prelude/GoMap.antt =====
-- Go's `map[K]V` as an association list, with what the code does with one: read, write, delete,
-- scan, and delete inside a scan. A scan goes in the list's order. Go leaves the order open, and a
-- theorem about every association list is one about every order.
use mathlib.Core.Path.{◌≡◌, refl}
use mathlib.Core.Logic.{inl, inr}
use mathlib.Core.Bool.{Bool, true, false}
use mathlib.Core.Option.{Option, none, some}
use mathlib.Core.List.{List, [], ◌∷◌, map}
use native.Mathlib.Omega.{arith}
use proxydock.Prelude.Tests.{Bool-cases, if◌then◌else◌}
use proxydock.Prelude.Classes.{Eq, ◌==◌, ==_iff}
use proxydock.Prelude.Lists.{any, All}

abbrev pub GoMap {ℓ κ} : Type ℓ → Type κ → Type (ℓ ⊔ κ)
GoMap K V = List (K × V)

module _ {ℓ} {V : Type ℓ} where
  abbrev pub unless : (V → Bool) → Option V → Option V
  unless p none = none
  unless p (some v) = if p v then none else some v

module _ {ℓ κ} {K : Type ℓ} {V : Type κ} where
  abbrev pub values : GoMap K V → List V
  values = map (λ e. e.1)

  -- `for k, v := range m { if p(v) { delete(m, k) } }`
  unfoldable pub delete_where : (V → Bool) → GoMap K V → GoMap K V
  delete_where p [] = []
  delete_where p ((k, v) ∷ m) = let rest = delete_where p m in if p v then rest else (k, v) ∷ rest

  -- The first value of a scan that passes the test.
  unfoldable pub find : (V → Bool) → GoMap K V → Option V
  find p [] = none
  find p ((k, v) ∷ m) = if p v then some v else find p m

module _ {ℓ κ} {K : Type ℓ} {V : Type κ} ⦃e : Eq K⦄ where
  unfoldable pub get : K → GoMap K V → Option V
  get k [] = none
  get k ((j, v) ∷ m) = if j == k then some v else get k m

  unfoldable pub put : K → V → GoMap K V → GoMap K V
  put k v [] = (k, v) ∷ []
  put k v ((j, w) ∷ m) = if j == k then (k, v) ∷ m else (j, w) ∷ put k v m

  unfoldable pub delete : K → GoMap K V → GoMap K V
  delete k [] = []
  delete k ((j, v) ∷ m) = let rest = delete k m in if j == k then rest else (j, v) ∷ rest

  pub get-put :
      (k j : K) (v : V) (m : GoMap K V) → get j (put k v m) ≡ (if k == j then some v else get j m)
  unfolding get put
  get-put k j v [] = refl
  get-put k j v ((i, w) ∷ m) = ground (arith, ==_iff k j, ==_iff i k, ==_iff i j, get-put k j v m)

  pub get-delete :
      (k j : K) (m : GoMap K V) → get j (delete k m) ≡ (if k == j then none else get j m)
  unfolding get delete
  get-delete k j [] = ground arith
  get-delete k j ((i, w) ∷ m) = ground (arith, ==_iff k j, ==_iff i k, ==_iff i j, get-delete k j m)

  -- No key twice.
  abbrev pub IsMap : GoMap K V → Type κ
  IsMap [] = Unit
  IsMap ((k, v) ∷ m) = (get k m ≡ none) × IsMap m

  pub put-IsMap : (k : K) (v : V) (m : GoMap K V) → IsMap m → IsMap (put k v m)
  unfolding get put
  put-IsMap k v [] h = (refl, tt)
  put-IsMap k v ((i, w) ∷ m) h =
      ground (arith, ==_iff i k, ==_iff k i, get-put k i v m, put-IsMap k v m h.1)

  pub delete-IsMap : (k : K) (m : GoMap K V) → IsMap m → IsMap (delete k m)
  unfolding delete
  delete-IsMap k [] h = tt
  delete-IsMap k ((i, w) ∷ m) h = ground (arith, get-delete k i m, delete-IsMap k m h.1)

  get-delete_where-none :
      (p : V → Bool) (k : K) (m : GoMap K V) → get k m ≡ none → get k (delete_where p m) ≡ none
  unfolding get delete_where
  get-delete_where-none p k [] h = refl
  get-delete_where-none p k ((i, w) ∷ m) h = ground (arith, get-delete_where-none p k m)

  pub get-delete_where :
      (p : V → Bool) (k : K) (m : GoMap K V)
      → IsMap m
      → get k (delete_where p m) ≡ unless p (get k m)
  unfolding get delete_where
  get-delete_where p k [] h = refl
  get-delete_where p k ((i, w) ∷ m) h =
      ground (arith, ==_iff i k, get-delete_where p k m h.1, get-delete_where-none p k m)

  pub delete_where-IsMap : (p : V → Bool) (m : GoMap K V) → IsMap m → IsMap (delete_where p m)
  unfolding delete_where
  delete_where-IsMap p [] h = tt
  delete_where-IsMap p ((i, w) ∷ m) h =
      ground (arith, get-delete_where-none p i m h.0, delete_where-IsMap p m h.1)

  -- A scan that finds nothing has looked at every key.
  pub any-false :
      (p : V → Bool) (m : GoMap K V) (k : K) (v : V)
      → any p (values m) ≡ false
      → get k m ≡ some v
      → p v ≡ false
  unfolding any get
  any-false p [] k v h g = ground arith
  any-false p ((i, w) ∷ m) k v h g = ground (arith, any-false p m k v)

  -- What a scan finds stands under some key.
  pub find-get :
      (p : V → Bool) (m : GoMap K V) (v : V)
      → IsMap m
      → find p m ≡ some v
      → (k : K) × (get k m ≡ some v) × (p v ≡ true)
  unfolding find get
  find-get p [] v h f = ground arith
  find-get p ((i, w) ∷ m) v h f = elim (Bool-cases (p w)) [
    | inl here ↦ (i, ground (arith, ==_iff i i), ground arith)
    | inr past ↦
        let (k, g, q) = find-get p m v h.1 (ground arith) in (k, ground (arith, ==_iff i k), q)
  ]

  -- A scan that passes over everything finds nothing under any key.
  pub find-none :
      (p : V → Bool) (m : GoMap K V) (k : K) (v : V)
      → find p m ≡ none
      → get k m ≡ some v
      → p v ≡ false
  unfolding find get
  find-none p [] k v h g = ground arith
  find-none p ((i, w) ∷ m) k v h g = ground (arith, find-none p m k v)

  -- A property of all entries survives a write that has it.
  pub put-All {μ} :
      (P : K × V → Type μ) (k : K) (v : V) (m : GoMap K V) → P (k, v) → All P m → All P (put k v m)
  unfolding put
  put-All P k v [] p all = (p, tt)
  put-All P k v ((i, w) ∷ m) p (q, all) =
      elim (i == k) as (λ b. All P (if b then (k, v) ∷ m else (i, w) ∷ put k v m)) [
        | true ↦ (p, all)
        | false ↦ (q, put-All P k v m p all)
      ]

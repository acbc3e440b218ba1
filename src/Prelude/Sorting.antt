-- ===== src/Prelude/Sorting.antt =====
-- The sort of Go's `sort.Slice` puts its input in order and keeps its elements.
use mathlib.Core.Logic.{◌⊎◌, inl, inr, ◌↔◌}
use mathlib.Core.List.{List, [], ◌∷◌}
use mathlib.Core.Bool.{Bool, true, false}
use mathlib.Core.Path.{◌≡◌, ◌∙◌, ap, refl, subst, sym}
use native.Mathlib.Omega.{arith}
use proxydock.Prelude.Tests.{Bool-cases}
use proxydock.Prelude.Go.{insert_sorted, sort}

module _ {A : Type 0} where
  -- To be an element, by recursion.
  abbrev pub Elem : A → List A → Type 0
  Elem x [] = ⊥
  Elem x (y ∷ ys) = (x ≡ y) ⊎ Elem x ys

  -- Nothing stands behind an element that is greater.
  abbrev pub IsSorted : (A → A → Bool) → List A → Type 0
  IsSorted less [] = Unit
  IsSorted less (x ∷ xs) = ((y : A) → Elem y xs → less y x ≡ false) × IsSorted less xs

  module _ (less : A → A → Bool) where
    pub insert_sorted-Elem :
        (x y : A) (ys : List A) → Elem y (insert_sorted less x ys) ↔ Elem y (x ∷ ys)
    unfolding insert_sorted
    insert_sorted-Elem x y [] = ((λ h. h), (λ h. h))
    insert_sorted-Elem x y (z ∷ zs) = elim (Bool-cases (less z x)) [
      | inl e ↦
          let rest = insert_sorted-Elem x y zs in
          rw (e, insert_sorted)
            (
              (λ h. elim h [
                | inl p ↦ inr (inl p)
                | inr q ↦ elim (rest.0 q) [ inl p ↦ inl p | inr r ↦ inr (inr r) ]
              ]),
              (λ h. elim h [
                | inl p ↦ inr (rest.1 (inl p))
                | inr q ↦ elim q [ inl p ↦ inl p | inr r ↦ inr (rest.1 (inr r)) ]
              ]),
            )
      | inr e ↦ rw (e, insert_sorted) ((λ h. h), (λ h. h))
    ]

    pub sort-Elem : (y : A) (xs : List A) → Elem y (sort less xs) ↔ Elem y xs
    unfolding sort
    sort-Elem y [] = ((λ h. h), (λ h. h))
    sort-Elem y (x ∷ xs) =
        let ins = insert_sorted-Elem x y (sort less xs) in
        let rest = sort-Elem y xs in
        (
          (λ h. elim (ins.0 h) [ inl p ↦ inl p | inr q ↦ inr (rest.0 q) ]),
          (λ h. elim h [ inl p ↦ ins.1 (inl p) | inr q ↦ ins.1 (inr (rest.1 q)) ]),
        )

    module _ (asymmetric : (x y : A) → less x y ≡ true → less y x ≡ false)
        (transitive : (x y z : A) → less y x ≡ false → less z y ≡ false → less z x ≡ false) where
      insert_sorted-IsSorted :
          (x : A) (ys : List A) → IsSorted less ys → IsSorted less (insert_sorted less x ys)
      unfolding insert_sorted
      insert_sorted-IsSorted x [] h = ((λ y m. absurd m), tt)
      insert_sorted-IsSorted x (z ∷ zs) h = elim (Bool-cases (less z x)) [
        | inl e ↦
            rw (e, insert_sorted)
              (
                (λ y m. elim ((insert_sorted-Elem x y zs).0 m) [
                  | inl p ↦ rw p (asymmetric z x e)
                  | inr q ↦ h.0 y q
                ]),
                insert_sorted-IsSorted x zs h.1,
              )
        | inr e ↦
            rw (e, insert_sorted)
              ((λ y m. elim m [ inl p ↦ rw p e | inr q ↦ transitive x z y e (h.0 y q) ]), h)
      ]

      pub sort-IsSorted : (xs : List A) → IsSorted less (sort less xs)
      unfolding sort
      sort-IsSorted [] = tt
      sort-IsSorted (x ∷ xs) = insert_sorted-IsSorted x (sort less xs) (sort-IsSorted xs)

  -- Each element stands before all that follow it.
  abbrev pub IsAscending : (A → A → Bool) → List A → Type 0
  IsAscending less [] = Unit
  IsAscending less (x ∷ xs) = ((y : A) → Elem y xs → less x y ≡ true) × IsAscending less xs

  -- Two such lists with the same elements are the same.
  pub IsAscending-unique :
      (less : A → A → Bool)
      → ((x y : A) → less x y ≡ true → less y x ≡ false)
      → (xs ys : List A) → IsAscending less xs
      → IsAscending less ys
      → ((z : A) → Elem z xs ↔ Elem z ys)
      → xs ≡ ys
  IsAscending-unique less asym [] [] p q e = refl
  IsAscending-unique less asym [] (y ∷ ys) p q e = absurd ((e y).1 (inl refl))
  IsAscending-unique less asym (x ∷ xs) [] p q e = absurd ((e x).0 (inl refl))
  IsAscending-unique less asym (x ∷ xs) (y ∷ ys) p q e =
      let irreflexive : (z : A) → ¬ (less z z ≡ true) = λ z h. ground (arith, asym z z h) in
      let head : x ≡ y = elim ((e x).0 (inl refl)) [
        | inl same ↦ same
        | inr below ↦ elim ((e y).1 (inl refl)) [
          | inl same ↦ sym same
          | inr above ↦ absurd (ground (arith, asym x y (p.0 y above), q.0 x below))
        ]
      ] in
      let tails : xs ≡ ys = IsAscending-unique less asym xs ys p.1 q.1 (λ z. (
        (λ m. elim ((e z).0 (inr m)) [
          | inl same ↦
              absurd (irreflexive x (subst (λ w. less x w ≡ true) (same ∙ sym head) (p.0 z m)))
          | inr n ↦ n
        ]),
        (λ m. elim ((e z).1 (inr m)) [
          | inl same ↦ absurd (irreflexive y (subst (λ w. less y w ≡ true) (same ∙ head) (q.0 z m)))
          | inr n ↦ n
        ]),
      )) in
      ap (λ z. z ∷ xs) head ∙ ap (λ zs. y ∷ zs) tails

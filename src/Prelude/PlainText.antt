-- ===== src/Prelude/PlainText.antt =====
-- Texts without white space and without a separator: trimming and splitting leave them as they are.
use mathlib.Core.Path.{◌≡◌, refl, sym, subst}
use mathlib.Core.Bool.{Bool, false}
use mathlib.Core.List.{List, [], ◌∷◌, ◌++◌, reverse, reverse-cons, reverse-reverse}
use Prim.Native.Nat.{ℕ}
use native.Mathlib.Omega.{arith}
use proxydock.Prelude.Tests.{nat_beq}
use proxydock.Prelude.Classes.{Text}
use proxydock.Prelude.Lists.{All, All-append_one, take}
use proxydock.Prelude.Strings.{drop_while, is_space, split, trim_right, trim_space}

pub All-append {ℓ κ} :
    {A : Type ℓ} (P : A → Type κ) (xs ys : List A) → All P xs → All P ys → All P (xs ++ ys)
All-append P [] ys h k = k
All-append P (x ∷ xs) ys (p, h) k = (p, All-append P xs ys h k)

pub All-take {ℓ κ} :
    {A : Type ℓ} (P : A → Type κ) (n : ℕ) (xs : List A) → All P xs → All P (take n xs)
All-take P Prim.Native.Nat.zero xs h = tt
All-take P (Prim.Native.Nat.suc n) [] h = tt
All-take P (Prim.Native.Nat.suc n) (x ∷ xs) (p, h) = (p, All-take P n xs h)

pub All-reverse {ℓ κ} : {A : Type ℓ} (P : A → Type κ) (xs : List A) → All P xs → All P (reverse xs)
All-reverse P [] h = tt
All-reverse P (x ∷ xs) (p, h) =
    subst (All P) (sym (reverse-cons x xs)) (All-append_one P (reverse xs) x (All-reverse P xs h) p)

drop_while-All : (p : ℕ → Bool) (s : Text) → All (λ c. p c ≡ false) s → drop_while p s ≡ s
unfolding drop_while
drop_while-All p [] h = refl
drop_while-All p (c ∷ s) (n, h) = ground arith

pub trim_space-All : (s : Text) → All (λ c. is_space c ≡ false) s → trim_space s ≡ s
unfolding trim_space trim_right
trim_space-All s h = rw (drop_while-All is_space s h) (
    rw (drop_while-All is_space (reverse s) (All-reverse (λ c. is_space c ≡ false) s h))
      (reverse-reverse s))

pub split-All : (sep : ℕ) (s : Text) → All (λ c. nat_beq c sep ≡ false) s → split sep s ≡ s ∷ []
unfolding split
split-All sep [] h = refl
split-All sep (c ∷ s) (n, h) = let rest = split-All sep s h in rw (n, rest) refl

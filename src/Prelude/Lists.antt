-- ===== src/Prelude/Lists.antt =====
-- Lists measured by native numbers, and a predicate on all items, by recursion.
use Prim.Native.Nat.{ℕ, suc, ◌+◌}
use mathlib.Core.Path.{◌≡◌, refl, subst}
use mathlib.Core.Logic.{◌↔◌, ◌⊎◌, inl, inr}
use mathlib.Core.List.{List, [], ◌∷◌, ◌++◌}
use native.Mathlib.Omega.{arith}

module _ {ℓ} {A : Type ℓ} where
  abbrev pub length : List A → ℕ
  length [] = 0
  length (x ∷ xs) = suc (length xs)

  pub length-append : (xs ys : List A) → length (xs ++ ys) ≡ length xs + length ys
  length-append [] ys = omega arith
  length-append (x ∷ xs) ys = omega (arith, length-append xs ys)

  abbrev pub All {κ} : (A → Type κ) → List A → Type κ
  All P [] = Unit
  All P (x ∷ xs) = P x × All P xs

module _ {ℓ κ} {A : Type ℓ} (P : A → Type κ) where
  pub All-append : (xs ys : List A) → All P xs → All P ys → All P (xs ++ ys)
  All-append [] ys hx hy = hy
  All-append (x ∷ xs) ys hx hy = (hx.0, All-append xs ys hx.1 hy)

-- `x` stands in the list.
abbrev pub In : {A : Type 0} → A → List A → Type 0
In x [] = ⊥
In x (y ∷ ys) = (y ≡ x) ⊎ In x ys

pub All-In : {A : Type 0} (P : A → Type 0) (xs : List A) → ((x : A) → In x xs → P x) → All P xs
All-In P [] h = tt
All-In P (x ∷ xs) h = (h x (inl refl), All-In P xs (λ y m. h y (inr m)))

pub In-All : {A : Type 0} (P : A → Type 0) (xs : List A) → All P xs → (x : A) → In x xs → P x
In-All P [] h x m = absurd m
In-All P (y ∷ ys) h x (inl e) = subst P e h.0
In-All P (y ∷ ys) h x (inr m) = In-All P ys h.1 x m

module _ {A : Type 0} (x : A) where
  pub In-append : (xs ys : List A) → In x (xs ++ ys) ↔ (In x xs ⊎ In x ys)
  In-append [] ys = (λ m. inr m, λ m. elim m [ inl i ↦ absurd i | inr r ↦ r ])
  In-append (y ∷ xs) ys =
      let (down, up) = In-append xs ys in
      (
        λ m. elim m [
          | inl i ↦ inl (inl i)
          | inr r ↦ elim (down r) [ inl q ↦ inl (inr q) | inr q ↦ inr q ]
        ],
        λ m. elim m [
          | inl (inl i) ↦ inl i
          | inl (inr q) ↦ inr (up (inl q))
          | inr q ↦ inr (up (inr q))
        ],
      )

-- ===== src/Transition/Passing.antt =====
-- Calls of the transition builder that return, of which no part has raised.
use deepinsight.Prelude.{
  ◌≡◌, refl, Bool, true, false, if◌then◌else◌, inl, inr, List, [], ◌∷◌, In, subst,
}
use deepinsight.Transition.Collections.{
  Built, built, leakage, build_error, invalid, ◌>>=◌, ◌>>◌, for_each,
}

pub >>=-eq-built {ℓ κ} :
    {A : Type ℓ} {B : Type κ} (m : Built A) (f : A → Built B) {b : B}
    → (m >>= f) ≡ built b
    → (a : A) × (m ≡ built a) × (f a ≡ built b)
>>=-eq-built (built a) f h = (a, refl, h)
>>=-eq-built (leakage d) f h = cc
>>=-eq-built build_error f h = cc
>>=-eq-built invalid f h = cc

pub >>-eq-built {ℓ} :
    {B : Type ℓ} (m : Built (Unit {0})) (k : Built B) {b : B}
    → (m >> k) ≡ built b
    → (m ≡ built tt) × (k ≡ built b)
>>-eq-built (built tt) k h = (refl, h)
>>-eq-built (leakage d) k h = cc
>>-eq-built build_error k h = cc
>>-eq-built invalid k h = cc

-- A loop that ends without an exception has passed every item.
pub for_each-eq-built :
    {A : Type 0} (f : A → Built (Unit {0})) (xs : List A)
    → for_each f xs ≡ built tt
    → (x : A) → In x xs
    → f x ≡ built tt
unfolding for_each
for_each-eq-built f [] h x m = absurd m
for_each-eq-built f (y ∷ ys) h x (inl e) =
    subst (λ z. f z ≡ built tt) e (>>-eq-built (f y) (for_each f ys) h).0
for_each-eq-built f (y ∷ ys) h x (inr m) =
    for_each-eq-built f ys (>>-eq-built (f y) (for_each f ys) h).1 x m

pub for_each-built :
    {A : Type 0} (f : A → Built (Unit {0})) (xs : List A)
    → ((x : A) → In x xs → f x ≡ built tt)
    → for_each f xs ≡ built tt
unfolding for_each
for_each-built f [] h = refl
for_each-built f (y ∷ ys) h = cc (h y (inl refl), for_each-built f ys (λ x m. h x (inr m)))

pub built_injective {ℓ} : {A : Type ℓ} {a b : A} → built a ≡ built b → a ≡ b
built_injective h = cc

pub if-eq-built :
    {A : Type 0} (b : Bool) (x y : A)
    → (if b then built x else invalid) ≡ built y
    → (b ≡ true) × (x ≡ y)
if-eq-built true x y h = (refl, built_injective h)
if-eq-built false x y h = cc

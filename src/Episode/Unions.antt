-- ===== src/Episode/Unions.antt =====
-- `dict.fromkeys`, set tests and unions.
use deepinsight.Prelude.{
  ◌≡◌, refl, ap, ◌∙◌, sym, ◌⊎◌, inl, inr, String, Bool, true, false, ◌||◌, List, [], ◌∷◌, ◌++◌,
  if◌then◌else◌, same_text, eq_iff, eq_refl, Bool-cases, arith,
}
use deepinsight.Transition.Collections.{has, all_different}
use deepinsight.Episode.Building.{without, ordered_unique, is_subset, same_set}
use deepinsight.Episode.Validation.{same_texts}

-- Tests that have passed or failed, taken apart.
not_seen :
    (seen rest : Bool) → (if seen then false else rest) ≡ true → (seen ≡ false) × (rest ≡ true)
not_seen true rest e = cc
not_seen false rest e = (refl, e)

either : (a b : Bool) → (a || b) ≡ true → (a ≡ true) ⊎ (b ≡ true)
either true b e = inl refl
either false b e = inr e

neither : (a b : Bool) → (a || b) ≡ false → (a ≡ false) × (b ≡ false)
neither true b e = cc
neither false b e = (refl, e)

has-append : (s : String) (xs ys : List String) → has s (xs ++ ys) ≡ (has s xs || has s ys)
unfolding has
has-append s [] ys = refl
has-append s (x ∷ xs) ys = ground (arith, has-append s xs ys)

-- Removing another value, or one that is compared first, changes no membership.
has-without :
    (s x : String) (ys : List String) → same_text x s ≡ false → has s (without x ys) ≡ has s ys
unfolding has without
has-without s x [] e = refl
has-without s x (y ∷ ys) e =
    ground (arith, has-without s x ys e, eq_iff x y, eq_iff x s, eq_iff y s)

pub has-ordered_unique : (s : String) (xs : List String) → has s (ordered_unique xs) ≡ has s xs
unfolding has ordered_unique
has-ordered_unique s [] = refl
has-ordered_unique s (x ∷ xs) = elim (Bool-cases (same_text x s)) [
  | inl same ↦ rw same refl
  | inr new ↦ rw new (has-without s x (ordered_unique xs) new ∙ has-ordered_unique s xs)
]

has_self : (x : String) (xs : List String) → has x (x ∷ xs) ≡ true
unfolding has
has_self x xs = rw (eq_refl x) refl

-- A removed value is gone, and values that are different stay so.
has-without_self : (x : String) (ys : List String) → has x (without x ys) ≡ false
unfolding has without
has-without_self x [] = refl
has-without_self x (y ∷ ys) = ground (arith, has-without_self x ys, eq_iff x y, eq_iff y x)

all_different-without :
    (x : String) (ys : List String) → all_different ys ≡ true → all_different (without x ys) ≡ true
unfolding all_different without
all_different-without x [] e = refl
all_different-without x (y ∷ ys) e =
    let (new, others) = not_seen (has y ys) (all_different ys) e in
    let rest = all_different-without x ys others in
    elim (Bool-cases (same_text x y)) [
      | inl same ↦ rw same rest
      | inr apart ↦ rw (apart, has-without y x ys apart, new) rest
    ]

pub all_different-ordered_unique : (xs : List String) → all_different (ordered_unique xs) ≡ true
unfolding all_different ordered_unique
all_different-ordered_unique [] = refl
all_different-ordered_unique (x ∷ xs) =
    rw (has-without_self x (ordered_unique xs))
      (all_different-without x (ordered_unique xs) (all_different-ordered_unique xs))

without_absent : (x : String) (ys : List String) → has x ys ≡ false → without x ys ≡ ys
unfolding has without
without_absent x [] e = refl
without_absent x (y ∷ ys) e =
    let (apart, rest) = neither (same_text y x) (has x ys) e in
    ground (arith, without_absent x ys rest, eq_iff x y, eq_iff y x)

pub ordered_unique-all_different :
    (xs : List String) → all_different xs ≡ true → ordered_unique xs ≡ xs
unfolding all_different ordered_unique
ordered_unique-all_different [] e = refl
ordered_unique-all_different (x ∷ xs) e =
    let (new, others) = not_seen (has x xs) (all_different xs) e in
    ap (λ rest. x ∷ without x rest) (ordered_unique-all_different xs others)
    ∙ ap (λ rest. x ∷ rest) (without_absent x xs new)

pub same_texts_refl : (xs : List String) → same_texts xs xs ≡ true
unfolding same_texts
same_texts_refl [] = refl
same_texts_refl (x ∷ xs) = rw (eq_refl x) (same_texts_refl xs)

-- A subset is one of which every member is in the other.
pub subset_if :
    (xs ys : List String)
    → ((s : String) → has s xs ≡ true → has s ys ≡ true)
    → is_subset xs ys ≡ true
unfolding is_subset has
subset_if [] ys h = refl
subset_if (x ∷ xs) ys h = rw (h x (has_self x xs)) (
    subset_if xs ys (λ s m.
      h s (elim (Bool-cases (same_text x s)) [ inl same ↦ rw same refl | inr apart ↦ rw apart m ])))

pub same_set_if :
    (xs ys : List String) → ((s : String) → has s xs ≡ has s ys) → same_set xs ys ≡ true
same_set_if xs ys h =
    rw (subset_if xs ys (λ s m. sym (h s) ∙ m), subset_if ys xs (λ s m. h s ∙ m)) refl

-- Repetitions may be dropped from a part of a union.
pub has-union :
    (s : String) (xs ys : List String)
    → has s (ordered_unique (ordered_unique xs ++ ys)) ≡ has s (xs ++ ys)
has-union s xs ys =
    has-ordered_unique s (ordered_unique xs ++ ys)
    ∙ (has-append s (ordered_unique xs) ys
        ∙ (ap (λ b. b || has s ys) (has-ordered_unique s xs) ∙ sym (has-append s xs ys)))

-- A value of a union is in one of the two parts.
pub has_in_append :
    (s : String) (xs ys zs : List String)
    → (has s xs ≡ true → has s zs ≡ true)
    → (has s ys ≡ true → has s zs ≡ true)
    → has s (xs ++ ys) ≡ true
    → has s zs ≡ true
has_in_append s xs ys zs f g m =
    elim (either (has s xs) (has s ys) (sym (has-append s xs ys) ∙ m)) [
      | inl left ↦ f left
      | inr right ↦ g right
    ]

or_true : (b : Bool) → (b || true) ≡ true
or_true true = refl
or_true false = refl

pub has-left : (s : String) (xs ys : List String) → has s xs ≡ true → has s (xs ++ ys) ≡ true
has-left s xs ys m = has-append s xs ys ∙ ap (λ b. b || has s ys) m

pub has-right : (s : String) (xs ys : List String) → has s ys ≡ true → has s (xs ++ ys) ≡ true
has-right s xs ys m = has-append s xs ys ∙ (ap (λ b. has s xs || b) m ∙ or_true (has s xs))

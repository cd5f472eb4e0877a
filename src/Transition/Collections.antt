-- ===== src/Transition/Collections.antt =====
-- Python's `sorted(set(...))` of texts, dictionaries built by a comprehension, and loops that may
-- raise.
use deepinsight.Prelude.{
  String, Bool, true, false, ◌||◌, Option, none, some, List, [], ◌∷◌, same_text, text_lt,
  if◌then◌else◌,
}
use deepinsight.Temporal.Access.{TemporalAccessDecision}

-- What a method of the builder does: it returns, or raises a leakage error, the builder's own error,
-- or a validation error of a schema.
pub data Built {ℓ} (A : Type ℓ) : Type ℓ where
  built : A → Built A
  leakage : TemporalAccessDecision → Built A
  build_error : Built A
  invalid : Built A

infixl 5 ◌>>=◌ ◌>>◌
abbrev pub ◌>>=◌ {ℓ κ} : {A : Type ℓ} {B : Type κ} → Built A → (A → Built B) → Built B
built a >>= f = f a
leakage d >>= f = leakage d
build_error >>= f = build_error
invalid >>= f = invalid

abbrev pub ◌>>◌ {ℓ} : {B : Type ℓ} → Built (Unit {0}) → Built B → Built B
m >> k = m >>= λ _. k

-- A loop that collects what its body returns, or ends with the first exception.
unfoldable pub traverse {ℓ κ} : {A : Type ℓ} {B : Type κ} → (A → Built B) → List A → Built (List B)
traverse f [] = built []
traverse f (x ∷ xs) = do y ← f x; ys ← traverse f xs; built (y ∷ ys)

-- A loop for its exceptions alone.
unfoldable pub for_each {ℓ} : {A : Type ℓ} → (A → Built (Unit {0})) → List A → Built (Unit {0})
for_each f [] = built tt
for_each f (x ∷ xs) = do f x; for_each f xs

unfoldable pub has : String → List String → Bool
has s [] = false
has s (t ∷ ts) = same_text t s || has s ts

unfoldable pub insert_sorted : String → List String → List String
insert_sorted s [] = s ∷ []
insert_sorted s (t ∷ ts) =
    if same_text s t then t ∷ ts else if text_lt s t then s ∷ t ∷ ts else t ∷ insert_sorted s ts

-- sorted(set(values))
unfoldable pub sorted_set : List String → List String
unfolding insert_sorted
sorted_set [] = []
sorted_set (s ∷ ss) = insert_sorted s (sorted_set ss)

unfoldable pub insert_text : String → List String → List String
insert_text s [] = s ∷ []
insert_text s (t ∷ ts) = if text_lt t s then t ∷ insert_text s ts else s ∷ t ∷ ts

-- sorted(values)
unfoldable pub sorted_texts : List String → List String
unfolding insert_text
sorted_texts [] = []
sorted_texts (s ∷ ss) = insert_text s (sorted_texts ss)

module _ {ℓ} {V : Type ℓ} where
  -- `d.get(key)` for `d = {k: v for k, v in items}`: of several items of one key the last counts.
  unfoldable pub lookup_last : String → List (String × V) → Option V
  lookup_last k [] = none
  lookup_last k ((j, v) ∷ items) = elim (lookup_last k items) [
    | some u ↦ some u
    | none ↦ if same_text j k then some v else none
  ]

  unfoldable pub keys : List (String × V) → List String
  keys [] = []
  keys ((k, v) ∷ items) = k ∷ keys items

-- set(a) & set(b)
unfoldable pub common : List String → List String → List String
common [] ys = []
common (x ∷ xs) ys = let rest = common xs ys in if has x ys then x ∷ rest else rest

-- Whether all are different: len(values) == len(set(values)).
unfoldable pub all_different : List String → Bool
all_different [] = true
all_different (x ∷ xs) = if has x xs then false else all_different xs

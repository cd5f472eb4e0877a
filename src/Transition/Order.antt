-- ===== src/Transition/Order.antt =====
-- The order of states by time and identifier, and of texts by code points.
use deepinsight.Prelude.{
  ℕ, String, ◌≡◌, refl, ◌∙◌, inl, inr, true, false, List, [], ◌∷◌, arith, codes, codes_lt, text_lt,
  Bool-cases,
}
use deepinsight.Transition.State.{ResearchStateSnapshot}
use deepinsight.Transition.Select.{is_before}
use Prim.Native.Char.{code}
use text.Mathlib.TextEquality.{Char-path}

codes_lt_irrefl : (xs : List ℕ) → codes_lt xs xs ≡ false
unfolding codes_lt
codes_lt_irrefl [] = refl
codes_lt_irrefl (x ∷ xs) = ground (arith, codes_lt_irrefl xs)

codes_lt_trans :
    (xs ys zs : List ℕ) → codes_lt xs ys ≡ true → codes_lt ys zs ≡ true → codes_lt xs zs ≡ true
unfolding codes_lt
codes_lt_trans [] [] zs h k = cc
codes_lt_trans [] (y ∷ ys) [] h k = cc
codes_lt_trans [] (y ∷ ys) (z ∷ zs) h k = refl
codes_lt_trans (x ∷ xs) [] zs h k = cc
codes_lt_trans (x ∷ xs) (y ∷ ys) [] h k = cc
codes_lt_trans (x ∷ xs) (y ∷ ys) (z ∷ zs) h k = ground (arith, codes_lt_trans xs ys zs)

codes_lt_total : (xs ys : List ℕ) → codes_lt xs ys ≡ false → codes_lt ys xs ≡ false → xs ≡ ys
unfolding codes_lt
codes_lt_total [] [] h k = refl
codes_lt_total [] (y ∷ ys) h k = cc
codes_lt_total (x ∷ xs) [] h k = cc
codes_lt_total (x ∷ xs) (y ∷ ys) h k = ground (arith, codes_lt_total xs ys)

pub text_lt_irrefl : (s : String) → text_lt s s ≡ false
unfolding text_lt
text_lt_irrefl s = codes_lt_irrefl (codes s)

pub text_lt_trans : (s t u : String) → text_lt s t ≡ true → text_lt t u ≡ true → text_lt s u ≡ true
unfolding text_lt
text_lt_trans s t u = codes_lt_trans (codes s) (codes t) (codes u)

codes_injective : (s t : String) → codes s ≡ codes t → s ≡ t
codes_injective String.[] String.[] h = refl
codes_injective String.[] (String.◌∷◌ d t) h = cc
codes_injective (String.◌∷◌ c s) String.[] h = cc
codes_injective (String.◌∷◌ c s) (String.◌∷◌ d t) h =
    let same : code c ≡ code d = cc in
    let rest : codes s ≡ codes t = cc in
    λ i. String.◌∷◌ (Char-path c d same i) (codes_injective s t rest i)

pub text_lt_total : (s t : String) → text_lt s t ≡ false → text_lt t s ≡ false → s ≡ t
unfolding text_lt
text_lt_total s t h k = codes_injective s t (codes_lt_total (codes s) (codes t) h k)

module _ (a b : ResearchStateSnapshot) where
  pub is_before_irrefl : is_before a a ≡ false
  unfolding is_before
  is_before_irrefl = ground (arith, text_lt_irrefl a.research_state_id)

  -- States that are not before one another have one time and one identifier.
  pub is_before_total :
      is_before a b ≡ false
      → is_before b a ≡ false
      → (a.research_as_of ≡ b.research_as_of) × (a.research_state_id ≡ b.research_state_id)
  unfolding is_before
  is_before_total h k = ground (arith, text_lt_total a.research_state_id b.research_state_id)

pub is_before_trans :
    (a b c : ResearchStateSnapshot)
    → is_before a b ≡ true
    → is_before b c ≡ true
    → is_before a c ≡ true
unfolding is_before
is_before_trans a b c h k =
    ground (arith, text_lt_trans a.research_state_id b.research_state_id c.research_state_id)

is_before_congr :
    (a b c : ResearchStateSnapshot)
    → a.research_as_of ≡ b.research_as_of
    → a.research_state_id ≡ b.research_state_id
    → is_before a c ≡ is_before b c
unfolding is_before
is_before_congr a b c times ids = cc

-- Not being before is transitive too.
pub not_before_trans :
    (a b c : ResearchStateSnapshot)
    → is_before a b ≡ false
    → is_before b c ≡ false
    → is_before a c ≡ false
not_before_trans a b c h k = elim (Bool-cases (is_before b a)) [
  | inl l ↦ elim (Bool-cases (is_before a c)) [ inl e ↦ cc (is_before_trans b a c l e) | inr e ↦ e ]
  | inr l ↦ let (times, ids) = is_before_total a b h l in is_before_congr a b c times ids ∙ k
]

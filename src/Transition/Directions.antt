-- ===== src/Transition/Directions.antt =====
-- The direction of a change of the logic stage.
use deepinsight.Prelude.{
  ℤ, pos, negsuc, String, ◌≡◌, refl, Bool, true, false, Option, none, some, same_text, arith,
  if◌then◌else◌, eq_iff, inl, inr, sym, subst, Option-cases,
}
use deepinsight.Transition.Compare.{
  Direction, upgrade, downgrade, mixed, logic_rank, int_lt, ranked_direction, logic_direction,
}

abbrev pub opposite : Direction → Direction
opposite upgrade = downgrade
opposite downgrade = upgrade
opposite d = d

same_text_sym : (a b : String) → same_text a b ≡ same_text b a
same_text_sym a b = ground (arith, eq_iff a b, eq_iff b a)

int_lt_asym : (a b : ℤ) → int_lt a b ≡ true → int_lt b a ≡ false
int_lt_asym (pos a) (pos b) h = ground arith
int_lt_asym (pos a) (negsuc b) h = cc
int_lt_asym (negsuc a) (pos b) h = refl
int_lt_asym (negsuc a) (negsuc b) h = ground arith

-- Every stage but the invalidated one ranks above it.
above_invalidated :
    (s : String) (r : ℤ)
    → logic_rank s ≡ some r
    → same_text s "invalidated" ≡ false
    → int_lt (negsuc 0) r ≡ true
unfolding logic_rank
above_invalidated s r h k = ground arith

invalidated_rank : logic_rank "invalidated" ≡ some (negsuc 0)
unfolding logic_rank
invalidated_rank = refl

rank_of_invalidated :
    (s : String) → same_text s "invalidated" ≡ true → logic_rank s ≡ some (negsuc 0)
rank_of_invalidated s e =
    subst (λ z. logic_rank z ≡ some (negsuc 0)) (sym ((eq_iff s "invalidated").0 e))
      invalidated_rank

-- An invalidated stage ranks below any other.
invalidated_is_least :
    (s t : String) (a b : ℤ)
    → logic_rank s ≡ some a
    → logic_rank t ≡ some b
    → same_text s "invalidated" ≡ true
    → same_text t "invalidated" ≡ false
    → int_lt a b ≡ true
invalidated_is_least s t a b rank_s rank_t e f =
    let least : a ≡ negsuc 0 = cc (rank_of_invalidated s e) in
    subst (λ r. int_lt r b ≡ true) (sym least) (above_invalidated t b rank_t f)

abbrev direction_of : (same invalidated up down : Bool) → Direction
direction_of same invalidated up down =
    if same
    then Direction.unchanged
    else if invalidated
    then downgrade
    else if up
    then upgrade
    else if down
    then downgrade
    else mixed

-- The tests of the one order decide those of the other.
direction_of-opposite :
    (same si ti up down : Bool)
    → (si ≡ true → ti ≡ true → same ≡ true)
    → (up ≡ true → down ≡ false)
    → (si ≡ true → ti ≡ false → up ≡ true)
    → (ti ≡ true → si ≡ false → down ≡ true)
    → direction_of same si down up ≡ opposite (direction_of same ti up down)
direction_of-opposite true si ti up down h1 h2 h3 h4 = refl
direction_of-opposite false true true up down h1 h2 h3 h4 = cc (h1 refl refl)
direction_of-opposite false true false true down h1 h2 h3 h4 = refl
direction_of-opposite false true false false down h1 h2 h3 h4 = cc (h3 refl refl)
direction_of-opposite false false true up true h1 h2 h3 h4 = refl
direction_of-opposite false false true up false h1 h2 h3 h4 = cc (h4 refl refl)
direction_of-opposite false false false true true h1 h2 h3 h4 = cc (h2 refl)
direction_of-opposite false false false true false h1 h2 h3 h4 = refl
direction_of-opposite false false false false true h1 h2 h3 h4 = refl
direction_of-opposite false false false false false h1 h2 h3 h4 = refl

module _ (s t : String) (a b : ℤ) (rank_s : logic_rank s ≡ some a)
    (rank_t : logic_rank t ≡ some b) where
  same_invalidated :
      same_text s "invalidated" ≡ true → same_text t "invalidated" ≡ true → same_text s t ≡ true
  same_invalidated h k = ground (arith, eq_iff s "invalidated", eq_iff t "invalidated", eq_iff s t)

  ranked_opposite : ranked_direction t s b a ≡ opposite (ranked_direction s t a b)
  unfolding ranked_direction
  ranked_opposite =
      let back = same_text_sym t s in
      rw back (
        direction_of-opposite (same_text s t) (same_text s "invalidated")
          (same_text t "invalidated") (int_lt a b) (int_lt b a) same_invalidated (int_lt_asym a b)
          (invalidated_is_least s t a b rank_s rank_t) (invalidated_is_least t s b a rank_t rank_s))

-- The direction from one optional logic stage to another is opposite to the direction back: an
-- upgrade to a downgrade, and the others to themselves.
pub logic_direction-opposite :
    (previous current : Option String)
    → logic_direction current previous ≡ opposite (logic_direction previous current)
unfolding logic_direction
logic_direction-opposite none none = refl
logic_direction-opposite none (some t) = refl
logic_direction-opposite (some s) none = refl
logic_direction-opposite (some s) (some t) = elim (Option-cases (logic_rank s)) [
  | inl e ↦ elim (Option-cases (logic_rank t)) [ inl f ↦ cc | inr (b, f) ↦ cc ]
  | inr (a, e) ↦ elim (Option-cases (logic_rank t)) [
    | inl f ↦ cc
    | inr (b, f) ↦ cc (ranked_opposite s t a b e f)
  ]
]

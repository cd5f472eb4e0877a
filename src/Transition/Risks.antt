-- ===== src/Transition/Risks.antt =====
-- What `_risk_changes` reports.
use deepinsight.Prelude.{
  String, ◌≡◌, refl, sym, subst, ◌∙◌, ◌≢◌, ◌↔◌, ◌⊎◌, inl, inr, Bool, true, false, ◌&&◌, Option,
  none, some, List, [], ◌∷◌, ◌++◌, map, In, In-append, if◌then◌else◌, same_text, eq_iff, arith,
}
use deepinsight.Transition.State.{Feature, same_value, risk_state, ResearchStateSnapshot}
use deepinsight.Transition.Collections.{Built, built, traverse, sorted_set, lookup_last, keys}
use deepinsight.Transition.Compare.{named_items}
use deepinsight.Transition.Changes.{
  ValueChange, make_change, value_of, risk_classification, is_text, risk_changes, with_prefix,
  is_available,
}
use deepinsight.Transition.Passing.{>>=-eq-built, if-eq-built, built_injective}
use deepinsight.Transition.Sorting.{IsAscending, sorted_set_iff}

-- A loop that collects returns what its body returned, item by item.
traverse-Pointwise :
    {A B : Type 0} (P : A → B → Type 0) (f : A → Built B) (key : B → A)
    → ((x : A) (y : B) → f x ≡ built y → (key y ≡ x) × P x y)
    → (xs : List A) (ys : List B) → traverse f xs ≡ built ys
    → (map key ys ≡ xs) × ((y : B) → In y ys → P (key y) y)
unfolding traverse
traverse-Pointwise P f key each [] ys h =
    subst (λ us. (map key us ≡ []) × ((y : _) → In y us → P (key y) y)) (built_injective h)
      (refl, λ y m. absurd m)
traverse-Pointwise P f key each (x ∷ xs) ys h =
    let (y, e, k) = >>=-eq-built (f x) _ h in
    let (zs, e', k') = >>=-eq-built (traverse f xs) _ k in
    let (same, all) = traverse-Pointwise P f key each xs zs e' in
    let (kx, p) = each x y e in
    subst (λ us. (map key us ≡ x ∷ xs) × ((z : _) → In z us → P (key z) z)) (built_injective k')
      (
        λ i. kx i ∷ same i,
        λ z m. elim m [
          | inl i ↦ subst (λ u. P (key u) u) i (subst (λ u. P u y) (sym kx) p)
          | inr n ↦ all z n
        ],
      )

-- What the report says of one name, found or not in the two states.
pub record IsChange (left right : Option Feature) (c : ValueChange) : Type 0 where
  pub previous_value : c.previous_value ≡ value_of left
  pub current_value : c.current_value ≡ value_of right
  pub classification : c.classification ≡ risk_classification left right

abbrev pub risk_items : ResearchStateSnapshot → List (String × Feature)
risk_items state = named_items (with_prefix "satellite.risk." (state.section risk_state).features)

make_change-IsChange :
    (name : String) (left right : Option Feature) (previous current : ResearchStateSnapshot)
    (c : ValueChange)
    → make_change name left right
        (risk_classification left right)
        risk_state
        risk_state
        previous
        current
      ≡ built c
    → (c.change_key ≡ name) × IsChange left right c
unfolding make_change
make_change-IsChange name left right previous current c h =
    subst (λ z. (z.change_key ≡ name) × IsChange left right z) (if-eq-built _ _ c h).1
      (refl, record { previous_value = refl; current_value = refl; classification = refl })

module _ {V : Type 0} (k : String) where
  lookup_last-none :
      (items : List (String × V)) → (lookup_last k items ≡ none) ↔ ¬ In k (keys items)
  unfolding lookup_last keys
  lookup_last-none [] = (λ e m. absurd m, λ n. refl)
  lookup_last-none ((j, v) ∷ items) = ground (arith, lookup_last-none items, eq_iff j k)

lookup_last-some :
    {V : Type 0} (k : String) (items : List (String × V))
    → (lookup_last k items ≢ none) ↔ In k (keys items)
unfolding lookup_last keys
lookup_last-some k [] = (λ n. absurd (n refl), λ m. absurd m)
lookup_last-some k ((j, v) ∷ items) = ground (arith, lookup_last-some k items, eq_iff j k)

not_new :
    (a b c d : Bool)
    → same_text
        (if a
          then "resolved"
          else if b
          then "escalating"
          else if c
          then "deescalating"
          else if d
          then "stable"
          else "uncertain")
        "new_risk"
      ≡ false
not_new true b c d = refl
not_new false true c d = refl
not_new false false true d = refl
not_new false false false true = refl
not_new false false false false = refl

uncertain_ne : ◌≢◌ {A = String} "uncertain" "new_risk"
uncertain_ne e = cc ((eq_iff "uncertain" "new_risk").1 e)

not_new_pair : (l r : Feature) → risk_classification (some l) (some r) ≢ "new_risk"
unfolding risk_classification
not_new_pair l r e = cc (
  (eq_iff (risk_classification (some l) (some r)) "new_risk").1 e,
  not_new (is_text r.value "resolved") (is_text r.value "escalating")
      (is_text r.value "deescalating") (same_value l.value r.value),
)

classification_new :
    (left right : Option Feature)
    → (risk_classification left right ≡ "new_risk") ↔ ((left ≡ none) × (right ≢ none))
unfolding risk_classification
classification_new none none = (λ e. absurd (uncertain_ne e), λ h. absurd (h.1 refl))
classification_new (some l) none = (λ e. absurd (uncertain_ne e), λ h. absurd (h.1 refl))
classification_new none (some r) = (λ e. (refl, λ k. cc k), λ h. refl)
classification_new (some l) (some r) = (λ e. absurd (not_new_pair l r e), λ h. cc (h.0))

-- One change for every name of a risk in either state, in ascending order, with what the two states
-- say of it; new are the risks that only the current state has.
pub record IsRiskReport (previous current : ResearchStateSnapshot) (changes : List ValueChange)
    : Type 0 where
  pub ascending : IsAscending (map (λ c. c.change_key) changes)
  pub complete :
      (k : String)
      → In k (map (λ c. c.change_key) changes)
        ↔ (In k (keys (risk_items previous)) ⊎ In k (keys (risk_items current)))
  pub exact :
      (c : ValueChange)
      → In c changes
      → IsChange
          (lookup_last c.change_key (risk_items previous))
          (lookup_last c.change_key (risk_items current))
          c
  pub newly :
      (c : ValueChange)
      → In c changes
      → (c.classification ≡ "new_risk") ↔ (
          (¬ In c.change_key (keys (risk_items previous)))
          × In c.change_key (keys (risk_items current)))

abbrev risk_change : ResearchStateSnapshot → ResearchStateSnapshot → String → Built ValueChange
risk_change previous current name =
    let left = lookup_last name (risk_items previous) in
    let right = lookup_last name (risk_items current) in
    make_change name left right (risk_classification left right) risk_state risk_state previous
      current

if_true :
    {A : Type 0} (b c : Bool) (x y z : A)
    → b ≡ true
    → c ≡ true
    → (if b && c then x else y) ≡ z
    → x ≡ z
if_true b c x y z p q h = cc (p, q, h)

iff_trans : {A B C : Type 0} → A ↔ B → B ↔ C → A ↔ C
iff_trans f g = (λ a. g.0 (f.0 a), λ c. f.1 (g.1 c))

-- If both states have an available risk section and the comparison returns, it reports one change
-- for each risk name of either state and no other, in strictly ascending order, with the values
-- and the class of that name; the changes of class new_risk are exactly those of names that only
-- the current state has.
pub risk_changes-IsRiskReport :
    (previous current : ResearchStateSnapshot) (changes : List ValueChange)
    → is_available (previous.section risk_state).status ≡ true
    → is_available (current.section risk_state).status ≡ true
    → risk_changes previous current ≡ built changes
    → IsRiskReport previous current changes
unfolding risk_changes
risk_changes-IsRiskReport previous current changes p c h =
    let before = risk_items previous in
    let after = risk_items current in
    let names = sorted_set (keys before ++ keys after) in
    let loop : traverse (risk_change previous current) names ≡ built changes =
      if_true _ _ _ (built []) _ p c h in
    let (same, all) =
      traverse-Pointwise (λ k x. IsChange (lookup_last k before) (lookup_last k after) x)
        (risk_change previous current) (λ x. x.change_key)
        (λ k x.
          make_change-IsChange k (lookup_last k before) (lookup_last k after) previous current x)
        names changes loop in
    let (up, members) = (sorted_set_iff (keys before ++ keys after) names).0 refl in
    record {
      ascending = subst IsAscending (sym same) up;
      complete = λ k.
          subst (λ us. In k us ↔ (In k (keys before) ⊎ In k (keys after))) (sym same)
            (iff_trans (members k) (In-append k (keys before) (keys after)));
      exact = all;
      newly = λ x m.
          let fits = all x m in
          let k = x.change_key in
          let told = fits.classification in
          let (down, up) = classification_new (lookup_last k before) (lookup_last k after) in
          let (none_to, none_from) = lookup_last-none k before in
          let (some_to, some_from) = lookup_last-some k after in
          (
            λ e. let (a, b) = down (sym told ∙ e) in (none_to a, some_to b),
            λ h. told ∙ up (none_from h.0, some_from h.1),
          );
    }

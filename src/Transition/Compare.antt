-- ===== src/Transition/Compare.antt =====
-- The comparisons of two states in services/research_state_transition.py.
use deepinsight.Prelude.{
  ℤ, pos, negsuc, String, Bool, true, false, not, ◌||◌, ◌&&◌, Option, none, some, List, [], ◌∷◌,
  map, same_text, ltb, if◌then◌else◌,
}
use deepinsight.Transition.State.{
  Scalar, text, same_value, same_type, Feature, SectionName, section_names, ResearchStateSnapshot,
}
use deepinsight.Transition.Collections.{has, lookup_last, keys, common}

pub data Direction : Type 0 where
  upgrade downgrade unchanged mixed unknown : Direction

pub data ThesisTransitionStatus : Type 0 where
  upgraded unchanged downgraded invalidated uncertain : ThesisTransitionStatus

-- The first feature of that name, in the order of the sections.
unfoldable pub first_named : String → List Feature → Option Feature
first_named name [] = none
first_named name (f ∷ fs) = if same_text f.feature_name name then some f else first_named name fs

unfoldable pub find_in :
    ResearchStateSnapshot → String → List SectionName → Option (SectionName × Feature)
find_in state name [] = none
find_in state name (s ∷ ss) = elim (first_named name (state.section s).features) [
  | some f ↦ some ((state.section s).section_name, f)
  | none ↦ find_in state name ss
]

unfoldable pub find_feature : ResearchStateSnapshot → String → Option (SectionName × Feature)
find_feature state name = find_in state name section_names

abbrev text_value : Option Scalar → Option String
text_value (some (text s)) = some s
text_value _ = none

unfoldable pub semantic_value : ResearchStateSnapshot → String → Option String
semantic_value state name = elim (find_feature state name) [
  | none ↦ none
  | some (s, f) ↦ text_value f.value
]

-- The ranks of the logic stages; a text that is no stage has none.
unfoldable pub logic_rank : String → Option ℤ
logic_rank s =
    if same_text s "rumor"
    then some (pos 0)
    else if same_text s "early_signal"
    then some (pos 1)
    else if same_text s "expectation_forming"
    then some (pos 2)
    else if same_text s "order_expectation"
    then some (pos 3)
    else if same_text s "order_confirmed"
    then some (pos 4)
    else if same_text s "delivery_confirmed"
    then some (pos 5)
    else if same_text s "revenue_realized"
    then some (pos 6)
    else if same_text s "repeated_validation"
    then some (pos 7)
    else if same_text s "invalidated"
    then some (negsuc 0)
    else if same_text s "uncertain"
    then some (pos 0)
    else none

unfoldable pub thesis_rank : String → Option ℤ
thesis_rank s =
    if same_text s "invalidated"
    then some (negsuc 1)
    else if same_text s "negative"
    then some (negsuc 0)
    else if same_text s "uncertain"
    then some (pos 0)
    else if same_text s "neutral"
    then some (pos 0)
    else if same_text s "positive"
    then some (pos 1)
    else none

abbrev pub int_lt : ℤ → ℤ → Bool
int_lt (pos a) (pos b) = ltb a b
int_lt (pos a) (negsuc b) = false
int_lt (negsuc a) (pos b) = true
int_lt (negsuc a) (negsuc b) = ltb b a

-- The tests on two ranked stages.
unfoldable pub ranked_direction : String → String → ℤ → ℤ → Direction
ranked_direction previous current a b =
    if same_text previous current
    then Direction.unchanged
    else if same_text current "invalidated"
    then downgrade
    else if int_lt a b
    then upgrade
    else if int_lt b a
    then downgrade
    else mixed

unfoldable pub logic_direction : Option String → Option String → Direction
logic_direction none current = unknown
logic_direction (some previous) none = unknown
logic_direction (some previous) (some current) = elim (logic_rank previous) [
  | none ↦ unknown
  | some a ↦ elim (logic_rank current) [
    | none ↦ unknown
    | some b ↦ ranked_direction previous current a b
  ]
]

unfoldable pub ranked_thesis : String → String → ℤ → ℤ → ThesisTransitionStatus
ranked_thesis before after a b =
    if same_text after "invalidated"
    then invalidated
    else if int_lt a b
    then upgraded
    else if int_lt b a
    then downgraded
    else if same_text before after
    then ThesisTransitionStatus.unchanged
    else uncertain

unfoldable pub thesis_status : Option String → Option String → Option ThesisTransitionStatus
thesis_status none after = none
thesis_status (some before) none = none
thesis_status (some before) (some after) = elim (thesis_rank before) [
  | none ↦ none
  | some a ↦ elim (thesis_rank after) [
    | none ↦ none
    | some b ↦ some (ranked_thesis before after a b)
  ]
]

unfoldable pub thesis_change :
    ResearchStateSnapshot → ResearchStateSnapshot → Option ThesisTransitionStatus
thesis_change previous current =
    thesis_status (semantic_value previous "satellite.thesis.disposition")
      (semantic_value current "satellite.thesis.disposition")

abbrev same_option : Option String → Option String → Bool
same_option none none = true
same_option (some a) (some b) = same_text a b
same_option _ _ = false

unfoldable pub compatible : Feature → Feature → Bool
compatible a b =
    same_type a.feature_type b.feature_type
    && (same_text a.feature_version b.feature_version
        && (same_option a.transform_name b.transform_name
            && same_option a.transform_version b.transform_version))

abbrev pub named_items : List Feature → List (String × Feature)
named_items features = map (λ f. (f.feature_name, f)) features

-- The common name `k` names compatible features of different values.
unfoldable pub value_differs : List (String × Feature) → List (String × Feature) → String → Bool
value_differs left right k = elim (lookup_last k left) [
  | none ↦ false
  | some a ↦ elim (lookup_last k right) [
    | none ↦ false
    | some b ↦ compatible a b && not (same_value a.value b.value)
  ]
]

unfoldable pub any_name : (String → Bool) → List String → Bool
any_name p [] = false
any_name p (k ∷ ks) = p k || any_name p ks

-- set(a) <= set(b)
unfoldable pub subset : List String → List String → Bool
subset [] ys = true
subset (x ∷ xs) ys = has x ys && subset xs ys

unfoldable pub dimension_changed :
    ResearchStateSnapshot → ResearchStateSnapshot → SectionName → Bool
dimension_changed previous current name =
    let left = named_items (previous.section name).features in
    let right = named_items (current.section name).features in
    any_name (value_differs left right) (common (keys left) (keys right))
    || not (subset (keys left) (keys right) && subset (keys right) (keys left))

unfoldable pub select_names : (SectionName → Bool) → List SectionName → List SectionName
select_names p [] = []
select_names p (s ∷ ss) = let rest = select_names p ss in if p s then s ∷ rest else rest

unfoldable pub changed_dimensions : ResearchStateSnapshot → ResearchStateSnapshot → List SectionName
changed_dimensions previous current =
    select_names (dimension_changed previous current) section_names

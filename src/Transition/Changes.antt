-- ===== src/Transition/Changes.antt =====
-- The value changes between two states in services/research_state_transition.py.
use Prim.Native.String.{◌++◌ as append_text}
use deepinsight.Prelude.{
  ℕ, String, Bool, true, false, not, ◌||◌, ◌&&◌, Option, none, some, List, [], ◌∷◌, ◌++◌, map,
  same_text, starts_with, leb, codes, length, ◌==◌, if◌then◌else◌,
}
use deepinsight.Transition.State.{
  Scalar, text, same_value, Feature, SectionName, section_names, section_text, risk_state,
  SectionStatus, present, partial, ResearchStateSnapshot,
}
use deepinsight.Transition.Collections.{
  Built, built, invalid, ◌>>=◌, traverse, sorted_set, lookup_last, keys, common,
}
use deepinsight.Transition.Compare.{find_feature, compatible, named_items, subset}

pub record ValueChange : Type 0 where
  pub change_key : String
  pub previous_value : Option Scalar
  pub current_value : Option Scalar
  pub classification : String
  pub source_state_feature_refs : List String
  pub source_claim_ids : List String
  pub source_evidence_ids : List String
  pub source_artifact_ids : List String

-- ^[a-z][a-z0-9_.:-]{1,159}$
abbrev is_lower : ℕ → Bool
is_lower c = leb b'a' c && leb c b'z'

abbrev is_key_character : ℕ → Bool
is_key_character c =
    is_lower c
    || (leb b'0' c && leb c b'9')
    || (c == b'_')
    || (c == b'.')
    || (c == b':')
    || (c == b'-')

unfoldable pub all_key_characters : List ℕ → Bool
all_key_characters [] = true
all_key_characters (c ∷ cs) = is_key_character c && all_key_characters cs

abbrev key_codes : List ℕ → Bool
key_codes [] = false
key_codes (c ∷ cs) =
    is_lower c && (all_key_characters cs && (leb 1 (length cs) && leb (length cs) 159))

unfoldable pub is_change_key : String → Bool
unfolding all_key_characters
is_change_key s = key_codes (codes s)

abbrev pub claims_of : Option Feature → List String
claims_of none = []
claims_of (some f) = f.source_claim_ids

abbrev pub evidence_of : Option Feature → List String
evidence_of none = []
evidence_of (some f) = f.source_evidence_ids

abbrev pub value_of : Option Feature → Option Scalar
value_of none = none
value_of (some f) = f.value

-- f"{section.value}::{name}"
abbrev reference : SectionName → String → String
reference section name = append_text (section_text section) (append_text "::" name)

-- tuple(dict.fromkeys((a, b)))
abbrev without_repeat : String → String → List String
without_repeat a b = if same_text a b then a ∷ [] else a ∷ b ∷ []

-- `ResearchStateValueChange(...)`: the key's pattern, and provenance without repetition. The other
-- groups have none, since they come from sets.
unfoldable pub make_change :
    String
    → (left right : Option Feature) → String
    → (section left_section : SectionName) → (previous current : ResearchStateSnapshot)
    → Built ValueChange
make_change name left right classification section left_section previous current =
    if is_change_key name && not (same_text previous.research_state_id current.research_state_id)
    then built (record {
      change_key = name;
      previous_value = value_of left;
      current_value = value_of right;
      classification = classification;
      source_state_feature_refs =
          without_repeat (reference left_section name) (reference section name);
      source_claim_ids = sorted_set (claims_of left ++ claims_of right);
      source_evidence_ids = sorted_set (evidence_of left ++ evidence_of right);
      source_artifact_ids = previous.research_state_id ∷ current.research_state_id ∷ [];
    })
    else invalid

abbrev pub is_text : Option Scalar → String → Bool
is_text v s = same_value v (some (text s))

-- The tests of the loop of `_risk_changes`.
unfoldable pub risk_classification : Option Feature → Option Feature → String
risk_classification left none = "uncertain"
risk_classification none (some right) = "new_risk"
risk_classification (some left) (some right) =
    if is_text right.value "resolved"
    then "resolved"
    else if is_text right.value "escalating"
    then "escalating"
    else if is_text right.value "deescalating"
    then "deescalating"
    else if same_value left.value right.value
    then "stable"
    else "uncertain"

unfoldable pub with_prefix : String → List Feature → List Feature
with_prefix prefix [] = []
with_prefix prefix (f ∷ fs) =
    let rest = with_prefix prefix fs in if starts_with f.feature_name prefix then f ∷ rest else rest

abbrev pub is_available : SectionStatus → Bool
is_available present = true
is_available partial = true
is_available _ = false

unfoldable pub risk_changes :
    ResearchStateSnapshot → ResearchStateSnapshot → Built (List ValueChange)
risk_changes previous current =
    if is_available (previous.section risk_state).status
      && is_available (current.section risk_state).status
    then (let before =
          named_items (with_prefix "satellite.risk." (previous.section risk_state).features) in
        let after =
          named_items (with_prefix "satellite.risk." (current.section risk_state).features) in
        traverse
          (λ name.
            let left = lookup_last name before in
            let right = lookup_last name after in
            make_change name left right (risk_classification left right) risk_state risk_state
              previous current)
          (sorted_set (keys before ++ keys after)))
    else built []

abbrev pub section_items :
    String → ResearchStateSnapshot → SectionName → List (String × (SectionName × Feature))
section_items prefix state s =
    map (λ f. (f.feature_name, ((state.section s).section_name, f)))
      (with_prefix prefix (state.section s).features)

unfoldable pub prefixed_items :
    String → ResearchStateSnapshot → List SectionName → List (String × (SectionName × Feature))
prefixed_items prefix state [] = []
prefixed_items prefix state (s ∷ ss) =
    section_items prefix state s ++ prefixed_items prefix state ss

-- The items of `_prefixed_feature_map`.
abbrev pub prefixed_feature_map :
    ResearchStateSnapshot → String → List (String × (SectionName × Feature))
prefixed_feature_map state prefix = prefixed_items prefix state section_names

-- What a hypothesis has come to; unresolved where the later evidence is not distinct.
unfoldable pub evidence_classification : Feature → Feature → String
evidence_classification left right =
    let adds = not (subset right.source_evidence_ids left.source_evidence_ids) in
    if not adds
    then "unresolved"
    else if is_text right.value "confirmed"
    then "confirmed"
    else if is_text right.value "partially_confirmed"
    then "partially_confirmed"
    else if is_text right.value "contradicted"
    then "contradicted"
    else if is_text right.value "mixed"
    then "mixed"
    else "unresolved"

module _ (previous current : ResearchStateSnapshot) where
  -- The body of a loop over the names that two maps have in common.
  unfoldable pub compare_named :
      (Feature → Feature → Option String)
      → List (String × (SectionName × Feature))
      → List (String × (SectionName × Feature))
      → String
      → Built (List ValueChange)
  compare_named classify before after name = elim (lookup_last name before) [
    | none ↦ built []
    | some (left_section, left) ↦ elim (lookup_last name after) [
      | none ↦ built []
      | some (right_section, right) ↦ elim (classify left right) [
        | none ↦ built []
        | some c ↦ do
          change ←
              make_change name (some left) (some right) c right_section left_section previous
                current
          built (change ∷ [])
      ]
    ]
  ]

  abbrev concat : List (List ValueChange) → List ValueChange
  concat [] = []
  concat (xs ∷ xss) = xs ++ concat xss

  unfoldable pub common_changes :
      String → (Feature → Feature → Option String) → Built (List ValueChange)
  common_changes prefix classify = do
    let before = prefixed_feature_map previous prefix
    let after = prefixed_feature_map current prefix
    changes ←
        traverse (compare_named classify before after)
          (sorted_set (common (keys before) (keys after)))
    built (concat changes)

  unfoldable pub evidence_changes : Built (List ValueChange)
  evidence_changes =
      common_changes "satellite.hypothesis." (λ a b. some (evidence_classification a b))

  -- `_prefixed_changes`: only of different values.
  unfoldable pub prefixed_changes : String → String → Built (List ValueChange)
  prefixed_changes prefix classification =
      common_changes prefix
        (λ a b. if same_value a.value b.value then none else some classification)

  -- One name of `_named_changes`.
  unfoldable pub named_change : String → String → Built (List ValueChange)
  named_change classification name = elim (find_feature previous name) [
    | none ↦ built []
    | some (left_section, left) ↦ elim (find_feature current name) [
      | none ↦ built []
      | some (right_section, right) ↦
          if compatible left right
          then (do
            change ←
                make_change name (some left) (some right)
                  (if same_value left.value right.value then "unchanged" else classification)
                  right_section left_section previous current
            built (change ∷ []))
          else built []
    ]
  ]

  unfoldable pub named_changes : List String → String → Built (List ValueChange)
  named_changes names classification = do
    changes ← traverse (named_change classification) names
    built (concat changes)

  unfoldable pub expectation_changes : Built (List ValueChange)
  expectation_changes =
      named_changes
        ("satellite.expectation_revision.direction" ∷ "satellite.expectation_revision.value" ∷ [])
        "changed"

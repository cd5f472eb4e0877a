-- ===== src/Transition/Examples.antt =====
-- Tests and instances for the comparison of research states.
use deepinsight.Prelude.{
  true, subst, ◌<◌, ℕ, String, ◌≡◌, refl, ◌↔◌, inl, inr, Option, none, some, List, [], ◌∷◌, map,
  codes_lt, text_lt, In,
}
use deepinsight.Temporal.Metadata.{comparable_effective}
use deepinsight.Temporal.Access.{
  rejected, is_after, bound_reached, not_reached, already_reached, visibility, latest,
  is_unattributed, decide_at,
}
use deepinsight.Transition.State.{
  same_value, section_text, text, Feature, semantic_categorical, SectionName, Section, present,
  ResearchStateSnapshot, TimingSatelliteBuildInput, TimingEventReference, TimingEventKind,
  risk_state, event_state, SectionStatus,
}
use deepinsight.Transition.Collections.{
  traverse, for_each, has, insert_sorted, sorted_set, insert_text, sorted_texts, lookup_last, keys,
  common, all_different, Built, built,
}
use deepinsight.Transition.Select.{
  validate_access, validate_feature, validate_state_at_own_cutoff, validate_outcome, validate_event,
  validate_memory, validate_external_inputs, validate_earlier, eligible_states, is_before, nearest,
  nearest_of, select_predecessor,
}
use deepinsight.Transition.Compare.{
  first_named, find_in, find_feature, semantic_value, logic_rank, thesis_rank, ranked_direction,
  logic_direction, ranked_thesis, thesis_status, thesis_change, compatible, value_differs, any_name,
  subset, dimension_changed, select_names, changed_dimensions, Direction, upgrade,
}
use deepinsight.Transition.Changes.{
  all_key_characters, is_change_key, make_change, risk_classification, with_prefix, risk_changes,
  prefixed_items, evidence_classification, compare_named, common_changes, evidence_changes,
  prefixed_changes, named_change, named_changes, expectation_changes, ValueChange,
}
use deepinsight.Transition.Outcome.{
  same_texts, same_change, has_change, changes_differ, is_valid_transition, Content,
  ResearchStateTransition,
}
use deepinsight.Transition.Build.{
  episode_for, feature_claims, state_claims, meets, used_ids, used_memory_ids, change_claims,
  change_evidence, provenance, coverage_of, content_of, make_transition, compare_with,
  build_transition,
}
use deepinsight.Transition.PointInTime.{IsPointInTime}
use deepinsight.Transition.Predecessor.{AreEarlier, IsSelection}
use deepinsight.Transition.Choice.{select_predecessor-IsSelection, select_predecessor_returns}
use deepinsight.Transition.Directions.{opposite, logic_direction-opposite}
use deepinsight.Transition.Risks.{IsRiskReport, risk_changes-IsRiskReport}
use deepinsight.Transition.Validation.{
  has_type, validate_value, validate_feature_contract, validate_section_branch, every,
  validate_snapshot, validate_event_reference, is_of_some, validate_build_input,
}
use deepinsight.Transition.Validated.{validated_selection_returns, validated_selection_order}

program : Unit {0}
unfolding codes_lt text_lt comparable_effective rejected is_after bound_reached not_reached
    already_reached visibility latest is_unattributed decide_at same_value section_text traverse
    for_each has insert_sorted sorted_set insert_text sorted_texts lookup_last keys common
    all_different validate_access validate_feature validate_state_at_own_cutoff validate_outcome
    validate_event validate_memory validate_external_inputs validate_earlier eligible_states
    is_before nearest nearest_of select_predecessor first_named find_in find_feature semantic_value
    logic_rank thesis_rank ranked_direction logic_direction ranked_thesis thesis_status
    thesis_change compatible value_differs any_name subset dimension_changed select_names
    changed_dimensions all_key_characters is_change_key make_change risk_classification with_prefix
    risk_changes prefixed_items evidence_classification compare_named common_changes
    evidence_changes prefixed_changes named_change named_changes expectation_changes episode_for
    feature_claims state_claims meets used_ids used_memory_ids change_claims change_evidence
    provenance coverage_of content_of same_texts same_change has_change changes_differ
    is_valid_transition make_transition compare_with build_transition has_type validate_value
    validate_feature_contract validate_section_branch every validate_snapshot
    validate_event_reference is_of_some validate_build_input
program = tt

abbrev feature : String → String → Feature
feature name value = record {
  feature_name = name;
  value = some (text value);
  feature_type = semantic_categorical;
  as_of = 10;
  available_at = none;
  source_claim_ids = "claim_1" ∷ [];
  source_evidence_ids = [];
  source_artifact_ids = [];
  feature_version = "v1";
  transform_name = none;
  transform_version = none;
  missing_reason = none;
}

-- A state with a logic stage and some risks.
abbrev section_with : String → List Feature → SectionName → Section
section_with stage risks event_state = record {
  section_name = event_state;
  status = present;
  features = feature "satellite.logic_certainty" stage ∷ [];
  missing_reason = none;
}
section_with stage risks risk_state = record {
  section_name = risk_state;
  status = present;
  features = risks;
  missing_reason = none;
}
section_with stage risks s = record {
  section_name = s;
  status = SectionStatus.missing;
  features = [];
  missing_reason = some "none";
}

abbrev state_of : String → ℕ → String → List Feature → ResearchStateSnapshot
state_of id time stage risks = record {
  research_state_id = id;
  asset_id = "asset_1";
  research_as_of = time;
  section = section_with stage risks;
}

abbrev oldest : ResearchStateSnapshot
oldest = state_of "state_a" 100 "rumor" (feature "satellite.risk.margin" "stable" ∷ [])

abbrev older : ResearchStateSnapshot
older = state_of "state_b" 200 "early_signal" (feature "satellite.risk.margin" "stable" ∷ [])

abbrev latest_state : ResearchStateSnapshot
latest_state =
    state_of "state_c" 300 "order_confirmed" (
      feature "satellite.risk.supply" "escalating"
      ∷ feature "satellite.risk.margin" "resolved"
      ∷ [])

abbrev event_1 : TimingEventReference
event_1 = record {
  event_id = "event_1";
  kind = TimingEventKind.event;
  event_time = 150;
  available_at = 160;
  source_claim_ids = [];
  source_evidence_ids = [];
  outcome_disposition = none;
  outcome_available_at = none;
}

abbrev build_input : List ResearchStateSnapshot → TimingSatelliteBuildInput
build_input states = record {
  current_state = latest_state;
  historical_states = states;
  current_episode = none;
  historical_episodes = [];
  events = event_1 ∷ [];
  retrieved_memories = [];
  available_at = 310;
  created_at = 320;
}

abbrev digest_1 : Content → String
digest_1 c = c.current_state_id

abbrev direction_in : Built (Option ResearchStateTransition) → Option Direction
direction_in (built (some t)) = some t.content.direction
direction_in _ = none

upgrade_found :
    direction_in (build_transition digest_1 (build_input (oldest ∷ older ∷ []))) ≡ some upgrade
unfolding program
upgrade_found = refl

abbrev predecessor_id : Built (Option ResearchStateSnapshot) → Option String
predecessor_id (built (some s)) = some s.research_state_id
predecessor_id _ = none

older_selected : select_predecessor latest_state (oldest ∷ older ∷ []) ≡ built (some older)
unfolding program
older_selected = refl

abbrev classifications : Built (List ValueChange) → List String
classifications (built changes) = map (λ c. c.classification) changes
classifications _ = []

risks_found : classifications (risk_changes older latest_state) ≡ "resolved" ∷ "new_risk" ∷ []
unfolding program
risks_found = refl

abbrev answer {ℓ} : {A : Type ℓ} → A → Built A → A
answer default (built a) = a
answer default _ = default

abbrev transition_1 : Option ResearchStateTransition
transition_1 = answer none (build_transition digest_1 (build_input (oldest ∷ older ∷ [])))

abbrev risks_1 : List ValueChange
risks_1 = answer [] (risk_changes older latest_state)

risks_built : risk_changes older latest_state ≡ built risks_1
unfolding program
risks_built = refl

select_predecessor-IsSelection_example :
    IsPointInTime latest_state
    × (AreEarlier latest_state (oldest ∷ older ∷ [])
        × IsSelection latest_state (oldest ∷ older ∷ []) (some older))
select_predecessor-IsSelection_example =
    select_predecessor-IsSelection latest_state (oldest ∷ older ∷ []) (some older) older_selected

select_predecessor_returns_example :
    ((o : Option ResearchStateSnapshot) × (select_predecessor latest_state (oldest ∷ older ∷ [])
        ≡ built o))
    ↔ (IsPointInTime latest_state × AreEarlier latest_state (oldest ∷ older ∷ []))
select_predecessor_returns_example = select_predecessor_returns latest_state (oldest ∷ older ∷ [])

swap_states : (s : ResearchStateSnapshot) → In s (oldest ∷ older ∷ []) ↔ In s (older ∷ oldest ∷ [])
swap_states s = (
  λ m. elim m [ inl i ↦ inr (inl i) | inr (inl i) ↦ inl i | inr (inr n) ↦ absurd n ],
  λ m. elim m [ inl i ↦ inr (inl i) | inr (inl i) ↦ inl i | inr (inr n) ↦ absurd n ],
)

logic_direction-opposite_example :
    logic_direction (some "order_confirmed") (some "invalidated")
    ≡ opposite (logic_direction (some "invalidated") (some "order_confirmed"))
logic_direction-opposite_example =
    logic_direction-opposite (some "invalidated") (some "order_confirmed")

risk_changes-IsRiskReport_example : IsRiskReport older latest_state risks_1
risk_changes-IsRiskReport_example =
    risk_changes-IsRiskReport older latest_state risks_1 refl refl risks_built

state_valid : validate_snapshot older ≡ true
unfolding program
state_valid = refl

input_valid : validate_build_input (build_input (oldest ∷ older ∷ [])) ≡ true
unfolding program
input_valid = refl

features_valid : every validate_feature_contract (older.section event_state).features ≡ true
unfolding program
features_valid = refl

section_valid : validate_section_branch (latest_state.section risk_state) ≡ true
unfolding program
section_valid = refl

event_valid : validate_event_reference event_1 ≡ true
unfolding program
event_valid = refl

oldest_valid : validate_snapshot oldest ≡ true
unfolding program
oldest_valid = refl

history_valid :
    (s : ResearchStateSnapshot) → In s (oldest ∷ older ∷ []) → validate_snapshot s ≡ true
history_valid s (inl i) = subst (λ z. validate_snapshot z ≡ true) i oldest_valid
history_valid s (inr (inl i)) = subst (λ z. validate_snapshot z ≡ true) i state_valid
history_valid s (inr (inr m)) = absurd m

latest_valid : validate_snapshot latest_state ≡ true
unfolding program
latest_valid = refl

validated_selection_returns_example :
    ((o : Option ResearchStateSnapshot) × (select_predecessor latest_state (oldest ∷ older ∷ [])
        ≡ built o))
    ↔ ((s : ResearchStateSnapshot)
        → In s (oldest ∷ older ∷ [])
        → s.asset_id ≡ latest_state.asset_id
        → s.research_as_of < latest_state.research_as_of)
validated_selection_returns_example =
    validated_selection_returns (build_input (oldest ∷ older ∷ []))
      (record { input = input_valid; current = latest_valid; history = history_valid })

validated_selection_order_example :
    select_predecessor latest_state (older ∷ oldest ∷ []) ≡ built (some older)
validated_selection_order_example =
    validated_selection_order (build_input (oldest ∷ older ∷ [])) (older ∷ oldest ∷ []) (some older)
      input_valid swap_states older_selected

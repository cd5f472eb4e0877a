-- ===== src/Transition/Build.antt =====
-- `build_transition` of services/research_state_transition.py. The digest of a candidate, which is
-- made with SHA-256, is a parameter.
use deepinsight.Prelude.{
  String, Bool, false, ◌||◌, Option, none, some, List, [], ◌∷◌, ◌++◌, map, same_text, if◌then◌else◌,
}
use deepinsight.Transition.State.{
  Feature, SectionName, section_names, ResearchStateSnapshot, ResearchEpisode, TimingEventReference,
  MemorySearchResult, TimingSatelliteBuildInput,
}
use deepinsight.Transition.Collections.{
  Built, built, invalid, ◌>>=◌, ◌>>◌, has, sorted_set, sorted_texts,
}
use deepinsight.Transition.Select.{validate_external_inputs, select_predecessor}
use deepinsight.Transition.Compare.{
  find_feature, semantic_value, logic_direction, thesis_change, changed_dimensions,
}
use deepinsight.Transition.Changes.{
  ValueChange, risk_changes, evidence_changes, prefixed_changes, expectation_changes,
}
use deepinsight.Transition.Outcome.{
  Coverage, available, partial, Content, ResearchStateTransition, is_valid_transition,
}

unfoldable pub episode_for : ResearchStateSnapshot → List ResearchEpisode → Option ResearchEpisode
episode_for state [] = none
episode_for state (e ∷ es) =
    if same_text e.research_state_id state.research_state_id then some e else episode_for state es

abbrev episode_id_of : Option ResearchEpisode → Option String
episode_id_of none = none
episode_id_of (some e) = some e.episode_id

-- The claims of all features of a list.
unfoldable pub feature_claims : List Feature → List String
feature_claims [] = []
feature_claims (f ∷ fs) = f.source_claim_ids ++ feature_claims fs

unfoldable pub state_claims : ResearchStateSnapshot → List SectionName → List String
state_claims state [] = []
state_claims state (s ∷ ss) = feature_claims (state.section s).features ++ state_claims state ss

-- bool(set(a) & set(b))
unfoldable pub meets : List String → List String → Bool
meets [] ys = false
meets (x ∷ xs) ys = has x ys || meets xs ys

abbrev is_used : List String → MemorySearchResult → Bool
is_used claims m = elim m.metadata [ none ↦ false | some x ↦ meets x.source_claim_ids claims ]

unfoldable pub used_ids : List String → List MemorySearchResult → List String
used_ids claims [] = []
used_ids claims (m ∷ ms) =
    let rest = used_ids claims ms in if is_used claims m then m.memory_id ∷ rest else rest

unfoldable pub used_memory_ids : List MemorySearchResult → ResearchStateSnapshot → List String
used_memory_ids memories state = sorted_texts (used_ids (state_claims state section_names) memories)

abbrev logic_claims : ResearchStateSnapshot → List String
logic_claims state = elim (find_feature state "satellite.logic_certainty") [
  | none ↦ []
  | some (s, f) ↦ f.source_claim_ids
]

abbrev logic_evidence : ResearchStateSnapshot → List String
logic_evidence state = elim (find_feature state "satellite.logic_certainty") [
  | none ↦ []
  | some (s, f) ↦ f.source_evidence_ids
]

unfoldable pub change_claims : List ValueChange → List String
change_claims [] = []
change_claims (c ∷ cs) = c.source_claim_ids ++ change_claims cs

unfoldable pub change_evidence : List ValueChange → List String
change_evidence [] = []
change_evidence (c ∷ cs) = c.source_evidence_ids ++ change_evidence cs

unfoldable pub provenance :
    ResearchStateSnapshot → ResearchStateSnapshot → List ValueChange → List String × List String
provenance previous current changes = (
  sorted_set ((logic_claims previous ++ logic_claims current) ++ change_claims changes),
  sorted_set ((logic_evidence previous ++ logic_evidence current) ++ change_evidence changes),
)

-- Both states have a logic stage, or the transition is partial and says so.
unfoldable pub coverage_of : Option String → Option String → Coverage × List String
coverage_of (some a) (some b) = (available, [])
coverage_of _ _ = (partial, "both States require a structured logic stage" ∷ [])

abbrev event_ids : List TimingEventReference → List String
event_ids events = map (λ e. e.event_id) events

unfoldable pub content_of :
    TimingSatelliteBuildInput
    → ResearchStateSnapshot
    → (expectation risk catalyst evidence : List ValueChange) → Content
content_of inputs previous expectation risk catalyst evidence =
    let current = inputs.current_state in
    let from = semantic_value previous "satellite.logic_certainty" in
    let to = semantic_value current "satellite.logic_certainty" in
    let (claims, proofs) =
      provenance previous current (expectation ++ (risk ++ (catalyst ++ evidence))) in
    record {
      asset_id = current.asset_id;
      previous_state_id = previous.research_state_id;
      current_state_id = current.research_state_id;
      previous_episode_id = episode_id_of (episode_for previous inputs.historical_episodes);
      current_episode_id = episode_id_of inputs.current_episode;
      previous_as_of = previous.research_as_of;
      current_as_of = current.research_as_of;
      changed_dimensions = changed_dimensions previous current;
      direction = logic_direction from to;
      logic_stage_from = from;
      logic_stage_to = to;
      expectation_changes = expectation;
      thesis_change = thesis_change previous current;
      risk_changes = risk;
      catalyst_changes = catalyst;
      evidence_changes = evidence;
      source_claim_ids = claims;
      source_event_ids = sorted_texts (event_ids inputs.events);
      source_evidence_ids = proofs;
      source_artifact_ids = sorted_set (
          previous.research_state_id
          ∷ current.research_state_id
          ∷ used_memory_ids inputs.retrieved_memories current);
      coverage_status = (coverage_of from to).0;
      missing_reasons = (coverage_of from to).1;
    }

module _ (digest : Content → String) where
  unfoldable pub make_transition :
      TimingSatelliteBuildInput → Content → Built ResearchStateTransition
  make_transition inputs content =
      let t : ResearchStateTransition = record {
        transition_id = digest content;
        content = content;
        available_at = inputs.available_at;
        created_at = inputs.created_at;
      } in
      if is_valid_transition t then built t else invalid

  -- The comparison with the predecessor.
  unfoldable pub compare_with :
      TimingSatelliteBuildInput → ResearchStateSnapshot → Built (Option ResearchStateTransition)
  compare_with inputs previous = do
    let current = inputs.current_state
    expectation ← expectation_changes previous current
    risk ← risk_changes previous current
    catalyst ← prefixed_changes previous current "satellite.catalyst." "changed"
    evidence ← evidence_changes previous current
    t ← make_transition inputs (content_of inputs previous expectation risk catalyst evidence)
    built (some t)

  unfoldable pub build_transition :
      TimingSatelliteBuildInput → Built (Option ResearchStateTransition)
  build_transition inputs = do
    validate_external_inputs inputs
    previous ← select_predecessor inputs.current_state inputs.historical_states
    elim previous [ none ↦ built none | some p ↦ compare_with inputs p ]

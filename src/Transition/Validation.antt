-- ===== src/Transition/Validation.antt =====
-- The model validators of schemas/research_state.py, and those of the inputs of the transition builder
-- in schemas/research_state_transition.py. A false answer stands for a ValidationError.
use deepinsight.Prelude.{
  String, Bool, true, false, not, ◌||◌, ◌&&◌, Option, none, some, List, [], ◌∷◌, ◌++◌, map, ◌==◌,
  same_text, leb,
}
use deepinsight.Temporal.DateTime.{Instant}
use deepinsight.Temporal.Access.{historical_replay, decide_at, is_given, is_empty}
use deepinsight.Temporal.Metadata.{generic}
use deepinsight.Transition.State.{
  Scalar, number, FeatureType, deterministic_numeric, normalized_research_state,
  semantic_categorical, Feature, SectionStatus, present, partial, SectionName, section_names,
  section_text, Section, ResearchStateSnapshot, ResearchEpisode, TimingEventReference,
  TimingSatelliteBuildInput,
}
use deepinsight.Transition.Collections.{all_different}
use deepinsight.Transition.Select.{event_at, known_at}

-- `bool(value)` of an optional text.
abbrev pub is_filled : Option String → Bool
is_filled none = false
is_filled (some s) = not (same_text s "")

abbrev is_number : Scalar → Bool
is_number (number n) = true
is_number _ = false

-- The value has the kind that the type asks for, and only a normalized one declares a transform.
unfoldable pub has_type : Feature → Scalar → FeatureType → Bool
has_type f v deterministic_numeric =
    is_number v && (not (is_given f.transform_name) && not (is_given f.transform_version))
has_type f v normalized_research_state =
    is_number v && (is_filled f.transform_name && is_filled f.transform_version)
has_type f v semantic_categorical =
    not (is_number v) && (not (is_given f.transform_name) && not (is_given f.transform_version))

abbrev has_provenance : Feature → Bool
has_provenance f =
    not (is_empty f.source_claim_ids)
    || (not (is_empty f.source_evidence_ids) || not (is_empty f.source_artifact_ids))

unfoldable pub validate_value : Feature → Option Scalar → Bool
validate_value f none =
    is_filled f.missing_reason
    && (not (is_given f.transform_name) && not (is_given f.transform_version))
validate_value f (some v) =
    not (is_given f.missing_reason) && (has_provenance f && has_type f v f.feature_type)

unfoldable pub validate_feature_contract : Feature → Bool
validate_feature_contract f =
    all_different f.source_claim_ids
    && (all_different f.source_evidence_ids
        && (all_different f.source_artifact_ids && validate_value f f.value))

abbrev is_present : SectionStatus → Bool
is_present present = true
is_present _ = false

abbrev is_available : SectionStatus → Bool
is_available present = true
is_available partial = true
is_available _ = false

abbrev pub same_flag : Bool → Bool → Bool
same_flag true b = b
same_flag false b = not b

abbrev pub feature_names : Section → List String
feature_names s = map (λ f. f.feature_name) s.features

-- Features exactly if available, and a reason exactly if not present.
unfoldable pub validate_section_branch : Section → Bool
validate_section_branch s =
    all_different (feature_names s)
    && (same_flag (is_available s.status) (not (is_empty s.features))
        && same_flag (not (is_present s.status)) (is_filled s.missing_reason))

unfoldable pub every {ℓ} : {A : Type ℓ} → (A → Bool) → List A → Bool
every p [] = true
every p (x ∷ xs) = p x && every p xs

abbrev pub is_section_named : ResearchStateSnapshot → SectionName → Bool
is_section_named state name =
    same_text (section_text (state.section name).section_name) (section_text name)

abbrev pub is_usable_feature : Instant → Feature → Bool
is_usable_feature cutoff f =
    (decide_at (event_at generic f.as_of (known_at f)) cutoff true historical_replay).is_usable

unfoldable pub validate_snapshot : ResearchStateSnapshot → Bool
validate_snapshot state =
    every (is_section_named state) section_names
    && every (λ name. every (is_usable_feature state.research_as_of) (state.section name).features)
        section_names

-- An outcome has a time exactly if it is stated, and the event's provenance does not repeat itself.
unfoldable pub validate_event_reference : TimingEventReference → Bool
validate_event_reference e =
    same_flag (is_filled e.outcome_disposition) (is_given e.outcome_available_at)
    && (all_different e.source_claim_ids && all_different e.source_evidence_ids)

abbrev is_of : ResearchEpisode → ResearchStateSnapshot → Bool
is_of e s =
    same_text e.research_state_id s.research_state_id
    && (same_text e.asset_id s.asset_id && (e.research_as_of == s.research_as_of))

unfoldable pub is_of_some : ResearchEpisode → List ResearchStateSnapshot → Bool
is_of_some e [] = false
is_of_some e (s ∷ ss) = is_of e s || is_of_some e ss

abbrev optional : Option ResearchEpisode → List ResearchEpisode
optional none = []
optional (some e) = e ∷ []

-- `validate_build_input`
unfoldable pub validate_build_input : TimingSatelliteBuildInput → Bool
validate_build_input inputs =
    let states = inputs.historical_states ++ (inputs.current_state ∷ []) in
    leb inputs.current_state.research_as_of inputs.available_at
    && (leb inputs.available_at inputs.created_at
        && (every (λ e. is_of_some e states && leb e.created_at inputs.available_at)
              (inputs.historical_episodes ++ optional inputs.current_episode)
            && (all_different (map (λ s. s.research_state_id) inputs.historical_states)
                && (all_different (map (λ e. e.event_id) inputs.events)
                    && all_different (map (λ m. m.memory_id) inputs.retrieved_memories)))))

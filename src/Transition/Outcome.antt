-- ===== src/Transition/Outcome.antt =====
-- `ResearchStateTransition` of schemas/research_state_transition.py, and its validator.
use deepinsight.Prelude.{
  String, Bool, true, false, not, ◌||◌, ◌&&◌, Option, List, [], ◌∷◌, map, same_text, ltb, leb,
  if◌then◌else◌,
}
use deepinsight.Temporal.DateTime.{Instant}
use deepinsight.Transition.State.{same_value, SectionName, section_text}
use deepinsight.Transition.Collections.{all_different}
use deepinsight.Transition.Compare.{Direction, ThesisTransitionStatus}
use deepinsight.Transition.Changes.{ValueChange}

pub data Coverage : Type 0 where
  available partial : Coverage

-- The content that a transition's identifier is a digest of.
pub record Content : Type 0 where
  pub asset_id : String
  pub previous_state_id : String
  pub current_state_id : String
  pub previous_episode_id : Option String
  pub current_episode_id : Option String
  pub previous_as_of : Instant
  pub current_as_of : Instant
  pub changed_dimensions : List SectionName
  pub direction : Direction
  pub logic_stage_from : Option String
  pub logic_stage_to : Option String
  pub expectation_changes : List ValueChange
  pub thesis_change : Option ThesisTransitionStatus
  pub risk_changes : List ValueChange
  pub catalyst_changes : List ValueChange
  pub evidence_changes : List ValueChange
  pub source_claim_ids : List String
  pub source_event_ids : List String
  pub source_evidence_ids : List String
  pub source_artifact_ids : List String
  pub coverage_status : Coverage
  pub missing_reasons : List String

pub record ResearchStateTransition : Type 0 where
  pub transition_id : String
  pub content : Content
  pub available_at : Instant
  pub created_at : Instant

unfoldable pub same_texts : List String → List String → Bool
same_texts [] [] = true
same_texts (x ∷ xs) (y ∷ ys) = same_text x y && same_texts xs ys
same_texts _ _ = false

-- `==` of two changes, field by field.
unfoldable pub same_change : ValueChange → ValueChange → Bool
same_change a b =
    same_text a.change_key b.change_key
    && (same_value a.previous_value b.previous_value
        && (same_value a.current_value b.current_value
            && (same_text a.classification b.classification
                && (same_texts a.source_state_feature_refs b.source_state_feature_refs
                    && (same_texts a.source_claim_ids b.source_claim_ids
                        && (same_texts a.source_evidence_ids b.source_evidence_ids
                            && same_texts a.source_artifact_ids b.source_artifact_ids))))))

unfoldable pub has_change : ValueChange → List ValueChange → Bool
has_change c [] = false
has_change c (d ∷ ds) = same_change d c || has_change c ds

unfoldable pub changes_differ : List ValueChange → Bool
changes_differ [] = true
changes_differ (c ∷ cs) = if has_change c cs then false else changes_differ cs

abbrev matches_reasons : Coverage → List String → Bool
matches_reasons available [] = true
matches_reasons available (r ∷ rs) = false
matches_reasons partial [] = false
matches_reasons partial (r ∷ rs) = true

-- `ResearchStateTransition.validate_transition`.
unfoldable pub is_valid_transition : ResearchStateTransition → Bool
is_valid_transition t =
    let c = t.content in
    not (same_text c.previous_state_id c.current_state_id)
    && (ltb c.previous_as_of c.current_as_of
        && (leb c.current_as_of t.available_at
            && (leb t.available_at t.created_at
                && (all_different (map section_text c.changed_dimensions)
                    && (changes_differ c.expectation_changes
                        && (changes_differ c.risk_changes
                            && (changes_differ c.catalyst_changes
                                && (changes_differ c.evidence_changes
                                    && (all_different c.source_claim_ids
                                        && (all_different c.source_event_ids
                                            && (all_different c.source_evidence_ids
                                                && (all_different c.source_artifact_ids
                                                    && (all_different c.missing_reasons
                                                        && matches_reasons c.coverage_status
                                                            c.missing_reasons)))))))))))))

-- ===== src/Episode/Examples.antt =====
-- Tests and instances for the research episodes.
use deepinsight.Prelude.{String, ◌≡◌, refl, none, some, [], ◌∷◌}
use deepinsight.Transition.State.{
  Feature, deterministic_numeric, present, macro_state, sector_state,
}
use deepinsight.Transition.Collections.{has, all_different}
use deepinsight.Ontology.Checks.{invalid}
use deepinsight.Episode.Records.{
  AgentName, fundamental_analyst, research_manager, complete, AgentExecutionTrace, ResearchState,
  ResearchEpisodeBuildInput,
}
use deepinsight.Episode.Building.{assemble}
use deepinsight.Episode.Validation.{validate_trace, returned, raised, returned_if, build}
use deepinsight.Episode.Outcome.{remaining_checks, build_lem}

abbrev trace_of : AgentName → (run claim : String) → AgentExecutionTrace
trace_of role run claim = record {
  agent_role = role;
  agent_run_id = run;
  input_context_ids = [];
  provided_claim_ids = "sector:chips" ∷ [];
  output_claim_ids = claim ∷ [];
  accepted_claim_ids = claim ∷ [];
  rejected_claim_ids = [];
  accepted_claim_count = 1;
  rejected_claim_count = 0;
  model = "model";
  prompt_version = "prompt_v1";
  trace_quality = complete;
  missing_metadata = [];
}

abbrev feature : Feature
feature = record {
  feature_name = "chips";
  value = none;
  feature_type = deterministic_numeric;
  as_of = 0;
  available_at = none;
  source_claim_ids = "sector:chips" ∷ "claim_9" ∷ [];
  source_evidence_ids = [];
  source_artifact_ids = [];
  feature_version = "v1";
  transform_name = none;
  transform_version = none;
  missing_reason = none;
}

abbrev state : ResearchState
state = record {
  research_state_id = "research_state_1";
  research_state_version = "research_state_v1";
  feature_version = "research_state_feature_v1";
  asset_id = "US:AAPL";
  research_as_of = 0;
  macro_state = record {
    section_name = macro_state;
    status = present;
    features = [];
    missing_reason = none;
  };
  sector_state = record {
    section_name = sector_state;
    status = present;
    features = feature ∷ [];
    missing_reason = none;
  };
  lineage = record {
    data_bundle_id = "bundle";
    data_snapshot_id = none;
    sector_context_id = some "context";
    memory_context_id = none;
    agent_run_ids = "run_2" ∷ "run_1" ∷ [];
  };
}

abbrev inputs_with : (second_claim : String) → ResearchEpisodeBuildInput
inputs_with claim = record {
  research_state = state;
  agent_traces =
      trace_of fundamental_analyst "run_1" "claim_1" ∷ trace_of research_manager "run_2" claim ∷ [];
  sector_usage =
      record {
        sector_context_id = "context";
        agent_role = research_manager;
        provided_sector_claim_ids = "sector:chips" ∷ [];
      }
      ∷ [];
  report_id = none;
  created_at = 1;
  source_artifact_ids = [];
  missing_metadata = [];
}

abbrev no_digest : ResearchEpisodeBuildInput → String
no_digest inputs = "0123456789abcdef0123456789abcdef"

-- Two agents with a claim each, and the same with one claim between them.
two_claims :
    build no_digest (inputs_with "claim_2") ≡ returned (assemble no_digest (inputs_with "claim_2"))
unfolding build has all_different
two_claims = refl

shared_claim :
    build no_digest (inputs_with "claim_1")
    ≡ raised (invalid "complete Episode requires every accepted Claim ID")
unfolding build has all_different
shared_claim = refl

build_lem_example :
    build no_digest (inputs_with "claim_2")
    ≡ returned_if
        (remaining_checks (inputs_with "claim_2"))
        (assemble no_digest (inputs_with "claim_2"))
unfolding validate_trace all_different has
build_lem_example = build_lem no_digest (inputs_with "claim_2") (refl, (refl, tt))

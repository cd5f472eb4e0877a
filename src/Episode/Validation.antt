-- ===== src/Episode/Validation.antt =====
-- The model validators of AgentExecutionTrace and ResearchEpisode in schemas/research_episode.py, and
-- the builder's call as a whole.
use deepinsight.Prelude.{
  String, Bool, true, false, not, ◌&&◌, List, [], ◌∷◌, ◌++◌, length, leb, ◌==◌, same_text,
}
use deepinsight.Transition.Collections.{all_different, common}
use deepinsight.Ontology.Checks.{Check, valid, ◌and_then◌, require}
use deepinsight.Episode.Records.{
  ResearchEpisodeTraceQuality, complete, partial, AgentExecutionTrace, ResearchEpisodeBuildInput,
  ResearchEpisode,
}
use deepinsight.Episode.Building.{
  is_empty, is_subset, same_set, collect, ordered_unique, sum_of, all_complete, run_ids,
  usage_claims, check_inputs, assemble,
}

abbrev pub all_unique : List (List String) → Bool
all_unique [] = true
all_unique (group ∷ groups) = all_different group && all_unique groups

-- `==` on tuples of texts.
unfoldable pub same_texts : List String → List String → Bool
same_texts [] [] = true
same_texts (x ∷ xs) (y ∷ ys) = same_text x y && same_texts xs ys
same_texts _ _ = false

abbrev pub check_trace_quality : ResearchEpisodeTraceQuality → AgentExecutionTrace → Check
check_trace_quality complete trace =
    require (is_empty trace.missing_metadata) "complete Agent trace cannot declare missing metadata"
    and_then require (trace.accepted_claim_count == length trace.accepted_claim_ids)
        "complete Agent trace requires all accepted Claim IDs"
    and_then require (trace.rejected_claim_count == length trace.rejected_claim_ids)
        "complete Agent trace requires all rejected Claim IDs"
check_trace_quality partial trace =
    require (not (is_empty trace.missing_metadata))
      "partial Agent trace requires explicit missing metadata"

unfoldable pub check_trace_claims : AgentExecutionTrace → Check
unfolding is_subset common
check_trace_claims trace =
    require (is_empty (common trace.accepted_claim_ids trace.rejected_claim_ids))
      "accepted and rejected Claim identities must be disjoint"
    and_then require
        (is_subset (trace.accepted_claim_ids ++ trace.rejected_claim_ids) trace.output_claim_ids)
        "Agent output Claim identities are incomplete"
    and_then require (leb (length trace.accepted_claim_ids) trace.accepted_claim_count)
        "accepted Claim count is smaller than retained identities"
    and_then require (leb (length trace.rejected_claim_ids) trace.rejected_claim_count)
        "rejected Claim count is smaller than retained identities"

unfoldable pub validate_trace : AgentExecutionTrace → Check
unfolding check_trace_claims
validate_trace trace =
    require
      (all_unique (
        trace.input_context_ids ∷ trace.provided_claim_ids ∷ trace.output_claim_ids
        ∷ trace.accepted_claim_ids ∷ trace.rejected_claim_ids ∷ trace.missing_metadata ∷ []))
      "Agent execution trace identities must be unique"
    and_then check_trace_claims trace
    and_then check_trace_quality trace.trace_quality trace

-- The claims that the traces provide, accept and reject.
abbrev pub provided_of : List AgentExecutionTrace → List String
provided_of = collect (λ (t : AgentExecutionTrace). t.provided_claim_ids)

abbrev pub accepted_of : List AgentExecutionTrace → List String
accepted_of = collect (λ (t : AgentExecutionTrace). t.accepted_claim_ids)

abbrev pub rejected_of : List AgentExecutionTrace → List String
rejected_of = collect (λ (t : AgentExecutionTrace). t.rejected_claim_ids)

unfoldable pub check_groups : ResearchEpisode → Check
check_groups e =
    require
      (all_unique (
        e.agent_run_ids ∷ e.provided_claim_ids ∷ e.accepted_claim_ids ∷ e.rejected_claim_ids
        ∷ e.sector_claim_ids ∷ e.bull_claim_ids ∷ e.bear_claim_ids ∷ e.risk_claim_ids
        ∷ e.final_research_claim_ids ∷ e.missing_metadata ∷ e.source_artifact_ids ∷ []))
      "ResearchEpisode identities must be unique"

-- `traces` is the dictionary of the traces by the identifier of the run.
unfoldable pub check_run_index : ResearchEpisode → Check
unfolding ordered_unique same_texts
check_run_index e =
    require (all_different (run_ids e.agent_traces)) "ResearchEpisode Agent runs must be unique"
    and_then require (same_texts (ordered_unique (run_ids e.agent_traces)) e.agent_run_ids)
        "ResearchEpisode Agent run index is inconsistent"

unfoldable pub check_claim_index : ResearchEpisode → Check
unfolding is_subset collect
check_claim_index e =
    require (same_set e.accepted_claim_ids (accepted_of e.agent_traces))
      "ResearchEpisode accepted Claim index is inconsistent"
    and_then require (same_set e.rejected_claim_ids (rejected_of e.agent_traces))
        "ResearchEpisode rejected Claim index is inconsistent"
    and_then require
        (same_set e.provided_claim_ids (provided_of e.agent_traces ++ usage_claims e.sector_usage))
        "ResearchEpisode provided Claim index is inconsistent"

unfoldable pub check_counts : ResearchEpisode → Check
unfolding sum_of
check_counts e =
    require (e.accepted_claim_count == sum_of (λ t. t.accepted_claim_count) e.agent_traces)
      "ResearchEpisode accepted Claim count is inconsistent"
    and_then require (e.rejected_claim_count == sum_of (λ t. t.rejected_claim_count) e.agent_traces)
        "ResearchEpisode rejected Claim count is inconsistent"

unfoldable pub check_roles : ResearchEpisode → Check
unfolding is_subset
check_roles e =
    require
      (is_subset (e.bull_claim_ids ++ e.bear_claim_ids ++ e.risk_claim_ids) e.accepted_claim_ids)
      "role Claim index contains an unknown accepted Claim"
    and_then require (is_subset e.final_research_claim_ids e.accepted_claim_ids)
        "final research index contains an unknown accepted Claim"

unfoldable pub check_episode_quality : ResearchEpisodeTraceQuality → ResearchEpisode → Check
unfolding all_complete
check_episode_quality complete e =
    require (is_empty e.missing_metadata && all_complete e.agent_traces)
      "complete Episode cannot contain partial trace metadata"
    and_then require (e.accepted_claim_count == length e.accepted_claim_ids)
        "complete Episode requires every accepted Claim ID"
    and_then require (e.rejected_claim_count == length e.rejected_claim_ids)
        "complete Episode requires every rejected Claim ID"
check_episode_quality partial e =
    require (not (is_empty e.missing_metadata)) "partial Episode requires explicit missing metadata"

unfoldable pub validate_episode : ResearchEpisode → Check
unfolding check_groups check_run_index check_claim_index check_counts check_roles
    check_episode_quality
validate_episode e =
    check_groups e
    and_then check_run_index e
    and_then check_claim_index e
    and_then check_counts e
    and_then check_roles e
    and_then check_episode_quality e.trace_quality e

-- What a call of the builder does: it returns the episode, or raises the first error.
pub data Build : Type 0 where
  returned : ResearchEpisode → Build
  raised : Check → Build

abbrev pub returned_if : Check → ResearchEpisode → Build
returned_if valid episode = returned episode
returned_if error episode = raised error

unfoldable pub build : (ResearchEpisodeBuildInput → String) → ResearchEpisodeBuildInput → Build
unfolding check_inputs assemble validate_episode
build fingerprint inputs =
    let episode = assemble fingerprint inputs in
    returned_if (check_inputs inputs and_then validate_episode episode) episode

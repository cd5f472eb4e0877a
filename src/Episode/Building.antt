-- ===== src/Episode/Building.antt =====
-- `ResearchEpisodeBuilder.build` of services/research_episode.py up to the construction of the episode.
-- The fingerprint of the inputs, a SHA-256 digest of their JSON, is a parameter.
use Prim.Native.Char.{code}
use Prim.Native.String.{◌++◌ as ◌<>◌}
use deepinsight.Prelude.{
  ℕ, zero, suc, ◌+◌, String, Bool, true, false, not, ◌&&◌, ◌||◌, Option, none, some, List, [], ◌∷◌,
  ◌==◌, ◌++◌, map, same_text, starts_with, if◌then◌else◌,
}
use deepinsight.Transition.State.{Feature, Section}
use deepinsight.Transition.Collections.{has}
use deepinsight.Ontology.Checks.{Check, valid, invalid, ◌and_then◌, require}
use deepinsight.Episode.Records.{
  AgentName, research_manager, bull_manager, bear_manager, risk_manager, agent_value, is_role,
  ResearchEpisodeTraceQuality, complete, partial, ResearchEpisodeVersionReference,
  AgentExecutionTrace, SectorContextUsageDiagnostic, ResearchEpisodeBuildInput, ResearchEpisode,
}

-- The values other than `value`.
unfoldable pub without : String → List String → List String
without value [] = []
without value (v ∷ vs) = let rest = without value vs in if same_text value v then rest else v ∷ rest

-- `tuple(dict.fromkeys(values))`
unfoldable pub ordered_unique : List String → List String
unfolding without
ordered_unique [] = []
ordered_unique (v ∷ vs) = v ∷ without v (ordered_unique vs)

-- `(x for item in items for x in texts(item))`
unfoldable pub collect : {A : Type 0} → (A → List String) → List A → List String
collect texts [] = []
collect texts (item ∷ items) = texts item ++ collect texts items

abbrev pub is_empty : {A : Type 0} → List A → Bool
is_empty [] = true
is_empty (x ∷ xs) = false

-- `set(xs) <= set(ys)`
unfoldable pub is_subset : List String → List String → Bool
is_subset [] ys = true
is_subset (x ∷ xs) ys = has x ys && is_subset xs ys

abbrev pub same_set : List String → List String → Bool
same_set xs ys = is_subset xs ys && is_subset ys xs

abbrev sector_prefixed : List String → List String
sector_prefixed [] = []
sector_prefixed (id ∷ ids) =
    let rest = sector_prefixed ids in if starts_with id "sector:" then id ∷ rest else rest

unfoldable pub sector_claim_ids : (macro sector : Section) → List String
unfolding ordered_unique collect
sector_claim_ids macro sector = ordered_unique (
    collect
      (λ (section : Section).
        collect (λ (feature : Feature). sector_prefixed feature.source_claim_ids) section.features)
      (macro ∷ sector ∷ []))

-- The accepted claims of the traces of a role.
unfoldable pub accepted_by : AgentName → List AgentExecutionTrace → List String
accepted_by role [] = []
accepted_by role (trace ∷ traces) =
    let rest = accepted_by role traces in
    if is_role trace.agent_role role then trace.accepted_claim_ids ++ rest else rest

unfoldable pub sum_of : (AgentExecutionTrace → ℕ) → List AgentExecutionTrace → ℕ
sum_of count [] = 0
sum_of count (trace ∷ traces) = count trace + sum_of count traces

abbrev pub is_complete : ResearchEpisodeTraceQuality → Bool
is_complete complete = true
is_complete partial = false

unfoldable pub all_complete : List AgentExecutionTrace → Bool
all_complete [] = true
all_complete (trace ∷ traces) = is_complete trace.trace_quality && all_complete traces

unfoldable pub any_missing : List AgentExecutionTrace → Bool
any_missing [] = false
any_missing (trace ∷ traces) = not (is_empty trace.missing_metadata) || any_missing traces

-- `item.sector_context_id != state.lineage.sector_context_id` for no item.
abbrev same_context : String → List SectorContextUsageDiagnostic → Bool
same_context id [] = true
same_context id (item ∷ items) = same_text item.sector_context_id id && same_context id items

abbrev pub run_ids : List AgentExecutionTrace → List String
run_ids = map (λ (trace : AgentExecutionTrace). trace.agent_run_id)

unfoldable pub check_runs : ResearchEpisodeBuildInput → Check
unfolding is_subset
check_runs inputs =
    let known = inputs.research_state.lineage.agent_run_ids in
    require (is_empty known || same_set known (run_ids inputs.agent_traces))
      "ResearchState and Episode Agent run identities disagree"

abbrev pub usage_claims : List SectorContextUsageDiagnostic → List String
usage_claims = collect (λ (item : SectorContextUsageDiagnostic). item.provided_sector_claim_ids)

abbrev pub check_context : Option String → ResearchEpisodeBuildInput → Check
check_context none inputs = invalid "Sector usage requires a State Sector context"
check_context (some id) inputs =
    let state = inputs.research_state in
    require (same_context id inputs.sector_usage)
      "Sector usage and State context identities disagree"
    and_then require
        (is_subset (usage_claims inputs.sector_usage)
          (sector_claim_ids state.macro_state state.sector_state))
        "Sector usage references a Claim absent from ResearchState"

unfoldable pub check_sector_usage : ResearchEpisodeBuildInput → Check
unfolding is_subset collect sector_claim_ids
check_sector_usage inputs =
    if is_empty inputs.sector_usage
    then valid
    else check_context inputs.research_state.lineage.sector_context_id inputs

unfoldable pub quality_of : ResearchEpisodeBuildInput → ResearchEpisodeTraceQuality
unfolding all_complete
quality_of inputs =
    if is_empty inputs.missing_metadata && all_complete inputs.agent_traces
    then complete
    else partial

unfoldable pub check_quality : ResearchEpisodeBuildInput → Check
unfolding any_missing quality_of
check_quality inputs =
    require
      (is_complete (quality_of inputs)
        || (not (is_empty inputs.missing_metadata) || any_missing inputs.agent_traces))
      "partial Episode requires attributable missing metadata"

-- The checks of the builder, in order.
unfoldable pub check_inputs : ResearchEpisodeBuildInput → Check
unfolding check_runs check_sector_usage check_quality
check_inputs inputs =
    check_runs inputs and_then check_sector_usage inputs and_then check_quality inputs

unfoldable pub final_claims : List AgentExecutionTrace → List String
unfolding accepted_by ordered_unique
final_claims traces = ordered_unique (
    ordered_unique (accepted_by research_manager traces)
    ++ ordered_unique (accepted_by bull_manager traces)
    ++ ordered_unique (accepted_by bear_manager traces)
    ++ ordered_unique (accepted_by risk_manager traces))

-- `text[:n]`
unfoldable pub prefix : ℕ → String → String
prefix zero text = String.[]
prefix (suc n) String.[] = String.[]
prefix (suc n) (String.◌∷◌ c text) = String.◌∷◌ c (prefix n text)

-- `AssetId.market`: the text before the first colon.
unfoldable pub market_of : String → String
market_of String.[] = String.[]
market_of (String.◌∷◌ c text) =
    let rest = market_of text in if code c == 58 then String.[] else String.◌∷◌ c rest

-- `data_snapshot_id or data_bundle_id`, where an empty text counts as none.
abbrev snapshot_or_bundle : Option String → String → String
snapshot_or_bundle none bundle = bundle
snapshot_or_bundle (some id) bundle = if same_text id "" then bundle else id

abbrev versions :
    (AgentExecutionTrace → String) → List AgentExecutionTrace → List ResearchEpisodeVersionReference
versions version = map (λ (trace : AgentExecutionTrace). record {
  name = agent_value trace.agent_role;
  version = version trace;
})

module _ (fingerprint : ResearchEpisodeBuildInput → String) where
  -- The episode that the builder constructs.
  unfoldable pub assemble : ResearchEpisodeBuildInput → ResearchEpisode
  unfolding market_of ordered_unique collect sector_claim_ids accepted_by sum_of quality_of
      final_claims prefix agent_value
  assemble inputs =
      let state = inputs.research_state in
      let traces = inputs.agent_traces in
      let claims_of = λ (role : AgentName). ordered_unique (accepted_by role traces) in
      record {
        episode_id = "research_episode_" <> prefix 24 (fingerprint inputs);
        asset_id = state.asset_id;
        market = market_of state.asset_id;
        research_as_of = state.research_as_of;
        research_state_id = state.research_state_id;
        data_snapshot_id =
            snapshot_or_bundle state.lineage.data_snapshot_id state.lineage.data_bundle_id;
        sector_context_id = state.lineage.sector_context_id;
        memory_context_id = state.lineage.memory_context_id;
        agent_run_ids = run_ids traces;
        provided_claim_ids = ordered_unique (
            ordered_unique (collect (λ (t : AgentExecutionTrace). t.provided_claim_ids) traces)
            ++ usage_claims inputs.sector_usage);
        accepted_claim_ids =
            ordered_unique (collect (λ (t : AgentExecutionTrace). t.accepted_claim_ids) traces);
        rejected_claim_ids =
            ordered_unique (collect (λ (t : AgentExecutionTrace). t.rejected_claim_ids) traces);
        accepted_claim_count = sum_of (λ t. t.accepted_claim_count) traces;
        rejected_claim_count = sum_of (λ t. t.rejected_claim_count) traces;
        sector_claim_ids = sector_claim_ids state.macro_state state.sector_state;
        bull_claim_ids = claims_of bull_manager;
        bear_claim_ids = claims_of bear_manager;
        risk_claim_ids = claims_of risk_manager;
        final_research_claim_ids = final_claims traces;
        report_id = inputs.report_id;
        model_versions = versions (λ t. t.model) traces;
        prompt_versions = versions (λ t. t.prompt_version) traces;
        feature_versions =
            record { name = "research_state"; version = state.research_state_version }
            ∷ record { name = "research_state_feature"; version = state.feature_version }
            ∷ [];
        agent_traces = traces;
        sector_usage = inputs.sector_usage;
        trace_quality = quality_of inputs;
        missing_metadata = ordered_unique (
            inputs.missing_metadata
            ++ collect (λ (t : AgentExecutionTrace). t.missing_metadata) traces);
        source_artifact_ids = inputs.source_artifact_ids;
        created_at = inputs.created_at;
        input_fingerprint = fingerprint inputs;
      }

-- ===== src/Episode/Records.antt =====
-- The records of schemas/research_episode.py and what an episode reads of a research state. Datetimes
-- are in UTC, and a context is its identifier.
use deepinsight.Prelude.{ℕ, String, Bool, Option, List, ◌==◌}
use deepinsight.Temporal.DateTime.{Instant}
use deepinsight.Transition.State.{Section}

pub data AgentName : Type 0 where
  fundamental_analyst technical_text_analyst sentiment_analyst news_event_analyst : AgentName
  research_manager bull_manager bear_manager risk_manager : AgentName

unfoldable pub agent_value : AgentName → String
agent_value fundamental_analyst = "fundamental_analyst"
agent_value technical_text_analyst = "technical_text_analyst"
agent_value sentiment_analyst = "sentiment_analyst"
agent_value news_event_analyst = "news_event_analyst"
agent_value research_manager = "research_manager"
agent_value bull_manager = "bull_manager"
agent_value bear_manager = "bear_manager"
agent_value risk_manager = "risk_manager"

abbrev agent_index : AgentName → ℕ
agent_index fundamental_analyst = 0
agent_index technical_text_analyst = 1
agent_index sentiment_analyst = 2
agent_index news_event_analyst = 3
agent_index research_manager = 4
agent_index bull_manager = 5
agent_index bear_manager = 6
agent_index risk_manager = 7

-- `a is b` on members of the enum.
abbrev pub is_role : AgentName → AgentName → Bool
is_role a b = agent_index a == agent_index b

pub data ResearchEpisodeTraceQuality : Type 0 where
  complete partial : ResearchEpisodeTraceQuality

pub record ResearchEpisodeVersionReference : Type 0 where
  pub name : String
  pub version : String

pub record AgentExecutionTrace : Type 0 where
  pub agent_role : AgentName
  pub agent_run_id : String
  pub input_context_ids : List String
  pub provided_claim_ids : List String
  pub output_claim_ids : List String
  pub accepted_claim_ids : List String
  pub rejected_claim_ids : List String
  pub accepted_claim_count : ℕ
  pub rejected_claim_count : ℕ
  pub model : String
  pub prompt_version : String
  pub trace_quality : ResearchEpisodeTraceQuality
  pub missing_metadata : List String

pub record SectorContextUsageDiagnostic : Type 0 where
  pub sector_context_id : String
  pub agent_role : AgentName
  pub provided_sector_claim_ids : List String

pub record ResearchStateLineage : Type 0 where
  pub data_bundle_id : String
  pub data_snapshot_id : Option String
  pub sector_context_id : Option String
  pub memory_context_id : Option String
  pub agent_run_ids : List String

-- The fields of a ResearchStateSnapshot that an episode reads.
pub record ResearchState : Type 0 where
  pub research_state_id : String
  pub research_state_version : String
  pub feature_version : String
  pub asset_id : String
  pub research_as_of : Instant
  pub macro_state : Section
  pub sector_state : Section
  pub lineage : ResearchStateLineage

pub record ResearchEpisodeBuildInput : Type 0 where
  pub research_state : ResearchState
  pub agent_traces : List AgentExecutionTrace
  pub sector_usage : List SectorContextUsageDiagnostic
  pub report_id : Option String
  pub created_at : Instant
  pub source_artifact_ids : List String
  pub missing_metadata : List String

pub record ResearchEpisode : Type 0 where
  pub episode_id : String
  pub asset_id : String
  pub market : String
  pub research_as_of : Instant
  pub research_state_id : String
  pub data_snapshot_id : String
  pub sector_context_id : Option String
  pub memory_context_id : Option String
  pub agent_run_ids : List String
  pub provided_claim_ids : List String
  pub accepted_claim_ids : List String
  pub rejected_claim_ids : List String
  pub accepted_claim_count : ℕ
  pub rejected_claim_count : ℕ
  pub sector_claim_ids : List String
  pub bull_claim_ids : List String
  pub bear_claim_ids : List String
  pub risk_claim_ids : List String
  pub final_research_claim_ids : List String
  pub report_id : Option String
  pub model_versions : List ResearchEpisodeVersionReference
  pub prompt_versions : List ResearchEpisodeVersionReference
  pub feature_versions : List ResearchEpisodeVersionReference
  pub agent_traces : List AgentExecutionTrace
  pub sector_usage : List SectorContextUsageDiagnostic
  pub trace_quality : ResearchEpisodeTraceQuality
  pub missing_metadata : List String
  pub source_artifact_ids : List String
  pub created_at : Instant
  pub input_fingerprint : String

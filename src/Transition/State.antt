-- ===== src/Transition/State.antt =====
-- Frozen research states (schemas/research_state.py) and the inputs of the transition builder
-- (schemas/research_state_transition.py), with the fields that the builder reads. Datetimes of these
-- schemas are in UTC.
use deepinsight.Prelude.{
  ℕ, String, Bool, true, false, Option, none, some, List, [], ◌∷◌, ◌==◌, same_text,
}
use deepinsight.Temporal.DateTime.{Instant}

-- `JsonScalar` without None. A number stands as the code of its value, under an enumeration of the
-- numbers that gives 0 and 1 the codes 0 and 1: the builder asks only whether two values are equal. NaN,
-- which differs from itself, has no code.
pub data Scalar : Type 0 where
  text : String → Scalar
  flag : Bool → Scalar
  number : ℕ → Scalar

abbrev code_of : Bool → ℕ
code_of false = 0
code_of true = 1

-- `==` of Python, for which True is 1 and False is 0.
abbrev same_scalar : Scalar → Scalar → Bool
same_scalar (text a) (text b) = same_text a b
same_scalar (flag a) (flag b) = code_of a == code_of b
same_scalar (flag a) (number b) = code_of a == b
same_scalar (number a) (flag b) = a == code_of b
same_scalar (number a) (number b) = a == b
same_scalar _ _ = false

unfoldable pub same_value : Option Scalar → Option Scalar → Bool
same_value none none = true
same_value (some a) (some b) = same_scalar a b
same_value _ _ = false

pub data FeatureType : Type 0 where
  deterministic_numeric normalized_research_state semantic_categorical : FeatureType

abbrev pub same_type : FeatureType → FeatureType → Bool
same_type deterministic_numeric deterministic_numeric = true
same_type normalized_research_state normalized_research_state = true
same_type semantic_categorical semantic_categorical = true
same_type _ _ = false

pub record Feature : Type 0 where
  pub feature_name : String
  pub value : Option Scalar
  pub feature_type : FeatureType
  pub as_of : Instant
  pub available_at : Option Instant
  pub source_claim_ids : List String
  pub source_evidence_ids : List String
  pub source_artifact_ids : List String
  pub feature_version : String
  pub transform_name : Option String
  pub transform_version : Option String
  pub missing_reason : Option String

pub data SectionStatus : Type 0 where
  present partial missing not_available_at_source_run : SectionStatus

pub data SectionName : Type 0 where
  identity macro_state sector_state industry_chain_state fundamental_state : SectionName
  valuation_state technical_state sentiment_state event_state market_context_state : SectionName
  debate_state risk_state thesis_state data_quality_state memory_context_state : SectionName

-- The members of the enum, in order.
abbrev pub section_names : List SectionName
section_names =
    identity ∷ macro_state ∷ sector_state ∷ industry_chain_state ∷ fundamental_state
    ∷ valuation_state ∷ technical_state ∷ sentiment_state ∷ event_state ∷ market_context_state
    ∷ debate_state ∷ risk_state ∷ thesis_state ∷ data_quality_state ∷ memory_context_state ∷ []

unfoldable pub section_text : SectionName → String
section_text identity = "identity"
section_text macro_state = "macro_state"
section_text sector_state = "sector_state"
section_text industry_chain_state = "industry_chain_state"
section_text fundamental_state = "fundamental_state"
section_text valuation_state = "valuation_state"
section_text technical_state = "technical_state"
section_text sentiment_state = "sentiment_state"
section_text event_state = "event_state"
section_text market_context_state = "market_context_state"
section_text debate_state = "debate_state"
section_text risk_state = "risk_state"
section_text thesis_state = "thesis_state"
section_text data_quality_state = "data_quality_state"
section_text memory_context_state = "memory_context_state"

pub record Section : Type 0 where
  pub section_name : SectionName
  pub status : SectionStatus
  pub features : List Feature
  pub missing_reason : Option String

-- `getattr(state, name.value)` is `state.section name`.
pub record ResearchStateSnapshot : Type 0 where
  pub research_state_id : String
  pub asset_id : String
  pub research_as_of : Instant
  pub section : SectionName → Section

pub record ResearchEpisode : Type 0 where
  pub episode_id : String
  pub asset_id : String
  pub research_as_of : Instant
  pub research_state_id : String
  pub created_at : Instant

pub data TimingEventKind : Type 0 where
  event catalyst : TimingEventKind

pub record TimingEventReference : Type 0 where
  pub event_id : String
  pub kind : TimingEventKind
  pub event_time : Instant
  pub available_at : Instant
  pub source_claim_ids : List String
  pub source_evidence_ids : List String
  pub outcome_disposition : Option String
  pub outcome_available_at : Option Instant

-- The metadata of a memory: the availability of its temporal part, and its claims.
pub record MemoryMetadata : Type 0 where
  pub temporal_available_at : Option Instant
  pub source_claim_ids : List String

-- `effective_ts` has a time zone: without one, the builder's check would raise a ValueError.
pub record MemorySearchResult : Type 0 where
  pub memory_id : String
  pub effective_ts : Instant
  pub available_at : Option Instant
  pub metadata : Option MemoryMetadata

pub record TimingSatelliteBuildInput : Type 0 where
  pub current_state : ResearchStateSnapshot
  pub historical_states : List ResearchStateSnapshot
  pub current_episode : Option ResearchEpisode
  pub historical_episodes : List ResearchEpisode
  pub events : List TimingEventReference
  pub retrieved_memories : List MemorySearchResult
  pub available_at : Instant
  pub created_at : Instant

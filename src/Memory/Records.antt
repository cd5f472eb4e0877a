-- ===== src/Memory/Records.antt =====
-- The request, the stored memories and the items of a bundle, with the fields that the retrieval reads.
-- Markets, asset identifiers and usage classes are texts. A score is a number in the order of the
-- scores, since the retrieval only compares them.
use deepinsight.Prelude.{ℕ, String, Bool, Option, none, some, List}
use deepinsight.Temporal.DateTime.{DateTime, Instant, Date}
use deepinsight.Temporal.Metadata.{TemporalMetadata}
use deepinsight.Ontology.Records.{ResearchScopeType}
use deepinsight.Temporal.Stored

pub data MemoryLevel : Type 0 where
  l0 l1 l2 l3 l4 : MemoryLevel

pub data ResearchContextSection : Type 0 where
  current_snapshot macro_events asset_events : ResearchContextSection
  prior_research prior_risk historical_analogs regime_context : ResearchContextSection

pub record LearningMemoryMetadata : Type 0 where
  pub scope_type : ResearchScopeType
  pub scope_id : String
  pub usage_class : String
  pub episode_id : Option String
  pub temporal : TemporalMetadata

pub record MemoryItemRecord : Type 0 where
  pub memory_id : String
  pub memory_level : MemoryLevel
  pub namespace_key : String
  pub asset_id : Option String
  pub effective_ts : DateTime
  pub memory_type : String
  pub importance_score : ℕ
  pub source_ref : Option String
  pub created_at : Option DateTime
  pub expires_at : Option DateTime
  pub metadata : Option LearningMemoryMetadata

abbrev pub temporal_of : Option LearningMemoryMetadata → Option TemporalMetadata
temporal_of none = none
temporal_of (some m) = some m.temporal

-- What the temporal mapping reads of it.
abbrev pub times : MemoryItemRecord → Stored.MemoryItemRecord
times r = record {
  effective_ts = r.effective_ts;
  created_at = r.created_at;
  expires_at = r.expires_at;
  temporal = temporal_of r.metadata;
}

pub record ResearchContextRequest : Type 0 where
  pub as_of : DateTime
  pub market : String
  pub namespace_keys : List String
  pub asset_id : Option String
  pub memory_levels : List MemoryLevel
  pub top_k_per_section : ℕ
  pub min_importance_score : ℕ
  pub include_prior_reports : Bool
  pub current_report_id : Option String
  pub scope_ids : Option (List String)
  pub scope_types : Option (List ResearchScopeType)
  pub usage_classes : Option (List String)
  pub episode_ids : Option (List String)

-- `memory_id` is what the vector's metadata holds under that key.
pub record VectorSearchCandidate : Type 0 where
  pub namespace : String
  pub vector_id : ℕ
  pub score : ℕ
  pub memory_id : Option String

pub record ResearchContextMemory : Type 0 where
  pub memory_id : String
  pub section : ResearchContextSection
  pub memory_level : MemoryLevel
  pub namespace_key : String
  pub asset_id : Option String
  pub market : String
  pub effective_ts : Instant
  pub available_at : Instant
  pub importance_score : ℕ
  pub retrieval_score : ℕ
  pub source : String
  pub metadata : Option LearningMemoryMetadata

-- The repositories: the similarity search, `none` when it or the embedding fails; the length of the
-- query's vector, and that which the embedder declares; and the record under a vector, in which the
-- outer `none` is a RepositoryError.
pub record Backend : Type 0 where
  pub search : Option (List VectorSearchCandidate)
  pub query_length : ℕ
  pub dimension : ℕ
  -- The end of a New York session, which the temporal mapping of other records reads.
  pub session_end : Date → Instant
  pub get_by_vector : String → ℕ → Option (Option MemoryItemRecord)

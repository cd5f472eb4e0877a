-- ===== src/Temporal/Stored.antt =====
-- The stored records that temporal_mapping.py maps, with the fields that it reads. A stored datetime may
-- be naive; those of validated schemas are in UTC.
use deepinsight.Prelude.{String, Option}
use deepinsight.Temporal.DateTime.{DateTime, Instant, Date}
use deepinsight.Temporal.Metadata.{TemporalMetadata}

pub record EodBarRecord : Type 0 where
  pub trade_date : Date
  pub ingestion_ts : DateTime

pub record FundamentalRecord : Type 0 where
  pub source_id : String
  pub fiscal_period_end : Date
  pub accepted_at : Option DateTime
  pub filing_date : Option Date
  pub ingestion_ts : DateTime

pub record MacroObservationRecord : Type 0 where
  pub observation_date : Date
  pub realtime_start : Option Date
  pub ingestion_ts : DateTime

-- The times of a news item, and of a sentiment evidence item.
pub record PublishedRecord : Type 0 where
  pub created_at : DateTime
  pub ingestion_ts : DateTime

pub record SentimentSnapshotRecord : Type 0 where
  pub source_timestamp : DateTime
  pub ingestion_ts : DateTime
  pub as_of : DateTime

pub record TextDocumentRecord : Type 0 where
  pub source_id : String
  pub publish_ts : Option DateTime
  pub created_at : DateTime

pub record ResearchEvidenceItem : Type 0 where
  pub effective_at : Instant
  pub observed_at : Instant

pub record SectorMembership : Type 0 where
  pub valid_from : Date
  pub valid_to : Option Date

pub record SectorAnomalyEvent : Type 0 where
  pub event_time : DateTime
  pub published_at : DateTime
  pub available_at : DateTime
  pub ingested_at : DateTime
  pub as_of : DateTime

-- The times of a memory, and those of its metadata's temporal part.
pub record MemoryItemRecord : Type 0 where
  pub effective_ts : DateTime
  pub created_at : Option DateTime
  pub expires_at : Option DateTime
  pub temporal : Option TemporalMetadata

pub record ResearchContextMemory : Type 0 where
  pub effective_ts : Instant
  pub available_at : Option Instant
  pub temporal : Option TemporalMetadata

pub data StoredRecord : Type 0 where
  eod_bar : EodBarRecord → StoredRecord
  fundamental : FundamentalRecord → StoredRecord
  macro_observation : MacroObservationRecord → StoredRecord
  news_evidence : PublishedRecord → StoredRecord
  corporate_event : (event_date : DateTime) → StoredRecord
  sentiment_snapshot : SentimentSnapshotRecord → StoredRecord
  sentiment_evidence : PublishedRecord → StoredRecord
  text_document : TextDocumentRecord → StoredRecord
  evidence_item : ResearchEvidenceItem → StoredRecord
  membership : SectorMembership → StoredRecord
  anomaly_event : SectorAnomalyEvent → StoredRecord
  research_output : (research_as_of : DateTime) → StoredRecord
  memory_item : MemoryItemRecord → StoredRecord
  context_memory : ResearchContextMemory → StoredRecord
  context_bundle : (as_of : Instant) → StoredRecord
  unsupported : StoredRecord

-- ===== src/Temporal/Mapping.antt =====
-- `temporal_metadata_for` of temporal_mapping.py: the metadata of stored records. A stored datetime is
-- read by `utc_from_storage`; those of validated schemas are in UTC. The end of the New York session of
-- a date, from the time zone database, is a parameter.
use deepinsight.Prelude.{◌/◌, Option, none, some, max, ltb, same_text, if◌then◌else◌}
use deepinsight.Temporal.DateTime.{
  DateTime, Instant, Date, day_length, start_of_day, ValueFault, Checked, passed, value_error,
  overflow_error, ◌>>=◌, utc_from_storage, require_utc_aware,
}
use deepinsight.Temporal.Metadata.{
  Bound, at, on, TemporalMetadata, TemporalSourceKind, generic, sec_filing, fmp_fundamental,
  alpaca_daily_bar, alpaca_news, fred_vintage, sector_membership, sector_anomaly,
  sector_research_claim, memory, research_context, research_evidence, validate_order,
}
use deepinsight.Temporal.Stored.{
  EodBarRecord, FundamentalRecord, MacroObservationRecord, PublishedRecord, SentimentSnapshotRecord,
  TextDocumentRecord, SectorAnomalyEvent, MemoryItemRecord, ResearchContextMemory, StoredRecord,
  eod_bar, fundamental, macro_observation, news_evidence, corporate_event, sentiment_snapshot,
  sentiment_evidence, text_document, evidence_item, membership, anomaly_event, research_output,
  memory_item, context_memory, context_bundle, unsupported,
}

-- The mapping returns, or raises its own error, or one of the constructor and the reading.
pub data Mapped : Type 0 where
  mapped : TemporalMetadata → Mapped
  mapping_error : Mapped
  refused : ValueFault → Mapped
  overflowed : Mapped

abbrev pub reading {ℓ} : {A : Type ℓ} → Checked A → (A → Mapped) → Mapped
reading (passed a) f = f a
reading (value_error e) f = refused e
reading overflow_error f = overflowed

abbrev blank : TemporalSourceKind → TemporalMetadata
blank kind = record {
  source_kind = kind;
  event_time = none;
  period_start = none;
  period_end = none;
  published_at = none;
  available_at = none;
  ingested_at = none;
  effective_from = none;
  effective_to = none;
  as_of = none;
}

-- `TemporalMetadata(...)` of datetimes that are in UTC.
unfoldable pub construct : TemporalMetadata → Mapped
construct m = reading (validate_order m) mapped

-- `value or default` of a datetime.
abbrev pub or_else : Option Instant → Instant → Instant
or_else none t = t
or_else (some u) t = u

abbrev pub optional_from_storage : Option DateTime → Checked (Option Instant)
optional_from_storage none = passed none
optional_from_storage (some d) = do t ← utc_from_storage d; passed (some t)

abbrev pub first_instant : Option Date → Option Instant
first_instant none = none
first_instant (some d) = some (start_of_day d)

unfoldable pub filing_publication : FundamentalRecord → Checked (Option Instant)
filing_publication r = elim r.accepted_at [
  | some d ↦ do t ← utc_from_storage d; passed (some t)
  | none ↦ passed (first_instant r.filing_date)
]

-- A field of the temporal part of a memory's metadata.
abbrev pub structured :
    {A : Type 0} → Option TemporalMetadata → (TemporalMetadata → Option A) → Option A
structured none f = none
structured (some m) f = f m

abbrev pub max_with : Instant → Option Instant → Instant
max_with t none = t
max_with t (some u) = max t u

abbrev pub bound_or : Option (Bound Instant) → Instant → Bound Instant
bound_or none t = at t
bound_or (some b) t = b

-- The expiry, or the end of the effect where there is none.
abbrev pub ending : Option Instant → Option (Bound Instant) → Option (Bound Instant)
ending none end = end
ending (some t) end = some (at t)

-- The branches of the mapping.
abbrev pub bar_metadata : (session_end : Date → Instant) → EodBarRecord → Instant → TemporalMetadata
bar_metadata session_end r ingested_at = record (blank alpaca_daily_bar) {
  period_start = some r.trade_date;
  period_end = some r.trade_date;
  available_at = some (session_end r.trade_date);
  ingested_at = some ingested_at;
}

unfoldable pub map_bar : (session_end : Date → Instant) → EodBarRecord → Mapped
map_bar session_end r = reading (utc_from_storage r.ingestion_ts) (λ ingested_at.
    if ltb (ingested_at / day_length) r.trade_date
    then mapping_error
    else construct (bar_metadata session_end r ingested_at))

unfoldable pub map_fundamental : FundamentalRecord → Mapped
map_fundamental r = reading (utc_from_storage r.ingestion_ts) (λ ingested_at.
    reading (filing_publication r) (λ published_at.
      construct
        (record (blank (
          if same_text r.source_id "financial_modeling_prep"
          then fmp_fundamental
          else sec_filing)) {
            period_end = some r.fiscal_period_end;
            published_at = published_at;
            available_at = some (or_else published_at ingested_at);
            ingested_at = some ingested_at;
          })))

unfoldable pub map_macro : MacroObservationRecord → Mapped
map_macro r = reading (utc_from_storage r.ingestion_ts) (λ ingested_at.
    construct (record (blank fred_vintage) {
      period_end = some r.observation_date;
      published_at = first_instant r.realtime_start;
      available_at = some (or_else (first_instant r.realtime_start) ingested_at);
      ingested_at = some ingested_at;
    }))

unfoldable pub map_published : TemporalSourceKind → PublishedRecord → Mapped
map_published kind r = reading (utc_from_storage r.created_at) (λ published_at.
    reading (utc_from_storage r.ingestion_ts) (λ ingested_at. construct (record (blank kind) {
      event_time = some published_at;
      published_at = some published_at;
      available_at = some published_at;
      ingested_at = some ingested_at;
    })))

unfoldable pub map_snapshot : SentimentSnapshotRecord → Mapped
map_snapshot r = reading (utc_from_storage r.source_timestamp) (λ event_time.
    reading (utc_from_storage r.ingestion_ts) (λ ingested_at.
      reading (utc_from_storage r.as_of) (λ as_of. construct (record (blank generic) {
        event_time = some event_time;
        published_at = some event_time;
        available_at = some event_time;
        ingested_at = some ingested_at;
        as_of = some as_of;
      }))))

unfoldable pub map_document : TextDocumentRecord → Mapped
map_document r = reading (optional_from_storage r.publish_ts) (λ published_at.
    reading (utc_from_storage r.created_at) (λ ingested_at.
      construct
        (record (blank (if same_text r.source_id "sec_edgar" then sec_filing else generic)) {
          published_at = published_at;
          available_at = some (or_else published_at ingested_at);
          ingested_at = some ingested_at;
        })))

-- The constructor reads the aware datetimes of an anomaly in the order of its own fields.
unfoldable pub map_anomaly : SectorAnomalyEvent → Mapped
map_anomaly r = reading (require_utc_aware r.event_time) (λ event_time.
    reading (require_utc_aware r.published_at) (λ published_at.
      reading (require_utc_aware r.available_at) (λ available_at.
        reading (require_utc_aware r.ingested_at) (λ ingested_at.
          reading (require_utc_aware r.as_of) (λ as_of. construct (record (blank sector_anomaly) {
            event_time = some event_time;
            published_at = some published_at;
            available_at = some available_at;
            ingested_at = some ingested_at;
            as_of = some as_of;
          }))))))

unfoldable pub map_memory : MemoryItemRecord → Mapped
map_memory r = reading (utc_from_storage r.effective_ts) (λ effective_at.
    reading (optional_from_storage r.created_at) (λ created.
      reading (optional_from_storage r.expires_at) (λ expires_at.
        let created_at = or_else created effective_at in
        construct (record {
          source_kind = memory;
          event_time = some (or_else (structured r.temporal (λ m. m.event_time)) effective_at);
          period_start = structured r.temporal (λ m. m.period_start);
          period_end = structured r.temporal (λ m. m.period_end);
          published_at = structured r.temporal (λ m. m.published_at);
          available_at = some (
              max_with (max effective_at created_at) (structured r.temporal (λ m. m.available_at)));
          ingested_at = some (max_with created_at (structured r.temporal (λ m. m.ingested_at)));
          effective_from =
              some (bound_or (structured r.temporal (λ m. m.effective_from)) effective_at);
          effective_to = ending expires_at (structured r.temporal (λ m. m.effective_to));
          as_of = none;
        }))))

unfoldable pub map_context : ResearchContextMemory → Mapped
map_context r = construct (record {
  source_kind = memory;
  event_time = some r.effective_ts;
  period_start = structured r.temporal (λ m. m.period_start);
  period_end = structured r.temporal (λ m. m.period_end);
  published_at = structured r.temporal (λ m. m.published_at);
  available_at = some (
      max_with (or_else r.available_at r.effective_ts)
        (structured r.temporal (λ m. m.available_at)));
  ingested_at = structured r.temporal (λ m. m.ingested_at);
  effective_from = some (at r.effective_ts);
  effective_to = structured r.temporal (λ m. m.effective_to);
  as_of = none;
})

abbrev pub optional_day : Option Date → Option (Bound Instant)
optional_day none = none
optional_day (some d) = some (on d)

unfoldable pub temporal_metadata_for : (session_end : Date → Instant) → StoredRecord → Mapped
temporal_metadata_for session_end (eod_bar r) = map_bar session_end r
temporal_metadata_for session_end (fundamental r) = map_fundamental r
temporal_metadata_for session_end (macro_observation r) = map_macro r
temporal_metadata_for session_end (news_evidence r) = map_published alpaca_news r
temporal_metadata_for session_end (corporate_event d) =
    reading (utc_from_storage d)
      (λ t. construct (record (blank generic) { event_time = some t; available_at = some t }))
temporal_metadata_for session_end (sentiment_snapshot r) = map_snapshot r
temporal_metadata_for session_end (sentiment_evidence r) = map_published generic r
temporal_metadata_for session_end (text_document r) = map_document r
temporal_metadata_for session_end (evidence_item r) = construct (record (blank research_evidence) {
  event_time = some r.effective_at;
  available_at = some r.observed_at;
})
temporal_metadata_for session_end (membership r) = construct (record (blank sector_membership) {
  effective_from = some (on r.valid_from);
  effective_to = optional_day r.valid_to;
})
temporal_metadata_for session_end (anomaly_event r) = map_anomaly r
temporal_metadata_for session_end (research_output d) = reading (require_utc_aware d) (λ t.
    construct (record (blank sector_research_claim) { available_at = some t; as_of = some t }))
temporal_metadata_for session_end (memory_item r) = map_memory r
temporal_metadata_for session_end (context_memory r) = map_context r
temporal_metadata_for session_end (context_bundle t) =
    construct (record (blank research_context) { available_at = some t; as_of = some t })
temporal_metadata_for session_end unsupported = mapping_error

-- The claim itself is not read.
unfoldable pub sector_claim_temporal_metadata : (research_as_of : DateTime) → Mapped
sector_claim_temporal_metadata research_as_of = reading (utc_from_storage research_as_of) (λ cutoff.
    construct
      (record (blank sector_research_claim) { available_at = some cutoff; as_of = some cutoff }))

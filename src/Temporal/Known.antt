-- ===== src/Temporal/Known.antt =====
-- What the stored records themselves say of when they were known.
use deepinsight.Prelude.{◌≤◌, ◌<◌, ◌≡◌, Option, none, some}
use deepinsight.Temporal.DateTime.{
  DateTime, Instant, Date, start_of_day, passed, utc_from_storage, require_utc_aware,
}
use deepinsight.Temporal.Metadata.{Bound}
use deepinsight.Temporal.Visibility.{AtMost, StartedBy, EndsAfter}
use deepinsight.Temporal.Stored.{
  StoredRecord, eod_bar, fundamental, macro_observation, news_evidence, corporate_event,
  sentiment_snapshot, sentiment_evidence, text_document, evidence_item, membership, anomaly_event,
  research_output, memory_item, context_memory, context_bundle, unsupported,
}
use deepinsight.Temporal.Mapping.{or_else, first_instant, structured}

-- The stored datetime, read in UTC, is at or before the cutoff.
pub record ReadBy (d : DateTime) (c : Instant) : Type 0 where
  pub time : Instant
  pub reads : utc_from_storage d ≡ passed time
  pub known : time ≤ c

-- The aware datetime is at or before the cutoff.
pub record AwareBy (d : DateTime) (c : Instant) : Type 0 where
  pub time : Instant
  pub reads : require_utc_aware d ≡ passed time
  pub known : time ≤ c

abbrev pub OptionalBy : Option DateTime → Instant → Type 0
OptionalBy none c = Unit
OptionalBy (some d) c = ReadBy d c

abbrev pub FiledBy : Option DateTime → Option Date → Instant → Type 0
FiledBy (some d) filing c = ReadBy d c
FiledBy none none c = Unit
FiledBy none (some d) c = start_of_day d ≤ c

-- The day, where one is given, has not begun.
abbrev pub BeforeDay : Instant → Option Date → Type 0
BeforeDay c none = Unit
BeforeDay c (some d) = c < start_of_day d

-- An expiry takes the place of the end of the effect.
abbrev pub NotExpired : Option DateTime → Option (Bound Instant) → Instant → Type 0
NotExpired none end c = EndsAfter end c
NotExpired (some d) end c = ¬ ReadBy d c

-- The record was known, and holds, at the cutoff.
abbrev pub KnownBy : (session_end : Date → Instant) → StoredRecord → Instant → Type 0
KnownBy session_end (eod_bar r) c = (session_end r.trade_date ≤ c) × ReadBy r.ingestion_ts c
KnownBy session_end (fundamental r) c =
    FiledBy r.accepted_at r.filing_date c × ReadBy r.ingestion_ts c
KnownBy session_end (macro_observation r) c =
    AtMost (first_instant r.realtime_start) c × ReadBy r.ingestion_ts c
KnownBy session_end (news_evidence r) c = ReadBy r.created_at c × ReadBy r.ingestion_ts c
KnownBy session_end (corporate_event d) c = ReadBy d c
KnownBy session_end (sentiment_snapshot r) c =
    ReadBy r.source_timestamp c × ReadBy r.ingestion_ts c × ReadBy r.as_of c
KnownBy session_end (sentiment_evidence r) c = ReadBy r.created_at c × ReadBy r.ingestion_ts c
KnownBy session_end (text_document r) c = OptionalBy r.publish_ts c × ReadBy r.created_at c
KnownBy session_end (evidence_item r) c = r.observed_at ≤ c
KnownBy session_end (membership r) c = (start_of_day r.valid_from ≤ c) × BeforeDay c r.valid_to
KnownBy session_end (anomaly_event r) c =
    AwareBy r.available_at c × AwareBy r.ingested_at c × AwareBy r.as_of c
KnownBy session_end (research_output d) c = AwareBy d c
KnownBy session_end (memory_item r) c =
    ReadBy r.effective_ts c
    × OptionalBy r.created_at c
    × AtMost (structured r.temporal (λ m. m.available_at)) c
    × AtMost (structured r.temporal (λ m. m.ingested_at)) c
    × StartedBy (structured r.temporal (λ m. m.effective_from)) c
    × NotExpired r.expires_at (structured r.temporal (λ m. m.effective_to)) c
KnownBy session_end (context_memory r) c =
    (or_else r.available_at r.effective_ts ≤ c)
    × (r.effective_ts ≤ c)
    × AtMost (structured r.temporal (λ m. m.available_at)) c
    × AtMost (structured r.temporal (λ m. m.ingested_at)) c
    × EndsAfter (structured r.temporal (λ m. m.effective_to)) c
KnownBy session_end (context_bundle t) c = t ≤ c
KnownBy session_end unsupported c = ⊥

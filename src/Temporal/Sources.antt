-- ===== src/Temporal/Sources.antt =====
-- When a replay may use a stored record that temporal_mapping.py maps.
use deepinsight.Prelude.{◌/◌, ◌≡◌, ◌↔◌, inl, inr, true, arith, ltb}
use deepinsight.Temporal.DateTime.{Instant, Date, day_length, utc_from_storage, require_utc_aware}
use deepinsight.Temporal.Metadata.{TemporalMetadata, TemporalSourceKind}
use deepinsight.Temporal.Access.{historical_replay, decide_at}
use deepinsight.Temporal.Visibility.{EndsAfter}
use deepinsight.Temporal.Stored.{
  EodBarRecord, FundamentalRecord, MacroObservationRecord, PublishedRecord, SentimentSnapshotRecord,
  TextDocumentRecord, SectorAnomalyEvent, MemoryItemRecord, ResearchContextMemory, StoredRecord,
  eod_bar, fundamental, macro_observation, news_evidence, corporate_event, sentiment_snapshot,
  sentiment_evidence, text_document, evidence_item, membership, anomaly_event, research_output,
  memory_item, context_memory, context_bundle, unsupported,
}
use deepinsight.Temporal.Mapping.{
  mapped, construct, optional_from_storage, filing_publication, structured, ending, bar_metadata,
  map_bar, map_fundamental, map_macro, map_published, map_snapshot, map_document, map_anomaly,
  map_memory, map_context, temporal_metadata_for,
}
use deepinsight.Temporal.Known.{ReadBy, KnownBy}
use deepinsight.Temporal.Readings.{
  IsUsable, read_iff, aware_iff, reading-eq-mapped, exact, if_mapped, optional_iff, filing_iff,
  expiry_iff, ends_iff, memory_iff,
}

module _ (session_end : Date → Instant) (m : TemporalMetadata) (c : Instant) where
  bar_exact :
      (r : EodBarRecord)
      → map_bar session_end r ≡ mapped m
      → IsUsable m c ↔ KnownBy session_end (eod_bar r) c
  unfolding map_bar
  bar_exact r h =
      let (t, e, k) = reading-eq-mapped (utc_from_storage r.ingestion_ts) _ m h in
      exact (bar_metadata session_end r t) m c
        (if_mapped (ltb (t / day_length) r.trade_date) (construct (bar_metadata session_end r t)) m
          k)
        (inl (λ x. cc x)) (ground (arith, read_iff r.ingestion_ts t c e))

  fundamental_exact :
      (r : FundamentalRecord)
      → map_fundamental r ≡ mapped m
      → IsUsable m c ↔ KnownBy session_end (fundamental r) c
  unfolding map_fundamental
  fundamental_exact r h =
      let (t, e, k) = reading-eq-mapped (utc_from_storage r.ingestion_ts) _ m h in
      let (o, e', k') = reading-eq-mapped (filing_publication r) _ m k in
      exact _ m c k' (inl (λ x. cc x))
        (ground (arith, read_iff r.ingestion_ts t c e, filing_iff r o c e'))

  macro_exact :
      (r : MacroObservationRecord)
      → map_macro r ≡ mapped m
      → IsUsable m c ↔ KnownBy session_end (macro_observation r) c
  unfolding map_macro
  macro_exact r h =
      let (t, e, k) = reading-eq-mapped (utc_from_storage r.ingestion_ts) _ m h in
      exact _ m c k (inl (λ x. cc x)) (ground (arith, read_iff r.ingestion_ts t c e))

  published_exact :
      (kind : TemporalSourceKind) (r : PublishedRecord)
      → map_published kind r ≡ mapped m
      → IsUsable m c ↔ (ReadBy r.created_at c × ReadBy r.ingestion_ts c)
  unfolding map_published
  published_exact kind r h =
      let (t, e, k) = reading-eq-mapped (utc_from_storage r.created_at) _ m h in
      let (u, e', k') = reading-eq-mapped (utc_from_storage r.ingestion_ts) _ m k in
      exact _ m c k' (inl (λ x. cc x))
        (ground (arith, read_iff r.created_at t c e, read_iff r.ingestion_ts u c e'))

  snapshot_exact :
      (r : SentimentSnapshotRecord)
      → map_snapshot r ≡ mapped m
      → IsUsable m c ↔ KnownBy session_end (sentiment_snapshot r) c
  unfolding map_snapshot
  snapshot_exact r h =
      let (t, e, k) = reading-eq-mapped (utc_from_storage r.source_timestamp) _ m h in
      let (u, e', k') = reading-eq-mapped (utc_from_storage r.ingestion_ts) _ m k in
      let (v, e'', k'') = reading-eq-mapped (utc_from_storage r.as_of) _ m k' in
      exact _ m c k'' (inl (λ x. cc x)) (
        ground (
          arith,
          read_iff r.source_timestamp t c e,
          read_iff r.ingestion_ts u c e',
          read_iff r.as_of v c e'',
        ))

  document_exact :
      (r : TextDocumentRecord)
      → map_document r ≡ mapped m
      → IsUsable m c ↔ KnownBy session_end (text_document r) c
  unfolding map_document
  document_exact r h =
      let (o, e, k) = reading-eq-mapped (optional_from_storage r.publish_ts) _ m h in
      let (t, e', k') = reading-eq-mapped (utc_from_storage r.created_at) _ m k in
      exact _ m c k' (inl (λ x. cc x))
        (ground (arith, optional_iff r.publish_ts o c e, read_iff r.created_at t c e'))

  anomaly_exact :
      (r : SectorAnomalyEvent)
      → map_anomaly r ≡ mapped m
      → IsUsable m c ↔ KnownBy session_end (anomaly_event r) c
  unfolding map_anomaly
  anomaly_exact r h =
      let (t1, e1, k1) = reading-eq-mapped (require_utc_aware r.event_time) _ m h in
      let (t2, e2, k2) = reading-eq-mapped (require_utc_aware r.published_at) _ m k1 in
      let (t3, e3, k3) = reading-eq-mapped (require_utc_aware r.available_at) _ m k2 in
      let (t4, e4, k4) = reading-eq-mapped (require_utc_aware r.ingested_at) _ m k3 in
      let (t5, e5, k5) = reading-eq-mapped (require_utc_aware r.as_of) _ m k4 in
      exact _ m c k5 (inl (λ x. cc x)) (
        ground (
          arith,
          aware_iff r.available_at t3 c e3,
          aware_iff r.ingested_at t4 c e4,
          aware_iff r.as_of t5 c e5,
        ))

  memory_exact :
      (r : MemoryItemRecord)
      → map_memory r ≡ mapped m
      → IsUsable m c ↔ KnownBy session_end (memory_item r) c
  unfolding map_memory
  memory_exact r h =
      let (t, e, k) = reading-eq-mapped (utc_from_storage r.effective_ts) _ m h in
      let (o, e', k') = reading-eq-mapped (optional_from_storage r.created_at) _ m k in
      let (x, e'', k'') = reading-eq-mapped (optional_from_storage r.expires_at) _ m k' in
      exact _ m c k'' (inl (λ y. cc y)) (
        ground (
          arith,
          memory_iff t c o (structured r.temporal (λ y. y.available_at))
              (structured r.temporal (λ y. y.ingested_at))
              (structured r.temporal (λ y. y.effective_from))
              (EndsAfter (ending x (structured r.temporal (λ y. y.effective_to))) c),
          read_iff r.effective_ts t c e,
          optional_iff r.created_at o c e',
          expiry_iff r.expires_at x (structured r.temporal (λ y. y.effective_to)) c e'',
        ))

  context_exact :
      (r : ResearchContextMemory)
      → map_context r ≡ mapped m
      → IsUsable m c ↔ KnownBy session_end (context_memory r) c
  unfolding map_context
  context_exact r h = exact _ m c h (inl (λ x. cc x)) (ground arith)

-- For each supported kind of stored record that is mapped, whatever the ends of the sessions are,
-- a historical replay may use it at a cutoff exactly when the record's own times, read in UTC, say
-- so: publication or filing, ingestion, observation, snapshot or creation at or before the cutoff,
-- and, for memberships and memories, begun and neither ended nor expired.
pub temporal_metadata_for-KnownBy :
    (session_end : Date → Instant) (r : StoredRecord) (m : TemporalMetadata) (c : Instant)
    → temporal_metadata_for session_end r ≡ mapped m
    → ((decide_at m c true historical_replay).is_usable ≡ true) ↔ KnownBy session_end r c
unfolding temporal_metadata_for
temporal_metadata_for-KnownBy s (eod_bar r) m c h = bar_exact s m c r h
temporal_metadata_for-KnownBy s (fundamental r) m c h = fundamental_exact s m c r h
temporal_metadata_for-KnownBy s (macro_observation r) m c h = macro_exact s m c r h
temporal_metadata_for-KnownBy s (news_evidence r) m c h = published_exact s m c _ r h
temporal_metadata_for-KnownBy s (corporate_event d) m c h =
    let (t, e, k) = reading-eq-mapped (utc_from_storage d) _ m h in
    exact _ m c k (inl (λ x. cc x)) (ground (arith, read_iff d t c e))
temporal_metadata_for-KnownBy s (sentiment_snapshot r) m c h = snapshot_exact s m c r h
temporal_metadata_for-KnownBy s (sentiment_evidence r) m c h = published_exact s m c _ r h
temporal_metadata_for-KnownBy s (text_document r) m c h = document_exact s m c r h
temporal_metadata_for-KnownBy s (evidence_item r) m c h =
    exact _ m c h (inl (λ x. cc x)) (ground arith)
temporal_metadata_for-KnownBy s (membership r) m c h =
    exact _ m c h (inr (λ x. cc x)) (ground (arith, ends_iff r.valid_to c))
temporal_metadata_for-KnownBy s (anomaly_event r) m c h = anomaly_exact s m c r h
temporal_metadata_for-KnownBy s (research_output d) m c h =
    let (t, e, k) = reading-eq-mapped (require_utc_aware d) _ m h in
    exact _ m c k (inl (λ x. cc x)) (ground (arith, aware_iff d t c e))
temporal_metadata_for-KnownBy s (memory_item r) m c h = memory_exact s m c r h
temporal_metadata_for-KnownBy s (context_memory r) m c h = context_exact s m c r h
temporal_metadata_for-KnownBy s (context_bundle t) m c h =
    exact _ m c h (inl (λ x. cc x)) (ground arith)
temporal_metadata_for-KnownBy s unsupported m c h = cc

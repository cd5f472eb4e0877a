-- ===== src/Memory/Admission.antt =====
-- What an eligible memory satisfies.
use deepinsight.Prelude.{
  ℕ, ◌≤◌, ◌≡◌, refl, sym, ap, ◌∙◌, String, Bool, true, false, not, Option, none, some,
  if◌then◌else◌, ltb, arith,
}
use deepinsight.Temporal.DateTime.{Instant, utc_from_storage}
use deepinsight.Temporal.Metadata.{TemporalMetadata}
use deepinsight.Temporal.Access.{historical_replay, decide_at}
use deepinsight.Temporal.Stored.{memory_item}
use deepinsight.Temporal.Mapping.{
  Mapped, mapped, mapping_error, refused, overflowed, temporal_metadata_for,
}
use deepinsight.Temporal.Known.{KnownBy}
use deepinsight.Temporal.Sources.{temporal_metadata_for-KnownBy}
use deepinsight.Memory.Records.{
  MemoryItemRecord, times, ResearchContextRequest, VectorSearchCandidate, ResearchContextMemory,
  Backend,
}
use deepinsight.Memory.Matching.{
  is_current_report, matches_namespace, record_market, in_market, matches_asset,
  matches_learning_metadata, normalized_type, section_for,
}
use deepinsight.Memory.Screening.{
  Retrieval, retrieved, failed, ◌>>=◌, resolve_record, checked_time, checked_metadata, Exclusion,
  Screened, excluded, eligible, item, attributed, screen_record, screen,
}

-- The record of a candidate passes every filter at the cutoff, and the item is made from it.
pub record IsAdmitted (b : Backend) (request : ResearchContextRequest) (as_of : Instant)
    (candidate : VectorSearchCandidate) (m : ResearchContextMemory) : Type 0 where
  pub stored : MemoryItemRecord
  pub resolved : resolve_record b candidate request.memory_levels ≡ retrieved stored
  pub known : KnownBy b.session_end (memory_item (times stored)) as_of
  pub other_report : is_current_report stored request.current_report_id ≡ false
  pub namespace : matches_namespace stored request ≡ true
  pub market : in_market (record_market stored) request.market ≡ true
  pub asset : matches_asset stored request (record_market stored) ≡ true
  pub important : request.min_importance_score ≤ stored.importance_score
  pub learning : matches_learning_metadata stored request ≡ true
  pub identity : m.memory_id ≡ stored.memory_id
  pub section : m.section ≡ section_for stored.memory_level (normalized_type stored.memory_type)
  pub source : stored.source_ref ≡ some m.source
  pub score : m.retrieval_score ≡ candidate.score

pub bind-retrieved :
    {A B : Type 0} (x : Retrieval A) (f : A → Retrieval B) (v : B)
    → (x >>= f) ≡ retrieved v
    → (a : A) × (x ≡ retrieved a) × (f a ≡ retrieved v)
bind-retrieved (retrieved a) f v e = (a, refl, e)
bind-retrieved (failed error) f v e = cc

pub checked_metadata-retrieved :
    (x : Mapped) (metadata : TemporalMetadata)
    → checked_metadata x ≡ retrieved metadata
    → x ≡ mapped metadata
checked_metadata-retrieved (mapped a) metadata e = cc
checked_metadata-retrieved mapping_error metadata e = cc
checked_metadata-retrieved (refused fault) metadata e = cc
checked_metadata-retrieved overflowed metadata e = cc

-- An eligible item has passed a filter.
passed_filter :
    (failing : Bool) (key : Exclusion) (rest : Retrieval Screened) (m : ResearchContextMemory)
    → (if failing then retrieved (excluded key) else rest) ≡ retrieved (eligible m)
    → (failing ≡ false) × (rest ≡ retrieved (eligible m))
passed_filter true key rest m e = cc
passed_filter false key rest m e = (refl, e)

was_true : (b : Bool) → not b ≡ false → b ≡ true
was_true true e = refl
was_true false e = cc

attributed-item :
    (r : MemoryItemRecord) (score : ℕ) (effective_ts : Instant) (usable_at : Option Instant)
    (market source_ref : Option String) (m : ResearchContextMemory)
    → attributed r score effective_ts usable_at market source_ref ≡ retrieved (eligible m)
    → (known_market : String) × (source : String) × (source_ref ≡ some source)
      × (item r known_market score effective_ts usable_at source ≡ m)
attributed-item r score effective_ts usable_at none source_ref m e = cc
attributed-item r score effective_ts usable_at (some market) none m e = cc
attributed-item r score effective_ts usable_at (some market) (some source) m e =
    (market, source, refl, cc)

module _ (b : Backend) (request : ResearchContextRequest) (as_of : Instant)
    (candidate : VectorSearchCandidate) (m : ResearchContextMemory) where
  screen_record-IsAdmitted :
      (r : MemoryItemRecord) (effective_ts : Instant) (metadata : TemporalMetadata)
      → resolve_record b candidate request.memory_levels ≡ retrieved r
      → temporal_metadata_for b.session_end (memory_item (times r)) ≡ mapped metadata
      → screen_record request candidate.score r effective_ts
          (decide_at metadata as_of true historical_replay)
        ≡ retrieved (eligible m)
      → IsAdmitted b request as_of candidate m
  unfolding screen_record item
  screen_record-IsAdmitted r effective_ts metadata resolved read e =
      let (visible, e1) = passed_filter _ _ _ m e in
      let (report, e2) = passed_filter _ _ _ m e1 in
      let (namespace, e3) = passed_filter _ _ _ m e2 in
      let (market, e4) = passed_filter _ _ _ m e3 in
      let (asset, e5) = passed_filter _ _ _ m e4 in
      let (weak, e6) =
        passed_filter (ltb r.importance_score request.min_importance_score) _ _ m e5 in
      let (learning, e7) = passed_filter _ _ _ m e6 in
      let (known_market, source, given, same) =
        attributed-item r candidate.score effective_ts
          (decide_at metadata as_of true historical_replay).usable_at (record_market r) r.source_ref
          m e7 in
      record {
        stored = r;
        resolved = resolved;
        known =
            (temporal_metadata_for-KnownBy b.session_end (memory_item (times r)) metadata as_of
                read).0
              (was_true _ visible);
        other_report = report;
        namespace = was_true _ namespace;
        market = was_true _ market;
        asset = was_true _ asset;
        important = ground (arith, weak);
        learning = was_true _ learning;
        identity = ap (λ (x : ResearchContextMemory). x.memory_id) (sym same);
        section = ap (λ (x : ResearchContextMemory). x.section) (sym same);
        source = given ∙ ap (λ (x : ResearchContextMemory). some x.source) same;
        score = ap (λ (x : ResearchContextMemory). x.retrieval_score) (sym same);
      }

  pub screen-IsAdmitted :
      screen b request as_of candidate ≡ retrieved (eligible m)
      → IsAdmitted b request as_of candidate m
  unfolding screen
  screen-IsAdmitted e =
      let (r, resolved, e1) =
        bind-retrieved (resolve_record b candidate request.memory_levels) _ _ e in
      let (effective_ts, timed, e2) =
        bind-retrieved (checked_time (utc_from_storage r.effective_ts)) _ _ e1 in
      let (metadata, read, e3) =
        bind-retrieved
          (checked_metadata (temporal_metadata_for b.session_end (memory_item (times r)))) _ _ e2 in
      screen_record-IsAdmitted r effective_ts metadata resolved
        (checked_metadata-retrieved _ metadata read) e3

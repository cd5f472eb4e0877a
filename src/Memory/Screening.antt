-- ===== src/Memory/Screening.antt =====
-- The loop of `build_research_context` over the candidates: each is resolved, then excluded for the
-- first filter that it fails, or eligible.
use deepinsight.Prelude.{
  ℕ, suc, String, true, not, Option, none, some, List, [], ◌∷◌, ◌++◌, if◌then◌else◌, ltb, ◌==◌,
}
use deepinsight.Temporal.DateTime.{
  Instant, ValueFault, Checked, passed, value_error, overflow_error, utc_from_storage,
}
use deepinsight.Temporal.Metadata.{TemporalMetadata}
use deepinsight.Temporal.Access.{
  TemporalAccessReason, no_longer_effective, TemporalAccessDecision, historical_replay, decide_at,
}
use deepinsight.Temporal.Stored.{memory_item}
use deepinsight.Temporal.Mapping.{
  Mapped, mapped, mapping_error, refused, overflowed, temporal_metadata_for,
}
use deepinsight.Memory.Records.{
  MemoryLevel, ResearchContextSection, current_snapshot, macro_events, asset_events, prior_research,
  prior_risk, historical_analogs, regime_context, MemoryItemRecord, times, ResearchContextRequest,
  VectorSearchCandidate, ResearchContextMemory, Backend,
}
use deepinsight.Memory.Matching.{
  has_level, same_optional, is_current_report, matches_namespace, record_market, in_market,
  matches_asset, matches_learning_metadata, normalized_type, section_for,
}

-- ResearchContextRetrievalError with its message, and the exceptions of the temporal contract; a
-- TemporalLeakageError reaches the caller inside the ValidationError of the bundle's constructor.
pub data RetrievalError : Type 0 where
  retrieval_error : String → RetrievalError
  temporal_mapping_error : RetrievalError
  invalid_time : ValueFault → RetrievalError
  time_overflow : RetrievalError
  leakage_error : TemporalAccessReason → RetrievalError

pub data Retrieval {ℓ} (A : Type ℓ) : Type ℓ where
  retrieved : A → Retrieval A
  failed : RetrievalError → Retrieval A

infixl 5 ◌>>=◌
abbrev pub ◌>>=◌ {ℓ κ} : {A : Type ℓ} {B : Type κ} → Retrieval A → (A → Retrieval B) → Retrieval B
retrieved a >>= f = f a
failed e >>= f = failed e

-- `_resolve_record`
abbrev pub checked_record :
    List MemoryLevel
    → VectorSearchCandidate
    → Option (Option MemoryItemRecord)
    → Retrieval MemoryItemRecord
checked_record levels candidate none =
    failed (retrieval_error "Memory vector mapping could not be resolved")
checked_record levels candidate (some none) =
    failed (retrieval_error "Memory vector has no DuckDB sidecar mapping")
checked_record levels candidate (some (some r)) =
    if not (has_level r.memory_level levels)
    then failed (retrieval_error "Memory vector namespace maps to an unexpected level")
    else if not (same_optional candidate.memory_id (some r.memory_id))
    then failed (retrieval_error "vector metadata does not match its DuckDB Memory record")
    else retrieved r

unfoldable pub resolve_record :
    Backend → VectorSearchCandidate → List MemoryLevel → Retrieval MemoryItemRecord
resolve_record b candidate levels =
    checked_record levels candidate (b.get_by_vector candidate.namespace candidate.vector_id)

abbrev pub checked_time : {A : Type 0} → Checked A → Retrieval A
checked_time (passed t) = retrieved t
checked_time (value_error e) = failed (invalid_time e)
checked_time overflow_error = failed time_overflow

abbrev pub checked_metadata : Mapped → Retrieval TemporalMetadata
checked_metadata (mapped m) = retrieved m
checked_metadata mapping_error = failed temporal_mapping_error
checked_metadata (refused e) = failed (invalid_time e)
checked_metadata overflowed = failed time_overflow

-- The keys of `excluded`.
pub data Exclusion : Type 0 where
  future by_namespace by_asset by_market : Exclusion
  importance expired current_report learning_metadata : Exclusion

pub data Screened : Type 0 where
  excluded : Exclusion → Screened
  eligible : ResearchContextMemory → Screened

abbrev pub exclusion_for : TemporalAccessReason → Exclusion
exclusion_for no_longer_effective = expired
exclusion_for _ = future

abbrev pub or_time : Option Instant → Instant → Instant
or_time none effective_ts = effective_ts
or_time (some t) effective_ts = t

unfoldable pub item :
    MemoryItemRecord
    → (market : String) → (score : ℕ) → Instant
    → Option Instant
    → (source : String) → ResearchContextMemory
unfolding section_for normalized_type
item r market score effective_ts usable_at source = record {
  memory_id = r.memory_id;
  section = section_for r.memory_level (normalized_type r.memory_type);
  memory_level = r.memory_level;
  namespace_key = r.namespace_key;
  asset_id = r.asset_id;
  market = market;
  effective_ts = effective_ts;
  available_at = or_time usable_at effective_ts;
  importance_score = r.importance_score;
  retrieval_score = score;
  source = source;
  metadata = r.metadata;
}

-- `source_ref is None` raises; the market is known here.
abbrev pub attributed :
    MemoryItemRecord
    → (score : ℕ) → Instant
    → Option Instant
    → Option String
    → Option String
    → Retrieval Screened
attributed r score effective_ts usable_at none source_ref = retrieved (excluded by_market)
attributed r score effective_ts usable_at (some market) none =
    failed (retrieval_error "eligible Memory has no attributable source reference")
attributed r score effective_ts usable_at (some market) (some source) =
    retrieved (eligible (item r market score effective_ts usable_at source))

-- The filters, in their order.
unfoldable pub screen_record :
    ResearchContextRequest
    → (score : ℕ) → MemoryItemRecord
    → Instant
    → TemporalAccessDecision
    → Retrieval Screened
unfolding is_current_report matches_namespace record_market matches_asset matches_learning_metadata
    item
screen_record request score r effective_ts decision =
    let market = record_market r in
    if not decision.is_usable
    then retrieved (excluded (exclusion_for decision.reason))
    else if is_current_report r request.current_report_id
    then retrieved (excluded current_report)
    else if not (matches_namespace r request)
    then retrieved (excluded by_namespace)
    else if not (in_market market request.market)
    then retrieved (excluded by_market)
    else if not (matches_asset r request market)
    then retrieved (excluded by_asset)
    else if ltb r.importance_score request.min_importance_score
    then retrieved (excluded importance)
    else if not (matches_learning_metadata r request)
    then retrieved (excluded learning_metadata)
    else attributed r score effective_ts decision.usable_at market r.source_ref

unfoldable pub screen :
    Backend
    → ResearchContextRequest
    → (as_of : Instant) → VectorSearchCandidate
    → Retrieval Screened
unfolding resolve_record screen_record
screen b request as_of candidate = do
  r ← resolve_record b candidate request.memory_levels
  effective_ts ← checked_time (utc_from_storage r.effective_ts)
  metadata ← checked_metadata (temporal_metadata_for b.session_end (memory_item (times r)))
  screen_record request candidate.score r effective_ts
      (decide_at metadata as_of true historical_replay)

-- `buckets`, `excluded` and `eligible_count`.
pub record Sorting : Type 0 where
  pub buckets : ResearchContextSection → List ResearchContextMemory
  pub excluded_counts : Exclusion → ℕ
  pub eligible_count : ℕ

abbrev pub section_number : ResearchContextSection → ℕ
section_number current_snapshot = 0
section_number macro_events = 1
section_number asset_events = 2
section_number prior_research = 3
section_number prior_risk = 4
section_number historical_analogs = 5
section_number regime_context = 6

abbrev pub exclusion_number : Exclusion → ℕ
exclusion_number future = 0
exclusion_number by_namespace = 1
exclusion_number by_asset = 2
exclusion_number by_market = 3
exclusion_number importance = 4
exclusion_number expired = 5
exclusion_number current_report = 6
exclusion_number learning_metadata = 7

abbrev pub start : Sorting
start = record { buckets = λ section. []; excluded_counts = λ key. 0; eligible_count = 0 }

unfoldable pub placed : Screened → Sorting → Sorting
placed (excluded key) s = record s {
  excluded_counts = λ k.
      if exclusion_number k == exclusion_number key
      then suc (s.excluded_counts k)
      else s.excluded_counts k;
}
placed (eligible m) s = record s {
  buckets = λ section.
      if section_number section == section_number m.section
      then s.buckets section ++ (m ∷ [])
      else s.buckets section;
  eligible_count = suc s.eligible_count;
}

unfoldable pub screen_all :
    Backend
    → ResearchContextRequest
    → (as_of : Instant) → List VectorSearchCandidate
    → Sorting
    → Retrieval Sorting
unfolding screen placed
screen_all b request as_of [] s = retrieved s
screen_all b request as_of (candidate ∷ candidates) s = do
  result ← screen b request as_of candidate
  screen_all b request as_of candidates (placed result s)

-- ===== src/Memory/Bundle.antt =====
-- The rest of `build_research_context`, and the validator of the bundle.
use deepinsight.Prelude.{
  ℕ, ◌+◌, String, Bool, true, false, Option, none, some, List, [], ◌∷◌, ◌++◌, map, length,
  if◌then◌else◌, ◌==◌,
}
use deepinsight.Temporal.DateTime.{Instant, utc_from_storage}
use deepinsight.Temporal.Metadata.{TemporalMetadata, at, generic}
use deepinsight.Temporal.Access.{historical_replay, decide_at, Access, allowed, leaked, admit}
use deepinsight.Memory.Records.{
  MemoryLevel, l0, l1, l2, l3, l4, ResearchContextSection, current_snapshot, macro_events,
  asset_events, prior_research, prior_risk, historical_analogs, regime_context,
  LearningMemoryMetadata, ResearchContextRequest, VectorSearchCandidate, ResearchContextMemory,
  Backend,
}
use deepinsight.Memory.Matching.{has_level, has_text}
use deepinsight.Memory.Screening.{
  retrieval_error, leakage_error, Retrieval, retrieved, failed, ◌>>=◌, checked_time, Sorting, start,
  screen_all, Exclusion,
}
use deepinsight.Memory.Ranking.{rank, take}

-- `ResearchContextSection`, in its order.
abbrev pub sections : List ResearchContextSection
sections =
    current_snapshot ∷ macro_events ∷ asset_events ∷ prior_research ∷ prior_risk
    ∷ historical_analogs ∷ regime_context ∷ []

-- `_SECTION_LEVEL`
abbrev pub section_level : ResearchContextSection → MemoryLevel
section_level current_snapshot = l0
section_level macro_events = l1
section_level asset_events = l2
section_level prior_research = l3
section_level prior_risk = l3
section_level historical_analogs = l4
section_level regime_context = l4

pub data MissingContextReason : Type 0 where
  no_relevant_memory not_requested : MissingContextReason

pub data RetrievalStatus : Type 0 where
  complete partial empty : RetrievalStatus

-- What the trace of an eligible item keeps.
pub record MemoryRetrievalCandidate : Type 0 where
  pub memory_id : String
  pub rank : ℕ
  pub selected : Bool

pub record ResearchContextBundle : Type 0 where
  pub items_for_section : ResearchContextSection → List ResearchContextMemory
  pub as_of : Instant
  pub candidate_count : ℕ
  pub eligible_count : ℕ
  pub result_count : ℕ
  pub excluded_counts : Exclusion → ℕ
  pub eligible_candidates : List MemoryRetrievalCandidate
  pub status : RetrievalStatus
  pub missing_context : List (ResearchContextSection × MissingContextReason)

abbrev pub all_items :
    (ResearchContextSection → List ResearchContextMemory)
    → List ResearchContextSection
    → List ResearchContextMemory
all_items buckets [] = []
all_items buckets (section ∷ rest) = buckets section ++ all_items buckets rest

abbrev pub is_empty_list {ℓ} : {A : Type ℓ} → List A → Bool
is_empty_list [] = true
is_empty_list (a ∷ items) = false

-- `_missing_context`
unfoldable pub missing_context :
    List MemoryLevel
    → (ResearchContextSection → List ResearchContextMemory)
    → List ResearchContextSection
    → List (ResearchContextSection × MissingContextReason)
missing_context levels buckets [] = []
missing_context levels buckets (section ∷ rest) =
    let missing = missing_context levels buckets rest in
    if is_empty_list (buckets section)
    then (
      section,
      if has_level (section_level section) levels then no_relevant_memory else not_requested,
    )
      ∷ missing
    else missing

abbrev pub memory_ids : List ResearchContextMemory → List String
memory_ids items = map (λ (m : ResearchContextMemory). m.memory_id) items

-- `_candidate_trace` of each, with ranks from `n`.
unfoldable pub traces :
    ℕ → (selected_ids : List String) → List ResearchContextMemory → List MemoryRetrievalCandidate
traces n selected_ids [] = []
traces n selected_ids (m ∷ items) =
    record { memory_id = m.memory_id; rank = n; selected = has_text m.memory_id selected_ids }
    ∷ traces (n + 1) selected_ids items

abbrev pub status_of :
    (result_count : ℕ) → List (ResearchContextSection × MissingContextReason) → RetrievalStatus
status_of result_count missing =
    if result_count == 0 then empty else if is_empty_list missing then complete else partial

-- `validate_temporal_boundary`: each item's times, and those of its metadata.
abbrev pub must_admit : Access → Retrieval (Unit {0})
must_admit (allowed decision) = retrieved tt
must_admit (leaked decision) = failed (leakage_error decision.reason)

abbrev pub item_times : ResearchContextMemory → TemporalMetadata
item_times m = record {
  source_kind = generic;
  event_time = some m.effective_ts;
  period_start = none;
  period_end = none;
  published_at = none;
  available_at = some m.available_at;
  ingested_at = none;
  effective_from = some (at m.effective_ts);
  effective_to = none;
  as_of = none;
}

unfoldable pub admit_metadata : Instant → Option LearningMemoryMetadata → Retrieval (Unit {0})
unfolding admit
admit_metadata as_of none = retrieved tt
admit_metadata as_of (some m) =
    must_admit (admit (decide_at m.temporal as_of true historical_replay))

unfoldable pub check_item : Instant → ResearchContextMemory → Retrieval (Unit {0})
unfolding admit_metadata admit
check_item as_of m = do
  _ ← must_admit (admit (decide_at (item_times m) as_of true historical_replay))
  admit_metadata as_of m.metadata

unfoldable pub validate_temporal_boundary :
    Instant → List ResearchContextMemory → Retrieval (Unit {0})
unfolding check_item
validate_temporal_boundary as_of [] = retrieved tt
validate_temporal_boundary as_of (m ∷ items) = do
  _ ← check_item as_of m
  validate_temporal_boundary as_of items

-- Each section, sorted and cut.
unfoldable pub cut_sections :
    ResearchContextRequest → Sorting → ResearchContextSection → List ResearchContextMemory
unfolding rank
cut_sections request s section = take request.top_k_per_section (rank (s.buckets section))

-- What was kept is recorded.
unfoldable pub bundle :
    ResearchContextRequest → Instant → (candidate_count : ℕ) → Sorting → ResearchContextBundle
unfolding rank cut_sections missing_context traces
bundle request as_of candidate_count s =
    let buckets = cut_sections request s in
    let selected = all_items buckets sections in
    let missing = missing_context request.memory_levels buckets sections in
    record {
      items_for_section = buckets;
      as_of = as_of;
      candidate_count = candidate_count;
      eligible_count = s.eligible_count;
      result_count = length selected;
      excluded_counts = s.excluded_counts;
      eligible_candidates = traces 1 (memory_ids selected) (rank (all_items s.buckets sections));
      status = status_of (length selected) missing;
      missing_context = missing;
    }

abbrev pub searched : Backend → Retrieval (List VectorSearchCandidate)
searched b = elim b.search [
  | none ↦ failed (retrieval_error "research context semantic retrieval failed")
  | some candidates ↦
      if b.query_length == b.dimension
      then retrieved candidates
      else failed (retrieval_error "embedder returned an inconsistent dimension")
]

unfoldable pub build_research_context :
    Backend → ResearchContextRequest → Retrieval ResearchContextBundle
unfolding screen_all bundle validate_temporal_boundary
build_research_context b request = do
  candidates ← searched b
  as_of ← checked_time (utc_from_storage request.as_of)
  s ← screen_all b request as_of candidates start
  let result = bundle request as_of (length candidates) s in
      do
        _ ← validate_temporal_boundary as_of (all_items result.items_for_section sections)
        retrieved result

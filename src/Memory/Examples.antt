-- ===== src/Memory/Examples.antt =====
-- Tests of the retrieval, on a store with one memory that was known at the cutoff and one that was not.
use deepinsight.Prelude.{
  ℕ, ◌≡◌, refl, arith, inl, inr, String, true, none, some, List, [], ◌∷◌, if◌then◌else◌, ◌==◌, In,
}
use deepinsight.Temporal.DateTime.{ahead, utc_from_storage}
use deepinsight.Temporal.Metadata.{
  TemporalMetadata, memory, at, validate_order, given_lt, ends_too_early,
}
use deepinsight.Temporal.Access.{
  no_longer_effective, decide_at, is_after, rejected, not_reached, already_reached, is_unattributed,
  latest,
}
use deepinsight.Temporal.Mapping.{
  temporal_metadata_for, map_memory, construct, optional_from_storage, max_with, bound_or, ending,
}
use deepinsight.Ontology.Records.{asset}
use deepinsight.Memory.Records.{
  ResearchContextSection, l2, asset_events, MemoryItemRecord, ResearchContextRequest,
  VectorSearchCandidate, ResearchContextMemory, Backend,
}
use deepinsight.Memory.Matching.{
  matches_namespace, record_market, matches_asset, is_current_report, matches_learning_metadata,
}
use deepinsight.Memory.Screening.{
  leakage_error, Retrieval, resolve_record, retrieved, failed, retrieval_error, future, start,
  screen_all, Sorting,
}
use deepinsight.Memory.Bundle.{ResearchContextBundle, bundle, build_research_context, partial}
use deepinsight.Memory.Kept.{IsBuilt, IsSafe, build_research_context-IsSafe}
use deepinsight.Memory.Counts.{IsConserved, build_research_context-IsConserved}
use deepinsight.Memory.Best.{IsBest, build_research_context-IsBest}
use deepinsight.Memory.Complete.{IsAdmissible, build_research_context_complete}

abbrev stored : String → ℕ → MemoryItemRecord
stored memory_id wall = record {
  memory_id = memory_id;
  memory_level = l2;
  namespace_key = "US:AAPL";
  asset_id = some "US:AAPL";
  effective_ts = record { wall = wall; offset = none };
  memory_type = "event";
  importance_score = 5;
  source_ref = some "filing";
  created_at = none;
  expires_at = none;
  metadata = none;
}

abbrev request : ResearchContextRequest
request = record {
  as_of = record { wall = 100; offset = some (ahead 0) };
  market = "US";
  namespace_keys = "US:AAPL" ∷ [];
  asset_id = some "US:AAPL";
  memory_levels = l2 ∷ [];
  top_k_per_section = 4;
  min_importance_score = 0;
  include_prior_reports = true;
  current_report_id = none;
  scope_ids = none;
  scope_types = none;
  usage_classes = none;
  episode_ids = none;
}

abbrev candidate : String → ℕ → VectorSearchCandidate
candidate memory_id vector_id = record {
  namespace = "memory_L2_v1";
  vector_id = vector_id;
  score = 9;
  memory_id = some memory_id;
}

abbrev found : List VectorSearchCandidate
found = candidate "new" 2 ∷ candidate "old" 1 ∷ []

abbrev backend : Backend
backend = record {
  search = some found;
  query_length = 3;
  dimension = 3;
  session_end = λ day. 0;
  get_by_vector = λ namespace vector_id.
      some (if vector_id == 1 then some (stored "old" 50) else some (stored "new" 200));
}

abbrev or_empty : Retrieval ResearchContextBundle → ResearchContextBundle
unfolding bundle
or_empty (retrieved r) = r
or_empty (failed e) = bundle request 0 0 start

-- What `build_research_context` returns for it.
kept : ResearchContextBundle
unfolding or_empty build_research_context utc_from_storage temporal_metadata_for map_memory
    construct validate_order given_lt ends_too_early decide_at is_after rejected not_reached
    already_reached is_unattributed latest
kept = or_empty (build_research_context backend request)

kept_returned : build_research_context backend request ≡ retrieved kept
unfolding kept
kept_returned = refl

abbrev ids : List ResearchContextMemory → List String
ids [] = []
ids (m ∷ items) = m.memory_id ∷ ids items

one_kept : ids (kept.items_for_section asset_events) ≡ "old" ∷ []
unfolding kept
one_kept = refl

one_excluded : kept.excluded_counts future ≡ 1
unfolding kept
one_excluded = refl

status_kept : kept.status ≡ partial
unfolding kept
status_kept = refl

unknown_vector :
    build_research_context
      (record backend { get_by_vector = λ namespace vector_id. some none })
      request
    ≡ failed (retrieval_error "Memory vector has no DuckDB sidecar mapping")
unfolding build_research_context utc_from_storage
unknown_vector = refl

build_research_context-IsSafe_example :
    (k : IsBuilt backend request kept) × IsSafe backend request k.as_of k.candidates kept
build_research_context-IsSafe_example =
    build_research_context-IsSafe backend request kept kept_returned

build_research_context-IsConserved_example :
    (k : IsBuilt backend request kept) × IsConserved request k.sorting kept
build_research_context-IsConserved_example =
    build_research_context-IsConserved backend request kept kept_returned

build_research_context-IsBest_example :
    (k : IsBuilt backend request kept) × ((section : ResearchContextSection)
      → IsBest 4 (k.sorting.buckets section) (kept.items_for_section section))
build_research_context-IsBest_example =
    build_research_context-IsBest backend request kept kept_returned

old-IsAdmissible : IsAdmissible backend request 100 (candidate "old" 1) (stored "old" 50)
unfolding resolve_record utc_from_storage matches_namespace record_market matches_asset
    is_current_report matches_learning_metadata
old-IsAdmissible = record {
  resolved = refl;
  known = (record { time = 50; reads = refl; known = omega arith }, tt, tt, tt, tt, tt);
  other_report = refl;
  namespace = refl;
  market = refl;
  asset = refl;
  important = refl;
  learning = refl;
}

build_research_context_complete_example :
    (s : Sorting) × (screen_all backend request 100 found start ≡ retrieved s)
    × (m : ResearchContextMemory) × In m (s.buckets m.section)
    × (m.memory_id ≡ "old")
unfolding utc_from_storage
build_research_context_complete_example =
    build_research_context_complete backend request found 100 kept refl refl kept_returned
      (candidate "old" 1) (stored "old" 50) (inr (inl refl)) old-IsAdmissible

-- A memory whose own metadata has ended, but which expires later, passes the filter and stops the bundle.
abbrev ended : TemporalMetadata
ended = record {
  source_kind = memory;
  event_time = none;
  period_start = none;
  period_end = none;
  published_at = none;
  available_at = some 50;
  ingested_at = none;
  effective_from = none;
  effective_to = some (at 80);
  as_of = none;
}

abbrev with_ended : MemoryItemRecord
with_ended = record (stored "old" 50) {
  expires_at = some (record { wall = 500; offset = none });
  metadata = some (record {
    scope_type = asset;
    scope_id = "ASSET:AAPL";
    usage_class = "semantic";
    episode_id = none;
    temporal = ended;
  });
}

ended_stops :
    build_research_context
      (record backend {
        search = some (candidate "old" 1 ∷ []);
        get_by_vector = λ namespace vector_id. some (some with_ended);
      })
      request
    ≡ failed (leakage_error no_longer_effective)
unfolding build_research_context utc_from_storage temporal_metadata_for map_memory construct
    validate_order given_lt ends_too_early decide_at is_after rejected not_reached already_reached
    is_unattributed latest optional_from_storage max_with bound_or ending
ended_stops = refl

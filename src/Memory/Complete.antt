-- ===== src/Memory/Complete.antt =====
-- No admissible memory is lost by the screening.
use deepinsight.Prelude.{
  ℕ, ◌≡◌, refl, sym, ap, ◌∙◌, subst, inl, inr, String, Bool, true, false, not, Option, none, some,
  List, [], ◌∷◌, if◌then◌else◌, ◌==◌, ==_iff, ltb, Bool-cases, In, In-append,
}
use deepinsight.Temporal.DateTime.{Instant, utc_from_storage}
use deepinsight.Temporal.Metadata.{TemporalMetadata}
use deepinsight.Temporal.Access.{historical_replay, decide_at}
use deepinsight.Temporal.Stored.{memory_item}
use deepinsight.Temporal.Mapping.{mapped, temporal_metadata_for}
use deepinsight.Temporal.Known.{KnownBy}
use deepinsight.Temporal.Sources.{temporal_metadata_for-KnownBy}
use deepinsight.Memory.Records.{
  ResearchContextSection, MemoryItemRecord, times, ResearchContextRequest, VectorSearchCandidate,
  ResearchContextMemory, Backend,
}
use deepinsight.Memory.Matching.{
  is_current_report, matches_namespace, record_market, in_market, matches_asset,
  matches_learning_metadata,
}
use deepinsight.Memory.Screening.{
  retrieved, resolve_record, checked_time, checked_metadata, Screened, excluded, eligible, item,
  attributed, screen_record, screen, Sorting, start, section_number, placed, screen_all,
}
use deepinsight.Memory.Bundle.{ResearchContextBundle, searched, build_research_context}
use deepinsight.Memory.Admission.{bind-retrieved, checked_metadata-retrieved}
use deepinsight.Memory.Kept.{build_research_context-IsBuilt}

-- The record of the candidate passes every filter.
pub record IsAdmissible (b : Backend) (request : ResearchContextRequest) (as_of : Instant)
    (candidate : VectorSearchCandidate) (stored : MemoryItemRecord) : Type 0 where
  pub resolved : resolve_record b candidate request.memory_levels ≡ retrieved stored
  pub known : KnownBy b.session_end (memory_item (times stored)) as_of
  pub other_report : is_current_report stored request.current_report_id ≡ false
  pub namespace : matches_namespace stored request ≡ true
  pub market : in_market (record_market stored) request.market ≡ true
  pub asset : matches_asset stored request (record_market stored) ≡ true
  pub important : ltb stored.importance_score request.min_importance_score ≡ false
  pub learning : matches_learning_metadata stored request ≡ true

skip :
    {A : Type 0} (failing : Bool) (x rest : A)
    → failing ≡ false
    → (if failing then x else rest) ≡ rest
skip true x rest e = cc
skip false x rest e = refl

decided : (b : Bool) → b ≡ true → not b ≡ false
decided true e = refl
decided false e = cc

attributed-eligible :
    (r : MemoryItemRecord) (score : ℕ) (effective_ts : Instant) (usable_at : Option Instant)
    (market source_ref : Option String) (requested : String) (result : Screened)
    → in_market market requested ≡ true
    → attributed r score effective_ts usable_at market source_ref ≡ retrieved result
    → (m : ResearchContextMemory) × (result ≡ eligible m) × (m.memory_id ≡ r.memory_id)
unfolding item
attributed-eligible r score effective_ts usable_at none source_ref requested result h e = cc
attributed-eligible r score effective_ts usable_at (some market) none requested result h e = cc
attributed-eligible r score effective_ts usable_at (some market) (some source) requested result h
      e =
    (item r market score effective_ts usable_at source, cc, refl)

module _ (b : Backend) (request : ResearchContextRequest) (as_of : Instant)
    (candidate : VectorSearchCandidate) (stored : MemoryItemRecord)
    (h : IsAdmissible b request as_of candidate stored) where
  screen_record-eligible :
      (effective_ts : Instant) (metadata : TemporalMetadata) (result : Screened)
      → temporal_metadata_for b.session_end (memory_item (times stored)) ≡ mapped metadata
      → screen_record request candidate.score stored effective_ts
          (decide_at metadata as_of true historical_replay)
        ≡ retrieved result
      → (m : ResearchContextMemory) × (result ≡ eligible m) × (m.memory_id ≡ stored.memory_id)
  unfolding screen_record
  screen_record-eligible effective_ts metadata result read e =
      let usable =
        (temporal_metadata_for-KnownBy b.session_end (memory_item (times stored)) metadata as_of
            read).1
          h.known in
      let path =
        skip _ _ _ (decided _ usable)
        ∙ (skip _ _ _ h.other_report
            ∙ (skip _ _ _ (decided _ h.namespace)
                ∙ (skip _ _ _ (decided _ h.market)
                    ∙ (skip _ _ _ (decided _ h.asset)
                        ∙ (skip _ _ _ h.important ∙ skip _ _ _ (decided _ h.learning)))))) in
      attributed-eligible stored candidate.score effective_ts
        (decide_at metadata as_of true historical_replay).usable_at (record_market stored)
        stored.source_ref request.market result h.market (sym path ∙ e)

  screen-eligible :
      (result : Screened)
      → screen b request as_of candidate ≡ retrieved result
      → (m : ResearchContextMemory) × (result ≡ eligible m) × (m.memory_id ≡ stored.memory_id)
  unfolding screen
  screen-eligible result e =
      let (r, resolved, e1) =
        bind-retrieved (resolve_record b candidate request.memory_levels) _ result e in
      let same : r ≡ stored = let g = h.resolved in cc in
      let (effective_ts, timed, e2) =
        bind-retrieved (checked_time (utc_from_storage r.effective_ts)) _ result e1 in
      let (metadata, read, e3) =
        bind-retrieved
          (checked_metadata (temporal_metadata_for b.session_end (memory_item (times r)))) _ result
          e2 in
      screen_record-eligible effective_ts metadata result
        (subst
          (λ (x : MemoryItemRecord).
            temporal_metadata_for b.session_end (memory_item (times x)) ≡ mapped metadata)
          same (checked_metadata-retrieved _ metadata read))
        (subst
          (λ (x : MemoryItemRecord).
            screen_record request candidate.score x effective_ts
              (decide_at metadata as_of true historical_replay)
            ≡ retrieved result)
          same e3)

placed-In :
    (m x : ResearchContextMemory) (section : ResearchContextSection) (result : Screened)
    (s : Sorting)
    → In x (s.buckets section)
    → In x ((placed result s).buckets section)
unfolding placed
placed-In m x section (excluded key) s i = i
placed-In m x section (eligible y) s i =
    elim (Bool-cases (section_number section == section_number y.section)) [
      | inl e ↦ rw e ((In-append x (s.buckets section) (y ∷ [])).1 (inl i))
      | inr e ↦ rw e i
    ]

module _ (b : Backend) (request : ResearchContextRequest) (as_of : Instant) where
  screen_all-In :
      (x : ResearchContextMemory) (section : ResearchContextSection)
      (candidates : List VectorSearchCandidate) (s s' : Sorting)
      → screen_all b request as_of candidates s ≡ retrieved s'
      → In x (s.buckets section)
      → In x (s'.buckets section)
  unfolding screen_all
  screen_all-In x section [] s s' e i =
      let same : s ≡ s' = cc in subst (λ (t : Sorting). In x (t.buckets section)) same i
  screen_all-In x section (c ∷ candidates) s s' e i =
      let (result, screened, rest) = bind-retrieved (screen b request as_of c) _ s' e in
      screen_all-In x section candidates (placed result s) s' rest
        (placed-In x x section result s i)

  -- The memory of an admissible candidate is in its bucket.
  found_in :
      (candidate : VectorSearchCandidate) (stored : MemoryItemRecord)
      → IsAdmissible b request as_of candidate stored
      → (candidates : List VectorSearchCandidate) (s s' : Sorting)
      → screen_all b request as_of candidates s ≡ retrieved s'
      → In candidate candidates
      → (m : ResearchContextMemory) × In m (s'.buckets m.section) × (m.memory_id ≡ stored.memory_id)
  unfolding screen_all placed
  found_in candidate stored h [] s s' e i = absurd i
  found_in candidate stored h (c ∷ candidates) s s' e (inr i) =
      let (result, screened, rest) = bind-retrieved (screen b request as_of c) _ s' e in
      found_in candidate stored h candidates (placed result s) s' rest i
  found_in candidate stored h (c ∷ candidates) s s' e (inl same) =
      let (result, screened, rest) = bind-retrieved (screen b request as_of c) _ s' e in
      let (m, is, named) =
        screen-eligible b request as_of candidate stored h result
          (ap (screen b request as_of) (sym same) ∙ screened) in
      let put : In m ((placed (eligible m) s).buckets m.section) =
        rw ((==_iff (section_number m.section) (section_number m.section)).1 refl)
          ((In-append m (s.buckets m.section) (m ∷ [])).1 (inr (inl refl))) in
      (
        m,
        screen_all-In m m.section candidates (placed (eligible m) s) s'
            (subst (λ x. screen_all b request as_of candidates (placed x s) ≡ retrieved s') is rest)
            put,
        named,
      )

-- When build_research_context returns a bundle, each candidate of the search whose stored record
-- was known at the cutoff and passes every filter is among the eligible memories of its section,
-- under the identifier of the record.
pub build_research_context_complete :
    (b : Backend) (request : ResearchContextRequest) (candidates : List VectorSearchCandidate)
    (as_of : Instant) (result : ResearchContextBundle)
    → searched b ≡ retrieved candidates
    → checked_time (utc_from_storage request.as_of) ≡ retrieved as_of
    → build_research_context b request ≡ retrieved result
    → (candidate : VectorSearchCandidate) (stored : MemoryItemRecord) → In candidate candidates
    → IsAdmissible b request as_of candidate stored
    → (s : Sorting) × (screen_all b request as_of candidates start ≡ retrieved s)
      × (m : ResearchContextMemory) × In m (s.buckets m.section)
      × (m.memory_id ≡ stored.memory_id)
build_research_context_complete b request candidates as_of result found timed e candidate stored i
      h =
    let k = build_research_context-IsBuilt b request result e in
    let searches = k.searches in
    let reads = k.reads in
    let same : k.candidates ≡ candidates = cc in
    let time : k.as_of ≡ as_of = cc in
    let screens : screen_all b request as_of candidates start ≡ retrieved k.sorting =
      rw (← same, ← time) k.screens in
    let (m, held, named) =
      found_in b request as_of candidate stored h candidates start k.sorting screens i in
    (k.sorting, screens, m, held, named)

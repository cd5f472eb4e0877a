-- ===== src/Memory/Counts.antt =====
-- The counts of a bundle: no candidate is lost.
use mathlib.Core.List.{Perm}
use mathlib.Core.List.Perm
use deepinsight.Prelude.{
  map, sym, All, ℕ, zero, suc, ◌+◌, ◌≤◌, ◌≡◌, refl, ap, ◌∙◌, subst, inl, inr, List, [], ◌∷◌, ◌++◌,
  if◌then◌else◌, ◌==◌, Bool-cases, length, length-append, arith, min,
}
use deepinsight.Temporal.DateTime.{Instant}
use deepinsight.Memory.Records.{
  ResearchContextSection, current_snapshot, macro_events, asset_events, prior_research, prior_risk,
  historical_analogs, regime_context, ResearchContextRequest, VectorSearchCandidate,
  ResearchContextMemory, Backend,
}
use deepinsight.Memory.Screening.{
  retrieved, Exclusion, future, by_namespace, by_asset, by_market, importance, expired,
  current_report, learning_metadata, Screened, excluded, eligible, screen, Sorting, start,
  section_number, exclusion_number, placed, screen_all,
}
use deepinsight.Memory.Ranking.{ranks_before, insert_ranked, rank, take}
use deepinsight.Memory.Bundle.{
  memory_ids, ResearchContextBundle, sections, all_items, cut_sections, bundle,
  build_research_context,
}
use deepinsight.Memory.Admission.{bind-retrieved}
use deepinsight.Memory.Kept.{IsBuilt, build_research_context-IsBuilt}
use deepinsight.Memory.Traces.{ranks_from, IsMarked, traces-named, traces-ranked, traces-IsMarked}
use deepinsight.Memory.Best.{rank-perm}

abbrev pub total_excluded : (Exclusion → ℕ) → ℕ
total_excluded counts =
    counts future
    + counts by_namespace
    + counts by_asset
    + counts by_market
    + counts importance
    + counts expired
    + counts current_report
    + counts learning_metadata

counted :
    (key : Exclusion) (counts : Exclusion → ℕ)
    → total_excluded
        (λ k. if exclusion_number k == exclusion_number key then suc (counts k) else counts k)
      ≡ suc (total_excluded counts)
counted future counts = omega arith
counted by_namespace counts = omega arith
counted by_asset counts = omega arith
counted by_market counts = omega arith
counted importance counts = omega arith
counted expired counts = omega arith
counted current_report counts = omega arith
counted learning_metadata counts = omega arith

-- The candidates that have been counted.
abbrev IsCounted : ℕ → Sorting → Type 0
IsCounted n s = s.eligible_count + total_excluded s.excluded_counts ≡ n

placed-IsCounted :
    (result : Screened) (n : ℕ) (s : Sorting) → IsCounted n s → IsCounted (suc n) (placed result s)
unfolding placed
placed-IsCounted (excluded key) n s h = omega (arith, counted key s.excluded_counts, h)
placed-IsCounted (eligible m) n s h = omega (arith, h)

screen_all-IsCounted :
    (b : Backend) (request : ResearchContextRequest) (as_of : Instant)
    (candidates : List VectorSearchCandidate) (n : ℕ) (s s' : Sorting)
    → screen_all b request as_of candidates s ≡ retrieved s'
    → IsCounted n s
    → IsCounted (n + length candidates) s'
unfolding screen_all
screen_all-IsCounted b request as_of [] n s s' e h =
    let same : s ≡ s' = cc in subst (λ (t : Sorting). IsCounted (n + 0) t) same (omega (arith, h))
screen_all-IsCounted b request as_of (c ∷ candidates) n s s' e h =
    let (result, screened, rest) = bind-retrieved (screen b request as_of c) _ s' e in
    let k =
      screen_all-IsCounted b request as_of candidates (suc n) (placed result s) s' rest
        (placed-IsCounted result n s h) in
    omega (arith, k)

-- The lengths of the seven buckets.
abbrev lengths : (ResearchContextSection → List ResearchContextMemory) → ℕ
lengths buckets =
    length (buckets current_snapshot)
    + length (buckets macro_events)
    + length (buckets asset_events)
    + length (buckets prior_research)
    + length (buckets prior_risk)
    + length (buckets historical_analogs)
    + length (buckets regime_context)

sum_lengths :
    (ResearchContextSection → List ResearchContextMemory) → List ResearchContextSection → ℕ
sum_lengths buckets [] = 0
sum_lengths buckets (section ∷ rest) = length (buckets section) + sum_lengths buckets rest

length-all_items_of :
    (buckets : ResearchContextSection → List ResearchContextMemory)
    (rest : List ResearchContextSection)
    → length (all_items buckets rest) ≡ sum_lengths buckets rest
unfolding sum_lengths
length-all_items_of buckets [] = refl
length-all_items_of buckets (section ∷ rest) = omega (
  arith,
  length-append (buckets section) (all_items buckets rest),
  length-all_items_of buckets rest,
)

length-all_items :
    (buckets : ResearchContextSection → List ResearchContextMemory)
    → length (all_items buckets sections) ≡ lengths buckets
unfolding sum_lengths
length-all_items buckets = omega (arith, length-all_items_of buckets sections)

section_counted :
    (section : ResearchContextSection) (m : ResearchContextMemory)
    (buckets : ResearchContextSection → List ResearchContextMemory)
    → lengths (λ s.
      if section_number s == section_number section then buckets s ++ (m ∷ []) else buckets s)
      ≡ suc (lengths buckets)
section_counted current_snapshot m buckets =
    omega (arith, length-append (buckets current_snapshot) (m ∷ []))
section_counted macro_events m buckets =
    omega (arith, length-append (buckets macro_events) (m ∷ []))
section_counted asset_events m buckets =
    omega (arith, length-append (buckets asset_events) (m ∷ []))
section_counted prior_research m buckets =
    omega (arith, length-append (buckets prior_research) (m ∷ []))
section_counted prior_risk m buckets = omega (arith, length-append (buckets prior_risk) (m ∷ []))
section_counted historical_analogs m buckets =
    omega (arith, length-append (buckets historical_analogs) (m ∷ []))
section_counted regime_context m buckets =
    omega (arith, length-append (buckets regime_context) (m ∷ []))

-- The buckets hold the eligible items.
abbrev IsFilled : Sorting → Type 0
IsFilled s = lengths s.buckets ≡ s.eligible_count

placed-IsFilled : (result : Screened) (s : Sorting) → IsFilled s → IsFilled (placed result s)
unfolding placed
placed-IsFilled (excluded key) s h = h
placed-IsFilled (eligible m) s h = omega (arith, section_counted m.section m s.buckets, h)

screen_all-IsFilled :
    (b : Backend) (request : ResearchContextRequest) (as_of : Instant)
    (candidates : List VectorSearchCandidate) (s s' : Sorting)
    → screen_all b request as_of candidates s ≡ retrieved s'
    → IsFilled s
    → IsFilled s'
unfolding screen_all
screen_all-IsFilled b request as_of [] s s' e h = let same : s ≡ s' = cc in subst IsFilled same h
screen_all-IsFilled b request as_of (c ∷ candidates) s s' e h =
    let (result, screened, rest) = bind-retrieved (screen b request as_of c) _ s' e in
    screen_all-IsFilled b request as_of candidates (placed result s) s' rest
      (placed-IsFilled result s h)

length-insert_ranked :
    (m : ResearchContextMemory) (items : List ResearchContextMemory)
    → length (insert_ranked m items) ≡ suc (length items)
unfolding insert_ranked
length-insert_ranked m [] = refl
length-insert_ranked m (a ∷ items) = elim (Bool-cases (ranks_before a m)) [
  | inl e ↦ rw e (ap suc (length-insert_ranked m items))
  | inr e ↦ rw e refl
]

length-rank : (items : List ResearchContextMemory) → length (rank items) ≡ length items
unfolding rank
length-rank [] = refl
length-rank (m ∷ items) = length-insert_ranked m (rank items) ∙ ap suc (length-rank items)

length-take :
    (n : ℕ) (items : List ResearchContextMemory) → length (take n items) ≡ min n (length items)
length-take zero items = omega arith
length-take (suc n) [] = omega arith
length-take (suc n) (m ∷ items) = omega (arith, length-take n items)

-- The counts and the traces of a bundle agree with one another, with the eligible memories that
-- the screening has sorted, and with what the bundle holds.
pub record IsConserved (request : ResearchContextRequest) (s : Sorting)
    (result : ResearchContextBundle) : Type 0 where
  pub all_counted :
      result.eligible_count + total_excluded result.excluded_counts ≡ result.candidate_count
  pub eligible : length (all_items s.buckets sections) ≡ result.eligible_count
  pub traced :
      Perm
        (map (λ t. t.memory_id) result.eligible_candidates)
        (memory_ids (all_items s.buckets sections))
  pub ranked : map (λ t. t.rank) result.eligible_candidates ≡ ranks_from 1 result.eligible_count
  pub marked :
      All
        (IsMarked (memory_ids (all_items result.items_for_section sections)))
        result.eligible_candidates
  pub held : result.result_count ≡ lengths result.items_for_section
  pub kept : result.result_count ≤ result.eligible_count
  pub cut :
      (section : ResearchContextSection)
      → length (result.items_for_section section) ≤ request.top_k_per_section

module _ (request : ResearchContextRequest) (as_of : Instant) (s : Sorting) where
  length-cut_sections :
      (section : ResearchContextSection)
      → length (cut_sections request s section)
        ≡ min request.top_k_per_section (length (s.buckets section))
  unfolding cut_sections
  length-cut_sections section = omega (
    arith,
    length-take request.top_k_per_section (rank (s.buckets section)),
    length-rank (s.buckets section),
  )

  bundle-IsConserved :
      (n : ℕ) → IsCounted n s → IsFilled s → IsConserved request s (bundle request as_of n s)
  unfolding bundle
  bundle-IsConserved n counts filled =
      let eligible = all_items s.buckets sections in
      let ids = memory_ids (all_items (cut_sections request s) sections) in
      record {
        all_counted = counts;
        eligible = length-all_items s.buckets ∙ filled;
        traced =
            subst (λ names. Perm names (memory_ids eligible))
              (sym (traces-named ids 1 (rank eligible)))
              (Perm.map (λ (m : ResearchContextMemory). m.memory_id) (rank-perm eligible));
        ranked =
            traces-ranked ids 1 (rank eligible)
            ∙ ap (ranks_from 1) (length-rank eligible ∙ (length-all_items s.buckets ∙ filled));
        marked = traces-IsMarked ids 1 (rank eligible);
        held = length-all_items (cut_sections request s);
        kept = omega (
          arith,
          length-all_items (cut_sections request s),
          filled,
          length-cut_sections current_snapshot,
          length-cut_sections macro_events,
          length-cut_sections asset_events,
          length-cut_sections prior_research,
          length-cut_sections prior_risk,
          length-cut_sections historical_analogs,
          length-cut_sections regime_context,
        );
        cut = λ section. omega (arith, length-cut_sections section);
      }

-- In a bundle that build_research_context returns, the eligible and the excluded candidates add up
-- to all candidates; the identifiers of the traces are those of the memories that the screening
-- has sorted into its sections, each as often, and as many as the eligible count; their ranks run
-- from 1 on, and a trace is marked as selected exactly if a memory of its identifier is in a
-- section of the bundle; the result count is the number of memories in the seven sections and at
-- most the number of eligible ones, and no section has more than top_k_per_section.
pub build_research_context-IsConserved :
    (b : Backend) (request : ResearchContextRequest) (result : ResearchContextBundle)
    → build_research_context b request ≡ retrieved result
    → (k : IsBuilt b request result) × IsConserved request k.sorting result
build_research_context-IsConserved b request result e =
    let k = build_research_context-IsBuilt b request result e in
    (
      k,
      subst (IsConserved request k.sorting) k.made (
          bundle-IsConserved request k.as_of k.sorting (length k.candidates)
            (omega (
              arith,
              screen_all-IsCounted b request k.as_of k.candidates 0 start k.sorting k.screens refl,
            ))
            (screen_all-IsFilled b request k.as_of k.candidates start k.sorting k.screens refl)),
    )

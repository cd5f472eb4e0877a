-- ===== src/Memory/Kept.antt =====
-- Every item of a bundle is admitted, and its section is the item's own.
use deepinsight.Prelude.{
  ℕ, zero, suc, ◌≡◌, refl, sym, ap, ◌∙◌, subst, inl, inr, List, [], ◌∷◌, ◌==◌, ==_iff, Bool-cases,
  All, All-append, In, length,
}
use deepinsight.Temporal.DateTime.{Instant, utc_from_storage}
use deepinsight.Memory.Records.{
  ResearchContextSection, ResearchContextRequest, VectorSearchCandidate, ResearchContextMemory,
  Backend,
}
use deepinsight.Memory.Screening.{
  retrieved, checked_time, Screened, excluded, eligible, screen, Sorting, start, section_number,
  placed, screen_all,
}
use deepinsight.Memory.Ranking.{ranks_before, insert_ranked, rank, take}
use deepinsight.Memory.Bundle.{
  ResearchContextBundle, sections, all_items, cut_sections, bundle, searched,
  validate_temporal_boundary, build_research_context,
}
use deepinsight.Memory.Admission.{IsAdmitted, bind-retrieved, screen-IsAdmitted}

module _ (P : ResearchContextMemory → Type 0) where
  pub insert_ranked-All :
      (m : ResearchContextMemory) (items : List ResearchContextMemory)
      → P m
      → All P items
      → All P (insert_ranked m items)
  unfolding insert_ranked
  insert_ranked-All m [] p h = (p, tt)
  insert_ranked-All m (a ∷ items) p h = elim (Bool-cases (ranks_before a m)) [
    | inl e ↦ rw e (h.0, insert_ranked-All m items p h.1)
    | inr e ↦ rw e (p, h)
  ]

  rank-All : (items : List ResearchContextMemory) → All P items → All P (rank items)
  unfolding rank
  rank-All [] h = tt
  rank-All (m ∷ items) h = insert_ranked-All m (rank items) h.0 (rank-All items h.1)

  take-All : (n : ℕ) (items : List ResearchContextMemory) → All P items → All P (take n items)
  take-All zero items h = tt
  take-All (suc n) [] h = tt
  take-All (suc n) (m ∷ items) h = (h.0, take-All n items h.1)

-- What every bucket holds: items of its own section that satisfy P.
module _ (P : ResearchContextMemory → Type 0) where
  abbrev Held : ResearchContextSection → ResearchContextMemory → Type 0
  Held section m = P m × (section_number m.section ≡ section_number section)

  abbrev IsHeld : Sorting → Type 0
  IsHeld s = (section : ResearchContextSection) → All (Held section) (s.buckets section)

  placed-IsHeld :
      (result : Screened) (s : Sorting)
      → ((m : ResearchContextMemory) → result ≡ eligible m → P m)
      → IsHeld s
      → IsHeld (placed result s)
  unfolding placed
  placed-IsHeld (excluded key) s p h section = h section
  placed-IsHeld (eligible m) s p h section =
      elim (Bool-cases (section_number section == section_number m.section)) [
        | inl e ↦ rw e (
            All-append (Held section) (s.buckets section) (m ∷ []) (h section) (
              (p m refl, sym ((==_iff (section_number section) (section_number m.section)).0 e)),
              tt,
            ))
        | inr e ↦ rw e (h section)
      ]

module _ (b : Backend) (request : ResearchContextRequest) (as_of : Instant) where
  -- An item of a candidate of the list.
  pub record IsFrom (candidates : List VectorSearchCandidate) (m : ResearchContextMemory)
      : Type 0 where
    pub candidate : VectorSearchCandidate
    pub member : In candidate candidates
    pub admitted : IsAdmitted b request as_of candidate m

  screen_all-IsHeld :
      (all candidates : List VectorSearchCandidate) (s s' : Sorting)
      → ((c : VectorSearchCandidate) → In c candidates → In c all)
      → screen_all b request as_of candidates s ≡ retrieved s'
      → IsHeld (IsFrom all) s
      → IsHeld (IsFrom all) s'
  unfolding screen_all
  screen_all-IsHeld all [] s s' sub e h =
      let same : s ≡ s' = cc in subst (IsHeld (IsFrom all)) same h
  screen_all-IsHeld all (c ∷ candidates) s s' sub e h =
      let (result, screened, rest) = bind-retrieved (screen b request as_of c) _ s' e in
      screen_all-IsHeld all candidates (placed result s) s' (λ d m. sub d (inr m)) rest
        (placed-IsHeld (IsFrom all) result s
          (λ m is. record {
            candidate = c;
            member = sub c (inl refl);
            admitted = screen-IsAdmitted b request as_of c m (screened ∙ ap retrieved is);
          })
          h)

  -- Each section of a bundle holds items of its own, each admitted from a candidate of the search.
  abbrev pub IsSafe : List VectorSearchCandidate → ResearchContextBundle → Type 0
  IsSafe candidates result =
      (section : ResearchContextSection)
      → All (λ m. IsFrom candidates m × (section_number m.section ≡ section_number section))
          (result.items_for_section section)

  bundle-IsSafe :
      (candidates : List VectorSearchCandidate) (s : Sorting)
      → screen_all b request as_of candidates start ≡ retrieved s
      → IsSafe candidates (bundle request as_of (length candidates) s)
  unfolding bundle cut_sections
  bundle-IsSafe candidates s e section =
      take-All _ request.top_k_per_section (rank (s.buckets section)) (
        rank-All _ (s.buckets section)
          (screen_all-IsHeld candidates candidates start s (λ c m. m) e (λ sec. tt) section))

-- What a returned bundle was made from.
pub record IsBuilt (b : Backend) (request : ResearchContextRequest) (result : ResearchContextBundle)
    : Type 0 where
  pub candidates : List VectorSearchCandidate
  pub searches : searched b ≡ retrieved candidates
  pub as_of : Instant
  pub reads : checked_time (utc_from_storage request.as_of) ≡ retrieved as_of
  pub sorting : Sorting
  pub screens : screen_all b request as_of candidates start ≡ retrieved sorting
  pub made : bundle request as_of (length candidates) sorting ≡ result

pub build_research_context-IsBuilt :
    (b : Backend) (request : ResearchContextRequest) (result : ResearchContextBundle)
    → build_research_context b request ≡ retrieved result
    → IsBuilt b request result
unfolding build_research_context
build_research_context-IsBuilt b request result e =
    let (candidates, searches, e1) = bind-retrieved (searched b) _ result e in
    let (as_of, reads, e2) =
      bind-retrieved (checked_time (utc_from_storage request.as_of)) _ result e1 in
    let (s, screens, e3) =
      bind-retrieved (screen_all b request as_of candidates start) _ result e2 in
    let (_, checked, e4) =
      bind-retrieved
        (validate_temporal_boundary as_of
          (all_items (bundle request as_of (length candidates) s).items_for_section sections))
        _ result e3 in
    let made : bundle request as_of (length candidates) s ≡ result = cc in
    record {
      candidates = candidates;
      searches = searches;
      as_of = as_of;
      reads = reads;
      sorting = s;
      screens = screens;
      made = made;
    }

-- Each section of a bundle that build_research_context returns holds memories of that section
-- only, and each of them is made from a candidate of the search whose stored record was known at
-- the cutoff by its own times, is not of the current report, and passes the filters on namespace,
-- market, asset, importance and learning metadata, with the source that the record names.
pub build_research_context-IsSafe :
    (b : Backend) (request : ResearchContextRequest) (result : ResearchContextBundle)
    → build_research_context b request ≡ retrieved result
    → (k : IsBuilt b request result) × IsSafe b request k.as_of k.candidates result
build_research_context-IsSafe b request result e =
    let k = build_research_context-IsBuilt b request result e in
    (
      k,
      subst (IsSafe b request k.as_of k.candidates) k.made
          (bundle-IsSafe b request k.as_of k.candidates k.sorting k.screens),
    )

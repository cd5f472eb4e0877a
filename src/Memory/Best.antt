-- ===== src/Memory/Best.antt =====
-- The items of a section are the first of its eligible ones in the order of relevance.
use mathlib.Core.List.{Perm}
use mathlib.Core.List.Perm
use deepinsight.Prelude.{
  ℕ, zero, suc, ◌<◌, ◌≡◌, refl, sym, ap, subst, ◌⊎◌, inl, inr, String, true, false, List, [], ◌∷◌,
  ◌++◌, text_lt, Bool-cases, All, length, arith,
}
use deepinsight.Transition.Order.{text_lt_irrefl, text_lt_trans, text_lt_total}
use deepinsight.Ontology.Passing.{All-map}
use deepinsight.Memory.Records.{
  ResearchContextSection, ResearchContextRequest, ResearchContextMemory, Backend,
}
use deepinsight.Memory.Screening.{retrieved}
use deepinsight.Memory.Bundle.{ResearchContextBundle, cut_sections, bundle, build_research_context}
use deepinsight.Memory.Kept.{insert_ranked-All, IsBuilt, build_research_context-IsBuilt}
use deepinsight.Memory.Ranking.{ranks_before, insert_ranked, rank, take}

text_le_trans : (s t u : String) → text_lt t s ≡ false → text_lt u t ≡ false → text_lt u s ≡ false
text_le_trans s t u h k = elim (Bool-cases (text_lt u s)) [
  | inr e ↦ e
  | inl e ↦ elim (Bool-cases (text_lt s t)) [
    | inl l ↦ cc (text_lt_trans u s t e l, k)
    | inr l ↦ let same = text_lt_total s t l h in cc
  ]
]

text_lt_asymm : (s t : String) → text_lt s t ≡ true → text_lt t s ≡ false
text_lt_asymm s t h = elim (Bool-cases (text_lt t s)) [
  | inr e ↦ e
  | inl e ↦ cc (text_lt_trans s t s h e, text_lt_irrefl s)
]

ranks_before_asymm :
    (a b : ResearchContextMemory) → ranks_before a b ≡ true → ranks_before b a ≡ false
unfolding ranks_before
ranks_before_asymm a b h = ground (arith, text_lt_asymm a.memory_id b.memory_id)

not_after_trans :
    (a b c : ResearchContextMemory)
    → ranks_before b a ≡ false
    → ranks_before c b ≡ false
    → ranks_before c a ≡ false
unfolding ranks_before
not_after_trans a b c h k = ground (arith, text_le_trans a.memory_id b.memory_id c.memory_id)

-- `b` does not rank before `a`.
abbrev pub NotBefore : ResearchContextMemory → ResearchContextMemory → Type 0
NotBefore a b = ranks_before b a ≡ false

-- No item ranks before an earlier one.
abbrev pub IsRanked : List ResearchContextMemory → Type 0
IsRanked [] = Unit
IsRanked (a ∷ items) = All (NotBefore a) items × IsRanked items

insert_ranked-IsRanked :
    (m : ResearchContextMemory) (items : List ResearchContextMemory)
    → IsRanked items
    → IsRanked (insert_ranked m items)
unfolding insert_ranked
insert_ranked-IsRanked m [] h = (tt, tt)
insert_ranked-IsRanked m (a ∷ items) h = elim (Bool-cases (ranks_before a m)) [
  | inl e ↦ rw e (
    insert_ranked-All (NotBefore a) m items (ranks_before_asymm a m e) h.0,
    insert_ranked-IsRanked m items h.1,
  )
  | inr e ↦
      rw e
        ((e, All-map (NotBefore a) (NotBefore m) (λ x k. not_after_trans m a x e k) items h.0), h)
]

rank-IsRanked : (items : List ResearchContextMemory) → IsRanked (rank items)
unfolding rank
rank-IsRanked [] = tt
rank-IsRanked (m ∷ items) = insert_ranked-IsRanked m (rank items) (rank-IsRanked items)

insert_ranked-perm :
    (m : ResearchContextMemory) (items : List ResearchContextMemory)
    → Perm (insert_ranked m items) (m ∷ items)
unfolding insert_ranked
insert_ranked-perm m [] = Perm.rfl
insert_ranked-perm m (a ∷ items) = elim (Bool-cases (ranks_before a m)) [
  | inl e ↦ rw e (Perm.trans (Perm.cons a (insert_ranked-perm m items)) (Perm.swap m a items))
  | inr e ↦ rw e Perm.rfl
]

pub rank-perm : (items : List ResearchContextMemory) → Perm (rank items) items
unfolding rank
rank-perm [] = Perm.rfl
rank-perm (m ∷ items) =
    Perm.trans (insert_ranked-perm m (rank items)) (Perm.cons m (rank-perm items))

abbrev dropped : ℕ → List ResearchContextMemory → List ResearchContextMemory
dropped zero items = items
dropped (suc n) [] = []
dropped (suc n) (m ∷ items) = dropped n items

take-dropped :
    (n : ℕ) (items : List ResearchContextMemory) → take n items ++ dropped n items ≡ items
take-dropped zero items = refl
take-dropped (suc n) [] = refl
take-dropped (suc n) (m ∷ items) = ap (λ rest. m ∷ rest) (take-dropped n items)

take_full :
    (n : ℕ) (items : List ResearchContextMemory)
    → (length (take n items) ≡ n) ⊎ (dropped n items ≡ [])
take_full zero items = inl refl
take_full (suc n) [] = inr refl
take_full (suc n) (m ∷ items) = elim (take_full n items) [ inl e ↦ inl (ap suc e) | inr e ↦ inr e ]

-- `a` may stand before `b`: it has the higher score; or the same and the higher importance; or that
-- too and the later time; or all the same and an identifier that is not greater.
abbrev pub MayPrecede : ResearchContextMemory → ResearchContextMemory → Type 0
MayPrecede a b =
    (b.retrieval_score < a.retrieval_score)
    ⊎ ((a.retrieval_score ≡ b.retrieval_score)
        × ((b.importance_score < a.importance_score)
            ⊎ ((a.importance_score ≡ b.importance_score)
                × ((b.effective_ts < a.effective_ts)
                    ⊎ ((a.effective_ts ≡ b.effective_ts)
                        × (text_lt b.memory_id a.memory_id ≡ false))))))

NotBefore-MayPrecede : (a b : ResearchContextMemory) → NotBefore a b → MayPrecede a b
unfolding ranks_before
NotBefore-MayPrecede a b h = ground arith

-- Every item may stand before all later ones.
abbrev pub IsArranged : List ResearchContextMemory → Type 0
IsArranged [] = Unit
IsArranged (a ∷ items) = All (MayPrecede a) items × IsArranged items

IsRanked-IsArranged : (items : List ResearchContextMemory) → IsRanked items → IsArranged items
IsRanked-IsArranged [] h = tt
IsRanked-IsArranged (a ∷ items) h = (
  All-map (NotBefore a) (MayPrecede a) (NotBefore-MayPrecede a) items h.0,
  IsRanked-IsArranged items h.1,
)

-- The kept items come first in the order of relevance of all eligible ones, and are as many as
-- allowed unless none is left.
pub record IsBest (limit : ℕ) (eligible kept : List ResearchContextMemory) : Type 0 where
  pub rest : List ResearchContextMemory
  pub same : Perm (kept ++ rest) eligible
  pub ranked : IsArranged (kept ++ rest)
  pub full : (length kept ≡ limit) ⊎ (rest ≡ [])

take_rank-IsBest :
    (n : ℕ) (items : List ResearchContextMemory) → IsBest n items (take n (rank items))
take_rank-IsBest n items = record {
  rest = dropped n (rank items);
  same = subst (λ all. Perm all items) (sym (take-dropped n (rank items))) (rank-perm items);
  ranked =
      subst IsArranged (sym (take-dropped n (rank items)))
        (IsRanked-IsArranged (rank items) (rank-IsRanked items));
  full = take_full n (rank items);
}

-- In a bundle that build_research_context returns, each section is the beginning of an arrangement
-- of its eligible memories by score from the highest, then by importance from the highest, then by
-- time from the latest, then by identifier from the smallest, of the length top_k_per_section or
-- with nothing left out.
pub build_research_context-IsBest :
    (b : Backend) (request : ResearchContextRequest) (result : ResearchContextBundle)
    → build_research_context b request ≡ retrieved result
    → (k : IsBuilt b request result) × ((section : ResearchContextSection)
        → IsBest request.top_k_per_section
            (k.sorting.buckets section)
            (result.items_for_section section))
unfolding bundle cut_sections
build_research_context-IsBest b request result e =
    let k = build_research_context-IsBuilt b request result e in
    (
      k,
      λ section.
          subst
            (λ (r : ResearchContextBundle).
              IsBest request.top_k_per_section (k.sorting.buckets section)
                (r.items_for_section section))
            k.made (take_rank-IsBest request.top_k_per_section (k.sorting.buckets section)),
    )

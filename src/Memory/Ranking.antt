-- ===== src/Memory/Ranking.antt =====
-- `_relevance_order`, the stable sort by it, and the cut of a section.
use deepinsight.Prelude.{
  ℕ, zero, suc, Bool, true, false, List, [], ◌∷◌, ltb, if◌then◌else◌, text_lt,
}
use deepinsight.Memory.Records.{ResearchContextMemory}

-- `<` of the keys: the higher score, then the higher importance, then the later memory, then the
-- smaller identifier.
unfoldable pub ranks_before : ResearchContextMemory → ResearchContextMemory → Bool
unfolding text_lt
ranks_before a b =
    if ltb b.retrieval_score a.retrieval_score
    then true
    else if ltb a.retrieval_score b.retrieval_score
    then false
    else if ltb b.importance_score a.importance_score
    then true
    else if ltb a.importance_score b.importance_score
    then false
    else if ltb b.effective_ts a.effective_ts
    then true
    else if ltb a.effective_ts b.effective_ts
    then false
    else text_lt a.memory_id b.memory_id

-- An item is put before the first that it does not rank after, so equal items keep their order.
unfoldable pub insert_ranked :
    ResearchContextMemory → List ResearchContextMemory → List ResearchContextMemory
unfolding ranks_before
insert_ranked a [] = a ∷ []
insert_ranked a (b ∷ items) =
    let rest = insert_ranked a items in if ranks_before b a then b ∷ rest else a ∷ b ∷ items

-- `items.sort(key=_relevance_order)`
unfoldable pub rank : List ResearchContextMemory → List ResearchContextMemory
unfolding insert_ranked
rank [] = []
rank (a ∷ items) = insert_ranked a (rank items)

-- `items[:n]`
abbrev pub take {ℓ} : {A : Type ℓ} → ℕ → List A → List A
take zero items = []
take (suc n) [] = []
take (suc n) (a ∷ items) = a ∷ take n items

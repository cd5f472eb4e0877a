-- ===== src/Memory/Traces.antt =====
-- The traces of the eligible memories.
use deepinsight.Prelude.{
  ℕ, zero, suc, ◌+◌, ◌≡◌, refl, ap, ◌↔◌, eq_iff, String, true, List, [], ◌∷◌, map, length, All, In,
  arith,
}
use deepinsight.Memory.Records.{ResearchContextMemory}
use deepinsight.Memory.Matching.{has_text}
use deepinsight.Memory.Bundle.{MemoryRetrievalCandidate, memory_ids, traces}

-- The numbers from `n` on.
abbrev pub ranks_from : (n : ℕ) → (count : ℕ) → List ℕ
ranks_from n zero = []
ranks_from n (suc count) = n ∷ ranks_from (n + 1) count

-- A trace is selected exactly if its memory is among those of the given identifiers.
abbrev pub IsMarked : List String → MemoryRetrievalCandidate → Type 0
IsMarked ids t = (t.selected ≡ true) ↔ In t.memory_id ids

has_text-In : (text : String) (texts : List String) → (has_text text texts ≡ true) ↔ In text texts
has_text-In text [] = (λ e. cc e, λ m. absurd m)
has_text-In text (t ∷ texts) = ground (arith, has_text-In text texts, eq_iff t text)

-- The traces name the items, in order, with consecutive ranks and the marks of the selected ones.
module _ (ids : List String) where
  pub traces-named :
      (n : ℕ) (items : List ResearchContextMemory)
      → map (λ t. t.memory_id) (traces n ids items) ≡ memory_ids items
  unfolding traces
  traces-named n [] = refl
  traces-named n (m ∷ items) = ap (λ rest. m.memory_id ∷ rest) (traces-named (n + 1) items)

  pub traces-ranked :
      (n : ℕ) (items : List ResearchContextMemory)
      → map (λ t. t.rank) (traces n ids items) ≡ ranks_from n (length items)
  unfolding traces
  traces-ranked n [] = refl
  traces-ranked n (m ∷ items) = ap (λ rest. n ∷ rest) (traces-ranked (n + 1) items)

  pub traces-IsMarked :
      (n : ℕ) (items : List ResearchContextMemory) → All (IsMarked ids) (traces n ids items)
  unfolding traces
  traces-IsMarked n [] = tt
  traces-IsMarked n (m ∷ items) = (has_text-In m.memory_id ids, traces-IsMarked (n + 1) items)

-- ===== src/Ontology/Intervals.antt =====
-- `_contains_interval`, against intervals.
use deepinsight.Prelude.{
  ℕ, ◌≤◌, ◌≡◌, refl, ◌↔◌, inl, inr, true, Option, none, some, ltb, leb→le, le→leb, Bool-cases,
  arith,
}
use deepinsight.Ontology.Records.{Validity, ends_by, contains_interval}

-- The end of a child, where its parent has one.
abbrev pub EndsBy : Option ℕ → Option ℕ → Type 0
EndsBy none child_to = Unit
EndsBy (some parent_to) none = ⊥
EndsBy (some parent_to) (some child_to) = child_to ≤ parent_to

-- The child's interval is a part of the parent's.
abbrev pub IsWithin : (parent child : Validity) → Type 0
IsWithin parent child =
    (parent.valid_from ≤ child.valid_from) × EndsBy parent.valid_to child.valid_to

ends_by_iff :
    (parent_to child_to : Option ℕ)
    → (ends_by parent_to child_to ≡ true) ↔ EndsBy parent_to child_to
ends_by_iff none child_to = (λ e. tt, λ h. refl)
ends_by_iff (some parent_to) none = (λ e. cc, λ h. absurd h)
ends_by_iff (some parent_to) (some child_to) =
    (leb→le child_to parent_to, le→leb child_to parent_to)

pub contains_interval_iff :
    (parent child : Validity) → (contains_interval parent child ≡ true) ↔ IsWithin parent child
unfolding contains_interval
contains_interval_iff parent child =
    let (down, up) = ends_by_iff parent.valid_to child.valid_to in
    elim (Bool-cases (ltb child.valid_from parent.valid_from)) [
      | inl early ↦ rw early (λ e. cc, λ h. let start = h.0 in absurd (ground (arith, early)))
      | inr later ↦ rw later (λ e. (ground (arith, later), down e), λ h. up h.1)
    ]

-- ===== src/Ontology/Outcomes.antt =====
-- `validate_scope_hierarchy` ends, and raises no other exception than its own.
use deepinsight.Prelude.{
  ℕ, zero, suc, ◌≡◌, ◌≢◌, refl, ◌⊎◌, inl, inr, String, Bool, true, false, Option, none, some, List,
  [], ◌∷◌, length, ◌==◌, Bool-cases, Option-cases, All, In, All-In,
}
use deepinsight.Ontology.Records.{ResearchScopeType, ResearchScopeDefinition, contains_interval}
use deepinsight.Ontology.Checks.{
  Check, valid, invalid, unfinished, ◌and_then◌, require, for_each, find, unique_by,
}
use deepinsight.Ontology.Scopes.{
  Scopes, is_global, is_allowed_parent, count_global, is_visited, parent_of, walk, is_found,
  parent_is_known, check_known, check_acyclic, fits, check_parent, check_hierarchy,
  validate_scope_hierarchy, validate_scope_identity, check_parent_type,
}
use deepinsight.Ontology.Passing.{and_then_iff, require_iff, for_each_iff, All-map}
use deepinsight.Ontology.Placement.{present, named_member, root_or_checked}
use deepinsight.Ontology.Walking.{check_acyclic_ends}
use deepinsight.Ontology.Hierarchy.{IsIdentified}

-- The check passes, or raises its own error.
abbrev pub IsOutcome : Check → Type 0
IsOutcome c = (c ≡ valid) ⊎ ((message : String) × (c ≡ invalid message))

and_then-IsOutcome :
    (a b : Check) → IsOutcome a → (a ≡ valid → IsOutcome b) → IsOutcome (a and_then b)
and_then-IsOutcome a b (inl e) next = rw e (next e)
and_then-IsOutcome a b (inr (message, e)) next = rw e (inr (message, refl))

require-IsOutcome : (test : Bool) (message : String) → IsOutcome (require test message)
require-IsOutcome true message = inl refl
require-IsOutcome false message = inr (message, refl)

for_each-IsOutcome :
    {A : Type 0} (check : A → Check) (items : List A)
    → All (λ item. IsOutcome (check item)) items
    → IsOutcome (for_each check items)
for_each-IsOutcome check [] h = inl refl
for_each-IsOutcome check (item ∷ items) h =
    and_then-IsOutcome (check item) (for_each check items) h.0
      (λ e. for_each-IsOutcome check items h.1)

-- A scope that is no root names its parent.
parent_named :
    (scope_type : ResearchScopeType) (parent_id : Option String)
    → check_parent_type scope_type parent_id ≡ valid
    → is_global scope_type ≡ false
    → (id : String) × (parent_id ≡ some id)
parent_named scope_type none e g = let root = (require_iff _ _).0 e in cc
parent_named scope_type (some id) e g = (id, refl)

child-named :
    (scope : ResearchScopeDefinition)
    → IsIdentified scope
    → is_global scope.scope_type ≡ false
    → (id : String) × (scope.parent_scope_id ≡ some id)
unfolding validate_scope_identity
child-named scope e g =
    let (_, rest) = (and_then_iff _ _).0 e in
    let (typed, _) = (and_then_iff _ _).0 rest in
    parent_named scope.scope_type scope.parent_scope_id typed g

walk-IsOutcome :
    (by_id : Scopes) (fuel : ℕ) (visited : List String) (current : Option ResearchScopeDefinition)
    → walk by_id fuel visited current ≢ unfinished
    → IsOutcome (walk by_id fuel visited current)
unfolding walk
walk-IsOutcome by_id zero visited current h = absurd (h refl)
walk-IsOutcome by_id (suc fuel) visited none h = inl refl
walk-IsOutcome by_id (suc fuel) visited (some current) h =
    elim (Bool-cases (is_visited current.scope_id visited)) [
      | inl seen ↦ rw seen (inr ("scope hierarchy contains a cycle", refl))
      | inr new ↦ rw new (
          walk-IsOutcome by_id fuel (current.scope_id ∷ visited)
            (parent_of by_id current.parent_scope_id) (λ e. h (rw new e)))
    ]

is_found-IsOutcome : (found : Option ResearchScopeDefinition) → IsOutcome (is_found found)
is_found-IsOutcome none = inr ("scope references unknown parent", refl)
is_found-IsOutcome (some parent) = inl refl

is_found-some :
    (found : Option ResearchScopeDefinition)
    → is_found found ≡ valid
    → (parent : ResearchScopeDefinition) × (found ≡ some parent)
is_found-some none e = cc
is_found-some (some parent) e = (parent, refl)

module _ (by_id : Scopes) (scope : ResearchScopeDefinition) (identified : IsIdentified scope) where
  check_known-IsOutcome : IsOutcome (check_known by_id scope)
  check_known-IsOutcome = elim (Bool-cases (is_global scope.scope_type)) [
    | inl root ↦ rw root (inl refl)
    | inr child ↦
        let (id, named) = child-named scope identified child in
        rw (child, named) (is_found-IsOutcome (find id by_id))
  ]

module _ (by_id : Scopes) (scope : ResearchScopeDefinition) where
  known_id :
      (parent_id : Option String)
      → parent_is_known by_id parent_id ≡ valid
      → (id : String) × (parent_id ≡ some id) × (is_found (find id by_id) ≡ valid)
  known_id none e = cc
  known_id (some id) e = (id, refl, e)

  fits-IsOutcome : (parent : ResearchScopeDefinition) → IsOutcome (fits (some parent) scope)
  unfolding fits
  fits-IsOutcome parent =
      let typed = is_allowed_parent parent.scope_type scope.scope_type in
      let within = contains_interval parent.validity scope.validity in
      and_then-IsOutcome (require typed "invalid parent-child scope types")
        (require within "scope validity exceeds its parent") (require-IsOutcome typed _)
        (λ e. require-IsOutcome within _)

  -- The third loop looks up only what the first has found.
  check_parent-IsOutcome : check_known by_id scope ≡ valid → IsOutcome (check_parent by_id scope)
  unfolding fits
  check_parent-IsOutcome e = elim (root_or_checked (is_global scope.scope_type) _ e) [
    | inl root ↦ rw root (inl refl)
    | inr (child, rest) ↦
        let (id, named, known) = known_id scope.parent_scope_id rest in
        let (parent, found) = is_found-some (find id by_id) known in
        rw (child, named, found) (fits-IsOutcome parent)
  ]

module _ (scopes : List ResearchScopeDefinition) (by_id : Scopes)
    (built : unique_by (λ (s : ResearchScopeDefinition). s.scope_id) scopes [] ≡ some by_id)
    (identified : All IsIdentified scopes) where
  check_acyclic-IsOutcome :
      (scope : ResearchScopeDefinition) → In scope scopes → IsOutcome (check_acyclic by_id scope)
  unfolding check_acyclic
  check_acyclic-IsOutcome scope m = walk-IsOutcome by_id (suc (length by_id)) [] (some scope) (
      check_acyclic_ends by_id
        (λ id s e. present scopes by_id built s (named_member scopes by_id built id s e).0) scope
        (present scopes by_id built scope m))

  check_hierarchy-IsOutcome : IsOutcome (check_hierarchy scopes by_id)
  unfolding check_hierarchy
  check_hierarchy-IsOutcome =
      let known = for_each (check_known by_id) scopes in
      let acyclic = for_each (check_acyclic by_id) scopes in
      let parents = for_each (check_parent by_id) scopes in
      and_then-IsOutcome
        (require (count_global scopes == 1) "scope hierarchy requires one GLOBAL root")
        (known and_then acyclic and_then parents) (require-IsOutcome (count_global scopes == 1) _)
        (λ rooted.
          and_then-IsOutcome known (acyclic and_then parents)
            (for_each-IsOutcome (check_known by_id) scopes
              (All-map _ _ (check_known-IsOutcome by_id) scopes identified))
            (λ found.
              and_then-IsOutcome acyclic parents
                (for_each-IsOutcome (check_acyclic by_id) scopes
                  (All-In _ scopes check_acyclic-IsOutcome))
                (λ acyclic_all. for_each-IsOutcome (check_parent by_id) scopes (
                  All-map _ _ (check_parent-IsOutcome by_id) scopes
                    ((for_each_iff (check_known by_id) scopes).0 found)))))

-- For scopes that have passed their own validator, validate_scope_hierarchy passes or raises a
-- SectorOntologyValidationError: each while loop ends within a round for each scope and one more,
-- no assertion fails and no lookup raises a KeyError.
pub validate_scope_hierarchy-IsOutcome :
    (scopes : List ResearchScopeDefinition)
    → All IsIdentified scopes
    → IsOutcome (validate_scope_hierarchy scopes)
unfolding validate_scope_hierarchy
validate_scope_hierarchy-IsOutcome scopes identified =
    elim (Option-cases (unique_by (λ (s : ResearchScopeDefinition). s.scope_id) scopes [])) [
      | inl twice ↦ rw twice (inr ("duplicate scope_id", refl))
      | inr (by_id, built) ↦ rw built (check_hierarchy-IsOutcome scopes by_id built identified)
    ]

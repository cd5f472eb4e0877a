-- ===== src/Ontology/Placement.antt =====
-- The dictionary of a scope set, and what the loops over it say of a scope's parent.
use deepinsight.Prelude.{
  ◌≡◌, refl, sym, ap, ◌∙◌, ◌⊎◌, inl, inr, String, Bool, true, false, Option, none, some, List, [],
  if◌then◌else◌, Bool-cases, In,
}
use deepinsight.Ontology.Records.{ResearchScopeDefinition, contains_interval}
use deepinsight.Ontology.Checks.{Check, valid, find, unique_by}
use deepinsight.Ontology.Scopes.{
  Scopes, is_global, is_allowed_parent, check_known, fits, parent_fits, check_parent,
}
use deepinsight.Ontology.Passing.{and_then_iff, require_iff}
use deepinsight.Ontology.Intervals.{IsWithin, contains_interval_iff}
use deepinsight.Ontology.Table.{find_present, find_member}

-- The parent of a scope, in the set.
pub record HasParent (scopes : List ResearchScopeDefinition) (scope : ResearchScopeDefinition)
    : Type 0 where
  pub parent : ResearchScopeDefinition
  pub member : In parent scopes
  pub named : scope.parent_scope_id ≡ some parent.scope_id
  pub typed : is_allowed_parent parent.scope_type scope.scope_type ≡ true
  pub within : IsWithin parent.validity scope.validity

abbrev pub IsPlaced : List ResearchScopeDefinition → ResearchScopeDefinition → Type 0
IsPlaced scopes scope = (is_global scope.scope_type ≡ true) ⊎ HasParent scopes scope

pub root_or_checked :
    (root : Bool) (rest : Check)
    → (if root then valid else rest) ≡ valid
    → (root ≡ true) ⊎ ((root ≡ false) × (rest ≡ valid))
root_or_checked true rest e = inl refl
root_or_checked false rest e = inr (refl, e)

fitted_id :
    (by_id : Scopes) (scope : ResearchScopeDefinition) (parent_id : Option String)
    → parent_fits by_id parent_id scope ≡ valid
    → (id : String) × (parent_id ≡ some id) × (fits (find id by_id) scope ≡ valid)
fitted_id by_id scope none e = cc
fitted_id by_id scope (some id) e = (id, refl, e)

fitted_parent :
    (scope : ResearchScopeDefinition) (found : Option ResearchScopeDefinition)
    → fits found scope ≡ valid
    → (parent : ResearchScopeDefinition) × (found ≡ some parent)
      × (is_allowed_parent parent.scope_type scope.scope_type ≡ true)
      × (contains_interval parent.validity scope.validity ≡ true)
unfolding fits
fitted_parent scope none e = cc
fitted_parent scope (some parent) e =
    let (typed, within) = (and_then_iff _ _).0 e in
    (parent, refl, (require_iff _ _).0 typed, (require_iff _ _).0 within)

module _ (scopes : List ResearchScopeDefinition) (by_id : Scopes)
    (built : unique_by (λ (s : ResearchScopeDefinition). s.scope_id) scopes [] ≡ some by_id) where
  pub present :
      (scope : ResearchScopeDefinition) → In scope scopes → find scope.scope_id by_id ≡ some scope
  present = find_present (λ (s : ResearchScopeDefinition). s.scope_id) scopes by_id built

  pub named_member :
      (id : String) (scope : ResearchScopeDefinition)
      → find id by_id ≡ some scope
      → In scope scopes × (scope.scope_id ≡ id)
  named_member = find_member (λ (s : ResearchScopeDefinition). s.scope_id) scopes by_id built

  -- What the third loop checks.
  pub checked_parent :
      (scope : ResearchScopeDefinition) → check_parent by_id scope ≡ valid → IsPlaced scopes scope
  checked_parent scope e = elim (root_or_checked (is_global scope.scope_type) _ e) [
    | inl root ↦ inl root
    | inr (child, rest) ↦
        let (id, named, fitting) = fitted_id by_id scope scope.parent_scope_id rest in
        let (parent, found, typed, within) = fitted_parent scope (find id by_id) fitting in
        let (m, same) = named_member id parent found in
        inr (record {
          parent = parent;
          member = m;
          named = named ∙ ap some (sym same);
          typed = typed;
          within = (contains_interval_iff parent.validity scope.validity).0 within;
        })
  ]

  pub known_parent :
      (scope : ResearchScopeDefinition) → IsPlaced scopes scope → check_known by_id scope ≡ valid
  known_parent scope p = elim (Bool-cases (is_global scope.scope_type)) [
    | inl root ↦ rw root refl
    | inr child ↦ elim p [
      | inl root ↦ rw root refl
      | inr h ↦ rw (child, h.named, present h.parent h.member) refl
    ]
  ]

  pub fitting_parent :
      (scope : ResearchScopeDefinition) → IsPlaced scopes scope → check_parent by_id scope ≡ valid
  unfolding fits
  fitting_parent scope p = elim (Bool-cases (is_global scope.scope_type)) [
    | inl root ↦ rw root refl
    | inr child ↦ elim p [
      | inl root ↦ rw root refl
      | inr h ↦
          rw
            (
              child,
              h.named,
              present h.parent h.member,
              h.typed,
              (contains_interval_iff h.parent.validity scope.validity).1 h.within,
            )
            refl
    ]
  ]

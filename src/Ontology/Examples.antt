-- ===== src/Ontology/Examples.antt =====
-- Tests of the ontology: the seed that is installed, and hierarchies that are refused.
use deepinsight.Prelude.{◌≡◌, refl, ◌↔◌, String, Option, none, some, List, [], ◌∷◌, All}
use deepinsight.Ontology.Records.{global, macro, ResearchScopeDefinition}
use deepinsight.Ontology.Checks.{valid, invalid}
use deepinsight.Ontology.Scopes.{validate_scope_identity, validate_scope_hierarchy}
use deepinsight.Ontology.Hierarchy.{IsIdentified, IsHierarchy, validate_scope_hierarchy_iff}
use deepinsight.Ontology.Outcomes.{IsOutcome, validate_scope_hierarchy-IsOutcome}
use deepinsight.Ontology.Validation.{validate_sector_ontology_seed}
use deepinsight.Ontology.Accepted.{IsClosed, validate_sector_ontology_seed_iff}
use deepinsight.Ontology.Seed.{seed_scopes, seed_v1, from_2026, build_sector_ontology_seed_v1}

seed_is_valid : build_sector_ontology_seed_v1.0 ≡ valid
unfolding build_sector_ontology_seed_v1
seed_is_valid = refl

abbrev scope : String → Option String → ResearchScopeDefinition
scope scope_id parent_id = record {
  scope_type = macro;
  scope_id = scope_id;
  parent_scope_id = parent_id;
  validity = from_2026;
}

abbrev root : ResearchScopeDefinition
root = record {
  scope_type = global;
  scope_id = "GLOBAL:G";
  parent_scope_id = none;
  validity = from_2026;
}

-- Two scopes that are each other's parent.
abbrev looped : List ResearchScopeDefinition
looped = root ∷ scope "MACRO:A" (some "MACRO:B") ∷ scope "MACRO:B" (some "MACRO:A") ∷ []

looped_refused : validate_scope_hierarchy looped ≡ invalid "scope hierarchy contains a cycle"
unfolding validate_scope_hierarchy
looped_refused = refl

rootless_refused :
    validate_scope_hierarchy (scope "MACRO:A" (some "MACRO:B") ∷ [])
    ≡ invalid "scope hierarchy requires one GLOBAL root"
unfolding validate_scope_hierarchy
rootless_refused = refl

twin_refused : validate_scope_hierarchy (root ∷ root ∷ []) ≡ invalid "duplicate scope_id"
unfolding validate_scope_hierarchy
twin_refused = refl

seed_scopes-IsIdentified : All IsIdentified seed_scopes
unfolding validate_scope_identity
seed_scopes-IsIdentified = (
  refl,
  (
    refl,
    (
      refl,
      (refl, (refl, (refl, (refl, (refl, (refl, (refl, (refl, (refl, (refl, (refl, tt))))))))))),
    ),
  ),
)

looped-IsIdentified : All IsIdentified looped
unfolding validate_scope_identity
looped-IsIdentified = (refl, (refl, (refl, tt)))

validate_scope_hierarchy_iff_example :
    (validate_scope_hierarchy seed_scopes ≡ valid) ↔ IsHierarchy seed_scopes
validate_scope_hierarchy_iff_example =
    validate_scope_hierarchy_iff seed_scopes seed_scopes-IsIdentified

validate_scope_hierarchy-IsOutcome_example : IsOutcome (validate_scope_hierarchy looped)
validate_scope_hierarchy-IsOutcome_example =
    validate_scope_hierarchy-IsOutcome looped looped-IsIdentified

validate_sector_ontology_seed_iff_example :
    (validate_sector_ontology_seed seed_v1 ≡ valid) ↔ IsClosed seed_v1
validate_sector_ontology_seed_iff_example =
    validate_sector_ontology_seed_iff seed_v1 seed_scopes-IsIdentified

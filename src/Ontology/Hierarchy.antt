-- ===== src/Ontology/Hierarchy.antt =====
-- `validate_scope_hierarchy` accepts exactly the typed, rooted hierarchies.
use deepinsight.Prelude.{
  ℕ, zero, suc, ◌<◌, ◌≡◌, ◌≢◌, refl, sym, ap, ◌∙◌, ◌↔◌, ◌⊎◌, inl, inr, String, Bool, true, false,
  not, Option, none, some, List, [], ◌∷◌, length, if◌then◌else◌, ==_iff, same_text, eq_iff,
  Bool-cases, All, In, In-All, All-In, arith, subst,
}
use deepinsight.Ontology.Records.{
  ResearchScopeType, global, macro, sector, industry_chain, asset, research_episode,
  ResearchScopeDefinition,
}
use deepinsight.Ontology.Checks.{valid, unfinished, find, unique_by}
use deepinsight.Ontology.Scopes.{
  Scopes, is_global, is_allowed_parent, count_global, is_visited, walk, check_known, check_acyclic,
  check_parent, check_hierarchy, validate_scope_hierarchy, validate_scope_identity,
  check_parent_type,
}
use deepinsight.Ontology.Passing.{and_then_iff, require_iff, for_each_iff, All-map}
use deepinsight.Ontology.Lookup.{IsUnique}
use deepinsight.Ontology.Placement.{
  IsPlaced, present, named_member, checked_parent, known_parent, fitting_parent,
}
use deepinsight.Ontology.Table.{with_unique_iff}
use deepinsight.Ontology.Walking.{check_acyclic_ends}

-- One root, distinct identifiers, and a parent of an allowed type and a containing validity for every
-- other scope.
pub record IsHierarchy (scopes : List ResearchScopeDefinition) : Type 0 where
  pub unique : IsUnique (λ (s : ResearchScopeDefinition). s.scope_id) scopes
  pub one_root : count_global scopes ≡ 1
  pub placed : All (IsPlaced scopes) scopes

-- What the scope's own validator leaves: a root has no parent.
abbrev pub IsIdentified : ResearchScopeDefinition → Type 0
IsIdentified scope = validate_scope_identity scope ≡ valid

-- The distance of a type from the root's.
abbrev rank : ResearchScopeType → ℕ
rank global = 0
rank macro = 1
rank sector = 2
rank industry_chain = 3
rank asset = 4
rank research_episode = 5

rank_allowed : (p c : ResearchScopeType) → is_allowed_parent p c ≡ true → rank p < rank c
rank_allowed p c e = ground arith

not_both : (b : Bool) → not b ≡ true → b ≢ true
not_both true e g = cc
not_both false e g = cc

parentless :
    (scope_type : ResearchScopeType) (parent_id : Option String)
    → check_parent_type scope_type parent_id ≡ valid
    → is_global scope_type ≡ true
    → parent_id ≡ none
parentless scope_type none e g = refl
parentless scope_type (some parent_id) e g =
    absurd (not_both (is_global scope_type) ((require_iff _ _).0 e) g)

root-parentless :
    (scope : ResearchScopeDefinition)
    → IsIdentified scope
    → is_global scope.scope_type ≡ true
    → scope.parent_scope_id ≡ none
unfolding validate_scope_identity
root-parentless scope e g =
    let (_, rest) = (and_then_iff _ _).0 e in
    let (typed, _) = (and_then_iff _ _).0 rest in
    parentless scope.scope_type scope.parent_scope_id typed g

now_or_before : (b c : Bool) → (if b then true else c) ≡ true → (b ≡ true) ⊎ (c ≡ true)
now_or_before true c e = inl refl
now_or_before false c e = inr e

module _ (scopes : List ResearchScopeDefinition) (by_id : Scopes)
    (built : unique_by (λ (s : ResearchScopeDefinition). s.scope_id) scopes [] ≡ some by_id) where
  -- Every scope that the loop has visited is of a type further from the root.
  abbrev IsAbove : ResearchScopeDefinition → List String → Type 0
  IsAbove current visited =
      (s : ResearchScopeDefinition)
      → In s scopes
      → is_visited s.scope_id visited ≡ true
      → rank current.scope_type < rank s.scope_type

  walk_root :
      (fuel : ℕ) (visited : List String)
      → (walk by_id fuel visited none ≡ valid) ⊎ (walk by_id fuel visited none ≡ unfinished)
  unfolding walk
  walk_root zero visited = inr refl
  walk_root (suc fuel) visited = inl refl

  module _ (identified : All IsIdentified scopes) (placed : All (IsPlaced scopes) scopes) where
    IsAbove-next :
        (current : ResearchScopeDefinition) (visited : List String)
        → In current scopes
        → IsAbove current visited
        → (parent : ResearchScopeDefinition) → rank parent.scope_type < rank current.scope_type
        → IsAbove parent (current.scope_id ∷ visited)
    IsAbove-next current visited m above parent lower s n seen =
        elim (now_or_before (same_text current.scope_id s.scope_id) _ seen) [
          | inl same ↦
              let equal = (eq_iff current.scope_id s.scope_id).0 same in
              let one : some current ≡ some s =
                sym (present scopes by_id built current m)
                ∙ ap (λ id. find id by_id) equal
                ∙ present scopes by_id built s n in
              let twin : current ≡ s = cc in
              subst (λ (t : ResearchScopeDefinition). rank parent.scope_type < rank t.scope_type)
                twin lower
          | inr before ↦ omega (arith, above s n before, lower)
        ]

    walk_climbs :
        (fuel : ℕ) (visited : List String) (current : ResearchScopeDefinition)
        → In current scopes
        → IsAbove current visited
        → (walk by_id fuel visited (some current) ≡ valid)
          ⊎ (walk by_id fuel visited (some current) ≡ unfinished)
    unfolding walk
    walk_climbs zero visited current m above = inr refl
    walk_climbs (suc fuel) visited current m above =
        elim (Bool-cases (is_visited current.scope_id visited)) [
          | inl seen ↦ absurd (let wrong = above current m seen in omega (arith, wrong))
          | inr new ↦ elim (In-All (IsPlaced scopes) scopes placed current m) [
            | inl root ↦
                let orphan =
                  root-parentless current (In-All IsIdentified scopes identified current m) root in
                rw (new, orphan) (walk_root fuel (current.scope_id ∷ visited))
            | inr h ↦
                let lower = rank_allowed h.parent.scope_type current.scope_type h.typed in
                rw (new, h.named, present scopes by_id built h.parent h.member)
                  (walk_climbs fuel (current.scope_id ∷ visited) h.parent h.member
                    (IsAbove-next current visited m above h.parent lower))
          ]
        ]

    acyclic :
        (scope : ResearchScopeDefinition) → In scope scopes → check_acyclic by_id scope ≡ valid
    unfolding check_acyclic
    acyclic scope m = elim (walk_climbs (suc (length by_id)) [] scope m (λ s n seen. absurd (cc))) [
      | inl e ↦ e
      | inr wrong ↦ absurd (
          check_acyclic_ends by_id
            (λ id s e. present scopes by_id built s (named_member scopes by_id built id s e).0)
            scope (present scopes by_id built scope m) wrong)
    ]

  hierarchy_checked :
      check_hierarchy scopes by_id ≡ valid
      → (count_global scopes ≡ 1) × All (IsPlaced scopes) scopes
  unfolding check_hierarchy
  hierarchy_checked e =
      let (rooted, loops) = (and_then_iff _ _).0 e in
      let (_, rest) = (and_then_iff _ _).0 loops in
      let (_, parents) = (and_then_iff _ _).0 rest in
      (
        (==_iff (count_global scopes) 1).0 ((require_iff _ _).0 rooted),
        All-map _ _ (checked_parent scopes by_id built) scopes
            ((for_each_iff (check_parent by_id) scopes).0 parents),
      )

  checked_hierarchy :
      All IsIdentified scopes
      → (count_global scopes ≡ 1) × All (IsPlaced scopes) scopes
      → check_hierarchy scopes by_id ≡ valid
  unfolding check_hierarchy
  checked_hierarchy identified h = (and_then_iff _ _).1 (
    (require_iff _ _).1 ((==_iff (count_global scopes) 1).1 h.0),
    (and_then_iff _ _).1 (
      (for_each_iff (check_known by_id) scopes).1
          (All-map _ _ (known_parent scopes by_id built) scopes h.1),
      (and_then_iff _ _).1 (
        (for_each_iff (check_acyclic by_id) scopes).1 (All-In _ scopes (acyclic identified h.1)),
        (for_each_iff (check_parent by_id) scopes).1
            (All-map _ _ (fitting_parent scopes by_id built) scopes h.1),
      ),
    ),
  )

-- For scopes that have passed their own validator, validate_scope_hierarchy passes exactly if the
-- identifiers are distinct, one scope is GLOBAL, and every other scope has a parent in the set of
-- a type allowed for its own whose validity interval contains its own; so the search for cycles
-- refuses nothing that the types do not.
pub validate_scope_hierarchy_iff :
    (scopes : List ResearchScopeDefinition)
    → All IsIdentified scopes
    → (validate_scope_hierarchy scopes ≡ valid) ↔ IsHierarchy scopes
unfolding validate_scope_hierarchy
validate_scope_hierarchy_iff scopes identified =
    let (down, up) =
      with_unique_iff (λ (s : ResearchScopeDefinition). s.scope_id) scopes "duplicate scope_id"
        (check_hierarchy scopes) ((count_global scopes ≡ 1) × All (IsPlaced scopes) scopes)
        (λ by_id built. (
          hierarchy_checked scopes by_id built,
          checked_hierarchy scopes by_id built identified,
        )) in
    (
      λ e.
          let (unique, (one_root, placed)) = down e in
          record { unique = unique; one_root = one_root; placed = placed },
      λ h. up (h.unique, (h.one_root, h.placed)),
    )

-- ===== src/Ontology/Scopes.antt =====
-- `validate_scope_hierarchy`, and the validator of one scope.
use deepinsight.Prelude.{
  ℕ, zero, suc, String, Bool, true, false, not, Option, none, some, List, [], ◌∷◌, length,
  if◌then◌else◌, ◌==◌, same_text, starts_with,
}
use deepinsight.Ontology.Records.{
  ResearchScopeType, global, macro, sector, industry_chain, asset, research_episode,
  ResearchScopeDefinition, contains_interval,
}
use deepinsight.Ontology.Checks.{
  Check, valid, invalid, assertion_failed, key_error, unfinished, ◌and_then◌, require, for_each,
  find, unique_by, with_unique,
}

abbrev pub is_global : ResearchScopeType → Bool
is_global global = true
is_global macro = false
is_global sector = false
is_global industry_chain = false
is_global asset = false
is_global research_episode = false

-- `parent in _ALLOWED_PARENTS[child]`
abbrev pub is_allowed_parent : (parent child : ResearchScopeType) → Bool
is_allowed_parent global macro = true
is_allowed_parent macro sector = true
is_allowed_parent sector industry_chain = true
is_allowed_parent sector asset = true
is_allowed_parent industry_chain asset = true
is_allowed_parent asset research_episode = true
is_allowed_parent _ _ = false

-- `_SCOPE_PREFIX`
abbrev pub scope_prefix : ResearchScopeType → String
scope_prefix global = "GLOBAL:"
scope_prefix macro = "MACRO:"
scope_prefix sector = "SECTOR:"
scope_prefix industry_chain = "CHAIN:"
scope_prefix asset = "ASSET:"
scope_prefix research_episode = "EPISODE:"

abbrev pub count_global : List ResearchScopeDefinition → ℕ
count_global [] = 0
count_global (scope ∷ scopes) =
    let n = count_global scopes in if is_global scope.scope_type then suc n else n

abbrev pub Scopes : Type 0
Scopes = List (String × ResearchScopeDefinition)

abbrev pub is_found : Option ResearchScopeDefinition → Check
is_found none = invalid "scope references unknown parent"
is_found (some parent) = valid

abbrev pub parent_is_known : Scopes → Option String → Check
parent_is_known by_id none = assertion_failed
parent_is_known by_id (some parent_id) = is_found (find parent_id by_id)

-- The first loop.
abbrev pub check_known : Scopes → ResearchScopeDefinition → Check
check_known by_id scope =
    if is_global scope.scope_type then valid else parent_is_known by_id scope.parent_scope_id

abbrev pub is_visited : String → List String → Bool
is_visited id [] = false
is_visited id (v ∷ visited) = if same_text v id then true else is_visited id visited

abbrev pub parent_of : Scopes → Option String → Option ResearchScopeDefinition
parent_of by_id none = none
parent_of by_id (some parent_id) = find parent_id by_id

-- The `while` loop, with at most `fuel` rounds.
unfoldable pub walk :
    Scopes → (fuel : ℕ) → (visited : List String) → Option ResearchScopeDefinition → Check
walk by_id zero visited current = unfinished
walk by_id (suc fuel) visited none = valid
walk by_id (suc fuel) visited (some current) =
    let rest =
      walk by_id fuel (current.scope_id ∷ visited) (parent_of by_id current.parent_scope_id) in
    if is_visited current.scope_id visited then invalid "scope hierarchy contains a cycle" else rest

-- A round for each scope, and one to see the end.
unfoldable pub check_acyclic : Scopes → ResearchScopeDefinition → Check
unfolding walk
check_acyclic by_id scope = walk by_id (suc (length by_id)) [] (some scope)

unfoldable pub fits : (parent : Option ResearchScopeDefinition) → ResearchScopeDefinition → Check
unfolding contains_interval
fits none scope = key_error
fits (some parent) scope =
    require (is_allowed_parent parent.scope_type scope.scope_type)
      "invalid parent-child scope types"
    and_then require (contains_interval parent.validity scope.validity)
        "scope validity exceeds its parent"

abbrev pub parent_fits : Scopes → Option String → ResearchScopeDefinition → Check
parent_fits by_id none scope = assertion_failed
parent_fits by_id (some parent_id) scope = fits (find parent_id by_id) scope

-- The third loop.
abbrev pub check_parent : Scopes → ResearchScopeDefinition → Check
check_parent by_id scope =
    if is_global scope.scope_type then valid else parent_fits by_id scope.parent_scope_id scope

unfoldable pub check_hierarchy : List ResearchScopeDefinition → Scopes → Check
unfolding check_acyclic fits
check_hierarchy scopes by_id =
    require (count_global scopes == 1) "scope hierarchy requires one GLOBAL root"
    and_then for_each (check_known by_id) scopes
    and_then for_each (check_acyclic by_id) scopes
    and_then for_each (check_parent by_id) scopes

unfoldable pub validate_scope_hierarchy : List ResearchScopeDefinition → Check
unfolding unique_by check_hierarchy
validate_scope_hierarchy scopes =
    with_unique (unique_by (λ (scope : ResearchScopeDefinition). scope.scope_id) scopes [])
      "duplicate scope_id" (check_hierarchy scopes)

-- `ResearchScopeDefinition.validate_scope_identity`
abbrev pub check_parent_type : ResearchScopeType → Option String → Check
check_parent_type scope_type none =
    require (is_global scope_type) "non-GLOBAL scope requires parent_scope_id"
check_parent_type scope_type (some parent_id) =
    require (not (is_global scope_type)) "GLOBAL scope cannot have a parent"

abbrev pub is_own_parent : String → Option String → Bool
is_own_parent scope_id none = false
is_own_parent scope_id (some parent_id) = same_text scope_id parent_id

unfoldable pub validate_scope_identity : ResearchScopeDefinition → Check
validate_scope_identity scope =
    require (starts_with scope.scope_id (scope_prefix scope.scope_type))
      "scope_id prefix does not match scope_type"
    and_then check_parent_type scope.scope_type scope.parent_scope_id
    and_then require (not (is_own_parent scope.scope_id scope.parent_scope_id))
        "scope cannot parent itself"

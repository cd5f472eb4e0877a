-- ===== src/Ontology/Walking.antt =====
-- The `while` loop ends: each round visits a scope more.
use deepinsight.Prelude.{
  ℕ, zero, suc, ◌≤◌, ◌<◌, ◌≡◌, ◌≢◌, refl, ap, inl, inr, String, Bool, true, false, Option, none,
  some, List, [], ◌∷◌, length, if◌then◌else◌, same_text, eq_iff, eq_refl, Option-cases,
  found_or_rest, arith,
}
use deepinsight.Ontology.Records.{ResearchScopeDefinition}
use deepinsight.Ontology.Checks.{Check, invalid, unfinished, find}
use deepinsight.Ontology.Scopes.{Scopes, is_visited, parent_of, walk, check_acyclic}

-- The scopes that the loop has not met.
unvisited : Scopes → List String → ℕ
unvisited [] visited = 0
unvisited ((id, scope) ∷ rest) visited =
    let n = unvisited rest visited in if is_visited id visited then n else suc n

unvisited-le :
    (by_id : Scopes) (id : String) (visited : List String)
    → unvisited by_id (id ∷ visited) ≤ unvisited by_id visited
unfolding unvisited
unvisited-le [] id visited = omega arith
unvisited-le ((k, scope) ∷ rest) id visited = ground (arith, unvisited-le rest id visited)

unvisited-lt :
    (by_id : Scopes) (id : String) (visited : List String) (scope : ResearchScopeDefinition)
    → find id by_id ≡ some scope
    → is_visited id visited ≡ false
    → unvisited by_id (id ∷ visited) < unvisited by_id visited
unfolding unvisited
unvisited-lt [] id visited scope e new = cc
unvisited-lt ((k, s) ∷ rest) id visited scope e new =
    elim (found_or_rest (same_text k id) s (find id rest) scope e) [
      | inl (same, _) ↦
          let equal = (eq_iff k id).0 same in
          let here : is_visited k visited ≡ false = rw equal new in
          let back : same_text id k ≡ true = rw equal (eq_refl id) in
          rw (here, back) (omega (arith, unvisited-le rest id visited))
      | inr (_, later) ↦ ground (arith, unvisited-lt rest id visited scope later new)
    ]

unvisited-length : (by_id : Scopes) → unvisited by_id [] ≡ length by_id
unfolding unvisited
unvisited-length [] = refl
unvisited-length ((k, s) ∷ rest) = ap suc (unvisited-length rest)

-- A scope of the table, under its identifier.
abbrev pub IsListed : Scopes → Option ResearchScopeDefinition → Type 0
IsListed by_id none = Unit
IsListed by_id (some scope) = find scope.scope_id by_id ≡ some scope

goes_on :
    (seen : Bool) (rest : Check)
    → (if seen then invalid "scope hierarchy contains a cycle" else rest) ≡ unfinished
    → (seen ≡ false) × (rest ≡ unfinished)
goes_on true rest e = cc
goes_on false rest e = (refl, e)

module _ (by_id : Scopes)
    (listed : (id : String) (scope : ResearchScopeDefinition)
      → find id by_id ≡ some scope
      → find scope.scope_id by_id ≡ some scope) where
  parent_of-IsListed : (parent_id : Option String) → IsListed by_id (parent_of by_id parent_id)
  parent_of-IsListed none = tt
  parent_of-IsListed (some id) = elim (Option-cases (find id by_id)) [
    | inl e ↦ rw e tt
    | inr (scope, e) ↦ rw e (listed id scope e)
  ]

  walk_ends :
      (fuel : ℕ) (visited : List String) (current : Option ResearchScopeDefinition)
      → IsListed by_id current
      → unvisited by_id visited < fuel
      → walk by_id fuel visited current ≢ unfinished
  unfolding walk
  walk_ends zero visited current l h e = omega arith
  walk_ends (suc fuel) visited none l h e = cc
  walk_ends (suc fuel) visited (some current) l h e =
      let (new, rest) = goes_on (is_visited current.scope_id visited) _ e in
      walk_ends fuel (current.scope_id ∷ visited) (parent_of by_id current.parent_scope_id)
        (parent_of-IsListed current.parent_scope_id)
        (omega (arith, unvisited-lt by_id current.scope_id visited current l new, h)) rest

  pub check_acyclic_ends :
      (scope : ResearchScopeDefinition)
      → find scope.scope_id by_id ≡ some scope
      → check_acyclic by_id scope ≢ unfinished
  unfolding check_acyclic
  check_acyclic_ends scope l =
      walk_ends (suc (length by_id)) [] (some scope) l (omega (arith, unvisited-length by_id))

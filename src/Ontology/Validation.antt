-- ===== src/Ontology/Validation.antt =====
-- `validate_sector_ontology_seed`.
use deepinsight.Prelude.{
  String, Bool, true, false, ◌&&◌, Option, none, some, List, [], ◌∷◌, length, if◌then◌else◌, ◌==◌,
  same_text,
}
use deepinsight.Ontology.Records.{
  IndustryChainDefinition, SectorMembership, SectorNode, SectorEdge, SectorOntologySeed,
  contains_interval,
}
use deepinsight.Ontology.Checks.{
  Check, invalid, ◌and_then◌, require, for_each, find, unique_by, with_unique,
}
use deepinsight.Ontology.Scopes.{validate_scope_hierarchy}

-- `SectorId`, by its values.
abbrev pub sector_ids : List String
sector_ids =
    "S01" ∷ "S02" ∷ "S03" ∷ "S04" ∷ "S05" ∷ "S06" ∷ "S07" ∷ "S08" ∷ "S09" ∷ "S10" ∷ "S11" ∷ "S12"
    ∷ "S13" ∷ "S14" ∷ "S15" ∷ "S16" ∷ "S17" ∷ "S18" ∷ []

abbrev pub is_text_in : String → List String → Bool
is_text_in text [] = false
is_text_in text (t ∷ texts) = if same_text t text then true else is_text_in text texts

abbrev pub is_subset : List String → List String → Bool
is_subset [] texts = true
is_subset (t ∷ ts) texts = is_text_in t texts && is_subset ts texts

unfoldable pub has_all_sectors : List String → Bool
has_all_sectors sectors =
    is_subset sectors sector_ids && is_subset sector_ids sectors && (length sectors == 18)

abbrev pub chain_matches : Option IndustryChainDefinition → SectorMembership → Check
chain_matches none membership = invalid "membership references unknown Industry Chain"
chain_matches (some chain) membership =
    require (same_text chain.sector_id membership.sector_id)
      "membership Industry Chain belongs to a different Sector"
    and_then require (contains_interval chain.validity membership.validity)
        "membership validity exceeds its Industry Chain"

unfoldable pub check_membership :
    List String → List (String × IndustryChainDefinition) → SectorMembership → Check
check_membership sectors chain_by_id membership =
    require (is_text_in membership.sector_id sectors) "membership references unknown Sector"
    and_then for_each (λ chain_id. chain_matches (find chain_id chain_by_id) membership)
        membership.chain_ids

abbrev pub ends_match : (source target : Option SectorNode) → SectorEdge → Check
ends_match none target edge = invalid "edge references unknown Sector node"
ends_match (some source) none edge = invalid "edge references unknown Sector node"
ends_match (some source) (some target) edge =
    require
      (contains_interval source.validity edge.validity
        && contains_interval target.validity edge.validity)
      "edge validity exceeds an endpoint"

unfoldable pub check_edge : List (String × SectorNode) → SectorEdge → Check
check_edge node_by_id edge =
    ends_match (find edge.source_node_id node_by_id) (find edge.target_node_id node_by_id) edge

unfoldable pub check_graph : SectorOntologySeed → List (String × SectorNode) → Check
unfolding check_edge unique_by validate_scope_hierarchy
check_graph seed node_by_id =
    with_unique (unique_by (λ (e : SectorEdge). e.edge_id) seed.edges []) "duplicate edge_id"
      (λ edge_by_id.
        for_each (check_edge node_by_id) seed.edges and_then validate_scope_hierarchy seed.scopes)

unfoldable pub check_references :
    SectorOntologySeed → List (String × IndustryChainDefinition) → Check
unfolding check_membership check_graph unique_by
check_references seed chain_by_id =
    for_each
      (λ (chain : IndustryChainDefinition).
        require (is_text_in chain.sector_id seed.sectors)
          "Industry Chain references unknown Sector")
      seed.chains
    and_then for_each (check_membership seed.sectors chain_by_id) seed.memberships
    and_then with_unique (unique_by (λ (n : SectorNode). n.node_id) seed.nodes [])
        "duplicate node_id" (check_graph seed)

unfoldable pub validate_sector_ontology_seed : SectorOntologySeed → Check
unfolding has_all_sectors check_references unique_by
validate_sector_ontology_seed seed =
    require (has_all_sectors seed.sectors)
      "Sector Ontology v1 must contain exactly the stable 18 sectors"
    and_then with_unique (unique_by (λ (c : IndustryChainDefinition). c.chain_id) seed.chains [])
        "duplicate chain_id" (check_references seed)

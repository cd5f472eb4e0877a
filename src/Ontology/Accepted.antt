-- ===== src/Ontology/Accepted.antt =====
-- What `validate_sector_ontology_seed` accepts.
use deepinsight.Prelude.{◌≡◌, refl, ◌↔◌, String, true, some, List, [], All}
use deepinsight.Ontology.Records.{
  IndustryChainDefinition, SectorMembership, SectorNode, SectorEdge, SectorOntologySeed,
}
use deepinsight.Ontology.Checks.{valid, unique_by}
use deepinsight.Ontology.Passing.{
  and_then_iff, require_iff, for_each_iff, All-iff, iff_trans, iff_pair,
}
use deepinsight.Ontology.Lookup.{IsUnique}
use deepinsight.Ontology.Table.{with_unique_iff}
use deepinsight.Ontology.Hierarchy.{IsIdentified, IsHierarchy, validate_scope_hierarchy_iff}
use deepinsight.Ontology.Validation.{
  is_text_in, has_all_sectors, check_membership, check_edge, check_graph, check_references,
  validate_sector_ontology_seed,
}
use deepinsight.Ontology.References.{
  HasChain, HasEnds, chain_found, chain_matched, ends_found, ends_matched,
}

abbrev pub IsPlacedMembership : SectorOntologySeed → SectorMembership → Type 0
IsPlacedMembership seed membership =
    (is_text_in membership.sector_id seed.sectors ≡ true)
    × All (HasChain seed.chains membership) membership.chain_ids

-- Every reference of the seed leads to an object of it that is valid for long enough.
pub record IsClosed (seed : SectorOntologySeed) : Type 0 where
  pub sectors : has_all_sectors seed.sectors ≡ true
  pub unique_chains : IsUnique (λ (c : IndustryChainDefinition). c.chain_id) seed.chains
  pub chains :
      All (λ (c : IndustryChainDefinition). is_text_in c.sector_id seed.sectors ≡ true) seed.chains
  pub memberships : All (IsPlacedMembership seed) seed.memberships
  pub unique_nodes : IsUnique (λ (n : SectorNode). n.node_id) seed.nodes
  pub unique_edges : IsUnique (λ (e : SectorEdge). e.edge_id) seed.edges
  pub edges : All (HasEnds seed.nodes) seed.edges
  pub hierarchy : IsHierarchy seed.scopes

module _ (seed : SectorOntologySeed) (identified : All IsIdentified seed.scopes) where
  membership_iff :
      (by_id : List (String × IndustryChainDefinition))
      → unique_by (λ (c : IndustryChainDefinition). c.chain_id) seed.chains [] ≡ some by_id
      → (membership : SectorMembership)
      → (check_membership seed.sectors by_id membership ≡ valid)
        ↔ IsPlacedMembership seed membership
  unfolding check_membership
  membership_iff by_id built membership = iff_trans (and_then_iff _ _) (
      iff_pair (require_iff (is_text_in membership.sector_id seed.sectors) _) (
        iff_trans (for_each_iff _ membership.chain_ids) (
          All-iff _ (HasChain seed.chains membership)
            (λ id. (
              chain_found seed.chains by_id built membership id _ refl,
              chain_matched seed.chains by_id built membership id,
            ))
            membership.chain_ids)))

  edge_iff :
      (by_id : List (String × SectorNode))
      → unique_by (λ (n : SectorNode). n.node_id) seed.nodes [] ≡ some by_id
      → (edge : SectorEdge) → (check_edge by_id edge ≡ valid) ↔ HasEnds seed.nodes edge
  unfolding check_edge
  edge_iff by_id built edge = (
    ends_found seed.nodes by_id built edge _ _ refl refl,
    ends_matched seed.nodes by_id built edge,
  )

  graph_iff :
      (by_id : List (String × SectorNode))
      → unique_by (λ (n : SectorNode). n.node_id) seed.nodes [] ≡ some by_id
      → (check_graph seed by_id ≡ valid) ↔ (
          IsUnique (λ (e : SectorEdge). e.edge_id) seed.edges
          × (All (HasEnds seed.nodes) seed.edges × IsHierarchy seed.scopes))
  unfolding check_graph
  graph_iff by_id built =
      with_unique_iff (λ (e : SectorEdge). e.edge_id) seed.edges _ _ _
        (λ edge_by_id _. iff_trans (and_then_iff _ _) (
          iff_pair
            (iff_trans (for_each_iff (check_edge by_id) seed.edges)
              (All-iff _ (HasEnds seed.nodes) (edge_iff by_id built) seed.edges))
            (validate_scope_hierarchy_iff seed.scopes identified)))

  IsClosed-iff :
      ((has_all_sectors seed.sectors ≡ true)
        × (IsUnique (λ (c : IndustryChainDefinition). c.chain_id) seed.chains
            × (All
                  (λ (c : IndustryChainDefinition). is_text_in c.sector_id seed.sectors ≡ true)
                  seed.chains
                × (All (IsPlacedMembership seed) seed.memberships
                    × (IsUnique (λ (n : SectorNode). n.node_id) seed.nodes
                        × (IsUnique (λ (e : SectorEdge). e.edge_id) seed.edges
                            × (All (HasEnds seed.nodes) seed.edges × IsHierarchy seed.scopes)))))))
      ↔ IsClosed seed
  IsClosed-iff = (
    λ p. record {
      sectors = p.0;
      unique_chains = p.1.0;
      chains = p.1.1.0;
      memberships = p.1.1.1.0;
      unique_nodes = p.1.1.1.1.0;
      unique_edges = p.1.1.1.1.1.0;
      edges = p.1.1.1.1.1.1.0;
      hierarchy = p.1.1.1.1.1.1.1;
    },
    λ h. (
      h.sectors,
      (
        h.unique_chains,
        (h.chains, (h.memberships, (h.unique_nodes, (h.unique_edges, (h.edges, h.hierarchy))))),
      ),
    ),
  )

  -- For a seed whose scopes have passed their own validator, validate_sector_ontology_seed passes
  -- exactly if the seed names the 18 sectors, its chain, node and edge identifiers are distinct,
  -- every chain and membership is of one of its sectors, every chain of a membership is in the
  -- seed, of the membership's sector and valid for as long, both ends of every edge are in the
  -- seed and valid for as long, and its scopes are a hierarchy.
  pub validate_sector_ontology_seed_iff :
      (validate_sector_ontology_seed seed ≡ valid) ↔ IsClosed seed
  unfolding validate_sector_ontology_seed check_references
  validate_sector_ontology_seed_iff = iff_trans (and_then_iff _ _) (
      iff_trans
        (iff_pair (require_iff (has_all_sectors seed.sectors) _) (
          with_unique_iff (λ (c : IndustryChainDefinition). c.chain_id) seed.chains _
            (check_references seed) _
            (λ by_id built. iff_trans (and_then_iff _ _) (
              iff_pair
                (iff_trans (for_each_iff _ seed.chains) (
                  All-iff _
                    (λ (c : IndustryChainDefinition). is_text_in c.sector_id seed.sectors ≡ true)
                    (λ c. require_iff _ _) seed.chains))
                (iff_trans (and_then_iff _ _) (
                  iff_pair
                    (iff_trans (for_each_iff _ seed.memberships) (
                      All-iff _ (IsPlacedMembership seed) (membership_iff by_id built)
                        seed.memberships))
                    (with_unique_iff (λ (n : SectorNode). n.node_id) seed.nodes _ (check_graph seed)
                      _ graph_iff)))))))
        IsClosed-iff)

-- ===== src/Ontology/References.antt =====
-- The references of a seed's memberships and edges, resolved in its dictionaries.
use deepinsight.Prelude.{
  Bool, true, false, ◌&&◌, ◌≡◌, refl, sym, ap, ◌∙◌, String, Option, none, some, List, [], same_text,
  In,
}
use deepinsight.Ontology.Records.{IndustryChainDefinition, SectorMembership, SectorNode, SectorEdge}
use deepinsight.Ontology.Checks.{valid, find, unique_by}
use deepinsight.Ontology.Passing.{and_then_iff, require_iff}
use deepinsight.Ontology.Intervals.{IsWithin, contains_interval_iff}
use deepinsight.Ontology.Table.{find_present, find_member}
use deepinsight.Ontology.Validation.{chain_matches, ends_match, check_edge}

-- A chain of the membership's sector, valid for as long as the membership.
pub record HasChain (chains : List IndustryChainDefinition) (membership : SectorMembership)
    (chain_id : String) : Type 0 where
  pub chain : IndustryChainDefinition
  pub member : In chain chains
  pub named : chain.chain_id ≡ chain_id
  pub same_sector : same_text chain.sector_id membership.sector_id ≡ true
  pub within : IsWithin chain.validity membership.validity

pub record HasEnds (nodes : List SectorNode) (edge : SectorEdge) : Type 0 where
  pub source : SectorNode
  pub source_member : In source nodes
  pub source_named : source.node_id ≡ edge.source_node_id
  pub target : SectorNode
  pub target_member : In target nodes
  pub target_named : target.node_id ≡ edge.target_node_id
  pub within_source : IsWithin source.validity edge.validity
  pub within_target : IsWithin target.validity edge.validity

both_true : (a b : Bool) → a && b ≡ true → (a ≡ true) × (b ≡ true)
both_true true b e = (refl, e)
both_true false b e = cc

module _ (chains : List IndustryChainDefinition) (by_id : List (String × IndustryChainDefinition))
    (built : unique_by (λ (c : IndustryChainDefinition). c.chain_id) chains [] ≡ some by_id) where
  pub chain_found :
      (membership : SectorMembership) (chain_id : String) (found : Option IndustryChainDefinition)
      → find chain_id by_id ≡ found
      → chain_matches found membership ≡ valid
      → HasChain chains membership chain_id
  chain_found membership chain_id none e h = cc
  chain_found membership chain_id (some chain) e h =
      let (same_sector, within) = (and_then_iff _ _).0 h in
      let (m, named) =
        find_member (λ (c : IndustryChainDefinition). c.chain_id) chains by_id built chain_id chain
          e in
      record {
        chain = chain;
        member = m;
        named = named;
        same_sector = (require_iff _ _).0 same_sector;
        within =
            (contains_interval_iff chain.validity membership.validity).0
              ((require_iff _ _).0 within);
      }

  pub chain_matched :
      (membership : SectorMembership) (chain_id : String)
      → HasChain chains membership chain_id
      → chain_matches (find chain_id by_id) membership ≡ valid
  chain_matched membership chain_id h =
      let found : find chain_id by_id ≡ some h.chain =
        sym (ap (λ id. find id by_id) h.named)
        ∙ find_present (λ (c : IndustryChainDefinition). c.chain_id) chains by_id built h.chain
            h.member in
      rw found (
        (and_then_iff _ _).1 (
          (require_iff _ _).1 h.same_sector,
          (require_iff _ _).1
              ((contains_interval_iff h.chain.validity membership.validity).1 h.within),
        ))

module _ (nodes : List SectorNode) (by_id : List (String × SectorNode))
    (built : unique_by (λ (n : SectorNode). n.node_id) nodes [] ≡ some by_id) where
  pub ends_found :
      (edge : SectorEdge) (source target : Option SectorNode)
      → find edge.source_node_id by_id ≡ source
      → find edge.target_node_id by_id ≡ target
      → ends_match source target edge ≡ valid
      → HasEnds nodes edge
  ends_found edge none target e f h = cc
  ends_found edge (some source) none e f h = cc
  ends_found edge (some source) (some target) e f h =
      let (m, named) = find_member (λ (n : SectorNode). n.node_id) nodes by_id built _ source e in
      let (k, called) = find_member (λ (n : SectorNode). n.node_id) nodes by_id built _ target f in
      record {
        source = source;
        source_member = m;
        source_named = named;
        target = target;
        target_member = k;
        target_named = called;
        within_source =
            (contains_interval_iff source.validity edge.validity).0
              (both_true _ _ ((require_iff _ _).0 h)).0;
        within_target =
            (contains_interval_iff target.validity edge.validity).0
              (both_true _ _ ((require_iff _ _).0 h)).1;
      }

  pub ends_matched : (edge : SectorEdge) → HasEnds nodes edge → check_edge by_id edge ≡ valid
  unfolding check_edge
  ends_matched edge h =
      let present = find_present (λ (n : SectorNode). n.node_id) nodes by_id built in
      let e : find edge.source_node_id by_id ≡ some h.source =
        sym (ap (λ id. find id by_id) h.source_named) ∙ present h.source h.source_member in
      let f : find edge.target_node_id by_id ≡ some h.target =
        sym (ap (λ id. find id by_id) h.target_named) ∙ present h.target h.target_member in
      let g = (contains_interval_iff h.source.validity edge.validity).1 h.within_source in
      let g' = (contains_interval_iff h.target.validity edge.validity).1 h.within_target in
      rw (e, f, g, g') refl

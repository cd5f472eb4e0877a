-- ===== src/Ontology/Records.antt =====
-- The ontology's models (schemas/sectors.py), with the fields that the validation reads. A date is a
-- count of days; an enumeration of texts, such as SectorId, is its value.
use deepinsight.Prelude.{
  ℕ, String, Bool, true, false, Option, none, some, List, ltb, leb, if◌then◌else◌,
}

-- `TemporalOntologyModel`: a start, and an exclusive end that may be open.
pub record Validity : Type 0 where
  pub valid_from : ℕ
  pub valid_to : Option ℕ

pub data ResearchScopeType : Type 0 where
  global macro sector industry_chain asset research_episode : ResearchScopeType

pub record ResearchScopeDefinition : Type 0 where
  pub scope_type : ResearchScopeType
  pub scope_id : String
  pub parent_scope_id : Option String
  pub validity : Validity

pub record IndustryChainDefinition : Type 0 where
  pub chain_id : String
  pub sector_id : String
  pub validity : Validity

pub record SectorMembership : Type 0 where
  pub asset_id : String
  pub sector_id : String
  pub chain_ids : List String
  pub validity : Validity

pub record SectorNode : Type 0 where
  pub node_id : String
  pub validity : Validity

pub record SectorEdge : Type 0 where
  pub edge_id : String
  pub source_node_id : String
  pub target_node_id : String
  pub validity : Validity

pub record SectorOntologySeed : Type 0 where
  -- The identifiers of `ontology.sectors`.
  pub sectors : List String
  pub chains : List IndustryChainDefinition
  pub memberships : List SectorMembership
  pub scopes : List ResearchScopeDefinition
  pub nodes : List SectorNode
  pub edges : List SectorEdge

abbrev pub ends_by : Option ℕ → Option ℕ → Bool
ends_by none child_to = true
ends_by (some parent_to) none = false
ends_by (some parent_to) (some child_to) = leb child_to parent_to

-- `_contains_interval`
unfoldable pub contains_interval : (parent child : Validity) → Bool
contains_interval parent child =
    if ltb child.valid_from parent.valid_from then false else ends_by parent.valid_to child.valid_to

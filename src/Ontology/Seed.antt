-- ===== src/Ontology/Seed.antt =====
-- The seed that sector_ontology.py installs: `build_sector_ontology_seed_v1`.
use Prim.Native.String.{◌++◌ as ◌<>◌}
use deepinsight.Prelude.{String, Option, none, some, List, [], ◌∷◌, map, ◌++◌}
use deepinsight.Ontology.Records.{
  Validity, ResearchScopeType, global, macro, sector, industry_chain, asset, research_episode,
  ResearchScopeDefinition, IndustryChainDefinition, SectorMembership, SectorNode, SectorEdge,
  SectorOntologySeed,
}
use deepinsight.Ontology.Checks.{Check}
use deepinsight.Ontology.Validation.{sector_ids, validate_sector_ontology_seed}

-- From 1 January 2026, in days since 1970.
abbrev pub from_2026 : Validity
from_2026 = record { valid_from = 20454; valid_to = none }

abbrev seed_chain : String → String → IndustryChainDefinition
seed_chain chain_id sector_id = record {
  chain_id = chain_id;
  sector_id = sector_id;
  validity = from_2026;
}

abbrev pub seed_chains : List IndustryChainDefinition
seed_chains =
    seed_chain "APPLE_CHAIN" "S03"
    ∷ seed_chain "NVIDIA_AI_INFRA" "S01"
    ∷ seed_chain "HBM" "S02"
    ∷ []

-- The asset is its market and its ticker.
abbrev seed_values : List (String × String × String)
seed_values =
    ("AAPL", "S03", "APPLE_CHAIN")
    ∷ ("NVDA", "S01", "NVIDIA_AI_INFRA")
    ∷ ("AMD", "S01", "NVIDIA_AI_INFRA")
    ∷ ("TSM", "S01", "NVIDIA_AI_INFRA")
    ∷ ("MU", "S02", "HBM")
    ∷ []

abbrev seed_membership : String × String × String → SectorMembership
seed_membership (ticker, sector_id, chain_id) = record {
  asset_id = "US:" <> ticker;
  sector_id = sector_id;
  chain_ids = chain_id ∷ [];
  validity = from_2026;
}

abbrev pub seed_memberships : List SectorMembership
seed_memberships = map seed_membership seed_values

abbrev seed_scope : ResearchScopeType → String → Option String → ResearchScopeDefinition
seed_scope scope_type scope_id parent_id = record {
  scope_type = scope_type;
  scope_id = scope_id;
  parent_scope_id = parent_id;
  validity = from_2026;
}

abbrev pub seed_scopes : List ResearchScopeDefinition
seed_scopes =
    seed_scope global "GLOBAL:GLOBAL" none
    ∷ seed_scope macro "MACRO:US" (some "GLOBAL:GLOBAL")
    ∷ seed_scope sector "SECTOR:SEMICONDUCTORS_AI" (some "MACRO:US")
    ∷ seed_scope sector "SECTOR:MEMORY_STORAGE" (some "MACRO:US")
    ∷ seed_scope sector "SECTOR:CONSUMER_ELECTRONICS" (some "MACRO:US")
    ∷ seed_scope industry_chain "CHAIN:NVIDIA_AI_INFRA" (some "SECTOR:SEMICONDUCTORS_AI")
    ∷ seed_scope industry_chain "CHAIN:HBM" (some "SECTOR:MEMORY_STORAGE")
    ∷ seed_scope industry_chain "CHAIN:APPLE_CHAIN" (some "SECTOR:CONSUMER_ELECTRONICS")
    ∷ seed_scope asset "ASSET:AAPL" (some "CHAIN:APPLE_CHAIN")
    ∷ seed_scope asset "ASSET:NVDA" (some "CHAIN:NVIDIA_AI_INFRA")
    ∷ seed_scope asset "ASSET:AMD" (some "CHAIN:NVIDIA_AI_INFRA")
    ∷ seed_scope asset "ASSET:TSM" (some "CHAIN:NVIDIA_AI_INFRA")
    ∷ seed_scope asset "ASSET:MU" (some "CHAIN:HBM")
    ∷ seed_scope research_episode "EPISODE:AAPL_DAY30" (some "ASSET:AAPL")
    ∷ []

abbrev seed_node : String → Validity → SectorNode
seed_node node_id validity = record { node_id = node_id; validity = validity }

abbrev sector_node : String → SectorNode
sector_node sector_id = seed_node ("SECTOR:" <> sector_id) from_2026

abbrev chain_node : IndustryChainDefinition → SectorNode
chain_node chain = seed_node ("CHAIN:" <> chain.chain_id) chain.validity

abbrev asset_node : String × String × String → SectorNode
asset_node (ticker, sector_id, chain_id) = seed_node ("ASSET:" <> ticker) from_2026

abbrev pub seed_nodes : List SectorNode
seed_nodes =
    map sector_node sector_ids ++ (map chain_node seed_chains ++ map asset_node seed_values)

abbrev seed_edge : String → String → String → SectorEdge
seed_edge edge_id source_id target_id = record {
  edge_id = edge_id;
  source_node_id = source_id;
  target_node_id = target_id;
  validity = from_2026;
}

abbrev pub seed_edges : List SectorEdge
seed_edges =
    seed_edge "chain-apple-sector" "CHAIN:APPLE_CHAIN" "SECTOR:S03"
    ∷ seed_edge "chain-nvidia-sector" "CHAIN:NVIDIA_AI_INFRA" "SECTOR:S01"
    ∷ seed_edge "chain-hbm-sector" "CHAIN:HBM" "SECTOR:S02"
    ∷ seed_edge "aapl-apple-chain" "ASSET:AAPL" "CHAIN:APPLE_CHAIN"
    ∷ seed_edge "nvda-nvidia-chain" "ASSET:NVDA" "CHAIN:NVIDIA_AI_INFRA"
    ∷ seed_edge "amd-nvidia-chain" "ASSET:AMD" "CHAIN:NVIDIA_AI_INFRA"
    ∷ seed_edge "tsm-nvidia-chain" "ASSET:TSM" "CHAIN:NVIDIA_AI_INFRA"
    ∷ seed_edge "mu-hbm-chain" "ASSET:MU" "CHAIN:HBM"
    ∷ seed_edge "hbm-nvidia-chain" "CHAIN:HBM" "CHAIN:NVIDIA_AI_INFRA"
    ∷ []

abbrev pub seed_v1 : SectorOntologySeed
seed_v1 = record {
  sectors = sector_ids;
  chains = seed_chains;
  memberships = seed_memberships;
  scopes = seed_scopes;
  nodes = seed_nodes;
  edges = seed_edges;
}

-- `build_sector_ontology_seed_v1` returns the seed if this passes, and `install_v1_seed`, which
-- validates again, hands it to the repository.
unfoldable pub build_sector_ontology_seed_v1 : Check × SectorOntologySeed
unfolding validate_sector_ontology_seed
build_sector_ontology_seed_v1 = (validate_sector_ontology_seed seed_v1, seed_v1)

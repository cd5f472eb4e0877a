-- ===== src/Memory/Matching.antt =====
-- The filters of the retrieval: levels, namespaces, markets, assets and learning metadata.
use Prim.Native.Char.{code}
use Prim.Native.String.{◌++◌ as ◌<>◌}
use deepinsight.Prelude.{
  ℕ, String, Bool, true, false, ◌&&◌, ◌||◌, Option, none, some, List, [], ◌∷◌, if◌then◌else◌, ◌==◌,
  codes, same_text, starts_with, same_codes, strip, lower,
}
use deepinsight.Ontology.Records.{
  ResearchScopeType, global, macro, sector, industry_chain, asset, research_episode,
}
use deepinsight.Memory.Records.{
  MemoryLevel, l0, l1, l2, l3, l4, ResearchContextSection, current_snapshot, macro_events,
  asset_events, prior_research, prior_risk, historical_analogs, regime_context,
  LearningMemoryMetadata, MemoryItemRecord, ResearchContextRequest,
}

abbrev pub level_number : MemoryLevel → ℕ
level_number l0 = 0
level_number l1 = 1
level_number l2 = 2
level_number l3 = 3
level_number l4 = 4

abbrev pub same_level : MemoryLevel → MemoryLevel → Bool
same_level a b = level_number a == level_number b

abbrev pub has_level : MemoryLevel → List MemoryLevel → Bool
has_level level [] = false
has_level level (l ∷ levels) = same_level l level || has_level level levels

abbrev pub has_text : String → List String → Bool
has_text text [] = false
has_text text (t ∷ texts) = same_text t text || has_text text texts

abbrev pub same_optional : Option String → Option String → Bool
same_optional none none = true
same_optional none (some b) = false
same_optional (some a) none = false
same_optional (some a) (some b) = same_text a b

-- `text.split(":", maxsplit=1)[0]` and `[-1]`
unfoldable pub before_colon : String → String
before_colon String.[] = String.[]
before_colon (String.◌∷◌ c s) =
    let rest = before_colon s in if code c == 58 then String.[] else String.◌∷◌ c rest

abbrev pub after_first : Option String → String → String
after_first none whole = whole
after_first (some rest) whole = rest

unfoldable pub past_colon : String → Option String
past_colon String.[] = none
past_colon (String.◌∷◌ c s) = let rest = past_colon s in if code c == 58 then some s else rest

unfoldable pub after_colon : String → String
unfolding past_colon
after_colon text = after_first (past_colon text) text

-- `_normalized_type`
abbrev pub underscored : ℕ → ℕ
underscored c = if (c == 45) || (c == 32) then 95 else c

abbrev pub replaced : List ℕ → List ℕ
replaced [] = []
replaced (c ∷ cs) = underscored c ∷ replaced cs

unfoldable pub normalized_type : String → List ℕ
unfolding strip lower
normalized_type memory_type = replaced (lower (strip (codes memory_type)))

abbrev pub begins : List ℕ → List ℕ → Bool
begins [] cs = true
begins (p ∷ ps) [] = false
begins (p ∷ ps) (c ∷ cs) = p == c && begins ps cs

-- `part in text`
abbrev pub contains : List ℕ → List ℕ → Bool
contains part [] = begins part []
contains part (c ∷ cs) = begins part (c ∷ cs) || contains part cs

unfoldable pub section_for : MemoryLevel → (normalized : List ℕ) → ResearchContextSection
section_for l0 normalized = current_snapshot
section_for l1 normalized = macro_events
section_for l2 normalized = asset_events
section_for l3 normalized =
    if contains (codes "risk") normalized then prior_risk else prior_research
section_for l4 normalized =
    if same_codes normalized (codes "historical_analog")
      || same_codes normalized (codes "historical_analogue")
    then historical_analogs
    else regime_context

-- `_is_current_report`
unfoldable pub is_current_report : MemoryItemRecord → Option String → Bool
is_current_report r none = false
is_current_report r (some report_id) =
    same_level r.memory_level l3 && same_text r.namespace_key ("REPORT:" <> report_id)

abbrev pub is_of_asset : Option String → Option String → Bool
is_of_asset none of = false
is_of_asset (some asset_id) of = same_optional of (some asset_id)

-- `_namespace_match` is not None
unfoldable pub matches_namespace : MemoryItemRecord → ResearchContextRequest → Bool
unfolding normalized_type
matches_namespace r request =
    has_text r.namespace_key request.namespace_keys
    || (request.include_prior_reports
        && is_of_asset request.asset_id r.asset_id
        && same_level r.memory_level l3
        && same_codes (normalized_type r.memory_type) (codes "report_trace")
        && starts_with r.namespace_key "REPORT:")

abbrev pub is_market : String → Bool
is_market text = same_text text "CN" || same_text text "HK" || same_text text "US"

-- `_record_market`, from the namespace's prefix.
abbrev pub prefix_market : (prefix : String) → Option String
prefix_market prefix =
    if is_market prefix
    then some prefix
    else if has_text prefix ("GLOBAL" ∷ "MACRO" ∷ "SECTOR" ∷ "CHAIN" ∷ "EPISODE" ∷ [])
    then some "GLOBAL"
    else none

-- From the scope of its metadata; `none` for a scope of an asset.
unfoldable pub scope_market : ResearchScopeType → (scope_id : String) → Option String
unfolding after_colon
scope_market global scope_id = some "GLOBAL"
scope_market sector scope_id = some "GLOBAL"
scope_market industry_chain scope_id = some "GLOBAL"
scope_market research_episode scope_id = some "GLOBAL"
scope_market macro scope_id =
    if is_market (after_colon scope_id) then some (after_colon scope_id) else some "GLOBAL"
scope_market asset scope_id = none

unfoldable pub or_prefix : Option String → (namespace_key : String) → Option String
unfolding before_colon
or_prefix none namespace_key = prefix_market (before_colon namespace_key)
or_prefix (some market) namespace_key = some market

unfoldable pub metadata_market : Option LearningMemoryMetadata → Option String
unfolding scope_market
metadata_market none = none
metadata_market (some m) = scope_market m.scope_type m.scope_id

unfoldable pub market_without_asset : MemoryItemRecord → Option String
unfolding or_prefix metadata_market
market_without_asset r =
    if same_text r.namespace_key "GLOBAL"
    then some "GLOBAL"
    else or_prefix (metadata_market r.metadata) r.namespace_key

-- `AssetId.market`, and `_record_market`
unfoldable pub record_market : MemoryItemRecord → Option String
unfolding before_colon market_without_asset
record_market r = elim r.asset_id [
  | some asset_id ↦ some (before_colon asset_id)
  | none ↦ market_without_asset r
]

-- `record_market in (MarketScope.GLOBAL, MarketScope(request.market.value))`
abbrev pub in_market : Option String → (market : String) → Bool
in_market none market = false
in_market (some m) market = same_text m "GLOBAL" || same_text m market

-- `_matches_asset`
abbrev pub is_shared : (market : Option String) → (namespace_key : String) → List String → Bool
is_shared market namespace_key shared =
    same_optional market (some "GLOBAL") || has_text namespace_key shared

unfoldable pub matches_asset : MemoryItemRecord → ResearchContextRequest → Option String → Bool
matches_asset r request market = elim request.asset_id [
  | none ↦ true
  | some requested ↦ elim r.asset_id [
    | some asset_id ↦ same_text asset_id requested
    | none ↦ is_shared market r.namespace_key (request.market ∷ requested ∷ "GLOBAL" ∷ [])
  ]
]

-- `_matches_learning_metadata`
abbrev pub scope_type_value : ResearchScopeType → String
scope_type_value global = "global"
scope_type_value macro = "macro"
scope_type_value sector = "sector"
scope_type_value industry_chain = "industry_chain"
scope_type_value asset = "asset"
scope_type_value research_episode = "research_episode"

abbrev pub has_scope_type : ResearchScopeType → List ResearchScopeType → Bool
has_scope_type scope_type [] = false
has_scope_type scope_type (t ∷ ts) =
    same_text (scope_type_value t) (scope_type_value scope_type) || has_scope_type scope_type ts

abbrev pub allows : Option (List String) → String → Bool
allows none value = true
allows (some values) value = has_text value values

abbrev pub allows_scope_type : Option (List ResearchScopeType) → ResearchScopeType → Bool
allows_scope_type none scope_type = true
allows_scope_type (some types) scope_type = has_scope_type scope_type types

-- An item without an episode is in no list of episodes.
abbrev pub allows_optional : Option (List String) → Option String → Bool
allows_optional none value = true
allows_optional (some values) none = false
allows_optional (some values) (some value) = has_text value values

abbrev pub is_absent {ℓ} : {A : Type ℓ} → Option A → Bool
is_absent none = true
is_absent (some a) = false

abbrev pub no_filters : ResearchContextRequest → Bool
no_filters request =
    is_absent request.scope_ids
    && is_absent request.scope_types
    && is_absent request.usage_classes
    && is_absent request.episode_ids

abbrev pub allows_metadata : ResearchContextRequest → Option LearningMemoryMetadata → Bool
allows_metadata request none = false
allows_metadata request (some m) =
    allows request.scope_ids m.scope_id
    && allows_scope_type request.scope_types m.scope_type
    && allows request.usage_classes m.usage_class
    && allows_optional request.episode_ids m.episode_id

unfoldable pub matches_learning_metadata : MemoryItemRecord → ResearchContextRequest → Bool
matches_learning_metadata r request = no_filters request || allows_metadata request r.metadata

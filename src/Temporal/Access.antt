-- ===== src/Temporal/Access.antt =====
-- `temporal_access_decision` and its callers, of schemas/temporal.py.
use deepinsight.Prelude.{
  Bool, true, false, not, ◌&&◌, Option, none, some, List, [], ◌∷◌, ◌++◌, max, ltb, leb,
  if◌then◌else◌,
}
use deepinsight.Temporal.DateTime.{DateTime, Instant, Checked, passed, ◌>>=◌, require_utc_aware}
use deepinsight.Temporal.Metadata.{Bound, TemporalMetadata, comparable_effective}

pub data TemporalAccessReason : Type 0 where
  usable future_available future_ingestion future_snapshot : TemporalAccessReason
  not_yet_effective no_longer_effective unknown_availability : TemporalAccessReason

pub data TemporalAccessMode : Type 0 where
  historical_replay live_acquisition : TemporalAccessMode

pub record TemporalAccessDecision : Type 0 where
  pub is_usable : Bool
  pub reason : TemporalAccessReason
  pub research_as_of : Instant
  pub usable_at : Option Instant

unfoldable pub bound_reached : Bound Instant → Instant → Bool
unfolding comparable_effective
bound_reached bound cutoff = leb (comparable_effective bound) cutoff

unfoldable pub rejected : TemporalAccessReason → Instant → TemporalAccessDecision
rejected reason cutoff = record {
  is_usable = false;
  reason = reason;
  research_as_of = cutoff;
  usable_at = none;
}

-- `value is not None and value > cutoff`
unfoldable pub is_after : Option Instant → Instant → Bool
is_after none cutoff = false
is_after (some t) cutoff = ltb cutoff t

-- `bound is not None and not _bound_reached(bound, cutoff)`
unfoldable pub not_reached : Option (Bound Instant) → Instant → Bool
unfolding bound_reached
not_reached none cutoff = false
not_reached (some b) cutoff = not (bound_reached b cutoff)

-- `bound is not None and _bound_reached(bound, cutoff)`
unfoldable pub already_reached : Option (Bound Instant) → Instant → Bool
unfolding bound_reached
already_reached none cutoff = false
already_reached (some b) cutoff = bound_reached b cutoff

abbrev pub is_given {ℓ} : {A : Type ℓ} → Option A → Bool
is_given none = false
is_given (some a) = true

abbrev pub is_historical : TemporalAccessMode → Bool
is_historical historical_replay = true
is_historical live_acquisition = false

-- The ingestion time, where the mode reads it.
abbrev pub ingestion_in : TemporalAccessMode → TemporalMetadata → Option Instant
ingestion_in historical_replay m = m.ingested_at
ingestion_in live_acquisition m = none

abbrev present : Option Instant → List Instant
present none = []
present (some t) = t ∷ []

unfoldable pub visibility : TemporalMetadata → TemporalAccessMode → List Instant
visibility m mode = present m.available_at ++ (present (ingestion_in mode m) ++ present m.as_of)

-- `max(values) if values else None`
unfoldable pub latest : List Instant → Option Instant
latest [] = none
latest (t ∷ ts) = elim (latest ts) [ none ↦ some t | some u ↦ some (max t u) ]

abbrev pub is_empty {ℓ} : {A : Type ℓ} → List A → Bool
is_empty [] = true
is_empty (x ∷ xs) = false

-- `not visibility and not has_effective_gate`
unfoldable pub is_unattributed : TemporalMetadata → TemporalAccessMode → Bool
unfolding visibility
is_unattributed m mode = is_empty (visibility m mode) && not (is_given m.effective_from)

-- The rule at a normalized cutoff.
unfoldable pub decide_at :
    TemporalMetadata
    → Instant
    → (require_availability : Bool) → TemporalAccessMode
    → TemporalAccessDecision
decide_at m cutoff require_availability mode =
    if is_after m.available_at cutoff
    then rejected future_available cutoff
    else if is_historical mode && is_after m.ingested_at cutoff
    then rejected future_ingestion cutoff
    else if is_after m.as_of cutoff
    then rejected future_snapshot cutoff
    else if not_reached m.effective_from cutoff
    then rejected not_yet_effective cutoff
    else if already_reached m.effective_to cutoff
    then rejected no_longer_effective cutoff
    else if require_availability && is_unattributed m mode
    then rejected unknown_availability cutoff
    else record {
      is_usable = true;
      reason = usable;
      research_as_of = cutoff;
      usable_at = latest (visibility m mode);
    }

unfoldable pub temporal_access_decision :
    TemporalMetadata → DateTime → Bool → TemporalAccessMode → Checked TemporalAccessDecision
temporal_access_decision m research_as_of require_availability mode = do
  cutoff ← require_utc_aware research_as_of
  passed (decide_at m cutoff require_availability mode)

unfoldable pub is_usable_at : TemporalMetadata → DateTime → Bool → TemporalAccessMode → Checked Bool
unfolding temporal_access_decision
is_usable_at m research_as_of require_availability mode = do
  decision ← temporal_access_decision m research_as_of require_availability mode
  passed decision.is_usable

-- `validate_temporal_access` returns a decision, or raises TemporalLeakageError with one.
pub data Access : Type 0 where
  allowed leaked : TemporalAccessDecision → Access

unfoldable pub admit : TemporalAccessDecision → Access
admit decision = if decision.is_usable then allowed decision else leaked decision

unfoldable pub validate_temporal_access :
    TemporalMetadata → DateTime → Bool → TemporalAccessMode → Checked Access
validate_temporal_access m research_as_of require_availability mode = do
  decision ← temporal_access_decision m research_as_of require_availability mode
  passed (admit decision)

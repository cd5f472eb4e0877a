-- ===== src/Temporal/Metadata.antt =====
-- `TemporalMetadata` of schemas/temporal.py: its fields, their normalization and their order.
use deepinsight.Prelude.{ℕ, Bool, false, Option, none, some, ltb, leb, if◌then◌else◌}
use deepinsight.Temporal.DateTime.{
  DateTime, Instant, Date, period_order, publication_order, effective_order, Checked, passed,
  value_error, ◌>>=◌, ◌<*>◌, require_utc_aware, start_of_day,
}

pub data TemporalSourceKind : Type 0 where
  generic sec_filing fmp_fundamental alpaca_daily_bar alpaca_news fred_vintage : TemporalSourceKind
  sector_membership sector_anomaly sector_research_claim memory : TemporalSourceKind
  research_context research_evidence : TemporalSourceKind

-- `datetime | date`, over the type that datetimes have before or after their normalization.
pub data Bound (T : Type 0) : Type 0 where
  at : T → Bound T
  on : Date → Bound T

-- The fields, with `T` for `datetime`.
pub record Fields (T : Type 0) : Type 0 where
  pub source_kind : TemporalSourceKind
  pub event_time : Option T
  pub period_start : Option Date
  pub period_end : Option Date
  pub published_at : Option T
  pub available_at : Option T
  pub ingested_at : Option T
  pub effective_from : Option (Bound T)
  pub effective_to : Option (Bound T)
  pub as_of : Option T

-- The keyword arguments, and the object, whose datetimes are in UTC.
abbrev pub Arguments : Type 0
Arguments = Fields DateTime

abbrev pub TemporalMetadata : Type 0
TemporalMetadata = Fields Instant

unfoldable pub normalize_optional_datetime : Option DateTime → Checked (Option Instant)
normalize_optional_datetime none = passed none
normalize_optional_datetime (some value) = do t ← require_utc_aware value; passed (some t)

unfoldable pub normalize_effective_bound :
    Option (Bound DateTime) → Checked (Option (Bound Instant))
normalize_effective_bound none = passed none
normalize_effective_bound (some (at value)) = do t ← require_utc_aware value; passed (some (at t))
normalize_effective_bound (some (on d)) = passed (some (on d))

-- `_comparable_effective`; a datetime bound of a validated object is in UTC already.
unfoldable pub comparable_effective : Bound Instant → Instant
comparable_effective (at t) = t
comparable_effective (on d) = start_of_day d

-- Both are given, and the first one is smaller.
unfoldable pub given_lt : Option ℕ → Option ℕ → Bool
given_lt (some a) (some b) = ltb a b
given_lt _ _ = false

unfoldable pub ends_too_early : Option (Bound Instant) → Option (Bound Instant) → Bool
unfolding comparable_effective
ends_too_early (some from) (some to) = leb (comparable_effective to) (comparable_effective from)
ends_too_early _ _ = false

unfoldable pub validate_order : TemporalMetadata → Checked TemporalMetadata
validate_order m =
    if given_lt m.period_end m.period_start
    then value_error period_order
    else if given_lt m.available_at m.published_at
    then value_error publication_order
    else if ends_too_early m.effective_from m.effective_to
    then value_error effective_order
    else passed m

-- The field validators, in the order of the fields.
unfoldable pub normalize_fields : Arguments → Checked TemporalMetadata
normalize_fields m =
    passed (λ event_time published_at available_at ingested_at effective_from effective_to as_of.
      record {
        source_kind = m.source_kind;
        event_time = event_time;
        period_start = m.period_start;
        period_end = m.period_end;
        published_at = published_at;
        available_at = available_at;
        ingested_at = ingested_at;
        effective_from = effective_from;
        effective_to = effective_to;
        as_of = as_of;
      })
    <*> normalize_optional_datetime m.event_time
    <*> normalize_optional_datetime m.published_at
    <*> normalize_optional_datetime m.available_at
    <*> normalize_optional_datetime m.ingested_at
    <*> normalize_effective_bound m.effective_from
    <*> normalize_effective_bound m.effective_to
    <*> normalize_optional_datetime m.as_of

-- `TemporalMetadata(...)`: the field validators, then the model validator.
unfoldable pub temporal_metadata : Arguments → Checked TemporalMetadata
temporal_metadata m = normalize_fields m >>= validate_order

-- ===== src/Temporal/Examples.antt =====
-- Tests and instances for schemas/temporal.py.
use deepinsight.Prelude.{ℕ, ◌+◌, ◌*◌, Option, ◌≡◌, refl, ◌↔◌, true, false, none, some, arith}
use deepinsight.Temporal.DateTime.{
  DateTime, day_length, ahead, behind, passed, value_error, naive_datetime, require_utc_aware,
  utc_from_storage,
}
use deepinsight.Temporal.Metadata.{
  at, Arguments, TemporalMetadata, generic, given_lt, ends_too_early, normalize_optional_datetime,
  normalize_effective_bound, normalize_fields, validate_order, temporal_metadata,
}
use deepinsight.Temporal.Access.{
  historical_replay, live_acquisition, rejected, is_after, not_reached, already_reached,
  is_unattributed, latest, decide_at, temporal_access_decision, admit, validate_temporal_access,
}
use deepinsight.Temporal.Visibility.{
  AtMost, StartedBy, EndsAfter, IsVisible, usable_iff_IsVisible, Explains, reason-Explains,
  usable_at_exact, historical-le-live,
}
use deepinsight.Temporal.Normalized.{StoresAll, IsOrdered, temporal_metadata_iff}
use deepinsight.Temporal.Guarded.{Guards, validate_temporal_access-Guards}
use deepinsight.Temporal.Stored.{EodBarRecord, MemoryItemRecord, eod_bar, memory_item}
use deepinsight.Temporal.Mapping.{
  Mapped, mapped, mapping_error, construct, bar_metadata, map_bar, map_memory,
  temporal_metadata_for,
}
use deepinsight.Temporal.Known.{KnownBy}
use deepinsight.Temporal.Sources.{temporal_metadata_for-KnownBy}

program : Unit {0}
unfolding require_utc_aware utc_from_storage normalize_optional_datetime normalize_effective_bound
    given_lt ends_too_early normalize_fields validate_order temporal_metadata rejected is_after
    not_reached already_reached is_unattributed latest decide_at temporal_access_decision admit
    validate_temporal_access construct map_bar map_memory temporal_metadata_for
program = tt

abbrev filing : TemporalMetadata
filing = record {
  source_kind = generic;
  event_time = none;
  period_start = some 10;
  period_end = some 20;
  published_at = some 400;
  available_at = some 500;
  ingested_at = some 700;
  effective_from = none;
  effective_to = some (at 900);
  as_of = none;
}

-- The same filing, published at 07:00 in a zone seven microseconds ahead.
abbrev filing_arguments : Arguments
filing_arguments = record {
  source_kind = generic;
  event_time = none;
  period_start = some 10;
  period_end = some 20;
  published_at = some (record { wall = 407; offset = some (ahead 7) });
  available_at = some (record { wall = 490; offset = some (behind 10) });
  ingested_at = some (record { wall = 700; offset = some (ahead 0) });
  effective_from = none;
  effective_to = some (at (record { wall = 900; offset = some (ahead 0) }));
  as_of = none;
}

filing_read : temporal_metadata filing_arguments ≡ passed filing
unfolding program
filing_read = refl

naive_rejected :
    temporal_metadata
      (record filing_arguments { as_of = some (record { wall = 1; offset = none }) })
    ≡ value_error naive_datetime
unfolding program
naive_rejected = refl

replay_before_ingestion : (decide_at filing 600 true historical_replay).is_usable ≡ false
unfolding program
replay_before_ingestion = refl

live_before_ingestion : (decide_at filing 600 true live_acquisition).is_usable ≡ true
unfolding program
live_before_ingestion = refl

replay_after_ingestion : (decide_at filing 800 true historical_replay).is_usable ≡ true
unfolding program
replay_after_ingestion = refl

usable_iff_IsVisible_example :
    ((decide_at filing 800 true historical_replay).is_usable ≡ true)
    ↔ IsVisible filing historical_replay true 800
usable_iff_IsVisible_example = usable_iff_IsVisible filing 800 true historical_replay

reason-Explains_example :
    Explains filing 950 true historical_replay (decide_at filing 950 true historical_replay).reason
reason-Explains_example = reason-Explains filing 950 true historical_replay

usable_at_exact_example : ((decide_at filing 750 true historical_replay).is_usable ≡ true) ↔ (
    AtMost (decide_at filing 800 true historical_replay).usable_at 750
    × StartedBy filing.effective_from 750
    × EndsAfter filing.effective_to 750)
usable_at_exact_example =
    usable_at_exact filing 800 750 true historical_replay replay_after_ingestion

historical-le-live_example : (decide_at filing 800 true live_acquisition).is_usable ≡ true
historical-le-live_example =
    historical-le-live filing 800 true (λ _. ground arith) replay_after_ingestion

temporal_metadata_iff_example :
    (temporal_metadata filing_arguments ≡ passed filing)
    ↔ (StoresAll filing_arguments filing × IsOrdered filing)
temporal_metadata_iff_example = temporal_metadata_iff filing_arguments filing

validate_temporal_access-Guards_example :
    Guards filing
      (record { wall = 800; offset = some (ahead 0) })
      true
      historical_replay
      (validate_temporal_access filing
        (record { wall = 800; offset = some (ahead 0) })
        true
        historical_replay)
validate_temporal_access-Guards_example =
    validate_temporal_access-Guards filing (record { wall = 800; offset = some (ahead 0) }) true
      historical_replay

abbrev utc : ℕ → DateTime
utc t = record { wall = t; offset = some (ahead 0) }

-- The end of the session of day 3, at 20:00 in UTC.
abbrev session_end : ℕ → ℕ
session_end d = d * day_length + 72_000_000_000

abbrev bar : EodBarRecord
bar = record { trade_date = 3; ingestion_ts = utc 340_000_000_000 }

abbrev bar_mapped : TemporalMetadata
bar_mapped = bar_metadata session_end bar 340_000_000_000

bar_maps : temporal_metadata_for session_end (eod_bar bar) ≡ mapped bar_mapped
unfolding program
bar_maps = refl

early_bar_fails :
    temporal_metadata_for session_end
      (eod_bar (record { trade_date = 4; ingestion_ts = utc 340_000_000_000 }))
    ≡ mapping_error
unfolding program
early_bar_fails = refl

-- A memory that a naive datetime says expires at 900.
abbrev note : MemoryItemRecord
note = record {
  effective_ts = utc 100;
  created_at = some (utc 200);
  expires_at = some (record { wall = 900; offset = none });
  temporal = some filing;
}

abbrev available_of : Mapped → Option ℕ
available_of (mapped m) = m.available_at
available_of _ = none

note_maps : available_of (temporal_metadata_for session_end (memory_item note)) ≡ some 500
unfolding program
note_maps = refl

temporal_metadata_for-KnownBy_example :
    ((decide_at bar_mapped 340_000_000_001 true historical_replay).is_usable ≡ true)
    ↔ KnownBy session_end (eod_bar bar) 340_000_000_001
temporal_metadata_for-KnownBy_example =
    temporal_metadata_for-KnownBy session_end (eod_bar bar) bar_mapped 340_000_000_001 bar_maps

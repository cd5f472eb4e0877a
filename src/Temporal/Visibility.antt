-- ===== src/Temporal/Visibility.antt =====
-- What the access rule of schemas/temporal.py decides, against a description of visibility.
use deepinsight.Prelude.{
  ◌*◌, ◌≤◌, ◌<◌, ◌≡◌, refl, ◌≢◌, ◌↔◌, ◌⊎◌, Bool, true, false, ◌&&◌, Option, none, some, List, [],
  ◌∷◌, All, arith,
}
use deepinsight.Temporal.DateTime.{Instant, day_length}
use deepinsight.Temporal.Metadata.{Bound, at, on, TemporalMetadata}
use deepinsight.Temporal.Access.{
  TemporalAccessReason, usable, future_available, future_ingestion, future_snapshot,
  not_yet_effective, no_longer_effective, unknown_availability, TemporalAccessMode,
  historical_replay, live_acquisition, rejected, is_after, not_reached, already_reached,
  ingestion_in, is_unattributed, is_historical, visibility, latest, decide_at,
}

abbrev pub AtMost : Option Instant → Instant → Type 0
AtMost none c = Unit
AtMost (some t) c = t ≤ c

abbrev pub StartedBy : Option (Bound Instant) → Instant → Type 0
StartedBy none c = Unit
StartedBy (some (at t)) c = t ≤ c
StartedBy (some (on d)) c = d * day_length ≤ c

abbrev pub EndsAfter : Option (Bound Instant) → Instant → Type 0
EndsAfter none c = Unit
EndsAfter (some (at t)) c = c < t
EndsAfter (some (on d)) c = c < d * day_length

-- Some time says when the object became available.
abbrev pub IsAttributed : TemporalAccessMode → TemporalMetadata → Type 0
IsAttributed mode m =
    (m.available_at ≢ none)
    ⊎ (ingestion_in mode m ≢ none)
    ⊎ (m.as_of ≢ none)
    ⊎ (m.effective_from ≢ none)

pub record IsVisible (m : TemporalMetadata) (mode : TemporalAccessMode) (require : Bool)
    (c : Instant) : Type 0 where
  pub available : AtMost m.available_at c
  pub ingested : AtMost (ingestion_in mode m) c
  pub snapshot : AtMost m.as_of c
  pub started : StartedBy m.effective_from c
  pub running : EndsAfter m.effective_to c
  pub attributed : require ≡ true → IsAttributed mode m

is_after_iff : (o : Option Instant) (c : Instant) → (is_after o c ≡ false) ↔ AtMost o c
unfolding is_after
is_after_iff none c = (λ _. tt, λ _. refl)
is_after_iff (some t) c = ground arith

not_reached_iff :
    (o : Option (Bound Instant)) (c : Instant) → (not_reached o c ≡ false) ↔ StartedBy o c
unfolding not_reached
not_reached_iff none c = (λ _. tt, λ _. refl)
not_reached_iff (some (at t)) c = ground arith
not_reached_iff (some (on d)) c = ground arith

already_reached_iff :
    (o : Option (Bound Instant)) (c : Instant) → (already_reached o c ≡ false) ↔ EndsAfter o c
unfolding already_reached
already_reached_iff none c = (λ _. tt, λ _. refl)
already_reached_iff (some (at t)) c = ground arith
already_reached_iff (some (on d)) c = ground arith

is_unattributed_iff :
    (m : TemporalMetadata) (mode : TemporalAccessMode)
    → (is_unattributed m mode ≡ false) ↔ IsAttributed mode m
unfolding is_unattributed
is_unattributed_iff m mode = ground arith

module _ (m : TemporalMetadata) (c : Instant) (require : Bool) (mode : TemporalAccessMode) where
  ingested_iff :
      ((is_historical mode && is_after m.ingested_at c) ≡ false) ↔ AtMost (ingestion_in mode m) c
  ingested_iff = ground (arith, is_after_iff m.ingested_at c)

  -- The access rule says that an object is usable at a normalized cutoff exactly when every given
  -- time (availability, ingestion in a replay, snapshot) is at or before the cutoff, the half-open
  -- effective interval holds the cutoff, and, if availability is required, some time attributes
  -- the object.
  pub usable_iff_IsVisible :
      ((decide_at m c require mode).is_usable ≡ true) ↔ IsVisible m mode require c
  unfolding decide_at rejected
  usable_iff_IsVisible = ground (
    arith,
    is_after_iff m.available_at c,
    ingested_iff,
    is_after_iff m.as_of c,
    not_reached_iff m.effective_from c,
    already_reached_iff m.effective_to c,
    is_unattributed_iff m mode,
  )

  abbrev pub Explains : TemporalAccessReason → Type 0
  Explains usable = IsVisible m mode require c
  Explains future_available = ¬ AtMost m.available_at c
  Explains future_ingestion = AtMost m.available_at c × ¬ AtMost (ingestion_in mode m) c
  Explains future_snapshot =
      AtMost m.available_at c × AtMost (ingestion_in mode m) c × ¬ AtMost m.as_of c
  Explains not_yet_effective =
      AtMost m.available_at c
      × AtMost (ingestion_in mode m) c
      × AtMost m.as_of c
      × ¬ StartedBy m.effective_from c
  Explains no_longer_effective =
      AtMost m.available_at c
      × AtMost (ingestion_in mode m) c
      × AtMost m.as_of c
      × StartedBy m.effective_from c
      × ¬ EndsAfter m.effective_to c
  Explains unknown_availability =
      AtMost m.available_at c
      × AtMost (ingestion_in mode m) c
      × AtMost m.as_of c
      × StartedBy m.effective_from c
      × EndsAfter m.effective_to c
      × (require ≡ true)
      × ¬ IsAttributed mode m

  -- The reason of a decision names the first condition of visibility that fails, all earlier ones
  -- holding, and is usable exactly when none fails.
  pub reason-Explains : Explains (decide_at m c require mode).reason
  unfolding decide_at rejected
  reason-Explains = ground (
    arith,
    is_after_iff m.available_at c,
    ingested_iff,
    is_after_iff m.as_of c,
    not_reached_iff m.effective_from c,
    already_reached_iff m.effective_to c,
    is_unattributed_iff m mode,
  )

AtMost-latest : (ts : List Instant) (c : Instant) → AtMost (latest ts) c ↔ All (λ t. t ≤ c) ts
unfolding latest
AtMost-latest [] c = (λ _. tt, λ _. tt)
AtMost-latest (t ∷ ts) c = ground (arith, AtMost-latest ts c)

AtMost-visibility :
    (m : TemporalMetadata) (mode : TemporalAccessMode) (c : Instant)
    → AtMost (latest (visibility m mode)) c
      ↔ (AtMost m.available_at c × AtMost (ingestion_in mode m) c × AtMost m.as_of c)
unfolding visibility
AtMost-visibility m mode c = ground (arith, AtMost-latest (visibility m mode) c)

usable_at-latest :
    (m : TemporalMetadata) (c : Instant) (require : Bool) (mode : TemporalAccessMode)
    → (decide_at m c require mode).is_usable ≡ true
    → (decide_at m c require mode).usable_at ≡ latest (visibility m mode)
unfolding decide_at rejected
usable_at-latest m c require mode h = ground arith

-- For an object that is usable at one cutoff, the decision's usable_at tells at which other
-- cutoffs it is usable: those at or after usable_at at which the effective interval has begun and
-- has not ended.
pub usable_at_exact :
    (m : TemporalMetadata) (c c' : Instant) (require : Bool) (mode : TemporalAccessMode)
    → (decide_at m c require mode).is_usable ≡ true
    → ((decide_at m c' require mode).is_usable ≡ true) ↔ (
        AtMost (decide_at m c require mode).usable_at c'
        × StartedBy m.effective_from c'
        × EndsAfter m.effective_to c')
usable_at_exact m c c' require mode h = rw (usable_at-latest m c require mode h) (
    ground (
      arith,
      usable_iff_IsVisible m c require mode,
      usable_iff_IsVisible m c' require mode,
      AtMost-visibility m mode c',
    ))

-- An object usable in a historical replay is usable in a live acquisition at the same cutoff, if a
-- time other than the ingestion attributes it or availability is not required.
pub historical-le-live :
    (m : TemporalMetadata) (c : Instant) (require : Bool)
    → (require ≡ true → IsAttributed live_acquisition m)
    → (decide_at m c require historical_replay).is_usable ≡ true
    → (decide_at m c require live_acquisition).is_usable ≡ true
historical-le-live m c require known h = ground (
  arith,
  usable_iff_IsVisible m c require historical_replay,
  usable_iff_IsVisible m c require live_acquisition,
)

-- ===== src/Temporal/DateTime.antt =====
-- The datetimes of schemas/temporal.py. A `datetime` is its wall-clock reading, in microseconds
-- since 0001-01-01T00:00, and the offset of its time zone; the offset is `none` where `tzinfo` or
-- `utcoffset()` is None. A UTC `datetime` is its reading alone, an `Instant`. A `date` is its day
-- count since 0001-01-01.
use deepinsight.Prelude.{ℕ, ◌+◌, ◌-◌, ◌*◌, Option, none, some, leb, if◌then◌else◌}

-- A zone ahead of UTC, or behind it, in microseconds.
pub data Offset : Type 0 where
  ahead behind : ℕ → Offset

pub record DateTime : Type 0 where
  pub wall : ℕ
  pub offset : Option Offset

abbrev pub Instant : Type 0
Instant = ℕ

abbrev pub Date : Type 0
Date = ℕ

abbrev pub day_length : ℕ
day_length = 86_400_000_000

-- The reading of `datetime.max`: the last microsecond of the year 9999.
abbrev pub max_instant : ℕ
max_instant = 3_652_059 * day_length - 1

pub data ValueFault : Type 0 where
  naive_datetime period_order publication_order effective_order : ValueFault

-- What a validated constructor does: it returns, or raises ValueError or OverflowError.
pub data Checked {ℓ} (A : Type ℓ) : Type ℓ where
  passed : A → Checked A
  value_error : ValueFault → Checked A
  overflow_error : Checked A

infixl 5 ◌>>=◌
abbrev pub ◌>>=◌ {ℓ κ} : {A : Type ℓ} {B : Type κ} → Checked A → (A → Checked B) → Checked B
passed a >>= f = f a
value_error e >>= f = value_error e
overflow_error >>= f = overflow_error

-- Fields are validated in order. A ValueError is collected and the later fields are still
-- validated; an OverflowError leaves at once.
infixl 6 ◌<*>◌
abbrev pub ◌<*>◌ {ℓ κ} : {A : Type ℓ} {B : Type κ} → Checked (A → B) → Checked A → Checked B
passed f <*> passed a = passed (f a)
passed f <*> value_error e = value_error e
passed f <*> overflow_error = overflow_error
value_error e <*> overflow_error = overflow_error
value_error e <*> _ = value_error e
overflow_error <*> _ = overflow_error

-- `value.astimezone(UTC)`, for a value with an offset.
unfoldable pub astimezone_utc : ℕ → Offset → Checked Instant
astimezone_utc wall (ahead o) = if leb o wall then passed (wall - o) else overflow_error
astimezone_utc wall (behind o) =
    if leb (wall + o) max_instant then passed (wall + o) else overflow_error

unfoldable pub require_utc_aware : DateTime → Checked Instant
unfolding astimezone_utc
require_utc_aware value = elim value.offset [
  | none ↦ value_error naive_datetime
  | some offset ↦ astimezone_utc value.wall offset
]

unfoldable pub utc_from_storage : DateTime → Checked Instant
unfolding astimezone_utc
utc_from_storage value = elim value.offset [
  | none ↦ passed value.wall
  | some offset ↦ astimezone_utc value.wall offset
]

-- `datetime.combine(value, datetime.min.time(), tzinfo=UTC)`
abbrev pub start_of_day : Date → Instant
start_of_day d = d * day_length

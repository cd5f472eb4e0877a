-- ===== src/Clock/Session.antt =====
-- `ResearchClock` of services/research_clock.py. A date is its day count since Monday 0001-01-01, and the
-- New York reading of an instant is a count of microseconds since then.
use Prim.Native.Char.{code}
use Prim.Native.String.{◌++◌ as ◌<>◌}
use deepinsight.Prelude.{
  ◌+◌, strip_text, ℕ, zero, suc, ◌-◌, ◌/◌, ◌%◌, String, Option, none, some, ltb, leb, ◌==◌,
  if◌then◌else◌, length, codes,
}
use deepinsight.Temporal.DateTime.{
  DateTime, Instant, Date, day_length, start_of_day, Checked, passed, value_error, overflow_error,
  require_utc_aware,
}

-- A date, or the OverflowError of a date before the first one; `unfinished` is a loop that has not ended.
pub data Session : Type 0 where
  session : Date → Session
  overflow unfinished : Session

-- 16:00
abbrev pub close_time : ℕ
close_time = 57_600_000_000

abbrev pub weekday : Date → ℕ
weekday d = d % 7

-- `candidate -= timedelta(days=1)`
abbrev pub previous_day : Date → Option Date
previous_day zero = none
previous_day (suc d) = some d

-- The `while` loop, with at most `fuel` rounds.
unfoldable pub last_weekday : (fuel : ℕ) → Option Date → Session
last_weekday fuel none = overflow
last_weekday zero (some d) = unfinished
last_weekday (suc fuel) (some d) =
    let earlier = last_weekday fuel (previous_day d) in
    if leb 5 (weekday d) then earlier else session d

-- The day of the reading, or the one before if it is not yet 16:00.
abbrev pub candidate_day : (local : ℕ) → Option Date
candidate_day local =
    if ltb (local % day_length) close_time
    then previous_day (local / day_length)
    else some (local / day_length)

-- A weekend has two days.
unfoldable pub market_session_date : (local : ℕ) → Session
unfolding last_weekday
market_session_date local = last_weekday 3 (candidate_day local)

pub data ResearchAsOfMode : Type 0 where
  date instant : ResearchAsOfMode

pub record ResearchClock : Type 0 where
  pub research_as_of : Instant
  pub mode : ResearchAsOfMode

-- `snapshot_date`
unfoldable pub snapshot_date : ResearchClock → Date
snapshot_date c = c.research_as_of / day_length

-- `parse_research_clock` raises ArgumentTypeError for a ValueError; an OverflowError escapes.
pub data Parsed : Type 0 where
  parsed : ResearchClock → Parsed
  argument_type_error out_of_range : Parsed

-- `text.replace("Z", "+00:00")`
unfoldable pub with_offset : String → String
with_offset String.[] = String.[]
with_offset (String.◌∷◌ c s) =
    let rest = with_offset s in if code c == 90 then "+00:00" <> rest else String.◌∷◌ c rest

abbrev pub from_date : Option Date → Parsed
from_date none = argument_type_error
from_date (some d) =
    parsed (record { research_as_of = start_of_day d + (day_length - 1); mode = date })

abbrev pub from_instant : Checked Instant → Parsed
from_instant (passed t) = parsed (record { research_as_of = t; mode = instant })
from_instant (value_error e) = argument_type_error
from_instant overflow_error = out_of_range

unfoldable pub from_datetime : Option DateTime → Parsed
unfolding require_utc_aware
from_datetime none = argument_type_error
from_datetime (some value) = from_instant (require_utc_aware value)

-- `date.fromisoformat` and `datetime.fromisoformat` are parameters, `none` for a ValueError.
module _ (date_of : String → Option Date) (datetime_of : String → Option DateTime) where
  unfoldable pub parse_research_clock : String → Parsed
  unfolding strip_text with_offset from_datetime
  parse_research_clock value =
      let raw = strip_text value in
      if length (codes raw) == 10
      then from_date (date_of raw)
      else from_datetime (datetime_of (with_offset raw))

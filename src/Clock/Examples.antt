-- ===== src/Clock/Examples.antt =====
-- Tests of the research clock, around the first weekend of the year 1.
use deepinsight.Prelude.{◌+◌, ◌*◌, ◌≡◌, refl, none, some}
use deepinsight.Temporal.DateTime.{day_length}
use deepinsight.Clock.Session.{
  session, overflow, close_time, market_session_date, date, parsed, argument_type_error,
  with_offset, parse_research_clock,
}
use deepinsight.Clock.Latest.{IsLatest, market_session_date-IsLatest}

-- Monday noon has the Friday before, and Monday 16:00 itself.
monday_noon : market_session_date (7 * day_length + 43_200_000_000) ≡ session 4
unfolding market_session_date
monday_noon = refl

monday_close : market_session_date (7 * day_length + close_time) ≡ session 7
unfolding market_session_date
monday_close = refl

first_noon : market_session_date 43_200_000_000 ≡ overflow
unfolding market_session_date
first_noon = refl

zulu : with_offset "T00Z" ≡ "T00+00:00"
unfolding with_offset
zulu = refl

whole_day :
    parse_research_clock (λ text. some 1) (λ text. none) " 0001-01-02 "
    ≡ parsed (record { research_as_of = 172_799_999_999; mode = date })
unfolding parse_research_clock
whole_day = refl

naive_refused :
    parse_research_clock (λ text. none) (λ text. some (record { wall = 5; offset = none })) "0001"
    ≡ argument_type_error
unfolding parse_research_clock
naive_refused = refl

market_session_date-IsLatest_example :
    IsLatest
      (7 * day_length + 43_200_000_000)
      (market_session_date (7 * day_length + 43_200_000_000))
market_session_date-IsLatest_example =
    market_session_date-IsLatest (7 * day_length + 43_200_000_000)

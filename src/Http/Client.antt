-- ===== src/Http/Client.antt =====
-- The client: its constructor, the rate limiter, the backoff and the retry loop.
use deepinsight.Prelude.{
  ℕ, ℤ, pos, negsuc, is_negative, ◌+◌, ◌-◌, ◌*◌, ◌/◌, ◌^◌, min, String, Bool, false, not, Option,
  none, some, List, [], ◌∷◌, if◌then◌else◌, ltb, codes, is_blank, strip, strip_text, isdigit,
  is_decimal, all_codes,
}
use deepinsight.Http.World.{Reply, clock_read, wall_read, slept, World, Session, log}
use deepinsight.Http.Headers.{header}

pub record Client : Type 0 where
  pub user_agent : String
  pub request_timeout : ℕ
  pub max_retries : ℕ
  pub minimum_interval : ℕ
  pub backoff_base_seconds : ℕ
  pub max_backoff_seconds : ℕ

-- The errors that `__init__` raises, each with the message's parameter.
pub data Setup : Type 0 where
  configured : Client → Setup
  no_user_agent bad_timeout negative_retries bad_rate negative_backoff bad_maximum : Setup

abbrev pub is_positive : ℤ → Bool
is_positive (pos n) = ltb 0 n
is_positive (negsuc n) = false

-- The number, once its sign has been checked.
abbrev pub magnitude : ℤ → ℕ
magnitude (pos n) = n
magnitude (negsuc n) = 0

-- A finite float, as the fraction that it is: the numerator over one more than `less_one`.
pub record Rate : Type 0 where
  pub numerator : ℤ
  pub less_one : ℕ

-- The interval between two requests is rounded down to ticks.
unfoldable pub client :
    World
    → String
    → (request_timeout max_retries : ℤ) → (requests_per_second : Rate)
    → (backoff_base max_backoff : ℤ) → Setup
unfolding is_blank strip_text
client w user_agent request_timeout max_retries requests_per_second backoff_base max_backoff =
    if is_blank user_agent
    then no_user_agent
    else if not (is_positive request_timeout)
    then bad_timeout
    else if is_negative max_retries
    then negative_retries
    else if not (is_positive requests_per_second.numerator)
    then bad_rate
    else if is_negative backoff_base
    then negative_backoff
    else if not (is_positive max_backoff)
    then bad_maximum
    else configured (record {
      user_agent = strip_text user_agent;
      request_timeout = magnitude request_timeout;
      max_retries = magnitude max_retries;
      minimum_interval =
          w.second * (requests_per_second.less_one + 1) / magnitude requests_per_second.numerator;
      backoff_base_seconds = magnitude backoff_base;
      max_backoff_seconds = magnitude max_backoff;
    })

-- `_wait_for_rate_limit`
unfoldable pub read_clock : World → Session → ℕ × Session
read_clock w s = let now = w.clock s.events in (now, log (clock_read now) s)

abbrev pub set_last_request_at : ℕ × Session → Session
set_last_request_at (now, s) = record s { last_request_at = some now }

-- The wait is last_request_at + minimum_interval - now, when that is positive.
unfoldable pub waited : World → Client → Option ℕ → ℕ × Session → ℕ × Session
unfolding read_clock
waited w c none (now, s) = (now, s)
waited w c (some last) (now, s) =
    if ltb now (last + c.minimum_interval)
    then read_clock w (log (slept ((last + c.minimum_interval) - now)) s)
    else (now, s)

unfoldable pub wait_for_rate_limit : World → Client → Session → Session
unfolding read_clock waited
wait_for_rate_limit w c s = set_last_request_at (waited w c s.last_request_at (read_clock w s))

-- `float(normalized)` raises a ValueError for the superscripts that `isdigit` admits.
pub data Delay : Type 0 where
  no_delay : Delay
  delay : ℕ → Delay
  value_error : Delay

unfoldable pub number : ℕ → List ℕ → ℕ
number n [] = n
number n (c ∷ cs) = number (n * 10 + (c - 48)) cs

unfoldable pub retry_after_seconds : World → Option String → Delay
unfolding strip isdigit number
retry_after_seconds w none = no_delay
retry_after_seconds w (some value) =
    let normalized = strip (codes value) in
    if not (isdigit normalized)
    then no_delay
    else if all_codes is_decimal normalized
    then delay (number 0 normalized * w.second)
    else value_error

abbrev pub positive_delay : ℕ → Option ℕ → Option ℕ
positive_delay now none = none
positive_delay now (some reset_at) = if ltb now reset_at then some (reset_at - now) else none

unfoldable pub rate_limit_reset_seconds : World → Option String → (now : ℕ) → Option ℕ
unfolding strip
rate_limit_reset_seconds w none now = none
rate_limit_reset_seconds w (some value) now =
    positive_delay now (w.read_float (strip (codes value)))

-- `None if headers is None else _header(headers, name)`
unfoldable pub header_of : Reply → String → Option String
unfolding header
header_of none name = none
header_of (some response) name = header response.headers name

abbrev pub reset_or_backoff : Client → (attempt : ℕ) → Option ℕ → ℕ
reset_or_backoff c attempt none = c.backoff_base_seconds * 2 ^ attempt
reset_or_backoff c attempt (some reset) = reset

abbrev pub sleep_for : Client → ℕ → Session → Session
sleep_for c d s = log (slept (min d c.max_backoff_seconds)) s

-- The wall clock is read between the two headers; a ValueError comes before that.
unfoldable pub chosen_delay :
    World → Client → (attempt : ℕ) → Reply → Delay → Session → Option Session
unfolding rate_limit_reset_seconds header_of
chosen_delay w c attempt reply value_error s = none
chosen_delay w c attempt reply (delay d) s =
    some (sleep_for c d (log (wall_read (w.wall_clock s.events)) s))
chosen_delay w c attempt reply no_delay s =
    let now = w.wall_clock s.events in
    let reset = rate_limit_reset_seconds w (header_of reply "X-RateLimit-Reset") now in
    some (sleep_for c (reset_or_backoff c attempt reset) (log (wall_read now) s))

-- `_sleep_before_retry`; `none` is the ValueError.
-- The power in the backoff is a number here; as a float it overflows from 2 ** 1024 on.
unfoldable pub sleep_before_retry :
    World → Client → (attempt : ℕ) → Reply → Session → Option Session
unfolding retry_after_seconds chosen_delay header_of
sleep_before_retry w c attempt reply s =
    chosen_delay w c attempt reply (retry_after_seconds w (header_of reply "Retry-After")) s

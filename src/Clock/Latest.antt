-- ===== src/Clock/Latest.antt =====
-- The market session is the latest one that has closed.
use deepinsight.Prelude.{
  ℕ, zero, suc, ◌+◌, ◌-◌, ◌*◌, ◌/◌, ◌%◌, ◌≤◌, ◌<◌, ◌≡◌, inl, inr, Option, none, some, ltb, leb,
  if◌then◌else◌, Bool-cases, arith, ltb→lt, leb→le,
}
use deepinsight.Temporal.DateTime.{Date, day_length}
use deepinsight.Clock.Session.{
  Session, session, overflow, unfinished, close_time, weekday, previous_day, last_weekday,
  candidate_day, market_session_date,
}

-- The session of a weekday has closed by the reading.
abbrev pub HasClosed : (local : ℕ) → Date → Type 0
HasClosed local d = (weekday d < 5) × (d * day_length + close_time ≤ local)

-- The date is that of the latest closed session; an overflow is one before any.
abbrev pub IsLatest : (local : ℕ) → Session → Type 0
IsLatest local (session d) =
    HasClosed local d × ((later : Date) → HasClosed local later → later ≤ d)
IsLatest local overflow = (d : Date) → ¬ HasClosed local d
IsLatest local unfinished = ⊥

-- No session after the candidate has closed.
abbrev IsBound : (local : ℕ) → Option Date → Type 0
IsBound local none = (d : Date) → ¬ HasClosed local d
IsBound local (some c) =
    (c * day_length + close_time ≤ local) × ((later : Date) → HasClosed local later → later ≤ c)

day-IsBound :
    (local q r : ℕ)
    → local ≡ q * day_length + r
    → r < day_length
    → IsBound local (if ltb r close_time then previous_day q else some q)
day-IsBound local q r e h = elim (Bool-cases (ltb r close_time)) [
  | inr over ↦ rw over (ground (arith, over, e), λ later k. omega (arith, k.1, e, h))
  | inl early ↦ rw early (before q e (ltb→lt r close_time early))
]
  where
    before : (n : ℕ) → local ≡ n * day_length + r → r < close_time → IsBound local (previous_day n)
    before zero f l = λ d k. omega (arith, k.1, f, l)
    before (suc n) f l = (omega (arith, f), λ later k. omega (arith, k.1, f, l))

-- The days of a weekend up to the candidate.
abbrev weekend_days : Option Date → ℕ
weekend_days none = 0
weekend_days (some c) = weekday c - 4

few_rounds : (c : Option Date) → weekend_days c < 3
few_rounds none = omega arith
few_rounds (some c) = omega arith

-- A day of a weekend has no session.
day_before :
    (local fuel : ℕ) (c : Date)
    → IsBound local (some c)
    → 5 ≤ weekday c
    → weekend_days (some c) < suc fuel
    → IsBound local (previous_day c) × (weekend_days (previous_day c) < fuel)
day_before local fuel zero h e f = absurd (omega arith)
day_before local fuel (suc n) h e f = (
  (omega (arith, h.0), λ later k. let l = h.1 later k in no_session later n l k.0 e),
  omega arith,
)
  where
    no_session : (later n : ℕ) → later ≤ suc n → weekday later < 5 → 5 ≤ weekday (suc n) → later ≤ n
    no_session later n l k e = omega arith

-- The loop goes back over a weekend.
last_weekday-IsLatest :
    (local fuel : ℕ) (c : Option Date)
    → IsBound local c
    → weekend_days c < fuel
    → IsLatest local (last_weekday fuel c)
unfolding last_weekday
last_weekday-IsLatest local fuel none h f = h
last_weekday-IsLatest local zero (some c) h f = absurd (omega arith)
last_weekday-IsLatest local (suc fuel) (some c) h f = elim (Bool-cases (leb 5 (weekday c))) [
  | inl weekend ↦
      let (bound, rounds) = day_before local fuel c h (leb→le 5 (weekday c) weekend) f in
      rw weekend (last_weekday-IsLatest local fuel (previous_day c) bound rounds)
  | inr open_day ↦ rw open_day ((ground (arith, open_day), h.0), h.1)
]

-- For every New York reading of the cutoff, market_session_date is the latest weekday whose
-- session has closed, at 16:00, by then, and raises an OverflowError only if there is none; its
-- loop ends within three tests.
pub market_session_date-IsLatest : (local : ℕ) → IsLatest local (market_session_date local)
unfolding market_session_date
market_session_date-IsLatest local =
    last_weekday-IsLatest local 3 (candidate_day local)
      (day-IsBound local (local / day_length) (local % day_length) (omega arith) (omega arith))
      (few_rounds (candidate_day local))

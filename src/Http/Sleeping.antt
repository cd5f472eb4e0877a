-- ===== src/Http/Sleeping.antt =====
-- How long a call sleeps at most.
use deepinsight.Prelude.{
  ℕ, zero, suc, ◌+◌, ◌*◌, ◌≡◌, ◌≤◌, refl, sym, inl, inr, String, Bool, Option, none, some, List, [],
  ◌∷◌, ltb, Bool-cases, arith, subst, In,
}
use deepinsight.Http.World.{
  Request, Reply, Event, sent, clock_read, wall_read, slept, World, Session, log,
}
use deepinsight.Http.Client.{Client, read_clock, waited, wait_for_rate_limit}
use deepinsight.Http.Fetch.{attempts, send, get_text}
use deepinsight.Http.Steps.{IsSleep}
use deepinsight.Http.Keeping.{get_text_keeps}

-- The ticks slept so far.
abbrev pub time_slept : List Event → ℕ
time_slept [] = 0
time_slept (slept d ∷ events) = d + time_slept events
time_slept (sent request reply ∷ events) = time_slept events
time_slept (clock_read t ∷ events) = time_slept events
time_slept (wall_read t ∷ events) = time_slept events

-- The monotonic clock never runs back.
abbrev pub IsMonotonic : World → Type 0
IsMonotonic w = (t : ℕ) (events : List Event) → In (clock_read t) events → t ≤ w.clock events

-- `last_request_at` is a reading of the clock.
abbrev pub IsRead : Option ℕ → List Event → Type 0
IsRead none events = Unit
IsRead (some last) events = In (clock_read last) events

-- With `n` rounds left, the sleeps to come are accounted for.
record IsWithin (c : Client) (limit n : ℕ) (s : Session) : Type 0 where
  within : time_slept s.events + n * (c.minimum_interval + c.max_backoff_seconds) ≤ limit
  read : IsRead s.last_request_at s.events

module _ (w : World) (c : Client) (h : IsMonotonic w) where
  record IsPause (s s' : Session) (now : ℕ) : Type 0 where
    short : time_slept s'.events ≤ time_slept s.events + c.minimum_interval
    known : In (clock_read now) s'.events

  waited-IsPause :
      (last : Option ℕ) (s : Session)
      → IsRead last s.events
      → let (now, s') = waited w c last (read_clock w s) in IsPause s s' now
  unfolding waited read_clock
  waited-IsPause none s m = record { short = omega arith; known = inl refl }
  waited-IsPause (some last) s m =
      let now = w.clock s.events in
      let target = last + c.minimum_interval in
      elim (Bool-cases (ltb now target)) [
        | inl early ↦
            let later = h last s.events m in
            rw early (record { short = omega (arith, later); known = inl refl })
        | inr due ↦ rw due (record { short = omega arith; known = inl refl })
      ]

  -- The request, and then the sleep, each within what is left.
  sent-IsWithin :
      (limit n : ℕ) (s s' : Session) (now : ℕ) (request : Request) (reply : Reply)
      → IsWithin c limit (suc n) s
      → IsPause s s' now
      → s'.last_request_at ≡ some now
      → (IsWithin c limit 0 (log (sent request reply) s'))
        × ((s'' : Session) → IsSleep w c (log (sent request reply) s') s'' → IsWithin c limit n s'')
  sent-IsWithin limit n s s' now request reply p k e =
      let kept : IsRead s'.last_request_at (sent request reply ∷ s'.events) = rw e (inr k.known) in
      (
        record { within = omega (arith, p.within, k.short); read = kept },
        λ s'' z. subst (IsWithin c limit n) (sym z.slept_on) (record {
          within = omega (arith, p.within, k.short);
          read = rw e (inr (inr (inr k.known)));
        }),
      )

  sending :
      (limit : ℕ) (request : Request) (attempt n : ℕ) (s : Session)
      → IsWithin c limit (suc n) s
      → (IsWithin c limit 0 (send w c request attempt s).1)
        × ((s' : Session) → IsSleep w c (send w c request attempt s).1 s' → IsWithin c limit n s')
  unfolding send wait_for_rate_limit
  sending limit request zero n s p =
      let k = waited-IsPause s.last_request_at s p.read in
      sent-IsWithin limit n s _ _ request _ p (record { short = k.short; known = k.known }) refl
  sending limit request (suc attempt) n s p =
      let k = waited-IsPause s.last_request_at s p.read in
      sent-IsWithin limit n s _ _ request _ p (record { short = k.short; known = k.known }) refl

  -- Where the clock never runs back and last_request_at is none or one of its readings, a call of
  -- get_text sleeps in total at most max_retries + 1 times the sum of the minimum interval and the
  -- maximum backoff, whatever the replies' headers say.
  pub get_text-time_slept :
      (url accept : String) (extra : List (String × String)) (has_factory : Bool) (s : Session)
      → IsRead s.last_request_at s.events
      → time_slept (get_text w c url accept extra has_factory s).1.events
        ≤ time_slept s.events + (c.max_retries + 1) * (c.minimum_interval + c.max_backoff_seconds)
  get_text-time_slept url accept extra has_factory s m =
      let bound = time_slept s.events + attempts c * (c.minimum_interval + c.max_backoff_seconds) in
      let kept =
        get_text_keeps w c (IsWithin c bound)
          (λ n t q. record { within = omega (arith, q.within); read = q.read }) (sending bound) url
          accept extra has_factory s (record { within = omega arith; read = m }) in
      omega (arith, kept.within)

-- ===== src/Http/Steps.antt =====
-- What one round of the retry loop does to the session.
use deepinsight.Prelude.{
  ℕ, zero, suc, ◌+◌, ◌-◌, ◌≡◌, refl, ap, ◌∙◌, inl, inr, Option, none, some, ◌∷◌, ltb, Bool-cases,
  arith, min,
}
use deepinsight.Http.World.{Request, Reply, wall_read, slept, World, Session, log, replies}
use deepinsight.Http.Client.{
  Client, read_clock, waited, wait_for_rate_limit, Delay, no_delay, delay, value_error,
  chosen_delay, sleep_before_retry, header_of, retry_after_seconds, rate_limit_reset_seconds,
  reset_or_backoff,
}
use deepinsight.Http.Fetch.{count, send}

-- The counters are as they were, and so are the replies.
pub record IsQuiet (s s' : Session) : Type 0 where
  pub requests : s'.request_count ≡ s.request_count
  pub retries : s'.retry_count ≡ s.retry_count
  pub same_replies : replies s'.events ≡ replies s.events

module _ (w : World) (c : Client) where
  waited-IsQuiet : (last : Option ℕ) (s : Session) → IsQuiet s (waited w c last (read_clock w s)).1
  unfolding waited read_clock replies
  waited-IsQuiet none s = record { requests = refl; retries = refl; same_replies = refl }
  waited-IsQuiet (some last) s =
      elim (Bool-cases (ltb (w.clock s.events) (last + c.minimum_interval))) [
        | inl e ↦ rw e (record { requests = refl; retries = refl; same_replies = refl })
        | inr e ↦ rw e (record { requests = refl; retries = refl; same_replies = refl })
      ]

  pub wait_for_rate_limit-IsQuiet : (s : Session) → IsQuiet s (wait_for_rate_limit w c s)
  unfolding wait_for_rate_limit
  wait_for_rate_limit-IsQuiet s =
      let q = waited-IsQuiet s.last_request_at s in
      record { requests = q.requests; retries = q.retries; same_replies = q.same_replies }

  -- A sleep before a retry reads the wall clock and sleeps at most the maximum.
  pub record IsSleep (s s' : Session) : Type 0 where
    pub ticks : ℕ
    pub wall : ℕ
    pub slept_on : s' ≡ log (slept (min ticks c.max_backoff_seconds)) (log (wall_read wall) s)

  pub IsSleep-IsQuiet : (s s' : Session) → IsSleep s s' → IsQuiet s s'
  unfolding replies
  IsSleep-IsQuiet s s' z = record {
    requests = ap (λ (t : Session). t.request_count) z.slept_on;
    retries = ap (λ (t : Session). t.retry_count) z.slept_on;
    same_replies = ap (λ (t : Session). replies t.events) z.slept_on;
  }

  chosen_delay-IsSleep :
      (attempt : ℕ) (reply : Reply) (d : Delay) (s s' : Session)
      → chosen_delay w c attempt reply d s ≡ some s'
      → IsSleep s s'
  unfolding chosen_delay rate_limit_reset_seconds
  chosen_delay-IsSleep attempt reply value_error s s' e = cc
  chosen_delay-IsSleep attempt reply (delay d) s s' e = record {
    ticks = d;
    wall = w.wall_clock s.events;
    slept_on = (cc);
  }
  chosen_delay-IsSleep attempt reply no_delay s s' e = record {
    ticks =
        reset_or_backoff c attempt (
          rate_limit_reset_seconds w (header_of reply "X-RateLimit-Reset") (w.wall_clock s.events));
    wall = w.wall_clock s.events;
    slept_on = (cc);
  }

  pub sleep_before_retry-IsSleep :
      (attempt : ℕ) (reply : Reply) (s s' : Session)
      → sleep_before_retry w c attempt reply s ≡ some s'
      → IsSleep s s'
  unfolding sleep_before_retry
  sleep_before_retry-IsSleep attempt reply s s' e = chosen_delay-IsSleep attempt reply _ s s' e

  -- It fails only on a Retry-After header that `float` refuses.
  chosen_delay-value_error :
      (attempt : ℕ) (reply : Reply) (d : Delay) (s : Session)
      → chosen_delay w c attempt reply d s ≡ none
      → d ≡ value_error
  unfolding chosen_delay rate_limit_reset_seconds
  chosen_delay-value_error attempt reply value_error s e = refl
  chosen_delay-value_error attempt reply (delay d) s e = cc
  chosen_delay-value_error attempt reply no_delay s e = cc

  pub sleep_before_retry-value_error :
      (attempt : ℕ) (reply : Reply) (s : Session)
      → sleep_before_retry w c attempt reply s ≡ none
      → retry_after_seconds w (header_of reply "Retry-After") ≡ value_error
  unfolding sleep_before_retry
  sleep_before_retry-value_error attempt reply s e = chosen_delay-value_error attempt reply _ s e

  -- One request: a reply more, and the counters.
  pub record IsSent (attempt : ℕ) (reply : Reply) (s s' : Session) : Type 0 where
    pub requests : s'.request_count ≡ suc s.request_count
    pub retries : s'.retry_count + (1 - attempt) ≡ suc s.retry_count
    pub one_reply : replies s'.events ≡ reply ∷ replies s.events

  count-events : (attempt : ℕ) (s : Session) → (count attempt s).events ≡ s.events
  count-events zero s = refl
  count-events (suc attempt) s = refl

  count-request_count :
      (attempt : ℕ) (s : Session) → (count attempt s).request_count ≡ suc s.request_count
  count-request_count zero s = refl
  count-request_count (suc attempt) s = refl

  count-retry_count :
      (attempt : ℕ) (s : Session)
      → (count attempt s).retry_count + (1 - attempt) ≡ suc s.retry_count
  count-retry_count zero s = omega arith
  count-retry_count (suc attempt) s = omega arith

  pub send-IsSent :
      (request : Request) (attempt : ℕ) (s : Session)
      → let (reply, s') = send w c request attempt s in IsSent attempt reply s s'
  unfolding send replies
  send-IsSent request attempt s =
      let t = wait_for_rate_limit w c s in
      let q = wait_for_rate_limit-IsQuiet s in
      record {
        requests = count-request_count attempt t ∙ ap suc q.requests;
        retries = count-retry_count attempt t ∙ ap suc q.retries;
        one_reply =
            ap (λ es. (send w c request attempt s).0 ∷ replies es) (count-events attempt t)
            ∙ ap (λ rs. (send w c request attempt s).0 ∷ rs) q.same_replies;
      }

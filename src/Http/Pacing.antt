-- ===== src/Http/Pacing.antt =====
-- The rate limit: the times of a client's requests are at least its interval apart.
use deepinsight.Prelude.{
  ℕ, zero, suc, ◌+◌, ◌-◌, ◌≡◌, ◌≤◌, refl, sym, inl, inr, String, Bool, Option, none, some, List, [],
  ◌∷◌, ltb, Bool-cases, arith, subst,
}
use deepinsight.Http.World.{
  Request, Reply, Event, sent, clock_read, wall_read, slept, World, Session, log,
}
use deepinsight.Http.Client.{Client, read_clock, waited, wait_for_rate_limit}
use deepinsight.Http.Fetch.{send, get_text}
use deepinsight.Http.Steps.{IsSleep}
use deepinsight.Http.Keeping.{get_text_keeps}

-- The clock's last reading.
abbrev pub last_read : List Event → ℕ
last_read [] = 0
last_read (clock_read t ∷ events) = t
last_read (sent request reply ∷ events) = last_read events
last_read (wall_read t ∷ events) = last_read events
last_read (slept d ∷ events) = last_read events

-- The reading before each request, the newest request first.
abbrev pub request_times : List Event → List ℕ
request_times [] = []
request_times (sent request reply ∷ events) = last_read events ∷ request_times events
request_times (clock_read t ∷ events) = request_times events
request_times (wall_read t ∷ events) = request_times events
request_times (slept d ∷ events) = request_times events

abbrev pub IsAfter : ℕ → ℕ → List ℕ → Type 0
IsAfter interval t [] = Unit
IsAfter interval t (u ∷ us) = u + interval ≤ t

abbrev pub IsSpaced : ℕ → List ℕ → Type 0
IsSpaced interval [] = Unit
IsSpaced interval (t ∷ ts) = IsAfter interval t ts × IsSpaced interval ts

-- `last_request_at` is the time of the newest request.
abbrev pub IsNewest : Option ℕ → List ℕ → Type 0
IsNewest none [] = Unit
IsNewest none (t ∷ ts) = ⊥
IsNewest (some last) [] = ⊥
IsNewest (some last) (t ∷ ts) = last ≡ t

pub record IsPaced (c : Client) (s : Session) : Type 0 where
  pub spaced : IsSpaced c.minimum_interval (request_times s.events)
  pub newest : IsNewest s.last_request_at (request_times s.events)

-- After a sleep of `d` the clock shows at least `d` more than before it.
abbrev pub IsSleeping : World → Type 0
IsSleeping w = (t d : ℕ) (events : List Event) → t + d ≤ w.clock (slept d ∷ clock_read t ∷ events)

module _ (w : World) (c : Client) (h : IsSleeping w) where
  -- The wait before a request: no request is made, and the time that it gives is late enough.
  record IsWait (s s' : Session) (now : ℕ) : Type 0 where
    same : request_times s'.events ≡ request_times s.events
    read : last_read s'.events ≡ now
    late : IsAfter c.minimum_interval now (request_times s.events)

  late_enough :
      (last now : ℕ) (ts : List ℕ)
      → IsNewest (some last) ts
      → last + c.minimum_interval ≤ now
      → IsAfter c.minimum_interval now ts
  late_enough last now [] m e = tt
  late_enough last now (t ∷ ts) m e = omega (arith, m, e)

  first_request : (now : ℕ) (ts : List ℕ) → IsNewest none ts → IsAfter c.minimum_interval now ts
  first_request now [] m = tt
  first_request now (t ∷ ts) m = absurd m

  waited-IsWait :
      (last : Option ℕ) (s : Session)
      → IsNewest last (request_times s.events)
      → let (now, s') = waited w c last (read_clock w s) in IsWait s s' now
  unfolding waited read_clock
  waited-IsWait none s m = record { same = refl; read = refl; late = first_request _ _ m }
  waited-IsWait (some last) s m =
      let now = w.clock s.events in
      let target = last + c.minimum_interval in
      let times = request_times s.events in
      elim (Bool-cases (ltb now target)) [
        | inl early ↦
            let slept_on = h now (target - now) s.events in
            rw early (record {
              same = refl;
              read = refl;
              late = late_enough last _ times m (omega (arith, slept_on));
            })
        | inr due ↦ rw due (record {
          same = refl;
          read = refl;
          late = late_enough last now times m (ground (arith, due));
        })
      ]

  -- The clock reading that is kept is the one that the request is sent at.
  sent_at :
      (s s' : Session) (now : ℕ) (request : Request) (reply : Reply)
      → IsPaced c s
      → IsWait s s' now
      → s'.last_request_at ≡ some now
      → IsPaced c (log (sent request reply) s')
  sent_at s s' now request reply p k e = record {
    spaced = rw (k.read, k.same) (k.late, p.spaced);
    newest = rw e (sym k.read);
  }

  send-IsPaced :
      (request : Request) (attempt : ℕ) (s : Session)
      → IsPaced c s
      → IsPaced c (send w c request attempt s).1
  unfolding send wait_for_rate_limit
  send-IsPaced request zero s p =
      let k = waited-IsWait s.last_request_at s p.newest in
      sent_at s _ _ request _ p (record { same = k.same; read = k.read; late = k.late }) refl
  send-IsPaced request (suc attempt) s p =
      let k = waited-IsWait s.last_request_at s p.newest in
      sent_at s _ _ request _ p (record { same = k.same; read = k.read; late = k.late }) refl

  sleep-IsPaced : (s s' : Session) → IsSleep w c s s' → IsPaced c s → IsPaced c s'
  sleep-IsPaced s s' z p =
      subst (IsPaced c) (sym z.slept_on) (record { spaced = p.spaced; newest = p.newest })

  -- Where the clock shows, after a sleep, at least the time slept more than before, a call of
  -- get_text keeps this of a client: the clock readings before its requests are each at least the
  -- minimum interval after the one before, and last_request_at is the newest of them.
  pub get_text-IsPaced :
      (url accept : String) (extra : List (String × String)) (has_factory : Bool) (s : Session)
      → IsPaced c s
      → IsPaced c (get_text w c url accept extra has_factory s).1
  get_text-IsPaced url accept extra has_factory s p =
      get_text_keeps w c (λ n t. IsPaced c t) (λ n t q. q)
        (λ request attempt n t q.
          let q' = send-IsPaced request attempt t q in (q', λ t' z. sleep-IsPaced _ t' z q'))
        url accept extra has_factory s p

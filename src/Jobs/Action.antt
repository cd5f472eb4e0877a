-- ===== src/Jobs/Action.antt =====
-- Methods over the report-job table and the queue, which may raise. The state comes back beside the
-- exception too. What the code does not implement (DuckDB, Redis, the clock, the identifier factory
-- and the report generator) answers through `World`, by the number of calls made so far.
use deepinsight.Prelude.{ℕ, suc, String, Bool, Option, List, if◌then◌else◌}
use deepinsight.Temporal.DateTime.{Instant}
use deepinsight.Jobs.Records.{ReportJobRecord, GenerateReportRequest, GeneratedReport}

-- A queue message is the UTF-8 of a text, or bytes that are no UTF-8.
pub data Message : Type 0 where
  utf8 : String → Message
  not_utf8 : Message

pub record Shared : Type 0 where
  pub jobs : List ReportJobRecord
  pub queue : List Message
  pub calls : ℕ

-- What a Redis command does: it answers, or a RedisError is raised. The error says nothing of whether
-- the server has run the command: a connection that fails, or times out, may do so before or after.
pub data RedisReply : Type 0 where
  answered : RedisReply
  failed_before failed_after : RedisReply

pub record World : Type 0 where
  -- The transaction commits; otherwise it is rolled back and `duckdb.Error` is raised.
  pub commits : ℕ → Bool
  pub redis : ℕ → RedisReply
  pub now : ℕ → Instant
  pub fresh_id : ℕ → String
  -- The generator returns a report, or raises.
  pub generate : GenerateReportRequest → ℕ → Option GeneratedReport

pub data JobError : Type 0 where
  repository_error job_queue_error value_error service_unavailable : JobError

pub data Outcome {ℓ} (A : Type ℓ) : Type ℓ where
  returned : A → Outcome A
  raised : JobError → Outcome A

abbrev pub Action : Type 0 → Type 0
Action A = Shared → Outcome A × Shared

module _ {A : Type 0} where
  unfoldable pub pure : A → Action A
  pure a s = (returned a, s)

  unfoldable pub throw : JobError → Action A
  throw e s = (raised e, s)

  abbrev pub or_else : Outcome A → (JobError → Action A) → Action A
  or_else (returned a) handler s = (returned a, s)
  or_else (raised e) handler s = handler e s

  -- `try: body` / `except e: handler`
  unfoldable pub except : Action A → (JobError → Action A) → Action A
  except body handler s = let (r, s') = body s in or_else r handler s'

module _ {A B : Type 0} where
  abbrev pub and_then : Outcome A → (A → Action B) → Action B
  and_then (returned a) f s = f a s
  and_then (raised e) f s = (raised e, s)

  infixl 5 ◌>>=◌ ◌>>◌
  -- To open this is to open `pure` and `throw` too.
  unfoldable pub ◌>>=◌ : Action A → (A → Action B) → Action B
  unfolding pure throw
  ◌>>=◌ m f s = let (r, s') = m s in and_then r f s'

  abbrev pub ◌>>◌ : Action A → Action B → Action B
  m >> n = m >>= λ _. n

-- One call of the outside world; `tick` counts it.
abbrev pub tick : Shared → Shared
tick s = record s { calls = suc s.calls }

unfoldable pub clock : World → Action Instant
clock w s = (returned (w.now s.calls), tick s)

unfoldable pub job_id_factory : World → Action String
job_id_factory w s = (returned (w.fresh_id s.calls), tick s)

module _ {A : Type 0} where
  -- The rows that a transaction's body leaves are committed; if it raises, they are rolled back.
  abbrev pub committed : Outcome (A × List ReportJobRecord) → Shared → Outcome A × Shared
  committed (returned (a, rows)) s = (returned a, record s { jobs = rows })
  committed (raised e) s = (raised e, s)

  -- A transaction over the table: `body` gives its result and the rows that it leaves, or raises.
  unfoldable pub transaction :
      World → (List ReportJobRecord → Outcome (A × List ReportJobRecord)) → Action A
  transaction w body s =
      if w.commits s.calls
      then committed (body s.jobs) (tick s)
      else (raised repository_error, tick s)

-- ===== src/Jobs/Does.antt =====
-- Actions that change the table only as the lifecycle allows, one rule for each way to build one.
use deepinsight.Prelude.{Bool, true, false, List, if◌then◌else◌, Bool-cases, inl, inr}
use deepinsight.Jobs.Records.{ReportJobRecord}
use deepinsight.Jobs.Action.{
  World, Shared, JobError, Outcome, returned, raised, Action, pure, throw, except, ◌>>=◌, and_then,
  or_else, committed, tick, clock, job_id_factory, transaction,
}
use deepinsight.Jobs.Lifecycle.{Sound, Sound-refl, Sound-trans}

pub record Does {A : Type 0} (m : Action A) : Type 0 where
  pub at : (s : Shared) → Sound s.jobs (m s).1.jobs

-- What a transaction's body makes of the rows.
abbrev pub BodySound :
    {A : Type 0} → List ReportJobRecord → Outcome (A × List ReportJobRecord) → Type 0
BodySound rows (returned (a, rows')) = Sound rows rows'
BodySound rows (raised e) = Unit

module _ {A : Type 0} where
  pub Does-pure : (a : A) → Does (pure a)
  unfolding pure
  Does-pure a = record { at = λ s. Sound-refl s.jobs }

  pub Does-throw : (e : JobError) → Does (throw {A = A} e)
  unfolding throw
  Does-throw e = record { at = λ s. Sound-refl s.jobs }

  pub Does-if : (b : Bool) (m n : Action A) → Does m → Does n → Does (if b then m else n)
  Does-if true m n hm hn = hm
  Does-if false m n hm hn = hn

  or_else-Sound :
      (r : Outcome A) (f : JobError → Action A) (s : Shared)
      → ((e : JobError) → Does (f e))
      → Sound s.jobs (or_else r f s).1.jobs
  or_else-Sound (returned a) f s h = Sound-refl s.jobs
  or_else-Sound (raised e) f s h = (h e).at s

  pub Does-except :
      (m : Action A) (f : JobError → Action A)
      → Does m
      → ((e : JobError) → Does (f e))
      → Does (except m f)
  unfolding except
  Does-except m f hm hf = record {
    at = λ s. let (r, s') = m s in Sound-trans s.jobs s'.jobs _ (hm.at s) (or_else-Sound r f s' hf);
  }

  committed-Sound :
      (r : Outcome (A × List ReportJobRecord)) (s : Shared)
      → BodySound s.jobs r
      → Sound s.jobs (committed r s).1.jobs
  committed-Sound (returned (a, rows)) s h = h
  committed-Sound (raised e) s h = Sound-refl s.jobs

  pub Does-transaction :
      (w : World) (body : List ReportJobRecord → Outcome (A × List ReportJobRecord))
      → ((rows : List ReportJobRecord) → BodySound rows (body rows))
      → Does (transaction w body)
  unfolding transaction
  Does-transaction w body h = record {
    at = λ s. elim (Bool-cases (w.commits s.calls)) [
      | inl ok ↦ rw ok (committed-Sound (body s.jobs) (tick s) (h s.jobs))
      | inr failed ↦ rw failed (Sound-refl s.jobs)
    ];
  }

pub Does-clock : (w : World) → Does (clock w)
unfolding clock
Does-clock w = record { at = λ s. Sound-refl s.jobs }

pub Does-job_id_factory : (w : World) → Does (job_id_factory w)
unfolding job_id_factory
Does-job_id_factory w = record { at = λ s. Sound-refl s.jobs }

module _ {A B : Type 0} where
  and_then-Sound :
      (r : Outcome A) (f : A → Action B) (s : Shared)
      → ((a : A) → Does (f a))
      → Sound s.jobs (and_then r f s).1.jobs
  and_then-Sound (returned a) f s h = (h a).at s
  and_then-Sound (raised e) f s h = Sound-refl s.jobs

  pub Does-bind :
      (m : Action A) (f : A → Action B) → Does m → ((a : A) → Does (f a)) → Does (m >>= f)
  unfolding ◌>>=◌
  Does-bind m f hm hf = record {
    at =
        λ s. let (r, s') = m s in Sound-trans s.jobs s'.jobs _ (hm.at s) (and_then-Sound r f s' hf);
  }

pub ruleset does_rules = (
  Does-pure, Does-throw, Does-if, Does-except, Does-transaction, Does-clock, Does-job_id_factory,
  Does-bind,
)

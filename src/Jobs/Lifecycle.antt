-- ===== src/Jobs/Lifecycle.antt =====
-- The life of a report job: a row's allowed changes, and how a whole table may change by them.
use deepinsight.Prelude.{String, ◌≡◌, none, some, List, [], ◌∷◌, ◌++◌, All}
use deepinsight.Temporal.DateTime.{Instant}
use deepinsight.Jobs.Records.{queued, running, completed, failed, ErrorInfo, ReportJobRecord}
use deepinsight.Jobs.Repository.{claimed_at, moved_to, requeued, find_job}

pub data Step (r r' : ReportJobRecord) : Type 0 where
  claimed : (t : Instant) → r.status ≡ queued → r' ≡ claimed_at t r → Step r r'
  done :
      (report_id : String) (t : Instant)
      → r.status ≡ running
      → r' ≡ moved_to completed (some report_id) none t r
      → Step r r'
  broken :
      (e : ErrorInfo) (t : Instant)
      → r.status ≡ running
      → r' ≡ moved_to failed none (some e) t r
      → Step r r'
  unpublished :
      (e : ErrorInfo) (t : Instant)
      → r.status ≡ queued
      → r' ≡ moved_to failed none (some e) t r
      → Step r r'
  interrupted : r.status ≡ running → r' ≡ requeued r → Step r r'

pub data Reach (r : ReportJobRecord) : ReportJobRecord → Type 0 where
  here : Reach r r
  next : {r' r'' : ReportJobRecord} → Reach r r' → Step r' r'' → Reach r r''

pub Reach-trans : {a b c : ReportJobRecord} → Reach a b → Reach b c → Reach a c
Reach-trans h here = h
Reach-trans h (next k s) = next (Reach-trans h k) s

pub Reach-Step : {a b : ReportJobRecord} → Step a b → Reach a b
Reach-Step s = next here s

-- What a submission writes.
abbrev pub IsNew : ReportJobRecord → Type 0
IsNew r =
    (r.status ≡ queued)
    × (r.report_id ≡ none)
    × (r.error ≡ none)
    × (r.attempt_count ≡ 0)
    × (r.started_at ≡ none)
    × (r.finished_at ≡ none)

-- Each row of the first table is still there, in its place, and has come to what it is by steps; the
-- rows behind them have come by steps from new ones.
abbrev pub Evolves : List ReportJobRecord → List ReportJobRecord → Type 0
Evolves [] rows = All (λ r. (r₀ : ReportJobRecord) × IsNew r₀ × Reach r₀ r) rows
Evolves (r ∷ rows) [] = ⊥
Evolves (r ∷ rows) (r' ∷ rows') = Reach r r' × Evolves rows rows'

pub Evolves-refl : (rows : List ReportJobRecord) → Evolves rows rows
Evolves-refl [] = tt
Evolves-refl (r ∷ rows) = (here, Evolves-refl rows)

pub Evolves-trans : (a b c : List ReportJobRecord) → Evolves a b → Evolves b c → Evolves a c
Evolves-trans [] [] c h k = k
Evolves-trans [] (x ∷ b) [] h k = absurd k
Evolves-trans [] (x ∷ b) (y ∷ c) h k =
    let (x₀, new, path) = h.0 in ((x₀, new, Reach-trans path k.0), Evolves-trans [] b c h.1 k.1)
Evolves-trans (x ∷ a) [] c h k = absurd h
Evolves-trans (x ∷ a) (y ∷ b) [] h k = absurd k
Evolves-trans (x ∷ a) (y ∷ b) (z ∷ c) h k = (Reach-trans h.0 k.0, Evolves-trans a b c h.1 k.1)

pub Evolves-append :
    (rows : List ReportJobRecord) (r : ReportJobRecord) → IsNew r → Evolves rows (rows ++ r ∷ [])
Evolves-append [] r new = ((r, new, here), tt)
Evolves-append (x ∷ rows) r new = (here, Evolves-append rows r new)

-- `job_id` is a primary key.
abbrev pub HasUniqueIds : List ReportJobRecord → Type 0
HasUniqueIds [] = Unit
HasUniqueIds (r ∷ rows) = (find_job r.job_id rows ≡ none) × HasUniqueIds rows

-- The table evolves, and keeps its primary key.
abbrev pub Sound : List ReportJobRecord → List ReportJobRecord → Type 0
Sound rows rows' = Evolves rows rows' × (HasUniqueIds rows → HasUniqueIds rows')

pub Sound-refl : (rows : List ReportJobRecord) → Sound rows rows
Sound-refl rows = (Evolves-refl rows, λ u. u)

pub Sound-trans : (a b c : List ReportJobRecord) → Sound a b → Sound b c → Sound a c
Sound-trans a b c h k = (Evolves-trans a b c h.0 k.0, λ u. k.1 (h.1 u))

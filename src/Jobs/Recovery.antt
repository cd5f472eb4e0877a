-- ===== src/Jobs/Recovery.antt =====
-- What `recover_interrupted` leaves, where DuckDB and Redis answer, and the order of `list_queued`.
use deepinsight.Prelude.{
  ℕ, suc, ◌≡◌, refl, sym, ◌≢◌, ◌∙◌, Bool, true, false, List, [], ◌∷◌, ◌++◌, map, All, arith,
  is_blank, inl, inr, Bool-cases, length, codes, codes_lt, text_lt,
}
use mathlib.Core.List.{Perm, append_assoc, append-nil}
use mathlib.Core.List.Perm
use deepinsight.Jobs.Records.{queued, running, ReportJobRecord}
use deepinsight.Jobs.Action.{World, Shared, Message, utf8, returned, ◌>>=◌, transaction}
use deepinsight.Jobs.Repository.{
  select, update, is_in, requeued, requeue_interrupted, created_before, insert_ordered, order_rows,
  list_queued,
}
use deepinsight.Jobs.Queue.{enqueue}
use deepinsight.Jobs.Worker.{enqueue_all, recover_interrupted}
use deepinsight.Jobs.Execution.{Answers}

-- No row is behind a row that it was created before.
abbrev pub IsOrdered : List ReportJobRecord → Type 0
IsOrdered [] = Unit
IsOrdered (x ∷ []) = Unit
IsOrdered (x ∷ y ∷ rows) = (created_before y x ≡ false) × IsOrdered (y ∷ rows)

codes_lt_asymm : (xs ys : List ℕ) → codes_lt xs ys ≡ true → codes_lt ys xs ≡ false
unfolding codes_lt
codes_lt_asymm [] [] h = cc
codes_lt_asymm [] (y ∷ ys) h = refl
codes_lt_asymm (x ∷ xs) [] h = cc
codes_lt_asymm (x ∷ xs) (y ∷ ys) h = ground (arith, codes_lt_asymm xs ys)

created_before_asymm :
    (a b : ReportJobRecord) → created_before a b ≡ true → created_before b a ≡ false
unfolding created_before text_lt
created_before_asymm a b h = ground (arith, codes_lt_asymm (codes a.job_id) (codes b.job_id))

insert_ordered-IsOrdered :
    (r : ReportJobRecord) (rows : List ReportJobRecord)
    → IsOrdered rows
    → IsOrdered (insert_ordered r rows)
unfolding insert_ordered
insert_ordered-IsOrdered r [] h = tt
insert_ordered-IsOrdered r (x ∷ []) h = ground (arith, created_before_asymm x r)
insert_ordered-IsOrdered r (x ∷ y ∷ rows) h =
    ground (arith, created_before_asymm x r, insert_ordered-IsOrdered r (y ∷ rows) h.1)

order_rows-IsOrdered : (rows : List ReportJobRecord) → IsOrdered (order_rows rows)
unfolding order_rows
order_rows-IsOrdered [] = tt
order_rows-IsOrdered (r ∷ rows) =
    insert_ordered-IsOrdered r (order_rows rows) (order_rows-IsOrdered rows)

insert_ordered-perm :
    (r : ReportJobRecord) (rows : List ReportJobRecord) → Perm (insert_ordered r rows) (r ∷ rows)
unfolding insert_ordered
insert_ordered-perm r [] = Perm.rfl
insert_ordered-perm r (x ∷ rows) =
    let behind = Perm.trans (Perm.cons x (insert_ordered-perm r rows)) (Perm.swap r x rows) in
    elim (Bool-cases (created_before x r)) [ inl e ↦ rw e behind | inr e ↦ rw e Perm.rfl ]

order_rows-perm : (rows : List ReportJobRecord) → Perm (order_rows rows) rows
unfolding order_rows
order_rows-perm [] = Perm.rfl
order_rows-perm (r ∷ rows) =
    Perm.trans (insert_ordered-perm r (order_rows rows)) (Perm.cons r (order_rows-perm rows))

abbrev pub message_of : ReportJobRecord → Message
message_of r = utf8 r.job_id

abbrev IsNamed : ReportJobRecord → Type 0
IsNamed r = is_blank r.job_id ≡ false

All-requeued :
    (rows : List ReportJobRecord)
    → All IsNamed rows
    → All IsNamed (update (is_in running) requeued rows)
unfolding update
All-requeued [] h = tt
All-requeued (r ∷ rows) h = elim (Bool-cases (is_in running r)) [
  | inl e ↦ rw e (h.0, All-requeued rows h.1)
  | inr e ↦ rw e (h.0, All-requeued rows h.1)
]

none_running :
    (rows : List ReportJobRecord)
    → All (λ r. r.status ≢ running) (update (is_in running) requeued rows)
unfolding update
none_running [] = tt
none_running (r ∷ rows) = elim (Bool-cases (is_in running r)) [
  | inl e ↦ rw e (λ k. cc, none_running rows)
  | inr e ↦ rw e (λ k. ground arith, none_running rows)
]

All-select :
    (test : ReportJobRecord → Bool) (rows : List ReportJobRecord)
    → All IsNamed rows
    → All IsNamed (select test rows)
unfolding select
All-select test [] h = tt
All-select test (r ∷ rows) h = elim (Bool-cases (test r)) [
  | inl e ↦ rw e (h.0, All-select test rows h.1)
  | inr e ↦ rw e (All-select test rows h.1)
]

All-insert_ordered :
    (r : ReportJobRecord) (rows : List ReportJobRecord)
    → IsNamed r
    → All IsNamed rows
    → All IsNamed (insert_ordered r rows)
unfolding insert_ordered
All-insert_ordered r [] n h = (n, tt)
All-insert_ordered r (x ∷ rows) n h = elim (Bool-cases (created_before x r)) [
  | inl e ↦ rw e (h.0, All-insert_ordered r rows n h.1)
  | inr e ↦ rw e (n, h)
]

All-order_rows : (rows : List ReportJobRecord) → All IsNamed rows → All IsNamed (order_rows rows)
unfolding order_rows
All-order_rows [] h = tt
All-order_rows (r ∷ rows) h = All-insert_ordered r (order_rows rows) h.0 (All-order_rows rows h.1)

module _ (w : World) (answers : Answers w) where
  enqueue_all_lem :
      (rows : List ReportJobRecord) (s : Shared)
      → All (λ r. is_blank r.job_id ≡ false) rows
      → ((enqueue_all w rows s).0 ≡ returned tt)
        × ((enqueue_all w rows s).1.jobs ≡ s.jobs)
        × ((enqueue_all w rows s).1.queue ≡ s.queue ++ map message_of rows)
  unfolding enqueue_all enqueue ◌>>=◌
  enqueue_all_lem [] s h = (refl, refl, sym (append-nil s.queue))
  enqueue_all_lem (r ∷ rows) s h =
      let s1 = record s { queue = s.queue ++ message_of r ∷ []; calls = suc s.calls } in
      let rest = enqueue_all_lem rows s1 h.1 in
      rw (h.0, answers.redis s.calls) (rest.0, rest.1, rest.2 ∙ append_assoc s.queue _ _)

  -- The table that the recovery leaves.
  abbrev pub requeued_jobs : Shared → List ReportJobRecord
  requeued_jobs s = update (is_in running) requeued s.jobs

  recover_interrupted_lem :
      (s : Shared)
      → All IsNamed s.jobs
      → let rows = order_rows (select (is_in queued) (requeued_jobs s)) in
        ((recover_interrupted w s).0 ≡ returned (length (select (is_in running) s.jobs)))
        × ((recover_interrupted w s).1.jobs ≡ requeued_jobs s)
        × ((recover_interrupted w s).1.queue ≡ s.queue ++ map message_of rows)
  unfolding recover_interrupted requeue_interrupted list_queued transaction ◌>>=◌
  recover_interrupted_lem s named =
      let rows = order_rows (select (is_in queued) (requeued_jobs s)) in
      let s2 = record s { jobs = requeued_jobs s; calls = suc (suc s.calls) } in
      let (r, jobs, queue) =
        enqueue_all_lem rows s2
          (All-order_rows _ (All-select (is_in queued) _ (All-requeued s.jobs named))) in
      rw (answers.commits s.calls, answers.commits (suc s.calls), r) (refl, jobs, queue)

  -- If DuckDB and Redis answer and no stored identifier is blank, a recovery returns the number of
  -- interrupted jobs, leaves no job running, and appends to the queue the identifiers of exactly
  -- the jobs that are queued then, by creation time and identifier.
  pub recover_interrupted_republishes :
      (s : Shared)
      → All (λ r. is_blank r.job_id ≡ false) s.jobs
      → ((recover_interrupted w s).0 ≡ returned (length (select (is_in running) s.jobs)))
        × All (λ r. r.status ≢ running) (recover_interrupted w s).1.jobs
        × ((rows : List ReportJobRecord) × Perm rows
              (select (is_in queued) (recover_interrupted w s).1.jobs)
            × IsOrdered rows
            × ((recover_interrupted w s).1.queue ≡ s.queue ++ map message_of rows))
  recover_interrupted_republishes s named =
      let (r, jobs, queue) = recover_interrupted_lem s named in
      let queued_rows = select (is_in queued) (requeued_jobs s) in
      (
        r,
        rw jobs (none_running s.jobs),
        (
          order_rows queued_rows,
          rw jobs (order_rows-perm queued_rows),
          order_rows-IsOrdered queued_rows,
          queue,
        ),
      )

-- ===== src/Jobs/Fifo.antt =====
-- The queue gives back what it was given, in order.
use mathlib.Core.List.{append-nil, append_assoc}
use deepinsight.Prelude.{
  ℕ, zero, suc, ℤ, pos, ◌≡◌, refl, sym, ap, ◌∙◌, String, false, Option, some, List, [], ◌∷◌, ◌++◌,
  length, All, All-append, is_blank,
}
use deepinsight.Jobs.Action.{
  answered, World, Message, utf8, Shared, Outcome, returned, Action, pure, ◌>>=◌, ◌>>◌, and_then,
}
use deepinsight.Jobs.Queue.{enqueue, dequeue}

-- Redis answers every call.
abbrev pub IsAnswering : World → Type 0
IsAnswering w = (n : ℕ) → w.redis n ≡ answered

abbrev pub IsNonBlank : String → Type 0
IsNonBlank job_id = is_blank job_id ≡ false

-- Calls one after another.
unfoldable pub enqueue_each : World → List String → Action (Unit {0})
unfolding enqueue
enqueue_each w [] = pure tt
enqueue_each w (job_id ∷ ids) = do enqueue w job_id; enqueue_each w ids

unfoldable pub dequeue_each : World → (timeout_seconds : ℤ) → ℕ → Action (List (Option String))
unfolding dequeue
dequeue_each w timeout_seconds zero = pure []
dequeue_each w timeout_seconds (suc n) = do
  first ← dequeue w timeout_seconds
  rest ← dequeue_each w timeout_seconds n
  pure (first ∷ rest)

abbrev pub messages : List String → List Message
messages [] = []
messages (id ∷ ids) = utf8 id ∷ messages ids

abbrev pub answers : List String → List (Option String)
answers [] = []
answers (id ∷ ids) = some id ∷ answers ids

messages-append : (xs ys : List String) → messages (xs ++ ys) ≡ messages xs ++ messages ys
messages-append [] ys = refl
messages-append (x ∷ xs) ys = ap (λ rest. utf8 x ∷ rest) (messages-append xs ys)

and_then-pure :
    {A B : Type 0} (f : A → B) (r : Outcome A) (a : A) (s : Shared)
    → r ≡ returned a
    → and_then r (λ x. pure (f x)) s ≡ (returned (f a), s)
unfolding pure
and_then-pure f r a s e = rw e refl

module _ (w : World) (answering : IsAnswering w) where
  enqueue_each_lem :
      (ids : List String) (s : Shared)
      → All IsNonBlank ids
      → ((enqueue_each w ids s).0 ≡ returned tt)
        × ((enqueue_each w ids s).1.queue ≡ s.queue ++ messages ids)
  unfolding enqueue_each pure ◌>>=◌
  enqueue_each_lem [] s h = (refl, sym (append-nil s.queue))
  enqueue_each_lem (id ∷ ids) s h =
      let s' = record s { queue = s.queue ++ utf8 id ∷ []; calls = suc s.calls } in
      let (done, queued) = enqueue_each_lem ids s' h.1 in
      rw (h.0, answering s.calls)
        (done, queued ∙ append_assoc s.queue (utf8 id ∷ []) (messages ids))

  dequeue_each_lem :
      (t : ℕ) (ids : List String) (s : Shared)
      → All IsNonBlank ids
      → s.queue ≡ messages ids
      → ((dequeue_each w (pos t) (length ids) s).0 ≡ returned (answers ids))
        × ((dequeue_each w (pos t) (length ids) s).1.queue ≡ [])
  unfolding dequeue_each pure ◌>>=◌
  dequeue_each_lem t [] s h e = (refl, e)
  dequeue_each_lem t (id ∷ ids) s h e =
      let s' = record s { queue = messages ids; calls = suc s.calls } in
      let (given, left) = dequeue_each_lem t ids s' h.1 refl in
      let (r, s'') = dequeue_each w (pos t) (length ids) s' in
      let both = and_then-pure (λ rest. some id ∷ rest) r (answers ids) s'' given in
      rw (answering s.calls, e, h.0) (ap (λ p. p.0) both, ap (λ p. p.1.queue) both ∙ left)

  -- While Redis answers and no identifier is blank, enqueueing identifiers one after another
  -- succeeds, and dequeuing as often as there are identifiers in the queue, with a timeout that is
  -- not negative, returns those that were waiting and then the new ones, in order, and leaves the
  -- queue empty.
  pub dequeue_each-enqueue_each :
      (waiting ids : List String) (t : ℕ) (s : Shared)
      → All IsNonBlank waiting
      → All IsNonBlank ids
      → s.queue ≡ messages waiting
      → let s' = (enqueue_each w ids s).1 in
        ((enqueue_each w ids s).0 ≡ returned tt)
        × ((dequeue_each w (pos t) (length (waiting ++ ids)) s').0
            ≡ returned (answers (waiting ++ ids)))
        × ((dequeue_each w (pos t) (length (waiting ++ ids)) s').1.queue ≡ [])
  dequeue_each-enqueue_each waiting ids t s h k e =
      let (done, queued) = enqueue_each_lem ids s k in
      let (given, left) =
        dequeue_each_lem t (waiting ++ ids) (enqueue_each w ids s).1
          (All-append IsNonBlank waiting ids h k)
          (queued ∙ (ap (λ q. q ++ messages ids) e ∙ sym (messages-append waiting ids))) in
      (done, given, left)

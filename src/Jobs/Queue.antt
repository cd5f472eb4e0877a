-- ===== src/Jobs/Queue.antt =====
-- `RedisReportJobQueue` and `InMemoryReportJobQueue` of orchestration/job_queue.py: messages in order
-- of arrival. A blocking read that times out reads nothing.
use deepinsight.Prelude.{
  ℤ, is_negative, suc, String, Option, none, some, List, [], ◌∷◌, ◌++◌, is_blank, if◌then◌else◌,
}
use deepinsight.Jobs.Action.{
  RedisReply, answered, failed_before, failed_after, World, Message, utf8, not_utf8,
  job_queue_error, value_error, Outcome, returned, raised, Action,
}

-- RPUSH, which appends the message if the server runs it.
abbrev pub pushed : RedisReply → String → Action (Unit {0})
pushed answered job_id s =
    (returned tt, record s { queue = s.queue ++ utf8 job_id ∷ []; calls = suc s.calls })
pushed failed_before job_id s = (raised job_queue_error, record s { calls = suc s.calls })
pushed failed_after job_id s =
    (raised job_queue_error, record s { queue = s.queue ++ utf8 job_id ∷ []; calls = suc s.calls })

unfoldable pub enqueue : World → String → Action (Unit {0})
enqueue w job_id s =
    if is_blank job_id then (raised job_queue_error, s) else pushed (w.redis s.calls) job_id s

-- What is done with the message that was taken off the list.
unfoldable pub decode_message : Message → Outcome (Option String)
decode_message not_utf8 = raised job_queue_error
decode_message (utf8 job_id) =
    if is_blank job_id then raised job_queue_error else returned (some job_id)

unfoldable pub take_message : List Message → Outcome (Option String) × List Message
unfolding decode_message
take_message [] = (returned none, [])
take_message (m ∷ queue) = (decode_message m, queue)

-- BLPOP, which takes the first message if the server runs it; the message of a lost answer is lost.
unfoldable pub popped : RedisReply → Action (Option String)
unfolding take_message
popped answered s =
    ((take_message s.queue).0, record s { queue = (take_message s.queue).1; calls = suc s.calls })
popped failed_before s = (raised job_queue_error, record s { calls = suc s.calls })
popped failed_after s =
    (raised job_queue_error, record s { queue = (take_message s.queue).1; calls = suc s.calls })

unfoldable pub dequeue : World → (timeout_seconds : ℤ) → Action (Option String)
unfolding popped
dequeue w timeout_seconds s =
    if is_negative timeout_seconds then (raised value_error, s) else popped (w.redis s.calls) s

-- `InMemoryReportJobQueue`: the same list, which never fails.
unfoldable pub enqueue_in_memory : String → List String → Outcome (List String)
enqueue_in_memory job_id items =
    if is_blank job_id then raised job_queue_error else returned (items ++ job_id ∷ [])

unfoldable pub dequeue_in_memory :
    (timeout_seconds : ℤ) → List String → Outcome (Option String) × List String
dequeue_in_memory timeout_seconds [] =
    (if is_negative timeout_seconds then raised value_error else returned none, [])
dequeue_in_memory timeout_seconds (job_id ∷ items) =
    if is_negative timeout_seconds
    then (raised value_error, job_id ∷ items)
    else (returned (some job_id), items)

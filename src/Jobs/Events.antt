-- ===== src/Jobs/Events.antt =====
-- Sequences of calls from outside: the API process and the Worker share the table and the queue. A list
-- holds whole calls, one after another; calls whose transactions interleave are no such list.
use deepinsight.Prelude.{ℤ, String, List, [], ◌∷◌}
use deepinsight.Jobs.Records.{GenerateReportRequest}
use deepinsight.Jobs.Action.{World, Shared}
use deepinsight.Jobs.Worker.{run_once, recover_interrupted}
use deepinsight.Jobs.Service.{submit, get_status}

pub data Event : Type 0 where
  submitted : GenerateReportRequest → Event
  asked : String → Event
  worked : (timeout_seconds : ℤ) → Event
  recovered : Event

-- An exception ends the call and nothing else.
unfoldable pub handle : World → Shared → Event → Shared
handle w s (submitted request) = (submit w request s).1
handle w s (asked job_id) = (get_status w job_id s).1
handle w s (worked timeout_seconds) = (run_once w timeout_seconds s).1
handle w s recovered = (recover_interrupted w s).1

unfoldable pub handle_all : World → Shared → List Event → Shared
unfolding handle
handle_all w s [] = s
handle_all w s (e ∷ events) = handle_all w (handle w s e) events

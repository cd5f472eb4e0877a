-- ===== src/Jobs/Records.antt =====
-- The records of a report job: `ReportJobRecord` of repositories/records.py with what it holds, from
-- models/enums.py, schemas/common.py and schemas/reports.py. JSON columns hold the values themselves.
use deepinsight.Prelude.{ℕ, String, Bool, true, false, Option, List}
use deepinsight.Temporal.DateTime.{Instant, Date}

pub data TaskStatus : Type 0 where
  queued running completed failed : TaskStatus

abbrev pub is_status : TaskStatus → TaskStatus → Bool
is_status queued queued = true
is_status running running = true
is_status completed completed = true
is_status failed failed = true
is_status _ _ = false

pub record ErrorInfo : Type 0 where
  pub code : String
  pub message : String
  pub retryable : Bool

pub data ReportMarketScope : Type 0 where
  cn hk us mixed : ReportMarketScope

pub data ReportType : Type 0 where
  single_asset market_daily watchlist macro_weekly : ReportType

pub record GenerateReportRequest : Type 0 where
  pub report_date : Date
  pub market_scope : ReportMarketScope
  pub report_type : ReportType
  pub asset_ids : Option (List String)
  pub language : String
  pub include_sections : List String
  pub force_refresh : Bool

pub record ReportJobRecord : Type 0 where
  pub job_id : String
  pub request : GenerateReportRequest
  pub status : TaskStatus
  pub report_id : Option String
  pub error : Option ErrorInfo
  pub attempt_count : ℕ
  pub created_at : Option Instant
  pub started_at : Option Instant
  pub finished_at : Option Instant

pub record TaskStatusResponse : Type 0 where
  pub job_id : String
  pub status : TaskStatus
  pub report_id : Option String
  pub error : Option ErrorInfo

-- The fields of a `ResearchReport` that the job code reads.
pub record GeneratedReport : Type 0 where
  pub report_id : String
  pub status : TaskStatus

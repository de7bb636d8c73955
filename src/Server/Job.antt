-- ===== src/Server/Job.antt =====
-- A download job: the types of internal/server/jobs.go and `isTerminalJobStatus` of
-- internal/server/coalesce.go. Times are points on one clock. A `CancelFunc` is the number of the
-- run that it cancels. Not modelled: the speed window (float arithmetic), the tracker of partial
-- files and its mutex.
use hfdesk.Base.{ℕ, Bool, true, false, Option, List, Bytes}

pub data JobStatus : Type 0 where
  queued running paused completed failed cancelled : JobStatus

pub record JobProgress : Type 0 where
  pub total_files : ℕ
  pub completed_files : ℕ
  pub total_bytes : ℕ
  pub downloaded_bytes : ℕ
  pub bytes_per_second : ℕ
  pub eta_seconds : ℕ

pub data FileStatus : Type 0 where
  pending active finalizing complete : FileStatus

pub record JobFileProgress : Type 0 where
  pub path : Bytes
  pub total_bytes : ℕ
  pub downloaded : ℕ
  pub status : FileStatus
  pub progressed : Bool
  pub base_downloaded : ℕ

pub record Job : Type 0 where
  pub id : Bytes
  pub repo : Bytes
  pub revision : Bytes
  pub is_dataset : Bool
  pub filters : List Bytes
  pub excludes : List Bytes
  pub output_dir : Bytes
  pub hub_dir : Bytes
  pub destination_warning : Bytes
  pub local_dir : Bytes
  pub local_repo : Bytes
  pub branch_variant : Bool
  pub flat : Bool
  pub exact_match : Bool
  pub status : JobStatus
  pub phase : Bytes
  pub progress : JobProgress
  pub error : Bytes
  pub created_at : ℕ
  pub started_at : Option ℕ
  pub ended_at : Option ℕ
  pub files : List JobFileProgress
  pub route_key : Bytes
  pub cancel : Option ℕ
  pub generation : ℕ
  pub starting : Bool
  pub resume_floor : ℕ

unfoldable pub is_terminal_job_status : JobStatus → Bool
is_terminal_job_status completed = true
is_terminal_job_status failed = true
is_terminal_job_status cancelled = true
is_terminal_job_status paused = true
is_terminal_job_status _ = false

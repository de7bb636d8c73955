-- ===== src/Server/Progress.antt =====
-- `applyJobProgress` of internal/server/jobs.go. Its rate estimates, which are floating-point
-- numbers over a window of samples, are an argument: `speed job now` are the bytes per second and
-- the seconds left that `updateJobSpeed` shows for a job. Counts of bytes are natural numbers.
pub mod Floor
pub mod Totals
use hfdesk.Base.{
  ℕ, suc, ◌+◌, Bool, true, false, not, ◌&&◌, ◌||◌, List, [], ◌∷◌, ◌++◌, ltb, leb, if◌then◌else◌,
  any, Bytes, bytes_eq, codes,
}
use hfdesk.Server.Job.{Job, JobFileProgress, FileStatus, pending, active, finalizing, complete}

pub data ProgressEvent : Type 0 where
  plan_item file_progress : Bytes → ℕ → ProgressEvent
  file_start file_finalizing file_done : Bytes → ProgressEvent
  all_finalizing other_event : ProgressEvent

-- The first file with the path.
unfoldable pub on_file :
    Bytes → (JobFileProgress → JobFileProgress) → List JobFileProgress → List JobFileProgress
on_file path f [] = []
on_file path f (x ∷ xs) =
    let rest = on_file path f xs in if bytes_eq x.path path then f x ∷ xs else x ∷ rest

unfoldable pub total_downloaded : List JobFileProgress → ℕ
total_downloaded [] = 0
total_downloaded (f ∷ fs) = f.downloaded + total_downloaded fs

-- The first real progress of a file records the bytes that were there before.
abbrev pub progressed_to : ℕ → JobFileProgress → JobFileProgress
progressed_to downloaded f = record f {
  progressed = true;
  base_downloaded = if f.progressed then f.base_downloaded else downloaded;
  downloaded = downloaded;
}

abbrev pub file_completed : JobFileProgress → JobFileProgress
file_completed f = record f { status = complete; downloaded = f.total_bytes }

abbrev pub is_downloading : JobFileProgress → Bool
is_downloading f = elim f.status [
  | pending ↦ true
  | active ↦ true
  | finalizing ↦ false
  | complete ↦ false
]

abbrev pub planned_file : Bytes → ℕ → JobFileProgress
planned_file path total = record {
  path = path;
  total_bytes = total;
  downloaded = 0;
  status = pending;
  progressed = false;
  base_downloaded = 0;
}

-- The bytes that are shown, and the floor of a resumed job.
unfoldable pub show_total : ℕ → Job → Job
show_total total job =
    if ltb 0 job.resume_floor
    then record job {
      progress = record job.progress {
        downloaded_bytes =
            if ltb job.progress.downloaded_bytes total
            then total
            else job.progress.downloaded_bytes;
      };
      resume_floor = if leb job.resume_floor total then 0 else job.resume_floor;
    }
    else record job { progress = record job.progress { downloaded_bytes = total } }

abbrev pub with_speed : ℕ × ℕ → Job → Job
with_speed (rate, eta) job = record job {
  progress = record job.progress { bytes_per_second = rate; eta_seconds = eta };
}

abbrev pub in_finalizing : Job → Job
in_finalizing job = record (with_speed (0, 0) job) { phase = codes "finalizing" }

module _ (speed : Job → ℕ → ℕ × ℕ) where
  unfoldable pub apply_job_progress : Job → ProgressEvent → ℕ → Job
  unfolding on_file show_total total_downloaded
  apply_job_progress job (plan_item path total) now = record job {
    progress = record job.progress {
      total_files = suc job.progress.total_files;
      total_bytes = job.progress.total_bytes + total;
    };
    files = job.files ++ planned_file path total ∷ [];
  }
  apply_job_progress job (file_start path) now = record job {
    files = on_file path (λ f. record f { status = active }) job.files;
  }
  apply_job_progress job (file_progress path downloaded) now =
      let files = on_file path (progressed_to downloaded) job.files in
      let shown = show_total (total_downloaded files) (record job { files = files }) in
      with_speed (speed shown now) shown
  apply_job_progress job (file_finalizing path) now =
      let files = on_file path (λ f. record f { status = finalizing }) job.files in
      if any is_downloading files
      then record job { files = files }
      else in_finalizing (record job { files = files })
  apply_job_progress job (file_done path) now =
      let files = on_file path file_completed job.files in
      show_total (total_downloaded files) (record job {
        files = files;
        progress = record job.progress { completed_files = suc job.progress.completed_files };
      })
  apply_job_progress job all_finalizing now = in_finalizing job
  apply_job_progress job other_event now = job

  unfoldable pub apply_all : Job → List (ProgressEvent × ℕ) → Job
  unfolding apply_job_progress
  apply_all job [] = job
  apply_all job ((event, now) ∷ events) = apply_all (apply_job_progress job event now) events

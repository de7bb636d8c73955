-- ===== src/Server/Jobs/Operations.antt =====
-- The methods of the job manager in internal/server/jobs.go that change a job or the limit.
use hfdesk.Base.{
  ℕ, suc, ◌-◌, Bool, true, false, ◌&&◌, ◌||◌, Option, none, some, List, [], ◌∷◌, ltb, if◌then◌else◌,
  keep_if, length, take, Bytes, bytes_eq, ℤ,
}
use hfdesk.Server.Job.{
  Job, JobStatus, JobProgress, queued, paused, failed, cancelled, is_terminal_job_status,
}
use hfdesk.Server.Jobs.{
  JobManager, Slot, lookup, update, dispatch, effective_max_active, is_queued, is_running,
  is_paused,
}

abbrev pub no_progress : JobProgress
no_progress = record {
  total_files = 0;
  completed_files = 0;
  total_bytes = 0;
  downloaded_bytes = 0;
  bytes_per_second = 0;
  eta_seconds = 0;
}

-- The contexts that a call of `job.cancel` stops.
abbrev stop_run : Option ℕ → List ℕ → List ℕ
stop_run none runs = runs
stop_run (some a) runs = a ∷ runs

abbrev pub on_job : (Job → Job) → Slot → Slot
on_job f s = record s { job = f s.job }

pub data DismissResult : Type 0 where
  dismiss_ok dismiss_not_found : DismissResult
  dismiss_still_active : Job → DismissResult

unfoldable pub restart_status_allowed : JobStatus → Bool → Bool
restart_status_allowed failed true = true
restart_status_allowed cancelled true = true
restart_status_allowed paused false = true
restart_status_allowed _ _ = false

unfoldable pub reset_job : Bool → Job → Job
reset_job true job = record job {
  generation = suc job.generation;
  status = queued;
  error = [];
  ended_at = none;
  progress = no_progress;
  resume_floor = 0;
  files = [];
}
reset_job false job = record job {
  generation = suc job.generation;
  status = queued;
  progress = record no_progress { downloaded_bytes = job.progress.downloaded_bytes };
  resume_floor = job.progress.downloaded_bytes;
  files = [];
}

abbrev pub cancelled_at : ℕ → Job → Job
cancelled_at now job = record job { status = cancelled; ended_at = some now }

unfoldable pub cancel_job : Bytes → ℕ → JobManager → JobManager × Bool
cancel_job id now m = if m.stopping then (m, false) else elim (lookup id m.jobs) [
  | none ↦ (m, false)
  | some s ↦
      if is_queued s.job.status || (is_running s.job.status || is_paused s.job.status)
      then (
        record m {
          jobs = update id (on_job (cancelled_at now)) m.jobs;
          stopped_runs = stop_run s.job.cancel m.stopped_runs;
        },
        true,
      )
      else (m, false)
]

abbrev pub as_paused : Job → Job
as_paused job = record job { status = paused }

unfoldable pub pause_job : Bytes → JobManager → JobManager × Bool
pause_job id m = if m.stopping then (m, false) else elim (lookup id m.jobs) [
  | none ↦ (m, false)
  | some s ↦
      if is_running s.job.status
      then (
        record m {
          jobs = update id (on_job as_paused) m.jobs;
          stopped_runs = stop_run s.job.cancel m.stopped_runs;
        },
        true,
      )
      else (m, false)
]

unfoldable pub remove : Bytes → List Slot → List Slot
remove id [] = []
remove id (s ∷ ss) = let rest = remove id ss in if bytes_eq s.job.id id then ss else s ∷ rest

unfoldable pub delete_job : Bytes → JobManager → JobManager × Bool
unfolding remove
delete_job id m = if m.stopping then (m, false) else elim (lookup id m.jobs) [
  | none ↦ (m, false)
  | some s ↦ (
    record m {
      jobs = remove id m.jobs;
      removed = s ∷ m.removed;
      stopped_runs =
          if is_queued s.job.status || is_running s.job.status
          then stop_run s.job.cancel m.stopped_runs
          else m.stopped_runs;
    },
    true,
  )
]

unfoldable pub dismiss_job_result : Bytes → JobManager → JobManager × DismissResult
unfolding remove
dismiss_job_result id m = if m.stopping then (m, dismiss_not_found) else elim (lookup id m.jobs) [
  | none ↦ (m, dismiss_not_found)
  | some s ↦
      if is_terminal_job_status s.job.status
      then (record m { jobs = remove id m.jobs; removed = s ∷ m.removed }, dismiss_ok)
      else (m, dismiss_still_active s.job)
]

-- The most recently started first; a missing time compares as not later.
abbrev pub later : Option ℕ → Option ℕ → Bool
later (some a) (some b) = ltb b a
later _ _ = false

unfoldable pub insert_by_start : Slot → List Slot → List Slot
insert_by_start s [] = s ∷ []
insert_by_start s (t ∷ ts) =
    let rest = insert_by_start s ts in
    if later t.job.started_at s.job.started_at then t ∷ rest else s ∷ t ∷ ts

unfoldable pub newest_first : List Slot → List Slot
unfolding insert_by_start
newest_first [] = []
newest_first (s ∷ ss) = insert_by_start s (newest_first ss)

-- The job runs, since the list is made under the same lock.
unfoldable pub requeued : Slot → Slot
requeued s =
    if is_running s.job.status
    then record s {
      job = record s.job { generation = suc s.job.generation; starting = false; status = queued };
    }
    else s

unfoldable pub requeue : List Slot → JobManager → JobManager
unfolding requeued
requeue [] m = m
requeue (s ∷ ss) m = requeue ss (record m {
  jobs = update s.job.id requeued m.jobs;
  stopped_runs = stop_run s.job.cancel m.stopped_runs;
})

unfoldable pub enforce_limit : JobManager → JobManager
unfolding requeue newest_first
enforce_limit m =
    let all = keep_if (λ s. is_running s.job.status) m.jobs in
    requeue (take (length all - effective_max_active m) (newest_first all)) m

unfoldable pub quiesce : JobManager → JobManager
quiesce m = record m { fenced = true }

unfoldable pub pause_running : List Slot → List Slot
pause_running [] = []
pause_running (s ∷ ss) =
    let rest = pause_running ss in
    if is_running s.job.status then on_job as_paused s ∷ rest else s ∷ rest

stop_running : List Slot → List ℕ → List ℕ
stop_running [] runs = runs
stop_running (s ∷ ss) runs =
    let rest = stop_running ss runs in
    if is_running s.job.status then stop_run s.job.cancel rest else rest

-- The first call of `Close`, up to its wait for the runs.
unfoldable pub close : JobManager → JobManager
unfolding pause_running stop_running
close m = record m {
  fenced = true;
  stopping = true;
  jobs = pause_running m.jobs;
  stopped_runs = stop_running m.jobs m.stopped_runs;
}

module _ (has_destination : Job → Bool) where
  -- `restartJob`, with no selected delete under way.
  unfoldable pub restart_job : Bytes → Bool → JobManager → JobManager × Bool
  unfolding reset_job restart_status_allowed
  restart_job id retry m = if m.stopping then (m, false) else elim (lookup id m.jobs) [
    | none ↦ (m, false)
    | some s ↦
        if restart_status_allowed s.job.status retry && has_destination s.job
        then (if m.blocked s.job then (m, false) else (
          dispatch has_destination
              (record m { jobs = update id (on_job (reset_job retry)) m.jobs }),
          true,
        ))
        else (m, false)
  ]

  -- `UpdateConfig` as far as the limit goes.
  unfoldable pub update_config : ℤ → JobManager → JobManager
  unfolding enforce_limit
  update_config limit m =
      if m.stopping
      then m
      else dispatch has_destination (enforce_limit (record m { max_active = limit }))

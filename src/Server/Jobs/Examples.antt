-- ===== src/Server/Jobs/Examples.antt =====
-- The theorems on the job manager of internal/server/jobs.go at concrete histories.
use Prim.Native.String.{String}
use hfdesk.Base.{
  refl, true, false, Bool, none, List, [], ◌∷◌, arith, codes, bytes_eq, ℕ, pos, ◌≤◌, ◌-◌, keep_if,
}
use hfdesk.Server.Job.{Job, queued}
use mathlib.Core.List.{Permᴰ}
use hfdesk.Server.Jobs.Order.{IsOldestFirst, Starts, dispatch-Starts}
use hfdesk.Server.Jobs.{
  JobManager, is_waiting, active_count, effective_max_active, dispatch, start_queued, launch,
  update, started, by_age, insert_by_age,
}
use hfdesk.Server.Jobs.Actions
use hfdesk.Server.Jobs.Creation
use hfdesk.Server.Jobs.Operations
use hfdesk.Server.Jobs.Runs
use hfdesk.Server.Progress.{ProgressEvent, plan_item, file_progress, apply_all}
use hfdesk.Server.Progress.Floor.{Shows, reaches, resumed-Shows}
use hfdesk.Server.Progress.Totals.{IsExact, retried-IsExact}
use hfdesk.Server.Jobs.Histories.{NeverLowers, history_limit}

abbrev job_at : String → ℕ → Job
job_at id now = record {
  id = codes id;
  repo = codes id;
  revision = codes "main";
  is_dataset = false;
  filters = [];
  excludes = [];
  output_dir = [];
  hub_dir = [];
  destination_warning = [];
  local_dir = [];
  local_repo = [];
  branch_variant = false;
  flat = false;
  exact_match = false;
  status = queued;
  phase = [];
  progress = record {
    total_files = 0;
    completed_files = 0;
    total_bytes = 0;
    downloaded_bytes = 0;
    bytes_per_second = 0;
    eta_seconds = 0;
  };
  error = [];
  created_at = now;
  started_at = none;
  ended_at = none;
  files = [];
  route_key = [];
  cancel = none;
  generation = 0;
  starting = false;
  resume_floor = 0;
}

abbrev anywhere : Job → Bool
anywhere job = true

-- Two downloads where one may run, and the first one begins.
abbrev two_jobs : List Actions.Action
two_jobs =
    Actions.creates (λ p. p) (job_at "a" 1)
    ∷ Actions.creates (λ p. p) (job_at "b" 2)
    ∷ Actions.begins (codes "a") 1 3
    ∷ []

history_limit_example :
    active_count
      (Actions.history anywhere two_jobs
        (Creation.load_state [] (Creation.new_job_manager (pos 1)))).jobs
    ≤ effective_max_active (
        Actions.history anywhere two_jobs
          (Creation.load_state [] (Creation.new_job_manager (pos 1))))
unfolding NeverLowers Creation.create_job Runs.begin_run Runs.begin_slot Creation.load_state
    Creation.put_all Creation.find_same Creation.is_same Creation.string_slices_equal dispatch
    start_queued launch update started by_age insert_by_age active_count bytes_eq
history_limit_example =
    history_limit anywhere [] (pos 1) two_jobs (omega arith, (omega arith, (omega arith, tt)))

-- A manager with the younger job first in its list.
abbrev waiting_two : JobManager
waiting_two = record (Creation.new_job_manager (pos 1)) {
  jobs =
      record { job = job_at "b" 2; launched = []; working = [] }
      ∷ record { job = job_at "a" 1; launched = []; working = [] }
      ∷ [];
}

dispatch-Starts_example :
    IsOldestFirst (by_age (keep_if (λ s. is_waiting s.job) waiting_two.jobs))
    × Permᴰ
        (keep_if (λ s. is_waiting s.job) waiting_two.jobs)
        (by_age (keep_if (λ s. is_waiting s.job) waiting_two.jobs))
    × Starts anywhere
        (effective_max_active waiting_two - active_count waiting_two.jobs)
        (by_age (keep_if (λ s. is_waiting s.job) waiting_two.jobs))
        waiting_two
        (dispatch anywhere waiting_two)
dispatch-Starts_example = dispatch-Starts anywhere waiting_two refl

-- A file of ten bytes with four of them there.
abbrev two_events : List (ProgressEvent × ℕ)
two_events = (plan_item (codes "f") 10, 1) ∷ (file_progress (codes "f") 4, 2) ∷ []

abbrev no_speed : Job → ℕ → ℕ × ℕ
no_speed job now = (0, 0)

abbrev half_done : Job
half_done = record (job_at "a" 1) {
  progress = record (job_at "a" 1).progress { downloaded_bytes = 6 };
}

resumed-Shows_example :
    Shows
      (reaches no_speed 6 (Operations.reset_job false half_done) two_events)
      6
      (apply_all no_speed (Operations.reset_job false half_done) two_events)
resumed-Shows_example = resumed-Shows no_speed half_done two_events

retried-IsExact_example :
    IsExact (apply_all no_speed (Operations.reset_job true half_done) two_events)
retried-IsExact_example = retried-IsExact no_speed half_done two_events

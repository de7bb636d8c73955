-- ===== src/Server/Jobs/Creation.antt =====
-- `CreateJob`, its search for an equal job, and `LoadState` in internal/server/jobs.go.
use hfdesk.Base.{
  ℕ, suc, Bool, true, false, not, ◌&&◌, ◌||◌, Option, none, some, List, [], ◌∷◌, ◌++◌, ◌==◌, ltb,
  if◌then◌else◌, length, Bytes, bytes_eq, ℤ,
}
use hfdesk.Server.Job.{Job, queued, paused}
use hfdesk.Server.Jobs.{JobManager, Slot, dispatch, is_queued, is_running}
use hfdesk.Server.Jobs.Operations.{no_progress}

abbrev same : Bool → Bool → Bool
same true b = b
same false b = not b

-- Whether two lists have the same elements, in any order.
unfoldable pub occurrences : Bytes → List Bytes → ℕ
occurrences x [] = 0
occurrences x (y ∷ ys) = let rest = occurrences x ys in if bytes_eq x y then suc rest else rest

within_counts : List Bytes → List Bytes → List Bytes → Bool
within_counts a seen [] = true
within_counts a seen (s ∷ b) =
    let rest = within_counts a (s ∷ seen) b in
    if ltb (occurrences s a) (suc (occurrences s seen)) then false else rest

unfoldable pub string_slices_equal : List Bytes → List Bytes → Bool
unfolding within_counts occurrences
string_slices_equal a b =
    if length a == 0 && length b == 0
    then true
    else (if length a == length b then within_counts a [] b else false)

pub data CreateResult : Type 0 where
  stopping_error invalid_destination writer_busy : CreateResult
  existing_job : Job → CreateResult
  new_job : Job → CreateResult

-- An active job for the same files at the same place.
unfoldable pub is_same : (Bytes → Bytes) → Job → Job → Bool
is_same key job existing =
    bytes_eq existing.repo job.repo
    && (bytes_eq existing.revision job.revision
        && (same existing.is_dataset job.is_dataset
            && (bytes_eq (key existing.output_dir) (key job.output_dir)
                && (same existing.flat job.flat
                    && (bytes_eq (key existing.hub_dir) (key job.hub_dir)
                        && (bytes_eq existing.local_repo job.local_repo
                            && (same existing.branch_variant job.branch_variant
                                && (same existing.exact_match job.exact_match
                                    && ((is_queued existing.status || is_running existing.status)
                                        && (string_slices_equal existing.filters job.filters
                                            && string_slices_equal existing.excludes
                                                job.excludes))))))))))

unfoldable pub find_same : (Bytes → Bytes) → Job → List Slot → Option Job
find_same key job [] = none
find_same key job (s ∷ ss) =
    let rest = find_same key job ss in if is_same key job s.job then some s.job else rest

-- The job that a request makes, with what the request and the settings determine.
abbrev pub fresh_job : Job → Job
fresh_job job = record job {
  status = queued;
  phase = [];
  progress = no_progress;
  error = [];
  started_at = none;
  ended_at = none;
  files = [];
  cancel = none;
  generation = 0;
  starting = false;
  resume_floor = 0;
}

-- One job of the state file, put back into the map.
abbrev pub restored : Job → Slot
restored job = record {
  job = record job {
    cancel = none;
    starting = false;
    status = if is_running job.status || is_queued job.status then paused else job.status;
  };
  launched = [];
  working = [];
}

unfoldable pub put : Slot → List Slot → List Slot
put s [] = s ∷ []
put s (t ∷ ts) = let rest = put s ts in if bytes_eq t.job.id s.job.id then s ∷ ts else t ∷ rest

unfoldable pub put_all : List Job → List Slot → List Slot
unfolding put
put_all [] slots = slots
put_all (j ∷ js) slots = put_all js (put (restored j) slots)

abbrev pub new_job_manager : ℤ → JobManager
new_job_manager limit = record {
  jobs = [];
  removed = [];
  max_active = limit;
  fenced = false;
  stopping = false;
  blocked = λ job. false;
  last_activity = 0;
  stopped_runs = [];
}

unfoldable pub load_state : List Job → JobManager → JobManager
unfolding put_all
load_state js m = if m.stopping then m else record m { jobs = put_all js m.jobs }

module _ (has_destination : Job → Bool) where
  -- `CreateJob` with the job that the request resolves to.
  unfoldable pub create_job : (Bytes → Bytes) → Job → JobManager → JobManager × CreateResult
  create_job path_identity_key job m =
      if m.stopping then (m, stopping_error) else elim (find_same path_identity_key job m.jobs) [
        | some existing ↦ (m, existing_job existing)
        | none ↦
            if not (has_destination (fresh_job job))
            then (m, invalid_destination)
            else (if m.blocked (fresh_job job) then (m, writer_busy) else (
              dispatch has_destination (record m {
                jobs = m.jobs ++ record { job = fresh_job job; launched = []; working = [] } ∷ [];
              }),
              new_job (fresh_job job),
            ))
      ]

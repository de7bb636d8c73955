-- ===== src/Server/Jobs/Runs.antt =====
-- The critical sections of `runJob` in internal/server/jobs.go.
use hfdesk.Base.{
  ℕ, suc, Bool, false, not, ◌&&◌, ◌||◌, Option, none, some, [], ◌∷◌, ◌==◌, if◌then◌else◌, keep_if,
  any, Bytes,
}
use hfdesk.Server.Job.{Job, running, completed, failed, cancelled}
use hfdesk.Server.Jobs.{JobManager, Slot, Working, lookup, update, dispatch, is_paused}

-- `runJob`, from its launch to the call of the downloader.
abbrev begun : ℕ → ℕ → Job → Job
begun activity now job = record job {
  cancel = some activity;
  generation = suc job.generation;
  status = running;
  starting = false;
  phase = [];
  started_at = some now;
}

unfoldable pub begin_slot : Bool → ℕ → ℕ → Slot → Slot
begin_slot fenced activity now s =
    if any (λ a. a == activity) s.launched
    then (let others = keep_if (λ a. not (a == activity)) s.launched in
        if fenced
        then record s { job = record s.job { starting = false }; launched = others }
        else record s {
          job = begun activity now s.job;
          launched = others;
          working = record { activity = activity; generation = suc s.job.generation } ∷ s.working;
        })
    else s

unfoldable pub begin_run : Bytes → ℕ → ℕ → JobManager → JobManager
unfolding begin_slot
begin_run id activity now m = record m {
  jobs = update id (begin_slot m.fenced activity now) m.jobs;
  removed = update id (begin_slot m.fenced activity now) m.removed;
}

-- The downloader's error, if it has one.
abbrev pub ended_job : Bool → Option Bytes → ℕ → Job → Job
ended_job stopped err now job = record job {
  ended_at = some now;
  status = if stopped then cancelled else elim err [ none ↦ completed | some e ↦ failed ];
  error = if stopped then job.error else elim err [ none ↦ job.error | some e ↦ e ];
}

-- `runJob`, behind the call of the downloader.
unfoldable pub end_slot : Bool → Working → Option Bytes → ℕ → Slot → Slot
end_slot stopped run err now s =
    if any (λ r. r.activity == run.activity && r.generation == run.generation) s.working
    then (let others = keep_if (λ r. not (r.activity == run.activity)) s.working in
        if is_paused s.job.status || not (s.job.generation == run.generation)
        then record s { working = others }
        else record s { job = ended_job stopped err now s.job; working = others })
    else s

abbrev pub is_stopped : JobManager → ℕ → Bool
is_stopped m activity = any (λ a. a == activity) m.stopped_runs

abbrev pub ended : Bytes → Working → Option Bytes → ℕ → JobManager → JobManager
ended id run err now m = record m {
  jobs = update id (end_slot (is_stopped m run.activity) run err now) m.jobs;
  removed = update id (end_slot (is_stopped m run.activity) run err now) m.removed;
}

-- Whether a newer run or a restart has taken the job over.
unfoldable pub is_superseded : Bytes → Working → JobManager → Bool
is_superseded id run m = elim (lookup id m.jobs) [
  | some s ↦ not (s.job.generation == run.generation)
  | none ↦ elim (lookup id m.removed) [
    | some s ↦ not (s.job.generation == run.generation)
    | none ↦ false
  ]
]

module _ (has_destination : Job → Bool) where
  -- The end of a run frees a slot, except where a newer run has it.
  unfoldable pub end_run : Bytes → Working → Option Bytes → ℕ → JobManager → JobManager
  unfolding end_slot
  end_run id run err now m =
      if is_superseded id run m
      then ended id run err now m
      else dispatch has_destination (ended id run err now m)

  -- The deferred end of `runJob`.
  abbrev pub retire_run : JobManager → JobManager
  retire_run m = dispatch has_destination m

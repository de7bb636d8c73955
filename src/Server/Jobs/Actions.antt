-- ===== src/Server/Jobs/Actions.antt =====
-- Histories of the job manager of internal/server/jobs.go.
use hfdesk.Base.{ℕ, Bool, Option, List, [], ◌∷◌, Bytes, ℤ}
use hfdesk.Server.Job.{Job}
use hfdesk.Server.Jobs.{JobManager, Working}
use hfdesk.Server.Jobs.Operations.{
  cancel_job, pause_job, restart_job, delete_job, dismiss_job_result, update_config, quiesce, close,
}
use hfdesk.Server.Jobs.Runs.{begin_run, end_run, retire_run}
use hfdesk.Server.Jobs.Creation.{create_job}

-- What happens to a manager: the calls of its methods and the steps of its runs, and a change of the
-- repository reservations.
pub data Action : Type 0 where
  creates : (Bytes → Bytes) → Job → Action
  cancels : Bytes → ℕ → Action
  pauses deletes dismisses : Bytes → Action
  restarts : Bytes → Bool → Action
  sets_limit : ℤ → Action
  begins : Bytes → ℕ → ℕ → Action
  ends : Bytes → Working → Option Bytes → ℕ → Action
  retires quiesces closes : Action
  reserves : (Job → Bool) → Action

module _ (has_destination : Job → Bool) where
  abbrev pub act : Action → JobManager → JobManager
  act (creates key job) m = (create_job has_destination key job m).0
  act (cancels id now) m = (cancel_job id now m).0
  act (pauses id) m = (pause_job id m).0
  act (deletes id) m = (delete_job id m).0
  act (dismisses id) m = (dismiss_job_result id m).0
  act (restarts id retry) m = (restart_job has_destination id retry m).0
  act (sets_limit limit) m = update_config has_destination limit m
  act (begins id activity now) m = begin_run id activity now m
  act (ends id run err now) m = end_run has_destination id run err now m
  act retires m = retire_run has_destination m
  act quiesces m = quiesce m
  act closes m = close m
  act (reserves blocked) m = record m { blocked = blocked }

  unfoldable pub history : List Action → JobManager → JobManager
  history [] m = m
  history (a ∷ rest) m = history rest (act a m)

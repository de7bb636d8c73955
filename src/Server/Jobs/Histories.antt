-- ===== src/Server/Jobs/Histories.antt =====
-- The limit on active downloads over whole histories of internal/server/jobs.go.
use hfdesk.Base.{
  ℕ, ◌+◌, ◌≤◌, ◌≡◌, refl, option-rule, Bool, not, ◌&&◌, ◌||◌, Option, some, List, [], ◌∷◌, arith,
  if-rule, Bytes, ℤ,
}
use hfdesk.Server.Job.{Job, is_terminal_job_status}
use hfdesk.Server.Jobs.{
  JobManager, Slot, Working, lookup, dispatch, effective_max_active, is_queued, is_running,
  is_paused, active_count,
}
use hfdesk.Server.Jobs.Actions
use hfdesk.Server.Jobs.Creation
use hfdesk.Server.Jobs.Operations
use hfdesk.Server.Jobs.Runs
use hfdesk.Server.Jobs.Limit.{
  Within, begin_slot-Adds, end_slot-Adds, cancelled-Adds, paused-Adds, reset-Adds, dispatch-Within,
}
use hfdesk.Server.Jobs.Changes.{
  update-IsInLimit, update_both-IsInLimit, lookup-IsSound, remove-AllSound, pause_running-AllSound,
  enforce-Within, added-IsInLimit, put_all-AllSound, IsInLimit,
}

module _ (has_destination : Job → Bool) where
  dispatch-IsInLimit : (m : JobManager) → IsInLimit m → IsInLimit (dispatch has_destination m)
  unfolding IsInLimit Within
  dispatch-IsInLimit m good =
      let d =
        dispatch-Within has_destination (effective_max_active m) m good.0 good.1 (omega arith) in
      (d.0, omega (arith, d.1, d.2))

  abbrev act : Actions.Action → JobManager → JobManager
  act = Actions.act has_destination

  cancel_job-IsInLimit :
      (id : Bytes) (now : ℕ) (m : JobManager)
      → IsInLimit m
      → IsInLimit (Operations.cancel_job id now m).0
  unfolding Operations.cancel_job
  cancel_job-IsInLimit id now m good =
      if-rule (λ (r : JobManager × Bool). IsInLimit r.0) m.stopping _ _ (λ _. good)
        (λ _.
          option-rule (λ (r : JobManager × Bool). IsInLimit r.0) (lookup id m.jobs) _ _ (λ _. good)
            (λ s e.
              if-rule (λ (r : JobManager × Bool). IsInLimit r.0)
                (is_queued s.job.status || (is_running s.job.status || is_paused s.job.status)) _ _
                (λ _. update-IsInLimit _ (cancelled-Adds now) id _ m good) (λ _. good)))

  pause_job-IsInLimit :
      (id : Bytes) (m : JobManager) → IsInLimit m → IsInLimit (Operations.pause_job id m).0
  unfolding Operations.pause_job
  pause_job-IsInLimit id m good =
      if-rule (λ (r : JobManager × Bool). IsInLimit r.0) m.stopping _ _ (λ _. good)
        (λ _.
          option-rule (λ (r : JobManager × Bool). IsInLimit r.0) (lookup id m.jobs) _ _ (λ _. good)
            (λ s e.
              if-rule (λ (r : JobManager × Bool). IsInLimit r.0) (is_running s.job.status) _ _
                (λ _. update-IsInLimit _ paused-Adds id _ m good) (λ _. good)))

  removed-IsInLimit :
      (id : Bytes) (s : Slot) (runs : List ℕ) (m : JobManager)
      → lookup id m.jobs ≡ some s
      → IsInLimit m
      → IsInLimit (record m {
        jobs = Operations.remove id m.jobs;
        removed = s ∷ m.removed;
        stopped_runs = runs;
      })
  unfolding IsInLimit
  removed-IsInLimit id s runs m e good =
      let r = remove-AllSound id m.jobs good.0.0 in
      ((r.0, (lookup-IsSound id m.jobs s good.0.0 e, good.0.1)), omega (arith, r.1, good.1))

  delete_job-IsInLimit :
      (id : Bytes) (m : JobManager) → IsInLimit m → IsInLimit (Operations.delete_job id m).0
  unfolding Operations.delete_job
  delete_job-IsInLimit id m good =
      if-rule (λ (r : JobManager × Bool). IsInLimit r.0) m.stopping _ _ (λ _. good)
        (λ _.
          option-rule (λ (r : JobManager × Bool). IsInLimit r.0) (lookup id m.jobs) _ _ (λ _. good)
            (λ s e. removed-IsInLimit id s _ m e good))

  dismiss_job_result-IsInLimit :
      (id : Bytes) (m : JobManager) → IsInLimit m → IsInLimit (Operations.dismiss_job_result id m).0
  unfolding Operations.dismiss_job_result
  dismiss_job_result-IsInLimit id m good =
      if-rule (λ (r : JobManager × Operations.DismissResult). IsInLimit r.0) m.stopping _ _
        (λ _. good)
        (λ _.
          option-rule (λ (r : JobManager × Operations.DismissResult). IsInLimit r.0)
            (lookup id m.jobs) _ _ (λ _. good)
            (λ s e.
              if-rule (λ (r : JobManager × Operations.DismissResult). IsInLimit r.0)
                (is_terminal_job_status s.job.status) _ _
                (λ _. removed-IsInLimit id s m.stopped_runs m e good) (λ _. good)))

  restart_job-IsInLimit :
      (id : Bytes) (retry : Bool) (m : JobManager)
      → IsInLimit m
      → IsInLimit (Operations.restart_job has_destination id retry m).0
  unfolding Operations.restart_job
  restart_job-IsInLimit id retry m good =
      if-rule (λ (r : JobManager × Bool). IsInLimit r.0) m.stopping _ _ (λ _. good)
        (λ _.
          option-rule (λ (r : JobManager × Bool). IsInLimit r.0) (lookup id m.jobs) _ _ (λ _. good)
            (λ s e.
              if-rule (λ (r : JobManager × Bool). IsInLimit r.0)
                (Operations.restart_status_allowed s.job.status retry && has_destination s.job) _ _
                (λ _.
                  if-rule (λ (r : JobManager × Bool). IsInLimit r.0) (m.blocked s.job) _ _
                    (λ _. good)
                    (λ _.
                      dispatch-IsInLimit _
                        (update-IsInLimit _ (reset-Adds retry) id m.stopped_runs m good)))
                (λ _. good)))

  update_config-IsInLimit :
      (limit : ℤ) (m : JobManager)
      → IsInLimit m
      → effective_max_active m
        ≤ effective_max_active (Operations.update_config has_destination limit m)
      → IsInLimit (Operations.update_config has_destination limit m)
  unfolding Operations.update_config IsInLimit Within
  update_config-IsInLimit limit m good raise =
      if-rule (λ (r : JobManager). effective_max_active m ≤ effective_max_active r → IsInLimit r)
        m.stopping m
        (dispatch has_destination (Operations.enforce_limit (record m { max_active = limit })))
        (λ _ _. good)
        (λ _ h.
          let set = record m { max_active = limit } in
          let w =
            enforce-Within (active_count m.jobs) (effective_max_active set) set
              (good.0, omega arith, refl) in
          let lowered = Operations.enforce_limit set in
          let d =
            dispatch-Within has_destination (active_count m.jobs + effective_max_active lowered)
              lowered w.0 (omega (arith, w.1)) (omega arith) in
          dispatch-IsInLimit lowered (w.0, omega (arith, w.1, w.2, d.2, h, good.1)))
        raise

  end_run-IsInLimit :
      (id : Bytes) (run : Working) (err : Option Bytes) (now : ℕ) (m : JobManager)
      → IsInLimit m
      → IsInLimit (Runs.end_run has_destination id run err now m)
  unfolding Runs.end_run
  end_run-IsInLimit id run err now m good =
      let over =
        update_both-IsInLimit _ (end_slot-Adds (Runs.is_stopped m run.activity) run err now) id m
          good in
      if-rule IsInLimit (Runs.is_superseded id run m) _ _ (λ _. over)
        (λ _. dispatch-IsInLimit _ over)

  create_job-IsInLimit :
      (key : Bytes → Bytes) (job : Job) (m : JobManager)
      → IsInLimit m
      → IsInLimit (Creation.create_job has_destination key job m).0
  unfolding Creation.create_job
  create_job-IsInLimit key job m good =
      if-rule (λ (r : JobManager × Creation.CreateResult). IsInLimit r.0) m.stopping _ _ (λ _. good)
        (λ _.
          option-rule (λ (r : JobManager × Creation.CreateResult). IsInLimit r.0)
            (Creation.find_same key job m.jobs) _ _
            (λ _.
              if-rule (λ (r : JobManager × Creation.CreateResult). IsInLimit r.0)
                (not (has_destination (Creation.fresh_job job))) _ _ (λ _. good)
                (λ _.
                  if-rule (λ (r : JobManager × Creation.CreateResult). IsInLimit r.0)
                    (m.blocked (Creation.fresh_job job)) _ _ (λ _. good)
                    (λ _. dispatch-IsInLimit _ (added-IsInLimit job m good))))
            (λ existing e. good))

  -- No action but a lower limit takes a manager over its limit.
  act-IsInLimit :
      (a : Actions.Action) (m : JobManager)
      → IsInLimit m
      → effective_max_active m ≤ effective_max_active (act a m)
      → IsInLimit (act a m)
  unfolding IsInLimit Runs.begin_run Operations.close Operations.quiesce
  act-IsInLimit (Actions.creates key job) m good raise = create_job-IsInLimit key job m good
  act-IsInLimit (Actions.cancels id now) m good raise = cancel_job-IsInLimit id now m good
  act-IsInLimit (Actions.pauses id) m good raise = pause_job-IsInLimit id m good
  act-IsInLimit (Actions.deletes id) m good raise = delete_job-IsInLimit id m good
  act-IsInLimit (Actions.dismisses id) m good raise = dismiss_job_result-IsInLimit id m good
  act-IsInLimit (Actions.restarts id retry) m good raise = restart_job-IsInLimit id retry m good
  act-IsInLimit (Actions.sets_limit limit) m good raise = update_config-IsInLimit limit m good raise
  act-IsInLimit (Actions.begins id activity now) m good raise =
      update_both-IsInLimit _ (begin_slot-Adds m.fenced activity now) id m good
  act-IsInLimit (Actions.ends id run err now) m good raise = end_run-IsInLimit id run err now m good
  act-IsInLimit Actions.retires m good raise = dispatch-IsInLimit m good
  act-IsInLimit Actions.quiesces m good raise = good
  act-IsInLimit Actions.closes m good raise =
      let p = pause_running-AllSound m.jobs good.0.0 in
      ((p.0, good.0.1), omega (arith, p.1, good.1))
  act-IsInLimit (Actions.reserves blocked) m good raise = good

  -- Histories in which no action lowers the limit.
  unfoldable pub NeverLowers : List Actions.Action → JobManager → Type 0
  NeverLowers [] m = Unit {0}
  NeverLowers (a ∷ rest) m =
      (effective_max_active m ≤ effective_max_active (act a m)) × NeverLowers rest (act a m)

  history-IsInLimit :
      (actions : List Actions.Action) (m : JobManager)
      → NeverLowers actions m
      → IsInLimit m
      → IsInLimit (Actions.history has_destination actions m)
  unfolding Actions.history NeverLowers
  history-IsInLimit [] m h good = good
  history-IsInLimit (a ∷ rest) m h good =
      history-IsInLimit rest (act a m) h.1 (act-IsInLimit a m good h.0)

  -- From a start with any saved jobs, no history in which the limit is never lowered has more active
  -- jobs (running or being started) than the limit, whatever the order of the calls and of the steps
  -- of the runs.
  pub history_limit :
      (saved : List Job) (limit : ℤ) (actions : List Actions.Action)
      → NeverLowers actions (Creation.load_state saved (Creation.new_job_manager limit))
      → let m =
          Actions.history has_destination actions
            (Creation.load_state saved (Creation.new_job_manager limit)) in
        active_count m.jobs ≤ effective_max_active m
  unfolding IsInLimit Creation.load_state active_count
  history_limit saved limit actions h =
      let a = put_all-AllSound saved [] tt in
      (history-IsInLimit actions _ h ((a.0, tt), omega (arith, a.1))).1

-- ===== src/Server/Jobs.antt =====
-- The manager of internal/server/jobs.go: its state and its scheduler, with no reservation of a
-- selected delete. A map is the list of its entries; where the code sorts, entries of one age keep
-- the order of this list.
pub mod Operations
pub mod Runs
pub mod Creation
pub mod Actions
pub mod Limit
pub mod Changes
pub mod Histories
pub mod Order
mod Examples
use hfdesk.Base.{
  ℕ, zero, suc, ◌+◌, ◌-◌, Bool, true, false, not, ◌&&◌, ◌||◌, Option, none, some, List, [], ◌∷◌,
  ◌++◌, ◌==◌, ltb, leb, if◌then◌else◌, keep_if, length, take, map, any, Bytes, bytes_eq, ℤ, pos,
  pos_part, less,
}
use hfdesk.Server.Job.{Job, JobStatus, queued, running, paused, completed, failed, cancelled}

abbrev pub is_queued : JobStatus → Bool
is_queued queued = true
is_queued _ = false

abbrev pub is_running : JobStatus → Bool
is_running running = true
is_running _ = false

abbrev pub is_paused : JobStatus → Bool
is_paused paused = true
is_paused _ = false

-- A `runJob` that has claimed its generation.
pub record Working : Type 0 where
  pub activity : ℕ
  pub generation : ℕ

-- A job with its `runJob` goroutines: those that have not begun yet and those that work.
pub record Slot : Type 0 where
  pub job : Job
  pub launched : List ℕ
  pub working : List Working

-- `removed` holds the jobs that are deleted while goroutines still have them. `blocked` tells which
-- jobs a repository reservation holds back, `stopped_runs` the runs whose context is cancelled.
pub record JobManager : Type 0 where
  pub jobs : List Slot
  pub removed : List Slot
  pub max_active : ℤ
  pub fenced : Bool
  pub stopping : Bool
  pub blocked : Job → Bool
  pub last_activity : ℕ
  pub stopped_runs : List ℕ

unfoldable pub lookup : Bytes → List Slot → Option Slot
lookup id [] = none
lookup id (s ∷ ss) = let rest = lookup id ss in if bytes_eq s.job.id id then some s else rest

unfoldable pub update : Bytes → (Slot → Slot) → List Slot → List Slot
update id f [] = []
update id f (s ∷ ss) =
    let rest = update id f ss in if bytes_eq s.job.id id then f s ∷ ss else s ∷ rest

abbrev pub effective_max_active : JobManager → ℕ
effective_max_active m = if less (pos 0) m.max_active then pos_part m.max_active else 3

-- A job that takes up an active slot.
abbrev pub occupies : Job → Bool
occupies j = is_running j.status || j.starting

abbrev pub is_waiting : Job → Bool
is_waiting j = not (occupies j) && is_queued j.status

unfoldable pub active_count : List Slot → ℕ
active_count [] = 0
active_count (s ∷ ss) = let rest = active_count ss in if occupies s.job then suc rest else rest

-- Oldest first.
unfoldable pub insert_by_age : Slot → List Slot → List Slot
insert_by_age s [] = s ∷ []
insert_by_age s (t ∷ ts) =
    let rest = insert_by_age s ts in
    if leb s.job.created_at t.job.created_at then s ∷ t ∷ ts else t ∷ rest

unfoldable pub by_age : List Slot → List Slot
unfolding insert_by_age
by_age [] = []
by_age (s ∷ ss) = insert_by_age s (by_age ss)

-- A pointer to a job is its id here. The job waits, since the queue is made under the same lock.
unfoldable pub started : ℕ → Slot → Slot
started activity s =
    if is_waiting s.job
    then record s { job = record s.job { starting = true }; launched = activity ∷ s.launched }
    else s

unfoldable pub launch : Bytes → JobManager → JobManager
unfolding update started
launch id m = record m {
  jobs = update id (started (suc m.last_activity)) m.jobs;
  last_activity = suc m.last_activity;
}

-- The scheduler's loop, with the room that is left. `has_destination` tells whether a job's
-- `jobDestinationBase` is not empty.
module _ (has_destination : Job → Bool) where
  unfoldable pub start_queued : ℕ → List Slot → JobManager → JobManager
  unfolding launch
  start_queued zero queue m = m
  start_queued (suc room) [] m = m
  start_queued (suc room) (s ∷ queue) m =
      let rest = start_queued room queue (launch s.job.id m) in
      if has_destination s.job then (if m.blocked s.job then m else rest) else m

  unfoldable pub dispatch : JobManager → JobManager
  unfolding start_queued by_age active_count
  dispatch m =
      if m.fenced
      then m
      else start_queued (effective_max_active m - active_count m.jobs)
          (by_age (keep_if (λ s. is_waiting s.job) m.jobs)) m

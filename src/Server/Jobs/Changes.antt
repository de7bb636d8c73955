-- ===== src/Server/Jobs/Changes.antt =====
-- What the changes of single jobs in internal/server/jobs.go do to the count of active jobs.
use hfdesk.Base.{
  ℕ, ◌-◌, ◌≤◌, ◌≡◌, refl, subst, ap, false, Option, some, List, [], ◌∷◌, ◌++◌, arith, if-rule,
  keep_if, length, take, Bytes, bytes_eq,
}
use hfdesk.Server.Job.{Job}
use hfdesk.Server.Jobs.{
  JobManager, Slot, lookup, update, effective_max_active, is_running, active_count, occupies,
}
use hfdesk.Server.Jobs.Creation
use hfdesk.Server.Jobs.Operations
use hfdesk.Server.Jobs.Limit.{
  IsSound, AllSound, IsSoundManager, Adds, Within, flag, update-AllSound, requeued-Adds,
  paused-Adds, active_count_cons,
}

-- A sound manager with no more active jobs than its limit.
unfoldable pub IsInLimit : JobManager → Type 0
IsInLimit m = IsSoundManager m × (active_count m.jobs ≤ effective_max_active m)

-- A change of one job in the map.
pub update-IsInLimit :
    (f : Slot → Slot)
    → Adds 0 f
    → (id : Bytes) (runs : List ℕ) (m : JobManager) → IsInLimit m
    → IsInLimit (record m { jobs = update id f m.jobs; stopped_runs = runs })
unfolding IsInLimit
update-IsInLimit f h id runs m good =
    let u = update-AllSound 0 f h id m.jobs good.0.0 in
    ((u.0, good.0.1), omega (arith, u.1, good.1))

pub update_both-IsInLimit :
    (f : Slot → Slot)
    → Adds 0 f
    → (id : Bytes) (m : JobManager) → IsInLimit m
    → IsInLimit (record m { jobs = update id f m.jobs; removed = update id f m.removed })
unfolding IsInLimit
update_both-IsInLimit f h id m good =
    let u = update-AllSound 0 f h id m.jobs good.0.0 in
    let v = update-AllSound 0 f h id m.removed good.0.1 in ((u.0, v.0), omega (arith, u.1, good.1))

pub lookup-IsSound :
    (id : Bytes) (ss : List Slot) (s : Slot) → AllSound ss → lookup id ss ≡ some s → IsSound s
unfolding lookup
lookup-IsSound id [] s a e = absurd (ground arith)
lookup-IsSound id (t ∷ ss) s a e =
    if-rule (λ (o : Option Slot). o ≡ some s → IsSound s) (bytes_eq t.job.id id) (some t)
      (lookup id ss) (λ _ f. let same : t ≡ s = cc f in subst IsSound same a.0)
      (λ _ f. lookup-IsSound id ss s a.1 f) e

pub remove-AllSound :
    (id : Bytes) (ss : List Slot)
    → AllSound ss
    → AllSound (Operations.remove id ss)
      × (active_count (Operations.remove id ss) ≤ active_count ss)
unfolding Operations.remove
remove-AllSound id [] a = (tt, omega arith)
remove-AllSound id (s ∷ ss) a =
    let rest = remove-AllSound id ss a.1 in
    let old = active_count_cons s ss in
    let kept = active_count_cons s (Operations.remove id ss) in
    if-rule (λ (l : List Slot). AllSound l × (active_count l ≤ active_count (s ∷ ss)))
      (bytes_eq s.job.id id) _ _ (λ _. (a.1, omega (arith, old)))
      (λ _. ((a.0, rest.0), omega (arith, rest.1, old, kept)))

pub pause_running-AllSound :
    (ss : List Slot)
    → AllSound ss
    → AllSound (Operations.pause_running ss)
      × (active_count (Operations.pause_running ss) ≤ active_count ss)
unfolding Operations.pause_running Adds
pause_running-AllSound [] a = (tt, omega arith)
pause_running-AllSound (s ∷ ss) a =
    let rest = pause_running-AllSound ss a.1 in
    let old = active_count_cons s ss in
    let kept = active_count_cons s (Operations.pause_running ss) in
    let changed =
      active_count_cons (Operations.on_job Operations.as_paused s) (Operations.pause_running ss) in
    let here = paused-Adds s a.0 in
    if-rule (λ (l : List Slot). AllSound l × (active_count l ≤ active_count (s ∷ ss)))
      (is_running s.job.status) _ _
      (λ _. ((here.0, rest.0), omega (arith, rest.1, old, changed, here.1)))
      (λ _. ((a.0, rest.0), omega (arith, rest.1, old, kept)))

pub requeue-Within :
    (n limit : ℕ) (ss : List Slot) (m : JobManager)
    → Within n limit m
    → Within n limit (Operations.requeue ss m)
unfolding Operations.requeue Within
requeue-Within n limit [] m h = h
requeue-Within n limit (s ∷ ss) m h =
    let u = update-AllSound 0 Operations.requeued requeued-Adds s.job.id m.jobs h.0.0 in
    requeue-Within n limit ss _ ((u.0, h.0.1), omega (arith, u.1, h.1), h.2)

pub enforce-Within :
    (n limit : ℕ) (m : JobManager) → Within n limit m → Within n limit (Operations.enforce_limit m)
unfolding Operations.enforce_limit
enforce-Within n limit m h =
    let all = keep_if (λ s. is_running s.job.status) m.jobs in
    requeue-Within n limit
      (take (length all - effective_max_active m) (Operations.newest_first all)) m h

pub append-AllSound :
    (ss : List Slot) (s : Slot)
    → AllSound ss
    → IsSound s
    → occupies s.job ≡ false
    → AllSound (ss ++ s ∷ []) × (active_count (ss ++ s ∷ []) ≤ active_count ss)
append-AllSound [] s a sound idle =
    ((sound, tt), omega (arith, active_count_cons s [], ap flag idle))
append-AllSound (t ∷ ss) s a sound idle =
    let rest = append-AllSound ss s a.1 sound idle in
    (
      (a.0, rest.0),
      omega (arith, rest.1, active_count_cons t ss, active_count_cons t (ss ++ s ∷ [])),
    )

pub added-IsInLimit :
    (job : Job) (m : JobManager)
    → IsInLimit m
    → IsInLimit (record m {
      jobs = m.jobs ++ record { job = Creation.fresh_job job; launched = []; working = [] } ∷ [];
    })
unfolding IsInLimit
added-IsInLimit job m good =
    let a =
      append-AllSound m.jobs (record { job = Creation.fresh_job job; launched = []; working = [] })
        good.0.0 (omega arith, omega arith) refl in
    ((a.0, good.0.1), omega (arith, a.1, good.1))

pub put-AllSound :
    (s : Slot) (ss : List Slot)
    → AllSound ss
    → IsSound s
    → occupies s.job ≡ false
    → AllSound (Creation.put s ss) × (active_count (Creation.put s ss) ≤ active_count ss)
unfolding Creation.put
put-AllSound s [] a sound idle = ((sound, tt), omega (arith, active_count_cons s [], ap flag idle))
put-AllSound s (t ∷ ss) a sound idle =
    let rest = put-AllSound s ss a.1 sound idle in
    if-rule (λ (l : List Slot). AllSound l × (active_count l ≤ active_count (t ∷ ss)))
      (bytes_eq t.job.id s.job.id) _ _
      (λ _.
        ((sound, a.1), omega (arith, active_count_cons t ss, active_count_cons s ss, ap flag idle)))
      (λ _. (
        (a.0, rest.0),
        omega (arith, rest.1, active_count_cons t ss, active_count_cons t (Creation.put s ss)),
      ))

pub restored-IsSound :
    (job : Job) → IsSound (Creation.restored job) × (occupies (Creation.restored job).job ≡ false)
restored-IsSound job = ((ground arith, ground arith), ground arith)

pub put_all-AllSound :
    (js : List Job) (ss : List Slot)
    → AllSound ss
    → AllSound (Creation.put_all js ss) × (active_count (Creation.put_all js ss) ≤ active_count ss)
unfolding Creation.put_all
put_all-AllSound [] ss a = (a, omega arith)
put_all-AllSound (j ∷ js) ss a =
    let r = restored-IsSound j in
    let here = put-AllSound (Creation.restored j) ss a r.0 r.1 in
    let rest = put_all-AllSound js (Creation.put (Creation.restored j) ss) here.0 in
    (rest.0, omega (arith, rest.1, here.1))

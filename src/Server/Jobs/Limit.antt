-- ===== src/Server/Jobs/Limit.antt =====
-- The limit on active downloads in internal/server/jobs.go.
use hfdesk.Base.{
  ℕ, zero, suc, ◌+◌, ◌-◌, ◌≤◌, ◌≡◌, refl, Bool, true, false, not, ◌&&◌, ◌||◌, Option, none, some,
  List, [], ◌∷◌, arith, ◌==◌, if-rule, keep_if, length, any, Bytes, bytes_eq, length-keep_if-le,
}
use hfdesk.Server.Job.{Job}
use hfdesk.Server.Jobs.{
  JobManager, Slot, Working, update, dispatch, effective_max_active, is_running, is_paused,
  active_count, occupies, is_waiting, started, launch, start_queued, by_age,
}
use hfdesk.Server.Jobs.Operations
use hfdesk.Server.Jobs.Runs

abbrev pub flag : Bool → ℕ
flag true = 1
flag false = 0

-- A job that is being started has at most one goroutine that has not begun, other jobs have none,
-- and a running job is not being started.
abbrev pub IsSound : Slot → Type 0
IsSound s =
    (length s.launched ≤ flag s.job.starting)
    × (flag s.job.starting + flag (is_running s.job.status) ≤ 1)

abbrev pub AllSound : List Slot → Type 0
AllSound [] = Unit {0}
AllSound (s ∷ ss) = IsSound s × AllSound ss

-- What a change of one job may do: it keeps it sound and adds at most `k` active jobs.
unfoldable pub Adds : ℕ → (Slot → Slot) → Type 0
Adds k f =
    (s : Slot) → IsSound s → IsSound (f s) × (flag (occupies (f s).job) ≤ flag (occupies s.job) + k)

pub active_count_cons :
    (s : Slot) (ss : List Slot) → active_count (s ∷ ss) ≡ flag (occupies s.job) + active_count ss
unfolding active_count
active_count_cons s ss = ground arith

pub update-AllSound :
    (k : ℕ) (f : Slot → Slot)
    → Adds k f
    → (id : Bytes) (ss : List Slot) → AllSound ss
    → AllSound (update id f ss) × (active_count (update id f ss) ≤ active_count ss + k)
unfolding update Adds
update-AllSound k f h id [] a = (tt, omega arith)
update-AllSound k f h id (s ∷ ss) a =
    let here = h s a.0 in
    let rest = update-AllSound k f h id ss a.1 in
    let old = active_count_cons s ss in
    let changed = active_count_cons (f s) ss in
    let later = active_count_cons s (update id f ss) in
    if-rule (λ (l : List Slot). AllSound l × (active_count l ≤ active_count (s ∷ ss) + k))
      (bytes_eq s.job.id id) (f s ∷ ss) (s ∷ update id f ss)
      (λ _. ((here.0, a.1), omega (arith, here.1, changed, old)))
      (λ _. ((a.0, rest.0), omega (arith, rest.1, later, old)))

pub started-Adds : (activity : ℕ) → Adds 1 (started activity)
unfolding Adds started
started-Adds activity s h =
    if-rule (λ (t : Slot). IsSound t × (flag (occupies t.job) ≤ flag (occupies s.job) + 1))
      (is_waiting s.job) _ _ (λ w. ((ground arith, ground arith), ground arith))
      (λ _. (h, omega arith))

pub requeued-Adds : Adds 0 Operations.requeued
unfolding Adds Operations.requeued
requeued-Adds s h =
    if-rule (λ (t : Slot). IsSound t × (flag (occupies t.job) ≤ flag (occupies s.job) + 0))
      (is_running s.job.status) _ _ (λ r. ((ground arith, ground arith), ground arith))
      (λ _. (h, omega arith))

keep_if-any :
    (x : ℕ) (l : List ℕ)
    → any (λ a. a == x) l ≡ true
    → length (keep_if (λ a. not (a == x)) l) + 1 ≤ length l
keep_if-any x [] h = absurd (ground arith)
keep_if-any x (a ∷ l) h =
    let rec = keep_if-any x l in let le = length-keep_if-le (λ b. not (b == x)) l in ground arith

pub begin_slot-Adds :
    (fenced : Bool) (activity now : ℕ) → Adds 0 (Runs.begin_slot fenced activity now)
unfolding Adds Runs.begin_slot
begin_slot-Adds fenced activity now s h =
    let others = keep_if-any activity s.launched in
    if-rule (λ (t : Slot). IsSound t × (flag (occupies t.job) ≤ flag (occupies s.job) + 0))
      (any (λ a. a == activity) s.launched) _ _
      (λ l.
        let fewer = others l in
        if-rule (λ (t : Slot). IsSound t × (flag (occupies t.job) ≤ flag (occupies s.job) + 0))
          fenced _ _ (λ _. ((ground arith, ground arith), ground arith))
          (λ _. ((ground arith, ground arith), ground arith)))
      (λ _. (h, omega arith))

-- A job that ended does not run.
ended_job-is_running :
    (stopped : Bool) (err : Option Bytes) (now : ℕ) (job : Job)
    → is_running (Runs.ended_job stopped err now job).status ≡ false
ended_job-is_running true err now job = refl
ended_job-is_running false none now job = refl
ended_job-is_running false (some e) now job = refl

pub end_slot-Adds :
    (stopped : Bool) (run : Working) (err : Option Bytes) (now : ℕ)
    → Adds 0 (Runs.end_slot stopped run err now)
unfolding Adds Runs.end_slot
end_slot-Adds stopped run err now s h =
    let over = ended_job-is_running stopped err now s.job in
    let others = keep_if (λ r. not (r.activity == run.activity)) s.working in
    if-rule (λ (t : Slot). IsSound t × (flag (occupies t.job) ≤ flag (occupies s.job) + 0))
      (any (λ r. r.activity == run.activity && r.generation == run.generation) s.working) _ s
      (λ l.
        if-rule (λ (t : Slot). IsSound t × (flag (occupies t.job) ≤ flag (occupies s.job) + 0))
          (is_paused s.job.status || not (s.job.generation == run.generation))
          (record s { working = others })
          (record s { job = Runs.ended_job stopped err now s.job; working = others })
          (λ _. (h, omega arith)) (λ _. ((ground arith, ground arith), ground arith)))
      (λ _. (h, omega arith))

pub cancelled-Adds : (now : ℕ) → Adds 0 (Operations.on_job (Operations.cancelled_at now))
unfolding Adds
cancelled-Adds now s h = ((ground arith, ground arith), ground arith)

pub paused-Adds : Adds 0 (Operations.on_job Operations.as_paused)
unfolding Adds
paused-Adds s h = ((ground arith, ground arith), ground arith)

pub reset-Adds : (retry : Bool) → Adds 0 (Operations.on_job (Operations.reset_job retry))
unfolding Adds Operations.reset_job
reset-Adds true s h = ((ground arith, ground arith), ground arith)
reset-Adds false s h = ((ground arith, ground arith), ground arith)

-- A sound manager: every job in the map and every removed one.
abbrev pub IsSoundManager : JobManager → Type 0
IsSoundManager m = AllSound m.jobs × AllSound m.removed

-- A sound manager with at most `n` active jobs, and the same limit.
unfoldable pub Within : ℕ → ℕ → JobManager → Type 0
Within n limit m = IsSoundManager m × (active_count m.jobs ≤ n) × (effective_max_active m ≡ limit)

module _ (has_destination : Job → Bool) where
  start_queued-Within :
      (room n limit : ℕ) (queue : List Slot) (m : JobManager)
      → Within n limit m
      → Within (n + room) limit (start_queued has_destination room queue m)
  unfolding start_queued launch Within
  start_queued-Within zero n limit queue m h = (h.0, omega (arith, h.1), h.2)
  start_queued-Within (suc room) n limit [] m h = (h.0, omega (arith, h.1), h.2)
  start_queued-Within (suc room) n limit (s ∷ queue) m h =
      let next =
        update-AllSound 1 (started (suc m.last_activity)) (started-Adds (suc m.last_activity))
          s.job.id m.jobs h.0.0 in
      let here : Within (n + suc room) limit m = (h.0, omega (arith, h.1), h.2) in
      let rest =
        start_queued-Within room (n + 1) limit queue (launch s.job.id m)
          ((next.0, h.0.1), omega (arith, next.1, h.1), h.2) in
      if-rule (Within (n + suc room) limit) (has_destination s.job) _ _
        (λ _.
          if-rule (Within (n + suc room) limit) (m.blocked s.job) _ _ (λ _. here)
            (λ _. (rest.0, omega (arith, rest.1), rest.2)))
        (λ _. here)

  pub dispatch-Within :
      (n : ℕ) (m : JobManager)
      → IsSoundManager m
      → active_count m.jobs ≤ n
      → effective_max_active m ≤ n
      → Within n (effective_max_active m) (dispatch has_destination m)
  unfolding dispatch Within
  dispatch-Within n m sound le lim =
      let limit = effective_max_active m in
      let room = limit - active_count m.jobs in
      if-rule (Within n limit) m.fenced _ _ (λ _. (sound, le, refl))
        (λ _.
          let r =
            start_queued-Within room (active_count m.jobs) limit
              (by_age (keep_if (λ s. is_waiting s.job) m.jobs)) m (sound, omega arith, refl) in
          (r.0, omega (arith, r.1, le, lim), r.2))

-- ===== src/Server/Progress/Floor.antt =====
-- The bytes that `applyJobProgress` of internal/server/jobs.go shows for a resumed job.
use hfdesk.Base.{
  subst, ◌++◌, ap, sym, ◌∙◌, any, ℕ, suc, ◌≡◌, refl, false, true, Bool, ◌||◌, ◌&&◌, List, [], ◌∷◌,
  arith, if-rule, leb, ltb, if◌then◌else◌,
}
use hfdesk.Server.Job.{Job, JobProgress, JobFileProgress, active, finalizing}
use hfdesk.Server.Jobs.Operations.{reset_job}
use hfdesk.Server.Progress.{
  ProgressEvent, plan_item, file_start, file_progress, file_finalizing, file_done, all_finalizing,
  other_event, on_file, total_downloaded, progressed_to, file_completed, show_total,
  apply_job_progress, apply_all, is_downloading, planned_file,
}
use hfdesk.Server.Progress.Totals.{on_file-total_downloaded, total_downloaded-append}

-- While no sum has reached the floor, the floor and the bytes that are shown are those at the resume, and
-- from then on there is no floor and the job shows the sum of its files.
pub record Shows (reached : Bool) (floor : ℕ) (job : Job) : Type 0 where
  pub floor_left : job.resume_floor ≡ (if reached then 0 else floor)
  pub shown :
      job.progress.downloaded_bytes ≡ (if reached then total_downloaded job.files else floor)

same_total :
    (reached : Bool) (floor : ℕ) (job : Job) (files : List JobFileProgress) (progress : JobProgress)
    → total_downloaded files ≡ total_downloaded job.files
    → progress.downloaded_bytes ≡ job.progress.downloaded_bytes
    → Shows reached floor job
    → Shows reached floor (record job { files = files; progress = progress })
same_total reached floor job files progress e d h = record {
  floor_left = h.floor_left;
  shown = d ∙ (h.shown ∙ ap (λ n. if reached then n else floor) (sym e));
}

or_assoc : (a b c : Bool) → (a || b) || c ≡ a || (b || c)
or_assoc true b c = refl
or_assoc false b c = refl

-- An event that shows no sum.
quiet :
    (reached : Bool) (floor : ℕ) (job : Job)
    → Shows reached floor job
    → Shows (reached || false) floor job
quiet true floor job h = h
quiet false floor job h = h

before :
    {reached : Bool} {floor : ℕ} {job : Job}
    → Shows reached floor job
    → reached ≡ false
    → job.progress.downloaded_bytes ≡ floor
before {reached} {floor} {job} h e =
    h.shown ∙ ap (λ b. if b then total_downloaded job.files else floor) e

show_total-Shows :
    (reached : Bool) (floor : ℕ) (job : Job)
    → job.resume_floor ≡ (if reached then 0 else floor)
    → (reached ≡ false → job.progress.downloaded_bytes ≡ floor)
    → let total = total_downloaded job.files in
      Shows (reached || leb floor total) floor (show_total total job)
unfolding show_total
show_total-Shows true floor job left before = record {
  floor_left = ground (arith, left);
  shown = ground (arith, left);
}
show_total-Shows false floor job left before =
    let held = before refl in
    record { floor_left = ground (arith, left, held); shown = ground (arith, left, held) }

-- The events that show a new sum of the bytes of the files.
abbrev pub shows_total : ProgressEvent → Bool
shows_total (plan_item path total) = false
shows_total (file_start path) = false
shows_total (file_progress path downloaded) = true
shows_total (file_finalizing path) = false
shows_total (file_done path) = true
shows_total all_finalizing = false
shows_total other_event = false

files-show_total : (total : ℕ) (job : Job) → (show_total total job).files ≡ job.files
unfolding show_total
files-show_total total job =
    if-rule (λ (j : Job). j.files ≡ job.files) (ltb 0 job.resume_floor) _ _ (λ _. refl) (λ _. refl)

show_sum-Shows :
    (reached : Bool) (floor : ℕ) (job : Job)
    → job.resume_floor ≡ (if reached then 0 else floor)
    → (reached ≡ false → job.progress.downloaded_bytes ≡ floor)
    → let next = show_total (total_downloaded job.files) job in
      Shows (reached || leb floor (total_downloaded next.files)) floor next
show_sum-Shows reached floor job left before =
    let next = show_total (total_downloaded job.files) job in
    subst (λ fs. Shows (reached || leb floor (total_downloaded fs)) floor next)
      (sym (files-show_total (total_downloaded job.files) job))
      (show_total-Shows reached floor job left before)

module _ (speed : Job → ℕ → ℕ × ℕ) where
  -- Whether, after one of the events that show a sum, the files have as many bytes as the floor.
  abbrev pub reaches : ℕ → Job → List (ProgressEvent × ℕ) → Bool
  reaches floor job [] = false
  reaches floor job ((event, now) ∷ events) =
      let next = apply_job_progress speed job event now in
      (shows_total event && leb floor (total_downloaded next.files)) || reaches floor next events

  apply_job_progress-Shows :
      (reached : Bool) (floor : ℕ) (job : Job) (event : ProgressEvent) (now : ℕ)
      → Shows reached floor job
      → let next = apply_job_progress speed job event now in
        Shows (reached || (shows_total event && leb floor (total_downloaded next.files))) floor next
  unfolding apply_job_progress
  apply_job_progress-Shows reached floor job (plan_item path total) now h = quiet reached floor _ (
      same_total reached floor job (job.files ++ planned_file path total ∷ []) _
        (omega (arith, total_downloaded-append job.files (planned_file path total ∷ []))) refl h)
  apply_job_progress-Shows reached floor job (file_start path) now h = quiet reached floor _ (
      same_total reached floor job _ job.progress
        (on_file-total_downloaded path (λ f. record f { status = active }) job.files (λ x. refl))
        refl h)
  apply_job_progress-Shows reached floor job (file_progress path downloaded) now h =
      let files = on_file path (progressed_to downloaded) job.files in
      let shown =
        show_sum-Shows reached floor (record job { files = files }) h.floor_left (before h) in
      record { floor_left = shown.floor_left; shown = shown.shown }
  apply_job_progress-Shows reached floor job (file_finalizing path) now h =
      let files = on_file path (λ f. record f { status = finalizing }) job.files in
      let same =
        on_file-total_downloaded path (λ f. record f { status = finalizing }) job.files
          (λ x. refl) in
      quiet reached floor _ (
        if-rule (Shows reached floor) (any is_downloading files) _ _
          (λ _. same_total reached floor job files job.progress same refl h)
          (λ _.
            let kept = same_total reached floor job files job.progress same refl h in
            record { floor_left = kept.floor_left; shown = kept.shown }))
  apply_job_progress-Shows reached floor job (file_done path) now h =
      show_sum-Shows reached floor
        (record job {
          files = on_file path file_completed job.files;
          progress = record job.progress { completed_files = suc job.progress.completed_files };
        })
        h.floor_left (before h)
  apply_job_progress-Shows reached floor job all_finalizing now h =
      quiet reached floor _ (record { floor_left = h.floor_left; shown = h.shown })
  apply_job_progress-Shows reached floor job other_event now h = quiet reached floor job h

  apply_all-Shows :
      (reached : Bool) (floor : ℕ) (events : List (ProgressEvent × ℕ)) (job : Job)
      → Shows reached floor job
      → Shows (reached || reaches floor job events) floor (apply_all speed job events)
  unfolding apply_all
  apply_all-Shows reached floor [] job h = quiet reached floor job h
  apply_all-Shows reached floor ((event, now) ∷ events) job h =
      let next = apply_job_progress speed job event now in
      let here = shows_total event && leb floor (total_downloaded next.files) in
      subst (λ b. Shows b floor (apply_all speed next events))
        (or_assoc reached here (reaches floor next events))
        (apply_all-Shows (reached || here) floor events next
          (apply_job_progress-Shows reached floor job event now h))

  -- After a resume, and whatever events follow: while no event has shown a sum of at least the bytes that
  -- were shown at the resume, the job keeps them as its floor and shows exactly them; once one has, there
  -- is no floor and the job shows the sum of the bytes of its files, also where that falls.
  pub resumed-Shows :
      (job : Job) (events : List (ProgressEvent × ℕ))
      → let floor = job.progress.downloaded_bytes in
        Shows
          (reaches floor (reset_job false job) events)
          floor
          (apply_all speed (reset_job false job) events)
  unfolding reset_job
  resumed-Shows job events =
      apply_all-Shows false job.progress.downloaded_bytes events (reset_job false job)
        (record { floor_left = refl; shown = refl })

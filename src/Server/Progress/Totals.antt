-- ===== src/Server/Progress/Totals.antt =====
-- The totals that `applyJobProgress` of internal/server/jobs.go keeps.
use hfdesk.Base.{
  ℕ, suc, ◌+◌, ◌≡◌, refl, ap, sym, ◌∙◌, true, List, [], ◌∷◌, ◌++◌, arith, ltb, if-rule, any, length,
  Bytes, bytes_eq, length-append,
}
use hfdesk.Server.Job.{Job, JobFileProgress, active, finalizing}
use hfdesk.Server.Jobs.Operations.{reset_job}
use hfdesk.Server.Progress.{
  ProgressEvent, plan_item, file_start, file_progress, file_finalizing, file_done, all_finalizing,
  other_event, on_file, total_downloaded, progressed_to, file_completed, is_downloading, show_total,
  planned_file, in_finalizing, apply_job_progress, apply_all,
}

unfoldable pub planned_bytes : List JobFileProgress → ℕ
planned_bytes [] = 0
planned_bytes (f ∷ fs) = f.total_bytes + planned_bytes fs

-- The totals of a job without a floor are those of its files.
pub record IsExact (job : Job) : Type 0 where
  pub count : job.progress.total_files ≡ length job.files
  pub planned : job.progress.total_bytes ≡ planned_bytes job.files
  pub floor : job.resume_floor ≡ 0
  pub shown : job.progress.downloaded_bytes ≡ total_downloaded job.files

on_file-planned_bytes :
    (path : Bytes) (f : JobFileProgress → JobFileProgress) (fs : List JobFileProgress)
    → ((x : JobFileProgress) → (f x).total_bytes ≡ x.total_bytes)
    → (planned_bytes (on_file path f fs) ≡ planned_bytes fs)
      × (length (on_file path f fs) ≡ length fs)
unfolding on_file planned_bytes
on_file-planned_bytes path f [] keeps = (refl, refl)
on_file-planned_bytes path f (x ∷ fs) keeps =
    let rest = on_file-planned_bytes path f fs keeps in
    if-rule
      (λ (l : List JobFileProgress).
        (planned_bytes l ≡ planned_bytes (x ∷ fs)) × (length l ≡ length (x ∷ fs)))
      (bytes_eq x.path path) _ _ (λ _. (ap (λ n. n + planned_bytes fs) (keeps x), refl))
      (λ _. (ap (λ n. x.total_bytes + n) rest.0, ap suc rest.1))

pub on_file-total_downloaded :
    (path : Bytes) (f : JobFileProgress → JobFileProgress) (fs : List JobFileProgress)
    → ((x : JobFileProgress) → (f x).downloaded ≡ x.downloaded)
    → total_downloaded (on_file path f fs) ≡ total_downloaded fs
unfolding on_file total_downloaded
on_file-total_downloaded path f [] keeps = refl
on_file-total_downloaded path f (x ∷ fs) keeps =
    if-rule (λ (l : List JobFileProgress). total_downloaded l ≡ total_downloaded (x ∷ fs))
      (bytes_eq x.path path) _ _ (λ _. ap (λ n. n + total_downloaded fs) (keeps x))
      (λ _. ap (λ n. x.downloaded + n) (on_file-total_downloaded path f fs keeps))

planned_bytes-append :
    (fs gs : List JobFileProgress) → planned_bytes (fs ++ gs) ≡ planned_bytes fs + planned_bytes gs
unfolding planned_bytes
planned_bytes-append [] gs = omega arith
planned_bytes-append (f ∷ fs) gs = omega (arith, planned_bytes-append fs gs)

pub total_downloaded-append :
    (fs gs : List JobFileProgress)
    → total_downloaded (fs ++ gs) ≡ total_downloaded fs + total_downloaded gs
unfolding total_downloaded
total_downloaded-append [] gs = omega arith
total_downloaded-append (f ∷ fs) gs = omega (arith, total_downloaded-append fs gs)

show_total-IsExact :
    (job : Job)
    → job.progress.total_files ≡ length job.files
    → job.progress.total_bytes ≡ planned_bytes job.files
    → job.resume_floor ≡ 0
    → IsExact (show_total (total_downloaded job.files) job)
unfolding show_total
show_total-IsExact job count planned floor =
    if-rule IsExact (ltb 0 job.resume_floor) _ _ (λ above. absurd (ground arith))
      (λ _. record { count = count; planned = planned; floor = floor; shown = refl })

module _ (speed : Job → ℕ → ℕ × ℕ) where
  apply_job_progress-IsExact :
      (job : Job) (event : ProgressEvent) (now : ℕ)
      → IsExact job
      → IsExact (apply_job_progress speed job event now)
  unfolding apply_job_progress planned_bytes total_downloaded
  apply_job_progress-IsExact job (plan_item path total) now h = record {
    count = omega (arith, h.count, length-append job.files (planned_file path total ∷ []));
    planned =
        omega (arith, h.planned, planned_bytes-append job.files (planned_file path total ∷ []));
    floor = h.floor;
    shown =
        omega (arith, h.shown, total_downloaded-append job.files (planned_file path total ∷ []));
  }
  apply_job_progress-IsExact job (file_start path) now h =
      let k =
        on_file-planned_bytes path (λ f. record f { status = active }) job.files (λ x. refl) in
      let d =
        on_file-total_downloaded path (λ f. record f { status = active }) job.files (λ x. refl) in
      record {
        count = h.count ∙ sym k.1;
        planned = h.planned ∙ sym k.0;
        floor = h.floor;
        shown = h.shown ∙ sym d;
      }
  apply_job_progress-IsExact job (file_progress path downloaded) now h =
      let k = on_file-planned_bytes path (progressed_to downloaded) job.files (λ x. refl) in
      let shown =
        show_total-IsExact
          (record job { files = on_file path (progressed_to downloaded) job.files })
          (h.count ∙ sym k.1) (h.planned ∙ sym k.0) h.floor in
      record {
        count = shown.count;
        planned = shown.planned;
        floor = shown.floor;
        shown = shown.shown;
      }
  apply_job_progress-IsExact job (file_finalizing path) now h =
      let k =
        on_file-planned_bytes path (λ f. record f { status = finalizing }) job.files (λ x. refl) in
      let d =
        on_file-total_downloaded path (λ f. record f { status = finalizing }) job.files
          (λ x. refl) in
      let plain = record job {
        files = on_file path (λ f. record f { status = finalizing }) job.files;
      } in
      if-rule IsExact (any is_downloading plain.files) plain (in_finalizing plain)
        (λ _. record {
          count = h.count ∙ sym k.1;
          planned = h.planned ∙ sym k.0;
          floor = h.floor;
          shown = h.shown ∙ sym d;
        })
        (λ _. record {
          count = h.count ∙ sym k.1;
          planned = h.planned ∙ sym k.0;
          floor = h.floor;
          shown = h.shown ∙ sym d;
        })
  apply_job_progress-IsExact job (file_done path) now h =
      let k = on_file-planned_bytes path file_completed job.files (λ x. refl) in
      show_total-IsExact
        (record job {
          files = on_file path file_completed job.files;
          progress = record job.progress { completed_files = suc job.progress.completed_files };
        })
        (h.count ∙ sym k.1) (h.planned ∙ sym k.0) h.floor
  apply_job_progress-IsExact job all_finalizing now h = record {
    count = h.count;
    planned = h.planned;
    floor = h.floor;
    shown = h.shown;
  }
  apply_job_progress-IsExact job other_event now h = h

  apply_all-IsExact :
      (events : List (ProgressEvent × ℕ)) (job : Job)
      → IsExact job
      → IsExact (apply_all speed job events)
  unfolding apply_all
  apply_all-IsExact [] job h = h
  apply_all-IsExact ((event, now) ∷ events) job h =
      apply_all-IsExact events (apply_job_progress speed job event now)
        (apply_job_progress-IsExact job event now h)

  -- After a retry, and whatever events follow, the job counts the files and bytes of its file list,
  -- and the bytes that it shows are the sum of those of its files.
  pub retried-IsExact :
      (job : Job) (events : List (ProgressEvent × ℕ))
      → IsExact (apply_all speed (reset_job true job) events)
  unfolding reset_job planned_bytes total_downloaded
  retried-IsExact job events =
      apply_all-IsExact events (reset_job true job)
        (record { count = refl; planned = refl; floor = refl; shown = refl })

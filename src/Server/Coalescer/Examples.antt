-- ===== src/Server/Coalescer/Examples.antt =====
-- The theorems on internal/server/coalesce.go at a job with two updates inside one gap.
use hfdesk.Base.{ℕ, ◌≡◌, refl, false, some, none, List, [], ◌∷◌, arith, codes, bytes_eq}
use hfdesk.Server.Job.{Job, running, is_terminal_job_status}
use hfdesk.Server.Coalescer.{Coalescer, Timer, new_job_coalescer, schedule, expire, flush}
use hfdesk.Server.Coalescer.Delivery.{Trace, latest, seen, seen-latest, scheduled, start}
use hfdesk.Server.Coalescer.Arming.{held_is_delivered}
use hfdesk.Server.Coalescer.Timers.{IsArmed}
use hfdesk.Server.Coalescer.Throttle.{
  Reach, here, next, schedules, fires, IsSpaced, sends_are-IsSpaced,
}

abbrev update : ℕ → Job
update bytes = record {
  id = codes "a1";
  repo = codes "o/m";
  revision = codes "main";
  is_dataset = false;
  filters = [];
  excludes = [];
  output_dir = codes "/d";
  hub_dir = codes "/d/hub";
  destination_warning = [];
  local_dir = [];
  local_repo = [];
  branch_variant = false;
  flat = false;
  exact_match = false;
  status = running;
  phase = [];
  progress = record {
    total_files = 1;
    completed_files = 0;
    total_bytes = 100;
    downloaded_bytes = bytes;
    bytes_per_second = 0;
    eta_seconds = 0;
  };
  error = [];
  created_at = 1;
  started_at = some 2;
  ended_at = none;
  files = [];
  route_key = [];
  cancel = some 1;
  generation = 1;
  starting = false;
  resume_floor = 0;
}

abbrev held : Coalescer
held = schedule (schedule (new_job_coalescer 250) (update 10) 1000) (update 20) 1100

abbrev armed : Timer
armed = record { handle = 0; id = codes "a1"; deadline = 1250 }

history : Trace 250 (update 20 ∷ update 10 ∷ []) held
history = scheduled (update 20) 1100 (scheduled (update 10) 1000 start)

seen-latest_example : seen held (codes "a1") ≡ some (update 20)
unfolding schedule new_job_coalescer bytes_eq is_terminal_job_status latest
seen-latest_example = seen-latest history refl (codes "a1")

held_is_delivered_example :
    IsArmed held (codes "a1")
    × ((rest : List (List ℕ)) (now : ℕ)
        → ((flush held (codes "a1") rest now).sent ≡ update 20 ∷ held.sent)
          × ((flush held (codes "a1") rest now).pending (codes "a1") ≡ none))
unfolding schedule new_job_coalescer bytes_eq is_terminal_job_status
held_is_delivered_example = held_is_delivered (codes "a1") (update 20) history refl refl

reached : Reach 250 1100 held
reached =
    next (next here (omega arith) (schedules (update 10))) (omega arith) (schedules (update 20))

sends_are-IsSpaced_example :
    IsSpaced held 1250 (flush (expire held armed) (codes "a1") held.fired 1250)
unfolding schedule new_job_coalescer bytes_eq is_terminal_job_status
sends_are-IsSpaced_example =
    sends_are-IsSpaced reached (omega arith) (fires [] [] armed refl (omega arith))

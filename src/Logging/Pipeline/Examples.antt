-- ===== src/Logging/Pipeline/Examples.antt =====
-- The theorems on the pipeline and the feeds of internal/logging at concrete records.
use hfdesk.Base.{ℕ, ◌≡◌, refl, true, false, none, List, [], ◌∷◌, pos, negsuc, codes, arith}
use hfdesk.Logging.Ring.{Record, oldest_first, records}
use hfdesk.Logging.Files.{Disk}
use hfdesk.Logging.Files.Shift.{no_faults}
use hfdesk.Logging.Feed.{FeedStep, sends, receives, closes, new_subscription, follow}
use hfdesk.Logging.Feed.Accounts.{offered, IsAccounted, follow-IsAccounted}
use hfdesk.Logging.Pipeline.{
  Options, console_failed, Pipeline, Weather, PipelineStep, emits, watches, subscribes, receives_at,
  made, new_pipeline, take_steps,
}
use hfdesk.Logging.Pipeline.Kept.{calls_due, is_set}
use hfdesk.Logging.Pipeline.Reads.{take_steps-Reads, take_steps-watched}

abbrev said : ℕ → Record ℕ
said n = record {
  seq = 0;
  time = n;
  level = pos 0;
  component = [];
  message = codes "saved";
  attrs = none;
}

abbrev steps_of_feed : List (FeedStep ℕ)
steps_of_feed =
    sends (said 1)
    ∷ sends (said 2)
    ∷ receives
    ∷ sends (said 3)
    ∷ closes
    ∷ sends (said 4)
    ∷ receives
    ∷ []

follow-IsAccounted_example :
    IsAccounted
      (said 1 ∷ said 2 ∷ said 3 ∷ [])
      (follow steps_of_feed (new_subscription (pos 1)) []).1
      (follow steps_of_feed (new_subscription (pos 1)) []).0
unfolding offered
follow-IsAccounted_example = follow-IsAccounted steps_of_feed (pos 1)

-- The second record is lost.
second_lost : (follow steps_of_feed (new_subscription (pos 1)) []).1 ≡ said 1 ∷ said 3 ∷ []
unfolding follow
second_lost = refl

abbrev options : Options
options = record {
  level = pos 0;
  console = true;
  file = false;
  file_max_size = pos 0;
  file_max_backups = negsuc 0;
  ring_capacity = pos 2;
  subscription_buffer = pos 0;
}

abbrev no_files : Disk
no_files i = none

abbrev broken_console : Weather
broken_console = record { encoded = none; console_fails = true; faults = no_faults }

abbrev steps : List (PipelineStep ℕ)
steps =
    watches 7
    ∷ emits broken_console (said 1)
    ∷ subscribes
    ∷ watches 8
    ∷ emits broken_console (said 2)
    ∷ receives_at 0
    ∷ emits broken_console (said 3)
    ∷ []

abbrev fresh : Pipeline ℕ
fresh = made options none

take_steps-Reads_example :
    records (take_steps steps fresh).ring 0 oldest_first
    ≡ (record (said 2) { seq = 2 } ∷ record (said 3) { seq = 3 } ∷ [], true)
unfolding new_pipeline
take_steps-Reads_example =
    take_steps-Reads options no_files no_faults fresh steps refl (omega arith) 0 oldest_first

take_steps-watched_example :
    ((take_steps steps fresh).calls ≡ calls_due (take_steps steps fresh).err (7 ∷ 8 ∷ []))
    × (true ≡ true → is_set (take_steps steps fresh).err ≡ true)
unfolding new_pipeline
take_steps-watched_example = take_steps-watched options no_files no_faults fresh steps refl

-- Both callbacks got the error of the console.
both_called : (take_steps steps fresh).calls ≡ (7, console_failed) ∷ (8, console_failed) ∷ []
unfolding take_steps made
both_called = refl

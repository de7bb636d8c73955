-- ===== src/Logging/Files/Examples.antt =====
-- The theorems on the rotating file of internal/logging/file.go at a small file.
use hfdesk.Base.{◌≡◌, refl, true, false, none, some, List, [], ◌∷◌, Bytes, codes}
use hfdesk.Logging.Files.{Disk, put, Faults, FileSink, write_line, write_all}
use hfdesk.Logging.Files.Shift.{no_faults}
use hfdesk.Logging.Files.Newest.{on_disk}

abbrev lines : List Bytes
lines = codes "one" ∷ codes "three" ∷ codes "seventeen" ∷ codes "two" ∷ []

abbrev no_files : Disk
no_files i = none

abbrev one_backup : FileSink
one_backup = record {
  max_size = 6;
  max_backups = 1;
  is_open = true;
  size = 0;
  has_error = false;
  closed = false;
  disk = no_files;
}

-- The two newest of four lines are left.
two_left : on_disk (write_all no_faults lines one_backup) ≡ codes "seventeen" ∷ codes "two" ∷ []
unfolding on_disk write_all hfdesk.Logging.Files.Shift.backups
two_left = refl

-- Half of the line is written.
abbrev full_disk : Faults
full_disk = record no_faults { written_before_error = some 2 }

abbrev writes : List (Faults × Bytes)
writes = (no_faults, codes "one") ∷ (full_disk, codes "three") ∷ (no_faults, codes "seventeen") ∷ []

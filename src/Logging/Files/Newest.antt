-- ===== src/Logging/Files/Newest.antt =====
-- What a write to the rotating file of internal/logging/file.go leaves in the files.
use hfdesk.Base.{◌+◌, ◌≡◌, Bool, true, false, [], ◌∷◌, ◌++◌, arith, if◌then◌else◌, length, Bytes}
use hfdesk.Logging.Files.{Content, Disk, content_of, total, FileSink, SinkResult, open_file, broken}
use hfdesk.Logging.Files.Shift.{no_faults}
use hfdesk.Logging.Files.Shift.{backups}

-- All lines in the files, the oldest first.
unfoldable pub on_disk : FileSink → Content
on_disk s = backups s.max_backups s.disk ++ content_of (s.disk 0)

-- An open sink whose counter is the size of its active file.
pub record IsReady (s : FileSink) : Type 0 where
  pub open_ : s.is_open ≡ true
  pub live : s.closed ≡ false
  pub counted : s.size ≡ total (content_of (s.disk 0))

-- What a write leaves: a ready sink with the line behind what the files held, less some of the oldest.
record IsWritten (s : FileSink) (line : Bytes) (o : SinkResult) : Type 0 where
  succeeds : o.failed ≡ false
  ready : IsReady o.sink
  backups_kept : o.sink.max_backups ≡ s.max_backups
  gone : Content
  kept : gone ++ on_disk o.sink ≡ on_disk s ++ line ∷ []

pub total-snoc :
    (pieces : Content) (line : Bytes) → total (pieces ++ line ∷ []) ≡ total pieces + length line
unfolding total
total-snoc [] line = omega arith
total-snoc (p ∷ pieces) line = omega (arith, total-snoc pieces line)

-- What a rotation leaves: a ready sink with what the files held, less some of the oldest lines.
record IsRotated (s : FileSink) (o : SinkResult) : Type 0 where
  succeeds : o.failed ≡ false
  ready : IsReady o.sink
  backups_kept : o.sink.max_backups ≡ s.max_backups
  gone : Content
  kept : gone ++ on_disk o.sink ≡ on_disk s

abbrev reopened : FileSink → Disk × Bool → SinkResult
reopened s (moved, stopped) =
    let left = record s { is_open = false; disk = moved } in
    if stopped then broken left else open_file false no_faults left

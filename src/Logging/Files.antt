-- ===== src/Logging/Files.antt =====
-- internal/logging/file.go: the rotating log file. A file is the list of the pieces written to it, and a
-- call of the system may fail: each operation is given what fails while it runs.
pub mod Shift
pub mod Moving
pub mod Newest
pub mod Fits
pub mod Bounds
mod Examples
use hfdesk.Base.{
  ℕ, zero, suc, ◌+◌, ◌-◌, Bool, true, false, not, ◌&&◌, ◌||◌, Option, none, some, List, [], ◌∷◌,
  ◌++◌, ◌==◌, ltb, if◌then◌else◌, length, take, Bytes,
}

abbrev pub Content : Type 0
Content = List Bytes

unfoldable pub total : Content → ℕ
total [] = 0
total (piece ∷ pieces) = length piece + total pieces

-- The active file at 0, and the rotated ones from 1 on.
abbrev pub Disk : Type 0
Disk = ℕ → Option Content

unfoldable pub put : ℕ → Option Content → Disk → Disk
put i file disk = λ k. if k == i then file else disk k

-- `os.Rename` of a file that exists.
unfoldable pub rename : ℕ → ℕ → Disk → Disk
unfolding put
rename i j disk = put j (disk i) (put i none disk)

-- What fails during one operation.
pub record Faults : Type 0 where
  pub close_fails : Bool
  pub remove_fails : ℕ → Bool
  pub rename_fails : ℕ → Bool
  pub backup_stat_fails : ℕ → Bool
  pub open_fails : Bool
  pub stat_fails : Bool
  pub written_before_error : Option ℕ

pub record FileSink : Type 0 where
  pub max_size : ℕ
  pub max_backups : ℕ
  pub is_open : Bool
  pub size : ℕ
  pub has_error : Bool
  pub closed : Bool
  pub disk : Disk

-- A method that may return an error, with the sink that it leaves.
pub record SinkResult : Type 0 where
  pub sink : FileSink
  pub failed : Bool

abbrev fine : FileSink → SinkResult
fine s = record { sink = s; failed = false }

abbrev broken : FileSink → SinkResult
broken s = record { sink = s; failed = true }

abbrev pub content_of : Option Content → Content
content_of none = []
content_of (some c) = c

unfoldable pub open_file : Bool → Faults → FileSink → SinkResult
unfolding put total
open_file append f s =
    let kept = if append then content_of (s.disk 0) else [] in
    if f.open_fails
    then broken s
    else fine (record s {
      is_open = true;
      size = if append then (if f.stat_fails then 0 else total kept) else 0;
      disk = put 0 (some kept) s.disk;
    })

-- `NewFileSink`, from the sizes that it accepts; a negative number of backups is 0.
unfoldable pub new_file_sink : ℕ → ℕ → Disk → Faults → Option FileSink
unfolding open_file
new_file_sink max_size max_backups disk f =
    let opened = open_file true f (record {
      max_size = max_size;
      max_backups = max_backups;
      is_open = false;
      size = 0;
      has_error = false;
      closed = false;
      disk = disk;
    }) in
    if max_size == 0 then none else (if opened.failed then none else some opened.sink)

-- The loop from backup `n` down to 1. It passes over a backup that the system call does not find, also
-- where the call fails for one that exists, and it stops at the first rename that fails.
unfoldable pub shift : Faults → ℕ → Disk → Disk × Bool
unfolding rename
shift f zero disk = (disk, false)
shift f (suc n) disk = elim (disk (suc n)) [
  | none ↦ shift f n disk
  | some c ↦ elim (f.backup_stat_fails (suc n)) [
    | true ↦ shift f n disk
    | false ↦ elim (f.rename_fails (suc n)) [
      | true ↦ (disk, true)
      | false ↦ shift f n (rename (suc n) (suc (suc n)) disk)
    ]
  ]
]

abbrev pub exists : Option Content → Bool
exists none = false
exists (some c) = true

-- The active file moves to backup 1, or away where no backups are kept.
unfoldable pub move_away : Faults → ℕ → Disk → Disk × Bool
unfolding shift rename put
move_away f zero disk =
    if exists (disk 0) && f.remove_fails 0 then (disk, true) else (put 0 none disk, false)
move_away f (suc n) disk =
    let (moved, stopped) =
      shift f n (if f.remove_fails (suc n) then disk else put (suc n) none disk) in
    if stopped
    then (moved, true)
    else (if exists (moved 0)
        then (if f.rename_fails 0 then (moved, true) else (rename 0 1 moved, false))
        else (moved, false))

unfoldable pub rotate : Faults → FileSink → SinkResult
unfolding move_away open_file
rotate f s =
    let (moved, stopped) = move_away f s.max_backups s.disk in
    let left = record s { is_open = false; disk = moved } in
    if s.is_open && f.close_fails
    then broken s
    else (if stopped then broken left else open_file false f left)

-- `recordErr`.
abbrev pub record_err : SinkResult → SinkResult
record_err o = if o.failed then record o { sink = record (o.sink) { has_error = true } } else o

-- The write into the active file; a write that fails leaves the bytes before the error.
unfoldable pub append_line : Faults → Bytes → FileSink → SinkResult
unfolding put
append_line f line s =
    let kept = content_of (s.disk 0) in
    elim f.written_before_error [
      | none ↦
          fine (record s {
            size = s.size + length line;
            disk = put 0 (some (kept ++ line ∷ [])) s.disk;
          })
      | some n ↦ broken (record s {
        size = s.size + length (take n line);
        disk = put 0 (some (kept ++ take n line ∷ [])) s.disk;
      })
    ]

-- `Write`, of a record that is encoded as a line.
unfoldable pub write_line : Faults → Bytes → FileSink → SinkResult
unfolding rotate append_line
write_line f line s =
    if s.closed || not s.is_open
    then fine s
    else (let rotated =
          if ltb 0 s.size && ltb s.max_size (s.size + length line) then rotate f s else fine s in
        record_err (if rotated.failed then rotated else append_line f line rotated.sink))

-- `Close`.
unfoldable pub close_sink : FileSink → FileSink
close_sink s = record s { closed = true; is_open = false }

-- Many writes, in order.
unfoldable pub write_all : Faults → List Bytes → FileSink → FileSink
unfolding write_line
write_all f [] s = s
write_all f (line ∷ lines) s = write_all f lines (write_line f line s).sink

-- The same, where each write may meet other faults.
unfoldable pub write_each : List (Faults × Bytes) → FileSink → FileSink
unfolding write_line
write_each [] s = s
write_each ((f, line) ∷ writes) s = write_each writes (write_line f line s).sink

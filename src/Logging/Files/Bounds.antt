-- ===== src/Logging/Files/Bounds.antt =====
-- The size of the rotating file of internal/logging/file.go, whatever fails.
use hfdesk.Base.{
  ℕ, zero, suc, ◌+◌, ◌≤◌, ◌≡◌, refl, sym, ap, ◌∙◌, Bool, true, false, not, ◌&&◌, ◌||◌, Option, none,
  some, List, [], ◌∷◌, ◌++◌, arith, ltb, if◌then◌else◌, if-rule, length, take, Bytes,
}
use hfdesk.Logging.Files.{
  Content, Disk, content_of, put, total, Faults, FileSink, SinkResult, open_file, fine, broken,
  move_away, rotate, append_line, record_err, write_line,
}
use hfdesk.Logging.Files.Shift.{put_self}
use hfdesk.Logging.Files.Newest.{total-snoc}
use hfdesk.Logging.Files.Fits.{Fits, put-Fits, move_away-Fits}

-- A sink within its limits: `m` is at least its maximum size, and while it is open it counts its active file.
pub record IsBounded (m : ℕ) (s : FileSink) : Type 0 where
  pub fits : Fits m s.max_backups s.disk
  pub limit : s.max_size ≤ m
  pub counted : s.is_open ≡ true → s.size ≡ total (content_of (s.disk 0))

-- A sink that has room for `line` in its active file.
record HasRoom (m : ℕ) (line : Bytes) (s : FileSink) : Type 0 where
  bounded : IsBounded m s
  open_ : s.is_open ≡ true
  room : s.size + length line ≤ m

length-take : (n : ℕ) (line : Bytes) → length (take n line) ≤ length line
length-take zero line = omega arith
length-take (suc n) [] = omega arith
length-take (suc n) (c ∷ line) = omega (arith, length-take n line)

abbrev appended : Bytes → FileSink → Option ℕ → SinkResult
appended line s o =
    let kept = content_of (s.disk 0) in
    elim o [
      | none ↦
          fine (record s {
            size = s.size + length line;
            disk = put 0 (some (kept ++ line ∷ [])) s.disk;
          })
      | some n ↦ broken (record s {
        size = s.size + length (take n line);
        disk = put 0 (some (kept ++ take n line ∷ [])) s.disk;
      })
    ]

append_line-IsBounded :
    {m : ℕ} (f : Faults) (line : Bytes) (s : FileSink)
    → HasRoom m line s
    → IsBounded m (append_line f line s).sink
unfolding append_line
append_line-IsBounded {m} f line s r = go f.written_before_error
  where
    kept : Content
    kept = content_of (s.disk 0)

    with_piece :
        (piece : Bytes)
        → length piece ≤ length line
        → IsBounded m (record s {
          size = s.size + length piece;
          disk = put 0 (some (kept ++ piece ∷ [])) s.disk;
        })
    with_piece piece le =
        let more = total-snoc kept piece in
        let size = r.bounded.counted r.open_ in
        let room = r.room in
        let now = put_self 0 (some (kept ++ piece ∷ [])) s.disk in
        record {
          fits =
              put-Fits 0 (some (kept ++ piece ∷ [])) s.disk (omega (arith, more, size, room, le))
                (λ lt. absurd (omega (arith, lt))) r.bounded.fits;
          limit = r.bounded.limit;
          counted = λ _.
              ap (λ t. t + length piece) size
              ∙ (sym more ∙ sym (ap (λ o. total (content_of o)) now));
        }

    go : (o : Option ℕ) → IsBounded m (appended line s o).sink
    go none = with_piece line (omega arith)
    go (some n) = with_piece (take n line) (length-take n line)

-- What a rotation leaves: a sink within its limits, with an empty active file if it succeeds.
record IsFresh (m : ℕ) (line : Bytes) (o : SinkResult) : Type 0 where
  bounded : IsBounded m o.sink
  room : o.failed ≡ false → HasRoom m line o.sink

open_file-IsFresh :
    {m : ℕ} (f : Faults) (line : Bytes) (s : FileSink)
    → length line ≤ m
    → s.max_size ≤ m
    → s.is_open ≡ false
    → Fits m s.max_backups s.disk
    → IsFresh m line (open_file false f s)
unfolding open_file total
open_file-IsFresh {m} f line s short limit shut h =
    if-rule (IsFresh m line) f.open_fails (broken s) _
      (λ _. record {
        bounded = record { fits = h; limit = limit; counted = λ e. absurd (cc (e, shut)) };
        room = λ e. absurd (cc e);
      })
      (λ _.
        let now = put_self 0 (some []) s.disk in
        let bounded : IsBounded m
            (record s { is_open = true; size = 0; disk = put 0 (some []) s.disk }) =
          record {
            fits = put-Fits 0 (some []) s.disk (omega arith) (λ lt. absurd (omega (arith, lt))) h;
            limit = limit;
            counted = λ _. sym (ap (λ o. total (content_of o)) now);
          } in
        record {
          bounded = bounded;
          room = λ _. record { bounded = bounded; open_ = refl; room = omega (arith, short) };
        })

rotate-IsFresh :
    {m : ℕ} (f : Faults) (line : Bytes) (s : FileSink)
    → length line ≤ m
    → IsBounded m s
    → IsFresh m line (rotate f s)
unfolding rotate
rotate-IsFresh {m} f line s short b =
    go (move_away f s.max_backups s.disk) (move_away-Fits f s.max_backups s.disk b.fits)
  where
    failing : (t : FileSink) → IsBounded m t → IsFresh m line (broken t)
    failing t x = record { bounded = x; room = λ e. absurd (cc e) }

    go :
        (r : Disk × Bool)
        → Fits m s.max_backups r.0
        → IsFresh m line (
            let left = record s { is_open = false; disk = r.0 } in
            if s.is_open && f.close_fails
            then broken s
            else if r.1
            then broken left
            else open_file false f left)
    go (moved, stopped) h =
        let left = record s { is_open = false; disk = moved } in
        if-rule (IsFresh m line) (s.is_open && f.close_fails) (broken s) _ (λ _. failing s b)
          (λ _.
            if-rule (IsFresh m line) stopped (broken left) _
              (λ _.
                failing left (record { fits = h; limit = b.limit; counted = λ e. absurd (cc e) }))
              (λ _. open_file-IsFresh f line left short b.limit refl h))

pub write_line-IsBounded :
    {m : ℕ} (f : Faults) (line : Bytes) (s : FileSink)
    → length line ≤ m
    → IsBounded m s
    → IsBounded m (write_line f line s).sink
unfolding write_line
write_line-IsBounded {m} f line s short b =
    if-rule {A = SinkResult} (λ o. IsBounded m o.sink) (s.closed || not s.is_open) (fine s) _
      (λ _. b)
      (λ live. recorded _ (
        after _ (
          if-rule (IsFresh m line) (ltb 0 s.size && ltb s.max_size (s.size + length line))
            (rotate f s) (fine s) (λ _. rotate-IsFresh f line s short b)
            (λ fits. record {
              bounded = b;
              room = λ _. record {
                bounded = b;
                open_ = ground (arith, live);
                room = ground (arith, fits, b.limit, short);
              };
            }))))
  where
    recorded : (o : SinkResult) → IsBounded m o.sink → IsBounded m (record_err o).sink
    recorded o x =
        if-rule {A = SinkResult} (λ r. IsBounded m r.sink) o.failed _ _
          (λ _. record { fits = x.fits; limit = x.limit; counted = x.counted }) (λ _. x)

    after :
        (o : SinkResult)
        → IsFresh m line o
        → IsBounded m (if o.failed then o else append_line f line o.sink).sink
    after o x =
        if-rule {A = SinkResult} (λ r. IsBounded m r.sink) o.failed _ _ (λ _. x.bounded)
          (λ ok. append_line-IsBounded f line o.sink (x.room ok))

-- No line of the writes is longer than `m`.
unfoldable pub AllShort : ℕ → List (Faults × Bytes) → Type 0
AllShort m [] = Unit
AllShort m ((f, line) ∷ writes) = (length line ≤ m) × AllShort m writes

-- ===== src/Logging/Files/Fits.antt =====
-- What the moves of internal/logging/file.go keep of the sizes of the files, whatever fails.
use hfdesk.Base.{
  ℕ, zero, suc, ◌≤◌, ◌<◌, ◌≡◌, refl, Bool, true, false, ◌&&◌, Option, none, some, arith, ◌==◌,
  if◌then◌else◌, if-rule,
}
use hfdesk.Logging.Files.{
  Content, Disk, content_of, put, rename, shift, total, Faults, exists, move_away,
}

-- Every file has at most `m` bytes, and there are no backups above `n`.
pub record Fits (m n : ℕ) (disk : Disk) : Type 0 where
  pub small : (k : ℕ) → total (content_of (disk k)) ≤ m
  pub few : (k : ℕ) → n < k → disk k ≡ none

if-Fits :
    {m n : ℕ} (b : Bool) (d e : Disk) → Fits m n d → Fits m n e → Fits m n (if b then d else e)
if-Fits {m} {n} b d e x y = if-rule (Fits m n) b d e (λ _. x) (λ _. y)

pub put-Fits :
    {m n : ℕ} (i : ℕ) (file : Option Content) (disk : Disk)
    → total (content_of file) ≤ m
    → (n < i → file ≡ none)
    → Fits m n disk
    → Fits m n (put i file disk)
unfolding put
put-Fits {m} {n} i file disk bound away h = record {
  small = λ k.
      if-rule (λ o. total (content_of o) ≤ m) (k == i) file (disk k) (λ _. bound) (λ _. h.small k);
  few = λ k lt.
      if-rule (λ o. o ≡ none) (k == i) file (disk k) (λ e. away (ground (arith, e, lt)))
        (λ _. h.few k lt);
}

rename-Fits : {m n : ℕ} (i j : ℕ) (disk : Disk) → j ≤ n → Fits m n disk → Fits m n (rename i j disk)
unfolding rename total
rename-Fits i j disk le h =
    put-Fits j (disk i) (put i none disk) (h.small i) (λ lt. absurd (omega (arith, lt, le)))
      (put-Fits i none disk (omega arith) (λ _. refl) h)

abbrev shift_step : Faults → ℕ → Disk → Option Content → Bool → Bool → Disk × Bool
shift_step f i disk o lost stuck = elim o [
  | none ↦ shift f i disk
  | some c ↦ elim lost [
    | true ↦ shift f i disk
    | false ↦ elim stuck [
      | true ↦ (disk, true)
      | false ↦ shift f i (rename (suc i) (suc (suc i)) disk)
    ]
  ]
]

shift-Fits :
    {m n : ℕ} (f : Faults) (i : ℕ) (disk : Disk)
    → i < n
    → Fits m n disk
    → Fits m n (shift f i disk).0
unfolding shift
shift-Fits f zero disk lt h = h
shift-Fits {m} {n} f (suc i) disk lt h =
    go (disk (suc i)) (f.backup_stat_fails (suc i)) (f.rename_fails (suc i))
      (shift-Fits f i disk (omega (arith, lt)) h)
      (shift-Fits f i (rename (suc i) (suc (suc i)) disk) (omega (arith, lt))
        (rename-Fits (suc i) (suc (suc i)) disk (omega (arith, lt)) h))
  where
    go :
        (o : Option Content) (lost stuck : Bool)
        → Fits m n (shift f i disk).0
        → Fits m n (shift f i (rename (suc i) (suc (suc i)) disk)).0
        → Fits m n (shift_step f i disk o lost stuck).0
    go none lost stuck x y = x
    go (some c) true stuck x y = x
    go (some c) false true x y = h
    go (some c) false false x y = y

abbrev behind_shift : Faults → Disk × Bool → Disk × Bool
behind_shift f (moved, stopped) =
    if stopped
    then (moved, true)
    else (if exists (moved 0)
        then (if f.rename_fails 0 then (moved, true) else (rename 0 1 moved, false))
        else (moved, false))

pub move_away-Fits :
    {m : ℕ} (f : Faults) (n : ℕ) (disk : Disk) → Fits m n disk → Fits m n (move_away f n disk).0
unfolding move_away total
move_away-Fits {m} f zero disk h =
    if-rule {A = Disk × Bool} (λ r. Fits m zero r.0) (exists (disk 0) && f.remove_fails 0)
      (disk, true) (put 0 none disk, false) (λ _. h)
      (λ _. put-Fits 0 none disk (omega arith) (λ _. refl) h)
move_away-Fits {m} f (suc n) disk h =
    let start = if f.remove_fails (suc n) then disk else put (suc n) none disk in
    go (shift f n start) (
      shift-Fits f n start (omega arith) (
        if-Fits (f.remove_fails (suc n)) disk (put (suc n) none disk) h
          (put-Fits (suc n) none disk (omega arith) (λ _. refl) h)))
  where
    go : (r : Disk × Bool) → Fits m (suc n) r.0 → Fits m (suc n) (behind_shift f r).0
    go (moved, stopped) x =
        if-rule {A = Disk × Bool} (λ r. Fits m (suc n) r.0) stopped _ _ (λ _. x)
          (λ _.
            if-rule {A = Disk × Bool} (λ r. Fits m (suc n) r.0) (exists (moved 0)) _ _
              (λ _.
                if-rule {A = Disk × Bool} (λ r. Fits m (suc n) r.0) (f.rename_fails 0) _ _ (λ _. x)
                  (λ _. rename-Fits 0 1 moved (omega arith) x))
              (λ _. x))

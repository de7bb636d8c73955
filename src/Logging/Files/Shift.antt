-- ===== src/Logging/Files/Shift.antt =====
-- What the rotation of internal/logging/file.go does to the lines in the files.
use hfdesk.Base.{
  ℕ, zero, suc, ◌<◌, ◌≡◌, refl, sym, ap, ◌∙◌, subst, Bool, false, Option, none, some, [], ◌++◌,
  append-nil, append_assoc, arith, ◌==◌, ==_self,
}
use hfdesk.Logging.Files.{Content, Disk, content_of, put, rename, shift, Faults}

-- The lines of the backups from `n` down to 1, the oldest first.
unfoldable pub backups : ℕ → Disk → Content
backups zero disk = []
backups (suc n) disk = content_of (disk (suc n)) ++ backups n disk

abbrev pub no_faults : Faults
no_faults = record {
  close_fails = false;
  remove_fails = λ i. false;
  rename_fails = λ i. false;
  backup_stat_fails = λ i. false;
  open_fails = false;
  stat_fails = false;
  written_before_error = none;
}

pub put_self : (i : ℕ) (file : Option Content) (disk : Disk) → put i file disk i ≡ file
unfolding put
put_self i file disk = let self = ==_self i in ground (arith, self)

pub put_other :
    (i k : ℕ) (file : Option Content) (disk : Disk) → (k == i) ≡ false → put i file disk k ≡ disk k
unfolding put
put_other i k file disk h = ground (arith, h)

-- Files up to `n` decide the backups up to `n`.
pub backups-agree :
    (n : ℕ) (a b : Disk) → ((k : ℕ) → k < n → a (suc k) ≡ b (suc k)) → backups n a ≡ backups n b
unfolding backups
backups-agree zero a b h = refl
backups-agree (suc n) a b h =
    let here = h n (omega arith) in
    let rest = backups-agree n a b (λ k le. h k (omega arith)) in cc (here, rest)

-- One move of the loop leaves the files below alone.
abbrev moved : ℕ → Disk → Disk
moved n disk = rename (suc n) (suc (suc n)) disk

moved-below : (n k : ℕ) (disk : Disk) → k < suc n → moved n disk k ≡ disk k
unfolding rename put
moved-below n k disk h =
    let off : (k == suc n) ≡ false = ground (arith, h) in
    let far : (k == suc (suc n)) ≡ false = ground (arith, h) in ground (arith, off, far)

moved-left : (n : ℕ) (disk : Disk) → moved n disk (suc n) ≡ none
unfolding rename put
moved-left n disk =
    let here = ==_self (suc n) in
    let off : (suc n == suc (suc n)) ≡ false = ground arith in ground (arith, here, off)

moved-top : (n : ℕ) (disk : Disk) → moved n disk (suc (suc n)) ≡ disk (suc n)
unfolding rename put
moved-top n disk = let here = ==_self (suc (suc n)) in ground (arith, here)

moved-far : (n k : ℕ) (disk : Disk) → suc (suc n) < k → moved n disk k ≡ disk k
unfolding rename put
moved-far n k disk h =
    let off : (k == suc n) ≡ false = ground (arith, h) in
    let far : (k == suc (suc n)) ≡ false = ground (arith, h) in ground (arith, off, far)

-- One round of the loop where no rename fails.
stepped : ℕ → Disk → Disk
stepped n disk = elim (disk (suc n)) [ none ↦ disk | some c ↦ moved n disk ]

shift-step :
    (n : ℕ) (disk : Disk) → shift no_faults (suc n) disk ≡ shift no_faults n (stepped n disk)
unfolding shift stepped
shift-step n disk = go (disk (suc n))
  where
    go :
        (o : Option Content)
        → elim o as (λ _. Disk × Bool) [
          | none ↦ shift no_faults n disk
          | some c ↦ shift no_faults n (rename (suc n) (suc (suc n)) disk)
        ]
          ≡ shift no_faults n (elim o as (λ _. Disk) [ none ↦ disk | some c ↦ moved n disk ])
    go none = refl
    go (some c) = refl

-- A round moves one file up, into a free place.
record Stepped (n : ℕ) (disk next : Disk) : Type 0 where
  below : (k : ℕ) → k < suc n → next k ≡ disk k
  left : next (suc n) ≡ none
  top : next (suc (suc n)) ≡ disk (suc n)
  far : (k : ℕ) → suc (suc n) < k → next k ≡ disk k

stepped-Stepped :
    (n : ℕ) (disk : Disk) → disk (suc (suc n)) ≡ none → Stepped n disk (stepped n disk)
unfolding stepped
stepped-Stepped n disk free = go (disk (suc n)) refl
  where
    go :
        (o : Option Content)
        → disk (suc n) ≡ o
        → Stepped n disk (elim o as (λ _. Disk) [ none ↦ disk | some c ↦ moved n disk ])
    go none e = record { below = λ k h. refl; left = e; top = free ∙ sym e; far = λ k h. refl }
    go (some c) e = record {
      below = λ k h. moved-below n k disk h;
      left = moved-left n disk;
      top = moved-top n disk;
      far = λ k h. moved-far n k disk h;
    }

-- The whole loop, into a free place behind the last file that moves.
pub record Shifted (n : ℕ) (disk : Disk) (result : Disk × Bool) : Type 0 where
  pub goes_on : result.1 ≡ false
  pub active : result.0 0 ≡ disk 0
  pub first : result.0 1 ≡ none
  pub above : (k : ℕ) → suc n < k → result.0 k ≡ disk k
  pub older : backups (suc n) result.0 ≡ backups n disk

pub shift-Shifted :
    (n : ℕ) (disk : Disk) → disk (suc n) ≡ none → Shifted n disk (shift no_faults n disk)
unfolding shift backups
shift-Shifted zero disk free = record {
  goes_on = refl;
  active = refl;
  first = free;
  above = λ k h. refl;
  older = ap (λ o. content_of o ++ []) free;
}
shift-Shifted (suc n) disk free =
    let next = stepped n disk in
    let round = stepped-Stepped n disk free in
    let rest = shift-Shifted n next round.left in
    let top = rest.above (suc (suc n)) (omega arith) ∙ round.top in
    let below = backups-agree n next disk (λ k h. round.below (suc k) (omega arith)) in
    subst (Shifted (suc n) disk) (sym (shift-step n disk)) (record {
      goes_on = rest.goes_on;
      active = rest.active ∙ round.below 0 (omega arith);
      first = rest.first;
      above = λ k h. rest.above k (omega arith) ∙ round.far k h;
      older = cc (rest.older, top, below);
    })

-- The active file becomes the newest backup.
pub rename-active :
    (n : ℕ) (disk : Disk)
    → disk 1 ≡ none
    → backups (suc n) (rename 0 1 disk) ≡ backups (suc n) disk ++ content_of (disk 0)
unfolding backups rename
rename-active zero disk free =
    let now : rename 0 1 disk 1 ≡ disk 0 = put_self 1 (disk 0) (put 0 none disk) in
    let front = ap (λ o. (content_of o ++ []) ++ content_of (disk 0)) free in
    ap (λ o. content_of o ++ []) now ∙ (append-nil (content_of (disk 0)) ∙ sym front)
rename-active (suc n) disk free =
    let same : rename 0 1 disk (suc (suc n)) ≡ disk (suc (suc n)) =
      put_other 1 (suc (suc n)) (disk 0) (put 0 none disk) (ground arith)
      ∙ put_other 0 (suc (suc n)) none disk (ground arith) in
    let rest = rename-active n disk free in
    let kept =
      append_assoc (content_of (disk (suc (suc n)))) (backups (suc n) disk) (content_of (disk 0)) in
    cc (same, rest, kept)

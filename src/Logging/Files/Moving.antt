-- ===== src/Logging/Files/Moving.antt =====
-- How a rotation of internal/logging/file.go moves the active file away where no call of the system fails.
use hfdesk.Base.{
  ℕ, zero, suc, ◌≡◌, refl, sym, ap, ◌∙◌, Bool, true, false, ◌&&◌, Option, none, some, ◌++◌,
  append-nil, append_assoc, arith, if◌then◌else◌,
}
use hfdesk.Logging.Files.{Content, Disk, content_of, put, rename, shift, exists, move_away}
use hfdesk.Logging.Files.Shift.{
  no_faults, backups, put_self, put_other, backups-agree, Shifted, shift-Shifted, rename-active,
}

abbrev behind_shift : Disk × Bool → Disk × Bool
behind_shift (moved, stopped) =
    if stopped
    then (moved, true)
    else (if exists (moved 0)
        then (if false then (moved, true) else (rename 0 1 moved, false))
        else (moved, false))

-- What moving the active file away leaves: the lines of the backups, less some of the oldest, and its own.
pub record IsMoved (n : ℕ) (disk : Disk) (result : Disk × Bool) : Type 0 where
  pub goes_on : result.1 ≡ false
  pub gone : Content
  pub kept : gone ++ backups n result.0 ≡ backups n disk ++ content_of (disk 0)

shift_then_move :
    (n : ℕ) (disk : Disk) (result : Disk × Bool)
    → Shifted n (put (suc n) none disk) result
    → IsMoved (suc n) disk (behind_shift result)
unfolding backups
shift_then_move n disk (moved, true) h = absurd (cc h.goes_on)
shift_then_move n disk (moved, false) h = go (moved 0) refl
  where
    older : backups (suc n) moved ≡ backups n disk
    older =
        h.older
        ∙ backups-agree n (put (suc n) none disk) disk
            (λ k le. put_other (suc n) (suc k) none disk (ground (arith, le)))

    active : moved 0 ≡ disk 0
    active = h.active ∙ put_other (suc n) 0 none disk (ground arith)

    dropped : Content
    dropped = content_of (disk (suc n))

    after :
        (d : Disk)
        → backups (suc n) d ≡ backups n disk ++ content_of (disk 0)
        → dropped ++ backups (suc n) d ≡ (dropped ++ backups n disk) ++ content_of (disk 0)
    after d e =
        ap (λ t. dropped ++ t) e ∙ sym (append_assoc dropped (backups n disk) (content_of (disk 0)))

    go :
        (o : Option Content)
        → moved 0 ≡ o
        → IsMoved (suc n) disk (if exists o then (rename 0 1 moved, false) else (moved, false))
    go none e = record {
      goes_on = refl;
      gone = dropped;
      kept = after moved (
          older
          ∙ (sym (append-nil (backups n disk))
              ∙ ap (λ o. backups n disk ++ content_of o) (sym e ∙ active)));
    }
    go (some c) e = record {
      goes_on = refl;
      gone = dropped;
      kept = after (rename 0 1 moved) (
          rename-active n moved h.first
          ∙ (ap (λ t. t ++ content_of (moved 0)) older
              ∙ ap (λ o. backups n disk ++ content_of o) active));
    }

pub move_away-IsMoved : (n : ℕ) (disk : Disk) → IsMoved n disk (move_away no_faults n disk)
unfolding move_away backups
move_away-IsMoved zero disk = go (exists (disk 0))
  where
    go :
        (b : Bool)
        → IsMoved zero disk (if b && false then (disk, true) else (put 0 none disk, false))
    go true = record {
      goes_on = refl;
      gone = content_of (disk 0);
      kept = append-nil (content_of (disk 0));
    }
    go false = record {
      goes_on = refl;
      gone = content_of (disk 0);
      kept = append-nil (content_of (disk 0));
    }
move_away-IsMoved (suc n) disk =
    shift_then_move n disk (shift no_faults n (put (suc n) none disk))
      (shift-Shifted n (put (suc n) none disk) (put_self (suc n) none disk))

-- ===== src/Server/Coalescer/Timers.antt =====
-- The timers of internal/server/coalesce.go: what a call of `schedule` keeps true of their handles.
use hfdesk.Base.{
  ℕ, suc, ◌-◌, ◌≤◌, ◌<◌, ◌≡◌, ◌≢◌, ◌∙◌, ◌⊎◌, inl, inr, Bool, true, false, ◌||◌, none, some, List,
  [], ◌∷◌, arith, if◌then◌else◌, Bool-cases, Option-cases, any, Bytes, bytes_eq, bytes_eq_iff, ◌==◌,
  leb,
}
use hfdesk.Server.Job.{Job, is_terminal_job_status}
use hfdesk.Server.Coalescer.{Coalescer, Timer, schedule, send_now, hold, drop_timer, stop_timer}

-- A timer runs for the job, or a callback for it waits for the lock.
abbrev pub has_timer : Bytes → List Timer → Bool
has_timer q = any (λ t. bytes_eq q t.id)

abbrev pub has_callback : Bytes → List Bytes → Bool
has_callback q = any (bytes_eq q)

abbrev pub IsArmed : Coalescer → Bytes → Type 0
IsArmed c q = (has_timer q c.active ≡ true) ⊎ (has_callback q c.fired ≡ true)

abbrev pub Owned : (ℕ → Bytes) → ℕ → List Timer → Type 0
Owned owner next [] = Unit {0}
Owned owner next (t ∷ ts) = (t.handle < next) × (owner t.handle ≡ t.id) × Owned owner next ts

-- `owner` gives the job for which each handle was made.
pub record Inv (owner : ℕ → Bytes) (c : Coalescer) : Type 0 where
  pub owned : Owned owner c.next_handle c.active
  pub mapped : (q : Bytes) (h : ℕ) → c.timers q ≡ some h → (h < c.next_handle) × (owner h ≡ q)
  pub armed : (q : Bytes) (h : ℕ) → c.timers q ≡ some h → IsArmed c q
  pub tracked_pending :
      (q : Bytes) (j : Job) → c.pending q ≡ some j → (h : ℕ) × (c.timers q ≡ some h)

pub has_timer-stop :
    (owner : ℕ → Bytes) (next h : ℕ) (q : Bytes) (ts : List Timer)
    → Owned owner next ts
    → owner h ≢ q
    → has_timer q ts ≡ true
    → has_timer q (stop_timer h ts) ≡ true
unfolding stop_timer
has_timer-stop owner next h q [] o away e = e
has_timer-stop owner next h q (t ∷ ts) (below, own, o) away e =
    ground (arith, bytes_eq_iff q t.id, has_timer-stop owner next h q ts o away)

pub Owned-stop :
    (owner : ℕ → Bytes) (next h : ℕ) (ts : List Timer)
    → Owned owner next ts
    → Owned owner next (stop_timer h ts)
unfolding stop_timer
Owned-stop owner next h [] o = tt
Owned-stop owner next h (t ∷ ts) (below, own, o) = ground (arith, Owned-stop owner next h ts o)

Owned-wider :
    (owner owner' : ℕ → Bytes) (n m : ℕ) (ts : List Timer)
    → n ≤ m
    → ((h : ℕ) → h < n → owner' h ≡ owner h)
    → Owned owner n ts
    → Owned owner' m ts
Owned-wider owner owner' n m [] le same o = tt
Owned-wider owner owner' n m (t ∷ ts) le same (below, own, o) =
    (omega arith, same t.handle below ∙ own, Owned-wider owner owner' n m ts le same o)

-- What is left after the timer of one job is dropped.
record Dropped (owner : ℕ → Bytes) (id : Bytes) (d : Coalescer) : Type 0 where
  owned : Owned owner d.next_handle d.active
  mapped : (q : Bytes) (h : ℕ) → d.timers q ≡ some h → (h < d.next_handle) × (owner h ≡ q)
  armed : (q : Bytes) (h : ℕ) → d.timers q ≡ some h → IsArmed d q
  kept :
      (q : Bytes) (j : Job)
      → bytes_eq q id ≡ false
      → d.pending q ≡ some j
      → (h : ℕ) × (d.timers q ≡ some h)

drop_timer-Dropped :
    (owner : ℕ → Bytes) (c : Coalescer) (id : Bytes)
    → Inv owner c
    → Dropped owner id (drop_timer c id)
unfolding drop_timer
drop_timer-Dropped owner c id v = elim (Option-cases (c.timers id)) [
  | inl e ↦
      rw (e, drop_timer)
        (record {
          owned = v.owned;
          mapped = v.mapped;
          armed = v.armed;
          kept = λ q j other. v.tracked_pending q j;
        })
  | inr (h, e) ↦
      rw (e, drop_timer)
        (record {
          owned = Owned-stop owner c.next_handle h c.active v.owned;
          mapped = λ q k f. ground (arith, v.mapped q k);
          armed = λ q k f. elim (Bool-cases (bytes_eq q id)) [
            | inl same ↦ absurd (ground (arith, same))
            | inr other ↦ elim (v.armed q k (ground (arith, other))) [
              | inl timer ↦ inl (
                  has_timer-stop owner c.next_handle h q c.active v.owned
                    (λ s. ground (arith, (v.mapped id h e).1, bytes_eq_iff q id)) timer)
              | inr callback ↦ inr callback
            ]
          ];
          kept = λ q j other f. let (k, g) = v.tracked_pending q j f in (k, rw other g);
        })
]

send_now-Inv :
    (owner : ℕ → Bytes) (c : Coalescer) (job : Job) (now : ℕ)
    → Inv owner c
    → Inv owner (send_now c job now)
unfolding send_now drop_timer
send_now-Inv owner c job now v =
    let d = drop_timer-Dropped owner c job.id v in
    record {
      owned = d.owned;
      mapped = d.mapped;
      armed = d.armed;
      tracked_pending = λ q j e. elim (Bool-cases (bytes_eq q job.id)) [
        | inl same ↦ absurd (ground (arith, same))
        | inr other ↦ d.kept q j other (ground (arith, other))
      ];
    }

-- A timer armed under the next handle.
armed_by : (ℕ → Bytes) → ℕ → Bytes → ℕ → Bytes
armed_by owner n id h = if h == n then id else owner h

hold_new-Inv :
    (owner : ℕ → Bytes) (c : Coalescer) (job : Job) (now last : ℕ)
    → Inv owner c
    → c.timers job.id ≡ none
    → Inv (armed_by owner c.next_handle job.id) (hold c job now last)
unfolding hold armed_by
hold_new-Inv owner c job now last v e =
    rw (e, hold)
      (record {
        owned = (
          omega arith,
          ground arith,
          Owned-wider owner (armed_by owner c.next_handle job.id) c.next_handle (suc c.next_handle)
              c.active (omega arith) (λ h below. ground arith) v.owned,
        );
        mapped = λ q h f. elim (Bool-cases (bytes_eq q job.id)) [
          | inl same ↦ ground (arith, bytes_eq_iff q job.id)
          | inr other ↦ ground (arith, v.mapped q h (ground (arith, other)))
        ];
        armed = λ q h f. elim (Bool-cases (bytes_eq q job.id)) [
          | inl same ↦ inl (ground (arith, same))
          | inr other ↦ elim (v.armed q h (ground (arith, other))) [
            | inl timer ↦ inl (ground (arith, other, timer))
            | inr callback ↦ inr callback
          ]
        ];
        tracked_pending = λ q j f. elim (Bool-cases (bytes_eq q job.id)) [
          | inl same ↦ (c.next_handle, rw same)
          | inr other ↦
              let (h, g) = v.tracked_pending q j (ground (arith, other)) in (h, rw other g)
        ];
      })

hold_old-Inv :
    (owner : ℕ → Bytes) (c : Coalescer) (job : Job) (now last h : ℕ)
    → Inv owner c
    → c.timers job.id ≡ some h
    → Inv owner (hold c job now last)
unfolding hold
hold_old-Inv owner c job now last h v e =
    rw (e, hold)
      (record {
        owned = v.owned;
        mapped = v.mapped;
        armed = v.armed;
        tracked_pending = λ q j f. elim (Bool-cases (bytes_eq q job.id)) [
          | inl same ↦ (h, ground (arith, e, bytes_eq_iff q job.id))
          | inr other ↦ v.tracked_pending q j (ground (arith, other))
        ];
      })

-- Some assignment of handles to jobs fits the state.
abbrev pub HasInv : Coalescer → Type 0
HasInv c = (owner : ℕ → Bytes) × Inv owner c

hold-HasInv :
    (owner : ℕ → Bytes) (c : Coalescer) (job : Job) (now last : ℕ)
    → Inv owner c
    → HasInv (hold c job now last)
hold-HasInv owner c job now last v = elim (Option-cases (c.timers job.id)) [
  | inl e ↦ (armed_by owner c.next_handle job.id, hold_new-Inv owner c job now last v e)
  | inr (h, e) ↦ (owner, hold_old-Inv owner c job now last h v e)
]

-- What one call of `schedule` comes to.
schedule_outcome :
    (c : Coalescer) (job : Job) (now : ℕ)
    → (schedule c job now ≡ c)
      ⊎ ((schedule c job now ≡ send_now c job now)
          ⊎ ((last : ℕ) × (schedule c job now ≡ hold c job now last)))
unfolding schedule
schedule_outcome c job now = elim (Option-cases (c.last_sent job.id)) [
  | inl new ↦ ground (arith, new)
  | inr (last, old) ↦ elim (Bool-cases (c.stopped)) [
    | inl off ↦ inl (ground (arith, off))
    | inr on ↦ elim (Bool-cases (is_terminal_job_status job.status || leb c.min_gap (now - last))) [
      | inl free ↦ inr (inl (ground (arith, on, old, free)))
      | inr held ↦ inr (inr (last, ground (arith, on, old, held)))
    ]
  ]
]

pub schedule-HasInv :
    (owner : ℕ → Bytes) (c : Coalescer) (job : Job) (now : ℕ)
    → Inv owner c
    → HasInv (schedule c job now)
schedule-HasInv owner c job now v = elim (schedule_outcome c job now) [
  | inl off ↦ rw off (owner, v)
  | inr (inl free) ↦ rw free (owner, send_now-Inv owner c job now v)
  | inr (inr (last, held)) ↦ rw held (hold-HasInv owner c job now last v)
]

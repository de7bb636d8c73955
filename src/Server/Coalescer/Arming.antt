-- ===== src/Server/Coalescer/Arming.antt =====
-- The timers of internal/server/coalesce.go: an update that is held has a timer that runs or a
-- callback that waits for the lock.
use hfdesk.Base.{
  ℕ, ◌≡◌, sym, ◌∙◌, ◌⊎◌, inl, inr, true, false, none, some, List, [], ◌∷◌, ◌++◌, arith, Bool-cases,
  Option-cases, Bytes, bytes_eq, bytes_eq_iff, bytes_eq_self, subst,
}
use hfdesk.Server.Job.{Job}
use hfdesk.Server.Coalescer.{Coalescer, Timer, new_job_coalescer, expire, flush, stop, put, delete}
use hfdesk.Server.Coalescer.Delivery.{
  Trace, start, scheduled, expired, flushed, stopped, schedule_live, flush_live,
}
use hfdesk.Server.Coalescer.Timers.{
  Inv, HasInv, Owned, IsArmed, has_callback, has_timer-stop, Owned-stop, schedule-HasInv,
}

-- A running timer belongs to the job that owns its handle.
owner_of :
    (owner : ℕ → Bytes) (next : ℕ) (xs ys : List Timer) (t : Timer)
    → Owned owner next (xs ++ t ∷ ys)
    → owner t.handle ≡ t.id
owner_of owner next [] ys t o = o.1
owner_of owner next (x ∷ xs) ys t o = owner_of owner next xs ys t o.2

expire-Inv :
    (owner : ℕ → Bytes) (c : Coalescer) (t : Timer)
    → owner t.handle ≡ t.id
    → Inv owner c
    → Inv owner (expire c t)
unfolding expire
expire-Inv owner c t own v = record {
  owned = Owned-stop owner c.next_handle t.handle c.active v.owned;
  mapped = v.mapped;
  armed = λ q h f. elim (Bool-cases (bytes_eq q t.id)) [
    | inl same ↦ inr (ground (arith, same))
    | inr other ↦ elim (v.armed q h f) [
      | inl timer ↦ inl (
          has_timer-stop owner c.next_handle t.handle q c.active v.owned
            (λ s. ground (arith, own, bytes_eq_iff q t.id)) timer)
      | inr callback ↦ inr (ground (arith, other, callback))
    ]
  ];
  tracked_pending = v.tracked_pending;
}

has_callback-remove :
    (q id : Bytes) (xs ys : List Bytes)
    → bytes_eq q id ≡ false
    → has_callback q (xs ++ id ∷ ys) ≡ true
    → has_callback q (xs ++ ys) ≡ true
has_callback-remove q id [] ys other h = ground arith
has_callback-remove q id (x ∷ xs) ys other h = ground (arith, has_callback-remove q id xs ys other)

-- The state in which a callback has taken what was held for its job.
taken : Coalescer → Bytes → List Bytes → Coalescer
taken c id rest = record c {
  fired = rest;
  pending = delete c.pending id;
  timers = delete c.timers id;
}

flush_outcome :
    (c : Coalescer) (id : Bytes) (rest : List Bytes) (now : ℕ)
    → c.stopped ≡ false
    → (flush c id rest now ≡ taken c id rest)
      ⊎ ((j : Job) × (flush c id rest now
            ≡ record (taken c id rest) { last_sent = put c.last_sent id now; sent = j ∷ c.sent }))
unfolding flush taken
flush_outcome c id rest now on = elim (Option-cases (c.pending id)) [
  | inl e ↦ inl (ground (arith, e))
  | inr (j, e) ↦ inr (j, ground (arith, e))
]

taken-Inv :
    (owner : ℕ → Bytes) (c : Coalescer) (id : Bytes) (xs ys : List Bytes)
    → c.fired ≡ xs ++ id ∷ ys
    → Inv owner c
    → Inv owner (taken c id (xs ++ ys))
unfolding taken
taken-Inv owner c id xs ys e v = record {
  owned = v.owned;
  mapped = λ q h f. elim (Bool-cases (bytes_eq q id)) [
    | inl same ↦ absurd (ground (arith, same))
    | inr other ↦ v.mapped q h (ground (arith, other))
  ];
  armed = λ q h f. elim (Bool-cases (bytes_eq q id)) [
    | inl same ↦ absurd (ground (arith, same))
    | inr other ↦ elim (v.armed q h (ground (arith, other))) [
      | inl timer ↦ inl timer
      | inr callback ↦
          inr
            (has_callback-remove q id xs ys other (subst (λ l. has_callback q l ≡ true) e callback))
    ]
  ];
  tracked_pending = λ q j f. elim (Bool-cases (bytes_eq q id)) [
    | inl same ↦ absurd (ground (arith, same))
    | inr other ↦ let (h, g) = v.tracked_pending q j (ground (arith, other)) in (h, rw other g)
  ];
}

flush-Inv :
    (owner : ℕ → Bytes) (c : Coalescer) (id : Bytes) (xs ys : List Bytes) (now : ℕ)
    → c.fired ≡ xs ++ id ∷ ys
    → c.stopped ≡ false
    → Inv owner c
    → Inv owner (flush c id (xs ++ ys) now)
flush-Inv owner c id xs ys now e on v =
    let w = taken-Inv owner c id xs ys e v in
    elim (flush_outcome c id (xs ++ ys) now on) [
      | inl f ↦ rw f w
      | inr (j, f) ↦ rw f (record {
        owned = w.owned;
        mapped = w.mapped;
        armed = w.armed;
        tracked_pending = w.tracked_pending;
      })
    ]

Trace-HasInv :
    {gap : ℕ} {js : List Job} {c : Coalescer} → Trace gap js c → c.stopped ≡ false → HasInv c
unfolding new_job_coalescer
Trace-HasInv start live = (
  λ h. [],
  record { owned = tt; mapped = λ q h e. cc; armed = λ q h e. cc; tracked_pending = λ q j e. cc },
)
Trace-HasInv (scheduled {c = c} job now t) live =
    let (owner, v) = Trace-HasInv t (sym (schedule_live c job now) ∙ live) in
    schedule-HasInv owner c job now v
Trace-HasInv (expired {c = c} xs ys x e t) live =
    let (owner, v) = Trace-HasInv t (unfold expire in live) in
    (
      owner,
      expire-Inv owner c x
          (owner_of owner c.next_handle xs ys x (subst (Owned owner c.next_handle) e v.owned)) v,
    )
Trace-HasInv (flushed {c = c} xs ys id now e t) live =
    let before : c.stopped ≡ false = sym (flush_live c id (xs ++ ys) now) ∙ live in
    let (owner, v) = Trace-HasInv t before in (owner, flush-Inv owner c id xs ys now e before v)
Trace-HasInv (stopped t) live = absurd (unfold stop in cc)

-- In every history with no `stop`, a job with a held update has a timer that runs or a callback
-- that waits for the lock, and whenever a callback for that job gets the lock, it sends this update.
pub held_is_delivered :
    {gap : ℕ} {js : List Job} {c : Coalescer} (q : Bytes) (j : Job)
    → Trace gap js c
    → c.stopped ≡ false
    → c.pending q ≡ some j
    → IsArmed c q
      × ((rest : List Bytes) (now : ℕ)
          → ((flush c q rest now).sent ≡ j ∷ c.sent) × ((flush c q rest now).pending q ≡ none))
unfolding flush
held_is_delivered {c = c} q j t live e =
    let (owner, v) = Trace-HasInv t live in
    let (h, f) = v.tracked_pending q j e in
    (v.armed q h f, λ rest now. (ground (arith, e), ground (arith, e, bytes_eq_self q)))

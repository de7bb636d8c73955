-- ===== src/Server/Jobs/Order.antt =====
-- The order in which `dispatchLocked` of internal/server/jobs.go starts jobs.
use mathlib.Core.List.{Permᴰ}
use mathlib.Core.List.Permᴰ
use hfdesk.Base.{
  ℕ, zero, suc, ◌-◌, ◌≤◌, ◌≡◌, refl, ap, ◌⊎◌, inl, inr, Bool, false, not, ◌&&◌, List, [], ◌∷◌,
  arith, leb, if-rule, keep_if, take, drop,
}
use hfdesk.Server.Job.{Job}
use hfdesk.Server.Jobs.{
  JobManager, Slot, dispatch, effective_max_active, is_waiting, active_count, launch, start_queued,
  by_age, insert_by_age,
}

-- No job of the list is older than the one before it.
abbrev pub AreYounger : ℕ → List Slot → Type 0
AreYounger at [] = Unit {0}
AreYounger at (s ∷ ss) = (at ≤ s.job.created_at) × AreYounger at ss

abbrev pub IsOldestFirst : List Slot → Type 0
IsOldestFirst [] = Unit {0}
IsOldestFirst (s ∷ ss) = AreYounger s.job.created_at ss × IsOldestFirst ss

AreYounger-le : (a b : ℕ) (ss : List Slot) → a ≤ b → AreYounger b ss → AreYounger a ss
AreYounger-le a b [] h y = tt
AreYounger-le a b (s ∷ ss) h y = (omega (arith, y.0), AreYounger-le a b ss h y.1)

insert_by_age-AreYounger :
    (a : ℕ) (s : Slot) (ss : List Slot)
    → a ≤ s.job.created_at
    → AreYounger a ss
    → AreYounger a (insert_by_age s ss)
unfolding insert_by_age
insert_by_age-AreYounger a s [] h y = (h, tt)
insert_by_age-AreYounger a s (t ∷ ts) h y =
    if-rule (AreYounger a) (leb s.job.created_at t.job.created_at) _ _ (λ _. (h, y))
      (λ _. (y.0, insert_by_age-AreYounger a s ts h y.1))

insert_by_age-IsOldestFirst :
    (s : Slot) (ss : List Slot) → IsOldestFirst ss → IsOldestFirst (insert_by_age s ss)
unfolding insert_by_age
insert_by_age-IsOldestFirst s [] h = (tt, tt)
insert_by_age-IsOldestFirst s (t ∷ ts) h =
    if-rule IsOldestFirst (leb s.job.created_at t.job.created_at) _ _
      (λ le.
        ((ground arith, AreYounger-le s.job.created_at t.job.created_at ts (ground arith) h.0), h))
      (λ gt. (
        insert_by_age-AreYounger t.job.created_at s ts (ground arith) h.0,
        insert_by_age-IsOldestFirst s ts h.1,
      ))

by_age-IsOldestFirst : (ss : List Slot) → IsOldestFirst (by_age ss)
unfolding by_age
by_age-IsOldestFirst [] = tt
by_age-IsOldestFirst (s ∷ ss) = insert_by_age-IsOldestFirst s (by_age ss) (by_age-IsOldestFirst ss)

insert_by_age-Permᴰ : (s : Slot) (ss : List Slot) → Permᴰ (s ∷ ss) (insert_by_age s ss)
unfolding insert_by_age
insert_by_age-Permᴰ s [] = Permᴰ.refl (s ∷ [])
insert_by_age-Permᴰ s (t ∷ ts) =
    if-rule (Permᴰ (s ∷ t ∷ ts)) (leb s.job.created_at t.job.created_at) _ _
      (λ _. Permᴰ.refl (s ∷ t ∷ ts))
      (λ _. Permᴰ.trans (Permᴰ.swap refl refl) (Permᴰ.cons refl (insert_by_age-Permᴰ s ts)))

by_age-Permᴰ : (ss : List Slot) → Permᴰ ss (by_age ss)
unfolding by_age
by_age-Permᴰ [] = Permᴰ.nil
by_age-Permᴰ (s ∷ ss) =
    Permᴰ.trans (Permᴰ.cons refl (by_age-Permᴰ ss)) (insert_by_age-Permᴰ s (by_age ss))

unfoldable pub launch_all : List Slot → JobManager → JobManager
launch_all [] m = m
launch_all (s ∷ ss) m = launch_all ss (launch s.job.id m)

-- The first job of the list cannot be started.
unfoldable pub IsHeldBack : (Job → Bool) → (Job → Bool) → List Slot → Type 0
IsHeldBack has_destination blocked [] = Unit {0}
IsHeldBack has_destination blocked (s ∷ ss) = (has_destination s.job && not (blocked s.job)) ≡ false

-- What the loop does with a queue: it launches the first `count` jobs, as many as there is room for,
-- or up to a job that is held back or the end of the queue.
pub record Starts (has_destination : Job → Bool) (room : ℕ) (queue : List Slot) (m m' : JobManager)
    : Type 0 where
  pub count : ℕ
  pub fits : count ≤ room
  pub launches : m' ≡ launch_all (take count queue) m
  pub ends : (count ≡ room) ⊎ IsHeldBack has_destination m.blocked (drop count queue)

module _ (has_destination : Job → Bool) where
  stops :
      (room : ℕ) (queue : List Slot) (m : JobManager)
      → (0 ≡ room) ⊎ IsHeldBack has_destination m.blocked queue
      → Starts has_destination room queue m m
  unfolding launch_all
  stops room queue m h = record { count = 0; fits = omega arith; launches = refl; ends = h }

  start_queued-Starts :
      (room : ℕ) (queue : List Slot) (m : JobManager)
      → Starts has_destination room queue m (start_queued has_destination room queue m)
  unfolding start_queued launch_all launch IsHeldBack
  start_queued-Starts zero queue m = stops zero queue m (inl refl)
  start_queued-Starts (suc room) [] m = stops (suc room) [] m (inr tt)
  start_queued-Starts (suc room) (s ∷ queue) m =
      let rest = start_queued-Starts room queue (launch s.job.id m) in
      if-rule (λ (r : JobManager). Starts has_destination (suc room) (s ∷ queue) m r)
        (has_destination s.job) _ _
        (λ placed.
          if-rule (λ (r : JobManager). Starts has_destination (suc room) (s ∷ queue) m r)
            (m.blocked s.job) _ _ (λ held. stops (suc room) (s ∷ queue) m (inr (ground arith)))
            (λ free. record {
              count = suc rest.count;
              fits = let f = rest.fits in omega arith;
              launches = rest.launches;
              ends = elim rest.ends [ inl full ↦ inl (ap suc full) | inr held ↦ inr held ];
            }))
        (λ nowhere. stops (suc room) (s ∷ queue) m (inr (ground arith)))

  -- Unless the manager is fenced, a dispatch launches waiting jobs from the oldest one on and skips
  -- none: as many as the limit leaves room for, or up to the first job that has no destination or is
  -- held back by a reservation, or all of them.
  pub dispatch-Starts :
      (m : JobManager)
      → m.fenced ≡ false
      → let queue = by_age (keep_if (λ s. is_waiting s.job) m.jobs) in
        IsOldestFirst queue
        × Permᴰ (keep_if (λ s. is_waiting s.job) m.jobs) queue
        × Starts has_destination
            (effective_max_active m - active_count m.jobs)
            queue
            m
            (dispatch has_destination m)
  unfolding dispatch
  dispatch-Starts m running =
      let queue = by_age (keep_if (λ s. is_waiting s.job) m.jobs) in
      let room = effective_max_active m - active_count m.jobs in
      (
        by_age-IsOldestFirst (keep_if (λ s. is_waiting s.job) m.jobs),
        by_age-Permᴰ (keep_if (λ s. is_waiting s.job) m.jobs),
        if-rule (λ (r : JobManager). Starts has_destination room queue m r) m.fenced _ _
            (λ fenced. absurd (ground (arith, fenced, running)))
            (λ _. start_queued-Starts room queue m),
      )

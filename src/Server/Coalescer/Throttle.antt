-- ===== src/Server/Coalescer/Throttle.antt =====
-- The minimum gap of internal/server/coalesce.go, where no callback is late: a timer that expires
-- gets the lock before any other call.
use hfdesk.Base.{
  ℕ, ◌+◌, ◌-◌, ◌≤◌, ◌≡◌, refl, sym, ap, ◌∙◌, ◌⊎◌, inl, inr, true, false, none, some, List, [], ◌∷◌,
  ◌++◌, arith, Bool-cases, Option-cases, leb, subst,
}
use hfdesk.Server.Job.{Job, is_terminal_job_status}
use hfdesk.Server.Coalescer.Delivery.{Keyed, schedule-Keyed, flush-Keyed}
use hfdesk.Server.Coalescer.{
  Coalescer, Timer, new_job_coalescer, schedule, expire, flush, stop_timer, put, delete, Map,
  send_now, hold, drop_timer,
}
use hfdesk.Server.Coalescer.Timely.{
  TimelyFor, IsTimely, Timely-stop, send_now-IsTimely, hold-IsTimely, put-past,
}

-- One call at a time `now`: an update, or a timer that is due and whose callback runs at once.
pub data Step (c : Coalescer) (now : ℕ) : Coalescer → Type 0 where
  schedules : (job : Job) → Step c now (schedule c job now)
  fires :
      (xs ys : List Timer) (t : Timer)
      → c.active ≡ xs ++ t ∷ ys
      → t.deadline ≤ now
      → Step c now (flush (expire c t) t.id c.fired now)

-- The states after such calls, with the time of the last one. The clock does not go back.
pub data Reach (min_gap : ℕ) : ℕ → Coalescer → Type 0 where
  here : Reach min_gap 0 (new_job_coalescer min_gap)
  next :
      {c d : Coalescer} {before now : ℕ}
      → Reach min_gap before c
      → before ≤ now
      → Step c now d
      → Reach min_gap now d

-- Why an update may be sent at `now`.
abbrev pub IsDue : Coalescer → Job → ℕ → Type 0
IsDue c job now =
    (is_terminal_job_status job.status ≡ true)
    ⊎ ((c.last_sent job.id ≡ none)
        ⊎ ((last : ℕ) × (c.last_sent job.id ≡ some last) × (last + c.min_gap ≤ now)))

-- A call sends nothing and keeps all times, or it sends one update that is due and notes the time.
abbrev pub IsSpaced : Coalescer → ℕ → Coalescer → Type 0
IsSpaced c now d =
    ((d.sent ≡ c.sent) × (d.last_sent ≡ c.last_sent))
    ⊎ ((job : Job) × (d.sent ≡ job ∷ c.sent)
        × (d.last_sent ≡ put c.last_sent job.id now)
        × IsDue c job now)

schedule-IsDue :
    (c : Coalescer) (job : Job) (clock now : ℕ)
    → clock ≤ now
    → IsTimely clock c
    → ((schedule c job now ≡ send_now c job now) × IsDue c job now)
      ⊎ ((last : ℕ) × (c.last_sent job.id ≡ some last) × (schedule c job now ≡ hold c job now last))
unfolding schedule
schedule-IsDue c job clock now le v = elim (Bool-cases (is_terminal_job_status job.status)) [
  | inl end ↦ inl (ground (arith, v.live, end), inl end)
  | inr run ↦ elim (Option-cases (c.last_sent job.id)) [
    | inl new ↦ inl (ground (arith, v.live, run, new), inr (inl new))
    | inr (last, old) ↦ elim (Bool-cases (leb c.min_gap (now - last))) [
      | inl free ↦ inl (
        ground (arith, v.live, run, old, free),
        inr (inr (last, old, ground (arith, free, v.past job.id last old))),
      )
      | inr held ↦ inr (last, old, ground (arith, v.live, run, old, held))
    ]
  ]
]

send_now_sends :
    (c : Coalescer) (job : Job) (now : ℕ)
    → ((send_now c job now).sent ≡ job ∷ c.sent)
      × ((send_now c job now).last_sent ≡ put c.last_sent job.id now)
unfolding send_now drop_timer
send_now_sends c job now = elim (Option-cases (c.timers job.id)) [
  | inl e ↦ ground (arith, e)
  | inr (h, e) ↦ ground (arith, e)
]

hold_keeps :
    (c : Coalescer) (job : Job) (now last : ℕ)
    → ((hold c job now last).sent ≡ c.sent) × ((hold c job now last).last_sent ≡ c.last_sent)
unfolding hold
hold_keeps c job now last = elim (Option-cases (c.timers job.id)) [
  | inl e ↦ ground (arith, e)
  | inr (h, e) ↦ ground (arith, e)
]

schedule_step :
    (c : Coalescer) (job : Job) (clock now : ℕ)
    → clock ≤ now
    → IsTimely clock c
    → IsTimely now (schedule c job now) × IsSpaced c now (schedule c job now)
schedule_step c job clock now le v =
    let keyed = schedule-Keyed c job now v.keyed in
    elim (schedule-IsDue c job clock now le v) [
      | inl (e, due) ↦
          let (sends, notes) = send_now_sends c job now in
          rw e (
            send_now-IsTimely c job clock now le v (subst Keyed e keyed),
            inr (job, sends, notes, due),
          )
      | inr (last, old, e) ↦ rw e (
        hold-IsTimely c job clock now last le old v (subst Keyed e keyed),
        inl (hold_keeps c job now last),
      )
    ]

-- What is known of a running timer.
Timely-here :
    (timers last_sent : Map ℕ) (gap : ℕ) (xs ys : List Timer) (t : Timer)
    → TimelyFor timers last_sent gap (xs ++ t ∷ ys)
    → (timers t.id ≡ some t.handle)
      × ((last : ℕ) × (last_sent t.id ≡ some last) × (last + gap ≤ t.deadline))
Timely-here timers last_sent gap [] ys t v = (v.0, v.1)
Timely-here timers last_sent gap (x ∷ xs) ys t v = Timely-here timers last_sent gap xs ys t v.2

-- The state after a timer's callback took what was held, and the sending of an update from it.
emptied : Coalescer → Timer → Coalescer
emptied c t = record c {
  active = stop_timer t.handle c.active;
  pending = delete c.pending t.id;
  timers = delete c.timers t.id;
}

sending : Coalescer → Timer → Job → ℕ → Coalescer
unfolding emptied
sending c t job now = record (emptied c t) {
  last_sent = put c.last_sent t.id now;
  sent = job ∷ c.sent;
}

fires_idle :
    (c : Coalescer) (t : Timer) (now : ℕ)
    → c.stopped ≡ false
    → c.pending t.id ≡ none
    → flush (expire c t) t.id c.fired now ≡ emptied c t
unfolding expire flush emptied
fires_idle c t now on e = ground arith

fires_held :
    (c : Coalescer) (t : Timer) (job : Job) (now : ℕ)
    → c.stopped ≡ false
    → c.pending t.id ≡ some job
    → flush (expire c t) t.id c.fired now ≡ sending c t job now
unfolding expire flush sending
fires_held c t job now on e = ground arith

fires_step :
    (c : Coalescer) (xs ys : List Timer) (t : Timer) (clock now : ℕ)
    → c.active ≡ xs ++ t ∷ ys
    → t.deadline ≤ now
    → clock ≤ now
    → IsTimely clock c
    → let d = flush (expire c t) t.id c.fired now in IsTimely now d × IsSpaced c now d
unfolding sending
fires_step c xs ys t clock now e due le v =
    let (m, (last, l, d)) =
      Timely-here c.timers c.last_sent c.min_gap xs ys t
        (subst (TimelyFor c.timers c.last_sent c.min_gap) e v.timely) in
    let keyed : Keyed (flush (expire c t) t.id c.fired now) =
      flush-Keyed (expire c t) t.id c.fired now (unfold expire in v.keyed) in
    elim (Option-cases (c.pending t.id)) [
      | inl p ↦ rw (fires_idle c t now v.live p) (
        record {
          timely =
              Timely-stop c.timers c.last_sent c.last_sent c.min_gap t.handle t.id c.active m
                (λ q other. refl) v.timely;
          past = λ q k f. omega (arith, v.past q k f);
          live = v.live;
          keyed = subst Keyed (fires_idle c t now v.live p) keyed;
        },
        inl (refl, refl),
      )
      | inr (j, p) ↦ rw (fires_held c t j now v.live p) (
        record {
          timely =
              Timely-stop c.timers c.last_sent (put c.last_sent t.id now) c.min_gap t.handle t.id
                c.active m (λ q other. rw other) v.timely;
          past = put-past c.last_sent t.id clock now le v.past;
          live = v.live;
          keyed = subst Keyed (fires_held c t j now v.live p) keyed;
        },
        inr (
          j,
          refl,
          ap (λ k. put c.last_sent k now) (v.keyed t.id j p),
          inr (inr (last, ap c.last_sent (sym (v.keyed t.id j p)) ∙ l, omega arith)),
        ),
      )
    ]

Step-IsTimely :
    {before now : ℕ} {c d : Coalescer}
    → before ≤ now
    → IsTimely before c
    → Step c now d
    → IsTimely now d × IsSpaced c now d
Step-IsTimely {before = before} {now = now} {c = c} le v (schedules job) =
    schedule_step c job before now le v
Step-IsTimely {before = before} {now = now} {c = c} le v (fires xs ys t e due) =
    fires_step c xs ys t before now e due le v

Reach-IsTimely : {gap now : ℕ} {c : Coalescer} → Reach gap now c → IsTimely now c
unfolding new_job_coalescer
Reach-IsTimely here = record { timely = tt; past = λ q k e. cc; live = refl; keyed = λ q j e. cc }
Reach-IsTimely (next r le st) = (Step-IsTimely le (Reach-IsTimely r) st).0

-- Where expired timers run their callbacks at once and the clock does not go back, each call sends
-- at most one update, and an update is sent only if its status is terminal, if nothing was sent for
-- its job before, or if the minimum gap has passed since the last sending for this job.
pub sends_are-IsSpaced :
    {gap before now : ℕ} {c d : Coalescer}
    → Reach gap before c
    → before ≤ now
    → Step c now d
    → IsSpaced c now d
sends_are-IsSpaced r le st = (Step-IsTimely le (Reach-IsTimely r) st).1

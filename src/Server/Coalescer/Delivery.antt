-- ===== src/Server/Coalescer/Delivery.antt =====
-- What the throttle of internal/server/coalesce.go delivers: no update is lost or overtaken, and
-- every held update has a callback on its way.
use hfdesk.Base.{
  ℕ, ◌≡◌, refl, sym, ap, ◌∙◌, inl, inr, false, Option, none, some, List, [], ◌∷◌, ◌++◌, arith,
  if◌then◌else◌, Option-cases, Bytes, bytes_eq, bytes_eq_iff,
}
use hfdesk.Server.Job.{Job}
use hfdesk.Server.Coalescer.{Coalescer, Timer, new_job_coalescer, schedule, expire, flush, stop}

-- The newest update of a job in a list, newest first.
unfoldable pub latest : Bytes → List Job → Option Job
latest q [] = none
latest q (j ∷ js) = let rest = latest q js in if bytes_eq q j.id then some j else rest

-- The histories of a coalescer, with the updates given to `schedule` so far, newest first.
pub data Trace (min_gap : ℕ) : List Job → Coalescer → Type 0 where
  start : Trace min_gap [] (new_job_coalescer min_gap)
  scheduled :
      {js : List Job} {c : Coalescer} (job : Job) (now : ℕ)
      → Trace min_gap js c
      → Trace min_gap (job ∷ js) (schedule c job now)
  expired :
      {js : List Job} {c : Coalescer} (xs ys : List Timer) (t : Timer)
      → c.active ≡ xs ++ t ∷ ys
      → Trace min_gap js c
      → Trace min_gap js (expire c t)
  flushed :
      {js : List Job} {c : Coalescer} (xs ys : List Bytes) (id : Bytes) (now : ℕ)
      → c.fired ≡ xs ++ id ∷ ys
      → Trace min_gap js c
      → Trace min_gap js (flush c id (xs ++ ys) now)
  stopped : {js : List Job} {c : Coalescer} → Trace min_gap js c → Trace min_gap js (stop c)

-- The newest update of the job that was sent or is held for a callback.
pub seen : Coalescer → Bytes → Option Job
unfolding latest
seen c q = elim (c.pending q) [ some j ↦ some j | none ↦ latest q c.sent ]

-- A held update stands under the ID of its job.
abbrev pub Keyed : Coalescer → Type 0
Keyed c = (q : Bytes) (j : Job) → c.pending q ≡ some j → q ≡ j.id

pub schedule-Keyed : (c : Coalescer) (job : Job) (now : ℕ) → Keyed c → Keyed (schedule c job now)
unfolding schedule
schedule-Keyed c job now h q j e = ground (arith, h q j, bytes_eq_iff q job.id)

pub flush-Keyed :
    (c : Coalescer) (id : Bytes) (rest : List Bytes) (now : ℕ)
    → Keyed c
    → Keyed (flush c id rest now)
unfolding flush
flush-Keyed c id rest now h q j e = ground (arith, h q j)

Trace-Keyed : {gap : ℕ} {js : List Job} {c : Coalescer} → Trace gap js c → Keyed c
unfolding new_job_coalescer expire stop
Trace-Keyed start = λ q j e. cc
Trace-Keyed (scheduled {c = c} job now t) = schedule-Keyed c job now (Trace-Keyed t)
Trace-Keyed (expired xs ys x e t) = Trace-Keyed t
Trace-Keyed (flushed {c = c} xs ys id now e t) = flush-Keyed c id (xs ++ ys) now (Trace-Keyed t)
Trace-Keyed (stopped t) = λ q j e. cc

seen-schedule :
    (c : Coalescer) (job : Job) (now : ℕ) (q : Bytes)
    → c.stopped ≡ false
    → seen (schedule c job now) q ≡ (if bytes_eq q job.id then some job else seen c q)
unfolding seen schedule
seen-schedule c job now q live = ground (arith, bytes_eq_iff q job.id)

seen-flush :
    (c : Coalescer) (id : Bytes) (rest : List Bytes) (now : ℕ) (q : Bytes)
    → Keyed c
    → c.stopped ≡ false
    → seen (flush c id rest now) q ≡ seen c q
unfolding seen flush
seen-flush c id rest now q keyed live = elim (Option-cases (c.pending id)) [
  | inl e ↦ ground (arith, e, bytes_eq_iff q id)
  | inr (j, e) ↦ ground (arith, e, keyed id j e, bytes_eq_iff q id, bytes_eq_iff q j.id)
]

seen-new : (gap : ℕ) (q : Bytes) → seen (new_job_coalescer gap) q ≡ none
unfolding seen new_job_coalescer
seen-new gap q = refl

seen-expire : (c : Coalescer) (t : Timer) (q : Bytes) → seen (expire c t) q ≡ seen c q
unfolding seen expire
seen-expire c t q = refl

pub schedule_live : (c : Coalescer) (job : Job) (now : ℕ) → (schedule c job now).stopped ≡ c.stopped
unfolding schedule
schedule_live c job now = ground arith

pub flush_live :
    (c : Coalescer) (id : Bytes) (rest : List Bytes) (now : ℕ)
    → (flush c id rest now).stopped ≡ c.stopped
unfolding flush
flush_live c id rest now = ground arith

-- In every history with no `stop`, whatever timers run late, the newest update given for a job has
-- been sent as the last one for that job, or it is the one held for a callback.
pub seen-latest :
    {gap : ℕ} {js : List Job} {c : Coalescer}
    → Trace gap js c
    → c.stopped ≡ false
    → (q : Bytes) → seen c q ≡ latest q js
unfolding latest
seen-latest {gap} start live q = seen-new gap q
seen-latest (scheduled {c = c} job now t) live q =
    let before : c.stopped ≡ false = sym (schedule_live c job now) ∙ live in
    seen-schedule c job now q before
    ∙ ap (λ rest. if bytes_eq q job.id then some job else rest) (seen-latest t before q)
seen-latest (expired {c = c} xs ys x e t) live q =
    seen-expire c x q ∙ seen-latest t (unfold expire in live) q
seen-latest (flushed {c = c} xs ys id now e t) live q =
    let before : c.stopped ≡ false = sym (flush_live c id (xs ++ ys) now) ∙ live in
    seen-flush c id (xs ++ ys) now q (Trace-Keyed t) before ∙ seen-latest t before q
seen-latest (stopped t) live q = unfold stop in cc

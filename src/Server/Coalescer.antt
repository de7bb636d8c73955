-- ===== src/Server/Coalescer.antt =====
-- internal/server/coalesce.go: the throttle of job broadcasts, with the runtime's timers.
--
-- A timer that expires starts a goroutine, which waits for the coalescer's lock: `fired` holds the
-- job IDs of those callbacks. `Timer.Stop` reaches a timer only while it is still running, so a
-- callback that has started runs even if its timer is stopped later. `send` runs after the lock is
-- released; `sent` lists the calls, newest first, in the order of their critical sections.
pub mod Delivery
pub mod Timers
pub mod Arming
pub mod Timely
pub mod Throttle
mod Examples
use hfdesk.Base.{
  ℕ, suc, ◌+◌, ◌-◌, Bool, true, false, not, ◌&&◌, Option, none, some, List, [], ◌∷◌, leb, ◌==◌,
  if◌then◌else◌, keep_if, Bytes, bytes_eq,
}
use hfdesk.Server.Job.{Job, is_terminal_job_status}

-- A Go map with string keys.
abbrev pub Map : Type 0 → Type 0
Map V = Bytes → Option V

module _ {V : Type 0} where
  abbrev pub empty : Map V
  empty k = none

  abbrev pub put : Map V → Bytes → V → Map V
  put m k v j = if bytes_eq j k then some v else m j

  abbrev pub delete : Map V → Bytes → Map V
  delete m k j = if bytes_eq j k then none else m j

-- A timer of the runtime that has neither expired nor been stopped.
pub record Timer : Type 0 where
  pub handle : ℕ
  pub id : Bytes
  pub deadline : ℕ

pub record Coalescer : Type 0 where
  pub last_sent : Map ℕ
  pub pending : Map Job
  pub timers : Map ℕ
  pub min_gap : ℕ
  pub stopped : Bool
  pub active : List Timer
  pub fired : List Bytes
  pub next_handle : ℕ
  pub sent : List Job

unfoldable pub new_job_coalescer : ℕ → Coalescer
new_job_coalescer min_gap = record {
  last_sent = empty;
  pending = empty;
  timers = empty;
  min_gap = min_gap;
  stopped = false;
  active = [];
  fired = [];
  next_handle = 0;
  sent = [];
}

-- `t.Stop()`.
pub stop_timer : ℕ → List Timer → List Timer
stop_timer h = keep_if (λ t. not (t.handle == h))

-- `if t, ok := c.timers[id]; ok { t.Stop(); delete(c.timers, id) }`
drop_timer : Coalescer → Bytes → Coalescer
unfolding stop_timer
drop_timer c id = elim (c.timers id) [
  | none ↦ c
  | some h ↦ record c { active = stop_timer h c.active; timers = delete c.timers id }
]

-- The branches that send at once.
pub send_now : Coalescer → Job → ℕ → Coalescer
unfolding drop_timer
send_now c job now =
    let d = drop_timer c job.id in
    record d {
      pending = delete d.pending job.id;
      last_sent = put d.last_sent job.id now;
      sent = job ∷ d.sent;
    }

-- The branch inside the window.
pub hold : Coalescer → Job → ℕ → ℕ → Coalescer
hold c job now last =
    let d = record c { pending = put c.pending job.id job } in
    elim (c.timers job.id) [
      | some h ↦ d
      | none ↦ record d {
        timers = put c.timers job.id c.next_handle;
        active =
            record {
              handle = c.next_handle;
              id = job.id;
              deadline = now + (c.min_gap - (now - last));
            }
            ∷ c.active;
        next_handle = suc c.next_handle;
      }
    ]

unfoldable pub schedule : Coalescer → Job → ℕ → Coalescer
unfolding send_now hold
schedule c job now =
    if c.stopped
    then c
    else (if is_terminal_job_status job.status
        then send_now c job now
        else elim (c.last_sent job.id) [
          | none ↦ send_now c job now
          | some last ↦
              if leb c.min_gap (now - last) then send_now c job now else hold c job now last
        ])

-- The runtime fires a timer that is due: its callback goroutine starts.
unfoldable pub expire : Coalescer → Timer → Coalescer
unfolding stop_timer
expire c t = record c { active = stop_timer t.handle c.active; fired = t.id ∷ c.fired }

-- The body of the callback for `id`, at the moment that it gets the lock; `rest` are the other
-- callbacks that wait for it.
unfoldable pub flush : Coalescer → Bytes → List Bytes → ℕ → Coalescer
flush c id rest now =
    if c.stopped
    then record c { fired = rest }
    else (let d = record c {
      fired = rest;
      pending = delete c.pending id;
      timers = delete c.timers id;
    } in
        elim (c.pending id) [
          | none ↦ d
          | some latest ↦ record d { last_sent = put c.last_sent id now; sent = latest ∷ c.sent }
        ])

-- Whether `stop` finds the timer in its map.
tracked : Coalescer → Timer → Bool
tracked c t = elim (c.timers t.id) [ none ↦ false | some h ↦ h == t.handle ]

unfoldable pub stop : Coalescer → Coalescer
unfolding tracked
stop c = record c {
  stopped = true;
  active = keep_if (λ t. not (tracked c t)) c.active;
  timers = empty;
  pending = empty;
}

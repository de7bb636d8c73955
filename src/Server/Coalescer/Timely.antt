-- ===== src/Server/Coalescer/Timely.antt =====
-- The timers of internal/server/coalesce.go against its clock: which run, and until when.
use hfdesk.Base.{
  ℕ, ◌+◌, ◌≤◌, ◌≡◌, refl, ◌∙◌, inl, inr, true, false, not, none, some, List, [], ◌∷◌, arith,
  Option-cases, Bytes, bytes_eq, bytes_eq_iff, bytes_eq_self, ◌==◌,
}
use hfdesk.Server.Job.{Job}
use hfdesk.Server.Coalescer.Delivery.{Keyed}
use hfdesk.Server.Coalescer.{
  Coalescer, Timer, stop_timer, put, delete, Map, send_now, hold, drop_timer,
}

-- The timers that run are those of the map, and none ends before the gap.
abbrev pub TimelyFor : Map ℕ → Map ℕ → ℕ → List Timer → Type 0
TimelyFor timers last_sent gap [] = Unit {0}
TimelyFor timers last_sent gap (t ∷ ts) =
    (timers t.id ≡ some t.handle)
    × ((last : ℕ) × (last_sent t.id ≡ some last) × (last + gap ≤ t.deadline))
    × TimelyFor timers last_sent gap ts

pub record IsTimely (clock : ℕ) (c : Coalescer) : Type 0 where
  pub timely : TimelyFor c.timers c.last_sent c.min_gap c.active
  pub past : (q : Bytes) (last : ℕ) → c.last_sent q ≡ some last → last ≤ clock
  pub live : c.stopped ≡ false
  pub keyed : Keyed c

-- Dropping a job's timer leaves no running timer of that job.
pub Timely-stop :
    (timers last_sent sent' : Map ℕ) (gap h : ℕ) (id : Bytes) (ts : List Timer)
    → timers id ≡ some h
    → ((q : Bytes) → bytes_eq q id ≡ false → sent' q ≡ last_sent q)
    → TimelyFor timers last_sent gap ts
    → TimelyFor (delete timers id) sent' gap (stop_timer h ts)
unfolding stop_timer
Timely-stop timers last_sent sent' gap h id [] e same v = tt
Timely-stop timers last_sent sent' gap h id (t ∷ ts) e same (m, (last, l, d), v) =
    let rest = Timely-stop timers last_sent sent' gap h id ts e same v in
    (elim (t.handle == h)
        as (λ b.
          (t.handle == h) ≡ b
          → TimelyFor (delete timers id) sent' gap
              (elim (not b) [ true ↦ t ∷ stop_timer h ts | false ↦ stop_timer h ts ])) [
                | true ↦ λ hit. rest
                | false ↦ λ miss.
                    let other : bytes_eq t.id id ≡ false = ground (arith, bytes_eq_iff t.id id) in
                    (rw other m, (last, same t.id other ∙ l, d), rest)
              ])
      refl

-- Where the job has no timer, none of the running ones is its own.
Timely-put :
    (timers last_sent : Map ℕ) (gap : ℕ) (id : Bytes) (now : ℕ) (ts : List Timer)
    → timers id ≡ none
    → TimelyFor timers last_sent gap ts
    → TimelyFor timers (put last_sent id now) gap ts
Timely-put timers last_sent gap id now [] e v = tt
Timely-put timers last_sent gap id now (t ∷ ts) e (m, (last, l, d), v) =
    let other : bytes_eq t.id id ≡ false = ground (arith, bytes_eq_iff t.id id) in
    (m, (last, rw other l, d), Timely-put timers last_sent gap id now ts e v)

-- A new entry for a job without a timer changes nothing for the running ones.
Timely-arm :
    (timers last_sent : Map ℕ) (gap h : ℕ) (id : Bytes) (ts : List Timer)
    → timers id ≡ none
    → TimelyFor timers last_sent gap ts
    → TimelyFor (put timers id h) last_sent gap ts
Timely-arm timers last_sent gap h id [] e v = tt
Timely-arm timers last_sent gap h id (t ∷ ts) e (m, (last, l, d), v) =
    let other : bytes_eq t.id id ≡ false = ground (arith, bytes_eq_iff t.id id) in
    (rw other m, (last, l, d), Timely-arm timers last_sent gap h id ts e v)

pub put-past :
    (m : Map ℕ) (id : Bytes) (clock now : ℕ)
    → clock ≤ now
    → ((q : Bytes) (last : ℕ) → m q ≡ some last → last ≤ clock)
    → (q : Bytes) (last : ℕ) → put m id now q ≡ some last
    → last ≤ now
put-past m id clock now le past q last e = ground (arith, past q last)

pub send_now-IsTimely :
    (c : Coalescer) (job : Job) (clock now : ℕ)
    → clock ≤ now
    → IsTimely clock c
    → Keyed (send_now c job now)
    → IsTimely now (send_now c job now)
unfolding send_now
send_now-IsTimely c job clock now le v keyed = elim (Option-cases (c.timers job.id)) [
  | inl e ↦
      rw (e, drop_timer)
        (record {
          timely = Timely-put c.timers c.last_sent c.min_gap job.id now c.active e v.timely;
          past = put-past c.last_sent job.id clock now le v.past;
          live = v.live;
          keyed = rw (e, drop_timer) at keyed;
        })
  | inr (h, e) ↦
      rw (e, drop_timer)
        (record {
          timely =
              Timely-stop c.timers c.last_sent (put c.last_sent job.id now) c.min_gap h job.id
                c.active e (λ q other. rw other) v.timely;
          past = put-past c.last_sent job.id clock now le v.past;
          live = v.live;
          keyed = rw (e, drop_timer) at keyed;
        })
]

pub hold-IsTimely :
    (c : Coalescer) (job : Job) (clock now last : ℕ)
    → clock ≤ now
    → c.last_sent job.id ≡ some last
    → IsTimely clock c
    → Keyed (hold c job now last)
    → IsTimely now (hold c job now last)
unfolding hold
hold-IsTimely c job clock now last le sent v keyed = elim (Option-cases (c.timers job.id)) [
  | inl e ↦
      rw (e, hold)
        (record {
          timely = (
            rw (bytes_eq_self job.id),
            (last, sent, omega (arith, v.past job.id last sent)),
            Timely-arm c.timers c.last_sent c.min_gap c.next_handle job.id c.active e v.timely,
          );
          past = λ q t f. omega (arith, v.past q t f);
          live = v.live;
          keyed = rw (e, hold) at keyed;
        })
  | inr (h, e) ↦
      rw (e, hold)
        (record {
          timely = v.timely;
          past = λ q t f. omega (arith, v.past q t f);
          live = v.live;
          keyed = rw (e, hold) at keyed;
        })
]

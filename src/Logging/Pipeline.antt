-- ===== src/Logging/Pipeline.antt =====
-- internal/logging/logging.go: the pipeline that numbers each record and gives it to the console, the
-- file, the ring and the feeds. A method is one step; the callbacks and the consumers act between them.
pub mod Kept
pub mod Steps
pub mod Reads
mod Examples
use hfdesk.Base.{
  ℕ, zero, suc, ◌+◌, ◌%◌, ◌^◌, Bool, true, false, ◌&&◌, ◌||◌, ◌==◌, Option, none, some, List, [],
  ◌∷◌, ◌++◌, map, if◌then◌else◌, ℤ, pos, is_neg, pos_part, Bytes,
}
use hfdesk.Logging.Ring.{Record, RingSink, new_ring_sink, append}
use hfdesk.Logging.Files.{Disk, Faults, FileSink, new_file_sink, write_line, close_sink}
use hfdesk.Logging.Feed.{Subscription, new_subscription, send, receive, close_subscription}

pub record Options : Type 0 where
  pub level : ℤ
  pub console : Bool
  pub file : Bool
  pub file_max_size : ℤ
  pub file_max_backups : ℤ
  pub ring_capacity : ℤ
  pub subscription_buffer : ℤ

pub data SinkError : Type 0 where
  console_failed file_failed : SinkError

-- A feed, and whether the pipeline has it in its map.
pub record Subscribed (V : Type 0) : Type 0 where
  pub subscription : Subscription V
  pub registered : Bool

-- A callback has a name; `calls` are the callbacks that were started, with the error that they got.
pub record Pipeline (V : Type 0) : Type 0 where
  pub level : ℤ
  pub console : Bool
  pub file : Option FileSink
  pub ring : RingSink V
  pub seq : ℕ
  pub subs : List (Subscribed V)
  pub sub_buffer : ℤ
  pub err : Option SinkError
  pub err_hooks : List ℕ
  pub calls : List (ℕ × SinkError)

abbrev pub not_positive : ℤ → Bool
not_positive n = is_neg n || pos_part n == 0

-- What one record meets: the line of the encoder, if it gives one, and what fails.
pub record Weather : Type 0 where
  pub encoded : Option Bytes
  pub console_fails : Bool
  pub faults : Faults

module _ {V : Type 0} where
  -- The pipeline that `New` makes, with the file that it opened.
  unfoldable pub made : Options → Option FileSink → Pipeline V
  made opts file = record {
    level = opts.level;
    console = opts.console;
    file = file;
    ring = new_ring_sink (if not_positive opts.ring_capacity then pos 500 else opts.ring_capacity);
    seq = 0;
    subs = [];
    sub_buffer =
        if not_positive opts.subscription_buffer then pos 256 else opts.subscription_buffer;
    err = none;
    err_hooks = [];
    calls = [];
  }

  -- `New`, with the file at a path that is not empty.
  unfoldable pub new_pipeline : Options → Disk → Faults → Option (Pipeline V)
  unfolding made
  new_pipeline opts disk f =
      let size = if not_positive opts.file_max_size then 5242880 else pos_part opts.file_max_size in
      let backups = if is_neg opts.file_max_backups then 3 else pos_part opts.file_max_backups in
      if opts.file
      then elim (new_file_sink size backups disk f) [
        | none ↦ none
        | some sink ↦ some (made opts (some sink))
      ]
      else some (made opts none)

  -- `recordErr`.
  unfoldable pub record_sink_err : SinkError → Pipeline V → Pipeline V
  record_sink_err e p = elim p.err [
    | none ↦ record p { err = some e; calls = p.calls ++ map (λ hook. (hook, e)) p.err_hooks }
    | some first ↦ p
  ]

  unfoldable pub on_error : ℕ → Pipeline V → Pipeline V
  on_error hook p =
      let watched = record p { err_hooks = p.err_hooks ++ hook ∷ [] } in
      elim p.err [ none ↦ watched | some e ↦ record watched { calls = p.calls ++ (hook, e) ∷ [] } ]

  unfoldable pub write_console : Bool → Pipeline V → Pipeline V
  unfolding record_sink_err
  write_console fails p = if p.console && fails then record_sink_err console_failed p else p

  -- The write of an encoded line into the file sink.
  unfoldable pub write_sink : Faults → Bytes → FileSink → Pipeline V → Pipeline V
  unfolding record_sink_err
  write_sink f line sink p =
      let o = write_line f line sink in
      let written = record p { file = some o.sink } in
      if o.failed then record_sink_err file_failed written else written

  unfoldable pub write_file : Weather → Pipeline V → Pipeline V
  unfolding write_sink record_sink_err
  write_file w p = elim p.file [
    | none ↦ p
    | some sink ↦ elim w.encoded [
      | none ↦ record_sink_err file_failed p
      | some line ↦ write_sink w.faults line sink p
    ]
  ]

  unfoldable pub broadcast : Record V → Pipeline V → Pipeline V
  broadcast rec p = record p {
    subs =
        map (λ s. if s.registered then record s { subscription = send rec s.subscription } else s)
          p.subs;
  }

  unfoldable pub emit : Weather → Record V → Pipeline V → Pipeline V
  unfolding write_console write_file broadcast
  emit w rec p =
      let seq = (p.seq + 1) % 2 ^ 64 in
      let numbered = record rec { seq = seq } in
      let written = write_file w (write_console w.console_fails (record p { seq = seq })) in
      broadcast numbered (record written { ring = append written.ring numbered })

  unfoldable pub subscribe : Pipeline V → Pipeline V
  subscribe p = record p {
    subs =
        p.subs ++ (record { subscription = new_subscription p.sub_buffer; registered = true }) ∷ [];
  }

  abbrev pub change_at :
      ℕ → (Subscribed V → Subscribed V) → List (Subscribed V) → List (Subscribed V)
  change_at i f [] = []
  change_at zero f (s ∷ subs) = f s ∷ subs
  change_at (suc i) f (s ∷ subs) = s ∷ change_at i f subs

  -- The consumer of feed `i` receives a record, or closes the feed, which takes it out of the map.
  unfoldable pub receive_at : ℕ → Pipeline V → Pipeline V
  receive_at i p = record p {
    subs = change_at i (λ s. record s { subscription = (receive s.subscription).1 }) p.subs;
  }

  unfoldable pub close_at : ℕ → Pipeline V → Pipeline V
  close_at i p = record p {
    subs =
        change_at i
          (λ s. record { subscription = close_subscription s.subscription; registered = false })
          p.subs;
  }

  unfoldable pub set_level : ℤ → Pipeline V → Pipeline V
  set_level level p = record p { level = level }

  unfoldable pub close_pipeline : Pipeline V → Pipeline V
  close_pipeline p = elim p.file [
    | none ↦ p
    | some sink ↦ record p { file = some (close_sink sink) }
  ]

-- What happens to a pipeline, in the order of the locks.
pub data PipelineStep (V : Type 0) : Type 0 where
  emits : Weather → Record V → PipelineStep V
  watches : ℕ → PipelineStep V
  receives_at closes_at : ℕ → PipelineStep V
  sets_level : ℤ → PipelineStep V
  subscribes closes_pipeline : PipelineStep V

module _ {V : Type 0} where
  unfoldable pub take_step : PipelineStep V → Pipeline V → Pipeline V
  unfolding emit on_error receive_at close_at set_level subscribe close_pipeline
  take_step (emits w rec) p = emit w rec p
  take_step (watches hook) p = on_error hook p
  take_step (receives_at i) p = receive_at i p
  take_step (closes_at i) p = close_at i p
  take_step (sets_level level) p = set_level level p
  take_step subscribes p = subscribe p
  take_step closes_pipeline p = close_pipeline p

  unfoldable pub take_steps : List (PipelineStep V) → Pipeline V → Pipeline V
  unfolding take_step
  take_steps [] p = p
  take_steps (step ∷ steps) p = take_steps steps (take_step step p)

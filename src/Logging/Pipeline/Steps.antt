-- ===== src/Logging/Pipeline/Steps.antt =====
-- What one step of the pipeline of internal/logging/logging.go leaves.
use hfdesk.Base.{
  subst, true, false, not, ◌||◌, ℕ, ◌+◌, ◌%◌, ◌^◌, ◌≡◌, refl, sym, ap, Bool, ◌&&◌, Option, none,
  some, List, [], ◌∷◌, ◌++◌,
}
use hfdesk.Logging.Ring.{Record, append}
use hfdesk.Logging.Pipeline.{
  Pipeline, Weather, broadcast, emit, subscribe, receive_at, close_at, set_level, PipelineStep,
  emits, watches, receives_at, closes_at, sets_level, subscribes, closes_pipeline, take_step,
}
use hfdesk.Logging.Pipeline.Kept.{
  IsWatched, IsKept, is_set, kept, written-IsKept, written-set, on_error-IsKept,
  close_pipeline-IsKept,
}

module _ {V : Type 0} where
  -- The record that a step emits.
  abbrev pub emitted_by : PipelineStep V → Option (Record V)
  emitted_by (emits w rec) = some rec
  emitted_by (watches hook) = none
  emitted_by (receives_at i) = none
  emitted_by (closes_at i) = none
  emitted_by (sets_level level) = none
  emitted_by subscribes = none
  emitted_by closes_pipeline = none

  -- The callback that a step registers.
  abbrev pub hooks_of : PipelineStep V → List ℕ
  hooks_of (emits w rec) = []
  hooks_of (watches hook) = hook ∷ []
  hooks_of (receives_at i) = []
  hooks_of (closes_at i) = []
  hooks_of (sets_level level) = []
  hooks_of subscribes = []
  hooks_of closes_pipeline = []

  -- A record that a console does not take, or that has no line for a file.
  abbrev pub meets_error : Bool → Bool → PipelineStep V → Bool
  meets_error console file (emits w rec) =
      (console && w.console_fails) || (file && not (is_set w.encoded))
  meets_error console file (watches hook) = false
  meets_error console file (receives_at i) = false
  meets_error console file (closes_at i) = false
  meets_error console file (sets_level level) = false
  meets_error console file subscribes = false
  meets_error console file closes_pipeline = false

  -- The ring and the number stay, or they take the record that is emitted.
  unfoldable pub HasRecorded : Option (Record V) → Pipeline V → Pipeline V → Type 0
  HasRecorded none p q = (q.ring ≡ p.ring) × (q.seq ≡ p.seq)
  HasRecorded (some rec) p q =
      let seq = (p.seq + 1) % 2 ^ 64 in
      (q.ring ≡ append p.ring (record rec { seq = seq })) × (q.seq ≡ seq)

  -- What a step leaves.
  pub record HasStepped (step : PipelineStep V) (p q : Pipeline V) : Type 0 where
    pub console_kept : q.console ≡ p.console
    pub file_kept : is_set q.file ≡ is_set p.file
    pub hooks_kept : q.err_hooks ≡ p.err_hooks ++ hooks_of step
    pub err_kept : is_set p.err ≡ true → q.err ≡ p.err
    pub err_met : meets_error p.console (is_set p.file) step ≡ true → is_set q.err ≡ true
    pub watched : IsWatched p → IsWatched q
    pub recorded : HasRecorded (emitted_by step) p q

  emit-HasStepped :
      (w : Weather) (rec : Record V) (p : Pipeline V) → HasStepped (emits w rec) p (emit w rec p)
  unfolding emit broadcast HasRecorded
  emit-HasStepped w rec p =
      let seq = (p.seq + 1) % 2 ^ 64 in
      let h = written-IsKept w (record p { seq = seq }) in
      record {
        console_kept = h.console_kept;
        file_kept = h.file_kept;
        hooks_kept = h.hooks_kept;
        err_kept = h.err_kept;
        err_met = λ e. written-set w (record p { seq = seq }) e;
        watched = h.watched;
        recorded = (ap (λ r. append r (record rec { seq = seq })) h.ring_kept, h.seq_kept);
      }

  kept-HasStepped :
      (step : PipelineStep V) (p q : Pipeline V)
      → emitted_by step ≡ none
      → ((console file : Bool) → meets_error console file step ≡ false)
      → IsKept (hooks_of step) p q
      → HasStepped step p q
  unfolding HasRecorded
  kept-HasStepped step p q silent calm h = record {
    console_kept = h.console_kept;
    file_kept = h.file_kept;
    hooks_kept = h.hooks_kept;
    err_kept = h.err_kept;
    err_met = λ e. absurd (cc (e, calm p.console (is_set p.file)));
    watched = h.watched;
    recorded = subst (λ o. HasRecorded o p q) (sym silent) (h.ring_kept, h.seq_kept);
  }

  pub take_step-HasStepped :
      (step : PipelineStep V) (p : Pipeline V) → HasStepped step p (take_step step p)
  unfolding take_step receive_at close_at set_level subscribe
  take_step-HasStepped (emits w rec) p = emit-HasStepped w rec p
  take_step-HasStepped (watches hook) p =
      kept-HasStepped (watches hook) p _ refl (λ c f. refl) (on_error-IsKept hook p)
  take_step-HasStepped (receives_at i) p =
      kept-HasStepped (receives_at i) p _ refl (λ c f. refl)
        (kept p _ refl refl refl refl refl refl refl)
  take_step-HasStepped (closes_at i) p =
      kept-HasStepped (closes_at i) p _ refl (λ c f. refl)
        (kept p _ refl refl refl refl refl refl refl)
  take_step-HasStepped (sets_level level) p =
      kept-HasStepped (sets_level level) p _ refl (λ c f. refl)
        (kept p _ refl refl refl refl refl refl refl)
  take_step-HasStepped subscribes p =
      kept-HasStepped subscribes p _ refl (λ c f. refl)
        (kept p _ refl refl refl refl refl refl refl)
  take_step-HasStepped closes_pipeline p =
      kept-HasStepped closes_pipeline p _ refl (λ c f. refl) (close_pipeline-IsKept p)

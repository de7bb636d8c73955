-- ===== src/Logging/Pipeline/Kept.antt =====
-- What the steps of the pipeline of internal/logging/logging.go keep, and which callbacks they start.
use hfdesk.Base.{
  arith, Bool-cases, inl, inr, append-nil, true, false, not, ◌||◌, ℕ, ◌≡◌, refl, sym, ap, ◌∙◌, Bool,
  ◌&&◌, Option, none, some, List, [], ◌∷◌, ◌++◌, map, if-rule, Bytes,
}
use hfdesk.Logging.Files.{Faults, FileSink, write_line, close_sink}
use hfdesk.Logging.Pipeline.{
  SinkError, console_failed, file_failed, Pipeline, Weather, record_sink_err, on_error,
  write_console, write_sink, write_file, close_pipeline,
}

abbrev with_error : SinkError → List ℕ → List (ℕ × SinkError)
with_error e hooks = map (λ hook. (hook, e)) hooks

-- The callbacks that are due: none before an error, and every one with the first error after it.
abbrev pub calls_due : Option SinkError → List ℕ → List (ℕ × SinkError)
calls_due none hooks = []
calls_due (some e) hooks = map (λ hook. (hook, e)) hooks

with_error-snoc :
    (e : SinkError) (hooks : List ℕ) (hook : ℕ)
    → with_error e (hooks ++ hook ∷ []) ≡ with_error e hooks ++ (hook, e) ∷ []
with_error-snoc e [] hook = refl
with_error-snoc e (h ∷ hooks) hook = ap (λ t. (h, e) ∷ t) (with_error-snoc e hooks hook)

abbrev pub is_set : {A : Type 0} → Option A → Bool
is_set none = false
is_set (some x) = true

module _ {V : Type 0} where
  abbrev pub IsWatched : Pipeline V → Type 0
  IsWatched p = p.calls ≡ calls_due p.err p.err_hooks

  -- Nothing is emitted: the ring, the number and the sinks stay, and so does an error; `hooks` are
  -- registered, and the callbacks that are due are started.
  pub record IsKept (hooks : List ℕ) (p q : Pipeline V) : Type 0 where
    pub console_kept : q.console ≡ p.console
    pub file_kept : is_set q.file ≡ is_set p.file
    pub hooks_kept : q.err_hooks ≡ p.err_hooks ++ hooks
    pub err_kept : is_set p.err ≡ true → q.err ≡ p.err
    pub ring_kept : q.ring ≡ p.ring
    pub seq_kept : q.seq ≡ p.seq
    pub watched : IsWatched p → IsWatched q

  pub kept :
      (p q : Pipeline V)
      → q.console ≡ p.console
      → is_set q.file ≡ is_set p.file
      → q.err_hooks ≡ p.err_hooks
      → q.err ≡ p.err
      → q.ring ≡ p.ring
      → q.seq ≡ p.seq
      → q.calls ≡ p.calls
      → IsKept [] p q
  kept p q console file hooks err ring seq calls = record {
    console_kept = console;
    file_kept = file;
    hooks_kept = hooks ∙ sym (append-nil p.err_hooks);
    err_kept = λ h. err;
    ring_kept = ring;
    seq_kept = seq;
    watched = λ w. cc (w, err, hooks, calls);
  }

  same : (p : Pipeline V) → IsKept [] p p
  same p = kept p p refl refl refl refl refl refl refl

  both : (p q r : Pipeline V) → IsKept [] p q → IsKept [] q r → IsKept [] p r
  both p q r h k = record {
    console_kept = k.console_kept ∙ h.console_kept;
    file_kept = k.file_kept ∙ h.file_kept;
    hooks_kept = k.hooks_kept ∙ (append-nil q.err_hooks ∙ h.hooks_kept);
    err_kept = λ e. let first = h.err_kept e in k.err_kept (ap is_set first ∙ e) ∙ first;
    ring_kept = k.ring_kept ∙ h.ring_kept;
    seq_kept = k.seq_kept ∙ h.seq_kept;
    watched = λ w. k.watched (h.watched w);
  }

  record_sink_err-IsKept : (e : SinkError) (p : Pipeline V) → IsKept [] p (record_sink_err e p)
  unfolding record_sink_err
  record_sink_err-IsKept e p = go p.err refl
    where
      go :
          (o : Option SinkError)
          → p.err ≡ o
          → IsKept [] p (elim o [
            | none ↦ record p {
              err = some e;
              calls = p.calls ++ map (λ hook. (hook, e)) p.err_hooks;
            }
            | some first ↦ p
          ])
      go none f = record {
        console_kept = refl;
        file_kept = refl;
        hooks_kept = sym (append-nil p.err_hooks);
        err_kept = λ h. absurd (cc (h, f));
        ring_kept = refl;
        seq_kept = refl;
        watched = λ w.
            ap (λ t. t ++ map (λ hook. (hook, e)) p.err_hooks)
              (w ∙ ap (λ o. calls_due o p.err_hooks) f);
      }
      go (some first) f = same p

  record_sink_err-set : (e : SinkError) (p : Pipeline V) → is_set (record_sink_err e p).err ≡ true
  unfolding record_sink_err
  record_sink_err-set e p = go p.err refl
    where
      go :
          (o : Option SinkError)
          → p.err ≡ o
          → is_set
              (elim o as (λ _. Pipeline V) [
                | none ↦ record p {
                  err = some e;
                  calls = p.calls ++ map (λ hook. (hook, e)) p.err_hooks;
                }
                | some first ↦ p
              ]).err
            ≡ true
      go none f = refl
      go (some first) f = ap is_set f

  write_console-IsKept : (fails : Bool) (p : Pipeline V) → IsKept [] p (write_console fails p)
  unfolding write_console
  write_console-IsKept fails p =
      if-rule (IsKept [] p) (p.console && fails) _ p (λ _. record_sink_err-IsKept console_failed p)
        (λ _. same p)

  write_console-set :
      (fails : Bool) (p : Pipeline V)
      → p.console && fails ≡ true
      → is_set (write_console fails p).err ≡ true
  unfolding write_console
  write_console-set fails p h =
      if-rule (λ (q : Pipeline V). is_set q.err ≡ true) (p.console && fails) _ p
        (λ _. record_sink_err-set console_failed p) (λ e. absurd (cc (e, h)))

  write_sink-IsKept :
      (f : Faults) (line : Bytes) (sink : FileSink) (p : Pipeline V)
      → is_set p.file ≡ true
      → IsKept [] p (write_sink f line sink p)
  unfolding write_sink
  write_sink-IsKept f line sink p has =
      let o = write_line f line sink in
      let written = record p { file = some o.sink } in
      let first : IsKept [] p written = kept p written refl (sym has) refl refl refl refl refl in
      if-rule (IsKept [] p) o.failed _ written
        (λ _. both p written _ first (record_sink_err-IsKept file_failed written)) (λ _. first)

  abbrev written_to : Weather → Pipeline V → Option FileSink → Option Bytes → Pipeline V
  written_to w p file encoded = elim file [
    | none ↦ p
    | some sink ↦ elim encoded [
      | none ↦ record_sink_err file_failed p
      | some line ↦ write_sink w.faults line sink p
    ]
  ]

  write_file-IsKept : (w : Weather) (p : Pipeline V) → IsKept [] p (write_file w p)
  unfolding write_file
  write_file-IsKept w p = go p.file w.encoded refl
    where
      go :
          (file : Option FileSink) (encoded : Option Bytes)
          → p.file ≡ file
          → IsKept [] p (written_to w p file encoded)
      go none encoded e = same p
      go (some sink) none e = record_sink_err-IsKept file_failed p
      go (some sink) (some line) e = write_sink-IsKept w.faults line sink p (ap is_set e)

  write_file-set :
      (w : Weather) (p : Pipeline V)
      → is_set p.file && not (is_set w.encoded) ≡ true
      → is_set (write_file w p).err ≡ true
  unfolding write_file
  write_file-set w p h = go p.file w.encoded h
    where
      go :
          (file : Option FileSink) (encoded : Option Bytes)
          → is_set file && not (is_set encoded) ≡ true
          → is_set (written_to w p file encoded).err ≡ true
      go none encoded k = absurd (cc k)
      go (some sink) none k = record_sink_err-set file_failed p
      go (some sink) (some line) k = absurd (cc k)

  -- The sinks that come before the ring.
  pub written-IsKept :
      (w : Weather) (p : Pipeline V) → IsKept [] p (write_file w (write_console w.console_fails p))
  written-IsKept w p =
      both p (write_console w.console_fails p) _ (write_console-IsKept w.console_fails p)
        (write_file-IsKept w (write_console w.console_fails p))

  pub written-set :
      (w : Weather) (p : Pipeline V)
      → (p.console && w.console_fails) || (is_set p.file && not (is_set w.encoded)) ≡ true
      → is_set (write_file w (write_console w.console_fails p)).err ≡ true
  written-set w p h =
      let shown = write_console w.console_fails p in
      let kept_shown = write_console-IsKept w.console_fails p in
      let kept_written = write_file-IsKept w shown in
      elim (Bool-cases (p.console && w.console_fails)) [
        | inl failed ↦
            (let set = write_console-set w.console_fails p failed in
              ap is_set (kept_written.err_kept set) ∙ set)
        | inr fine ↦
            write_file-set w shown
              (ap (λ b. b && not (is_set w.encoded)) kept_shown.file_kept ∙ ground (arith, fine, h))
      ]

  pub on_error-IsKept : (hook : ℕ) (p : Pipeline V) → IsKept (hook ∷ []) p (on_error hook p)
  unfolding on_error
  on_error-IsKept hook p = go p.err refl
    where
      go :
          (o : Option SinkError)
          → p.err ≡ o
          → IsKept (hook ∷ []) p (elim o [
            | none ↦ record p { err_hooks = p.err_hooks ++ hook ∷ [] }
            | some e ↦ record p {
              err_hooks = p.err_hooks ++ hook ∷ [];
              calls = p.calls ++ (hook, e) ∷ [];
            }
          ])
      go none f = record {
        console_kept = refl;
        file_kept = refl;
        hooks_kept = refl;
        err_kept = λ h. refl;
        ring_kept = refl;
        seq_kept = refl;
        watched = λ w.
            w
            ∙ (ap (λ o. calls_due o p.err_hooks) f
                ∙ sym (ap (λ o. calls_due o (p.err_hooks ++ hook ∷ [])) f));
      }
      go (some e) f = record {
        console_kept = refl;
        file_kept = refl;
        hooks_kept = refl;
        err_kept = λ h. refl;
        ring_kept = refl;
        seq_kept = refl;
        watched = λ w.
            ap (λ t. t ++ (hook, e) ∷ []) (w ∙ ap (λ o. calls_due o p.err_hooks) f)
            ∙ (sym (with_error-snoc e p.err_hooks hook)
                ∙ sym (ap (λ o. calls_due o (p.err_hooks ++ hook ∷ [])) f));
      }

  pub close_pipeline-IsKept : (p : Pipeline V) → IsKept [] p (close_pipeline p)
  unfolding close_pipeline
  close_pipeline-IsKept p = go p.file refl
    where
      go :
          (file : Option FileSink)
          → p.file ≡ file
          → IsKept [] p
              (elim file [ none ↦ p | some sink ↦ record p { file = some (close_sink sink) } ])
      go none e = same p
      go (some sink) e = kept p _ refl (sym (ap is_set e)) refl refl refl refl refl

-- ===== src/Logging/Pipeline/Reads.antt =====
-- What the readers and the callbacks of the pipeline of internal/logging/logging.go get.
use Prim.Native.Nat.{max}
use hfdesk.Base.{
  true, sym, ◌++◌, append-nil, append_assoc, Bool-cases, inl, inr, any, ℕ, zero, suc, ◌+◌, ◌-◌, ◌%◌,
  ◌^◌, ◌<◌, ◌≡◌, refl, ap, ◌∙◌, subst, ◌||◌, Option, none, some, List, [], ◌∷◌, arith, ltb,
  if◌then◌else◌, if-rule, length, drop, ℤ, pos, negsuc, pos_part,
}
use hfdesk.Logging.Ring.{Record, Order, new_ring_sink, append, records, in_order}
use hfdesk.Logging.Ring.Reads.{append_all, Numbered}
use hfdesk.Logging.Ring.Marks.{records_complete}
use hfdesk.Logging.Files.{Disk, Faults, FileSink, new_file_sink}
use hfdesk.Logging.Pipeline.{
  Options, Pipeline, not_positive, made, new_pipeline, PipelineStep, take_step, take_steps,
}
use hfdesk.Logging.Pipeline.Steps.{
  HasRecorded, emitted_by, hooks_of, meets_error, take_step-HasStepped,
}
use hfdesk.Logging.Pipeline.Kept.{is_set, IsWatched, calls_due}

-- The size of the ring that the options give.
abbrev pub ring_size : ℤ → ℕ
ring_size capacity = if not_positive capacity then 500 else pos_part capacity

ring_size-positive : (capacity : ℤ) → 0 < ring_size capacity
ring_size-positive (pos zero) = omega arith
ring_size-positive (pos (suc n)) = grind arith
ring_size-positive (negsuc n) = omega arith

pos-ring_size :
    (capacity : ℤ)
    → (if not_positive capacity then pos 500 else capacity) ≡ pos (ring_size capacity)
pos-ring_size (pos zero) = refl
pos-ring_size (pos (suc n)) = grind arith
pos-ring_size (negsuc n) = refl

module _ {V : Type 0} where
  abbrev pub numbered : ℕ → List (Record V) → List (Record V)
  numbered n [] = []
  numbered n (rec ∷ recs) = record rec { seq = suc n } ∷ numbered (suc n) recs

  numbered-Numbered : (n : ℕ) (recs : List (Record V)) → Numbered n (numbered n recs)
  numbered-Numbered n [] = tt
  numbered-Numbered n (rec ∷ recs) = (refl, numbered-Numbered (suc n) recs)

  length-numbered : (n : ℕ) (recs : List (Record V)) → length (numbered n recs) ≡ length recs
  length-numbered n [] = refl
  length-numbered n (rec ∷ recs) = ap suc (length-numbered (suc n) recs)

  abbrev and_emitted : Option (Record V) → List (Record V) → List (Record V)
  and_emitted none recs = recs
  and_emitted (some rec) recs = rec ∷ recs

  -- The records that steps emit, in order.
  abbrev pub emitted : List (PipelineStep V) → List (Record V)
  emitted [] = []
  emitted (step ∷ steps) = and_emitted (emitted_by step) (emitted steps)

  take_steps-ring :
      (steps : List (PipelineStep V)) (p : Pipeline V)
      → p.seq + length (emitted steps) < 2 ^ 64
      → (take_steps steps p).ring ≡ append_all p.ring (numbered p.seq (emitted steps))
  unfolding take_steps append_all HasRecorded
  take_steps-ring [] p small = refl
  take_steps-ring (step ∷ steps) p small =
      go (emitted_by step) (take_step step p) (take_step-HasStepped step p).recorded small
        (take_steps-ring steps (take_step step p))
    where
      go :
          (o : Option (Record V)) (q : Pipeline V)
          → HasRecorded o p q
          → p.seq + length (and_emitted o (emitted steps)) < 2 ^ 64
          → (q.seq + length (emitted steps) < 2 ^ 64
              → (take_steps steps q).ring ≡ append_all q.ring (numbered q.seq (emitted steps)))
          → (take_steps steps q).ring
            ≡ append_all p.ring (numbered p.seq (and_emitted o (emitted steps)))
      go none q (ring, seq_kept) small rest =
          rest (omega (arith, small, seq_kept))
          ∙ (ap (λ r. append_all r (numbered q.seq (emitted steps))) ring
              ∙ ap (λ n. append_all p.ring (numbered n (emitted steps))) seq_kept)
      go (some rec) q (ring, seq) small rest =
          let next : (p.seq + 1) % 2 ^ 64 ≡ suc p.seq = omega (arith, small) in
          rest (omega (arith, small, seq))
          ∙ (ap (λ r. append_all r (numbered q.seq (emitted steps))) ring
              ∙ (ap
                    (λ n.
                      append_all (append p.ring (record rec { seq = (p.seq + 1) % 2 ^ 64 }))
                        (numbered n (emitted steps)))
                    (seq ∙ next)
                  ∙ ap
                      (λ n.
                        append_all (append p.ring (record rec { seq = n }))
                          (numbered (suc p.seq) (emitted steps)))
                      next))

  -- The callbacks that steps register, in order.
  abbrev pub registered : List (PipelineStep V) → List ℕ
  registered [] = []
  registered (step ∷ steps) = hooks_of step ++ registered steps

  -- What a history leaves.
  record HasRun (steps : List (PipelineStep V)) (p q : Pipeline V) : Type 0 where
    hooks : q.err_hooks ≡ p.err_hooks ++ registered steps
    err_kept : is_set p.err ≡ true → q.err ≡ p.err
    err_met : any (meets_error p.console (is_set p.file)) steps ≡ true → is_set q.err ≡ true
    watched : IsWatched p → IsWatched q

  take_steps-HasRun :
      (steps : List (PipelineStep V)) (p : Pipeline V) → HasRun steps p (take_steps steps p)
  unfolding take_steps
  take_steps-HasRun [] p = record {
    hooks = sym (append-nil p.err_hooks);
    err_kept = λ e. refl;
    err_met = λ e. absurd (cc e);
    watched = λ w. w;
  }
  take_steps-HasRun (step ∷ steps) p =
      let first = take_step-HasStepped step p in
      let rest = take_steps-HasRun steps (take_step step p) in
      record {
        hooks =
            rest.hooks
            ∙ (ap (λ hs. hs ++ registered steps) first.hooks_kept
                ∙ append_assoc p.err_hooks (hooks_of step) (registered steps));
        err_kept = λ e. let now = first.err_kept e in rest.err_kept (ap is_set now ∙ e) ∙ now;
        err_met = λ e. elim (Bool-cases (meets_error p.console (is_set p.file) step)) [
          | inl now ↦ (let set = first.err_met now in ap is_set (rest.err_kept set) ∙ set)
          | inr not_now ↦ rest.err_met (
              ap (λ c. any (meets_error c (is_set (take_step step p).file)) steps)
                first.console_kept
              ∙ (ap (λ f. any (meets_error p.console f) steps) first.file_kept ∙ cc (e, not_now)))
        ];
        watched = λ w. rest.watched (first.watched w);
      }

  -- A pipeline that has just been made.
  record IsNew (opts : Options) (p : Pipeline V) : Type 0 where
    ring : p.ring ≡ new_ring_sink (pos (ring_size opts.ring_capacity))
    seq : p.seq ≡ 0
    console : p.console ≡ opts.console
    file : is_set p.file ≡ opts.file
    hooks : p.err_hooks ≡ []
    watched : IsWatched p

  abbrev AreNew : Options → Option (Pipeline V) → Type 0
  AreNew opts none = Unit
  AreNew opts (some p) = IsNew opts p

  made-IsNew :
      (opts : Options) (file : Option FileSink)
      → is_set file ≡ opts.file
      → IsNew opts (made opts file)
  unfolding made
  made-IsNew opts file has = record {
    ring = ap new_ring_sink (pos-ring_size opts.ring_capacity);
    seq = refl;
    console = refl;
    file = has;
    hooks = refl;
    watched = refl;
  }

  new_pipeline-IsNew :
      (opts : Options) (disk : Disk) (f : Faults) (p : Pipeline V)
      → new_pipeline opts disk f ≡ some p
      → IsNew opts p
  unfolding new_pipeline
  new_pipeline-IsNew opts disk f p e = subst (AreNew opts) e (
      if-rule (AreNew opts) opts.file _ _ (λ e. go e (new_file_sink _ _ disk f))
        (λ e. made-IsNew opts none (sym e)))
    where
      go :
          opts.file ≡ true
          → (o : Option FileSink)
          → AreNew opts (elim o [ none ↦ none | some sink ↦ some (made opts (some sink)) ])
      go e none = tt
      go e (some sink) = made-IsNew opts (some sink) (sym e)

  -- Whatever else happens to a new pipeline, and whatever sinks fail: after fewer than 2^64 records, every
  -- cursor is answered with exactly those emitted records after it, numbered from 1, that are among the
  -- newest that the ring holds, in the asked order, and truncation is reported exactly when the cursor
  -- lies ahead of the last record or a record after it was dropped.
  pub take_steps-Reads :
      (opts : Options) (disk : Disk) (f : Faults) (p : Pipeline V) (steps : List (PipelineStep V))
      → new_pipeline opts disk f ≡ some p
      → length (emitted steps) < 2 ^ 64
      → (after : ℕ) (order : Order)
      → records (take_steps steps p).ring after order ≡ (
        in_order order (
            drop
              (max after (length (emitted steps) - ring_size opts.ring_capacity))
              (numbered 0 (emitted steps))),
        ltb (length (emitted steps)) after
            || ltb after (length (emitted steps) - ring_size opts.ring_capacity),
      )
  take_steps-Reads opts disk f p steps fresh small after order =
      let cap = ring_size opts.ring_capacity in
      let recs = emitted steps in
      let xs = numbered 0 recs in
      let start = new_pipeline-IsNew opts disk f p fresh in
      let started = start.seq in
      let size = length-numbered 0 recs in
      let ring : (take_steps steps p).ring ≡ append_all (new_ring_sink (pos cap)) xs =
        take_steps-ring steps p (omega (arith, small, started))
        ∙ (ap (λ r. append_all r (numbered p.seq recs)) start.ring
            ∙ ap (λ n. append_all (new_ring_sink (pos cap)) (numbered n recs)) started) in
      ap (λ r. records r after order) ring
      ∙ subst
          (λ n.
            records (append_all (new_ring_sink (pos cap)) xs) after order
            ≡ (in_order order (drop (max after (n - cap)) xs), ltb n after || ltb after (n - cap)))
          size
          (records_complete cap xs (ring_size-positive opts.ring_capacity)
            (numbered-Numbered 0 recs) (omega (arith, small, size)) after order)

  -- In every history of a new pipeline: if there is an error, then every callback that was registered,
  -- before or after it, is started once for each time, with that error, in the order in which they were
  -- registered, and no other; without an error none is started. There is an error if a record met a console
  -- that failed, or a file and no line for it.
  pub take_steps-watched :
      (opts : Options) (disk : Disk) (f : Faults) (p : Pipeline V) (steps : List (PipelineStep V))
      → new_pipeline opts disk f ≡ some p
      → ((take_steps steps p).calls ≡ calls_due (take_steps steps p).err (registered steps))
        × (any (meets_error opts.console opts.file) steps ≡ true
            → is_set (take_steps steps p).err ≡ true)
  take_steps-watched opts disk f p steps fresh =
      let start = new_pipeline-IsNew opts disk f p fresh in
      let run = take_steps-HasRun steps p in
      (
        run.watched start.watched
            ∙ ap (λ hs. calls_due (take_steps steps p).err hs)
                (run.hooks ∙ ap (λ hs. hs ++ registered steps) start.hooks),
        λ e. run.err_met (
            ap (λ c. any (meets_error c (is_set p.file)) steps) start.console
            ∙ (ap (λ b. any (meets_error opts.console b) steps) start.file ∙ e)),
      )

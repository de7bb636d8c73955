-- ===== src/Logging/Ring/Marks.antt =====
-- The sequence numbers that internal/logging/ring.go keeps beside its buffer, and what a reader
-- gets for a cursor.
use Prim.Native.Nat.{max}
use native.Mathlib.Nat.{mod-eq_of_lt}
use hfdesk.Base.{
  ℕ, zero, suc, ◌+◌, ◌-◌, ◌%◌, ◌^◌, ◌≤◌, ◌<◌, ◌≡◌, refl, sym, ap, ◌∙◌, inl, inr, Bool, ◌||◌, subst,
  List, [], ◌∷◌, arith, ltb, if◌then◌else◌, Bool-cases, length, drop, get_or-set_self, ltb→lt, ◌==◌,
  length-drop, drop_of_length-le, drop-drop, pos, get_or,
}
use hfdesk.Logging.Ring.{
  Record, Order, oldest_first, recent_first, RingSink, new_ring_sink, append, collect, in_order,
  records, zero_record,
}
use hfdesk.Logging.Ring.Window.{
  IsValid, contents, window, length-window, append-IsValid, append_room, append_full,
  new_ring_sink-IsValid,
}
use hfdesk.Logging.Ring.Reads.{
  append_all, Numbered, append-capacity, ring_keeps_newest, collect-keep_if, keep_if-Numbered,
  Numbered-drop,
}

module _ {V : Type 0} where
  -- The bookkeeping after an append.
  append-newest : (r : RingSink V) (x : Record V) → 0 < r.capacity → (append r x).newest ≡ x.seq
  unfolding append
  append-newest r x live = ground arith

  -- The oldest number is that of the first retained record.
  abbrev OldestMarked : RingSink V → Type 0
  OldestMarked r =
      0 < r.count → r.oldest ≡ (get_or r.buf ((r.start + 0) % r.capacity) zero_record).seq

  append-oldest :
      (r : RingSink V) (x : Record V)
      → 0 < r.capacity
      → let s = append r x in
        s.oldest ≡ (
          if ltb 1 s.count
          then (get_or s.buf s.start zero_record).seq
          else (if s.count == 1 then x.seq else r.oldest))
  unfolding append
  append-oldest r x live = ground arith

  -- A ring of one record holds the record that was just written.
  append_single :
      (r : RingSink V) (x : Record V)
      → IsValid r
      → 0 < r.capacity
      → (append r x).count ≡ 1
      → get_or (append r x).buf (append r x).start zero_record ≡ x
  append_single r x v live single = elim (Bool-cases (ltb r.count r.capacity)) [
    | inl room ↦
        let (ecap, estart, ecount, ebuf) = append_room r x v (ltb→lt _ _ room) in
        let here : (r.start + r.count) % r.capacity ≡ r.start =
          mod-eq_of_lt (omega (arith, v.start_in_range live)) ∙ omega arith in
        rw (ebuf, estart, here)
          (get_or-set_self r.buf r.start x zero_record (omega (arith, v.start_in_range live)))
    | inr full ↦
        let (ecap, estart, ecount, ebuf) = append_full r x live (ground (arith, v)) in
        let here : (r.start + 1) % r.capacity ≡ r.start =
          grind (arith, v.start_in_range live, ecount) in
        rw (ebuf, estart, here)
          (get_or-set_self r.buf r.start x zero_record (omega (arith, v.start_in_range live)))
  ]

  append-OldestMarked :
      (r : RingSink V) (x : Record V) → IsValid r → 0 < r.capacity → OldestMarked (append r x)
  append-OldestMarked r x v live h =
      let w = append-IsValid r x v in
      let here : ((append r x).start + 0) % (append r x).capacity ≡ (append r x).start =
        mod-eq_of_lt {n = (append r x).start + 0}
          (omega (arith, w.start_in_range (omega (arith, append-capacity r x))))
        ∙ omega arith in
      rw here (ground (arith, append-oldest r x live, append_single r x v live))

  -- Both marks, and the bounds, after a whole history.
  record IsMarked (cap n : ℕ) (r : RingSink V) : Type 0 where
    sound : IsValid r
    sized : r.capacity ≡ cap
    last : r.newest ≡ n
    first : OldestMarked r

  append_all-IsMarked :
      (cap n : ℕ) (r : RingSink V) (xs : List (Record V))
      → 0 < cap
      → Numbered n xs
      → IsMarked cap n r
      → IsMarked cap (n + length xs) (append_all r xs)
  unfolding append_all
  append_all-IsMarked cap n r [] live h m =
      let e : n ≡ n + 0 = omega arith in subst (λ t. IsMarked cap t r) e m
  append_all-IsMarked cap n r (x ∷ xs) live (e, h) m =
      let live' : 0 < r.capacity = omega (arith, m.sized) in
      let e' : suc n + length xs ≡ n + length (x ∷ xs) = omega arith in
      subst (λ t. IsMarked cap t (append_all (append r x) xs)) e'
        (append_all-IsMarked cap (suc n) (append r x) xs live h (record {
          sound = append-IsValid r x m.sound;
          sized = append-capacity r x ∙ m.sized;
          last = append-newest r x live' ∙ e;
          first = append-OldestMarked r x m.sound live';
        }))

  new-IsMarked : (cap : ℕ) → IsMarked cap 0 (new_ring_sink (pos cap))
  unfolding new_ring_sink
  new-IsMarked cap = record {
    sound = new_ring_sink-IsValid (pos cap);
    sized = refl;
    last = refl;
    first = λ h. absurd (omega arith);
  }

  head-Numbered :
      (buf : List (Record V)) (cap start n k : ℕ)
      → 0 < n
      → Numbered k (window buf cap start 0 n)
      → (get_or buf ((start + 0) % cap) zero_record).seq ≡ suc k
  unfolding window
  head-Numbered buf cap start zero k live h = absurd (omega arith)
  head-Numbered buf cap start (suc n) k live h = h.0

  module _ (cap : ℕ) (xs : List (Record V)) (live : 0 < cap) (numbered : Numbered 0 xs)
      (small : length xs < 2 ^ 64) where
    abbrev ring : RingSink V
    ring = append_all (new_ring_sink (pos cap)) xs

    marked : IsMarked cap (length xs) ring
    marked =
        let e : 0 + length xs ≡ length xs = omega arith in
        subst (λ t. IsMarked cap t ring) e
          (append_all-IsMarked cap 0 (new_ring_sink (pos cap)) xs live numbered (new-IsMarked cap))

    count-min : ring.count ≡ length xs - (length xs - cap)
    count-min =
        sym (length-window ring.buf ring.capacity ring.start 0 ring.count)
        ∙ ap length (ring_keeps_newest cap xs)
        ∙ length-drop (length xs - cap) xs

    retained : Numbered (0 + (length xs - cap)) (contents ring)
    retained =
        subst (Numbered (0 + (length xs - cap))) (sym (ring_keeps_newest cap xs))
          (Numbered-drop (length xs - cap) 0 xs (omega arith) numbered)

    oldest-number : 0 < ring.count → ring.oldest ≡ suc (length xs - cap)
    oldest-number h =
        marked.first h
        ∙ head-Numbered ring.buf ring.capacity ring.start ring.count _ h retained
        ∙ omega arith

    collect-drop :
        (after : ℕ) → collect ring after 0 ring.count ≡ drop (max after (length xs - cap)) xs
    collect-drop after =
        collect-keep_if ring after 0 ring.count
        ∙ keep_if-Numbered after (0 + (length xs - cap)) (contents ring) retained
        ∙ ap (drop (after - (0 + (length xs - cap)))) (ring_keeps_newest cap xs)
        ∙ drop-drop (after - (0 + (length xs - cap))) (length xs - cap)
            (max after (length xs - cap)) xs (omega arith)

    nothing_new : (after : ℕ) → length xs ≤ after → drop (max after (length xs - cap)) xs ≡ []
    nothing_new after h = drop_of_length-le (max after (length xs - cap)) xs (omega arith)

    in_order-nil : (order : Order) → in_order {V = V} order [] ≡ []
    in_order-nil oldest_first = refl
    in_order-nil recent_first = refl

    abbrev read : ℕ → Order → List (Record V) × Bool
    read after order = (
      in_order order (drop (max after (length xs - cap)) xs),
      ltb (length xs) after || ltb after (length xs - cap),
    )

    read_ahead :
        (after : ℕ) (order : Order)
        → length xs < after
        → records ring after order ≡ read after order
    unfolding records
    read_ahead after order h =
        ground (arith, marked, nothing_new after (omega arith), in_order-nil order)

    read_level :
        (after : ℕ) (order : Order)
        → length xs ≡ after
        → records ring after order ≡ read after order
    unfolding records
    read_level after order h =
        ground (arith, marked, nothing_new after (omega arith), in_order-nil order)

    read_behind :
        (after : ℕ) (order : Order)
        → after < length xs
        → records ring after order ≡ read after order
    unfolding records
    read_behind after order h =
        rw (collect-drop after) (ground (arith, marked, count-min, oldest-number))

    -- After at most 2^64 - 1 records numbered one by one from 1, a ring with room for some record
    -- answers every cursor with exactly those emitted records after it that are among the newest
    -- `cap`, in the asked order, and reports truncation exactly when the cursor lies ahead of the
    -- last record or a record after it was dropped.
    pub records_complete :
        (after : ℕ) (order : Order)
        → records (append_all (new_ring_sink (pos cap)) xs) after order ≡ (
          in_order order (drop (max after (length xs - cap)) xs),
          ltb (length xs) after || ltb after (length xs - cap),
        )
    records_complete after order = elim (Bool-cases (ltb (length xs) after)) [
      | inl ahead ↦ read_ahead after order (ltb→lt _ _ ahead)
      | inr near ↦ elim (Bool-cases (ltb after (length xs))) [
        | inl behind ↦ read_behind after order (ltb→lt _ _ behind)
        | inr level ↦ read_level after order (ground arith)
      ]
    ]

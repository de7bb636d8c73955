-- ===== src/Logging/Ring/Reads.antt =====
-- What a reader of internal/logging/ring.go gets after any number of appends.
use hfdesk.Base.{
  ℕ, zero, suc, ◌+◌, ◌-◌, ◌≤◌, ◌≡◌, refl, sym, ap, ◌∙◌, inl, inr, Bool, not, subst, List, [], ◌∷◌,
  ◌++◌, arith, ltb, leb, Bool-cases, length, drop, keep_if, length-append, length-drop,
  drop-append_le, drop-drop, drop-nil, pos, append-nil, append_assoc,
}
use hfdesk.Logging.Ring.{Record, RingSink, new_ring_sink, append, collect}
use hfdesk.Logging.Ring.Window.{
  IsValid, contents, push_bounded, window, contents-append, append-IsValid, new_ring_sink-IsValid,
  contents-new_ring_sink,
}

module _ {V : Type 0} where
  -- The pipeline's records in emission order.
  unfoldable pub append_all : RingSink V → List (Record V) → RingSink V
  append_all r [] = r
  append_all r (x ∷ xs) = append_all (append r x) xs

  -- The pipeline numbers its records one by one from `n + 1`.
  abbrev pub Numbered : ℕ → List (Record V) → Type 0
  Numbered n [] = Unit {0}
  Numbered n (x ∷ xs) = (x.seq ≡ suc n) × Numbered (suc n) xs

  pub append-capacity : (r : RingSink V) (x : Record V) → (append r x).capacity ≡ r.capacity
  unfolding append
  append-capacity r x = ground arith

  -- One more record, on the last `cap` records of a history.
  push_bounded-drop :
      (cap : ℕ) (hs : List (Record V)) (x : Record V)
      → push_bounded cap (drop (length hs - cap) hs) x
        ≡ drop (length (hs ++ x ∷ []) - cap) (hs ++ x ∷ [])
  push_bounded-drop cap hs x =
      let shown : length (drop (length hs - cap) hs) ≡ length hs - (length hs - cap) =
        length-drop (length hs - cap) hs in
      let grown : length (hs ++ x ∷ []) ≡ suc (length hs) =
        omega (arith, length-append hs (x ∷ [])) in
      elim (Bool-cases (ltb (length (drop (length hs - cap) hs)) cap)) [
        | inl room ↦ rw room (
            let none_dropped : length hs - cap ≡ 0 = ground arith in
            let still : length (hs ++ x ∷ []) - cap ≡ 0 = ground arith in cc (none_dropped, still))
        | inr full ↦ rw full (
            ap (drop 1) (sym (drop-append_le (length hs - cap) hs (x ∷ []) (omega arith)))
            ∙ drop-drop 1 (length hs - cap) (length (hs ++ x ∷ []) - cap) (hs ++ x ∷ [])
                (ground arith))
      ]

  contents-append_all :
      (cap : ℕ) (r : RingSink V) (hs xs : List (Record V))
      → r.capacity ≡ cap
      → IsValid r
      → contents r ≡ drop (length hs - cap) hs
      → contents (append_all r xs) ≡ drop (length (hs ++ xs) - cap) (hs ++ xs)
  unfolding append_all
  contents-append_all cap r hs [] e v h = rw append-nil h
  contents-append_all cap r hs (x ∷ xs) e v h = rw (← append_assoc hs (x ∷ []) xs) (
      contents-append_all cap (append r x) (hs ++ x ∷ []) xs (append-capacity r x ∙ e)
        (append-IsValid r x v) (contents-append r x v ∙ rw (h, e) (push_bounded-drop cap hs x)))

  -- A ring holds the newest `capacity` of the records appended to it, oldest first.
  pub ring_keeps_newest :
      (capacity : ℕ) (xs : List (Record V))
      → contents (append_all (new_ring_sink (pos capacity)) xs) ≡ drop (length xs - capacity) xs
  unfolding new_ring_sink
  ring_keeps_newest capacity xs =
      contents-append_all capacity (new_ring_sink (pos capacity)) [] xs refl
        (new_ring_sink-IsValid (pos capacity))
        (contents-new_ring_sink (pos capacity) ∙ sym (drop-nil (0 - capacity)))

  -- The read loop keeps the records with a number above the cursor.
  abbrev pub newer : ℕ → Record V → Bool
  newer after x = not (leb x.seq after)

  pub collect-keep_if :
      (r : RingSink V) (after i n : ℕ)
      → collect r after i n ≡ keep_if (newer after) (window r.buf r.capacity r.start i n)
  unfolding collect window
  collect-keep_if r after i zero = refl
  collect-keep_if r after i (suc n) = ground (arith, collect-keep_if r after (i + 1) n)

  pub keep_if-Numbered :
      (after m : ℕ) (xs : List (Record V))
      → Numbered m xs
      → keep_if (newer after) xs ≡ drop (after - m) xs
  keep_if-Numbered after m [] h = sym (drop-nil (after - m))
  keep_if-Numbered after m (x ∷ xs) (e, h) = elim (Bool-cases (ltb m after)) [
    | inl old ↦
        let fewer : after - m ≡ suc (after - suc m) = ground arith in
        rw fewer (ground (arith, keep_if-Numbered after (suc m) xs h))
    | inr new ↦
        let none_dropped : after - m ≡ 0 = ground arith in
        let still : after - suc m ≡ 0 = ground arith in
        rw none_dropped
          (ground (arith, keep_if-Numbered after (suc m) xs h, ap (λ k. drop k xs) still))
  ]

  pub Numbered-drop :
      (k m : ℕ) (xs : List (Record V))
      → k ≤ length xs
      → Numbered m xs
      → Numbered (m + k) (drop k xs)
  Numbered-drop zero m xs h num =
      let e : m ≡ m + 0 = omega arith in subst (λ t. Numbered t xs) e num
  Numbered-drop (suc k) m [] h num = absurd (omega arith)
  Numbered-drop (suc k) m (x ∷ xs) h (e, num) =
      let e' : suc m + k ≡ m + suc k = omega arith in
      subst (λ t. Numbered t (drop k xs)) e' (Numbered-drop k (suc m) xs (omega arith) num)

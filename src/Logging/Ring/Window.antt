-- ===== src/Logging/Ring/Window.antt =====
-- The ring of internal/logging/ring.go as the bounded list of its records: indices, and what an
-- append does.
use native.Mathlib.Nat.{mod-lt, mod-eq_of_lt, mod-add-mod}
use hfdesk.Base.{
  ℕ, zero, suc, ◌+◌, ◌%◌, ◌≤◌, ◌<◌, ◌≡◌, ◌≢◌, refl, sym, ap, ◌∙◌, inl, inr, false, List, [], ◌∷◌,
  ◌++◌, arith, ltb, if◌then◌else◌, Bool-cases, length, drop, get_or, set, length-set,
  length-replicate, get_or-set_self, get_or-set_ne, ltb→lt, ℤ,
}
use hfdesk.Logging.Ring.{Record, RingSink, new_ring_sink, append, zero_record}

module _ {V : Type 0} where
  abbrev pub slot : List (Record V) → ℕ → ℕ → ℕ → Record V
  slot buf cap start i = get_or buf ((start + i) % cap) zero_record

  -- The `n` records from index `i` on.
  unfoldable pub window : List (Record V) → ℕ → ℕ → ℕ → ℕ → List (Record V)
  window buf cap start i zero = []
  window buf cap start i (suc n) = slot buf cap start i ∷ window buf cap start (i + 1) n

  -- The retained records, oldest first.
  abbrev pub contents : RingSink V → List (Record V)
  contents r = window r.buf r.capacity r.start 0 r.count

  pub record IsValid (r : RingSink V) : Type 0 where
    pub sized : length r.buf ≡ r.capacity
    pub start_in_range : 0 < r.capacity → r.start < r.capacity
    pub count_in_range : r.count ≤ r.capacity

  -- What a bounded list does with one more record.
  abbrev pub push_bounded : ℕ → List (Record V) → Record V → List (Record V)
  push_bounded cap xs rec = if ltb (length xs) cap then xs ++ rec ∷ [] else drop 1 (xs ++ rec ∷ [])

  pub length-window :
      (buf : List (Record V)) (cap start i n : ℕ) → length (window buf cap start i n) ≡ n
  unfolding window
  length-window buf cap start i zero = refl
  length-window buf cap start i (suc n) = ap suc (length-window buf cap start (i + 1) n)

  window-snoc :
      (buf : List (Record V)) (cap start i n k : ℕ)
      → i + n ≡ k
      → window buf cap start i (suc n) ≡ window buf cap start i n ++ slot buf cap start k ∷ []
  unfolding window
  window-snoc buf cap start i zero k e =
      let e' : i ≡ k = omega arith in ap (λ k. slot buf cap start k ∷ []) e'
  window-snoc buf cap start i (suc n) k e =
      ap (◌∷◌ (slot buf cap start i)) (window-snoc buf cap start (i + 1) n k (omega arith))

  -- A write to a slot that the window does not reach.
  window-set :
      (buf : List (Record V)) (cap start i n j : ℕ) (rec : Record V)
      → ((k : ℕ) → i ≤ k → k < i + n → j ≢ (start + k) % cap)
      → window (set buf j rec) cap start i n ≡ window buf cap start i n
  unfolding window
  window-set buf cap start i zero j rec away = refl
  window-set buf cap start i (suc n) j rec away = cc (
    get_or-set_ne buf j ((start + i) % cap) rec zero_record (away i (omega arith) (omega arith)),
    window-set buf cap start (i + 1) n j rec (λ k low high. away k (omega arith) (omega arith)),
  )

  -- A window that starts one later is the same window from the next index.
  window-shift :
      (buf : List (Record V)) (cap start i n : ℕ)
      → window buf cap ((start + 1) % cap) i n ≡ window buf cap start (i + 1) n
  unfolding window
  window-shift buf cap start i zero = refl
  window-shift buf cap start i (suc n) =
      let e : start + 1 + i ≡ start + (i + 1) = omega arith in
      cc (
        ap (λ k. get_or buf k zero_record) (mod-add-mod (start + 1) cap i ∙ ap (λ k. k % cap) e),
        window-shift buf cap start (i + 1) n,
      )

-- Two indices less than a round apart meet different slots.
mod_apart :
    (start a b cap : ℕ) → start < cap → a < b → b < cap → (start + b) % cap ≢ (start + a) % cap
mod_apart start a b cap h p q = λ e. grind (arith, e)

mod_round : (start cap : ℕ) → start < cap → (start + cap) % cap ≡ start
mod_round start cap h = grind arith

ltb-false : (a b : ℕ) → b ≤ a → ltb a b ≡ false
ltb-false a b h = ground arith

module _ {V : Type 0} where
  -- An append keeps the buffer's size and every index in range.
  pub append-IsValid : (r : RingSink V) (rec : Record V) → IsValid r → IsValid (append r rec)
  unfolding append
  append-IsValid r rec v = record {
    sized = ground (
      arith,
      length-set r.buf ((r.start + r.count) % r.capacity) rec,
      length-set r.buf r.start rec,
    );
    start_in_range = ground (arith, mod-lt (r.start + 1) {m = r.capacity});
    count_in_range = ground arith;
  }

  pub new_ring_sink-IsValid : (capacity : ℤ) → IsValid (new_ring_sink {V = V} capacity)
  unfolding new_ring_sink
  new_ring_sink-IsValid capacity = record {
    sized = length-replicate _ zero_record;
    start_in_range = λ h. h;
    count_in_range = omega arith;
  }

  pub contents-new_ring_sink : (capacity : ℤ) → contents (new_ring_sink {V = V} capacity) ≡ []
  unfolding new_ring_sink window
  contents-new_ring_sink capacity = refl

  pub append_room :
      (r : RingSink V) (rec : Record V)
      → IsValid r
      → r.count < r.capacity
      → let s = append r rec in
        (s.capacity ≡ r.capacity)
        × (s.start ≡ r.start)
        × (s.count ≡ suc r.count)
        × (s.buf ≡ set r.buf ((r.start + r.count) % r.capacity) rec)
  unfolding append
  append_room r rec v room = ground arith

  pub append_full :
      (r : RingSink V) (rec : Record V)
      → 0 < r.capacity
      → r.count ≡ r.capacity
      → let s = append r rec in
        (s.capacity ≡ r.capacity)
        × (s.start ≡ (r.start + 1) % r.capacity)
        × (s.count ≡ r.capacity)
        × (s.buf ≡ set r.buf r.start rec)
  unfolding append
  append_full r rec live full = ground arith

  contents-append_room :
      (r : RingSink V) (rec : Record V)
      → IsValid r
      → r.count < r.capacity
      → contents (append r rec) ≡ contents r ++ rec ∷ []
  contents-append_room r rec v room =
      let (ecap, estart, ecount, ebuf) = append_room r rec v room in
      let j = (r.start + r.count) % r.capacity in
      let live : 0 < r.capacity = omega arith in
      rw (ecap, estart, ecount, ebuf)
        (window-snoc (set r.buf j rec) r.capacity r.start 0 r.count r.count (omega arith)
          ∙ cc (
            window-set r.buf r.capacity r.start 0 r.count j rec (λ k low high.
                mod_apart r.start k r.count r.capacity (v.start_in_range live) (omega arith) room),
            get_or-set_self r.buf j rec zero_record
                (omega (arith, v.sized, mod-lt (r.start + r.count) live)),
          ))

  -- The record that a full ring overwrites is the window's first.
  window-overwrite :
      (buf : List (Record V)) (n start : ℕ) (rec : Record V)
      → length buf ≡ suc n
      → start < suc n
      → window (set buf start rec) (suc n) start 1 (suc n)
        ≡ window buf (suc n) start 1 n ++ rec ∷ []
  window-overwrite buf n start rec sized inside =
      window-snoc (set buf start rec) (suc n) start 1 n (suc n) (omega arith)
      ∙ cc (
        window-set buf (suc n) start 1 n start rec (λ k low high e.
            mod_apart start 0 k (suc n) inside (omega arith) (omega arith)
              (sym e ∙ sym (mod-eq_of_lt inside) ∙ ap (λ t. t % suc n) (omega arith))),
        mod_round start (suc n) inside,
        get_or-set_self buf start rec zero_record (omega arith),
      )

  contents-append_full :
      (r : RingSink V) (rec : Record V) (n : ℕ)
      → IsValid r
      → r.capacity ≡ suc n
      → r.count ≡ r.capacity
      → contents (append r rec) ≡ drop 1 (contents r ++ rec ∷ [])
  unfolding window
  contents-append_full r rec n v e full =
      let (ecap, estart, ecount, ebuf) = append_full r rec (omega arith) full in
      rw (ecap, estart, ecount, ebuf, window-shift)
        (rw (full, e)
          (window-overwrite r.buf n r.start rec (v.sized ∙ e)
            (omega (arith, v.start_in_range (omega arith)))))

  append_off : (r : RingSink V) (rec : Record V) → r.capacity ≡ 0 → append r rec ≡ r
  unfolding append
  append_off r rec e = ground arith

  contents-append_off :
      (r : RingSink V) (rec : Record V)
      → r.capacity ≡ 0
      → r.count ≡ 0
      → contents (append r rec) ≡ drop 1 (contents r ++ rec ∷ [])
  unfolding window
  contents-append_off r rec e empty = rw (append_off r rec e) (rw empty)

  -- An append is that of a bounded list: a full ring drops its oldest record.
  pub contents-append :
      (r : RingSink V) (rec : Record V)
      → IsValid r
      → contents (append r rec) ≡ push_bounded r.capacity (contents r) rec
  contents-append r rec v =
      rw (length-window r.buf r.capacity r.start 0 r.count) (by_room r.capacity refl)
    where
      by_room :
          (n : ℕ)
          → r.capacity ≡ n
          → contents (append r rec) ≡ (
              if ltb r.count r.capacity
              then contents r ++ rec ∷ []
              else drop 1 (contents r ++ rec ∷ []))
      by_room zero e =
          rw (ltb-false r.count r.capacity (omega arith))
            (contents-append_off r rec e (omega arith))
      by_room (suc n) e = elim (Bool-cases (ltb r.count r.capacity)) [
        | inl room ↦ rw room (contents-append_room r rec v (ltb→lt _ _ room))
        | inr full ↦ rw full (contents-append_full r rec n v e (ground arith))
      ]

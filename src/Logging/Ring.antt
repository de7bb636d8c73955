-- ===== src/Logging/Ring.antt =====
-- internal/logging/ring.go and the record of internal/logging/record.go.
-- A buffer read or write uses an index that the invariant of Ring/Window keeps in range; the lock
-- makes each method one step. `V` is Go's `any`, the values of a record's attributes. Values are
-- immutable here, so `cloneRecord`'s fresh map is the record itself.
pub mod Window
pub mod Reads
pub mod Marks
mod Examples
use hfdesk.Base.{
  ℕ, zero, suc, ◌+◌, ◌-◌, ◌%◌, ◌^◌, Bool, true, false, ◌||◌, Option, none, List, [], ◌∷◌, reverse,
  ltb, leb, ◌==◌, if◌then◌else◌, get_or, set, replicate, Bytes, ℤ, pos, is_neg, pos_part,
}

pub record Record (V : Type 0) : Type 0 where
  pub seq : ℕ
  pub time : ℕ
  pub level : ℤ
  pub component : Bytes
  pub message : Bytes
  pub attrs : Option (List (Bytes × V))

pub data Order : Type 0 where
  oldest_first recent_first : Order

pub record RingSink (V : Type 0) : Type 0 where
  pub capacity : ℕ
  pub buf : List (Record V)
  pub start : ℕ
  pub count : ℕ
  pub oldest : ℕ
  pub newest : ℕ

-- The difference of two `uint64`.
abbrev pub sub_u64 : ℕ → ℕ → ℕ
sub_u64 a b = (a + 2 ^ 64 - b) % 2 ^ 64

module _ {V : Type 0} where
  -- Go's zero value of the type.
  abbrev pub zero_record : Record V
  zero_record = record {
    seq = 0;
    time = 0;
    level = pos 0;
    component = [];
    message = [];
    attrs = none;
  }

  unfoldable pub new_ring_sink : ℤ → RingSink V
  new_ring_sink capacity =
      let size = if is_neg capacity then 0 else pos_part capacity in
      record {
        capacity = size;
        buf = replicate size zero_record;
        start = 0;
        count = 0;
        oldest = 0;
        newest = 0;
      }

  -- The write, which moves either the count or the start.
  store : RingSink V → Record V → RingSink V
  store r rec =
      if ltb count capacity
      then record r { buf = set buf ((start + count) % capacity) rec; count = count + 1 }
      else record r { buf = set buf start rec; start = (start + 1) % capacity }
    where
      open r use {buf, start, count, capacity}

  -- The bookkeeping of the oldest and the newest number.
  mark : RingSink V → Record V → RingSink V
  mark r rec = record r {
    oldest =
        if ltb 1 count
        then (get_or buf start zero_record).seq
        else (if count == 1 then rec.seq else r.oldest);
    newest = rec.seq;
  }
    where
      open r use {buf, start, count}

  unfoldable pub append : RingSink V → Record V → RingSink V
  unfolding store mark
  append r rec = if leb r.capacity 0 then r else mark (store r rec) rec

  -- The read loop, from index `i` with `n` rounds left.
  unfoldable pub collect : RingSink V → ℕ → ℕ → ℕ → List (Record V)
  collect r after i zero = []
  collect r after i (suc n) =
      let rec = get_or r.buf ((r.start + i) % r.capacity) zero_record in
      let rest = collect r after (i + 1) n in if leb rec.seq after then rest else rec ∷ rest

  abbrev pub in_order : Order → List (Record V) → List (Record V)
  in_order oldest_first out = out
  in_order recent_first out = reverse out

  unfoldable pub records : RingSink V → ℕ → Order → List (Record V) × Bool
  records r after order =
      if ltb r.newest after
      then ([], true)
      else (if r.count == 0 || after == r.newest
          then ([], false)
          else (let window = sub_u64 r.newest after in
              let retained = (sub_u64 r.newest r.oldest + 1) % 2 ^ 64 in
              (in_order order (collect r after 0 r.count), ltb retained window)))

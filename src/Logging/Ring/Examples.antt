-- ===== src/Logging/Ring/Examples.antt =====
-- The theorems on internal/logging/ring.go at concrete records.
use hfdesk.Base.{◌≡◌, refl, true, List, [], ◌∷◌, arith, pos, none, ℕ, codes}
use hfdesk.Logging.Ring.{Record, oldest_first, new_ring_sink, append, records}
use hfdesk.Logging.Ring.Window.{window, contents, contents-append, new_ring_sink-IsValid}
use hfdesk.Logging.Ring.Reads.{append_all, ring_keeps_newest}
use hfdesk.Logging.Ring.Marks.{records_complete}

abbrev line : ℕ → Record ℕ
line n = record {
  seq = n;
  time = 0;
  level = pos 0;
  component = codes "jobs";
  message = codes "saved";
  attrs = none;
}

abbrev three : List (Record ℕ)
three = line 1 ∷ line 2 ∷ line 3 ∷ []

contents-append_example : contents (append (new_ring_sink (pos 2)) (line 1)) ≡ line 1 ∷ []
unfolding new_ring_sink window
contents-append_example =
    contents-append (new_ring_sink (pos 2)) (line 1) (new_ring_sink-IsValid (pos 2))

ring_keeps_newest_example :
    contents (append_all (new_ring_sink (pos 2)) three) ≡ line 2 ∷ line 3 ∷ []
ring_keeps_newest_example = ring_keeps_newest 2 three

records_complete_example :
    records (append_all (new_ring_sink (pos 2)) three) 0 oldest_first ≡ (line 2 ∷ line 3 ∷ [], true)
records_complete_example =
    records_complete 2 three (omega arith) (refl, (refl, (refl, tt))) (omega arith) 0 oldest_first

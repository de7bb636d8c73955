-- ===== src/Logging/Feed.antt =====
-- internal/logging/subscription.go: the bounded feed of one consumer. The channel is its buffer, and a
-- consumer that waits for a record is one that receives right after the send. A channel without a buffer,
-- which the pipeline never makes, would hand a record over to such a consumer; that is left out.
pub mod Accounts
use hfdesk.Base.{
  ℕ, zero, suc, ◌+◌, ◌%◌, ◌^◌, Bool, true, false, Option, none, some, List, [], ◌∷◌, ◌++◌, ltb,
  if◌then◌else◌, length, ℤ, is_neg, pos_part,
}
use hfdesk.Logging.Ring.{Record}

pub record Subscription (V : Type 0) : Type 0 where
  pub capacity : ℕ
  pub queue : List (Record V)
  pub closed : Bool
  pub dropped : ℕ

-- What happens to a feed: the pipeline sends a record, the consumer receives one or closes the feed.
pub data FeedStep (V : Type 0) : Type 0 where
  sends : Record V → FeedStep V
  receives closes : FeedStep V

module _ {V : Type 0} where
  abbrev pub new_subscription : ℤ → Subscription V
  new_subscription capacity = record {
    capacity = if is_neg capacity then 0 else pos_part capacity;
    queue = [];
    closed = false;
    dropped = 0;
  }

  -- `send`; an atomic counter of 64 bits.
  unfoldable pub send : Record V → Subscription V → Subscription V
  send rec s =
      if s.closed
      then s
      else (if ltb (length s.queue) s.capacity
          then record s { queue = s.queue ++ rec ∷ [] }
          else record s { dropped = (s.dropped + 1) % 2 ^ 64 })

  -- A receive from the channel, which a close does not empty; none where there is nothing to receive.
  unfoldable pub receive : Subscription V → Option (Record V) × Subscription V
  receive s = elim s.queue [ [] ↦ (none, s) | rec ∷ rest ↦ (some rec, record s { queue = rest }) ]

  -- `Close`; a second close does nothing.
  abbrev pub close_subscription : Subscription V → Subscription V
  close_subscription s = record s { closed = true }

  abbrev pub add_received : Option (Record V) → List (Record V) → List (Record V)
  add_received none received = received
  add_received (some rec) received = received ++ rec ∷ []

  -- A history of a feed, with what its consumer received.
  unfoldable pub follow :
      List (FeedStep V) → Subscription V → List (Record V) → Subscription V × List (Record V)
  unfolding send receive
  follow [] s received = (s, received)
  follow (sends rec ∷ steps) s received = follow steps (send rec s) received
  follow (receives ∷ steps) s received =
      let (rec, next) = receive s in follow steps next (add_received rec received)
  follow (closes ∷ steps) s received = follow steps (close_subscription s) received

-- ===== src/Logging/Feed/Accounts.antt =====
-- What the consumer of a feed of internal/logging/subscription.go receives of the records sent to it.
use hfdesk.Base.{
  ℕ, suc, ◌%◌, ◌^◌, ◌≤◌, ◌≡◌, refl, sym, ap, ◌∙◌, subst, true, false, Option, none, some, List, [],
  ◌∷◌, ◌++◌, append-nil, append_assoc, arith, ltb, if-rule, length, ℤ,
}
use hfdesk.Logging.Ring.{Record}
use hfdesk.Logging.Feed.{
  Subscription, FeedStep, sends, receives, closes, new_subscription, send, receive,
  close_subscription, add_received, follow,
}

-- The second list is the first with that many elements in between, in order.
pub data IsLossy {A : Type 0} : ℕ → List A → List A → Type 0 where
  none_lost : IsLossy 0 [] []
  keeps :
      {n : ℕ} {xs ys : List A} (x : A) → IsLossy n xs ys → IsLossy n (xs ++ x ∷ []) (ys ++ x ∷ [])
  loses : {n : ℕ} {xs ys : List A} (x : A) → IsLossy n xs ys → IsLossy (suc n) xs (ys ++ x ∷ [])

module _ {V : Type 0} where
  -- The records sent before the feed is closed.
  unfoldable pub offered : List (FeedStep V) → List (Record V)
  offered [] = []
  offered (sends rec ∷ steps) = rec ∷ offered steps
  offered (receives ∷ steps) = offered steps
  offered (closes ∷ steps) = []

  -- The account of a feed: what was received and what waits is what was sent, but for the records that
  -- are counted as dropped.
  pub record IsAccounted (sent received : List (Record V)) (s : Subscription V) : Type 0 where
    pub lost : ℕ
    pub lossy : IsLossy lost (received ++ s.queue) sent
    pub counted : s.dropped ≡ lost % 2 ^ 64
    pub bounded : length s.queue ≤ s.capacity

  length-snoc : (xs : List (Record V)) (x : Record V) → length (xs ++ x ∷ []) ≡ suc (length xs)
  length-snoc [] x = refl
  length-snoc (y ∷ xs) x = ap suc (length-snoc xs x)

  send-IsAccounted :
      (rec : Record V) (sent received : List (Record V)) (s : Subscription V)
      → s.closed ≡ false
      → IsAccounted sent received s
      → IsAccounted (sent ++ rec ∷ []) received (send rec s)
  unfolding send
  send-IsAccounted rec sent received s live h =
      if-rule (IsAccounted (sent ++ rec ∷ []) received) s.closed _ _ (λ e. absurd (cc (e, live)))
        (λ _.
          if-rule (IsAccounted (sent ++ rec ∷ []) received) (ltb (length s.queue) s.capacity) _ _
            (λ room.
              let more = length-snoc s.queue rec in
              record {
                lost = h.lost;
                lossy =
                    subst (λ t. IsLossy h.lost t (sent ++ rec ∷ []))
                      (append_assoc received s.queue (rec ∷ [])) (keeps rec h.lossy);
                counted = h.counted;
                bounded = ground (arith, more, room);
              })
            (λ _.
              let counted = h.counted in
              record {
                lost = suc h.lost;
                lossy = loses rec h.lossy;
                counted = omega (arith, counted);
                bounded = h.bounded;
              }))

  abbrev received_of : Subscription V → List (Record V) → Option (Record V) × Subscription V
  received_of s q = elim q [ [] ↦ (none, s) | rec ∷ rest ↦ (some rec, record s { queue = rest }) ]

  receive-IsAccounted :
      (sent received : List (Record V)) (s : Subscription V)
      → IsAccounted sent received s
      → IsAccounted sent (add_received (receive s).0 received) (receive s).1
  unfolding receive
  receive-IsAccounted sent received s h = go s.queue refl
    where
      go :
          (q : List (Record V))
          → s.queue ≡ q
          → IsAccounted sent (add_received (received_of s q).0 received) (received_of s q).1
      go [] e = h
      go (rec ∷ rest) e =
          let bounded = h.bounded in
          let sizes = ap length e in
          record {
            lost = h.lost;
            lossy =
                subst (λ t. IsLossy h.lost t sent)
                  (ap (λ q. received ++ q) e ∙ sym (append_assoc received (rec ∷ []) rest)) h.lossy;
            counted = h.counted;
            bounded = omega (arith, bounded, sizes);
          }

  receive-closed : (s : Subscription V) → (receive s).1.closed ≡ s.closed
  unfolding receive
  receive-closed s = go s.queue
    where
      go : (q : List (Record V)) → (received_of s q).1.closed ≡ s.closed
      go [] = refl
      go (rec ∷ rest) = refl

  send-closed : (rec : Record V) (s : Subscription V) → (send rec s).closed ≡ s.closed
  unfolding send
  send-closed rec s = ground arith

  -- A closed feed takes nothing more.
  follow-closed :
      (steps : List (FeedStep V)) (sent received : List (Record V)) (s : Subscription V)
      → s.closed ≡ true
      → IsAccounted sent received s
      → IsAccounted sent (follow steps s received).1 (follow steps s received).0
  unfolding follow send
  follow-closed [] sent received s shut h = h
  follow-closed (sends rec ∷ steps) sent received s shut h =
      follow-closed steps sent received (send rec s) (send-closed rec s ∙ shut)
        (if-rule (IsAccounted sent received) s.closed s _ (λ _. h) (λ e. absurd (cc (e, shut))))
  follow-closed (receives ∷ steps) sent received s shut h =
      follow-closed steps sent (add_received (receive s).0 received) (receive s).1
        (receive-closed s ∙ shut) (receive-IsAccounted sent received s h)
  follow-closed (closes ∷ steps) sent received s shut h =
      follow-closed steps sent received (close_subscription s) refl
        (record { lost = h.lost; lossy = h.lossy; counted = h.counted; bounded = h.bounded })

  follow-open :
      (steps : List (FeedStep V)) (sent received : List (Record V)) (s : Subscription V)
      → s.closed ≡ false
      → IsAccounted sent received s
      → IsAccounted (sent ++ offered steps) (follow steps s received).1 (follow steps s received).0
  unfolding follow offered
  follow-open [] sent received s live h =
      subst (λ t. IsAccounted t received s) (sym (append-nil sent)) h
  follow-open (sends rec ∷ steps) sent received s live h =
      subst
        (λ t.
          IsAccounted t (follow steps (send rec s) received).1
            (follow steps (send rec s) received).0)
        (append_assoc sent (rec ∷ []) (offered steps))
        (follow-open steps (sent ++ rec ∷ []) received (send rec s) (send-closed rec s ∙ live)
          (send-IsAccounted rec sent received s live h))
  follow-open (receives ∷ steps) sent received s live h =
      follow-open steps sent (add_received (receive s).0 received) (receive s).1
        (receive-closed s ∙ live) (receive-IsAccounted sent received s h)
  follow-open (closes ∷ steps) sent received s live h =
      subst
        (λ t.
          IsAccounted t (follow steps (close_subscription s) received).1
            (follow steps (close_subscription s) received).0)
        (sym (append-nil sent))
        (follow-closed steps sent received (close_subscription s) refl
          (record { lost = h.lost; lossy = h.lossy; counted = h.counted; bounded = h.bounded }))

  -- In every history of a feed, what its consumer received and what waits for it are, in order, the
  -- records sent before the feed was closed but for some that are counted as dropped, modulo 2^64, and
  -- never more records wait than the channel holds.
  pub follow-IsAccounted :
      (steps : List (FeedStep V)) (capacity : ℤ)
      → IsAccounted
          (offered steps)
          (follow steps (new_subscription capacity) []).1
          (follow steps (new_subscription capacity) []).0
  follow-IsAccounted steps capacity =
      follow-open steps [] [] (new_subscription capacity) refl
        (record { lost = 0; lossy = none_lost; counted = refl; bounded = omega arith })

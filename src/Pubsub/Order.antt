-- ===== src/Pubsub/Order.antt =====
-- What a subscription passes on, and in which order.
use evm_indexer.Prelude.{
  ◌≤◌, ◌≡◌, refl, sym, ap, ◌∙◌, List, [], ◌∷◌, ◌++◌, append-nil, append_assoc, length,
  length-append, arith,
}
use evm_indexer.Pubsub.{
  Place, waiting, sending, returned, Subscription, capacity, subscribed, Step, arrives, passes_on,
  stops, is_taken, Reach, here, next,
}

module _ {M : Type 0} where
  -- what the goroutine holds, and cannot put into the channel yet
  abbrev pub in_hand : Place M → List M
  in_hand waiting = []
  in_hand (sending m) = m ∷ []
  in_hand returned = []

  pub record InOrder (s : Subscription M) : Type 0 where
    pub whole : s.taken ++ (s.out ++ in_hand s.place) ≡ s.received
    pub bounded : length s.out ≤ capacity

  Step-InOrder : {s t : Subscription M} → Step s t → InOrder s → InOrder t
  Step-InOrder {s} (arrives m p) h = record {
    whole =
        sym (append_assoc s.taken s.out (m ∷ []))
        ∙ ap (λ l. l ++ (m ∷ []))
            (ap (λ l. s.taken ++ l) (sym (append-nil s.out))
              ∙ ap (λ q. s.taken ++ (s.out ++ in_hand q)) (sym p)
              ∙ h.whole);
    bounded = h.bounded;
  }
  Step-InOrder {s} (passes_on m p room) h = record {
    whole =
        ap (λ l. s.taken ++ l) (append-nil (s.out ++ (m ∷ [])))
        ∙ ap (λ q. s.taken ++ (s.out ++ in_hand q)) (sym p)
        ∙ h.whole;
    bounded = omega (arith, length-append s.out (m ∷ []));
  }
  Step-InOrder {s} (stops p) h = record {
    whole = ap (λ q. s.taken ++ (s.out ++ in_hand q)) (sym p) ∙ h.whole;
    bounded = h.bounded;
  }
  Step-InOrder {s} (is_taken m rest p) h = record {
    whole =
        append_assoc s.taken (m ∷ []) (rest ++ in_hand s.place)
        ∙ ap (λ l. s.taken ++ (l ++ in_hand s.place)) (sym p)
        ∙ h.whole;
    bounded = omega (arith, h.bounded, ap length p);
  }

  -- However the goroutine, the reader and Redis come after one another, the channel holds at most
  -- ten messages, and what the reader has taken, with what the channel holds and the one that the
  -- goroutine has in hand, is what Redis has given, in that order: nothing is lost, nothing comes
  -- twice.
  pub Reach-InOrder : {s : Subscription M} → Reach subscribed s → InOrder s
  Reach-InOrder here = record { whole = refl; bounded = omega arith }
  Reach-InOrder (next r st) = Step-InOrder st (Reach-InOrder r)

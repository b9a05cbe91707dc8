-- ===== src/Pubsub/Drained.antt =====
-- That what Redis has given reaches the reader, and what the reader finds after that.
use evm_indexer.Prelude.{
  ◌≡◌, refl, sym, ap, ◌∙◌, List, [], ◌∷◌, ◌++◌, append-nil, append_assoc, length, arith,
}
use evm_indexer.Pubsub.{
  Place, waiting, sending, returned, Subscription, capacity, subscribed, Step, arrives, passes_on,
  stops, is_taken, Reach, here, next, value, zero_value, read,
}
use evm_indexer.Pubsub.Order.{in_hand, Reach-InOrder}

module _ {M : Type 0} where
  Reach-trans : {s t u : Subscription M} → Reach s t → Reach t u → Reach s u
  Reach-trans r here = r
  Reach-trans r (next q st) = next (Reach-trans r q) st

  -- `t` is `s` with `l` passed on to the reader, and nothing left in the channel.
  pub record Emptied (s : Subscription M) (l : List M) : Type 0 where
    pub end : Subscription M
    pub reach : Reach s end
    pub empty : end.out ≡ []
    pub read_all : end.taken ≡ s.taken ++ l
    pub same : end.received ≡ s.received
    pub place : end.place ≡ s.place

  empties : (l : List M) (s : Subscription M) → s.out ≡ l → Emptied s l
  empties [] s p = record {
    end = s;
    reach = here;
    empty = p;
    read_all = sym (append-nil s.taken);
    same = refl;
    place = refl;
  }
  empties (m ∷ l) s p =
      let e = empties l (record s { out = l; taken = s.taken ++ (m ∷ []) }) refl in
      record {
        end = e.end;
        reach = Reach-trans (next here (is_taken m l p)) e.reach;
        empty = e.empty;
        read_all = e.read_all ∙ append_assoc s.taken (m ∷ []) l;
        same = e.same;
        place = e.place;
      }

  -- The reader has all that Redis has given, and the goroutine has nothing in hand.
  pub record Drained (s : Subscription M) : Type 0 where
    pub end : Subscription M
    pub reach : Reach s end
    pub same : end.received ≡ s.received
    pub all_taken : end.taken ≡ s.received

  drains_at :
      (p : Place M) (s : Subscription M)
      → s.place ≡ p
      → s.taken ++ (s.out ++ in_hand p) ≡ s.received
      → Drained s
  drains_at waiting s e whole =
      let d = empties s.out s refl in
      record {
        end = d.end;
        reach = d.reach;
        same = d.same;
        all_taken = d.read_all ∙ ap (λ l. s.taken ++ l) (sym (append-nil s.out)) ∙ whole;
      }
  drains_at returned s e whole =
      let d = empties s.out s refl in
      record {
        end = d.end;
        reach = d.reach;
        same = d.same;
        all_taken = d.read_all ∙ ap (λ l. s.taken ++ l) (sym (append-nil s.out)) ∙ whole;
      }
  drains_at (sending m) s e whole =
      let d = empties s.out s refl in
      let t = record (d.end) { place = waiting; out = d.end.out ++ (m ∷ []) } in
      let passed : Step d.end t = passes_on m (d.place ∙ e) (omega (arith, ap length d.empty)) in
      let last = empties (m ∷ []) t (ap (λ l. l ++ (m ∷ [])) d.empty) in
      record {
        end = last.end;
        reach = Reach-trans (next d.reach passed) last.reach;
        same = last.same ∙ d.same;
        all_taken =
            last.read_all
            ∙ ap (λ l. l ++ (m ∷ [])) d.read_all
            ∙ append_assoc s.taken s.out (m ∷ [])
            ∙ whole;
      }

  -- Wherever a subscription stands, as long as the reader goes on reading, and without anything new
  -- from Redis, it can come to have taken all that Redis has given, in that order, also where the
  -- goroutine has stopped.
  pub drains : (s : Subscription M) → Reach subscribed s → Drained s
  drains s r = let h = Reach-InOrder r in drains_at s.place s refl h.whole

  -- Once the goroutine has returned and the channel is empty, each receive gives the zero value at
  -- once, and changes nothing.
  pub read_closed :
      (s : Subscription M) → s.place ≡ returned → s.out ≡ [] → read s ≡ (zero_value, s)
  unfolding read
  read_closed s p q = rw (q, p)

  read_value :
      (m : M) (rest : List M) (s : Subscription M)
      → s.out ≡ m ∷ rest
      → read s ≡ (value m, record s { out = rest; taken = s.taken ++ (m ∷ []) })
  unfolding read
  read_value m rest s p = rw p

  -- While the goroutine has a message in hand and the channel is full, nothing but the reader moves
  -- the subscription: a cancelled context does not end the goroutine.
  pub only_taken :
      (m : M) (s t : Subscription M)
      → s.place ≡ sending m
      → length s.out ≡ capacity
      → Step s t
      → (k : M) × (read s ≡ (value k, t))
  only_taken m s t p full (arrives k w) = absurd (cc)
  only_taken m s t p full (passes_on k w room) = absurd (omega arith)
  only_taken m s t p full (stops w) = absurd (cc)
  only_taken m s t p full (is_taken k rest o) = (k, read_value k rest s o)

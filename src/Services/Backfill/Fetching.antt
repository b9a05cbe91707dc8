-- ===== src/Services/Backfill/Fetching.antt =====
-- A batch is fetched concurrently; what it yields does not depend on the order of the answers.
use evm_indexer.Prelude.{
  ℕ, zero, suc, ◌+◌, ◌^◌, ◌<◌, ◌≡◌, refl, ap, ◌∙◌, subst, inl, inr, Option, some, none, List, [],
  ◌∷◌, length, set, get_elem?, replicate, In, Bool-cases, leb, arith,
}
use evm_indexer.Domain.Errors.{Error, Result, ok, err, Result-cases}
use evm_indexer.Domain.Models.{BlockTxsEvents}
use evm_indexer.Services.Backfill.{
  u64, zero_item, keep_first, put_result, IsSchedule, fetch_slots, fetch_batch,
}

module _ {A : Type 0} where
  get_elem?-set_lt :
      (xs : List A) (i : ℕ) (v : A) → i < length xs → get_elem? (set xs i v) i ≡ some v
  get_elem?-set_lt [] i v h = elim h [ ]
  get_elem?-set_lt (x ∷ xs) zero v h = refl
  get_elem?-set_lt (x ∷ xs) (suc i) v h = get_elem?-set_lt xs i v (omega arith)

  -- A write of a value that the slot has already changes nothing that is read.
  get_elem?-set_same :
      (xs : List A) (i j : ℕ) (v w : A)
      → get_elem? xs j ≡ some w
      → (i ≡ j → v ≡ w)
      → get_elem? (set xs i v) j ≡ some w
  get_elem?-set_same [] i j v w h e = h
  get_elem?-set_same (x ∷ xs) zero zero v w h e = ap some (e refl)
  get_elem?-set_same (x ∷ xs) zero (suc j) v w h e = h
  get_elem?-set_same (x ∷ xs) (suc i) zero v w h e = h
  get_elem?-set_same (x ∷ xs) (suc i) (suc j) v w h e =
      get_elem?-set_same xs i j v w h (λ p. e (ap suc p))

  pub length-set : (xs : List A) (i : ℕ) (v : A) → length (set xs i v) ≡ length xs
  length-set [] i v = refl
  length-set (x ∷ xs) zero v = refl
  length-set (x ∷ xs) (suc i) v = ap suc (length-set xs i v)

  length-replicate : (n : ℕ) (a : A) → length (replicate n a) ≡ n
  length-replicate zero a = refl
  length-replicate (suc n) a = ap suc (length-replicate n a)

  pub In-get_elem? : (xs : List A) (i : ℕ) (v : A) → get_elem? xs i ≡ some v → In v xs
  In-get_elem? [] i v h = absurd (ground arith)
  In-get_elem? (x ∷ xs) zero v h = inl (ground arith)
  In-get_elem? (x ∷ xs) (suc i) v h = inr (In-get_elem? xs i v h)

module _ (fetch : ℕ → Result BlockTxsEvents) (curr : ℕ) where
  -- With an error kept, the batch fails with it.
  slots_of_error :
      (is : List ℕ) (e : Error) (results : List BlockTxsEvents)
      → fetch_slots fetch curr is (some e) results ≡ err e
  unfolding fetch_slots
  slots_of_error [] e results = refl
  slots_of_error (i ∷ is) e results =
      slots_of_error is e (put_result results i (fetch (u64 (curr + i))))

  slots-fetched :
      (is : List ℕ) (results res : List BlockTxsEvents)
      → fetch_slots fetch curr is none results ≡ ok res
      → (i : ℕ) → In i is
      → (d : BlockTxsEvents) × (fetch (u64 (curr + i)) ≡ ok d)
  unfolding fetch_slots
  slots-fetched [] results res h i m = absurd m
  slots-fetched (j ∷ is) results res h i m = elim (Result-cases (fetch (u64 (curr + j)))) [
    | inr (e, p) ↦
        absurd (ground (arith, slots_of_error is e (put_result results j (fetch (u64 (curr + j))))))
    | inl (d, p) ↦ elim m [
      | inl here ↦ (d, subst (λ k. fetch (u64 (curr + k)) ≡ ok d) here p)
      | inr there ↦
          slots-fetched is (set results j d) res (rw (p, fetch_slots, keep_first, put_result) at h)
            i there
    ]
  ]

  -- A slot that holds its block's data keeps it.
  slots-kept :
      (is : List ℕ) (results res : List BlockTxsEvents) (j : ℕ) (d : BlockTxsEvents)
      → fetch_slots fetch curr is none results ≡ ok res
      → fetch (u64 (curr + j)) ≡ ok d
      → get_elem? results j ≡ some d
      → get_elem? res j ≡ some d
  unfolding fetch_slots
  slots-kept [] results res j d h f g = ground arith
  slots-kept (i ∷ is) results res j d h f g = elim (Result-cases (fetch (u64 (curr + i)))) [
    | inr (e, p) ↦
        absurd (ground (arith, slots_of_error is e (put_result results i (fetch (u64 (curr + i))))))
    | inl (c, p) ↦
        slots-kept is (set results i c) res j d (rw (p, fetch_slots, keep_first, put_result) at h) f
          (get_elem?-set_same results i j c d g (λ q. cc (ap (λ k. fetch (u64 (curr + k))) q)))
  ]

  agree :
      {i j : ℕ} (c d : BlockTxsEvents)
      → fetch (u64 (curr + i)) ≡ ok c
      → fetch (u64 (curr + j)) ≡ ok d
      → i ≡ j
      → c ≡ d
  agree c d p f here = cc (ap (λ k. fetch (u64 (curr + k))) here)

  slots-filled :
      (is : List ℕ) (results res : List BlockTxsEvents) (j : ℕ) (d : BlockTxsEvents)
      → fetch_slots fetch curr is none results ≡ ok res
      → fetch (u64 (curr + j)) ≡ ok d
      → In j is
      → j < length results
      → get_elem? res j ≡ some d
  unfolding fetch_slots
  slots-filled [] results res j d h f m lt = absurd m
  slots-filled (i ∷ is) results res j d h f m lt = elim (Result-cases (fetch (u64 (curr + i)))) [
    | inr (e, p) ↦
        absurd (ground (arith, slots_of_error is e (put_result results i (fetch (u64 (curr + i))))))
    | inl (c, p) ↦
        let h' : fetch_slots fetch curr is none (set results i c) ≡ ok res =
          rw (p, fetch_slots, keep_first, put_result) at h in
        elim m [
          | inl here ↦ slots-kept is (set results i c) res j d h' f (
              subst (λ k. get_elem? (set results i c) k ≡ some d) here
                (get_elem?-set_lt results i c (omega (arith, here)) ∙ ap some (agree c d p f here)))
          | inr there ↦
              slots-filled is (set results i c) res j d h' f there
                (omega (arith, length-set results i c))
        ]
  ]

  slots-length :
      (is : List ℕ) (first : Option Error) (results res : List BlockTxsEvents)
      → fetch_slots fetch curr is first results ≡ ok res
      → length res ≡ length results
  unfolding fetch_slots
  slots-length [] none results res h = ground arith
  slots-length [] (some e) results res h = absurd (ground arith)
  slots-length (i ∷ is) first results res h = elim (Result-cases (fetch (u64 (curr + i)))) [
    | inr (e, p) ↦
        slots-length is (keep_first first (err e)) results res
          (rw (p, fetch_slots, put_result) at h)
    | inl (d, p) ↦
        slots-length is (keep_first first (ok d)) (set results i d) res
          (rw (p, fetch_slots, put_result) at h)
        ∙ length-set results i d
  ]

-- If a batch returns no error, it has one result for each block, and the result at place `i` is what
-- the node answered for block `curr + i`, in whatever order the fetches finished.
pub fetch_batch_in_order :
    (fetch : ℕ → Result BlockTxsEvents) (schedule : ℕ → ℕ → List ℕ) (batch target curr size : ℕ)
    (res : List BlockTxsEvents)
    → IsSchedule schedule
    → fetch_batch fetch schedule batch target curr size ≡ ok res
    → (length res ≡ size)
      × ((i : ℕ)
          → i < size
          → (d : BlockTxsEvents) × (fetch (u64 (curr + i)) ≡ ok d) × (get_elem? res i ≡ some d))
unfolding fetch_batch
fetch_batch_in_order fetch schedule batch target curr size res v h =
    elim (Bool-cases (leb (2 ^ 63) size)) [
      | inl big ↦ absurd (ground arith)
      | inr small ↦
          let h' : fetch_slots fetch curr (schedule curr size) none (replicate size zero_item)
              ≡ ok res =
            rw small at h in
          (
            slots-length fetch curr (schedule curr size) none (replicate size zero_item) res h'
                ∙ length-replicate size zero_item,
            λ i lt.
                let m = v.complete curr size i lt in
                let (d, f) =
                  slots-fetched fetch curr (schedule curr size) (replicate size zero_item) res h' i
                    m in
                (
                  d,
                  f,
                  slots-filled fetch curr (schedule curr size) (replicate size zero_item) res i d h'
                      f m (omega (arith, length-replicate size zero_item)),
                ),
          )
    ]

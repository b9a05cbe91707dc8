-- ===== src/Services/Backfill/Answered.antt =====
-- The batches of a range for which the node answers.
use evm_indexer.Prelude.{
  ℕ, zero, suc, ◌+◌, ◌-◌, ◌^◌, ◌≤◌, ◌<◌, ◌≡◌, refl, sym, ap, subst, ◌∙◌, inl, inr, none, some, List,
  [], ◌∷◌, In, length, get_elem?, replicate, set, false, leb, arith,
}
use evm_indexer.Domain.Errors.{Result, ok}
use evm_indexer.Domain.Models.{BlockTxsEvents}
use evm_indexer.Repository.Indexer.Succeeds.{Accepts}
use evm_indexer.Services.Backfill.{
  u64, zero_item, batch_end, batch_count, IsSchedule, put_result, keep_first, fetch_slots,
  fetch_batch,
}
use evm_indexer.Services.Backfill.Fetching.{fetch_batch_in_order}
use evm_indexer.Services.Backfill.Progress.{batch_count_exact}
use evm_indexer.Services.Backfill.Agrees.{Fits, Serves, Agrees, Serves-Accepts}

module _ {A : Type 0} where
  get_elem?_of_In :
      (xs : List A) (x : A) → In x xs → (i : ℕ) × (i < length xs) × (get_elem? xs i ≡ some x)
  get_elem?_of_In [] x h = absurd h
  get_elem?_of_In (y ∷ xs) x (inl p) = (zero, omega arith, ap some p)
  get_elem?_of_In (y ∷ xs) x (inr h) =
      let (i, l, p) = get_elem?_of_In xs x h in (suc i, omega arith, p)

-- Where every fetch of a batch is answered, the batch is.
fetch_slots_answer :
    (fetch : ℕ → Result BlockTxsEvents) (curr : ℕ) (is : List ℕ) (results : List BlockTxsEvents)
    → ((i : ℕ) → In i is → (d : BlockTxsEvents) × (fetch (u64 (curr + i)) ≡ ok d))
    → (res : List BlockTxsEvents) × (fetch_slots fetch curr is none results ≡ ok res)
unfolding fetch_slots
fetch_slots_answer fetch curr [] results h = (results, refl)
fetch_slots_answer fetch curr (i ∷ is) results h =
    let (d, p) = h i (inl refl) in
    let (res, q) = fetch_slots_answer fetch curr is (set results i d) (λ j k. h j (inr k)) in
    (res, rw (p, fetch_slots, keep_first, put_result) q)

pub batch_end_length :
    (batch target curr : ℕ)
    → 0 < batch
    → target + batch < 2 ^ 64
    → curr ≤ target
    → batch_end batch target curr < curr + batch
unfolding batch_end
batch_end_length batch target curr b t c = ground arith

-- Each result of a batch is what the node answered for a block of it.
pub fetch_batch-from :
    (fetch : ℕ → Result BlockTxsEvents) (schedule : ℕ → ℕ → List ℕ) (batch target curr end : ℕ)
    (res : List BlockTxsEvents)
    → IsSchedule schedule
    → curr ≤ end
    → end < 2 ^ 64 - 1
    → fetch_batch fetch schedule batch target curr (batch_count curr end) ≡ ok res
    → (item : BlockTxsEvents) → In item res
    → (n : ℕ) × (curr ≤ n) × (n ≤ end) × (fetch n ≡ ok item)
fetch_batch-from fetch schedule batch target curr end res scheduled ce small fetched item m =
    let size = batch_count_exact curr end ce small in
    let (long, slots) =
      fetch_batch_in_order fetch schedule batch target curr (batch_count curr end) res scheduled
        fetched in
    let (i, bound, got) = get_elem?_of_In res item m in
    let (d, p, q) = slots i (omega (arith, long)) in
    let exact : u64 (curr + i) ≡ curr + i = omega (arith, size, long) in
    let same : d ≡ item = ground (arith, sym got ∙ q) in
    (curr + i, omega arith, omega (arith, size, long), ap fetch (sym exact) ∙ p ∙ ap ok same)

-- What the node answers for a block of the range is accepted.
pub answer-Accepts :
    (fetch : ℕ → Result BlockTxsEvents) (lo target n : ℕ) (item : BlockTxsEvents)
    → Serves fetch lo target
    → lo ≤ n
    → n ≤ target
    → fetch n ≡ ok item
    → Accepts (Agrees fetch lo target) item
answer-Accepts fetch lo target n item serves above below p =
    let (c, r, numbered, fits) = serves n above below in
    let same : c ≡ item = ground (arith, sym r ∙ p) in
    let number : item.block.id ≡ n = ap (λ x. x.block.id) (sym same) ∙ numbered in
    Serves-Accepts fetch lo target item (ap fetch number ∙ p) (omega (arith, number))
      (omega (arith, number)) (subst Fits same fits)

-- A batch of the range is fetched.
pub fetch_batch_answer :
    (fetch : ℕ → Result BlockTxsEvents) (schedule : ℕ → ℕ → List ℕ) (batch target lo curr end : ℕ)
    → IsSchedule schedule
    → Serves fetch lo target
    → lo ≤ curr
    → curr ≤ end
    → end ≤ target
    → end < curr + batch
    → target + batch < 2 ^ 64
    → batch < 2 ^ 63
    → (res : List BlockTxsEvents) × (fetch_batch fetch schedule batch target curr
          (batch_count curr end)
        ≡ ok res)
unfolding fetch_batch
fetch_batch_answer fetch schedule batch target lo curr end scheduled serves lc ce et short no_wrap
      sliced =
    let size : batch_count curr end ≡ suc (end - curr) =
      batch_count_exact curr end ce (omega arith) in
    let small : leb (2 ^ 63) (batch_count curr end) ≡ false = ground (arith, size) in
    let (res, p) =
      fetch_slots_answer fetch curr (schedule curr (batch_count curr end))
        (replicate (batch_count curr end) zero_item)
        (λ i m.
          let bound = scheduled.in_range curr (batch_count curr end) i m in
          let exact : u64 (curr + i) ≡ curr + i = omega (arith, size) in
          let (d, q, _, _) = serves (curr + i) (omega arith) (omega (arith, size)) in
          (d, ap fetch exact ∙ q)) in
    (res, rw (small, fetch_batch) p)

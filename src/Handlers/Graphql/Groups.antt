-- ===== src/Handlers/Graphql/Groups.antt =====
-- Which arguments of `Blocks` are accepted, and which method answers them.
use evm_indexer.Prelude.{
  ℕ, ◌+◌, ◌≡◌, ◌≢◌, ◌↔◌, refl, ap, ◌∙◌, ◌⊎◌, inl, inr, Bool-cases, Option-cases, Option, none, some,
  Bool, true, false, none, some, List, [], ◌∷◌, map, arith,
}
use native.Mathlib.Decide.{ℕ_discrete}
use evm_indexer.Domain.Errors.{Result, ok, err, invalid_params}
use evm_indexer.Domain.Models.{BlockTxs}
use evm_indexer.Exec.{World, Exec, pure, ◌>>=◌}
use evm_indexer.Services.Query.{
  QueryRepository, get_block_by_id, get_blocks_with_offset, get_blocks_by_range_time,
}
use evm_indexer.Handlers.Graphql.{
  DtoBlock, BlockFilter, to_block_dto, is_given, has_range_time, has_range_id, check_groups,
  blocks_by, resolve_blocks,
}

abbrev count : Bool → ℕ
count true = 1
count false = 0

-- how many of the three groups of arguments are complete
abbrev pub complete_groups : BlockFilter → ℕ
complete_groups f = count (is_given f.id) + count (has_range_time f) + count (has_range_id f)

check_groups_iff : (f : BlockFilter) → (check_groups f ≡ ok tt) ↔ (complete_groups f ≡ 1)
unfolding check_groups
check_groups_iff f = ground arith

check_groups-refuses :
    (f : BlockFilter) → complete_groups f ≢ 1 → check_groups f ≡ err invalid_params
unfolding check_groups
check_groups-refuses f h = ground arith

is_given-some : {A : Type 0} (o : Option A) → is_given o ≡ true → (a : A) × (o ≡ some a)
is_given-some none h = absurd (ground arith)
is_given-some (some a) h = (a, refl)

module _ (repo : QueryRepository) (offset_max range_max_time : ℕ) where
  abbrev pub shown : Exec (List BlockTxs) → Exec (List DtoBlock)
  shown m = m >>= λ blocks. pure (map to_block_dto blocks)

  resolve_accepted :
      (f : BlockFilter) (w : World)
      → complete_groups f ≡ 1
      → resolve_blocks repo offset_max range_max_time (some f) w
        ≡ shown (blocks_by repo offset_max range_max_time f) w
  unfolding resolve_blocks ◌>>=◌
  resolve_accepted f w h = let e = (check_groups_iff f).1 h in rw e refl

  by_id :
      (f : BlockFilter) (id : ℕ)
      → f.id ≡ some id
      → blocks_by repo offset_max range_max_time f
        ≡ (get_block_by_id repo id false >>= λ b. pure (b ∷ []))
  by_id f id p = rw p refl

  by_time :
      (f : BlockFilter) (from to : ℕ)
      → f.id ≡ none
      → f.from_time ≡ some from
      → f.to_time ≡ some to
      → blocks_by repo offset_max range_max_time f
        ≡ get_blocks_by_range_time repo range_max_time from to false
  by_time f from to n p q = rw (n, p, q) refl

  by_range :
      (f : BlockFilter) (from offset : ℕ)
      → f.id ≡ none
      → has_range_time f ≡ false
      → f.from_id ≡ some from
      → f.offset ≡ some offset
      → blocks_by repo offset_max range_max_time f
        ≡ get_blocks_with_offset repo offset_max from offset false
  by_range f from offset n t p q = rw (n, t, p, q) refl

  -- The answer of `Blocks`, by the groups of arguments.
  abbrev pub IsAnswered : BlockFilter → World → Result (List DtoBlock) × World → Type 0
  IsAnswered f w r =
      ((complete_groups f ≢ 1) × (r ≡ (err invalid_params, w)))
      ⊎ ((complete_groups f ≡ 1)
          × (((id : ℕ) × (f.id ≡ some id)
                × (r ≡ shown (get_block_by_id repo id false >>= λ b. pure (b ∷ [])) w))
              ⊎ ((from to : ℕ) × (f.from_time ≡ some from)
                  × (f.to_time ≡ some to)
                  × (r ≡ shown (get_blocks_by_range_time repo range_max_time from to false) w))
              ⊎ ((from offset : ℕ) × (f.from_id ≡ some from)
                  × (f.offset ≡ some offset)
                  × (r ≡ shown (get_blocks_with_offset repo offset_max from offset false) w))))

  IsAnswered-by_range :
      (f : BlockFilter) (w : World)
      → complete_groups f ≡ 1
      → f.id ≡ none
      → IsAnswered f w (resolve_blocks repo offset_max range_max_time (some f) w)
  IsAnswered-by_range f w h n = elim (Bool-cases (has_range_time f)) [
    | inl t ↦
        let (from, p) = is_given-some f.from_time (ground arith) in
        let (to, q) = is_given-some f.to_time (ground arith) in
        inr (
          h,
          inr (
              inl (
                from,
                to,
                p,
                q,
                resolve_accepted f w h ∙ ap (λ m. shown m w) (by_time f from to n p q),
              )),
        )
    | inr t ↦
        let (from, p) = is_given-some f.from_id (ground arith) in
        let (offset, q) = is_given-some f.offset (ground arith) in
        inr (
          h,
          inr (
              inr (
                from,
                offset,
                p,
                q,
                resolve_accepted f w h ∙ ap (λ m. shown m w) (by_range f from offset n t p q),
              )),
        )
  ]

  -- `Blocks` refuses its arguments, before any query, unless exactly one of the groups (id), (fromTime,
  -- toTime) and (fromId, offset) is complete; then it answers what the service's method for that
  -- group answers without transactions, whatever is given of the other groups.
  pub resolve_blocks-IsAnswered :
      (f : BlockFilter) (w : World)
      → IsAnswered f w (resolve_blocks repo offset_max range_max_time (some f) w)
  unfolding resolve_blocks ◌>>=◌
  resolve_blocks-IsAnswered f w = elim (ℕ_discrete (complete_groups f) 1) [
    | no h ↦ inl (h, rw (check_groups-refuses f h) refl)
    | yes h ↦ elim (Option-cases f.id) [
      | inl n ↦ IsAnswered-by_range f w h n
      | inr (id, p) ↦
          inr (h, inl (id, p, resolve_accepted f w h ∙ ap (λ m. shown m w) (by_id f id p)))
    ]
  ]

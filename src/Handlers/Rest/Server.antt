-- ===== src/Handlers/Rest/Server.antt =====
-- internal/handlers/rest/handlers.go: one function per route. A request's timeout is one of the
-- outcomes of the exchanges.
use evm_indexer.Prelude.{ℕ, str, ◌||◌, not, List, [], ◌∷◌, if◌then◌else◌}
use evm_indexer.Domain.Errors.{Result, ok, err}
use evm_indexer.Domain.Models.{Transaction, Event, BlockTxs}
use evm_indexer.Exec.{World, Exec}
use evm_indexer.Services.Query.{
  QueryRepository, get_block_by_id, get_block_by_hash, get_blocks_with_offset,
  get_blocks_by_range_time, get_events_by_filter, get_event_by_tx_hash_log_index,
  get_transactions_by_filter,
}
use evm_indexer.Handlers.Rest.Numbers.{atoi}
use evm_indexer.Handlers.Rest.{
  GroupParam, id_param, hash_param, from_offset_param, from_to_time_param, BlockDto, Query, given,
  extract_block_dto, extract_event_filter, extract_tx_filter, status_of,
}

-- What is encoded as JSON, or that an error's text is sent.
pub data Body : Type 0 where
  blocks : List BlockTxs → Body
  events : List Event → Body
  event : Event → Body
  transactions : List Transaction → Body
  message : Body

pub record Response : Type 0 where
  pub status : ℕ
  pub body : Body

abbrev pub bad_request : Response
bad_request = record { status = 400; body = message }

-- the answer of the service, or its error's status
unfoldable pub respond : {A : Type 0} → (A → Body) → Result A → Response
respond f (ok a) = record { status = 200; body = f a }
respond f (err e) = record { status = status_of e; body = message }

unfoldable pub serve : {A : Type 0} → (A → Body) → Exec A → World → Response × World
unfolding respond
serve f m w = let (r, v) = m w in (respond f r, v)

-- a request whose query is not accepted asks nothing of the service
unfoldable pub accepted :
    {A : Type 0} → Result A → (A → World → Response × World) → World → Response × World
accepted (ok a) f w = f a w
accepted (err e) f w = (bad_request, w)

module _ (repo : QueryRepository) (offset_max range_max_time : ℕ) where
  unfoldable pub blocks_of : BlockDto → GroupParam → World → Response × World
  unfolding serve
  blocks_of d id_param = serve (λ b. blocks (b ∷ [])) (get_block_by_id repo d.id d.tx)
  blocks_of d hash_param = serve (λ b. blocks (b ∷ [])) (get_block_by_hash repo d.hash d.tx)
  blocks_of d from_offset_param =
      serve blocks (get_blocks_with_offset repo offset_max d.from d.offset d.tx)
  blocks_of d from_to_time_param =
      serve blocks (get_blocks_by_range_time repo range_max_time d.from_time d.to_time d.tx)

  unfoldable pub get_block : Query → World → Response × World
  unfolding accepted blocks_of
  get_block q = accepted (extract_block_dto q) (λ d. blocks_of d d.group_param)

  unfoldable pub get_event : Query → World → Response × World
  unfolding accepted serve
  get_event q =
      accepted (extract_event_filter q) (λ f. serve events (get_events_by_filter repo offset_max f))

  unfoldable pub get_event_by_tx_log : Query → World → Response × World
  unfolding accepted serve
  get_event_by_tx_log q w =
      if not (given (q (str "txHash"))) || not (given (q (str "logIndex")))
      then (bad_request, w)
      else accepted (atoi (q (str "logIndex")))
          (λ n. serve event (get_event_by_tx_hash_log_index repo (q (str "txHash")) n)) w

  unfoldable pub get_transaction : Query → World → Response × World
  unfolding accepted serve
  get_transaction q =
      accepted (extract_tx_filter q)
        (λ f. serve transactions (get_transactions_by_filter repo offset_max f))

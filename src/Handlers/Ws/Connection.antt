-- ===== src/Handlers/Ws/Connection.antt =====
-- The two goroutines of a connection: entitySubscription of internal/handlers/ws/router.go reads it,
-- messageWriter of internal/handlers/ws/client.go writes to it. They share the client, and the first
-- that fails makes it leave.
use evm_indexer.Prelude.{Bool, true, false, Option, List, [], ◌∷◌}
use evm_indexer.Handlers.Ws.{
  SubscribeMessage, Hub, Client, done, refused, blocked, subscribe, Left, left, waits, delete,
}

-- What the connection reads: a text, with whether an error could be written back, or a failure.
pub data Frame : Type 0 where
  text : Option SubscribeMessage → Bool → Frame
  read_error : Frame

-- `entitySubscription`'s loop; a list that ends is a connection that is still open
unfoldable pub serve : List Frame → Client → Hub → Client × Left
unfolding subscribe delete
serve [] c h = (c, left h)
serve (read_error ∷ frames) c h = delete c h
serve (text sub written ∷ frames) c h = elim (subscribe sub c h) [
  | done (c', h') ↦ serve frames c' h'
  | refused e ↦ elim written [ true ↦ serve frames c h | false ↦ delete c h ]
  | blocked ↦ (c, waits h)
]

-- What wakes the writer: the context's end, a message that is written or not, the closed channel.
pub data Wake : Type 0 where
  cancelled : Wake
  message : Bool → Wake
  closed_channel : Wake

-- `messageWriter`'s loop
unfoldable pub write_messages : List Wake → Client → Hub → Client × Left
unfolding delete
write_messages [] c h = (c, left h)
write_messages (cancelled ∷ wakes) c h = delete c h
write_messages (message true ∷ wakes) c h = write_messages wakes c h
write_messages (message false ∷ wakes) c h = delete c h
write_messages (closed_channel ∷ wakes) c h = (c, left h)

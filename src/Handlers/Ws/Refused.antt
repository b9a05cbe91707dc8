-- ===== src/Handlers/Ws/Refused.antt =====
-- What a connection that sends wrong subscriptions does to the others: nothing.
use evm_indexer.Prelude.{◌≡◌, refl, ◌∙◌, inl, inr, true, none, some, In, List, [], ◌∷◌, ◌++◌, arith}
use evm_indexer.Domain.Errors.{Error, err}
use evm_indexer.Handlers.Ws.{
  SubscribeMessage, Hub, Client, validate_subscription, subscribe, subscribe_checked,
}
use evm_indexer.Handlers.Ws.Connection.{Frame, text, serve}

-- A text that is no subscription of a known topic, with an answer that could be written.
pub data IsRefused : Frame → Type 0 where
  no_json : IsRefused (text none true)
  not_valid :
      {sub : SubscribeMessage} {e : Error}
      → validate_subscription sub ≡ err e
      → IsRefused (text (some sub) true)

refused_step :
    (f : Frame) (frames : List Frame) (c : Client) (h : Hub)
    → IsRefused f
    → serve (f ∷ frames) c h ≡ serve frames c h
unfolding serve subscribe subscribe_checked
refused_step _ frames c h no_json = refl
refused_step _ frames c h (not_valid {sub} {e} p) = ground arith

-- However many texts of a connection are refused, client and hub are as before them, and the
-- connection is served on.
serve-refused :
    (bad frames : List Frame) (c : Client) (h : Hub)
    → ((f : Frame) → In f bad → IsRefused f)
    → serve (bad ++ frames) c h ≡ serve frames c h
serve-refused [] frames c h all = refl
serve-refused (f ∷ bad) frames c h all =
    refused_step f (bad ++ frames) c h (all f (inl refl))
    ∙ serve-refused bad frames c h (λ g i. all g (inr i))

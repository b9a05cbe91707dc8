-- ===== src/Fetcher/Heads.antt =====
-- `Subscribe` of internal/fetcher/fetcher.go: the numbers of new blocks on a channel that is closed at
-- its end. A connection that fails may be followed by another, if backoff.Retry still tries.
use evm_indexer.Prelude.{
  append_assoc, ℕ, ◌%◌, ◌^◌, ◌≡◌, refl, sym, ap, ◌∙◌, Bool, true, false, Option, none, some, List,
  [], ◌∷◌, ◌++◌, map,
}
use evm_indexer.Domain.Errors.{Error, Result, ok, err}
use evm_indexer.Fetcher.Attempts.{Attempt, success, again, permanent, crash}

-- what the `select` receives; the subscription's error is nil where it was ended
pub data HeadEvent : Type 0 where
  header : ℕ → HeadEvent
  ended : Option Error → HeadEvent
  stopped : Error → HeadEvent

pub record Connection : Type 0 where
  -- `SubscribeNewHead`
  pub opened : Result (Unit {0})
  -- an end of this list is a subscription that goes on
  pub events : List HeadEvent
  -- whether backoff.Retry tries again after an error of this connection
  pub tries_again : Bool

-- What was sent, and what the operation returned, if it has.
abbrev pub Heard : Type 0
Heard = List ℕ × Option (Attempt (Unit {0}))

-- `c <- result.Number.Uint64()`
abbrev pub sent_first : ℕ → Heard → Heard
sent_first n (sent, r) = ((n % 2 ^ 64) ∷ sent, r)

unfoldable pub listen : List HeadEvent → Heard
listen [] = ([], none)
listen (header n ∷ events) = sent_first n (listen events)
listen (ended none ∷ events) = ([], some (success tt))
listen (ended (some e) ∷ events) = ([], some (again e))
listen (stopped e ∷ events) = ([], some (permanent e))

unfoldable pub connect : Connection → Heard
unfolding listen
connect c = elim c.opened [ ok _ ↦ listen c.events | err e ↦ ([], some (permanent e)) ]

-- All that was sent, and the error or nil that is returned; `none` is a channel that is still open.
abbrev pub Subscribed : Type 0
Subscribed = List ℕ × Option (Result (Unit {0}))

abbrev pub retried : Heard → Bool → Subscribed → Subscribed
retried (sent, none) more rest = (sent, none)
retried (sent, some (success _)) more rest = (sent, some (ok tt))
retried (sent, some (again e)) true rest = (sent ++ rest.0, rest.1)
retried (sent, some (again e)) false rest = (sent, some (err e))
retried (sent, some (permanent e)) more rest = (sent, some (err e))
retried (sent, some crash) more rest = (sent, none)

unfoldable pub subscribe : List Connection → Subscribed
unfolding connect
subscribe [] = ([], none)
subscribe (c ∷ connections) = retried (connect c) c.tries_again (subscribe connections)

-- A connection that announced these numbers and then failed, with another tried after it.
abbrev pub dropped : List ℕ × Error → Connection
dropped (numbers, e) = record {
  opened = ok tt;
  events = map header numbers ++ (ended (some e) ∷ []);
  tries_again = true;
}

abbrev pub low_bits : List ℕ → List ℕ
low_bits numbers = map (λ n. n % 2 ^ 64) numbers

abbrev pub announced : List (List ℕ × Error) → List ℕ
announced [] = []
announced ((numbers, e) ∷ rest) = low_bits numbers ++ announced rest

listen-dropped :
    (numbers : List ℕ) (e : Error)
    → listen (map header numbers ++ (ended (some e) ∷ [])) ≡ (low_bits numbers, some (again e))
unfolding listen
listen-dropped [] e = refl
listen-dropped (n ∷ numbers) e = ap (sent_first n) (listen-dropped numbers e)

-- Over connections that fail and are followed by others, each announced number is sent once, in order,
-- and the channel stays open until the last connection's end.
pub subscribe-dropped :
    (failed : List (List ℕ × Error)) (connections : List Connection)
    → subscribe (map dropped failed ++ connections)
      ≡ (announced failed ++ (subscribe connections).0, (subscribe connections).1)
unfolding subscribe connect
subscribe-dropped [] connections = refl
subscribe-dropped ((numbers, e) ∷ failed) connections =
    ap (λ h. retried h true (subscribe (map dropped failed ++ connections)))
      (listen-dropped numbers e)
    ∙ ap (λ (r : Subscribed). retried (low_bits numbers, some (again e)) true r)
        (subscribe-dropped failed connections)
    ∙ ap (λ sent. (sent, (subscribe connections).1))
        (sym (append_assoc (low_bits numbers) (announced failed) (subscribe connections).0))

-- ===== src/Shared/Rmq/Channels.antt =====
-- Which channels a subscription leaves open.
use alpine_judge.Common.{
  ℕ, ◌≡◌, ◌≢◌, ◌↔◌, Bool, true, false, none, some, List, [], ◌∷◌, ◌++◌, arith,
}
use alpine_judge.Common.Text.{Bytes, str}
use alpine_judge.Shared.Rmq.{
  Broker, ChannelOp, returned, opened, closed, declared_queue, declared_exchange, bound, limited,
  consumed, published, subscribe, subscribe_to_exchange,
}

-- Whether the channel that was opened has been closed again.
abbrev pub is_closed : List ChannelOp → Bool
is_closed [] = false
is_closed (closed ∷ ops) = true
is_closed (opened ∷ ops) = is_closed ops
is_closed (declared_queue q ∷ ops) = is_closed ops
is_closed (declared_exchange e ∷ ops) = is_closed ops
is_closed (bound q k e ∷ ops) = is_closed ops
is_closed (limited n ∷ ops) = is_closed ops
is_closed (consumed q t ∷ ops) = is_closed ops
is_closed (published e k m ∷ ops) = is_closed ops

-- A subscription to an exchange, once its channel is open, fails exactly when it has closed the
-- channel: no channel is left behind on any error, and a channel in use is never closed.
subscribe_to_exchange-is_closed :
    (B : Broker) (capacity : ℕ) (exchange key tag : Bytes)
    → B.open_channel ≡ none
    → (is_closed (subscribe_to_exchange B capacity exchange key tag).1 ≡ true)
      ↔ ((subscribe_to_exchange B capacity exchange key tag).0 ≢ none)
unfolding subscribe_to_exchange
subscribe_to_exchange-is_closed B capacity exchange key tag opens = ground arith

-- A subscription to a queue leaves its channel open when the prefetch limit is refused, although
-- it reports the error, while a refused declaration closes it.
subscribe_qos-leak :
    (B : Broker) (capacity : ℕ) (queue tag text : Bytes)
    → B.open_channel ≡ none
    → B.queue_declare queue ≡ none
    → B.qos capacity ≡ some text
    → ((error : Bytes) × ((subscribe B capacity queue tag).0 ≡ returned (some error)))
      × (is_closed (subscribe B capacity queue tag).1 ≡ false)
unfolding subscribe
subscribe_qos-leak B capacity queue tag text opens declared refused =
    ((str "failed to set consumer QoS prefetch: " ++ text, ground arith), ground arith)

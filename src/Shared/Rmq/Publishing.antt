-- ===== src/Shared/Rmq/Publishing.antt =====
-- What publishing to a queue or an exchange asks of the broker.
use alpine_judge.Common.{◌≡◌, ◌↔◌, none, [], ◌∷◌, arith}
use alpine_judge.Common.Text.{Bytes}
use alpine_judge.Shared.Rmq.{
  Message, Broker, declared_queue, published, publish, publish_to_exchange,
}

-- A message is reported as published exactly when its queue could be declared and the broker took
-- the message, and then these two operations, in this order, are all that was done.
publish-none_iff :
    (B : Broker) (queue : Bytes) (msg : Message)
    → (publish B queue msg ≡ (none, declared_queue queue ∷ published [] queue msg ∷ []))
      ↔ ((B.queue_declare queue ≡ none) × (B.publish [] queue msg ≡ none))
unfolding publish
publish-none_iff B queue msg = ground arith

-- Whatever fails, a message is never sent to an exchange before the exchange was declared.
pub publish_to_exchange-none_iff :
    (B : Broker) (exchange key : Bytes) (msg : Message)
    → ((publish_to_exchange B exchange key msg).0 ≡ none)
      ↔ ((B.exchange_declare exchange ≡ none) × (B.publish exchange key msg ≡ none))
unfolding publish_to_exchange
publish_to_exchange-none_iff B exchange key msg = ground arith

-- ===== src/Shared/Rmq.antt =====
-- shared/rmqmanager.go. The AMQP client is a parameter; what a method asks of it is the list of
-- its operations, those that fail included.
pub mod Backoff
pub mod Publishing
pub mod Channels
pub mod Piping
pub mod Closing
use alpine_judge.Common.{
  ℕ, zero, suc, ◌+◌, ◌*◌, Bool, true, false, Option, none, some, List, [], ◌∷◌, ◌++◌,
}
use alpine_judge.Common.{ltb, if◌then◌else◌}
use alpine_judge.Common.Text.{Bytes, str}

-- `amqp.Publishing`
pub record Message : Type 0 where
  pub content_type : Bytes
  pub message_id : Bytes
  pub body : Bytes

-- The errors of a channel's operations: declaring a queue (by name) or an exchange, binding a
-- queue to a key of an exchange, limiting the prefetch, consuming a queue, and publishing to an
-- exchange under a key. A queue declared without a name gets one from the server.
pub record Broker : Type 0 where
  pub open_channel : Option Bytes
  pub queue_declare : Bytes → Option Bytes
  pub server_name : Bytes
  pub exchange_declare : Bytes → Option Bytes
  pub queue_bind : Bytes → Bytes → Bytes → Option Bytes
  pub qos : ℕ → Option Bytes
  pub consume : Bytes → Bytes → Option Bytes
  pub publish : Bytes → Bytes → Message → Option Bytes

pub data ChannelOp : Type 0 where
  opened closed : ChannelOp
  declared_queue declared_exchange : Bytes → ChannelOp
  bound : Bytes → Bytes → Bytes → ChannelOp
  limited : ℕ → ChannelOp
  consumed : Bytes → Bytes → ChannelOp
  published : Bytes → Bytes → Message → ChannelOp

-- How a method ends: with its error, if any, or by the panic of `failOnError`.
pub data Outcome : Type 0 where
  returned : Option Bytes → Outcome
  panicked : Bytes → Outcome

-- `NewRMQManager`. `dial k` is the error of the k-th attempt to connect, counted from 0, and
-- `cancelled k` says whether the context ends during the wait that follows it. The waits, in
-- seconds, are listed.
pub data Connection : Type 0 where
  connected context_ended channel_failed out_of_fuel : Connection

-- What follows the loop: the channel for publishing is opened; where it is not, the connection
-- is closed again (`closed_on` of Shared.Rmq.Closing).
open_publisher : Broker → Connection × List ℕ → Connection × List ℕ
open_publisher B (connected, waits) = elim B.open_channel [
  | none ↦ (connected, waits)
  | some _ ↦ (channel_failed, waits)
]
open_publisher B (other, waits) = (other, waits)

module _ (dial : ℕ → Option Bytes) (cancelled : ℕ → Bool) where
  -- The loop, after attempt `k` with the variable `i`.
  pub connect : ℕ → ℕ → ℕ → Connection × List ℕ
  connect zero k i = (out_of_fuel, [])
  connect (suc fuel) k i = elim (dial k) [
    | none ↦ (connected, [])
    | some _ ↦
        let rest = connect fuel (k + 1) (if ltb i 6 then i + 1 else i) in
        let waited : Connection × List ℕ =
          if cancelled k then (context_ended, []) else (rest.0, rest.1) in
        (waited.0, 10 * i ∷ waited.1)
  ]

  pub new_rmq_manager : Broker → ℕ → Connection × List ℕ
  unfolding open_publisher
  new_rmq_manager B fuel = open_publisher B (connect fuel 0 1)

module _ (B : Broker) where
  -- `Publish`
  unfoldable pub publish : Bytes → Message → Option Bytes × List ChannelOp
  publish queue msg = elim (B.queue_declare queue) [
    | some text ↦
        (some (str "failed to declare target publish queue: " ++ text), declared_queue queue ∷ [])
    | none ↦ elim (B.publish [] queue msg) [
      | some text ↦ (
        some (str "Failed to publish message: " ++ text ++ str "\n"),
        declared_queue queue ∷ published [] queue msg ∷ [],
      )
      | none ↦ (none, declared_queue queue ∷ published [] queue msg ∷ [])
    ]
  ]

  -- `PublishToExchange`
  unfoldable pub publish_to_exchange : Bytes → Bytes → Message → Option Bytes × List ChannelOp
  publish_to_exchange exchange key msg = elim (B.exchange_declare exchange) [
    | some text ↦
        (some (str "failed to declare target exchnage: " ++ text), declared_exchange exchange ∷ [])
    | none ↦ elim (B.publish exchange key msg) [
      | some text ↦ (
        some (
            str "Failed to publish message on exchange ("
            ++ exchange
            ++ str "): "
            ++ text
            ++ str "\n"),
        declared_exchange exchange ∷ published exchange key msg ∷ [],
      )
      | none ↦ (none, declared_exchange exchange ∷ published exchange key msg ∷ [])
    ]
  ]

  -- `Subscribe` up to the goroutine that pipes the deliveries; `capacity` is `cap(localQueue)`.
  unfoldable pub subscribe : ℕ → Bytes → Bytes → Outcome × List ChannelOp
  subscribe capacity queue tag = elim B.open_channel [
    | some text ↦
        (returned (some (str "failed to open dedicated consumer channel: " ++ text)), opened ∷ [])
    | none ↦ elim (B.queue_declare queue) [
      | some text ↦ (
        returned (some (str "failed to declare queue " ++ queue ++ str ": " ++ text)),
        opened ∷ declared_queue queue ∷ closed ∷ [],
      )
      | none ↦ elim (B.qos capacity) [
        | some text ↦ (
          returned (some (str "failed to set consumer QoS prefetch: " ++ text)),
          opened ∷ declared_queue queue ∷ limited capacity ∷ [],
        )
        | none ↦ elim (B.consume queue tag) [
          | some text ↦ (
            panicked text,
            opened ∷ declared_queue queue ∷ limited capacity ∷ consumed queue tag ∷ [],
          )
          | none ↦ (
            returned none,
            opened ∷ declared_queue queue ∷ limited capacity ∷ consumed queue tag ∷ [],
          )
        ]
      ]
    ]
  ]

  -- `SubscribeToExchange`, likewise; `tag` is the consumer tag that it makes of the key and the
  -- time.
  unfoldable pub subscribe_to_exchange : ℕ → Bytes → Bytes → Bytes → Option Bytes × List ChannelOp
  subscribe_to_exchange capacity exchange key tag = elim B.open_channel [
    | some text ↦ (some (str "failed to open dedicated consumer channel: " ++ text), opened ∷ [])
    | none ↦ elim (B.exchange_declare exchange) [
      | some text ↦ (
        some (str "failed to declare exchange " ++ exchange ++ str ": " ++ text),
        opened ∷ declared_exchange exchange ∷ closed ∷ [],
      )
      | none ↦ elim (B.queue_declare []) [
        | some text ↦ (
          some (str "failed to declare transient queue: " ++ text),
          opened ∷ declared_exchange exchange ∷ declared_queue [] ∷ closed ∷ [],
        )
        | none ↦ elim (B.queue_bind B.server_name key exchange) [
          | some text ↦ (
            some (
                str "failed to bind queue "
                ++ B.server_name
                ++ str " to key "
                ++ key
                ++ str ": "
                ++ text),
            opened
                ∷ declared_exchange exchange
                ∷ declared_queue []
                ∷ bound B.server_name key exchange
                ∷ closed
                ∷ [],
          )
          | none ↦ elim (B.qos capacity) [
            | some text ↦ (
              some (str "failed to set consumer QoS: " ++ text),
              opened
                  ∷ declared_exchange exchange
                  ∷ declared_queue []
                  ∷ bound B.server_name key exchange
                  ∷ limited capacity
                  ∷ closed
                  ∷ [],
            )
            | none ↦ elim (B.consume B.server_name tag) [
              | some text ↦ (
                some (str "failed to register consumer: " ++ text),
                opened
                    ∷ declared_exchange exchange
                    ∷ declared_queue []
                    ∷ bound B.server_name key exchange
                    ∷ limited capacity
                    ∷ consumed B.server_name tag
                    ∷ closed
                    ∷ [],
              )
              | none ↦ (
                none,
                opened
                    ∷ declared_exchange exchange
                    ∷ declared_queue []
                    ∷ bound B.server_name key exchange
                    ∷ limited capacity
                    ∷ consumed B.server_name tag
                    ∷ [],
              )
            ]
          ]
        ]
      ]
    ]
  ]

-- ===== src/Runner/ExecSubm/Forwarding.antt =====
-- What subscribers and the storage get of a session of the agent.
use alpine_judge.Common.{◌≡◌, refl, ap, true, none, List, [], ◌∷◌, ◌++◌, map}
use alpine_judge.Common.{All, list_eq, nat_eq}
use alpine_judge.Common.Results.{io_ok}
use alpine_judge.Common.Text.{Bytes}
use alpine_judge.Utils.Executes.{Event, RmqPayload}
use alpine_judge.Shared.Rmq.{
  Message, Broker, ChannelOp, declared_exchange, published, publish_to_exchange,
}
use alpine_judge.Runner.ExecSubm.{
  Json, rmq_payload, json_message, route_to_rmq, forward_event, forward_events,
}

-- A broker that takes an exchange and every message for a key of it.
pub record Takes (B : Broker) (exchange key : Bytes) : Type 0 where
  pub declares : B.exchange_declare exchange ≡ none
  pub publishes : (msg : Message) → B.publish exchange key msg ≡ none

-- The encoding of payloads as JSON: the text of each, which is valid.
pub record Encodes (json : Json) (text : RmqPayload → Bytes) : Type 0 where
  pub marshals : (p : RmqPayload) → json.marshal p ≡ io_ok (text p)
  pub valid : (p : RmqPayload) → json.is_valid (text p) ≡ true

-- The publishing of one event for a subscriber of the submission.
abbrev pub publishing : Bytes → Bytes → (RmqPayload → Bytes) → Event → List ChannelOp
publishing exchange submission_id text e =
    declared_exchange exchange
    ∷ published exchange submission_id (json_message (text (rmq_payload e)))
    ∷ []

abbrev pub flat_map {ℓ} : {A B : Type ℓ} → (A → List B) → List A → List B
flat_map f [] = []
flat_map f (x ∷ xs) = f x ++ flat_map f xs

publish_to_exchange-taken :
    (B : Broker) (exchange key : Bytes) (msg : Message)
    → Takes B exchange key
    → (publish_to_exchange B exchange key msg).1
      ≡ declared_exchange exchange ∷ published exchange key msg ∷ []
unfolding publish_to_exchange
publish_to_exchange-taken B exchange key msg takes =
    rw (takes.declares, publish_to_exchange, takes.publishes msg) refl

forward_event-publishing :
    (json : Json) (B : Broker) (exchange submission_id line : Bytes) (text : RmqPayload → Bytes)
    → (e : Event) → Encodes json text
    → Takes B exchange submission_id
    → rmq_payload (json.unmarshal line) ≡ rmq_payload e
    → (forward_event json B exchange submission_id line).ops
      ≡ publishing exchange submission_id text e
unfolding forward_event
forward_event-publishing json B exchange submission_id line text e enc takes decoded =
    rw (decoded, enc.marshals (rmq_payload e), enc.valid (rmq_payload e), route_to_rmq)
      (publish_to_exchange-taken B exchange submission_id (json_message (text (rmq_payload e)))
        takes)

-- Every event that the agent sends is published once, in the order of sending, under the
-- submission's ID, with its type, status and details and without its output. It holds for a broker
-- that takes the messages, and for lines that decode to the events they encode, up to their output.
pub forward_events-in_order :
    (json : Json) (B : Broker) (exchange submission_id : Bytes) (text : RmqPayload → Bytes)
    → (encode : Event → Bytes) (events : List Event) → Encodes json text
    → Takes B exchange submission_id
    → All (λ e. rmq_payload (json.unmarshal (encode e)) ≡ rmq_payload e) events
    → (forward_events json B exchange submission_id (map encode events)).ops
      ≡ flat_map (publishing exchange submission_id text) events
unfolding forward_events
forward_events-in_order json B exchange submission_id text encode [] enc takes decodes = refl
forward_events-in_order json B exchange submission_id text encode (e ∷ events) enc takes
      (decoded, decodes) =
    rw (forward_event-publishing json B exchange submission_id (encode e) text e enc takes decoded)
      (ap (λ ops. publishing exchange submission_id text e ++ ops)
        (forward_events-in_order json B exchange submission_id text encode events enc takes
          decodes))

-- ===== src/Dispatcher/Endpoints/Streaming.antt =====
-- The event stream to a client.
use alpine_judge.Common.{ℕ, ◌≡◌, refl, true, false, List, [], ◌∷◌, map, ap}
use alpine_judge.Common.{◌↔◌, Bool, Option, none, some, Option-cases, inl, inr}
use alpine_judge.Shared.Rmq.{Broker, subscribe_to_exchange}
use alpine_judge.Dispatcher.Endpoints.{streamed, sse_handler}
use alpine_judge.Common.Text.{Bytes}
use alpine_judge.Dispatcher.Endpoints.{
  SseEvent, client_gone, queue_closed, delivery, SseOp, wrote, flushed, acked, nacked, sse_frame,
  sse_loop,
}

-- The deliveries that reach the client: those before the first event of another kind.
abbrev pub delivered : List SseEvent → List (ℕ × Bytes)
delivered [] = []
delivered (client_gone ∷ events) = []
delivered (queue_closed ∷ events) = []
delivered (delivery tag body true ∷ events) = (tag, body) ∷ delivered events
delivered (delivery tag body false ∷ events) = []

-- The frames that are written, and the tags that are acknowledged.
abbrev pub frames : List SseOp → List Bytes
frames [] = []
frames (wrote f ∷ ops) = f ∷ frames ops
frames (flushed ∷ ops) = frames ops
frames (acked t ∷ ops) = frames ops
frames (nacked t ∷ ops) = frames ops

abbrev pub acks : List SseOp → List ℕ
acks [] = []
acks (wrote f ∷ ops) = acks ops
acks (flushed ∷ ops) = acks ops
acks (acked t ∷ ops) = t ∷ acks ops
acks (nacked t ∷ ops) = acks ops

-- No acknowledgement comes before the frame of its delivery has been written and flushed, and a
-- rejection is the last operation.
pub data IsOrdered : List SseOp → Type 0 where
  quiet : IsOrdered []
  rejected : (tag : ℕ) → IsOrdered (nacked tag ∷ [])
  served :
      (f : Bytes) (tag : ℕ) {ops : List SseOp}
      → IsOrdered ops
      → IsOrdered (wrote f ∷ flushed ∷ acked tag ∷ ops)

sse_loop-IsOrdered : (events : List SseEvent) → IsOrdered (sse_loop events)
unfolding sse_loop
sse_loop-IsOrdered [] = quiet
sse_loop-IsOrdered (client_gone ∷ events) = quiet
sse_loop-IsOrdered (queue_closed ∷ events) = quiet
sse_loop-IsOrdered (delivery tag body true ∷ events) =
    served (sse_frame body) tag (sse_loop-IsOrdered events)
sse_loop-IsOrdered (delivery tag body false ∷ events) = rejected tag

sse_loop-frames :
    (events : List SseEvent)
    → frames (sse_loop events) ≡ map (λ d. sse_frame d.1) (delivered events)
unfolding sse_loop
sse_loop-frames [] = refl
sse_loop-frames (client_gone ∷ events) = refl
sse_loop-frames (queue_closed ∷ events) = refl
sse_loop-frames (delivery tag body true ∷ events) =
    ap (λ fs. sse_frame body ∷ fs) (sse_loop-frames events)
sse_loop-frames (delivery tag body false ∷ events) = refl

sse_loop-acks :
    (events : List SseEvent) → acks (sse_loop events) ≡ map (λ d. d.0) (delivered events)
unfolding sse_loop
sse_loop-acks [] = refl
sse_loop-acks (client_gone ∷ events) = refl
sse_loop-acks (queue_closed ∷ events) = refl
sse_loop-acks (delivery tag body true ∷ events) = ap (λ ts. tag ∷ ts) (sse_loop-acks events)
sse_loop-acks (delivery tag body false ∷ events) = refl

-- The client gets one frame for each delivery up to the first failed write, or the end of the
-- connection or of the queue, in the order of the deliveries; exactly those are acknowledged, each
-- after its frame was written and flushed, and a delivery that is rejected is the last.
pub sse_loop-serves :
    (events : List SseEvent)
    → (frames (sse_loop events) ≡ map (λ d. sse_frame d.1) (delivered events))
      × (acks (sse_loop events) ≡ map (λ d. d.0) (delivered events))
      × IsOrdered (sse_loop events)
sse_loop-serves events = (sse_loop-frames events, sse_loop-acks events, sse_loop-IsOrdered events)

-- The events of a submission are streamed exactly when the connection can flush, the name of the
-- exchange is set, and the subscription under the submission's ID succeeds.
sse_handler-streams_iff :
    (flusher : Bool) (exchange : Option Bytes) (B : Broker) (id tag : Bytes)
    → (events : List SseEvent)
    → (sse_handler flusher exchange B id tag events ≡ streamed (sse_loop events)) ↔ (
        (flusher ≡ true)
        × ((name : Bytes) × (exchange ≡ some name)
            × ((subscribe_to_exchange B 0 name id tag).0 ≡ none)))
unfolding sse_handler
sse_handler-streams_iff false exchange B id tag events = (λ h. cc, λ (h, _). cc)
sse_handler-streams_iff true none B id tag events = (λ h. cc, λ (_, (name, e, _)). cc)
sse_handler-streams_iff true (some exchange) B id tag events =
    elim (Option-cases (subscribe_to_exchange B 0 exchange id tag).0) [
      | inl e ↦ rw (sse_handler, e) (λ h. (refl, (exchange, refl, e)), λ h. refl)
      | inr (text, e) ↦ (
        λ h. let k = rw (sse_handler, e) at h in cc,
        λ (_, (name, same, fine)). let n : exchange ≡ name = cc in let k = rw (← n) at fine in cc,
      )
    ]

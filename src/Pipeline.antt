-- ===== src/Pipeline.antt =====
-- The way of an event from the agent to a client, through ajagent/internal, runner/internal,
-- shared/rmqmanager.go and dispatcher/internal: the parts are modelled in Agent.Session,
-- Runner.ExecSubm, Shared.Rmq.Piping and Dispatcher.Endpoints.
pub mod Submission
pub mod Accepted
use alpine_judge.Common.{
  ℕ, ◌+◌, ◌≤◌, ◌<◌, ◌≡◌, ◌≢◌, refl, sym, ap, ◌∙◌, true, Option, none, List, [], ◌∷◌, ◌++◌, map,
  map-append, map-map, ◌&&◌, length, take,
}
use alpine_judge.Common.{All, ◌==◌, nat_eq, list_eq, eq_self, if◌then◌else◌}
use alpine_judge.Common.Results.{io_ok}
use alpine_judge.Common.Text.{Bytes}
use alpine_judge.Common.Text.Scanner.{IsShort}
use alpine_judge.Utils.Executes.{AgentExecSpec, Event, RmqPayload}
use alpine_judge.Agent.Verdict.{RuntimeInfo}
use alpine_judge.Agent.Session.{Container, socket_path, runner_agent}
use alpine_judge.Agent.Session.Judging.{Testset, judged}
use alpine_judge.Agent.Session.Judging.Matching.{runner_agent-judged}
use alpine_judge.Shared.Rmq.{Broker, ChannelOp, published, declared_exchange}
use alpine_judge.Shared.Rmq.Piping.{Delivery, Pipe, returned, subscribed, Steps}
use alpine_judge.Shared.Rmq.Piping.Draining.{pending, Steps-in_order, Steps-drains}
use alpine_judge.Runner.ExecSubm.{Json, rmq_payload}
use alpine_judge.Runner.ExecSubm.Forwarding.{Takes, Encodes, publishing, flat_map}
use alpine_judge.Runner.ExecSubm.Scanning.{
  line_limit, Decoded, streamed_ops, stream_events-in_order,
}
use alpine_judge.Common.Text.Decimal.Parse.{ℤ, parse_int}
use alpine_judge.Dispatcher.Endpoints.{SseEvent, delivery, sse_frame, sse_loop}
use alpine_judge.Dispatcher.Endpoints.Streaming.{delivered, frames, sse_loop-serves}

-- The bodies that a direct exchange passes on to a queue that is bound to a key.
abbrev pub routed : Bytes → Bytes → List ChannelOp → List Bytes
routed exchange key [] = []
routed exchange key (published e k msg ∷ ops) =
    let rest = routed exchange key ops in
    if e == exchange && k == key then msg.body ∷ rest else rest
routed exchange key (other ∷ ops) = routed exchange key ops

-- A client that takes every frame.
abbrev pub served : List Delivery → List SseEvent
served ds = map (λ d. delivery d.tag d.body true) ds

-- The frame of an event, with the text of its payload.
abbrev pub frame_of : (RmqPayload → Bytes) → Event → Bytes
frame_of text e = sse_frame (text (rmq_payload e))

routed-publishing :
    (exchange key : Bytes) (text : RmqPayload → Bytes) (events : List Event)
    → routed exchange key (flat_map (publishing exchange key text) events)
      ≡ map (λ e. text (rmq_payload e)) events
routed-publishing exchange key text [] = refl
routed-publishing exchange key text (e ∷ events) =
    rw (eq_self exchange, eq_self key)
      (ap (λ bodies. text (rmq_payload e) ∷ bodies) (routed-publishing exchange key text events))

served-frames :
    (ds : List Delivery) → frames (sse_loop (served ds)) ≡ map (λ d. sse_frame d.body) ds
unfolding sse_loop
served-frames [] = refl
served-frames (d ∷ ds) = ap (λ fs. sse_frame d.body ∷ fs) (served-frames ds)

module _ (json : Json) (B : Broker) (exchange id : Bytes) (text : RmqPayload → Bytes)
    (encode : Event → Bytes) (enc : Encodes json text) (takes : Takes B exchange id) (size : Bytes)
    (n : ℤ) (limit : parse_int 32 size ≡ (n, none)) where
  -- What the runner publishes of these events.
  abbrev pub published_ops : List Event → List ChannelOp
  published_ops = streamed_ops json B exchange id text encode enc takes size n limit

  abbrev pub AllShort : List Event → Type 0
  AllShort events = All (IsShort (line_limit n)) (map encode events)

  abbrev pub Decodable : List Event → Type 0
  Decodable = Decoded json B exchange id text encode enc takes size n limit

  routed-events :
      (events : List Event) (ds : List Delivery)
      → AllShort events
      → Decodable events
      → map (λ d. d.body) ds ≡ routed exchange id (published_ops events)
      → map (λ d. sse_frame d.body) ds ≡ map (frame_of text) events
  routed-events events ds short decodes routes =
      sym (map-map sse_frame (λ d. d.body) ds)
      ∙ (ap (map sse_frame) (
            routes
            ∙ (ap (routed exchange id) (
                  stream_events-in_order json B exchange id text encode enc takes size n limit
                    events short decodes)
                ∙ routed-publishing exchange id text events))
          ∙ map-map sse_frame (λ e. text (rmq_payload e)) events)

  -- Whatever the goroutine of the subscription, the broker and the context have done so far: the
  -- frames of the deliveries that the client's handler has taken, then those of the deliveries that
  -- have arrived and that the goroutine has not handed over, are the frames of these events of the
  -- agent, in the order in which the agent has sent them. It holds where every line is shorter than the runner's limit, the runner
  -- decodes the lines of these events to them, up to their output, and can publish, the broker passes every message for the submission on, once and in order,
  -- and the client takes every frame.
  pub Steps-frames :
      (events : List Event) {ds : List Delivery} {p : Pipe}
      → AllShort events
      → Decodable events
      → Steps ds subscribed p
      → map (λ d. d.body) ds ≡ routed exchange id (published_ops events)
      → frames (sse_loop (served p.received)) ++ map (λ d. sse_frame d.body) (pending p)
        ≡ map (frame_of text) events
  Steps-frames events {ds} {p} short decodes run routes =
      rw
        (
          served-frames p.received,
          ← map-append (λ d. sse_frame d.body) p.received (pending p),
          Steps-in_order run,
        )
        (routed-events events ds short decodes routes)

  -- From the agent's instructions to the client's frames: where the agent has sent its first k events
  -- before its container ends, all of them or as many as the runner's timeout lets it, the frames
  -- that a client can still get, while its handler receives and the goroutine runs, are the first k
  -- of the reference judgement of the submission, in order and to the last, for an agent that gets
  -- its instructions and a testset with files for tests 1 to n and none for
  -- test n + 1. It holds where every line is shorter than the runner's limit, the runner decodes the
  -- lines of these events to them, up to their output, and can publish, the broker has passed every message for the
  -- submission on, and the client takes every frame; fuel of more than n is enough.
  pub runner_agent-frames :
      (c : Container) (fuel k : ℕ) (line : Bytes) (spec : AgentExecSpec) (rs : List RuntimeInfo)
      → c.dial_error (socket_path c) ≡ none
      → c.payload ≡ io_ok line
      → c.unmarshal line ≡ io_ok spec
      → Testset c.sandbox spec 1 rs
      → length rs < fuel
      → AllShort (take k (judged c spec rs))
      → Decodable (take k (judged c spec rs))
      → {ds : List Delivery} {p : Pipe} → Steps ds subscribed p
      → p.piper ≢ returned
      → p.around.receiving ≡ true
      → map (λ d. d.body) ds
        ≡ routed exchange id (published_ops (take k (runner_agent c fuel).events))
      → (q : Pipe) × Steps [] p q
        × (frames (sse_loop (served q.received)) ≡ map (frame_of text) (take k (judged c spec rs)))
  runner_agent-frames c fuel k line spec rs dialled read decoded ts enough short decodes {ds} {p}
        run going alive routes =
      let session = runner_agent-judged c fuel line spec rs dialled read decoded ts enough in
      let judged_events : (runner_agent c fuel).events ≡ judged c spec rs =
        ap (λ s. s.events) session in
      (
        _,
        Steps-drains run going alive,
        served-frames ds
            ∙ routed-events (take k (judged c spec rs)) ds short decodes
                (rw (← judged_events) routes),
      )

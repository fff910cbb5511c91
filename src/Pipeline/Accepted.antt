-- ===== src/Pipeline/Accepted.antt =====
-- What the last frame says to the client.
use mathlib.Core.List.{append-nil, append_cancel_left, append_cancel_right}
use alpine_judge.Common.{
  ℕ, zero, suc, ◌≤◌, ◌<◌, ◌≢◌, arith, inl, inr, Bool-cases, ltb, length, length-append, take,
  take_all, take-append_short, ◌≡◌, refl, ◌↔◌, sym, ap, ◌∙◌, none, some, Option, List, [], ◌∷◌,
  ◌++◌, map, map-append,
}
use alpine_judge.Common.Results.{io_ok}
use alpine_judge.Common.Text.{Bytes, str}
use alpine_judge.Common.Text.Decimal.Parse.{ℤ, parse_int}
use alpine_judge.Utils.Executes.{AgentExecSpec, Event, RmqPayload}
use alpine_judge.Agent.Verdict.{verdict_ac}
use alpine_judge.Agent.Session.{Container, socket_path, send_result, runner_agent}
use alpine_judge.Agent.Session.Protocol.{
  NoResult, IsComplete, CompilerEnds, HasGap, runner_agent-IsComplete,
}
use alpine_judge.Agent.Session.Acceptance.{
  IsAccepted, last_event, last_event-append, runner_agent-IsAccepted_iff,
}
use alpine_judge.Shared.Rmq.{Broker}
use alpine_judge.Shared.Rmq.Piping.{Delivery, Pipe, subscribed, Steps}
use alpine_judge.Shared.Rmq.Piping.Draining.{pending}
use alpine_judge.Runner.ExecSubm.{Json, rmq_payload}
use alpine_judge.Runner.ExecSubm.Forwarding.{Takes, Encodes}
use alpine_judge.Dispatcher.Endpoints.{sse_frame, sse_loop}
use alpine_judge.Dispatcher.Endpoints.Streaming.{frames}
use alpine_judge.Pipeline.{
  routed, served, frame_of, published_ops, AllShort, Decodable, Steps-frames,
}

abbrev pub last_frame : List Bytes → Option Bytes
last_frame [] = none
last_frame (f ∷ []) = some f
last_frame (f ∷ g ∷ fs) = last_frame (g ∷ fs)

last_frame-append : (fs : List Bytes) (f : Bytes) → last_frame (fs ++ f ∷ []) ≡ some f
last_frame-append [] f = refl
last_frame-append (g ∷ []) f = refl
last_frame-append (g ∷ h ∷ fs) f = last_frame-append (h ∷ fs) f

sse_frame-injective : (a b : Bytes) → sse_frame a ≡ sse_frame b → a ≡ b
sse_frame-injective a b h =
    append_cancel_left (str "data: ") a b
      (append_cancel_right (str "data: " ++ a) (str "data: " ++ b) (str "\n\n") h)

-- Only the result `Accepted` has its text as a payload.
abbrev pub IsTelling : (RmqPayload → Bytes) → Type 0
IsTelling text =
    (p : RmqPayload)
    → text p ≡ text (rmq_payload (send_result verdict_ac))
    → p ≡ rmq_payload (send_result verdict_ac)

unsome : {A : Type 0} {a b : A} → ◌≡◌ {A = Option A} (some a) (some b) → a ≡ b
unsome h = cc

-- Results and their frames.
result_frame :
    (text : RmqPayload → Bytes)
    → IsTelling text
    → (v : Bytes)
    → (◌≡◌ {A = Option Bytes}
        (some (frame_of text (send_result v)))
        (some (frame_of text (send_result verdict_ac))))
      ↔ (◌≡◌ {A = Option Event} (some (send_result v)) (some (send_result verdict_ac)))
result_frame text tells v = (
  λ h.
      let same = tells (rmq_payload (send_result v)) (sse_frame-injective _ _ (unsome h)) in
      let verdicts : v ≡ verdict_ac = ap (λ p. p.status) same in
      ap (λ w. some (send_result w)) verdicts,
  λ h. ap (λ e. some (frame_of text e)) (unsome h),
)

-- The last frame of a complete session is that of `Accepted` exactly when its last event is.
last_frame_iff :
    (text : RmqPayload → Bytes) (events : List Event)
    → IsTelling text
    → IsComplete events
    → (last_frame (map (frame_of text) events) ≡ some (frame_of text (send_result verdict_ac)))
      ↔ (last_event events ≡ some (send_result verdict_ac))
last_frame_iff text events tells complete =
    rw
      (
        complete.split,
        map-append (frame_of text) complete.progress (send_result complete.verdict ∷ []),
        last_frame-append (map (frame_of text) complete.progress)
            (frame_of text (send_result complete.verdict)),
        last_event-append complete.progress (send_result complete.verdict),
      )
      (result_frame text tells complete.verdict)

-- Other events have other frames.
NoResult-last_frame :
    (text : RmqPayload → Bytes) (events : List Event)
    → IsTelling text
    → NoResult events
    → last_frame (map (frame_of text) events) ≢ some (frame_of text (send_result verdict_ac))
NoResult-last_frame text [] tells silent h = cc
NoResult-last_frame text (e ∷ []) tells (other, _) h =
    other (ap (λ p. p.type) (tells (rmq_payload e) (sse_frame-injective _ _ (unsome h))))
NoResult-last_frame text (e ∷ d ∷ es) tells (_, silent) h =
    NoResult-last_frame text (d ∷ es) tells silent h

NoResult-take : (k : ℕ) (events : List Event) → NoResult events → NoResult (take k events)
NoResult-take zero [] silent = tt
NoResult-take zero (e ∷ es) silent = tt
NoResult-take (suc k) [] silent = tt
NoResult-take (suc k) (e ∷ es) (other, silent) = (other, NoResult-take k es silent)

take-IsComplete :
    (k : ℕ) (events : List Event) → IsComplete events → k < length events → NoResult (take k events)
take-IsComplete k events complete short =
    let short_of : k ≤ length complete.progress =
      (let h = rw complete.split at short in
        omega (arith, length-append complete.progress (send_result complete.verdict ∷ []), h)) in
    rw
      (
        complete.split,
        take-append_short k complete.progress (send_result complete.verdict ∷ []) short_of,
      )
      (NoResult-take k complete.progress complete.only)

-- The last frame of the first k events of a complete session is that of `Accepted` exactly when
-- these are all of them and the last event is.
last_frame-take_iff :
    (text : RmqPayload → Bytes) (k : ℕ) (events : List Event)
    → IsTelling text
    → IsComplete events
    → (last_frame (map (frame_of text) (take k events))
        ≡ some (frame_of text (send_result verdict_ac)))
      ↔ ((last_event events ≡ some (send_result verdict_ac)) × (length events ≤ k))
last_frame-take_iff text k events tells complete = elim (Bool-cases (ltb k (length events))) [
  | inl cut ↦
      let short : k < length events = ground arith in
      (
        λ h. absurd (
            NoResult-last_frame text (take k events) tells (take-IsComplete k events complete short)
              h),
        λ (_, whole). absurd (omega arith),
      )
  | inr kept ↦
      let whole : length events ≤ k = ground arith in
      let (there, back) = last_frame_iff text events tells complete in
      rw (take_all k events whole) (λ h. (there h, whole), λ (h, _). back h)
]

module _ (json : Json) (B : Broker) (exchange id : Bytes) (text : RmqPayload → Bytes)
    (encode : Event → Bytes) (enc : Encodes json text) (takes : Takes B exchange id) (size : Bytes)
    (n : ℤ) (limit : parse_int 32 size ≡ (n, none)) where
  -- The last frame that a client gets, once nothing is left to hand over, is that of the result
  -- `Accepted` exactly when the submission compiles and passes every test of a testset that is not
  -- empty, and the agent has sent all of its events before its container ends: it has sent the first
  -- k of them, all or as many as the runner's timeout lets it. It holds for an agent that gets its
  -- instructions, with a compiler that ends, where there is one to run, and a test number up to the fuel that has no files; lines
  -- that are shorter than the runner's limit; a runner that decodes the lines of these events to
  -- them, up to their output, and can publish; texts of payloads of which only one is that of `Accepted`; a broker that
  -- passes every message for the submission on, once and in order; and a client that takes every
  -- frame.
  pub last_frame-IsAccepted_iff :
      (c : Container) (fuel k : ℕ) (line : Bytes) (spec : AgentExecSpec)
      → c.dial_error (socket_path c) ≡ none
      → c.payload ≡ io_ok line
      → c.unmarshal line ≡ io_ok spec
      → CompilerEnds c spec
      → HasGap c fuel spec
      → IsTelling text
      → AllShort json B exchange id text encode enc takes size n limit
          (take k (runner_agent c fuel).events)
      → Decodable json B exchange id text encode enc takes size n limit
          (take k (runner_agent c fuel).events)
      → {ds : List Delivery} {p : Pipe} → Steps ds subscribed p
      → pending p ≡ []
      → map (λ d. d.body) ds
        ≡ routed exchange id (
            published_ops json B exchange id text encode enc takes size n limit
              (take k (runner_agent c fuel).events))
      → (last_frame (frames (sse_loop (served p.received)))
          ≡ some (frame_of text (send_result verdict_ac)))
        ↔ (IsAccepted c spec × (length (runner_agent c fuel).events ≤ k))
  last_frame-IsAccepted_iff c fuel k line spec dialled read decoded ends gap tells short decodes
        {ds} {p} run empty routes =
      let events = (runner_agent c fuel).events in
      let all =
        Steps-frames json B exchange id text encode enc takes size n limit (take k events) short
          decodes run routes in
      let got : frames (sse_loop (served p.received)) ≡ map (frame_of text) (take k events) =
        sym (append-nil _)
        ∙ (ap (λ ds. frames (sse_loop (served p.received)) ++ map (λ d. sse_frame d.body) ds)
              (sym empty)
            ∙ all) in
      let (_, complete) =
        runner_agent-IsComplete c fuel line dialled read
          (λ other e. let same : spec ≡ other = cc in rw (← same) (ends, gap)) in
      let (there, back) = last_frame-take_iff text k events tells complete in
      let (sound, full) = runner_agent-IsAccepted_iff c fuel line spec dialled read decoded gap in
      rw got (
        λ h. let (last, whole) = there h in (sound last, whole),
        λ (h, whole). back (full h, whole),
      )

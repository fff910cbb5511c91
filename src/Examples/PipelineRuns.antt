-- ===== src/Examples/PipelineRuns.antt =====
-- From a submission to the frames of its client.
use alpine_judge.Common.{
  ℕ, zero, suc, ◌≡◌, refl, ap, true, false, none, List, [], ◌∷◌, ◌++◌, map, All, arith, ◌≤◌, ◌*◌,
  ◌+◌, ◌⊎◌, ◌≢◌, length, length-append, take,
}
use mathlib.Core.List.{append_assoc, append-nil}
use alpine_judge.Common.Text.{Bytes, str, has_prefix}
use alpine_judge.Common.Text.Decimal.{sprint}
use alpine_judge.Common.Text.Scanner.{IsShort}
use alpine_judge.Common.Text.Decimal.Parse.{pos, parse_int}
use alpine_judge.Utils.Executes.{Event}
use alpine_judge.Agent.Session.{send_event, runner_agent}
use alpine_judge.Agent.Session.Judging.{stops, judged}
use alpine_judge.Agent.Session.{is_final}
use alpine_judge.Agent.RunTest.{run_test_case}
use alpine_judge.Agent.LimitWriter.{writes, new_writer}
use alpine_judge.Common.Text.Trim.{trim_space}
use alpine_judge.Shared.Rmq.{ChannelOp}
use alpine_judge.Shared.Rmq.Piping
use alpine_judge.Shared.Rmq.Piping.{
  Delivery, selecting, sending, Pipe, subscribed, change, arrive, cancel, Step, Steps, done,
  followed, returned,
}
use alpine_judge.Shared.Rmq.Piping.Progress.{to_do, running, Step-progress}
use alpine_judge.Shared.Rmq.Piping.Draining.{Steps-stuck}
use alpine_judge.Runner.ExecSubm.Forwarding.{Takes, Encodes, publishing, flat_map}
use alpine_judge.Runner.ExecSubm.Scanning.{line_limit, streamed_ops, stream_events-cut}
use alpine_judge.Dispatcher.Endpoints.{sse_frame, sse_loop}
use alpine_judge.Dispatcher.Endpoints.Streaming.{frames}
use alpine_judge.Pipeline.{routed, served, frame_of, Steps-frames, runner_agent-frames}
use alpine_judge.Examples.AgentRuns.{spec, container, only_run, one_run}
use alpine_judge.Examples.StreamRuns.{broker, encode, payload_text, json, events, decodes}

abbrev pub delivery_of : Bytes → Delivery
delivery_of body = record { tag = 1; body = body }

pub bodies-map : (bodies : List Bytes) → map (λ d. d.body) (map delivery_of bodies) ≡ bodies
bodies-map [] = refl
bodies-map (b ∷ bodies) = ap (λ bs. b ∷ bs) (bodies-map bodies)

-- Everything has arrived, and nothing else has happened.
abbrev arrived : List Delivery → Pipe
arrived ds = record subscribed { arriving = ds }

arrivals :
    (ds es : List Delivery)
    → Steps ds subscribed (arrived ds)
    → Steps (ds ++ es) subscribed (arrived (ds ++ es))
arrivals ds [] run = rw (append-nil ds) run
arrivals ds (e ∷ es) run =
    let longer = arrivals (ds ++ e ∷ []) es (followed run (arrive e ds [] selecting _ refl)) in
    rw (append_assoc ds (e ∷ []) es) at longer

pub limit_set : parse_int 32 (str "10240") ≡ (pos 10240, none)
unfolding parse_int
limit_set = refl

pub encodes : Encodes json payload_text
encodes = record { marshals = λ p. refl; valid = λ p. refl }

pub takes : Takes broker (str "events") (str "s1")
takes = record { declares = refl; publishes = λ msg. refl }

abbrev pub ops_of_events : List Event → List ChannelOp
ops_of_events =
    streamed_ops json broker (str "events") (str "s1") payload_text encode encodes takes
      (str "10240") (pos 10240) limit_set

-- An event with details of any length.
blanks : ℕ → Bytes
blanks zero = []
blanks (suc n) = b' ' ∷ blanks n

length-blanks : (n : ℕ) → length (blanks n) ≡ n
unfolding blanks
length-blanks zero = refl
length-blanks (suc n) = omega (arith, length-blanks n)

abbrev long_event : Event
long_event = send_event [] [] [] [] (blanks (60 * 1024))

default_limit : parse_int 32 (str "0") ≡ (pos 0, none)
unfolding parse_int
default_limit = refl

is_long : line_limit (pos 0) ≤ length (encode long_event)
is_long = omega (arith, length-append (blanks (60 * 1024)) [], length-blanks (60 * 1024))

stream_events-cut_example :
    streamed_ops json broker
      (str "events")
      (str "s1")
      payload_text
      encode
      encodes
      takes
      (str "0")
      (pos 0)
      default_limit
      (events ++ long_event ∷ events)
    ≡ flat_map (publishing (str "events") (str "s1") payload_text) events
stream_events-cut_example =
    stream_events-cut json broker (str "events") (str "s1") payload_text encode encodes takes
      (str "0") (pos 0) default_limit events events long_event (omega arith, (omega arith, tt))
      (decodes events) is_long

abbrev pub deliveries : List Event → List Delivery
deliveries es = map delivery_of (routed (str "events") (str "s1") (ops_of_events es))

Steps-frames_example :
    frames (sse_loop (served [])) ++ map (λ d. sse_frame d.body) (deliveries events)
    ≡ map (frame_of payload_text) events
Steps-frames_example =
    Steps-frames json broker (str "events") (str "s1") payload_text encode encodes takes
      (str "10240") (pos 10240) limit_set events (omega arith, (omega arith, tt)) (decodes events)
      (arrivals [] (deliveries events) (done _)) (bodies-map _)

pub session-IsShort :
    All
      (IsShort (line_limit (pos 10240)))
      (map encode (take 2 (judged container spec (only_run ∷ []))))
unfolding judged stops is_final run_test_case writes new_writer trim_space sprint has_prefix
session-IsShort = (omega arith, (omega arith, tt))

runner_agent-frames_example :
    (q : Pipe) × Steps [] (arrived (deliveries (take 2 (runner_agent container 3).events))) q
    × (frames (sse_loop (served q.received))
        ≡ map (frame_of payload_text) (take 2 (judged container spec (only_run ∷ []))))
runner_agent-frames_example =
    runner_agent-frames json broker (str "events") (str "s1") payload_text encode encodes takes
      (str "10240") (pos 10240) limit_set container 3 2 (str "{}") spec (only_run ∷ []) refl refl
      refl one_run (omega arith) session-IsShort (decodes _)
      (arrivals [] (deliveries (take 2 (runner_agent container 3).events)) (done _)) (λ h. cc) refl
      (bodies-map _)

-- Two deliveries have arrived, and the goroutine holds the first.
abbrev holding : Pipe
holding = record (arrived (delivery_of (str "b") ∷ [])) { piper = sending (delivery_of (str "a")) }

holds : Steps (delivery_of (str "a") ∷ delivery_of (str "b") ∷ []) subscribed holding
holds =
    followed (arrivals [] (delivery_of (str "a") ∷ delivery_of (str "b") ∷ []) (done _))
      (Piping.take (delivery_of (str "a")) (delivery_of (str "b") ∷ []) [] _)

Step-progress_example :
    ((to_do holding ≡ 0) ⊎ ((q : Pipe) × Step [] holding q × (q.around ≡ running)))
    × ((q : Pipe)
        → Step [] holding q
        → q.around ≡ running
        → (to_do q + 1 ≡ to_do holding) × (q.piper ≢ returned))
Step-progress_example = Step-progress holding refl (λ h. cc)

-- Its receiver leaves.
abbrev abandoned : Pipe
abandoned = record holding { around = record subscribed.around { receiving = false } }

abbrev cancelled : Pipe
cancelled = record abandoned { around = record abandoned.around { cancelled = true } }

Steps-stuck_example :
    (cancelled.piper ≡ sending (delivery_of (str "a"))) × (cancelled.received ≡ abandoned.received)
Steps-stuck_example =
    Steps-stuck {p = abandoned} {q = cancelled} (delivery_of (str "a"))
      (followed (done abandoned) (
        change (delivery_of (str "b") ∷ []) [] (sending (delivery_of (str "a")))
          (cancel abandoned.around)))
      refl refl

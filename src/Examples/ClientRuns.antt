-- ===== src/Examples/ClientRuns.antt =====
-- The client of a session with one test.
use mathlib.Core.List.{append_assoc, append-nil}
use alpine_judge.Common.{
  ◌≡◌, refl, ◌↔◌, sym, ap, ◌∙◌, some, List, [], ◌∷◌, ◌++◌, arith, take, length, ◌≤◌,
}
use alpine_judge.Common.Text.{Bytes, str}
use alpine_judge.Common.Text.Decimal.Parse.{pos}
use alpine_judge.Utils.Executes.{RmqPayload}
use alpine_judge.Agent.Verdict.{verdict_ac}
use alpine_judge.Agent.Session.{send_result, runner_agent}
use alpine_judge.Agent.Session.Acceptance.{IsAccepted}
use alpine_judge.Agent.Session.Judging.{judged}
use alpine_judge.Agent.Session.Judging.Matching.{runner_agent-judged}
use alpine_judge.Shared.Rmq.Piping
use alpine_judge.Shared.Rmq.Piping.{
  Delivery, selecting, Pipe, subscribed, Steps, arrive, hand, done, followed,
}
use alpine_judge.Shared.Rmq.Piping.Draining.{silently}
use alpine_judge.Dispatcher.Endpoints.{sse_loop}
use alpine_judge.Dispatcher.Endpoints.Streaming.{frames}
use alpine_judge.Pipeline.{served, frame_of, AllShort}
use alpine_judge.Pipeline.Accepted.{last_frame, IsTelling, last_frame-IsAccepted_iff}
use alpine_judge.Examples.AgentRuns.{spec, container, only_run, one_run, one_test}
use alpine_judge.Examples.StreamRuns.{
  broker, encode, put, get, get-put, payload_text, json, decodes,
}
use alpine_judge.Examples.PipelineRuns.{
  encodes, takes, limit_set, deliveries, bodies-map, session-IsShort,
}

-- All deliveries have arrived and were received.
abbrev got : List Delivery → Pipe
got ds = record subscribed { received = ds }

receipts :
    (ds es : List Delivery)
    → Steps ds subscribed (got ds)
    → Steps (ds ++ es) subscribed (got (ds ++ es))
receipts ds [] run = rw (append-nil ds) run
receipts ds (e ∷ es) run =
    let here = followed run (arrive e [] ds selecting _ refl) in
    let longer =
      receipts (ds ++ e ∷ []) es
        (silently (silently here (Piping.take e [] ds _)) (hand e [] ds _ refl)) in
    rw (append_assoc ds (e ∷ []) es) at longer

payload_of : Bytes → RmqPayload
payload_of s = record {
  type = (get s).0;
  status = (get (get s).1).0;
  details = (get (get (get s).1).1).0;
}

payload_of-text : (p : RmqPayload) → payload_of (payload_text p) ≡ p
unfolding payload_of
payload_of-text p =
    rw
      (
        get-put p.type (put p.status (put p.details [])),
        get-put p.status (put p.details []),
        get-put p.details [],
      )
      refl

tells : IsTelling payload_text
tells p h = sym (payload_of-text p) ∙ (ap payload_of h ∙ payload_of-text _)

session : (runner_agent container 3).events ≡ judged container spec (only_run ∷ [])
session =
    ap (λ s. s.events)
      (runner_agent-judged container 3 (str "{}") spec (only_run ∷ []) refl refl refl one_run
        (omega arith))

events-AllShort :
    AllShort json broker
      (str "events")
      (str "s1")
      payload_text
      encode
      encodes
      takes
      (str "10240")
      (pos 10240)
      limit_set
      (take 2 (runner_agent container 3).events)
events-AllShort = rw session session-IsShort

last_frame-IsAccepted_iff_example :
    (last_frame (frames (sse_loop (served (deliveries (take 2 (runner_agent container 3).events)))))
      ≡ some (frame_of payload_text (send_result verdict_ac)))
    ↔ (IsAccepted container spec × (length (runner_agent container 3).events ≤ 2))
last_frame-IsAccepted_iff_example =
    last_frame-IsAccepted_iff json broker (str "events") (str "s1") payload_text encode encodes
      takes (str "10240") (pos 10240) limit_set container 3 2 (str "{}") spec refl refl refl
      (λ e h. cc) one_test tells events-AllShort (decodes _)
      (receipts [] (deliveries (take 2 (runner_agent container 3).events)) (done _)) refl
      (bodies-map _)

-- ===== src/Examples/StreamRuns.antt =====
-- runner/internal: the events of a session with one test are forwarded.
use alpine_judge.Common.{◌≡◌, refl, true, none, List, [], ◌∷◌, ◌++◌, length, take, drop, ap, All}
use alpine_judge.Common.Results.{io_ok}
use alpine_judge.Common.Text.{Bytes, str}
use alpine_judge.Utils.Executes.{Event, RmqPayload}
use alpine_judge.Shared.Rmq.{Broker}
use alpine_judge.Agent.Verdict.{verdict_ac}
use alpine_judge.Agent.Session.{send_event, send_result}
use alpine_judge.Runner.ExecSubm.{Json, rmq_payload}

-- A broker that takes everything.
abbrev pub broker : Broker
broker = record {
  open_channel = none;
  queue_declare = λ q. none;
  server_name = str "amq.gen";
  exchange_declare = λ e. none;
  queue_bind = λ q k e. none;
  qos = λ n. none;
  consume = λ q t. none;
  publish = λ e k m. none;
}

-- Events and payloads as their fields, each behind its length in one byte.
abbrev pub put : Bytes → Bytes → Bytes
put field rest = length field ∷ (field ++ rest)

abbrev pub encode : Event → Bytes
encode e = put e.type (put e.status (put e.stdout (put e.stderr (put e.details []))))

-- The first field, and what follows it.
unfoldable pub get : Bytes → Bytes × Bytes
get [] = ([], [])
get (n ∷ rest) = (take n rest, drop n rest)

take-length_append : (xs ys : Bytes) → take (length xs) (xs ++ ys) ≡ xs
take-length_append [] ys = refl
take-length_append (x ∷ xs) ys = ap (λ zs. x ∷ zs) (take-length_append xs ys)

drop-length_append : (xs ys : Bytes) → drop (length xs) (xs ++ ys) ≡ ys
drop-length_append [] ys = refl
drop-length_append (x ∷ xs) ys = drop-length_append xs ys

pub get-put : (field rest : Bytes) → get (put field rest) ≡ (field, rest)
unfolding get
get-put field rest = rw (take-length_append field rest, drop-length_append field rest) refl

decode_details : Bytes → Bytes → Bytes → Bytes → Bytes × Bytes → Event
decode_details a b c d (e, rest) = send_event a b c d e

decode_stderr : Bytes → Bytes → Bytes → Bytes × Bytes → Event
unfolding decode_details
decode_stderr a b c (d, rest) = decode_details a b c d (get rest)

decode_stdout : Bytes → Bytes → Bytes × Bytes → Event
unfolding decode_stderr
decode_stdout a b (c, rest) = decode_stderr a b c (get rest)

decode_status : Bytes → Bytes × Bytes → Event
unfolding decode_stdout
decode_status a (b, rest) = decode_stdout a b (get rest)

decode_type : Bytes × Bytes → Event
unfolding decode_status
decode_type (a, rest) = decode_status a (get rest)

pub decode : Bytes → Event
unfolding decode_type
decode line = decode_type (get line)

pub decode-encode : (e : Event) → decode (encode e) ≡ e
unfolding decode
decode-encode e =
    rw
      (
        get-put e.type (put e.status (put e.stdout (put e.stderr (put e.details [])))),
        get-put e.status (put e.stdout (put e.stderr (put e.details []))),
        get-put e.stdout (put e.stderr (put e.details [])),
        get-put e.stderr (put e.details []),
        get-put e.details [],
      )
      refl

abbrev pub payload_text : RmqPayload → Bytes
payload_text p = put p.type (put p.status (put p.details []))

abbrev pub json : Json
json = record { unmarshal = decode; marshal = λ p. io_ok (payload_text p); is_valid = λ s. true }

-- The events of a session with one test.
abbrev pub events : List Event
events =
    send_event (str "INFO") (str "Running test 1") (str "3") [] (str "Output matched expectation")
    ∷ send_result verdict_ac
    ∷ []

pub decodes :
    (es : List Event) → All (λ e. rmq_payload (json.unmarshal (encode e)) ≡ rmq_payload e) es
decodes [] = tt
decodes (e ∷ es) = (ap rmq_payload (decode-encode e), decodes es)

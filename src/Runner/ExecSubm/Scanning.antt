-- ===== src/Runner/ExecSubm/Scanning.antt =====
-- runner/internal/exesubmission.go: the goroutine that reads the agent's socket, from the
-- environment to the lines that its scanner gives.
use alpine_judge.Common.{
  ℕ, ◌*◌, ◌≤◌, ◌≡◌, ap, ◌∙◌, Option, none, some, List, [], ◌∷◌, ◌++◌, map, map-append,
}
use alpine_judge.Common.{ltb, length, All, if◌then◌else◌}
use alpine_judge.Common.Text.{Bytes}
use alpine_judge.Common.Text.Scanner.{scanned, IsShort, scanned-All, scanned-append_long}
use alpine_judge.Common.Text.Decimal.Parse.{ℤ, pos, negsuc, NumError, parse_int}
use alpine_judge.Utils.Executes.{Event, RmqPayload}
use alpine_judge.Shared.Rmq.{Broker, ChannelOp}
use alpine_judge.Runner.ExecSubm.{Json, Forwarded, rmq_payload, forward_events}
use alpine_judge.Runner.ExecSubm.Forwarding.{
  Takes, Encodes, publishing, flat_map, forward_events-in_order,
}

-- The limit of the scanner: the greater of the capacity of its buffer and the limit that is set.
abbrev pub line_limit : ℤ → ℕ
line_limit (pos n) = if ltb (60 * 1024) (n * 1024) then n * 1024 else 60 * 1024
line_limit (negsuc n) = 60 * 1024

-- How the goroutine ends: it exits the process, or it has forwarded what it could.
pub data Stream : Type 0 where
  exited : ℕ → Stream
  forwarded : Forwarded → Stream

module _ (json : Json) (B : Broker) (id : Bytes) (lines : List Bytes) where
  -- From the look-up of the exchange on.
  scan_lines : ℕ → Option Bytes → Stream
  unfolding scanned
  scan_lines limit none = exited 1
  scan_lines limit (some exchange) =
      forwarded (forward_events json B exchange id (scanned limit lines))

  with_limit : ℤ × Option NumError → Option Bytes → Stream
  unfolding scan_lines
  with_limit (n, none) exchange = scan_lines (line_limit n) exchange
  with_limit (n, some _) exchange = exited 1

  -- The goroutine, by the environment variables `MAX_LOG_CAP_KB` and `DIRECT_EXCHANGE_NAME`.
  unfoldable pub stream_events : Option Bytes → Option Bytes → Stream
  unfolding with_limit
  stream_events none exchange = exited 1
  stream_events (some size) exchange = with_limit (parse_int 32 size) exchange

abbrev pub ops_of : Stream → List ChannelOp
ops_of (exited code) = []
ops_of (forwarded f) = f.ops

stream_events-ops :
    (json : Json) (B : Broker) (id size exchange : Bytes) (n : ℤ) (lines kept : List Bytes)
    → parse_int 32 size ≡ (n, none)
    → scanned (line_limit n) lines ≡ kept
    → ops_of (stream_events json B id lines (some size) (some exchange))
      ≡ (forward_events json B exchange id kept).ops
unfolding stream_events
stream_events-ops json B id size exchange n lines kept limit same =
    ap (λ r. ops_of (with_limit json B id lines r (some exchange))) limit
    ∙ ap (λ ls. (forward_events json B exchange id ls).ops) same

module _ (json : Json) (B : Broker) (exchange id : Bytes) (text : RmqPayload → Bytes)
    (encode : Event → Bytes) (enc : Encodes json text) (takes : Takes B exchange id) (size : Bytes)
    (n : ℤ) (limit : parse_int 32 size ≡ (n, none)) where
  -- Events whose lines the runner decodes to them up to their output: `json.Unmarshal` gives back the
  -- type, the status and the details that the agent's `json.Marshal` has written, as it does for
  -- texts in UTF-8. The output of a program may be any bytes.
  abbrev pub Decoded : List Event → Type 0
  Decoded = All (λ e. rmq_payload (json.unmarshal (encode e)) ≡ rmq_payload e)

  -- What is published of these events.
  abbrev pub streamed_ops : List Event → List ChannelOp
  streamed_ops events =
      ops_of (stream_events json B id (map encode events) (some size) (some exchange))

  pub stream_events-in_order :
      (events : List Event)
      → All (IsShort (line_limit n)) (map encode events)
      → Decoded events
      → streamed_ops events ≡ flat_map (publishing exchange id text) events
  stream_events-in_order events short decodes =
      stream_events-ops json B id size exchange n _ _ limit
        (scanned-All (line_limit n) (map encode events) short)
      ∙ forward_events-in_order json B exchange id text encode events enc takes decodes

  -- The first event whose line is not shorter than the limit ends the forwarding, and nothing of it
  -- or of a later event, the result included, is published. It holds under the same conditions on the
  -- broker, the limit and the events before it.
  pub stream_events-cut :
      (before after : List Event) (e : Event)
      → All (IsShort (line_limit n)) (map encode before)
      → Decoded before
      → line_limit n ≤ length (encode e)
      → streamed_ops (before ++ e ∷ after) ≡ flat_map (publishing exchange id text) before
  stream_events-cut before after e short decodes long =
      stream_events-ops json B id size exchange n _ _ limit (
        rw (map-append encode before (e ∷ after)) (
          scanned-append_long (line_limit n) (map encode before) (map encode after) (encode e) short
            long))
      ∙ forward_events-in_order json B exchange id text encode before enc takes decodes

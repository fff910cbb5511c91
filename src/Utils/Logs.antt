-- ===== src/Utils/Logs.antt =====
-- runner/utils/executes.go: the streaming of a container's log, line by line.
use alpine_judge.Common.{ℕ, ◌+◌, ◌*◌, Bool, List, [], ◌∷◌, ◌++◌, if◌then◌else◌}
use alpine_judge.Common.Text.{Bytes}
use alpine_judge.Common.Text.Scanner.{scanned}
use alpine_judge.Shared.Rmq.{Message, Broker, ChannelOp, publish}

module _ (B : Broker) (queue : Bytes) (message : Message) (cancelled : ℕ → Bool) where
  -- The loop, from line `k` on; `cancelled k` says whether the context is done by then.
  publish_lines : ℕ → List Bytes → List ChannelOp
  publish_lines k [] = []
  publish_lines k (line ∷ lines) =
      let rest = publish_lines (k + 1) lines in
      if cancelled k then [] else (publish B queue (record message { body = line })).1 ++ rest

  -- `StreamContainerLogsToRMQ`: the scanner has its default limit. Errors are dropped.
  pub stream_container_logs_to_rmq : List Bytes → List ChannelOp
  unfolding publish_lines
  stream_container_logs_to_rmq lines = publish_lines 0 (scanned (64 * 1024) lines)

-- ===== src/Shared/Rmq/Closing.antt =====
-- shared/rmqmanager.go: the end of a manager.
use alpine_judge.Shared.Rmq.{Connection, connected, context_ended, channel_failed, out_of_fuel}
use alpine_judge.Common.{Bool, List, [], ◌∷◌, ◌++◌, if◌then◌else◌}

pub data CloseOp : Type 0 where
  closed_channel closed_connection : CloseOp

-- `Close`, by whether `pubCh` and `conn` are not nil; the errors are dropped.
abbrev pub close_manager : Bool → Bool → List CloseOp
close_manager has_channel has_connection =
    (if has_channel then closed_channel ∷ [] else [])
    ++ (if has_connection then closed_connection ∷ [] else [])

-- What `NewRMQManager` closes before it returns: the connection, where no channel can be opened.
abbrev pub closed_on : Connection → List CloseOp
closed_on connected = []
closed_on context_ended = []
closed_on channel_failed = closed_connection ∷ []
closed_on out_of_fuel = []

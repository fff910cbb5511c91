-- ===== src/Agent/Signals/Memory.antt =====
-- The memory verdict of `signalHandler`.
use alpine_judge.Common.{ℕ, ◌≡◌, ◌⊎◌, Option, arith}
use alpine_judge.Common.Text.{Bytes}
use alpine_judge.Agent.Verdict.{verdict_mle, verdict_tle, verdict_re, verdict_ole}
use alpine_judge.Agent.Signals.{WaitError, ended, signaled, sigkill, sigpipe, signal_handler}

-- Memory and time verdicts come from `SIGKILL` alone, the output verdict from `SIGPIPE` alone.
pub signal_handler-classes :
    (name : ℕ → Bytes) (limit : ℕ) (rss : Option ℕ) (e : WaitError)
    → let status = (signal_handler name limit rss e).status in
      (((status ≡ verdict_mle) ⊎ (status ≡ verdict_tle))
        × ((text : Bytes) × (e ≡ ended (signaled sigkill) text)))
      ⊎ ((status ≡ verdict_ole) × ((text : Bytes) × (e ≡ ended (signaled sigpipe) text)))
      ⊎ (status ≡ verdict_re)
unfolding signal_handler
signal_handler-classes name limit rss e = ground arith

-- ===== src/Agent/Verdict.antt =====
-- ajagent/internal/utils.go: the verdict and event names, and the result of one test.
use alpine_judge.Common.Text.{Bytes, str}

abbrev pub verdict_ok : Bytes
verdict_ok = str "Running test"

abbrev pub verdict_ac : Bytes
verdict_ac = str "Accepted"

abbrev pub verdict_wa : Bytes
verdict_wa = str "Wrong answer"

abbrev pub verdict_tle : Bytes
verdict_tle = str "Time limit exceeded"

abbrev pub verdict_re : Bytes
verdict_re = str "Runtime error"

abbrev pub verdict_mle : Bytes
verdict_mle = str "Memory limit exceeded"

abbrev pub verdict_ole : Bytes
verdict_ole = str "Output limit exceeded"

abbrev pub verdict_ce : Bytes
verdict_ce = str "Compilation error"

abbrev pub verdict_ie : Bytes
verdict_ie = str "Internal error"

-- The event types; `RESULT` is the literal of `sendResult`.
abbrev pub fatal : Bytes
fatal = str "FATAL"

abbrev pub error : Bytes
error = str "ERROR"

abbrev pub info : Bytes
info = str "INFO"

abbrev pub result : Bytes
result = str "RESULT"

pub record RuntimeInfo : Type 0 where
  pub verdict : Bytes
  pub stdout : Bytes
  pub stderr : Bytes
  pub details : Bytes

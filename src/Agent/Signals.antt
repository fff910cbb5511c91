-- ===== src/Agent/Signals.antt =====
-- ajagent/internal/sighandler.go: what the end of a test process says about the submission.
pub mod Memory
use alpine_judge.Common.{ℕ, ◌+◌, ◌*◌, ◌/◌, ◌%◌, ◌^◌, Bool, true, false, Option, none, some, ◌++◌}
use alpine_judge.Common.{leb, ◌==◌, nat_eq, if◌then◌else◌}
use alpine_judge.Common.Text.{Bytes, str}
use alpine_judge.Common.Text.Decimal.{sprint}
use alpine_judge.Agent.Verdict.{verdict_re, verdict_ole, verdict_mle, verdict_tle}

-- `syscall.WaitStatus` of a process that has ended.
pub data WaitStatus : Type 0 where
  signaled exited : ℕ → WaitStatus

-- The error of `cmd.Wait`: not an `*exec.ExitError`, or one without a wait status, each with its
-- text; or one with a wait status and its text.
pub data WaitError : Type 0 where
  other no_status : Bytes → WaitError
  ended : WaitStatus → Bytes → WaitError

abbrev pub sigill : ℕ
sigill = 4

abbrev pub sigabrt : ℕ
sigabrt = 6

abbrev pub sigfpe : ℕ
sigfpe = 8

abbrev pub sigkill : ℕ
sigkill = 9

abbrev pub sigsegv : ℕ
sigsegv = 11

abbrev pub sigpipe : ℕ
sigpipe = 13

-- The three results of `signalHandler`.
pub record Diagnosis : Type 0 where
  pub status : Bytes
  pub details : Bytes
  pub is_signal : Bool

abbrev diagnosis : Bytes → Bytes → Bool → Diagnosis
diagnosis s d b = record { status = s; details = d; is_signal = b }

-- `uint64(sysUsage.Maxrss) * 1024`, and 0 where the usage is no `*syscall.Rusage`.
unfoldable pub peak_mem_bytes : Option ℕ → ℕ
peak_mem_bytes none = 0
peak_mem_bytes (some maxrss) = maxrss * 1024 % 2 ^ 64

-- `float64(peakMemBytes) >= float64(spec.MemoryLimitMB) * 0.95`, scaled to integers. The two agree
-- where both numbers are below 2 ^ 48, since there the rounded product lies on the same side of
-- every integer as the exact one, or on the integer itself.
unfoldable pub over_threshold : ℕ → ℕ → Bool
over_threshold peak memory_limit_mb = leb (memory_limit_mb * 95) (peak * 100)

-- The `SIGKILL` case.
killed : ℕ → Option ℕ → Diagnosis
unfolding peak_mem_bytes over_threshold
killed memory_limit_mb maxrss =
    let peak = peak_mem_bytes maxrss in
    if over_threshold peak memory_limit_mb
    then diagnosis verdict_mle
        (str "Memory Used: [ "
          ++ sprint (peak / (1024 * 1024))
          ++ str " MB / "
          ++ sprint memory_limit_mb
          ++ str " MB]")
        true
    else diagnosis verdict_tle (str "Time Limit Exceeded") true

-- `signal_name` is `syscall.Signal.String`.
by_signal : (ℕ → Bytes) → ℕ → Option ℕ → ℕ → Diagnosis
unfolding killed
by_signal signal_name memory_limit_mb maxrss sig =
    if sig == sigpipe
    then diagnosis verdict_ole (str "Output limit exceeded (SIGPIPE)") true
    else if sig == sigabrt
    then diagnosis verdict_re (str "Aborted (SIGABRT)") true
    else if sig == sigill
    then diagnosis verdict_re (str "Illegal instruction (SIGILL)") true
    else if sig == sigsegv
    then diagnosis verdict_re (str "Segmentation fault (SIGSEGV)") true
    else if sig == sigfpe
    then diagnosis verdict_re (str "Floating point exception (SIGFPE / Division by Zero)") true
    else if sig == sigkill
    then killed memory_limit_mb maxrss
    else diagnosis verdict_re (str "Terminated by signal " ++ signal_name sig) true

-- `signalHandler`, with the memory limit of the spec and `Maxrss` of the process.
unfoldable pub signal_handler : (ℕ → Bytes) → ℕ → Option ℕ → WaitError → Diagnosis
unfolding by_signal
signal_handler signal_name memory_limit_mb maxrss (other text) = diagnosis verdict_re text false
signal_handler signal_name memory_limit_mb maxrss (no_status text) = diagnosis verdict_re text false
signal_handler signal_name memory_limit_mb maxrss (ended (signaled sig) _) =
    by_signal signal_name memory_limit_mb maxrss sig
signal_handler signal_name memory_limit_mb maxrss (ended (exited code) _) =
    diagnosis verdict_re (str "Exited with status " ++ sprint code) false

-- ===== src/Agent/LimitWriter.antt =====
-- ajagent/internal/limitwriter.go: the writer that stops a test process which prints too much.
-- An `int64` is its bit pattern, a number below 2 ^ 64. The mutex orders the calls, so a run is a
-- list of writes.
pub mod Capture
use alpine_judge.Common.{ℕ, ◌+◌, ◌-◌, ◌*◌, ◌%◌, ◌^◌, Bool, true, false, List, [], ◌∷◌, ◌++◌}
use alpine_judge.Common.{leb, ltb, length, take, if◌then◌else◌}
use alpine_judge.Common.Text.{Bytes}

abbrev pub u64 : ℕ → ℕ
u64 n = n % 2 ^ 64

-- Signed tests on bit patterns: the sign bit is flipped on both sides.
abbrev pub ge_int64 : ℕ → ℕ → Bool
ge_int64 a b = leb (u64 (b + 2 ^ 63)) (u64 (a + 2 ^ 63))

abbrev pub gt_int64 : ℕ → ℕ → Bool
gt_int64 a b = ltb (u64 (b + 2 ^ 63)) (u64 (a + 2 ^ 63))

-- `cancel` says whether the field of that name is set, and `cancels` counts its calls.
pub record LimitExceededWriter : Type 0 where
  pub limit : ℕ
  pub written : ℕ
  pub buf : Bytes
  pub cancel : Bool
  pub cancels : ℕ
  pub limit_reached : Bool

-- The writer of a stream: `&LimitExceededWriter{limit: int64(logLimitKB) * 1000, …}`.
unfoldable pub new_writer : ℕ → Bool → LimitExceededWriter
new_writer log_limit_kb cancel = record {
  limit = u64 (log_limit_kb * 1000);
  written = 0;
  buf = [];
  cancel = cancel;
  cancels = 0;
  limit_reached = false;
}

-- The branch that stores what still fits and cancels the test.
close : LimitExceededWriter → Bytes → LimitExceededWriter
close w p =
    let allowed = u64 (w.limit + 2 ^ 64 - w.written) in
    let kept =
      if gt_int64 allowed 0
      then record w { buf = w.buf ++ take allowed p; written = u64 (w.written + allowed) }
      else w in
    record kept { limit_reached = true; cancels = if w.cancel then w.cancels + 1 else w.cancels }

-- `Write`: the writer afterwards and the count that it returns; the error is always nil.
unfoldable pub write : LimitExceededWriter → Bytes → LimitExceededWriter × ℕ
unfolding close
write w p =
    let n = length p in
    if ge_int64 (u64 (w.written + n)) w.limit
    then (if w.limit_reached then w else close w p, n)
    else (record w { written = u64 (w.written + n); buf = w.buf ++ p }, n)

-- The writes of one stream, in order.
unfoldable pub writes : LimitExceededWriter → List Bytes → LimitExceededWriter
unfolding write
writes w [] = w
writes w (p ∷ ps) = writes (write w p).0 ps

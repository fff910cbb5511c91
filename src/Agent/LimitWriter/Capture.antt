-- ===== src/Agent/LimitWriter/Capture.antt =====
-- What a writer holds after any sequence of writes.
use mathlib.Core.List.{append-nil, append_assoc}
use alpine_judge.Common.{ℕ, ◌+◌, ◌*◌, ◌^◌, ◌≤◌, ◌<◌, ◌≡◌, refl, Bool, true, false, ◌&&◌}
use alpine_judge.Common.{
  List, [], ◌∷◌, ◌++◌, arith, leb, length, take, All, if◌then◌else◌, ◌⊎◌, inl, inr,
}
use alpine_judge.Common.{length-append, take-append, take-append_short, take_all, ap, ◌∙◌, ◌-◌}
use native.Mathlib.Decide.{dec_lt}
use alpine_judge.Common.Text.{Bytes}
use alpine_judge.Agent.LimitWriter.{u64, LimitExceededWriter, new_writer, write, writes}

abbrev pub concat : List Bytes → Bytes
concat [] = []
concat (p ∷ ps) = p ++ concat ps

-- A slice that a Go program can hold.
abbrev pub IsSlice : Bytes → Type 0
IsSlice p = length p < 2 ^ 62

-- The writer with limit `l` has stored all of `fed`, and has room left or has not been written to.
record IsOpen (l : ℕ) (fed : Bytes) (w : LimitExceededWriter) : Type 0 where
  limit : w.limit ≡ l
  written : w.written ≡ length fed
  buf : w.buf ≡ fed
  room : length fed ≤ l
  cancels : w.cancels ≡ 0
  limit_reached : w.limit_reached ≡ false

-- The writer has met its limit within `fed`.
record IsClosed (l : ℕ) (fed : Bytes) (w : LimitExceededWriter) : Type 0 where
  limit : w.limit ≡ l
  written : w.written ≡ l
  buf : w.buf ≡ take l fed
  full : l ≤ length fed
  cancels : w.cancels ≡ (if w.cancel then 1 else 0)
  limit_reached : w.limit_reached ≡ true

module _ (l : ℕ) (small : l < 2 ^ 42) where
  write-IsOpen :
      (w : LimitExceededWriter) (fed p : Bytes)
      → IsSlice p
      → IsOpen l fed w
      → length fed + length p < l
      → IsOpen l (fed ++ p) (write w p).0
  unfolding write
  write-IsOpen w fed p slice o short = ground (arith, length-append fed p)

  write-IsClosed_now :
      (w : LimitExceededWriter) (fed p : Bytes)
      → IsSlice p
      → IsOpen l fed w
      → l ≤ length fed + length p
      → IsClosed l (fed ++ p) (write w p).0
  unfolding write
  write-IsClosed_now w fed p slice o long =
      let fits : u64 (w.limit + 2 ^ 64 - w.written) ≡ l - length fed = ground arith in
      elim (dec_lt (length fed) l) [
        | yes room ↦ ground (arith, fits, length-append fed p, take-append l fed p)
        | no none_left ↦
            let exact : l - length fed ≡ 0 = omega arith in
            let whole : take l (fed ++ p) ≡ fed =
              take-append l fed p (omega arith)
              ∙ (ap (λ k. fed ++ take k p) exact ∙ append-nil fed) in
            ground (arith, fits, whole, length-append fed p)
      ]

  write-IsClosed :
      (w : LimitExceededWriter) (fed p : Bytes)
      → IsSlice p
      → IsClosed l fed w
      → IsClosed l (fed ++ p) (write w p).0
  unfolding write
  write-IsClosed w fed p slice c = ground (arith, length-append fed p, take-append_short l fed p)

  -- A write to an open writer.
  write-IsOpen_or_IsClosed :
      (w : LimitExceededWriter) (fed p : Bytes)
      → IsSlice p
      → IsOpen l fed w
      → (IsOpen l (fed ++ p) (write w p).0 × (length (fed ++ p) < l))
        ⊎ IsClosed l (fed ++ p) (write w p).0
  write-IsOpen_or_IsClosed w fed p slice o = elim (dec_lt (length fed + length p) l) [
    | yes short ↦ inl (write-IsOpen w fed p slice o short, omega (arith, length-append fed p))
    | no long ↦ inr (write-IsClosed_now w fed p slice o (omega arith))
  ]

  writes-IsClosed :
      (w : LimitExceededWriter) (fed : Bytes) (ps : List Bytes)
      → All IsSlice ps
      → IsClosed l fed w
      → IsClosed l (fed ++ concat ps) (writes w ps)
  unfolding writes
  writes-IsClosed w fed [] _ c = rw append-nil c
  writes-IsClosed w fed (p ∷ ps) (slice, slices) c =
      rw (← append_assoc)
        (writes-IsClosed (write w p).0 (fed ++ p) ps slices (write-IsClosed w fed p slice c))

  writes-IsOpen_or_IsClosed :
      (w : LimitExceededWriter) (fed : Bytes) (ps : List Bytes)
      → All IsSlice ps
      → IsOpen l fed w
      → length fed < l
      → (IsOpen l (fed ++ concat ps) (writes w ps) × (length (fed ++ concat ps) < l))
        ⊎ IsClosed l (fed ++ concat ps) (writes w ps)
  unfolding writes
  writes-IsOpen_or_IsClosed w fed [] _ o room = rw append-nil (inl (o, room))
  writes-IsOpen_or_IsClosed w fed (p ∷ ps) (slice, slices) o room =
      rw (← append_assoc) (elim (write-IsOpen_or_IsClosed w fed p slice o) [
        | inl still ↦ writes-IsOpen_or_IsClosed (write w p).0 (fed ++ p) ps slices still.0 still.1
        | inr c ↦ inr (writes-IsClosed (write w p).0 (fed ++ p) ps slices c)
      ])

write-cancel : (w : LimitExceededWriter) (p : Bytes) → (write w p).0.cancel ≡ w.cancel
unfolding write
write-cancel w p = ground arith

writes-cancel : (w : LimitExceededWriter) (ps : List Bytes) → (writes w ps).cancel ≡ w.cancel
unfolding writes
writes-cancel w [] = refl
writes-cancel w (p ∷ ps) = writes-cancel (write w p).0 ps ∙ write-cancel w p

new_writer-IsOpen :
    (kb : ℕ) (cancel : Bool) → kb < 2 ^ 32 → IsOpen (kb * 1000) [] (new_writer kb cancel)
unfolding new_writer
new_writer-IsOpen kb cancel h = ground arith

-- A stream that was written at least once has met its limit of `kb` thousand bytes exactly when
-- its writes carry that many bytes in total. The writer then holds the first `kb * 1000` bytes of
-- them, and all of them otherwise, however they were cut into writes; and it has called `cancel`
-- once, if it was given one, exactly when it met the limit.
pub writes-new_writer :
    (kb : ℕ) (cancel : Bool) (p : Bytes) (ps : List Bytes)
    → kb < 2 ^ 32
    → All IsSlice (p ∷ ps)
    → let w = writes (new_writer kb cancel) (p ∷ ps) in
      (w.limit_reached ≡ leb (kb * 1000) (length (concat (p ∷ ps))))
      × (w.buf ≡ take (kb * 1000) (concat (p ∷ ps)))
      × (w.cancels ≡ (if cancel && w.limit_reached then 1 else 0))
unfolding writes
writes-new_writer kb cancel p ps h (slice, slices) =
    let w = write (new_writer kb cancel) p in
    let same : w.0.cancel ≡ cancel =
      write-cancel (new_writer kb cancel) p ∙ (unfold new_writer in refl) in
    let small : kb * 1000 < 2 ^ 42 = omega arith in
    elim (write-IsOpen_or_IsClosed (kb * 1000) small (new_writer kb cancel) [] p slice
      (new_writer-IsOpen kb cancel h)) [
        | inl o ↦ elim (writes-IsOpen_or_IsClosed (kb * 1000) small w.0 p ps slices o.0 o.1) [
          | inl (e, short) ↦ ground (arith, take_all (kb * 1000) (p ++ concat ps))
          | inr c ↦ ground (arith, writes-cancel w.0 ps)
        ]
        | inr c ↦
            ground
              (arith, writes-IsClosed (kb * 1000) small w.0 p ps slices c, writes-cancel w.0 ps)
      ]

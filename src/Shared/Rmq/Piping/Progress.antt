-- ===== src/Shared/Rmq/Piping/Progress.antt =====
-- The goroutine of a subscription comes to an end of its work.
use alpine_judge.Common.{
  ℕ, ◌+◌, ◌≡◌, ◌≢◌, refl, ap, true, false, List, [], ◌∷◌, length, ◌⊎◌, inl, inr, arith,
}
use alpine_judge.Shared.Rmq.Piping.{
  Delivery, Piper, selecting, sending, returned, Around, Pipe, Change, close_msgs, cancel, leave,
  Step, change, take, hand, stop_cancelled, stop_closed,
}
use alpine_judge.Shared.Rmq.Piping.Draining.{held}

-- How many steps the goroutine has to take: two for each delivery.
abbrev pub to_do : Pipe → ℕ
to_do p = length p.arriving + length p.arriving + length (held p.piper)

-- The consumer is open, the context is not done, and something receives.
abbrev pub running : Around
running = record { msgs_closed = false; cancelled = false; receiving = true }

enabled :
    (k : Piper) (ds rs : List Delivery) (a : Around)
    → a ≡ running
    → k ≢ returned
    → let p : Pipe = record { arriving = ds; piper = k; around = a; received = rs } in
      (to_do p ≡ 0) ⊎ ((q : Pipe) × Step [] p q × (q.around ≡ running))
enabled selecting [] rs a at going = inl refl
enabled selecting (d ∷ ds) rs a at going = inr (_, take d ds rs a, at)
enabled (sending d) ds rs a at going = inr (_, hand d ds rs a (ap (λ r. r.receiving) at), at)
enabled returned ds rs a at going = absurd (going refl)

Change-other : {a b : Around} → Change a b → a ≡ running → b ≢ running
Change-other (close_msgs a) at h = let e = ap (λ r. r.msgs_closed) h in absurd cc
Change-other (cancel a) at h = let e = ap (λ r. r.cancelled) h in absurd cc
Change-other (leave a) at h = let e = ap (λ r. r.receiving) h in absurd cc

nearer :
    {p q : Pipe}
    → Step [] p q
    → p.around ≡ running
    → q.around ≡ running
    → (to_do q + 1 ≡ to_do p) × (q.piper ≢ returned)
nearer (change ds rs k c) at after = absurd (Change-other c at after)
nearer (take d ds rs a) at after = (omega arith, λ h. cc)
nearer (hand d ds rs a alive) at after = (omega arith, λ h. cc)
nearer (stop_cancelled ds rs a c) at after = let e = ap (λ r. r.cancelled) at in absurd cc
nearer (stop_closed rs a c) at after = let e = ap (λ r. r.msgs_closed) at in absurd cc

-- As long as the consumer is open, the context is not done and something receives, a goroutine that
-- has not returned has nothing left to do or can take a step; and every step of it after which this
-- is still so leaves one step less to do, and does not return.
pub Step-progress :
    (p : Pipe)
    → p.around ≡ running
    → p.piper ≢ returned
    → ((to_do p ≡ 0) ⊎ ((q : Pipe) × Step [] p q × (q.around ≡ running)))
      × ((q : Pipe)
          → Step [] p q
          → q.around ≡ running
          → (to_do q + 1 ≡ to_do p) × (q.piper ≢ returned))
Step-progress p at going =
    (enabled p.piper p.arriving p.received p.around at going, λ q step after. nearer step at after)

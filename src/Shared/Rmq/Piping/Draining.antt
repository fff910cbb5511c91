-- ===== src/Shared/Rmq/Piping/Draining.antt =====
-- What becomes of the deliveries of a subscription.
use alpine_judge.Common.{◌≡◌, ◌≢◌, refl, sym, ◌∙◌, ap, true, false, List, [], ◌∷◌, ◌++◌}
use mathlib.Core.List.{append_assoc, append-nil}
use alpine_judge.Shared.Rmq.Piping.{
  Delivery, Piper, selecting, sending, returned, Around, Pipe, subscribed, close_msgs, cancel,
  leave, Step, change, arrive, take, hand, stop_cancelled, stop_closed, Steps, done, followed,
}

-- The delivery that the goroutine holds.
abbrev pub held : Piper → List Delivery
held selecting = []
held (sending d) = d ∷ []
held returned = []

-- Everything that has arrived and is not lost, in the order of arrival.
abbrev pub pending : Pipe → List Delivery
pending p = held p.piper ++ p.arriving

step-pending :
    {es : List Delivery} {p q : Pipe}
    → Step es p q
    → q.received ++ pending q ≡ p.received ++ pending p ++ es
step-pending (change ds rs k c) = sym (append-nil _)
step-pending (arrive d ds rs k a open_) =
    ap (λ ys. rs ++ ys) (sym (append_assoc (held k) ds (d ∷ [])))
    ∙ sym (append_assoc rs (held k ++ ds) (d ∷ []))
step-pending (take d ds rs a) = sym (append-nil _)
step-pending (hand d ds rs a alive) = append_assoc rs (d ∷ []) ds ∙ sym (append-nil _)
step-pending (stop_cancelled ds rs a c) = sym (append-nil _)
step-pending (stop_closed rs a c) = sym (append-nil _)

-- However the parties take turns, what the receiver of a subscription has got, then the delivery
-- that the goroutine holds, if any, then those still waiting in the consumer, are the deliveries
-- that have arrived: nothing is lost, doubled or overtaken.
pub Steps-in_order :
    {ds : List Delivery} {p : Pipe} → Steps ds subscribed p → p.received ++ pending p ≡ ds
Steps-in_order run = rw (Steps-pending run) refl
  where
    Steps-pending :
        {ds : List Delivery} {p q : Pipe}
        → Steps ds p q
        → q.received ++ pending q ≡ p.received ++ pending p ++ ds
    Steps-pending (done p) = sym (append-nil _)
    Steps-pending {p = p} (followed {ds = ds} {es = es} run step) =
        step-pending step
        ∙ (ap (λ ys. ys ++ es) (Steps-pending run) ∙ append_assoc (p.received ++ pending p) ds es)

pub silently : {ds : List Delivery} {p q r : Pipe} → Steps ds p q → Step [] q r → Steps ds p r
silently {ds} {p} {q} {r} run step =
    let longer : Steps (ds ++ []) p r = followed run step in rw (append-nil ds) at longer

drain :
    {es : List Delivery} {p : Pipe} (ds rs : List Delivery) (a : Around)
    → a.receiving ≡ true
    → Steps es p (record { arriving = ds; piper = selecting; around = a; received = rs })
    → Steps es p (record { arriving = []; piper = selecting; around = a; received = rs ++ ds })
drain [] rs a alive run = rw (append-nil rs) run
drain (d ∷ ds) rs a alive run = rw (← append_assoc rs (d ∷ []) ds) (
    drain ds (rs ++ d ∷ []) a alive
      (silently (silently run (take d ds rs a)) (hand d ds rs a alive)))

drain_pending :
    (k : Piper) (ds rs : List Delivery) (a : Around)
    → k ≢ returned
    → a.receiving ≡ true
    → Steps []
        (record { arriving = ds; piper = k; around = a; received = rs })
        (record { arriving = []; piper = selecting; around = a; received = rs ++ (held k ++ ds) })
drain_pending selecting ds rs a going alive = drain ds rs a alive (done _)
drain_pending (sending d) ds rs a going alive =
    rw (← append_assoc rs (d ∷ []) ds)
      (drain ds (rs ++ d ∷ []) a alive (silently (done _) (hand d ds rs a alive)))
drain_pending returned ds rs a going alive = absurd (going refl)

-- As long as the goroutine has not returned and its receiver is there, the two of them alone can
-- go on until the receiver has got everything that has arrived.
pub Steps-drains :
    {ds : List Delivery} {p : Pipe}
    → Steps ds subscribed p
    → p.piper ≢ returned
    → p.around.receiving ≡ true
    → Steps [] p (record { arriving = []; piper = selecting; around = p.around; received = ds })
Steps-drains {p = p} run going alive =
    rw (← Steps-in_order run) (drain_pending p.piper p.arriving p.received p.around going alive)

-- The goroutine holds `d` and nothing receives.
abbrev IsStuck : Delivery → List Delivery → Pipe → Type 0
IsStuck d rs p = (p.piper ≡ sending d) × (p.received ≡ rs) × (p.around.receiving ≡ false)

step-IsStuck :
    {es : List Delivery} {p q : Pipe} (d : Delivery) (rs : List Delivery)
    → Step es p q
    → IsStuck d rs p
    → IsStuck d rs q
step-IsStuck d rs (change ds _ k (close_msgs a)) h = h
step-IsStuck d rs (change ds _ k (cancel a)) h = h
step-IsStuck d rs (change ds _ k (leave a)) (holds, same, left) = (holds, same, refl)
step-IsStuck d rs (arrive e ds _ k a still) h = h
step-IsStuck d rs (take e ds _ a) (holds, same, left) = absurd cc
step-IsStuck d rs (hand e ds _ a alive) (holds, same, left) = absurd cc
step-IsStuck d rs (stop_cancelled ds _ a c) (holds, same, left) = absurd cc
step-IsStuck d rs (stop_closed _ a c) (holds, same, left) = absurd cc

-- A goroutine whose receiver has left while it holds a delivery never comes back to its `select`:
-- it neither returns nor closes its AMQP channel, even when its context is done or the consumer is
-- closed, and nothing more is received.
pub Steps-stuck :
    {ds : List Delivery} {p q : Pipe} (d : Delivery)
    → Steps ds p q
    → p.piper ≡ sending d
    → p.around.receiving ≡ false
    → (q.piper ≡ sending d) × (q.received ≡ p.received)
Steps-stuck {p = p} d run holds left =
    let (piper, received, _) = Steps-IsStuck run (holds, refl, left) in (piper, received)
  where
    Steps-IsStuck :
        {ds : List Delivery} {u v : Pipe}
        → Steps ds u v
        → IsStuck d p.received u
        → IsStuck d p.received v
    Steps-IsStuck (done u) h = h
    Steps-IsStuck (followed run step) h = step-IsStuck d p.received step (Steps-IsStuck run h)

-- ===== src/Runner/Engine/Slots.antt =====
-- The slots that are live at a time.
use alpine_judge.Common.{
  ℕ, ◌+◌, ◌^◌, ◌<◌, ◌≤◌, ◌≡◌, ◌≢◌, refl, List, [], ◌∷◌, ◌++◌, length, length-append, arith, ap,
  eq_self,
}
use alpine_judge.Common.{◌==◌, nat_eq, if◌then◌else◌}
use mathlib.Core.List.{append_cancel_left, append_cancel_right}
use alpine_judge.Common.Text.{str}
use alpine_judge.Common.Text.Decimal.{sprint, sprint-injective}
use alpine_judge.Runner.WarmContainer.{socket_path}
use alpine_judge.Runner.Engine.{
  Engine, Step, create, create_failed, enqueue, hand_over, cancel, receive, create_on_demand,
  finish, Reachable, started, stepped,
}

-- How often a number occurs in a list.
abbrev pub count : ℕ → List ℕ → ℕ
count x [] = 0
count x (y ∷ ys) = (if x == y then 1 else 0) + count x ys

pub count-append : (x : ℕ) (xs ys : List ℕ) → count x (xs ++ ys) ≡ count x xs + count x ys
count-append x [] ys = omega arith
count-append x (y ∷ xs) ys = omega (arith, count-append x xs ys)

-- How many containers have a slot at the same time.
abbrev pub live : ℕ → Engine → ℕ
live x e = count x e.held + count x e.queue + count x e.working

-- No slot is live twice, and no slot beyond the counter is live.
abbrev IsDistinct : Engine → Type 0
IsDistinct e = (x : ℕ) → (live x e ≤ 1) × (e.counter < x → live x e ≡ 0)

step-counter : {cap : ℕ} {e e' : Engine} → Step cap e e' → e.counter ≤ e'.counter
step-counter (create c q w) = omega arith
step-counter (create_failed c h q w) = omega arith
step-counter (enqueue c s q w room) = omega arith
step-counter (hand_over c s w) = omega arith
step-counter (cancel c s q w) = omega arith
step-counter (receive c s h q w) = omega arith
step-counter (create_on_demand c h q w) = omega arith
step-counter (finish c s h q v w) = omega arith

step-IsDistinct :
    {cap : ℕ} {e e' : Engine} → Step cap e e' → e'.counter < 2 ^ 32 → IsDistinct e → IsDistinct e'
step-IsDistinct (create c q w) small d x = ground (arith, d x, d (c + 1))
step-IsDistinct (create_failed c h q w) small d x = ground (arith, d x)
step-IsDistinct (enqueue c s q w room) small d x = ground (arith, d x)
step-IsDistinct (hand_over c s w) small d x = ground (arith, d x)
step-IsDistinct (cancel c s q w) small d x = ground (arith, d x)
step-IsDistinct (receive c s h q w) small d x = ground (arith, d x, count-append x q (s ∷ []))
step-IsDistinct (create_on_demand c h q w) small d x = ground (arith, d x, d (c + 1))
step-IsDistinct (finish c s h q v w) small d x =
    ground (arith, d x, count-append x v (s ∷ w), count-append x v w)

Reachable-IsDistinct : {cap : ℕ} {e : Engine} → Reachable cap e → e.counter < 2 ^ 32 → IsDistinct e
Reachable-IsDistinct started small = λ x. (omega arith, λ h. refl)
Reachable-IsDistinct (stepped r st) small =
    step-IsDistinct st small (Reachable-IsDistinct r (omega (arith, step-counter st)))

-- All live slots: of the producer, of the queue and of the workers.
abbrev pub slots : Engine → List ℕ
slots e = e.held ++ (e.queue ++ e.working)

live-count : (x : ℕ) (e : Engine) → count x (slots e) ≡ live x e
live-count x e =
    omega (arith, count-append x e.held (e.queue ++ e.working), count-append x e.queue e.working)

socket_path-injective : (a b : ℕ) → socket_path a ≡ socket_path b → a ≡ b
unfolding socket_path
socket_path-injective a b h = sprint-injective a b (
    append_cancel_right (sprint a) (sprint b) (str ".sock")
      (append_cancel_left (str "/tmp/runner/sockets/") _ _ h))

count-head : (a : ℕ) (xs : List ℕ) → count a (a ∷ xs) ≡ count a xs + 1
count-head a xs = rw (eq_self a) (omega arith)

twice-count : (a : ℕ) (u v w : List ℕ) → 2 ≤ count a (u ++ a ∷ (v ++ a ∷ w))
twice-count a u v w = omega (
  arith,
  count-append a u (a ∷ (v ++ a ∷ w)),
  count-append a v (a ∷ w),
  count-head a (v ++ a ∷ w),
  count-head a w,
)

-- As long as fewer than 2^32 slots were used, no two containers that are live at a time, whether
-- the producer holds them, the queue or a worker, listen on the same socket, however the producer
-- and the workers take turns.
pub sockets-distinct :
    {cap : ℕ} {e : Engine} (u v w : List ℕ) (a b : ℕ)
    → Reachable cap e
    → e.counter < 2 ^ 32
    → slots e ≡ u ++ a ∷ (v ++ b ∷ w)
    → socket_path a ≢ socket_path b
sockets-distinct {cap} {e} u v w a b r small at same =
    let ab = socket_path-injective a b same in
    let twice : 2 ≤ count a (u ++ a ∷ (v ++ b ∷ w)) = rw (← ab) (twice-count a u v w) in
    let found : count a (slots e) ≡ count a (u ++ a ∷ (v ++ b ∷ w)) = ap (count a) at in
    absurd (omega (arith, (Reachable-IsDistinct r small a).0, live-count a e))

-- The queue of warm containers never holds more than its capacity, nor the producer more than one.
queue-bounded :
    {cap : ℕ} {e : Engine} → Reachable cap e → (length e.queue ≤ cap) × (length e.held ≤ 1)
queue-bounded started = (omega arith, omega arith)
queue-bounded {cap} (stepped r st) = step_bounded st (queue-bounded r)
  where
    step_bounded :
        {e e' : Engine}
        → Step cap e e'
        → (length e.queue ≤ cap) × (length e.held ≤ 1)
        → (length e'.queue ≤ cap) × (length e'.held ≤ 1)
    step_bounded (create c q w) (queue, held) = (queue, omega arith)
    step_bounded (create_failed c h q w) (queue, held) = (queue, held)
    step_bounded (enqueue c s q w room) (queue, held) = (omega arith, omega arith)
    step_bounded (hand_over c s w) (queue, held) = (queue, omega arith)
    step_bounded (cancel c s q w) (queue, held) = (queue, omega arith)
    step_bounded (receive c s h q w) (queue, held) = (omega (arith, length-append q (s ∷ [])), held)
    step_bounded (create_on_demand c h q w) (queue, held) = (queue, held)
    step_bounded (finish c s h q v w) (queue, held) = (queue, held)

-- ===== src/Runner/Engine/Serving.antt =====
-- runner/pkg/engine.go: the loop that starts a worker for each delivery, and its end.
use alpine_judge.Common.{ℕ, zero, suc, ◌+◌, ◌≡◌, refl, arith}

-- The loop runs, waits for its workers (`wg.Wait`), or has returned, either after that or because
-- the queue of deliveries is closed.
pub data Phase : Type 0 where
  looping waiting returned closed : Phase

-- The phase, the workers that run (the count of `wg`), the deliveries taken and those whose worker
-- has ended.
pub record Serving : Type 0 where
  pub phase : Phase
  pub active : ℕ
  pub taken : ℕ
  pub ended : ℕ

abbrev pub started : Serving
started = record { phase = looping; active = 0; taken = 0; ended = 0 }

pub data Turn : Serving → Serving → Type 0 where
  deliver :
      (a t e : ℕ)
      → Turn
          (record { phase = looping; active = a; taken = t; ended = e })
          (record { phase = looping; active = suc a; taken = suc t; ended = e })
  end_worker :
      (p : Phase) (a t e : ℕ)
      → Turn
          (record { phase = p; active = suc a; taken = t; ended = e })
          (record { phase = p; active = a; taken = t; ended = suc e })
  shut_down :
      (a t e : ℕ)
      → Turn
          (record { phase = looping; active = a; taken = t; ended = e })
          (record { phase = waiting; active = a; taken = t; ended = e })
  waited :
      (t e : ℕ)
      → Turn
          (record { phase = waiting; active = 0; taken = t; ended = e })
          (record { phase = returned; active = 0; taken = t; ended = e })
  queue_closed :
      (a t e : ℕ)
      → Turn
          (record { phase = looping; active = a; taken = t; ended = e })
          (record { phase = closed; active = a; taken = t; ended = e })

pub data Turns : Serving → Serving → Type 0 where
  here : (s : Serving) → Turns s s
  followed : {r s t : Serving} → Turns r s → Turn s t → Turns r t

abbrev IsCounted : Serving → Type 0
IsCounted s = (s.taken ≡ s.ended + s.active) × (s.phase ≡ returned → s.active ≡ 0)

Turn-IsCounted : {s t : Serving} → Turn s t → IsCounted s → IsCounted t
Turn-IsCounted (deliver a t e) (count, quiet) = (omega arith, λ h. cc)
Turn-IsCounted (end_worker p a t e) (count, quiet) =
    (omega arith, λ h. let z = quiet h in omega arith)
Turn-IsCounted (shut_down a t e) (count, quiet) = (count, λ h. cc)
Turn-IsCounted (waited t e) (count, quiet) = (count, λ h. refl)
Turn-IsCounted (queue_closed a t e) (count, quiet) = (count, λ h. cc)

Turns-IsCounted : {s t : Serving} → Turns s t → IsCounted s → IsCounted t
Turns-IsCounted (here s) h = h
Turns-IsCounted (followed run turn) h = Turn-IsCounted turn (Turns-IsCounted run h)

end_all :
    {s : Serving} (a t e : ℕ)
    → Turns s (record { phase = waiting; active = a; taken = t; ended = e })
    → Turns s (record { phase = returned; active = 0; taken = t; ended = e + a })
end_all zero t e run = let same : e + 0 ≡ e = omega arith in rw same (followed run (waited t e))
end_all (suc a) t e run =
    let same : e + suc a ≡ suc e + a = omega arith in
    rw same (end_all a t (suc e) (followed run (end_worker waiting a t e)))

-- The end of the context, from a loop that runs.
from_looping :
    (p : Phase) (a t e : ℕ)
    → p ≡ looping
    → t ≡ e + a
    → Turns
        (record { phase = p; active = a; taken = t; ended = e })
        (record { phase = returned; active = 0; taken = t; ended = t })
from_looping looping a t e h count =
    let run = end_all a t e (followed (here _) (shut_down a t e)) in rw (← count) at run
from_looping waiting a t e h count = absurd cc
from_looping returned a t e h count = absurd cc
from_looping closed a t e h count = absurd cc

-- When the loop has returned after the end of the context, every delivery that was taken has had
-- its worker end, and no worker runs; and as long as the loop runs, ending the context leads there
-- once the workers end, without another delivery.
pub Turns-settle :
    {s : Serving}
    → Turns started s
    → (s.phase ≡ returned → (s.active ≡ 0) × (s.ended ≡ s.taken))
      × (s.phase ≡ looping
          → Turns s (record { phase = returned; active = 0; taken = s.taken; ended = s.taken }))
Turns-settle {s} run =
    let (count, quiet) = Turns-IsCounted run (refl, λ h. cc) in
    (
      λ over. let none_left = quiet over in (none_left, omega arith),
      λ running. from_looping s.phase s.active s.taken s.ended running count,
    )

-- ===== src/Runner/Engine/Pool.antt =====
-- The slots of runner/pkg/engine.go as a pool: who holds a slot, and in which order, is forgotten.
use mathlib.Core.Quot
use mathlib.Core.Quot.{Quot, Quot-set}
use alpine_judge.Common.{ap, ℕ, ◌+◌, ◌≡◌, refl, List, [], ◌∷◌, ◌++◌, arith, nat_eq}
use alpine_judge.Runner.Engine.{
  Engine, next_slot, Step, create, create_failed, enqueue, hand_over, cancel, receive,
  create_on_demand, finish,
}
use alpine_judge.Runner.Engine.Slots.{count, count-append, slots}

-- Two lists hold the same slots, as often.
abbrev SameSlots : List ℕ → List ℕ → Type 0
SameSlots xs ys = (x : ℕ) → count x xs ≡ count x ys

abbrev pub Bag : Type 0
Bag = Quot SameSlots

abbrev pub bag_of : List ℕ → Bag
bag_of xs = Quot.mk xs

pub put : ℕ → Bag → Bag
put s = Quot.lift Quot-set (λ xs. bag_of (s ∷ xs)) (λ xs ys h. Quot.sound (λ x. omega (arith, h x)))

-- The pool: how many slots were asked for, and those that are in use.
pub record Pool : Type 0 where
  pub counter : ℕ
  pub in_use : Bag

-- What a step does to the pool.
pub data Deed : Type 0 where
  takes loses gives_back moves : Deed

-- Only a creation takes a slot, or loses one where it fails; only a cancelled hand-over and the end
-- of a job give one back; the queue and the hand-overs move slots.
abbrev pub deed : {cap : ℕ} {e e' : Engine} → Step cap e e' → Deed
deed (create c q w) = takes
deed (create_failed c h q w) = loses
deed (enqueue c s q w room) = moves
deed (hand_over c s w) = moves
deed (cancel c s q w) = gives_back
deed (receive c s h q w) = moves
deed (create_on_demand c h q w) = takes
deed (finish c s h q v w) = gives_back

-- The next slot comes into use or is lost, a slot that is in use is given back, or the pool stays.
abbrev pub Use : Deed → Pool → Pool → Type 0
Use takes p q = q ≡ record { counter = p.counter + 1; in_use = put (next_slot p.counter) p.in_use }
Use loses p q = q ≡ record p { counter = p.counter + 1 }
Use gives_back p q = (s : ℕ) × (p ≡ record q { in_use = put s q.in_use })
Use moves p q = q ≡ p

abbrev pub pool_of : Engine → Pool
pool_of e = record { counter = e.counter; in_use = bag_of (slots e) }

same_pool :
    (c : ℕ) {xs ys : List ℕ}
    → SameSlots xs ys
    → ◌≡◌ {A = Pool}
        (record { counter = c; in_use = bag_of xs })
        (record { counter = c; in_use = bag_of ys })
same_pool c h = ap (λ b. record { counter = c; in_use = b }) (Quot.sound h)

count-parts : (x : ℕ) (h q w : List ℕ) → count x (h ++ (q ++ w)) ≡ count x h + count x q + count x w
count-parts x h q w = omega (arith, count-append x h (q ++ w), count-append x q w)

-- On the pool of slots, the steps of the producer and the workers are what their deeds say: a creation
-- takes the next slot, and one that fails loses it; a cancelled hand-over and the end of a job give
-- a slot in use back; and putting a container into the queue, handing it over and taking it out of
-- the queue leave the pool as it is.
pub Step-Use :
    {cap : ℕ} {e e' : Engine} (step : Step cap e e') → Use (deed step) (pool_of e) (pool_of e')
unfolding put
Step-Use (create c q w) = refl
Step-Use (create_failed c h q w) = refl
Step-Use (enqueue c s q w room) = refl
Step-Use (hand_over c s w) = refl
Step-Use (cancel c s q w) = (s, refl)
Step-Use (receive c s h q w) =
    (same_pool c (λ x. omega (
      arith,
      count-parts x h q (s ∷ w),
      count-parts x h (q ++ s ∷ []) w,
      count-append x q (s ∷ []),
    )))
Step-Use (create_on_demand c h q w) =
    (same_pool (c + 1)
      (λ x. omega (arith, count-parts x h q (next_slot c ∷ w), count-parts x h q w)))
Step-Use (finish c s h q v w) = (
  s,
  same_pool c (λ x. omega (
    arith,
    count-parts x h q (v ++ s ∷ w),
    count-parts x h q (v ++ w),
    count-append x v (s ∷ w),
    count-append x v w,
  )),
)

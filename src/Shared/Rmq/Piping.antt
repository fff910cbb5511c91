-- ===== src/Shared/Rmq/Piping.antt =====
-- The goroutine that `Subscribe` and `SubscribeToExchange` leave behind: it pipes the deliveries of
-- the consumer to the channel that was given, which is unbuffered in both of its uses. The
-- goroutine, the broker, the receiver and the context take turns in any order.
pub mod Draining
pub mod Progress
use alpine_judge.Common.{ℕ, ◌≡◌, refl, sym, ◌∙◌, ap, Bool, true, false, List, [], ◌∷◌, ◌++◌}
use mathlib.Core.List.{append_assoc}
use alpine_judge.Common.Text.{Bytes}

-- What is used of an `amqp.Delivery`.
pub record Delivery : Type 0 where
  pub tag : ℕ
  pub body : Bytes

-- The goroutine: in its `select`, in `localQueue <- d`, or returned, with the AMQP channel closed
-- by the `defer`.
pub data Piper : Type 0 where
  selecting : Piper
  sending : Delivery → Piper
  returned : Piper

-- What the goroutine meets: whether `msgs` is closed, the context of the subscription is done, and
-- something still receives from `localQueue`.
pub record Around : Type 0 where
  pub msgs_closed : Bool
  pub cancelled : Bool
  pub receiving : Bool

-- `arriving` are the deliveries in `msgs`, the oldest first, and `received` those that the receiver
-- has taken, likewise.
pub record Pipe : Type 0 where
  pub arriving : List Delivery
  pub piper : Piper
  pub around : Around
  pub received : List Delivery

abbrev pub subscribed : Pipe
subscribed = record {
  arriving = [];
  piper = selecting;
  around = record { msgs_closed = false; cancelled = false; receiving = true };
  received = [];
}

pub data Change : Around → Around → Type 0 where
  close_msgs : (a : Around) → Change a (record a { msgs_closed = true })
  cancel : (a : Around) → Change a (record a { cancelled = true })
  leave : (a : Around) → Change a (record a { receiving = false })

-- A step, and the delivery that arrives in it, if any. A `select` with several ready cases takes
-- any of them.
pub data Step : List Delivery → Pipe → Pipe → Type 0 where
  change :
      {a b : Around} (ds rs : List Delivery) (k : Piper)
      → Change a b
      → Step []
          (record { arriving = ds; piper = k; around = a; received = rs })
          (record { arriving = ds; piper = k; around = b; received = rs })
  arrive :
      (d : Delivery) (ds rs : List Delivery) (k : Piper) (a : Around)
      → a.msgs_closed ≡ false
      → Step
          (d ∷ [])
          (record { arriving = ds; piper = k; around = a; received = rs })
          (record { arriving = ds ++ d ∷ []; piper = k; around = a; received = rs })
  take :
      (d : Delivery) (ds rs : List Delivery) (a : Around)
      → Step []
          (record { arriving = d ∷ ds; piper = selecting; around = a; received = rs })
          (record { arriving = ds; piper = sending d; around = a; received = rs })
  hand :
      (d : Delivery) (ds rs : List Delivery) (a : Around)
      → a.receiving ≡ true
      → Step []
          (record { arriving = ds; piper = sending d; around = a; received = rs })
          (record { arriving = ds; piper = selecting; around = a; received = rs ++ d ∷ [] })
  stop_cancelled :
      (ds rs : List Delivery) (a : Around)
      → a.cancelled ≡ true
      → Step []
          (record { arriving = ds; piper = selecting; around = a; received = rs })
          (record { arriving = ds; piper = returned; around = a; received = rs })
  stop_closed :
      (rs : List Delivery) (a : Around)
      → a.msgs_closed ≡ true
      → Step []
          (record { arriving = []; piper = selecting; around = a; received = rs })
          (record { arriving = []; piper = returned; around = a; received = rs })

-- Several steps, and the deliveries that arrive in them.
pub data Steps : List Delivery → Pipe → Pipe → Type 0 where
  done : (p : Pipe) → Steps [] p p
  followed :
      {p q r : Pipe} {ds es : List Delivery} → Steps ds p q → Step es q r → Steps (ds ++ es) p r

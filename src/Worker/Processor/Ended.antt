-- ===== src/Worker/Processor/Ended.antt =====
-- internal/worker/processor.go: the processing of a message that has ended.
use mailx.Base.{◌≡◌, refl, true, Option, none, some, [], ◌∷◌}
use mailx.Base.Int.{ℤ}
use mailx.Retry.State.{State}
use mailx.Worker.World.{
  World, Durable, acked, released_at, Processed, closing_time, to_ack, to_release,
}
use mailx.Worker.Processor.{process_one, after_load, after_durable, conclude, close, free_at_end}

-- All that is done, by the answer of the load: with a durable state the claim is acknowledged,
-- and without one it is released at the given time.
abbrev pub Quiet : ℤ → Option Durable → Processed → Type 0
Quiet at (some d) x = (x.trace ≡ acked ∷ []) × (x.closing ≡ to_ack)
Quiet at none x = (x.trace ≡ released_at at ∷ []) × (x.closing ≡ to_release at)

durable_acked :
    (w : World) (cached : Option State) (d : Durable)
    → d.terminal ≡ true
    → ((after_durable w cached d).trace ≡ acked ∷ [])
      × ((after_durable w cached d).closing ≡ to_ack)
unfolding after_durable conclude close free_at_end
durable_acked w cached d ended = rw ended (refl, refl)

load-Quiet :
    (w : World) (cached : Option State) (load : Option Durable)
    → ((d : Durable) → load ≡ some d → d.terminal ≡ true)
    → Quiet (w.clock closing_time) load (after_load w cached load)
unfolding after_load conclude close free_at_end
load-Quiet w cached none ended = (refl, refl)
load-Quiet w cached (some d) ended = durable_acked w cached d (ended d refl)

pub ended-Quiet :
    (w : World) (cached : Option State)
    → ((d : Durable) → w.load_durable ≡ some d → d.terminal ≡ true)
    → Quiet (w.clock closing_time) w.load_durable (process_one w cached)
unfolding process_one
ended-Quiet w cached ended = load-Quiet w cached w.load_durable ended

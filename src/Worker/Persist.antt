-- ===== src/Worker/Persist.antt =====
-- internal/worker/processor.go: the rounds in which an outcome is made durable. The renewal of
-- the claim before each round is an event; its error is only logged, and the time limits are not
-- modelled.
use mailx.Base.{Bool, true, false, Option, none, some, List, [], ◌∷◌}
use mailx.Retry.State.{DeliveryAttempt}
use mailx.Retry.Coordinator.{Outcome}
use mailx.Worker.World.{
  Answer, saved, already_terminal, unavailable, Round, Event, claim_renewed, outcome_offered,
  Closing, to_ack, left_claimed, running,
}

-- One round, before the later ones.
unfoldable pub persist_round :
    DeliveryAttempt
    → Outcome
    → Answer
    → Bool
    → List Event × Option Closing
    → List Event × Option Closing
persist_round a o saved stopping later = (claim_renewed ∷ outcome_offered a o saved ∷ [], none)
persist_round a o already_terminal stopping later =
    (claim_renewed ∷ outcome_offered a o already_terminal ∷ [], some to_ack)
persist_round a o unavailable true later =
    (claim_renewed ∷ outcome_offered a o unavailable ∷ [], some left_claimed)
persist_round a o unavailable false (events, closing) =
    (claim_renewed ∷ outcome_offered a o unavailable ∷ events, closing)

-- `persistOutcome`, over the rounds to come: what was done, and how the processing ends if the
-- outcome is not made durable here.
unfoldable pub persist_outcome :
    DeliveryAttempt → Outcome → List Round → List Event × Option Closing
unfolding persist_round
persist_outcome a o [] = ([], some running)
persist_outcome a o (r ∷ more) = persist_round a o r.answer r.stopping (persist_outcome a o more)

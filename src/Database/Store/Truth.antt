-- ===== src/Database/Store/Truth.antt =====
-- cmd/mailx/outcome_store.go: what is durable agrees with the lifecycle.
use mailx.Base.{ℕ, ◌≡◌, Bool, true, false, ok, arith, ap, ◌∙◌, if◌then◌else◌}
use mailx.Base.Int.{ℤ, pos, leb_ℤ}
use mailx.Retry.Policy.{Decision, retry, terminal_success, terminal_failure}
use mailx.Retry.State.{DeliveryAttempt}
use mailx.Retry.Limit.{retryable, exhausted, status_of}
use mailx.Database.Outcomes.{Rows, Effect, is_terminal, classify_delivery_outcome}
use mailx.Database.Outcomes.Endings.{persist_status}
use mailx.Database.Store.{persist, stored_attempt, is_exhausted}
use mailx.Worker.Processor.Protocol.{is_final}

retry_agrees :
    (b taken : Bool) (finished : ℤ) (e : Effect)
    → classify_delivery_outcome retry taken finished
        (is_exhausted (if b then exhausted else retryable))
      ≡ ok e
    → is_terminal e.status ≡ is_final (if b then exhausted else retryable)
unfolding classify_delivery_outcome is_exhausted is_terminal is_final
retry_agrees true taken finished e h = ground (arith, h)
retry_agrees false taken finished e h = ground (arith, h)

effect_agrees :
    (d : Decision) (n : ℕ) (max finished : ℤ) (taken : Bool) (e : Effect)
    → classify_delivery_outcome d taken finished (is_exhausted (status_of d n max)) ≡ ok e
    → is_terminal e.status ≡ is_final (status_of d n max)
unfolding classify_delivery_outcome is_exhausted status_of is_terminal is_final
effect_agrees retry n max finished taken e h = retry_agrees (leb_ℤ max (pos n)) taken finished e h
effect_agrees terminal_success n max finished taken e h = ground (arith, h)
effect_agrees terminal_failure n max finished taken e h = ground (arith, h)

-- After an outcome is made durable, the message has ended exactly if the lifecycle is final: it
-- succeeded, failed, or used up its attempts.
pub persist_final :
    (now : ℤ) (r : Rows) (a : DeliveryAttempt) (started finished max : ℤ) (n : ℕ) (after : Rows)
    → persist now r a started finished (status_of a.decision n max) ≡ ok after
    → is_terminal after.status ≡ is_final (status_of a.decision n max)
unfolding persist stored_attempt
persist_final now r a started finished max n after h =
    let (e, is, same) = persist_status now r _ _ after h in
    ap is_terminal same ∙ effect_agrees a.decision n max finished a.result.accepted e is

-- ===== src/Database/Store/Reclaim.antt =====
-- cmd/mailx/outcome_store.go with internal/worker: a message whose end is durable, claimed again.
use mailx.Base.{ℕ, ◌≡◌, Bool, true, false, Option, none, some, ok, ap, sym, subst, ◌∙◌}
use mailx.Base.Int.{ℤ}
use mailx.Base.Text.{Text}
use mailx.Retry.State.{State, DeliveryAttempt}
use mailx.Retry.Limit.{status_of}
use mailx.Worker.World.{World, Durable, closing_time}
use mailx.Worker.Processor.{process_one}
use mailx.Worker.Processor.Protocol.{is_final}
use mailx.Worker.Processor.Ended.{Quiet, ended-Quiet}
use mailx.Database.Outcomes.{Rows, is_terminal}
use mailx.Database.Store.{persist, load, loaded, restore}
use mailx.Database.Store.Truth.{persist_final}

abbrev has_ended : Option Durable → Bool
has_ended none = false
has_ended (some d) = d.terminal

loaded_terminal :
    (r : Rows) (next : Option ℤ) (member : Option Text) (s : Option State) (d : Durable)
    → loaded r next member s ≡ some d
    → is_terminal r.status ≡ d.terminal
unfolding loaded
loaded_terminal r next member none d h = absurd (cc)
loaded_terminal r next member (some s) d h = ap has_ended h

-- Once an outcome that is final was made durable, a worker that claims the job again and loads
-- that message does not transmit it, whatever its cache and the other dependencies answer. Where
-- the load gives a durable state, it acknowledges the claim and does nothing else; where the
-- load fails, it releases the claim at the time of its clock and does nothing else.
pub final_not_sent :
    (now : ℤ) (r : Rows) (a : DeliveryAttempt) (started finished max : ℤ) (n : ℕ) (after : Rows)
    (next : Option ℤ) (member : Option Text) (w : World) (cached : Option State)
    → persist now r a started finished (status_of a.decision n max) ≡ ok after
    → is_final (status_of a.decision n max) ≡ true
    → w.load_durable ≡ load after next member
    → Quiet (w.clock closing_time) (load after next member) (process_one w cached)
unfolding load
final_not_sent now r a started finished max n after next member w cached made final is =
    subst (λ x. Quiet (w.clock closing_time) x (process_one w cached)) is
      (ended-Quiet w cached (λ d e.
        sym (loaded_terminal after next member (restore after.attempts) d (sym is ∙ e))
        ∙ (persist_final now r a started finished max n after made ∙ final)))

-- ===== src/Worker/Notify.antt =====
-- internal/worker/processor.go: the notification of a final failure.
use mailx.Base.{Bool, true, false, Option, none, some, Result, ok, err}
use mailx.Retry.State.{State}
use mailx.Retry.Limit.{LifecycleStatus}
use mailx.Bounce.Classify.{Failure, classify}
use mailx.Bounce.Dsn.{BounceError, Dsn, should_generate, new_dsn}
use mailx.Worker.World.{World, Stored}

dsn_of : World → Stored → Failure → Result BounceError Bool → Option Dsn
unfolding new_dsn
dsn_of w m f (err e) = none
dsn_of w m f (ok false) = none
dsn_of w m f (ok true) = elim (new_dsn f m.envelope.recipients w.reporting_mta w.job_id) [
  | err e ↦ none
  | ok d ↦ some d
]

-- `handleTerminalFailure`: the notification that is built.
unfoldable pub handle_terminal_failure : World → Stored → State → LifecycleStatus → Option Dsn
unfolding classify should_generate dsn_of
handle_terminal_failure w m s status = elim (classify (some s) status) [
  | err e ↦ none
  | ok f ↦ dsn_of w m f (should_generate m.envelope.mail_from f)
]

-- ===== src/Database/Store/Restore.antt =====
-- cmd/mailx/outcome_store.go: what `Load` restores.
use mailx.Base.{◌≡◌, refl, false, none, List, ◌∷◌, ap, ◌∙◌, if_cases, if◌then◌else◌}
use mailx.Errors.{is_context}
use mailx.Retry.Policy.{Decision, terminal_success, decide, decide_kind, ended_by_context}
use mailx.Bounce.Classify.{is_decision}
use mailx.Database.Outcomes.{NewAttempt}
use mailx.Database.Store.{result_from_stored, error_from_stored, checked, restore_from, restore}

-- What the stored attempt is decided as again.
unfoldable pub decided_again : NewAttempt → Decision
unfolding decide result_from_stored error_from_stored
decided_again a = decide (result_from_stored a) (error_from_stored a)

-- The stored decision follows from the kind and the acceptance alone.
unfoldable pub by_kind : NewAttempt → Decision
unfolding decide_kind
by_kind a = if a.was_accepted then terminal_success else decide_kind a.kind

not_by_context : (a : NewAttempt) → ended_by_context (error_from_stored a) ≡ false
unfolding error_from_stored ended_by_context is_context
not_by_context a =
    if_cases (λ e. ended_by_context e ≡ false) (is_decision a.decision terminal_success) (λ _. refl)
      (λ _. refl)

again_by_kind : (a : NewAttempt) → decided_again a ≡ by_kind a
unfolding decided_again by_kind decide result_from_stored
again_by_kind a = rw (not_by_context a) refl

-- A message whose first attempt was stored with another decision than its acceptance and its kind
-- give cannot be loaded, whatever its status and its later attempts.
pub restore_fails :
    (a : NewAttempt) (more : List NewAttempt)
    → is_decision (by_kind a) a.decision ≡ false
    → restore (a ∷ more) ≡ none
unfolding restore restore_from checked decided_again
restore_fails a more other = rw (ap (λ d. is_decision d a.decision) (again_by_kind a) ∙ other) refl

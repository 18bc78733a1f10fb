-- ===== src/Worker/Suppress.antt =====
-- internal/worker/suppression.go: the recipients that may still be delivered to.
use mailx.Base.{Bool, false, Option, none, some, List, [], ◌∷◌, not, if◌then◌else◌, ◌*◌}
use mailx.Base.Int.{ℤ, pos, ◌+ℤ◌}
use mailx.Base.Text.{Text, text_eq}
use mailx.Smtp.Validation.{is_cons}
use mailx.Retry.Backoff.{second}
use mailx.Suppression.{normalize}
use mailx.Worker.World.{
  World, SuppressionGate, Answer, saved, already_terminal, unavailable, Event, suppression_recorded,
  Closing, to_ack, to_release, closing_time,
}

abbrev pub suppression_deferral : ℤ
suppression_deferral = pos (15 * second)

-- `keys`
unfoldable pub keys : List Text → List Text
unfolding normalize
keys [] = []
keys (r ∷ rs) = elim (normalize r) [ none ↦ keys rs | some k ↦ k ∷ keys rs ]

-- `suppressed[k]`
unfoldable pub lookup_key : List (Text × Bool) → Text → Bool
unfolding text_eq
lookup_key [] k = false
lookup_key ((j, b) ∷ more) k = if text_eq j k then b else lookup_key more k

-- An address that has no key is never suppressed.
unfoldable pub is_suppressed : List (Text × Bool) → Text → Bool
unfolding normalize lookup_key
is_suppressed suppressed r = elim (normalize r) [ none ↦ false | some k ↦ lookup_key suppressed k ]

-- `deliverable`
unfoldable pub deliverable : List (Text × Bool) → List Text → List Text
unfolding is_suppressed
deliverable suppressed [] = []
deliverable suppressed (r ∷ rs) =
    let rest = deliverable suppressed rs in if is_suppressed suppressed r then rest else r ∷ rest

-- The job is finished or deferred, or goes on for some recipients.
pub data Enforced : Type 0 where
  handled : List Event → Closing → Enforced
  passed : List Event → List Text → Enforced

-- After `RecordSuppressed`.
unfoldable pub recorded : ℤ → List (Text × Bool) → List Text → Bool → Answer → Enforced
unfolding ◌+ℤ◌
recorded now suppressed left all already_terminal =
    handled (suppression_recorded suppressed all already_terminal ∷ []) to_ack
recorded now suppressed left all unavailable =
    handled (suppression_recorded suppressed all unavailable ∷ [])
      (to_release (now +ℤ suppression_deferral))
recorded now suppressed left all saved =
    let done = suppression_recorded suppressed all saved ∷ [] in
    if all then handled done to_ack else passed done left

-- After `SuppressedRecipients`.
unfoldable pub looked_up : ℤ → SuppressionGate → List Text → Option (List (Text × Bool)) → Enforced
unfolding recorded deliverable ◌+ℤ◌
looked_up now gate recipients none = handled [] (to_release (now +ℤ suppression_deferral))
looked_up now gate recipients (some []) = passed [] recipients
looked_up now gate recipients (some (s ∷ more)) =
    let left = deliverable (s ∷ more) recipients in
    let all = not (is_cons left) in
    recorded now (s ∷ more) left all (gate.record_suppressed (s ∷ more) all)

unfoldable pub enforce_with : World → List Text → Option SuppressionGate → Enforced
unfolding looked_up keys
enforce_with w recipients none = passed [] recipients
enforce_with w recipients (some gate) =
    looked_up (w.clock closing_time) gate recipients (gate.suppressed_recipients (keys recipients))

-- `enforceSuppression`
unfoldable pub enforce_suppression : World → List Text → Enforced
unfolding enforce_with
enforce_suppression w recipients = enforce_with w recipients w.suppression

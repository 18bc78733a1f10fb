-- ===== src/Bounce/Dsn/Loops.antt =====
-- internal/bounce/safety.go: a notification is never answered with another one.
use mailx.Base.{◌≡◌, refl, [], ◌∷◌, Result, ok, err, if_cases, not}
use mailx.Base.Text.{Text, trim_space, is_empty, contains_any}
use mailx.Smtp.Validation.{is_bracketed}
use mailx.Smtp.Session.{Envelope}
use mailx.Bounce.Classify.{Failure}
use mailx.Bounce.Dsn.{
  BounceError, original_sender_null, is_null_reverse_path, should_generate, bounce_envelope,
}

-- For an envelope, that it goes to the sender and that its own failure makes no notification.
unfoldable pub EndsHere : Text → Failure → Result BounceError Envelope → Type 0
unfolding trim_space should_generate
EndsHere mail_from f (err e) = Unit
EndsHere mail_from f (ok e) =
    (e.recipients ≡ trim_space mail_from ∷ [])
    × (should_generate e.mail_from f ≡ err original_sender_null)

-- The envelope of a notification goes to the sender of the message alone, and whatever failure
-- its own delivery ends with, no notification is generated for it.
pub bounce_envelope-EndsHere :
    (mail_from : Text) (f : Failure) → EndsHere mail_from f (bounce_envelope mail_from)
unfolding bounce_envelope EndsHere should_generate is_null_reverse_path trim_space
bounce_envelope-EndsHere mail_from f =
    if_cases (EndsHere mail_from f) (is_null_reverse_path mail_from) (λ _. tt)
      (λ _.
        if_cases (EndsHere mail_from f) (is_empty (trim_space mail_from)) (λ _. tt)
          (λ _.
            if_cases (EndsHere mail_from f) (not (is_bracketed (trim_space mail_from))) (λ _. tt)
              (λ _.
                if_cases (EndsHere mail_from f)
                  (contains_any (trim_space mail_from) (13 ∷ 10 ∷ 0 ∷ [])) (λ _. tt)
                  (λ _. (refl, refl)))))

-- ===== src/Smtp/StartTls/Secrecy.antt =====
-- internal/smtp/client_tls.go: what is written before TLS, and when a session goes on without it.
use mailx.Base.{
  ◌≡◌, refl, Bool, true, Option, none, some, is_some, [], ◌∷◌, ◌++◌, ◌||◌, not, ◌==◌, arith,
  if_cases, All, All-append,
}
use mailx.Base.Text.{Text, codes, text_eq}
use mailx.Smtp.Channel.{IoError, Answer, reply, broken, Channel, command, has}
use mailx.Smtp.StartTls.{
  Setup, Staged, is_required, greeted_again, shaken, start_tls_answered, secure,
}

-- A line goes over TLS, or is STARTTLS.
abbrev pub IsCovered : Text × Bool → Type 0
IsCovered l = (l.1 || text_eq l.0 (codes "STARTTLS")) ≡ true

abbrev pub IsDiscreet : Channel → Type 0
IsDiscreet ch = All IsCovered ch.written

pub command-IsDiscreet :
    (line : Text) (ch : Channel)
    → (ch.tls.established || text_eq line (codes "STARTTLS")) ≡ true
    → IsDiscreet ch
    → IsDiscreet (command line ch).0
unfolding command
command-IsDiscreet line ch covered d =
    All-append IsCovered ch.written ((line, ch.tls.established) ∷ []) d (covered, tt)

-- TLS is required by the policy, or by credentials.
abbrev pub wants_tls : Setup → Bool
wants_tls setup = is_required setup.policy || is_some setup.credentials

-- A stage that writes STARTTLS at most in the clear, and passes under TLS where that is wanted.
pub record IsPrivate (setup : Setup) (r : Staged) : Type 0 where
  pub discreet : IsDiscreet r.0
  pub settled : r.1 ≡ none → wants_tls setup ≡ true → r.0.tls.established ≡ true

module _ (setup : Setup) where
  greeted-IsPrivate :
      (r : Channel × Answer)
      → IsDiscreet r.0
      → r.0.tls.established ≡ true
      → IsPrivate setup (greeted_again r)
  unfolding greeted_again
  greeted-IsPrivate (ch, broken e) d t = record { discreet = d; settled = λ none_is. absurd (cc) }
  greeted-IsPrivate (ch, reply code enhanced text) d t =
      if_cases (IsPrivate setup) (code == 250) (λ _. record { discreet = d; settled = λ _ _. t })
        (λ _. record { discreet = d; settled = λ none_is. absurd (cc) })

  shaken-IsPrivate :
      (h : Option IoError) (ch : Channel) → IsDiscreet ch → IsPrivate setup (shaken setup h ch)
  unfolding shaken command
  shaken-IsPrivate (some e) ch d = record { discreet = d; settled = λ none_is. absurd (cc) }
  shaken-IsPrivate none ch d =
      let ch' : Channel = record ch { tls = record ch.tls { established = true } } in
      greeted-IsPrivate (command (codes "EHLO " ++ setup.identity) ch')
        (command-IsDiscreet (codes "EHLO " ++ setup.identity) ch' refl d) refl

  answered-IsPrivate :
      (r : Channel × Answer) → IsDiscreet r.0 → IsPrivate setup (start_tls_answered setup r)
  unfolding start_tls_answered
  answered-IsPrivate (ch, broken e) d = record { discreet = d; settled = λ none_is. absurd (cc) }
  answered-IsPrivate (ch, reply code enhanced text) d =
      if_cases (IsPrivate setup) (not (code == 220))
        (λ _. record { discreet = d; settled = λ none_is. absurd (cc) })
        λ _.
          if_cases (IsPrivate setup) setup.early_bytes
            (λ _. record { discreet = d; settled = λ none_is. absurd (cc) })
            (λ _. shaken-IsPrivate setup.handshake (record ch { capabilities = [] }) d)

  pub secure-IsPrivate : (ch : Channel) → IsDiscreet ch → IsPrivate setup (secure setup ch)
  unfolding secure text_eq
  secure-IsPrivate ch d =
      let offered = has (codes "STARTTLS") ch.capabilities in
      let ch' : Channel = record ch {
        tls = record ch.tls { policy = setup.policy; advertised = offered; attempted = true };
      } in
      if_cases (IsPrivate setup) offered
        (λ _.
          answered-IsPrivate (command (codes "STARTTLS") ch')
            (command-IsDiscreet (codes "STARTTLS") ch' (ground arith) d))
        (λ _.
          if_cases (IsPrivate setup) (is_required setup.policy || is_some setup.credentials)
            (λ _. record { discreet = d; settled = λ none_is. absurd (cc) })
            (λ free. record { discreet = d; settled = λ _ wanted. absurd (cc) }))

-- ===== src/Smtp/Session/Grades.antt =====
-- internal/smtp/client.go: the codes and the marks of the errors of `Send`.
use mailx.Base.{
  ℕ, ◌≡◌, refl, Bool, true, false, Option, none, some, List, [], ◌∷◌, ◌&&◌, ◌||◌, ◌⊎◌, leb, ltb,
  ◌==◌, ok, err, Result, inl, inr, Result-cases, ◌>>=◌, guard, not, if_cases,
}
use mailx.Base.Text.{Text, is_empty}
use mailx.Errors.{Err, Stage, other, smtp, mail_from, data_command, data_response}
use mailx.Smtp.Session.{
  Reply, reply, failed, Peer, Envelope, is_2xx, expect, greet, hello, rcpt, rcpts, run, reply_error,
  delivery_error_from_read, Network, Credentials, send, is_cons, check_recipients, is_envelope_path,
  credentials_ok, invalid_input_error, message_error, write_done, say_helo,
}

abbrev is_other : Err → Bool
is_other other = true
is_other _ = false

-- A network whose peers pass the TLS and AUTH stages.
abbrev pub IsPlain : Network → Type 0
IsPlain net = (p : Peer) → net.dial ≡ ok p → (p.secure ≡ none) × (p.authenticate ≡ none)

-- A step that fails, fails as `E` says, and else gives what `Q` says.
abbrev pub Grades : {A : Type 0} (E : Err → Type 0) (Q : A → Type 0) → Result Err A → Type 0
Grades E Q (ok a) = Q a
Grades E Q (err e) = E e

-- The codes of the replies satisfy `P`.
abbrev pub Codes : (ℕ → Type 0) → List Reply → Type 0
Codes P [] = Unit
Codes P (failed e ∷ rs) = Codes P rs
Codes P (reply code enhanced text ∷ rs) = P code × Codes P rs

pub any_code : (rs : List Reply) → Codes (λ _. Unit {0}) rs
any_code [] = tt
any_code (failed e ∷ rs) = any_code rs
any_code (reply code enhanced text ∷ rs) = (tt, any_code rs)

module _ (P : ℕ → Type 0) where
  -- The error of a session: SMTP's, temporary exactly if the code is 4xx; a code of 0 where it
  -- wraps a cause; and otherwise 0, or the code of a reply.
  abbrev pub IsGraded : Err → Type 0
  IsGraded (smtp i e) =
      (i.temporary ≡ (leb 400 i.code && ltb i.code 500))
      × (is_other e ≡ false → i.code ≡ 0)
      × ((i.code ≡ 0) ⊎ P i.code)
  IsGraded _ = ⊥

  Grades->>= :
      {A B : Type 0} (Q : A → Type 0) (R : B → Type 0) (m : Result Err A) (f : A → Result Err B)
      → Grades IsGraded Q m
      → ((a : A) → Q a → Grades IsGraded R (f a))
      → Grades IsGraded R (m >>= f)
  Grades->>= Q R (ok a) f g h = h a g
  Grades->>= Q R (err e) f g h = g

  abbrev AnyResult : {A : Type 0} → A → Type 0
  AnyResult a = Unit {0}

  abbrev RestCodes : ℕ × Text × List Reply → Type 0
  RestCodes x = Codes P x.2

  -- A step that leaves replies.
  abbrev Leaves : Result Err (List Reply) → Type 0
  Leaves r = Grades IsGraded (Codes P) r

  abbrev Says : Result Err (ℕ × Text × List Reply) → Type 0
  Says r = Grades IsGraded RestCodes r

  abbrev Passes : Result Err (Unit {0}) → Type 0
  Passes r = Grades IsGraded AnyResult r

  greet-Leaves : (rs : List Reply) → Codes P rs → Leaves (greet rs)
  unfolding greet reply_error delivery_error_from_read
  greet-Leaves [] c = (refl, λ _. refl, inl refl)
  greet-Leaves (failed e ∷ rs) c = (refl, λ _. refl, inl refl)
  greet-Leaves (reply code enhanced text ∷ rs) (p, c) =
      if_cases Leaves (code == 220) (λ _. c) (λ _. (refl, λ h. absurd (cc), inr p))

  helo-Leaves : (rs : List Reply) → Codes P rs → Leaves (say_helo rs)
  unfolding say_helo reply_error delivery_error_from_read
  helo-Leaves [] c = (refl, λ _. refl, inl refl)
  helo-Leaves (failed e ∷ rs) c = (refl, λ _. refl, inl refl)
  helo-Leaves (reply code enhanced text ∷ rs) (p, c) =
      if_cases Leaves (code == 250) (λ _. c) (λ _. (refl, λ h. absurd (cc), inr p))

  hello-Leaves : (rs : List Reply) → Codes P rs → Leaves (hello rs)
  unfolding hello reply_error delivery_error_from_read
  hello-Leaves [] c = (refl, λ _. refl, inl refl)
  hello-Leaves (failed e ∷ rs) c = (refl, λ _. refl, inl refl)
  hello-Leaves (reply code enhanced text ∷ rs) (p, c) =
      if_cases Leaves (code == 250) (λ _. c)
        (λ _.
          if_cases Leaves (ltb code 500 || ltb 599 code) (λ _. (refl, λ h. absurd (cc), inr p))
            (λ _. helo-Leaves rs c))

  expect-Says :
      (stage : Stage) (pass : ℕ → Bool) (rs : List Reply) → Codes P rs → Says (expect stage pass rs)
  unfolding expect reply_error delivery_error_from_read
  expect-Says stage pass [] c = (refl, λ _. refl, inl refl)
  expect-Says stage pass (failed e ∷ rs) c = (refl, λ _. refl, inl refl)
  expect-Says stage pass (reply code enhanced text ∷ rs) (p, c) =
      if_cases Says (pass code) (λ _. c) (λ _. (refl, λ h. absurd (cc), inr p))

  rcpts-Leaves : (to : List Text) (rs : List Reply) → Codes P rs → Leaves (rcpts to rs)
  unfolding rcpts rcpt delivery_error_from_read
  rcpts-Leaves [] rs c = c
  rcpts-Leaves (r ∷ more) [] c = (refl, λ _. refl, inl refl)
  rcpts-Leaves (r ∷ more) (failed e ∷ rs) c = (refl, λ _. refl, inl refl)
  rcpts-Leaves (r ∷ more) (reply code enhanced text ∷ rs) (p, c) =
      Grades->>= (Codes P) (Codes P) (rcpt r (reply code enhanced text) rs) (rcpts more)
        (if_cases Leaves (is_2xx code) (λ _. c) (λ _. (refl, λ h. absurd (cc), inr p)))
        (rcpts-Leaves more)

  written-Passes : (w : Option Err) → Passes (write_done w)
  unfolding message_error
  written-Passes none = tt
  written-Passes (some e) = (refl, λ _. refl, inl refl)

  -- With the TLS and AUTH stages passed.
  run-Grades :
      (p : Peer) (e : Envelope)
      → p.secure ≡ none
      → p.authenticate ≡ none
      → Codes P p.replies
      → Grades IsGraded AnyResult (run p e)
  unfolding run
  run-Grades p e s a c =
      simp (s, a)
        (Grades->>= (Codes P) AnyResult (greet p.replies) _ (greet-Leaves p.replies c) λ r1 c1.
          Grades->>= (Codes P) AnyResult (hello r1) _ (hello-Leaves r1 c1) λ r2 c2.
            Grades->>= RestCodes AnyResult (expect mail_from is_2xx r2) _
              (expect-Says mail_from is_2xx r2 c2)
              λ r3 c3.
                Grades->>= (Codes P) AnyResult (rcpts e.recipients r3.2) _
                  (rcpts-Leaves e.recipients r3.2 c3)
                  λ r4 c4.
                    Grades->>= RestCodes AnyResult (expect data_command (λ code. code == 354) r4) _
                      (expect-Says data_command (λ code. code == 354) r4 c4)
                      λ r5 c5.
                        Grades->>= AnyResult AnyResult (write_done p.write_message) _
                          (written-Passes p.write_message)
                          λ w _.
                            Grades->>= RestCodes AnyResult (expect data_response is_2xx r5.2) _
                              (expect-Says data_response is_2xx r5.2 c5) λ r6 _. tt)

  check_recipients-Passes : (to : List Text) → Passes (check_recipients to)
  unfolding check_recipients invalid_input_error
  check_recipients-Passes [] = tt
  check_recipients-Passes (r ∷ more) =
      if_cases Passes (is_envelope_path false r) (λ _. check_recipients-Passes more)
        (λ _. (refl, λ _. refl, inl refl))

  guard-Passes : (b : Bool) (recipient : Text) → Passes (guard b (invalid_input_error recipient))
  unfolding invalid_input_error
  guard-Passes true recipient = tt
  guard-Passes false recipient = (refl, λ _. refl, inl refl)

  -- Where the peers pass the TLS and AUTH stages, an error of `Send` is a `*DeliveryError` that is
  -- marked temporary exactly if its code is 4xx, whether it comes from the checks, from the dial
  -- or from the session. Its code is 0 or that of a reply of the peer: it has each property that
  -- 0 and those codes have. An error that wraps a cause (any but `other`, which stands for a nil
  -- one too) has code 0, so it is not temporary; and so has every error where no reply is read.
  pub send-Grades :
      (net : Network) (address : Text) (e : Envelope) (auth : Option Credentials)
      → IsPlain net
      → ((p : Peer) → net.dial ≡ ok p → Codes P p.replies)
      → Grades IsGraded AnyResult (send net address e auth)
  unfolding send
  send-Grades net address e auth plain coded =
      Grades->>= AnyResult AnyResult _ _ (guard-Passes (not (is_empty address)) []) λ _ _.
        Grades->>= AnyResult AnyResult _ _ (guard-Passes (is_envelope_path true e.mail_from) [])
          λ _ _. Grades->>= AnyResult AnyResult _ _ (guard-Passes (is_cons e.recipients) []) λ _ _.
            Grades->>= AnyResult AnyResult _ _ (check_recipients-Passes e.recipients) λ _ _.
              Grades->>= AnyResult AnyResult _ _ (guard-Passes (credentials_ok auth) []) λ _ _.
                elim (Result-cases net.dial) [
                  | inl (e', is) ↦ simp is (refl, λ _. refl, inl refl)
                  | inr (p, is) ↦
                      simp is (run-Grades p e (plain p is).0 (plain p is).1 (coded p is))
                ]

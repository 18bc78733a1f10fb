-- ===== src/Smtp/Upgrade/Secrecy.antt =====
-- internal/smtp: credentials go over TLS only, and where TLS is required no session goes on without it.
use mailx.Base.{
  ℕ, ◌+◌, ◌≡◌, refl, true, Option, none, some, is_some, List, [], ◌∷◌, ◌++◌, sym, subst, ◌∙◌, ◌&&◌,
  not, leb, ltb, ◌==◌, length, arith, if_cases,
}
use mailx.Base.Text.{Text, codes}
use mailx.Smtp.Validation.{Credentials}
use mailx.Smtp.Payload.{b64, plain_payload}
use mailx.Smtp.Channel.{
  AuthOutcome, success, temporary, refused, protocol_error, no_mechanism, Answer, reply, broken,
  Channel, command,
}
use mailx.Smtp.Upgrade.{
  auth_fail, classify_auth_io, auth_finish, on_reply, auth_round, challenged, Mechanism, plain,
  login, run_mechanism, start_auth, choose_mechanism, auth_mechanisms, with_credentials,
  authenticate, authenticate_as, if_passed, upgrade,
}
use mailx.Smtp.StartTls.{Setup, Staged, secure}
use mailx.Smtp.StartTls.Secrecy.{
  IsDiscreet, command-IsDiscreet, wants_tls, IsPrivate, secure-IsPrivate,
}

-- On a channel under TLS.
record IsUnderTls (ch : Channel) : Type 0 where
  discreet : IsDiscreet ch
  established : ch.tls.established ≡ true

-- The channel has read some of the answers.
abbrev Reads : List Answer → Channel → Type 0
Reads answers ch = (before : List Answer) × (answers ≡ before ++ ch.answers)

-- The last of the answers that the channel has read is a reply with this code.
abbrev pub Said : List Answer → ℕ → Channel → Type 0
Said answers code ch =
    (before : List Answer) × (enhanced : Text) × (text : Text) × (answers
      ≡ before ++ reply code enhanced text ∷ ch.answers)

-- A stage that stays under TLS, and passes with success alone, after a reply 235.
record IsAuthStage (answers : List Answer) (r : Staged) : Type 0 where
  under_tls : IsUnderTls r.0
  passed : r.1 ≡ none → (r.0.auth.outcome ≡ success) × Said answers 235 r.0

move_one : {A : Type 0} (xs : List A) (x : A) (ys : List A) → (xs ++ x ∷ []) ++ ys ≡ xs ++ x ∷ ys
move_one [] x ys = refl
move_one (y ∷ xs) x ys = rw (move_one xs x ys) refl

Said-Reads :
    (answers : List Answer) (code : ℕ) (ch : Channel) → Said answers code ch → Reads answers ch
Said-Reads answers code ch (before, enhanced, text, is) = (
  before ++ reply code enhanced text ∷ [],
  is ∙ sym (move_one before (reply code enhanced text) ch.answers),
)

command-Said :
    (answers before : List Answer) (line : Text) (ch : Channel) (left : List Answer) (code : ℕ)
    (enhanced text : Text)
    → ch.answers ≡ left
    → answers ≡ before ++ ch.answers
    → (command line ch).1 ≡ reply code enhanced text
    → Said answers code (command line ch).0
unfolding command
command-Said answers before line ch [] code enhanced text is all h = absurd (ground (arith, is, h))
command-Said answers before line ch (a ∷ more) code enhanced text is all h =
    (before, enhanced, text, all ∙ cc (is, h))

command-IsUnderTls : (line : Text) (ch : Channel) → IsUnderTls ch → IsUnderTls (command line ch).0
unfolding command
command-IsUnderTls line ch u = record {
  discreet = command-IsDiscreet line ch (ground (arith, u.established)) u.discreet;
  established = u.established;
}

module _ (answers : List Answer) where
  auth_fail-IsAuthStage :
      (outcome : AuthOutcome) (code : ℕ) (enhanced : Text) (ch : Channel)
      → IsUnderTls ch
      → IsAuthStage answers (auth_fail outcome code enhanced ch)
  unfolding auth_fail
  auth_fail-IsAuthStage outcome code enhanced ch u = record {
    under_tls = record { discreet = u.discreet; established = u.established };
    passed = λ e. absurd (cc);
  }

  -- What follows a reply.
  abbrev Stays : (ℕ → Text → Channel → Staged) → Type 0
  Stays next =
      (code : ℕ) (enhanced : Text) (ch : Channel)
      → IsUnderTls ch
      → Said answers code ch
      → IsAuthStage answers (next code enhanced ch)

  auth_finish-Stays : Stays auth_finish
  unfolding auth_finish
  auth_finish-Stays code enhanced ch u said =
      if_cases (IsAuthStage answers) (code == 235)
        (λ is. record {
          under_tls = record { discreet = u.discreet; established = u.established };
          passed = λ _. (refl, subst (λ n. Said answers n ch) (ground (arith, is)) said);
        })
        λ _.
          if_cases (IsAuthStage answers) (leb 400 code && ltb code 500)
            (λ _. auth_fail-IsAuthStage temporary code enhanced ch u)
            λ _.
              if_cases (IsAuthStage answers) (leb 500 code && ltb code 600)
                (λ _. auth_fail-IsAuthStage refused code enhanced ch u)
                (λ _. auth_fail-IsAuthStage protocol_error code [] ch u)

  on_reply-IsAuthStage :
      (next : ℕ → Text → Channel → Staged) (r : Channel × Answer)
      → Stays next
      → IsUnderTls r.0
      → ((code : ℕ) (enhanced text : Text) → r.1 ≡ reply code enhanced text → Said answers code r.0)
      → IsAuthStage answers (on_reply next r)
  unfolding on_reply
  on_reply-IsAuthStage next (ch, broken e) stays u said =
      auth_fail-IsAuthStage (classify_auth_io e) 0 [] ch u
  on_reply-IsAuthStage next (ch, reply code enhanced text) stays u said =
      stays code enhanced ch u (said code enhanced text refl)

  auth_round-IsAuthStage :
      (line : Text) (next : ℕ → Text → Channel → Staged) (ch : Channel)
      → Stays next
      → IsUnderTls ch
      → Reads answers ch
      → IsAuthStage answers (auth_round line next ch)
  unfolding auth_round
  auth_round-IsAuthStage line next ch stays u (before, all) =
      on_reply-IsAuthStage next (command line ch) stays (command-IsUnderTls line ch u)
        (λ code enhanced text h.
          command-Said answers before line ch ch.answers code enhanced text refl all h)

  challenged-Stays :
      (line : Text) (next : ℕ → Text → Channel → Staged)
      → Stays next
      → Stays (challenged (auth_round line next))
  unfolding challenged
  challenged-Stays line next stays code enhanced ch u said =
      if_cases (IsAuthStage answers) (code == 334)
        (λ _. auth_round-IsAuthStage line next ch stays u (Said-Reads answers code ch said))
        (λ _. auth_finish-Stays code enhanced ch u said)

  run_mechanism-IsAuthStage :
      (setup : Setup) (c : Credentials) (m : Mechanism) (ch : Channel)
      → IsUnderTls ch
      → Reads answers ch
      → IsAuthStage answers (run_mechanism setup c m ch)
  unfolding run_mechanism
  run_mechanism-IsAuthStage setup c plain ch u reads =
      if_cases (IsAuthStage answers)
        (leb (length (codes "AUTH PLAIN " ++ plain_payload c) + 2) setup.max_reply_line_bytes)
        (λ _.
          auth_round-IsAuthStage (codes "AUTH PLAIN " ++ plain_payload c) auth_finish ch
            auth_finish-Stays u reads)
        (λ _.
          auth_round-IsAuthStage (codes "AUTH PLAIN")
            (challenged (auth_round (plain_payload c) auth_finish)) ch
            (challenged-Stays (plain_payload c) auth_finish auth_finish-Stays) u reads)
  run_mechanism-IsAuthStage setup c login ch u reads =
      auth_round-IsAuthStage (codes "AUTH LOGIN")
        (challenged
          (auth_round (b64 c.username) (challenged (auth_round (b64 c.password) auth_finish))))
        ch
        (challenged-Stays (b64 c.username) (challenged (auth_round (b64 c.password) auth_finish))
          (challenged-Stays (b64 c.password) auth_finish auth_finish-Stays))
        u reads

  start_auth-IsAuthStage :
      (setup : Setup) (c : Credentials) (m : Option Mechanism) (ch : Channel)
      → IsUnderTls ch
      → Reads answers ch
      → IsAuthStage answers (start_auth setup c m ch)
  unfolding start_auth
  start_auth-IsAuthStage setup c none ch u reads = auth_fail-IsAuthStage no_mechanism 0 [] ch u
  start_auth-IsAuthStage setup c (some m) ch u reads =
      run_mechanism-IsAuthStage setup c m _
        (record { discreet = u.discreet; established = u.established }) reads

module _ (setup : Setup) where
  -- Both stages: what is written in the clear is STARTTLS at most; a session that passes is under
  -- TLS where that is wanted; and one with credentials has been authenticated, by a reply 235, the
  -- last of the answers that the AUTH stage read of those it was given.
  pub record IsUpgraded (answers : List Answer) (r : Staged) : Type 0 where
    pub private : IsPrivate setup r
    pub authenticated :
        r.1 ≡ none
        → is_some setup.credentials ≡ true
        → (r.0.auth.outcome ≡ success) × Said answers 235 r.0

  with_credentials-IsUpgraded :
      (c : Credentials) (ch : Channel)
      → IsDiscreet ch
      → IsUpgraded ch.answers (with_credentials setup c ch)
  unfolding with_credentials auth_fail
  with_credentials-IsUpgraded c ch d =
      if_cases (IsUpgraded ch.answers) (not ch.tls.established)
        (λ _. record {
          private = record { discreet = d; settled = λ none_is. absurd (cc) };
          authenticated = λ none_is. absurd (cc);
        })
        (λ up.
          if_cases (IsUpgraded ch.answers) (length (auth_mechanisms ch.capabilities) == 0)
            (λ _. record {
              private = record { discreet = d; settled = λ none_is. absurd (cc) };
              authenticated = λ none_is. absurd (cc);
            })
            (λ _.
              let stage =
                start_auth-IsAuthStage ch.answers setup c
                  (choose_mechanism (auth_mechanisms ch.capabilities)) ch
                  (record { discreet = d; established = ground (arith, up) }) ([], refl) in
              record {
                private = record {
                  discreet = stage.under_tls.discreet;
                  settled = λ _ _. stage.under_tls.established;
                };
                authenticated = λ none_is _. stage.passed none_is;
              }))

  authenticate_as-IsUpgraded :
      (credentials : Option Credentials) (ch : Channel)
      → setup.credentials ≡ credentials
      → IsDiscreet ch
      → (wants_tls setup ≡ true → ch.tls.established ≡ true)
      → IsUpgraded ch.answers (authenticate_as setup credentials ch)
  unfolding authenticate_as
  authenticate_as-IsUpgraded none ch is d t = record {
    private = record { discreet = d; settled = λ _. t };
    authenticated = λ _ h. absurd (ground (arith, h, is));
  }
  authenticate_as-IsUpgraded (some c) ch is d t = with_credentials-IsUpgraded c ch d

  passed-IsUpgraded :
      (r : Staged) → IsPrivate setup r → IsUpgraded r.0.answers (if_passed (authenticate setup) r)
  unfolding if_passed authenticate
  passed-IsUpgraded (ch, some e) p = record { private = p; authenticated = λ none_is. absurd (cc) }
  passed-IsUpgraded (ch, none) p =
      authenticate_as-IsUpgraded setup.credentials ch refl p.discreet (p.settled refl)

  -- Whatever the peer answers, and however the stages end, the TLS and AUTH stages write nothing but
  -- STARTTLS outside TLS, so credentials go over TLS alone; where the policy requires TLS or there
  -- are credentials, the session goes on only under TLS; and with credentials it goes on only
  -- if the last answer that the AUTH stage read, of those the TLS stage left, is a reply 235.
  pub upgrade-IsUpgraded :
      (ch : Channel) → IsDiscreet ch → IsUpgraded (secure setup ch).0.answers (upgrade setup ch)
  unfolding upgrade
  upgrade-IsUpgraded ch d = passed-IsUpgraded (secure setup ch) (secure-IsPrivate setup ch d)

-- ===== src/Smtp/Server/Serve/Turns.antt =====
-- internal/smtp/server.go: what one round of the loop gives the sink and tells the client.
use mailx.Base.{
  ℕ, ◌≤◌, ◌≡◌, refl, Bool, true, false, Option, none, some, List, [], ◌∷◌, ◌||◌, not, if◌then◌else◌,
  length, arith, if_cases, inl, inr, Option-cases, All, is_some,
}
use mailx.Base.Int.{pos_part}
use mailx.Base.Text.{Text, text_eq, is_empty}
use mailx.Smtp.Validation.{is_cons}
use mailx.Smtp.Server.Command.{Command, Verb, message_data, quit, command, verb_of, is_known}
use mailx.Smtp.Server.Command.Words.{OneLine, known_verb}
use mailx.Smtp.Server.Reply.{Response, wire, message_accepted}
use mailx.Smtp.Server.Reader.{
  read_command, CommandLine, got, too_long, bad_framing, closed, DataReadResult, DataRead, read,
  failed, spent, read_data,
}
use mailx.Smtp.Server.Reader.Parts.{IsPart, IsPart-trans, read_data_part, Leaves}
use mailx.Smtp.Server.Reader.Bounds.{read_data_bounded}
use mailx.Smtp.Server.Transaction.{Session, is_mail_received, reset_transaction, Answer, answer}
use mailx.Smtp.Server.Transaction.Invariant.{
  IsSession, IsSound, reset_transaction-IsSession, verb-IsSound,
}
use mailx.Smtp.Server.Serve.{
  replied, Server, Next, over, unread, Turn, say, accepted_reply, failed_reply, hand_over,
  finish_data, and_before, intermediate_reply, receive, answer_data, answer_quit, dispatch, obey,
  take_turn,
}
use mailx.Smtp.Server.Serve.Rounds.{KeepsAt}
use mailx.Smtp.Server.Serve.Promises.{FollowsData, IsReceived, IsHandOver, IsSafe, IsHonest}

cons-length : (xs : List Text) → is_cons xs ≡ true → 1 ≤ length xs
cons-length [] h = absurd (cc)
cons-length (x ∷ xs) h = omega arith

module _ {M : Type 0} (srv : Server M) (input : Text) where
  -- The session, and the bytes of the client that are still to come.
  abbrev pub IsAt : Session → Text → Type 0
  IsAt s rest = IsSession srv.config s × IsPart rest input

  pub record IsRound (t : Turn M) : Type 0 where
    pub safe : All (IsSafe srv input) t.events
    pub honest : (sink : ℕ → Session → M → Bool) → srv.sink ≡ some sink → IsHonest none t.events
    pub session : KeepsAt IsAt t.next

  said :
      (r : Response) (s : Session) (calls : ℕ) (rest : Text)
      → is_some (wire r) ≡ true
      → text_eq r.enhanced message_accepted ≡ false
      → IsSession srv.config s
      → IsPart rest input
      → IsRound (say r s calls rest)
  said r s calls rest sendable modest v part = record {
    safe = (sendable, tt);
    honest = λ _ _. (modest, refl);
    session = (v, part);
  }

  ended :
      (r : Response) (next : Next)
      → is_some (wire r) ≡ true
      → text_eq r.enhanced message_accepted ≡ false
      → KeepsAt IsAt next
      → IsRound (record { events = replied r ∷ []; next = next })
  ended r next sendable modest k = record {
    safe = (sendable, tt);
    honest = λ _ _. (modest, refl);
    session = k;
  }

  final_sendable :
      (taken : Bool) → is_some (wire (if taken then accepted_reply else failed_reply)) ≡ true
  unfolding wire
  final_sendable true = refl
  final_sendable false = refl

  -- The session is in a transaction that has a recipient.
  module _ (s : Session) (v : IsSession srv.config s) (inside : is_mail_received s.state ≡ true)
      (addressed : is_cons s.envelope.recipients ≡ true) where
    handed-IsHandOver : (m : M) → IsReceived M srv input m → IsHandOver M srv input s m
    handed-IsHandOver m received = record {
      inside = inside;
      authorised = ground (arith, v.authorised, inside);
      sender = v.sender inside;
      some_recipients = cons-length s.envelope.recipients addressed;
      few_recipients = v.few;
      recipients = v.recipients;
      received = received;
    }

    hand_over-IsRound :
        (sink : Option (ℕ → Session → M → Bool)) (m : M) (calls : ℕ) (rest : Text)
        → srv.sink ≡ sink
        → IsHandOver M srv input s m
        → IsPart rest input
        → IsRound (hand_over sink m s calls rest)
    unfolding hand_over wire
    hand_over-IsRound none m calls rest is h part = record {
      safe = (refl, tt);
      honest = λ sink e. absurd (cc);
      session = (reset_transaction-IsSession srv.config s v, part);
    }
    hand_over-IsRound (some sink) m calls rest is h part = record {
      safe = (h, (final_sendable (sink calls s m), tt));
      honest = λ _ _. (refl, refl);
      session = (reset_transaction-IsSession srv.config s v, part);
    }

    finish_data-IsRound :
        (from : Text) (result : DataReadResult) (calls : ℕ) (rest : Text)
        → read_data
            (pos_part srv.config.command_line_limit)
            (pos_part srv.config.max_message_size)
            from
          ≡ read result rest
        → FollowsData M srv input from
        → IsPart from input
        → IsRound (finish_data srv result s calls rest)
    unfolding finish_data wire text_eq
    finish_data-IsRound from result calls rest is told sent =
        let limit = pos_part srv.config.command_line_limit in
        let max = pos_part srv.config.max_message_size in
        let part =
          IsPart-trans rest from input (read_data_part limit max from result rest is) sent in
        let v' = reset_transaction-IsSession srv.config s v in
        if_cases IsRound result.oversized
          (λ _. said _ (reset_transaction s) calls rest refl refl v' part)
          λ fits.
            if_cases IsRound result.malformed
              (λ _. said _ (reset_transaction s) calls rest refl refl v' part)
              λ good. elim (Option-cases (srv.parse_message result.raw)) [
                | inl e ↦ rw e (said _ (reset_transaction s) calls rest refl refl v' part)
                | inr (m, e) ↦ rw e (
                    hand_over-IsRound srv.sink m calls rest refl
                      (handed-IsHandOver m (record {
                        from = from;
                        after = rest;
                        data_read = result;
                        sent = told;
                        is_read = is;
                        whole = fits;
                        well_formed = good;
                        small = read_data_bounded limit max from result rest is;
                        parsed = e;
                      }))
                      part)
              ]

    -- The 354 reply and what follows.
    after_354 : (t : Turn M) → IsRound t → IsRound (and_before (replied intermediate_reply) t)
    unfolding wire text_eq
    after_354 t h = record {
      safe = (refl, h.safe);
      honest = λ sink e. (refl, h.honest sink e);
      session = h.session;
    }

    receive-IsRound :
        (from : Text) (x : DataRead) (calls : ℕ)
        → read_data
            (pos_part srv.config.command_line_limit)
            (pos_part srv.config.max_message_size)
            from
          ≡ x
        → FollowsData M srv input from
        → IsPart from input
        → IsRound (receive srv x s calls)
    unfolding receive wire text_eq
    receive-IsRound from (read result rest) calls is told sent =
        after_354 (finish_data srv result s calls rest)
          (finish_data-IsRound from result calls rest is told sent)
    receive-IsRound from failed calls is told sent = ended intermediate_reply over refl refl tt
    receive-IsRound from spent calls is told sent = ended intermediate_reply unread refl refl tt

  module _ (s : Session) (v : IsSession srv.config s) where
    data-IsRound :
        (cmd : Command) (calls : ℕ) (rest : Text)
        → FollowsData M srv input rest
        → IsPart rest input
        → IsRound (answer_data srv cmd s calls rest)
    unfolding answer_data wire text_eq
    data-IsRound cmd calls rest told part =
        let limit = pos_part srv.config.command_line_limit in
        let max = pos_part srv.config.max_message_size in
        if_cases IsRound cmd.has_argument (λ _. said _ s calls rest refl refl v part)
          λ _.
            if_cases IsRound (not (is_mail_received s.state) || not (is_cons s.envelope.recipients))
              (λ _. said _ s calls rest refl refl v part)
              (λ pass.
                receive-IsRound s v (ground (arith, pass)) (ground (arith, pass)) rest
                  (read_data limit max rest) calls refl told part)

    quit-IsRound :
        (cmd : Command) (calls : ℕ) (rest : Text)
        → IsPart rest input
        → IsRound (answer_quit cmd s calls rest)
    unfolding answer_quit wire text_eq
    quit-IsRound cmd calls rest part =
        if_cases IsRound cmd.has_argument (λ _. said _ s calls rest refl refl v part)
          (λ _. ended _ over refl refl tt)

    answered :
        (a : Answer) (calls : ℕ) (rest : Text)
        → IsSound srv.config a
        → IsPart rest input
        → IsRound (say a.0 a.1 calls rest)
    answered a calls rest h part = said a.0 a.1 calls rest h.sendable h.modest h.session part

    dispatch-IsRound :
        (verb : Verb) (cmd : Command) (calls : ℕ) (rest : Text)
        → (is_known verb ≡ true → OneLine cmd.verb)
        → (verb ≡ message_data → FollowsData M srv input rest)
        → IsPart rest input
        → IsRound (dispatch srv verb cmd s calls rest)
    unfolding dispatch
    dispatch-IsRound message_data cmd calls rest clean told part =
        data-IsRound cmd calls rest (told refl) part
    dispatch-IsRound quit cmd calls rest clean told part = quit-IsRound cmd calls rest part
    dispatch-IsRound verb cmd calls rest clean told part =
        answered (answer srv.config verb cmd s) calls rest
          (verb-IsSound srv.config s v cmd verb clean) part

    obey-IsRound :
        (cmd : Command) (calls : ℕ) (rest : Text)
        → (verb_of cmd.verb ≡ message_data → FollowsData M srv input rest)
        → IsPart rest input
        → IsRound (obey srv cmd s calls rest)
    unfolding obey wire text_eq
    obey-IsRound cmd calls rest told part =
        if_cases IsRound cmd.is_valid
          (λ _. dispatch-IsRound (verb_of cmd.verb) cmd calls rest (known_verb cmd.verb) told part)
          λ _.
            if_cases IsRound (is_empty cmd.verb || not (is_known (verb_of cmd.verb)))
              (λ _. said _ s calls rest refl refl v part)
              (λ _. said _ s calls rest refl refl v part)

    pub take_turn-IsRound :
        (c : CommandLine) (calls : ℕ) (now : Text)
        → read_command (pos_part srv.config.command_line_limit) now ≡ c
        → Leaves c now
        → IsPart now input
        → IsRound (take_turn srv c s calls)
    unfolding take_turn wire text_eq
    take_turn-IsRound too_long calls now is left part = ended _ over refl refl tt
    take_turn-IsRound (bad_framing rest) calls now is left part =
        said _ s calls rest refl refl v (IsPart-trans rest now input left part)
    take_turn-IsRound closed calls now is left part = record {
      safe = tt;
      honest = λ _ _. refl;
      session = tt;
    }
    take_turn-IsRound (got line rest) calls now is left part =
        let told : verb_of (command line).verb ≡ message_data → FollowsData M srv input rest =
          λ e. record { from = now; line = line; sent = part; line_read = is; is_data = e } in
        let r =
          obey-IsRound (command line) calls rest told (IsPart-trans rest now input left part) in
        record { safe = (tt, r.safe); honest = r.honest; session = r.session }

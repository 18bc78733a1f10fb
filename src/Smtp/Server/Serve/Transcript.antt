-- ===== src/Smtp/Server/Serve/Transcript.antt =====
-- internal/smtp/server.go: the envelopes that the sink is given, as an observer of the connection
-- would draw them up.
use mailx.Base.{
  ℕ, ◌+◌, ◌≡◌, refl, Bool, true, Option, none, some, List, [], ◌∷◌, ◌++◌, ◌||◌, not, length, arith,
  if_cases, inl, inr, Option-cases, subst,
}
use mailx.Base.Int.{pos_part}
use mailx.Base.Text.{Text, is_empty}
use mailx.Smtp.Validation.{is_cons}
use mailx.Smtp.Server.Command.{Command, Verb, message_data, quit, command, verb_of, is_known}
use mailx.Smtp.Server.Command.Brackets.{line_path}
use mailx.Smtp.Server.Reader.{
  CommandLine, got, too_long, bad_framing, closed, DataReadResult, DataRead, read, failed, spent,
  read_data,
}
use mailx.Smtp.Server.Transaction.{Session, is_mail_received}
use mailx.Smtp.Server.Transaction.Ledger.{
  Ledger, blank, note_reply, Matches, reset-Matches, Named, Follows, answer-Follows,
}
use mailx.Smtp.Server.Serve.{
  Event, heard, replied, handed, Server, Turn, hand_over, finish_data, greeting_reply, receive,
  answer_data, answer_quit, dispatch, obey, take_turn, serve, first_session, serve_from,
}
use mailx.Smtp.Server.Serve.Rounds.{Keeps, all_rounds}

-- Each envelope that is handed over is the observer's.
unfoldable pub IsTranscript : {M : Type 0} → Ledger → List (Event M) → Type 0
unfolding note_reply
IsTranscript l [] = Unit
IsTranscript l (heard line ∷ es) = IsTranscript (record l { line = line }) es
IsTranscript l (replied r ∷ es) = IsTranscript (note_reply l r) es
IsTranscript l (handed s m taken ∷ es) =
    (s.envelope.mail_from ≡ l.sender) × (s.envelope.recipients ≡ l.recipients) × IsTranscript l es

noted : {M : Type 0} → Ledger → List (Event M) → Ledger
unfolding note_reply
noted l [] = l
noted l (heard line ∷ es) = noted (record l { line = line }) es
noted l (replied r ∷ es) = noted (note_reply l r) es
noted l (handed s m taken ∷ es) = noted l es

IsTranscript-append :
    {M : Type 0} (l : Ledger) (es fs : List (Event M))
    → IsTranscript l es
    → IsTranscript (noted l es) fs
    → IsTranscript l (es ++ fs)
unfolding IsTranscript noted
IsTranscript-append l [] fs h k = k
IsTranscript-append l (heard line ∷ es) fs h k =
    IsTranscript-append (record l { line = line }) es fs h k
IsTranscript-append l (replied r ∷ es) fs h k = IsTranscript-append (note_reply l r) es fs h k
IsTranscript-append l (handed s m taken ∷ es) fs h k = (h.0, h.1, IsTranscript-append l es fs h.2 k)

module _ {M : Type 0} (srv : Server M) where
  record Agrees (l : Ledger) (t : Turn M) : Type 0 where
    events : IsTranscript l t.events
    next : Keeps (Matches (noted l t.events)) t.next

  module _ (l : Ledger) (s : Session) (v : Matches l s) where
    hand_over-Agrees :
        (sink : Option (ℕ → Session → M → Bool)) (m : M) (calls : ℕ) (rest : Text)
        → is_mail_received s.state ≡ true
        → Agrees l (hand_over sink m s calls rest)
    unfolding hand_over IsTranscript noted
    hand_over-Agrees none m calls rest inside = record { events = tt; next = reset-Matches l s }
    hand_over-Agrees (some sink) m calls rest inside = record {
      events = (v.sender inside, v.recipients inside, tt);
      next = reset-Matches _ s;
    }

    finish_data-Agrees :
        (result : DataReadResult) (calls : ℕ) (rest : Text)
        → is_mail_received s.state ≡ true
        → Agrees l (finish_data srv result s calls rest)
    unfolding finish_data IsTranscript noted
    finish_data-Agrees result calls rest inside =
        if_cases (Agrees l) result.oversized (λ _. record { events = tt; next = reset-Matches l s })
          λ _.
            if_cases (Agrees l) result.malformed
              (λ _. record { events = tt; next = reset-Matches l s })
              λ _. elim (Option-cases (srv.parse_message result.raw)) [
                | inl e ↦ rw e (record { events = tt; next = reset-Matches l s })
                | inr (m, e) ↦ rw e (hand_over-Agrees srv.sink m calls rest inside)
              ]

    receive-Agrees :
        (x : DataRead) (calls : ℕ)
        → is_mail_received s.state ≡ true
        → Agrees l (receive srv x s calls)
    unfolding receive IsTranscript noted
    receive-Agrees (read result rest) calls inside =
        let a = finish_data-Agrees result calls rest inside in
        record { events = a.events; next = a.next }
    receive-Agrees failed calls inside = record { events = tt; next = tt }
    receive-Agrees spent calls inside = record { events = tt; next = tt }

    data-Agrees :
        (cmd : Command) (calls : ℕ) (rest : Text) → Agrees l (answer_data srv cmd s calls rest)
    unfolding answer_data IsTranscript noted
    data-Agrees cmd calls rest =
        let limit = pos_part srv.config.command_line_limit in
        let max = pos_part srv.config.max_message_size in
        if_cases (Agrees l) cmd.has_argument (λ _. record { events = tt; next = v })
          λ _.
            if_cases (Agrees l)
              (not (is_mail_received s.state) || not (is_cons s.envelope.recipients))
              (λ _. record { events = tt; next = v })
              (λ pass. receive-Agrees (read_data limit max rest) calls (ground (arith, pass)))

    quit-Agrees :
        (cmd : Command) (calls : ℕ) (rest : Text) → Agrees l (answer_quit cmd s calls rest)
    unfolding answer_quit IsTranscript noted
    quit-Agrees cmd calls rest =
        if_cases (Agrees l) cmd.has_argument (λ _. record { events = tt; next = v })
          (λ _. record { events = tt; next = tt })

    dispatch-Agrees :
        (verb : Verb) (cmd : Command) (calls : ℕ) (rest : Text)
        → (is_known verb ≡ true → Named l cmd)
        → Agrees l (dispatch srv verb cmd s calls rest)
    unfolding dispatch IsTranscript noted Follows
    dispatch-Agrees message_data cmd calls rest named = data-Agrees cmd calls rest
    dispatch-Agrees quit cmd calls rest named = quit-Agrees cmd calls rest
    dispatch-Agrees verb cmd calls rest named = record {
      events = tt;
      next = answer-Follows srv.config l s v verb cmd named;
    }

    obey-Agrees :
        (cmd : Command) (calls : ℕ) (rest : Text)
        → (cmd.is_valid ≡ true → is_known (verb_of cmd.verb) ≡ true → Named l cmd)
        → Agrees l (obey srv cmd s calls rest)
    unfolding obey IsTranscript noted
    obey-Agrees cmd calls rest named =
        if_cases (Agrees l) cmd.is_valid
          (λ valid. dispatch-Agrees (verb_of cmd.verb) cmd calls rest (named valid))
          λ _.
            if_cases (Agrees l) (is_empty cmd.verb || not (is_known (verb_of cmd.verb)))
              (λ _. record { events = tt; next = v }) (λ _. record { events = tt; next = v })

  heard-Matches :
      (l : Ledger) (s : Session) (line : Text) → Matches l s → Matches (record l { line = line }) s
  heard-Matches l s line v = record {
    sender = v.sender;
    recipients = v.recipients;
    outside = v.outside;
  }

  take_turn-Agrees :
      (l : Ledger) (c : CommandLine) (s : Session) (calls : ℕ)
      → Matches l s
      → Agrees l (take_turn srv c s calls)
  unfolding take_turn IsTranscript noted
  take_turn-Agrees l too_long s calls v = record { events = tt; next = tt }
  take_turn-Agrees l (bad_framing rest) s calls v = record { events = tt; next = v }
  take_turn-Agrees l closed s calls v = record { events = tt; next = tt }
  take_turn-Agrees l (got line rest) s calls v =
      let a =
        obey-Agrees (record l { line = line }) s (heard-Matches l s line v) (command line) calls
          rest (λ valid known k p allow w b h. line_path line k p allow valid known w b h) in
      record { events = a.events; next = a.next }

  round-Agrees :
      (l : Ledger) (c : CommandLine) (s : Session) (calls : ℕ)
      → Matches l s
      → IsTranscript l (take_turn srv c s calls).events
        × Keeps (Matches (noted l (take_turn srv c s calls).events)) (take_turn srv c s calls).next
  round-Agrees l c s calls v = let a = take_turn-Agrees l c s calls v in (a.events, a.next)

  -- In every session, whatever the client sends, the envelope of each message that the sink is
  -- given is the one that an observer draws up from the connection alone: the sender is the path
  -- in the last line that was answered with status 2.1.0, and the recipients are the paths in the
  -- lines answered with status 2.1.5 since then, in that order, where the path in a line is what
  -- stands from its first angle bracket on.
  pub serve-IsTranscript :
      (id input : Text) (es : List (Event M)) → serve srv id input ≡ some es → IsTranscript blank es
  unfolding serve IsTranscript
  serve-IsTranscript id input es h =
      elim (Option-cases (serve_from (length input + 1) srv (first_session id) 0 input)) [
        | inl e ↦ absurd (ground (arith, h, e))
        | inr (fs, e) ↦
            let whole : replied greeting_reply ∷ fs ≡ es = ground (arith, h, e) in
            subst (IsTranscript blank) whole (
              all_rounds srv (λ l s _. Matches l s) IsTranscript noted IsTranscript-append
                (λ l c s calls _ _ v. round-Agrees l c s calls v) (length input + 1) blank
                (first_session id) 0 input fs
                (record {
                  sender = λ i. absurd (cc);
                  recipients = λ i. absurd (cc);
                  outside = λ _. refl;
                })
                e)
      ]

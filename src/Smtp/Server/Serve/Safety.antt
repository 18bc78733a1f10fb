-- ===== src/Smtp/Server/Serve/Safety.antt =====
-- internal/smtp/server.go: what the sink is given, and when the server says that it has a message.
use mailx.Base.{
  ℕ, ◌+◌, ◌≡◌, refl, Bool, none, some, List, [], ◌∷◌, ◌++◌, length, arith, inl, inr, Option-cases,
  All, All-append, subst,
}
use mailx.Base.Int.{pos_part}
use mailx.Base.Text.{Text, text_eq}
use mailx.Smtp.Server.Reply.{wire}
use mailx.Smtp.Server.Reader.{CommandLine, read_command}
use mailx.Smtp.Server.Reader.Parts.{Leaves, read_command-Leaves}
use mailx.Smtp.Server.Transaction.{Session}
use mailx.Smtp.Server.Transaction.Invariant.{IsSession}
use mailx.Smtp.Server.Serve.{
  Event, replied, Server, take_turn, serve, first_session, greeting_reply, serve_from,
}
use mailx.Smtp.Server.Serve.Turns.{IsAt, take_turn-IsRound}
use mailx.Smtp.Server.Serve.Rounds.{KeepsAt, all_rounds}
use mailx.Smtp.Server.Serve.Promises.{IsSafe, IsHonest, IsHonest-append}

module _ {M : Type 0} (srv : Server M) (input : Text) where
  first-IsSession : (id : Text) → IsSession srv.config (first_session id)
  first-IsSession id = record {
    authorised = refl;
    sender = λ e. absurd (cc);
    recipients = tt;
    few = omega arith;
    fresh = λ _. refl;
  }

  -- What holds of the events of a session.
  abbrev IsGood : List (Event M) → Type 0
  IsGood es =
      All (IsSafe srv input) es
      × ((sink : ℕ → Session → M → Bool) → srv.sink ≡ some sink → IsHonest none es)

  IsGood-append : (es fs : List (Event M)) → IsGood es → IsGood fs → IsGood (es ++ fs)
  IsGood-append es fs g h = (
    All-append (IsSafe srv input) es fs g.0 h.0,
    λ sink is. IsHonest-append none es fs (g.1 sink is) (h.1 sink is),
  )

  round-IsGood :
      (c : CommandLine) (s : Session) (calls : ℕ) (now : Text)
      → read_command (pos_part srv.config.command_line_limit) now ≡ c
      → IsAt srv input s now
      → IsGood (take_turn srv c s calls).events
        × KeepsAt (IsAt srv input) (take_turn srv c s calls).next
  round-IsGood c s calls now is (v, part) =
      let left =
        subst (λ x. Leaves x now) is
          (read_command-Leaves (pos_part srv.config.command_line_limit) now) in
      let r = take_turn-IsRound srv input s v c calls now is left part in
      ((r.safe, r.honest), r.session)

  serve-IsGood : (id : Text) (es : List (Event M)) → serve srv id input ≡ some es → IsGood es
  unfolding serve wire text_eq
  serve-IsGood id es h =
      elim (Option-cases (serve_from (length input + 1) srv (first_session id) 0 input)) [
        | inl e ↦ absurd (ground (arith, h, e))
        | inr (fs, e) ↦
            let whole : replied greeting_reply ∷ fs ≡ es = ground (arith, h, e) in
            subst IsGood whole (
              IsGood-append (replied greeting_reply ∷ []) fs ((refl, tt), λ _ _. (refl, refl))
                (all_rounds srv (λ (_ : Unit {0}) s now. IsAt srv input s now) (λ _ es. IsGood es)
                  (λ _ _. tt) (λ _. IsGood-append) (λ _. round-IsGood) (length input + 1) tt
                  (first_session id) 0 input fs (first-IsSession id, ([], refl)) e))
      ]

  -- In every session, whatever the client sends: each reply has a form on the wire; and each
  -- message that the sink is given comes from an authenticated client, where that is required,
  -- with a sender and with recipients, at least one and at most as many as the limit, that are
  -- envelope paths which the client takes too, and is what was parsed of the message data that
  -- `readData` gives of the client's bytes after a line that is the DATA command, neither
  -- oversized nor malformed, and within the size limit.
  pub serve-IsSafe :
      (id : Text) (es : List (Event M)) → serve srv id input ≡ some es → All (IsSafe srv input) es
  serve-IsSafe id es h = (serve-IsGood id es h).0

  -- In every session of a server with a sink, whatever the client sends: a message that the sink
  -- is given is answered at once, by 250 with status 2.6.0 if the sink takes it and by 451 if
  -- not; and no other reply has status 2.6.0.
  pub serve-IsHonest :
      (sink : ℕ → Session → M → Bool) (id : Text) (es : List (Event M))
      → srv.sink ≡ some sink
      → serve srv id input ≡ some es
      → IsHonest none es
  serve-IsHonest sink id es is h = (serve-IsGood id es h).1 sink is

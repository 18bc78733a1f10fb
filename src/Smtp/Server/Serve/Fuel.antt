-- ===== src/Smtp/Server/Serve/Fuel.antt =====
-- internal/smtp/server.go: a session ends when the client's bytes do, at the latest.
use mailx.Base.{
  ℕ, zero, suc, ◌+◌, ◌≤◌, ◌<◌, ◌≡◌, refl, Bool, Option, none, some, List, [], ◌∷◌, ◌++◌, ◌||◌, not,
  length, arith, if_cases, inl, inr, Option-cases, ok, >>=-eq-ok,
}
use mailx.Base.Int.{pos_part}
use mailx.Base.Text.{Text, is_empty}
use mailx.Smtp.Validation.{is_cons}
use mailx.Smtp.Server.Command.{Command, Verb, message_data, quit, command, verb_of, is_known}
use mailx.Smtp.Server.Config.{Config, normalized_config}
use mailx.Smtp.Server.Reader.{
  CommandLine, got, too_long, bad_framing, closed, DataReadResult, DataRead, read, failed, spent,
  read_data, read_command,
}
use mailx.Smtp.Server.Reader.Fuel.{IsEnd, read_data-IsEnd, IsConsumed, read_command-IsConsumed}
use mailx.Smtp.Server.Transaction.{Session, is_mail_received}
use mailx.Smtp.Server.Serve.{
  Event, replied, Server, Next, go, over, unread, Turn, hand_over, finish_data, receive,
  answer_data, dispatch, obey, take_turn, serve, serve_from, and_then, first_session,
  greeting_reply, handle_connection,
}
use mailx.Smtp.Server.Serve.Rounds.{Next-cases}

-- The round was taken to its end, and the session goes on with these bytes at most.
abbrev Leaves : Text → Next → Type 0
Leaves s (go s' calls rest) = length rest ≤ length s
Leaves s over = Unit
Leaves s unread = ⊥

Leaves-le : (n : Next) (s t : Text) → length s ≤ length t → Leaves s n → Leaves t n
Leaves-le (go s' calls rest) s t h l = omega (arith, h, l)
Leaves-le over s t h l = tt
Leaves-le unread s t h l = absurd l

module _ {M : Type 0} (srv : Server M)
    (some_limit : 0 < pos_part srv.config.command_line_limit) where
  hand_over-Leaves :
      (sink : Option (ℕ → Session → M → Bool)) (m : M) (s : Session) (calls : ℕ) (rest : Text)
      → Leaves rest (hand_over sink m s calls rest).next
  unfolding hand_over
  hand_over-Leaves none m s calls rest = omega arith
  hand_over-Leaves (some sink) m s calls rest = omega arith

  finish_data-Leaves :
      (result : DataReadResult) (s : Session) (calls : ℕ) (rest : Text)
      → Leaves rest (finish_data srv result s calls rest).next
  unfolding finish_data
  finish_data-Leaves result s calls rest =
      if_cases (λ (t : Turn M). Leaves rest t.next) result.oversized (λ _. omega arith)
        λ _.
          if_cases (λ (t : Turn M). Leaves rest t.next) result.malformed (λ _. omega arith)
            λ _. elim (Option-cases (srv.parse_message result.raw)) [
              | inl e ↦ rw e (omega arith)
              | inr (m, e) ↦ rw e (hand_over-Leaves srv.sink m s calls rest)
            ]

  receive-Leaves :
      (x : DataRead) (s : Session) (calls : ℕ) (rest : Text)
      → IsEnd x rest
      → Leaves rest (receive srv x s calls).next
  unfolding receive
  receive-Leaves (read result more) s calls rest e =
      Leaves-le (finish_data srv result s calls more).next more rest e
        (finish_data-Leaves result s calls more)
  receive-Leaves failed s calls rest e = tt
  receive-Leaves spent s calls rest e = e

  data-Leaves :
      (cmd : Command) (s : Session) (calls : ℕ) (rest : Text)
      → Leaves rest (answer_data srv cmd s calls rest).next
  unfolding answer_data
  data-Leaves cmd s calls rest =
      let limit = pos_part srv.config.command_line_limit in
      let max = pos_part srv.config.max_message_size in
      if_cases (λ (t : Turn M). Leaves rest t.next) cmd.has_argument (λ _. omega arith)
        λ _.
          if_cases (λ (t : Turn M). Leaves rest t.next)
            (not (is_mail_received s.state) || not (is_cons s.envelope.recipients))
            (λ _. omega arith)
            (λ _.
              receive-Leaves (read_data limit max rest) s calls rest
                (read_data-IsEnd limit max rest some_limit))

  dispatch-Leaves :
      (verb : Verb) (cmd : Command) (s : Session) (calls : ℕ) (rest : Text)
      → Leaves rest (dispatch srv verb cmd s calls rest).next
  unfolding dispatch
  dispatch-Leaves message_data cmd s calls rest = data-Leaves cmd s calls rest
  dispatch-Leaves quit cmd s calls rest =
      if_cases (λ (t : Turn M). Leaves rest t.next) cmd.has_argument (λ _. omega arith) (λ _. tt)
  dispatch-Leaves verb cmd s calls rest = omega arith

  obey-Leaves :
      (cmd : Command) (s : Session) (calls : ℕ) (rest : Text)
      → Leaves rest (obey srv cmd s calls rest).next
  unfolding obey
  obey-Leaves cmd s calls rest =
      if_cases (λ (t : Turn M). Leaves rest t.next) cmd.is_valid
        (λ _. dispatch-Leaves (verb_of cmd.verb) cmd s calls rest)
        λ _.
          if_cases (λ (t : Turn M). Leaves rest t.next)
            (is_empty cmd.verb || not (is_known (verb_of cmd.verb))) (λ _. omega arith)
            (λ _. omega arith)

  -- Fewer bytes are left after a round that goes on.
  abbrev Shrinks : Text → Next → Type 0
  Shrinks s (go s' calls rest) = length rest < length s
  Shrinks s over = Unit
  Shrinks s unread = ⊥

  Leaves-Shrinks : (n : Next) (s t : Text) → length s < length t → Leaves s n → Shrinks t n
  Leaves-Shrinks (go s' calls rest) s t h l = omega (arith, h, l)
  Leaves-Shrinks over s t h l = tt
  Leaves-Shrinks unread s t h l = absurd l

  turn-Shrinks :
      (c : CommandLine) (s : Session) (calls : ℕ) (input : Text)
      → IsConsumed c input
      → Shrinks input (take_turn srv c s calls).next
  unfolding take_turn
  turn-Shrinks too_long s calls input h = tt
  turn-Shrinks (bad_framing rest) s calls input h = omega (arith, h)
  turn-Shrinks closed s calls input h = tt
  turn-Shrinks (got line rest) s calls input h =
      Leaves-Shrinks (obey srv (command line) s calls rest).next rest input h
        (obey-Leaves (command line) s calls rest)

  and_then-IsSome :
      (es : List (Event M)) (rest : Option (List (Event M)))
      → (fs : List (Event M)) × (rest ≡ some fs)
      → (fs : List (Event M)) × (and_then es rest ≡ some fs)
  and_then-IsSome es rest (fs, e) = (es ++ fs, rw e refl)

  loop_ends :
      (fuel : ℕ) (s : Session) (calls : ℕ) (input : Text)
      → length input < fuel
      → (es : List (Event M)) × (serve_from fuel srv s calls input ≡ some es)
  unfolding serve_from
  loop_ends zero s calls input h = absurd (omega (arith, h))
  loop_ends (suc fuel) s calls input h =
      let limit = pos_part srv.config.command_line_limit in
      let turn = take_turn srv (read_command limit input) s calls in
      let less =
        turn-Shrinks (read_command limit input) s calls input
          (read_command-IsConsumed limit input some_limit) in
      elim (Next-cases turn.next) [
        | inl (s', calls', rest, is) ↦
            let less' : length rest < length input = rw is at less in
            rw (is, serve_from)
              (and_then-IsSome turn.events (serve_from fuel srv s' calls' rest)
                (loop_ends fuel s' calls' rest (omega (arith, h, less'))))
        | inr (inl is) ↦ (turn.events, rw (is, serve_from) refl)
        | inr (inr is) ↦ let no_end : ⊥ = rw is at less in absurd no_end
      ]

  serve-IsSome : (id input : Text) → (es : List (Event M)) × (serve srv id input ≡ some es)
  unfolding serve
  serve-IsSome id input =
      and_then-IsSome (replied greeting_reply ∷ [])
        (serve_from (length input + 1) srv (first_session id) 0 input)
        (loop_ends (length input + 1) (first_session id) 0 input (omega arith))

-- A configuration that is taken has a command line limit of 512 at least.
normalized_limit : (c d : Config) → normalized_config c ≡ ok d → 512 ≤ pos_part d.command_line_limit
unfolding normalized_config
normalized_limit c d h = ground (arith, h)

-- Serving a connection ends, and within the rounds that are allowed, whatever the client sends:
-- where the configuration is taken, the server's events are a list.
pub handle_connection-ends :
    {M : Type 0} (srv : Server M) (id input : Text) (r : Option (List (Event M)))
    → handle_connection srv id input ≡ ok r
    → (es : List (Event M)) × (r ≡ some es)
unfolding handle_connection
handle_connection-ends srv id input r h =
    let (c, is, h') = >>=-eq-ok (normalized_config srv.config) _ h in
    let limit = normalized_limit srv.config c is in
    let (es, e) = serve-IsSome (record srv { config = c }) (omega (arith, limit)) id input in
    (es, ground (arith, h', e))

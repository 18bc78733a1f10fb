-- ===== src/Smtp/Server/Serve/Rounds.antt =====
-- internal/smtp/server.go: what each round of the loop keeps, the whole session keeps.
use mailx.Base.{
  ℕ, zero, suc, ◌≡◌, refl, none, some, List, ◌++◌, arith, Option-cases, ◌⊎◌, subst, inl, inr,
}
use mailx.Base.Int.{pos_part}
use mailx.Base.Text.{Text}
use mailx.Smtp.Server.Reader.{CommandLine, read_command}
use mailx.Smtp.Server.Transaction.{Session}
use mailx.Smtp.Server.Serve.{Event, Server, Next, go, over, unread, take_turn, and_then, serve_from}

-- The session that goes on, with the bytes to come.
abbrev pub KeepsAt {ℓ} : (Session → Text → Type ℓ) → Next → Type ℓ
KeepsAt P (go s calls rest) = P s rest
KeepsAt P over = Unit
KeepsAt P unread = Unit

abbrev pub Keeps {ℓ} : (Session → Type ℓ) → Next → Type ℓ
Keeps P n = KeepsAt (λ s _. P s) n

pub Next-cases :
    (n : Next)
    → ((s : Session) × (calls : ℕ) × (rest : Text) × (n ≡ go s calls rest))
      ⊎ ((n ≡ over) ⊎ (n ≡ unread))
Next-cases (go s calls rest) = inl (s, calls, rest, refl)
Next-cases over = inr (inl refl)
Next-cases unread = inr (inr refl)

-- `L` is what the events so far leave behind.
module _ {ℓ κ μ} {M : Type 0} {L : Type μ} (srv : Server M) (P : L → Session → Text → Type ℓ)
    (Q : L → List (Event M) → Type κ) (after : L → List (Event M) → L)
    (Q-append : (l : L) (es fs : List (Event M)) → Q l es → Q (after l es) fs → Q l (es ++ fs))
    (round : (l : L) (c : CommandLine) (s : Session) (calls : ℕ) (input : Text)
      → read_command (pos_part srv.config.command_line_limit) input ≡ c
      → P l s input
      → Q l (take_turn srv c s calls).events
        × KeepsAt
            (P (after l (take_turn srv c s calls).events))
            (take_turn srv c s calls).next) where
  -- `P` is an invariant of the session, and `Q` holds of the events of each round.
  pub all_rounds :
      (fuel : ℕ) (l : L) (s : Session) (calls : ℕ) (input : Text) (es : List (Event M))
      → P l s input
      → serve_from fuel srv s calls input ≡ some es
      → Q l es
  unfolding serve_from
  all_rounds zero l s calls input es p h = ground arith
  all_rounds (suc fuel) l s calls input es p h =
      let c = read_command (pos_part srv.config.command_line_limit) input in
      let turn = take_turn srv c s calls in
      let (q, k) = round l c s calls input refl p in
      elim (Next-cases turn.next) [
        | inl (s', calls', rest, is) ↦
            let h' : and_then turn.events (serve_from fuel srv s' calls' rest) ≡ some es =
              rw (is, serve_from) at h in
            elim (Option-cases (serve_from fuel srv s' calls' rest)) [
              | inl e ↦ ground (arith, h', e)
              | inr (fs, e) ↦
                  let p' : P (after l turn.events) s' rest = rw is at k in
                  let whole : es ≡ turn.events ++ fs = ground (arith, h', e) in
                  rw whole (
                    Q-append l turn.events fs q
                      (all_rounds fuel (after l turn.events) s' calls' rest fs p' e))
            ]
        | inr (inl is) ↦
            let h' : some turn.events ≡ some es = rw (is, serve_from) at h in
            let whole : turn.events ≡ es = cc in subst (Q l) whole q
        | inr (inr is) ↦ let h' : none ≡ some es = rw (is, serve_from) at h in absurd (cc)
      ]

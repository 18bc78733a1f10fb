-- ===== src/Smtp/Session/Safety.antt =====
-- internal/smtp/client.go: what a session's success and failure mean.
use mailx.Base.{
  ℕ, ◌≤◌, ◌<◌, ◌≡◌, Bool, true, Option, List, [], ◌∷◌, ◌==◌, ok, arith, >>=-eq-ok, length, ◌+◌,
  guard, not,
}
use mailx.Base.Text.{Text, is_empty}
use mailx.Errors.{Stage, mail_from, data_command, data_response}
use mailx.Smtp.Session.{
  Reply, reply, failed, Peer, Envelope, SendResult, is_2xx, expect, greet, hello, rcpt, rcpts, run,
  Network, Credentials, send, is_cons, check_recipients, dialled, is_envelope_path, credentials_ok,
  write_done, stage_done,
}

-- Each step reads one reply at least.
greet_reads : (rs rest : List Reply) → greet rs ≡ ok rest → length rest + 1 ≤ length rs
unfolding greet
greet_reads [] rest h = ground arith
greet_reads (r ∷ rs) rest h = ground arith

hello_reads : (rs rest : List Reply) → hello rs ≡ ok rest → length rest + 1 ≤ length rs
unfolding hello
hello_reads [] rest h = ground arith
hello_reads (r ∷ []) rest h = ground arith
hello_reads (r ∷ s ∷ rs) rest h = ground arith

expect_reads :
    (stage : Stage) (pass : ℕ → Bool) (rs : List Reply) (x : ℕ × Text × List Reply)
    → expect stage pass rs ≡ ok x
    → (pass x.0 ≡ true) × (length x.2 + 1 ≤ length rs)
unfolding expect
expect_reads stage pass [] x h = ground arith
expect_reads stage pass (r ∷ rs) x h = ground arith

rcpts_reads :
    (to : List Text) (rs rest : List Reply)
    → rcpts to rs ≡ ok rest
    → length rest + length to ≤ length rs
unfolding rcpts rcpt
rcpts_reads [] rs rest h = ground arith
rcpts_reads (r ∷ more) [] rest h = ground arith
rcpts_reads (r ∷ more) (failed e ∷ rs) rest h = ground arith
rcpts_reads (r ∷ more) (reply code enhanced text ∷ rs) rest h =
    ground (arith, rcpts_reads more rs rest)

-- What acceptance rests on.
pub record IsAcceptance (p : Peer) (e : Envelope) (r : SendResult) : Type 0 where
  pub accepted : r.accepted ≡ true
  pub from_200 : 200 ≤ r.final_code
  pub below_300 : r.final_code < 300
  pub answered : 5 + length e.recipients ≤ length p.replies

run_accepts :
    (p : Peer) (e : Envelope) (r1 r2 r4 : List Reply) (x y z : ℕ × Text × List Reply)
    (r : SendResult)
    → greet p.replies ≡ ok r1
    → hello r1 ≡ ok r2
    → expect mail_from is_2xx r2 ≡ ok x
    → rcpts e.recipients x.2 ≡ ok r4
    → expect data_command (λ code. code == 354) r4 ≡ ok y
    → expect data_response is_2xx y.2 ≡ ok z
    → r.accepted ≡ true
    → r.final_code ≡ z.0
    → IsAcceptance p e r
run_accepts p e r1 r2 r4 x y z r a b c d f g acc code =
    let pass : is_2xx z.0 ≡ true = (expect_reads data_response is_2xx y.2 z g).0 in
    record {
      accepted = acc;
      from_200 = ground arith;
      below_300 = ground arith;
      answered = omega (
        arith,
        greet_reads p.replies r1 a,
        hello_reads r1 r2 b,
        expect_reads mail_from is_2xx r2 x c,
        rcpts_reads e.recipients x.2 r4 d,
        expect_reads data_command (λ code. code == 354) r4 y f,
        expect_reads data_response is_2xx y.2 z g,
      );
    }

-- A session that returns no error has accepted, with a final reply of 2xx, and its peer has
-- answered at least five times and once more for each recipient.
pub run_ok : (p : Peer) (e : Envelope) (r : SendResult) → run p e ≡ ok r → IsAcceptance p e r
unfolding run
run_ok p e r h =
    let (r1, a, h1) = >>=-eq-ok (greet p.replies) _ h in
    let (r2, b, h2) = >>=-eq-ok (hello r1) _ h1 in
    let (_, s, h3) = >>=-eq-ok (stage_done p.secure) _ h2 in
    let (_, t, h4) = >>=-eq-ok (stage_done p.authenticate) _ h3 in
    let (x, c, h5) = >>=-eq-ok (expect mail_from is_2xx r2) _ h4 in
    let (r4, d, h6) = >>=-eq-ok (rcpts e.recipients x.2) _ h5 in
    let (y, f, h7) = >>=-eq-ok (expect data_command (λ code. code == 354) r4) _ h6 in
    let (_, w, h8) = >>=-eq-ok (write_done p.write_message) _ h7 in
    let (z, g, h9) = >>=-eq-ok (expect data_response is_2xx y.2) _ h8 in
    run_accepts p e r1 r2 r4 x y z r a b c d f g (ground arith) (ground arith)

-- A send that succeeds, succeeds in a session with a peer that was dialled.
pub send_ok :
    (net : Network) (address : Text) (e : Envelope) (auth : Option Credentials) (r : SendResult)
    → send net address e auth ≡ ok r
    → (p : Peer) × (run p e ≡ ok r)
unfolding send dialled
send_ok net address e auth r h =
    let (_, _, h1) = >>=-eq-ok (guard (not (is_empty address)) _) _ h in
    let (_, _, h2) = >>=-eq-ok (guard (is_envelope_path true e.mail_from) _) _ h1 in
    let (_, _, h3) = >>=-eq-ok (guard (is_cons e.recipients) _) _ h2 in
    let (_, _, h4) = >>=-eq-ok (check_recipients e.recipients) _ h3 in
    let (_, _, h5) = >>=-eq-ok (guard (credentials_ok auth) _) _ h4 in
    let (p, _, h6) = >>=-eq-ok (dialled net.dial) _ h5 in (p, h6)

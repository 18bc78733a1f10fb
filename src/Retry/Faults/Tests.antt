-- ===== src/Retry/Faults/Tests.antt =====
-- A relay that hangs up, times out or defers, and the theorems about faults there.
use mailx.Base.{
  ℕ, ◌≤◌, ◌≡◌, refl, true, false, Option, none, List, [], ◌∷◌, ok, err, arith, subst, Result,
}
use mailx.Base.Int.{pos}
use mailx.Errors.{
  Err, SmtpError, is_context, other, context_err, deadline_exceeded, dial, mail_from,
  transfer_permanent, transfer_temporary,
}
use mailx.Smtp.Session.{Reply, reply, Peer, Network, send, run, is_envelope_path, ends_with}
use mailx.Smtp.Session.Grades.{IsPlain, Grades, IsGraded, Codes, send-Grades}
use mailx.Transfer.{TransferResult, transfer_mail}
use mailx.Transfer as Transfer
use mailx.Transfer.Reports.{IsReport, transfer_mail-IsReport}
use mailx.Delivery.Request.{Request}
use mailx.Delivery.Candidates.{Mx}
use mailx.Delivery.Result.{DeliveryResult, blank_result}
use mailx.Delivery.Engine.{World, deliver_to, transfer_request, join_host_port}
use mailx.Retry.Policy.{decide, terminal_failure}
use mailx.Retry.Faults.{Failing, lost_connection_final, dial_timeout_final}

abbrev host : Mx
host = record { host = b'a' ∷ []; preference = 0 }

abbrev letter : Request
letter = record {
  domain = b'd' ∷ [];
  envelope = record {
    mail_from = b'<' ∷ b'>' ∷ [];
    recipients = (b'<' ∷ b'u' ∷ b'@' ∷ b'd' ∷ b'>' ∷ []) ∷ [];
  };
  raw = [];
  member_id = [];
}

abbrev letter_to_host : Transfer.Request
letter_to_host = transfer_request letter (pos 25) none host

-- A peer that answers to the greeting and EHLO, and then as given.
abbrev peer : List Reply → Peer
peer more = record {
  replies = reply 220 [] [] ∷ reply 250 [] [] ∷ more;
  secure = none;
  authenticate = none;
  write_message = none;
}

abbrev network : List Reply → Network
network more = record { dial = ok (peer more) }

abbrev unreachable : Network
unreachable = record { dial = err (context_err deadline_exceeded) }

abbrev world : Network → World
world net = record { lookup_mx = ok []; transfer = λ n r. transfer_mail net r; context = λ n. none }

abbrev at_mail_from : ℕ → SmtpError
at_mail_from code = record {
  stage = mail_from;
  code = code;
  enhanced = [];
  remote = [];
  recipient = [];
  temporary = false;
}

abbrev at_dial : SmtpError
at_dial = record (at_mail_from 0) { stage = dial }

abbrev deferred : SmtpError
deferred = record (at_mail_from 451) { temporary = true }

network-IsPlain : (more : List Reply) → IsPlain (network more)
network-IsPlain more p is = (ground arith, ground arith)

hangs_up : Failing (world (network [])) (network []) letter_to_host (at_mail_from 0) other
unfolding send run is_envelope_path transfer_request join_host_port ends_with
hangs_up = record {
  alive = λ n. refl;
  transfers = refl;
  to_host = refl;
  to_someone = refl;
  error = refl;
}

times_out :
    Failing (world unreachable) unreachable letter_to_host at_dial (context_err deadline_exceeded)
unfolding send run is_envelope_path transfer_request join_host_port ends_with
times_out = record {
  alive = λ n. refl;
  transfers = refl;
  to_host = refl;
  to_someone = refl;
  error = refl;
}

defers :
    Failing
      (world (network (reply 451 [] [] ∷ [])))
      (network (reply 451 [] [] ∷ []))
      letter_to_host
      deferred
      other
unfolding send run is_envelope_path transfer_request join_host_port ends_with
defers = record {
  alive = λ n. refl;
  transfers = refl;
  to_host = refl;
  to_someone = refl;
  error = refl;
}

abbrev outcome : Network → DeliveryResult × Option Err
outcome net = deliver_to (world net) letter (blank_result (b'd' ∷ [])) (pos 25) none (host ∷ [])

lost_connection_final_example :
    ((outcome (network [])).0.kind ≡ transfer_permanent)
    × (decide (outcome (network [])).0 (outcome (network [])).1 ≡ terminal_failure)
unfolding blank_result
lost_connection_final_example =
    lost_connection_final (world (network [])) (network []) host letter (blank_result (b'd' ∷ []))
      (pos 25) none (at_mail_from 0) other (network-IsPlain []) hangs_up refl refl refl

dial_timeout_final_example :
    ((outcome unreachable).0.kind ≡ transfer_temporary)
    × (decide (outcome unreachable).0 (outcome unreachable).1 ≡ terminal_failure)
unfolding blank_result is_context
dial_timeout_final_example =
    dial_timeout_final (world unreachable) unreachable host letter (blank_result (b'd' ∷ []))
      (pos 25) none at_dial (context_err deadline_exceeded) times_out refl refl refl

-- No code is above 451.
at_most_451 :
    (p : Peer) → (network (reply 451 [] [] ∷ [])).dial ≡ ok p → Codes (λ n. n ≤ 451) p.replies
at_most_451 p is =
    subst (λ (x : Result Err Peer). elim x [ ok q ↦ Codes (λ n. n ≤ 451) q.replies | err e ↦ Unit ])
      is (omega arith, (omega arith, (omega arith, tt)))

send-Grades_example :
    Grades
      (IsGraded (λ n. n ≤ 451))
      (λ _. Unit {0})
      (send (network (reply 451 [] [] ∷ [])) (b'a' ∷ []) letter.envelope none)
send-Grades_example =
    send-Grades (λ n. n ≤ 451) (network (reply 451 [] [] ∷ [])) (b'a' ∷ []) letter.envelope none
      (network-IsPlain _) at_most_451

transfer_mail-IsReport_example : IsReport (transfer_mail unreachable letter_to_host)
transfer_mail-IsReport_example = transfer_mail-IsReport unreachable letter_to_host

-- ===== src/Worker/Tests.antt =====
-- One claim whose message is accepted, with a suppressed recipient and with permits.
use mailx.Base.{◌≡◌, refl, true, false, Option, none, some, [], ◌∷◌, subst}
use mailx.Base.Int.{pos}
use mailx.Base.Text.{codes}
use mailx.Errors.{accepted}
use mailx.Delivery.Result.{DeliveryResult, blank_result}
use mailx.Retry.Policy.{decide}
use mailx.Retry.State.{State}
use mailx.Retry.Limit.{empty, evaluate, default_attempt_limit}
use mailx.Retry.Backoff.{default_backoff_policy}
use mailx.Worker.World.{
  World, Durable, Stored, Permits, SuppressionGate, saved, unavailable, to_ack, Closing,
}
use mailx.Worker.Processor.{process_one, get_or_set, run_attempt}
use mailx.Worker.Processor.Accepted.{is_kept, accepted_kept}
use mailx.Worker.Processor.Endings.{Excused}
use mailx.Worker.Processor.Protocol.{start}
use mailx.Worker.Processor.Protocol.Runs.{IsOrderly}
use mailx.Worker.Processor.Protocol.Attempts.{IsLive}
use mailx.Worker.Processor.Protocol.Orderly.{process_one-IsOrderly}

abbrev blank_state : State
blank_state = record { delivery_attempts = [] }

abbrev new_message : Durable
new_message = record {
  retry_state = some blank_state;
  terminal = false;
  next_retry_at = none;
  sending_member_id = none;
}

abbrev letter : Stored
letter = record {
  envelope = record {
    mail_from = codes "<a@x.io>";
    recipients = codes "<u@d.io>" ∷ codes "<v@d.io>" ∷ [];
  };
  raw = codes "hi";
}

abbrev taken_result : DeliveryResult
taken_result = record (blank_result (codes "d.io")) {
  kind = accepted;
  accepted = true;
  final_code = 250;
}

abbrev gate : SuppressionGate
gate = record {
  suppressed_recipients = λ ks. some ((codes "v@d.io", true) ∷ []);
  record_suppressed = λ m all. saved;
}

abbrev slots : Permits
slots = record {
  tenant = some (some (codes "t"));
  tenant_permit_key = λ t. b'T' ∷ t;
  destination_permit_key = λ d. b'D' ∷ d;
  tenant_granted = some true;
  destination_granted = some true;
  deferral = pos 0;
  jitter_percent = pos 0;
}

abbrev world : World
world = record {
  job_id = codes "j";
  reporting_mta = codes "mx";
  clock = λ m. pos 0;
  load_durable = some new_message;
  member_known_locally = none;
  member_routing_enabled = none;
  load_message = some letter;
  suppression = some gate;
  permits = some slots;
  coordinator = record { backoff = default_backoff_policy; limit = default_attempt_limit };
  ended = none;
  deliver = λ r. (taken_result, none);
  rounds =
      record { answer = unavailable; stopping = false }
      ∷ record { answer = saved; stopping = false }
      ∷ [];
  ack_taken = true;
}

closing_of_world : (process_one world none).closing ≡ to_ack
unfolding process_one decide
closing_of_world = refl

blank-IsLive : IsLive world blank_state
unfolding evaluate
blank-IsLive = (empty, refl, refl)

abbrev LiveIn : Option Durable → Type 0
LiveIn none = Unit
LiveIn (some d) = IsLive world (get_or_set none d.retry_state)

world-IsLive :
    (d : Durable) → world.load_durable ≡ some d → IsLive world (get_or_set none d.retry_state)
unfolding get_or_set
world-IsLive d e = subst LiveIn e blank-IsLive

process_one-IsOrderly_example : IsOrderly world (start world) (process_one world none)
process_one-IsOrderly_example = process_one-IsOrderly world none world-IsLive

abbrev left_by : Closing
left_by =
    (run_attempt world new_message letter blank_state (codes "<u@d.io>" ∷ []) (codes "d.io")).1

accepted_kept_example : (is_kept left_by ≡ true) × Excused world.rounds left_by
accepted_kept_example =
    accepted_kept world new_message letter blank_state (codes "<u@d.io>" ∷ []) (codes "d.io")
      blank-IsLive refl refl

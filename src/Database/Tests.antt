-- ===== src/Database/Tests.antt =====
-- An attempt that is recorded, recorded again, and recorded over.
use mailx.Base.{List, Bool, ◌≡◌, refl, true, false, none, some, [], ◌∷◌, ok}
use mailx.Base.Text.{Text, codes}
use mailx.Base.Int.{pos}
use mailx.Errors.{transfer_temporary}
use mailx.Delivery.Result.{blank_result}
use mailx.Retry.Policy.{retry, terminal_failure}
use mailx.Retry.State.{DeliveryAttempt}
use mailx.Retry.Limit.{default_attempt_limit, status_of}
use mailx.Retry.Backoff.{default_backoff_policy}
use mailx.Worker.Processor.Protocol.{is_final}
use mailx.Database.Outcomes.{
  Rows, NewAttempt, status_processing, status_failed, event_failed, is_terminal,
  persist_delivery_outcome, find_attempt, matches, validate,
}
use mailx.Database.Outcomes.Replay.{persist_again}
use mailx.Database.Outcomes.Endings.{replay_reopens}
use mailx.Database.Outcomes.Ledger.{ended_history}
use mailx.Database.Outcomes.Ledger.{IsPaired, KeepsPaired, persist-KeepsPaired}
use mailx.Database.Store.{persist, stored_attempt, restore, load}
use mailx.Database.Store.Truth.{persist_final}
use mailx.Database.Store.Reclaim.{final_not_sent}
use mailx.Database.Suppressed.{Message, pending, record_suppressed_recipients}
use mailx.Database.Suppressed.Ends.{Ends, record_suppressed_recipients-Ends}
use mailx.Worker.World.{World, closing_time}
use mailx.Worker.Processor.{process_one}
use mailx.Worker.Processor.Ended.{Quiet}
use mailx.Database.Store.Restore.{by_kind, restore_fails}

abbrev fresh_rows : Rows
fresh_rows = record {
  status = status_processing;
  delivered_at = none;
  updated_at = pos 5;
  attempts = [];
  events = [];
  suppressions = [];
}

abbrev deferral : NewAttempt
deferral = record {
  attempt_number = 1;
  decision = retry;
  kind = transfer_temporary;
  was_accepted = false;
  final_code = 451;
  enhanced_status = [];
  remote_message = [];
  failure_stage = none;
  recipient = [];
  started_at = pos 0;
  finished_at = pos 1;
  suppress_recipient = false;
}

-- The last attempt of a message that has failed.
abbrev failed_rows : Rows
failed_rows = record {
  status = status_failed;
  delivered_at = none;
  updated_at = pos 5;
  attempts = deferral ∷ [];
  events = (1, event_failed) ∷ [];
  suppressions = [];
}

exhausted_rows : persist_delivery_outcome (pos 5) fresh_rows deferral true ≡ ok failed_rows
unfolding persist_delivery_outcome
exhausted_rows = refl

persist_again_example :
    persist_delivery_outcome (pos 9) failed_rows deferral true
    ≡ ok (record failed_rows { updated_at = pos 9 })
persist_again_example =
    persist_again (pos 5) (pos 9) fresh_rows deferral true failed_rows exhausted_rows

ended_history_example :
    (failed_rows.attempts ≡ failed_rows.attempts)
    × (failed_rows.events ≡ failed_rows.events)
    × (old : NewAttempt) × (find_attempt 1 failed_rows.attempts ≡ some old)
    × (matches old deferral ≡ true)
unfolding IsPaired
ended_history_example =
    ended_history (pos 5) failed_rows deferral true failed_rows refl refl
      (unfold persist_delivery_outcome in refl)

persist-KeepsPaired_example :
    KeepsPaired (persist_delivery_outcome (pos 5) failed_rows deferral true)
unfolding IsPaired
persist-KeepsPaired_example = persist-KeepsPaired (pos 5) failed_rows deferral true refl

replay_reopens_example :
    (after : Rows) × (persist_delivery_outcome (pos 5) failed_rows deferral false ≡ ok after)
    × (is_terminal after.status ≡ false)
unfolding validate find_attempt
replay_reopens_example = replay_reopens (pos 5) failed_rows deferral refl refl refl refl

abbrev last_attempt : DeliveryAttempt
last_attempt = record {
  number = 1;
  result = record (blank_result []) { kind = transfer_temporary; final_code = 451 };
  decision = retry;
}

exhausted_at_one :
    persist (pos 5) fresh_rows last_attempt (pos 0) (pos 1) (status_of retry 1 (pos 1))
    ≡ ok failed_rows
unfolding persist stored_attempt status_of blank_result
exhausted_at_one = refl

final_at_one : is_final (status_of retry 1 (pos 1)) ≡ true
unfolding is_final status_of
final_at_one = refl

persist_final_example : is_terminal failed_rows.status ≡ is_final (status_of retry 1 (pos 1))
persist_final_example =
    persist_final (pos 5) fresh_rows last_attempt (pos 0) (pos 1) (pos 1) 1 failed_rows
      exhausted_at_one

-- A dial that timed out: a temporary failure that was stored as final.
abbrev timed_out : NewAttempt
timed_out = record deferral { decision = terminal_failure; final_code = 0 }

restore_fails_example : restore (timed_out ∷ []) ≡ none
unfolding by_kind
restore_fails_example = restore_fails timed_out [] refl

abbrev suppressed_message : Message
suppressed_message = record {
  status = status_processing;
  recipients = record { address = codes "<v@d.io>"; state = pending } ∷ [];
  has_suppressed_event = false;
}

abbrev keys : List (Text × Bool)
keys = (codes "v@d.io", true) ∷ []

record_suppressed_recipients-Ends_example :
    Ends suppressed_message true (record_suppressed_recipients suppressed_message keys true)
record_suppressed_recipients-Ends_example =
    record_suppressed_recipients-Ends suppressed_message keys true

-- A worker that loads the message that failed.
abbrev later : World
later = record {
  job_id = codes "j";
  reporting_mta = codes "mx";
  clock = λ m. pos 0;
  load_durable = load failed_rows none none;
  member_known_locally = none;
  member_routing_enabled = none;
  load_message = none;
  suppression = none;
  permits = none;
  coordinator = record { backoff = default_backoff_policy; limit = default_attempt_limit };
  ended = none;
  deliver = λ r. (blank_result [], none);
  rounds = [];
  ack_taken = true;
}

final_not_sent_example :
    Quiet (later.clock closing_time) (load failed_rows none none) (process_one later none)
final_not_sent_example =
    final_not_sent (pos 5) fresh_rows last_attempt (pos 0) (pos 1) (pos 1) 1 failed_rows none none
      later none exhausted_at_one final_at_one refl

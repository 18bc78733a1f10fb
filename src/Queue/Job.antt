-- ===== src/Queue/Job.antt =====
-- internal/queue/job.go: the unit of work and its validation. Instants are nanoseconds since
-- the zero `time.Time`, so that `IsZero` is the test for 0.
use mailx.Base.{ℕ, Option, none, some, if◌then◌else◌, [], ◌∷◌}
use mailx.Base.Text.{Text, trim_space, is_empty, contains_any}

pub data JobError : Type 0 where
  empty_job_id job_id_control_char empty_message_id : JobError

pub record Job : Type 0 where
  pub id : Text
  pub message_id : Text
  pub enqueued_at : ℕ
  pub available_at : ℕ

unfoldable pub validate : Job → Option JobError
unfolding trim_space is_empty contains_any
validate j =
    if is_empty (trim_space j.id)
    then some empty_job_id
    else if contains_any j.id (13 ∷ 10 ∷ 0 ∷ [])
    then some job_id_control_char
    else if is_empty (trim_space j.message_id)
    then some empty_message_id
    else none

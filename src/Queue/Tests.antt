-- ===== src/Queue/Tests.antt =====
-- Runs of the in-memory queue, and the theorems about it at concrete histories.
use mailx.Base.{ℕ, ◌≡◌, refl, false, Option, none, some, List, [], ◌∷◌, ok, arith}
use mailx.Base.Int.{pos}
use mailx.Base.Text.{text_eq}
use mailx.Queue.Job.{Job, validate, job_id_control_char}
use mailx.Queue.Memory.Store.{Entry, find, put, heap_push}
use mailx.Queue.Memory.Invariant.{Inv, Fits, run-Inv}
use mailx.Queue.Memory.Order.{Grants, claim-Grants, claim_ready}
use mailx.Queue.Memory.Tokens.{IsRefused, ack_once, release_once}
use mailx.Queue.Memory.Wakeups.{enqueue_wakeup, claim_wakeup}
use mailx.Queue.Memory.{
  MemoryQueue, Call, Claim, returned, waits, new_memory_queue, enqueue, claim, ack, release, step,
  run, enqueues, claims,
}

abbrev job_a : Job
job_a = record { id = 97 ∷ []; message_id = 109 ∷ []; enqueued_at = 0; available_at = 0 }

abbrev job_b : Job
job_b = record { id = 98 ∷ []; message_id = 110 ∷ []; enqueued_at = 0; available_at = 50 }

abbrev job_c : Job
job_c = record { id = 99 ∷ []; message_id = 111 ∷ []; enqueued_at = 0; available_at = 0 }

abbrev fresh : MemoryQueue
fresh = record {
  capacity = 2;
  closed = false;
  entries = [];
  avail = [];
  seq = 0;
  next_token = 0;
  notify = 0;
}

made : new_memory_queue (pos 2) ≡ ok fresh
unfolding new_memory_queue
made = refl

-- Job a is claimed with token 1, job b waits until 50, and the queue is full.
abbrev busy_calls : List (ℕ × Call)
busy_calls = (10, enqueues job_a) ∷ (11, enqueues job_b) ∷ (12, claims) ∷ []

busy : MemoryQueue
busy = run fresh busy_calls

validate_newline : validate (record job_a { id = 97 ∷ 10 ∷ [] }) ≡ some job_id_control_char
unfolding validate
validate_newline = refl

run-Inv_example : Inv (run fresh busy_calls)
run-Inv_example = run-Inv (pos 2) busy_calls made (omega arith)

busy-Inv : Inv busy
unfolding busy
busy-Inv = run-Inv (pos 2) busy_calls made (omega arith)

busy-Fits : Fits busy 9
unfolding busy run step enqueue claim find put validate text_eq heap_push
busy-Fits = omega arith

ack_once_example : IsRefused false (97 ∷ []) 1 70 (run (ack false (97 ∷ []) 1 busy).0 busy_calls)
unfolding busy run step enqueue claim ack find put text_eq validate heap_push
ack_once_example = ack_once false false (97 ∷ []) 1 70 busy busy_calls busy-Inv (omega arith) refl

release_once_example :
    IsRefused false (97 ∷ []) 1 70 (run (release false (97 ∷ []) 1 60 busy).0 ((60, claims) ∷ []))
unfolding busy run step enqueue claim release find put text_eq validate heap_push
release_once_example =
    release_once false false (97 ∷ []) 1 60 70 busy ((60, claims) ∷ []) busy-Inv (omega arith) refl

abbrev entry_b : Entry
entry_b = record { job = record job_b { enqueued_at = 11 }; seq = 2; claimed = false; token = 0 }

abbrev claim_b : Claim
claim_b = record { job = record job_b { enqueued_at = 11 }; token = 2 }

claim-Grants_example : Grants 50 busy (claim 50 busy).0 claim_b
unfolding busy run step enqueue claim find put text_eq validate heap_push
claim-Grants_example = claim-Grants 50 busy claim_b busy-Inv refl

claim_ready_example : (c : Claim) × ((claim 50 busy).1 ≡ returned (ok c))
unfolding busy run step enqueue claim find put text_eq validate heap_push
claim_ready_example = claim_ready 50 busy entry_b busy-Inv refl refl refl (omega arith)

-- The third job does not fit, and does not fit after a claim either.
enqueue_wakeup_example :
    enqueue 99 job_c (run busy ((60, claims) ∷ [])) ≡ (run busy ((60, claims) ∷ []), waits 2 none)
unfolding busy run step enqueue claim find put text_eq validate heap_push
enqueue_wakeup_example =
    enqueue_wakeup 13 99 job_c busy ((60, claims) ∷ []) 2 none busy-Inv (omega arith) refl refl

claim_wakeup_example :
    (t : Option ℕ) × (claim 49 (run busy ((60, claims) ∷ []))
      ≡ (run busy ((60, claims) ∷ []), waits 2 t))
unfolding busy run step enqueue claim find put text_eq validate heap_push
claim_wakeup_example =
    claim_wakeup 12 49 busy ((60, claims) ∷ []) 2 (some 38) busy-Inv (omega arith) refl refl
      (omega arith)

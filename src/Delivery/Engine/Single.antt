-- ===== src/Delivery/Engine/Single.antt =====
-- internal/delivery/delivery.go: an operation with one candidate, as in relay mode.
use mailx.Base.{ℕ, ◌≡◌, refl, false, Option, none, some, [], ◌∷◌, arith}
use mailx.Base.Int.{ℤ}
use mailx.Base.Text.{Text}
use mailx.Errors.{Err, TransferError, transfer, delivery}
use mailx.Smtp.Session.{Credentials}
use mailx.Delivery.Policy.{decide_fallback, classify_final}
use mailx.Delivery.Request.{Request}
use mailx.Delivery.Candidates.{Mx}
use mailx.Delivery.Result.{Attempt, DeliveryResult}
use mailx.Delivery.Engine.{
  World, stopped, start, after_attempt, note_attempt, attempt_of, try_candidates, finish,
  finish_stopped, finish_failed, deliver_to, transfer_request, is_transfer_temporary, last_error,
  mirror,
}

-- What one failed transfer makes of the operation.
pub record Reported (te : TransferError) (c : Err) (domain : Text) (r : DeliveryResult × Option Err)
    : Type 0 where
  pub kind : r.0.kind ≡ classify_final (decide_fallback (some (te, c))) (some (te, c))
  pub error :
      r.1
      ≡ some (
          delivery
            (record {
              kind = classify_final (decide_fallback (some (te, c))) (some (te, c));
              domain = domain;
              temporary =
                  is_transfer_temporary
                    (classify_final (decide_fallback (some (te, c))) (some (te, c)));
            })
            (transfer te c))
  pub accepted : r.0.accepted ≡ false

after_failed :
    (a : Attempt) (te : TransferError) (c : Err)
    → a.transfer.accepted ≡ false
    → a.transfer_err ≡ some (te, c)
    → after_attempt (stopped 1) 0 start a ≡ stopped 1 (note_attempt start a)
unfolding after_attempt
after_failed a te c n e = ground arith

finished :
    (w : World) (res : DeliveryResult) (domain : Text) (a : Attempt) (te : TransferError) (c : Err)
    → ((n : ℕ) → w.context n ≡ none)
    → a.transfer_err ≡ some (te, c)
    → res.accepted ≡ false
    → Reported te c domain (finish w res domain (stopped 1 (note_attempt start a)))
unfolding finish finish_stopped finish_failed note_attempt mirror last_error
finished w res domain a te c alive e un =
    let on = alive 1 in rw (on, finish, e) (record { kind = refl; error = refl; accepted = un })

pub single_failed :
    (w : World) (req : Request) (res : DeliveryResult) (port : ℤ) (auth : Option Credentials)
    (mx : Mx) (te : TransferError) (c : Err)
    → ((n : ℕ) → w.context n ≡ none)
    → res.accepted ≡ false
    → (w.transfer 0 (transfer_request req port auth mx)).0.accepted ≡ false
    → (w.transfer 0 (transfer_request req port auth mx)).1 ≡ some (transfer te c)
    → Reported te c req.domain (deliver_to w req res port auth (mx ∷ []))
unfolding deliver_to try_candidates
single_failed w req res port auth mx te c alive un n e =
    let r = transfer_request req port auth mx in
    let a = attempt_of mx r.destination (w.transfer 0 r) in
    let err_is : a.transfer_err ≡ some (te, c) = unfold attempt_of in simp (n, e) refl in
    let n' : a.transfer.accepted ≡ false = unfold attempt_of in n in
    rw (alive 0, try_candidates, after_failed a te c n' err_is)
      (finished w (record res { mx_candidates = mx ∷ [] }) req.domain a te c alive err_is un)

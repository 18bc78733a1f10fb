-- ===== src/Delivery/Engine/Verdict.antt =====
-- internal/delivery/delivery.go: what a permanent failure rests on.
use mailx.Base.{
  true, false, Option, none, some, List, [], ◌∷◌, ◌++◌, ◌≡◌, refl, ◌⊎◌, inl, inr, arith,
  Option-cases, ◌∙◌,
}
use mailx.Base.Text.{Text}
use mailx.Errors.{Err, transfer_permanent, TransferError}
use mailx.Delivery.Policy.{classify_final, decide_fallback, is_envelope_stage}
use mailx.Delivery.Request.{Request}
use mailx.Delivery.Result.{Attempt, DeliveryResult}
use mailx.Delivery.Engine.{
  Config, World, Trail, Tried, interrupted, taken, stopped, finish, finish_dns, finish_stopped,
  finish_context, deliver, invalid, lookup_kind, finish_failed, no_candidates, no_candidates,
}
use mailx.Delivery.Engine.Sequence.{finish_failed-keeps}
use mailx.Delivery.Engine.Attempts.{Ends, Walks, deliver_cases}

-- The failing attempt whose verdict a permanent failure repeats.
pub record IsVerdict (r : DeliveryResult) : Type 0 where
  pub earlier : List Attempt
  pub last : Attempt
  pub is : r.attempts ≡ earlier ++ last ∷ []
  pub te : TransferError
  pub cause : Err
  pub error : last.transfer_err ≡ some (te, cause)
  pub in_session : is_envelope_stage te.stage ≡ true
  pub permanent : te.temporary ≡ false
  pub stage : r.failure_stage ≡ some (te.stage)
  pub code : r.final_code ≡ te.code

stop_permanent_of :
    (te : Option (TransferError × Err))
    → classify_final (decide_fallback te) te ≡ transfer_permanent
    → (i : TransferError) × (c : Err) × (te ≡ some (i, c))
      × (is_envelope_stage i.stage ≡ true)
      × (i.temporary ≡ false)
unfolding classify_final decide_fallback
stop_permanent_of none h = absurd (ground arith)
stop_permanent_of (some (i, c)) h = (i, c, refl, ground arith, ground arith)

finish_failed_fields :
    (res : DeliveryResult) (domain : Text) (t : Trail) {i : TransferError} {c : Err}
    → t.last_err ≡ some (i, c)
    → ((finish_failed res domain t).0.kind ≡ classify_final t.last_decision t.last_err)
      × ((finish_failed res domain t).0.failure_stage ≡ some (i.stage))
      × ((finish_failed res domain t).0.final_code ≡ i.code)
unfolding finish_failed
finish_failed_fields res domain t e = (ground arith, ground arith, ground arith)

finish_failed-kind :
    (res : DeliveryResult) (domain : Text) (t : Trail) (te : Option (TransferError × Err))
    → t.last_err ≡ te
    → (finish_failed res domain t).0.kind ≡ classify_final t.last_decision t.last_err
unfolding finish_failed
finish_failed-kind res domain t none e = ground arith
finish_failed-kind res domain t (some (te, c)) e = ground arith

finish_failed-IsVerdict :
    (res : DeliveryResult) (domain : Text) (t : Trail)
    → res.attempts ≡ t.attempts
    → Ends t
    → (finish_failed res domain t).0.kind ≡ transfer_permanent
    → IsVerdict (finish_failed res domain t).0
finish_failed-IsVerdict res domain t same e h =
    let kind = finish_failed-kind res domain t t.last_err refl in
    let (i, c, is, early, hard) =
      stop_permanent_of e.last.transfer_err (cc (kind, h, e.error, e.decision)) in
    let fields = finish_failed_fields res domain t (e.error ∙ is) in
    record {
      earlier = e.earlier;
      last = e.last;
      is = (finish_failed-keeps res domain t t.last_err refl).0 ∙ same ∙ e.is;
      te = i;
      cause = c;
      error = is;
      in_session = early;
      permanent = hard;
      stage = fields.1;
      code = fields.2;
    }

finish_stopped-IsVerdict :
    (res : DeliveryResult) (domain : Text) (t : Trail) (xs : List Attempt)
    → t.attempts ≡ xs
    → res.attempts ≡ t.attempts
    → (t.attempts ≡ []) ⊎ Ends t
    → (finish_stopped res domain t).0.kind ≡ transfer_permanent
    → IsVerdict (finish_stopped res domain t).0
unfolding finish_stopped no_candidates
finish_stopped-IsVerdict res domain t [] x same so_far h = absurd (ground arith)
finish_stopped-IsVerdict res domain t (a ∷ xs) x same so_far h = elim so_far [
  | inl none_made ↦ absurd (cc (x, none_made))
  | inr e ↦
      rw (x, finish_stopped)
        (finish_failed-IsVerdict res domain t same e (rw (x, finish_stopped) at h))
]

finish-IsVerdict :
    (w : World) (res : DeliveryResult) (domain : Text) (t : Tried)
    → Walks t
    → (finish w res domain t).0.kind ≡ transfer_permanent
    → IsVerdict (finish w res domain t).0
unfolding finish finish_context
finish-IsVerdict w res domain (interrupted c t) walk h = absurd (cc h)
finish-IsVerdict w res domain (taken r t) walk h = absurd (cc h)
finish-IsVerdict w res domain (stopped n t) walk h = elim (Option-cases (w.context n)) [
  | inr (c, over) ↦ absurd (cc (rw (over, finish) at h))
  | inl on ↦
      rw (on, finish)
        (finish_stopped-IsVerdict (record res { attempts = t.attempts }) domain t t.attempts refl
          refl walk (rw (on, finish) at h))
]

-- A permanent transfer failure repeats the last attempt's verdict: an error at MAIL FROM, RCPT
-- TO, DATA, the message or the reply to it, and at no other stage, that was not marked temporary,
-- with its stage and its code.
pub deliver-IsVerdict :
    (c : Config) (w : World) (req : Request)
    → (deliver c w req).0.kind ≡ transfer_permanent
    → IsVerdict (deliver c w req).0
deliver-IsVerdict c w req =
    deliver_cases (λ r. r.0.kind ≡ transfer_permanent → IsVerdict r.0) c w req
      (λ res e a b h. absurd (unfold finish_dns lookup_kind in ground arith))
      (λ res t a b walk h. finish-IsVerdict w res req.domain t walk h)
      (λ bad h. absurd (unfold invalid in cc h))

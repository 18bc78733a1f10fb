-- ===== src/Delivery/Engine/Outcome.antt =====
-- internal/delivery/delivery.go: the agreement of result, error and attempts.
use mailx.Base.{
  true, false, Option, none, some, List, [], ◌∷◌, ◌≡◌, ◌≢◌, refl, inl, inr, arith, Option-cases,
}
use mailx.Base.Text.{Text}
use mailx.Errors.{Err, DeliveryError, accepted, delivery, TransferError, ContextErr, other}
use mailx.Delivery.Policy.{FallbackDecision, classify_final}
use mailx.Delivery.Request.{Request}
use mailx.Delivery.Result.{Attempt, DeliveryResult, blank_result, temporary_kind}
use mailx.Delivery.Engine.{
  Config, World, Trail, Tried, interrupted, taken, stopped, finish, finish_dns, finish_stopped,
  finish_context, deliver, invalid, lookup_kind, finish_failed, no_candidates,
  is_transfer_temporary,
}
use mailx.Delivery.Engine.Attempts.{deliver_cases}

-- The error is nil exactly if the message was accepted; an error repeats the result's kind and
-- the request's domain, and its `Temporary` is that of the kind.
pub data Agrees (domain : Text) (r : DeliveryResult × Option Err) : Type 0 where
  delivered : r.1 ≡ none → r.0.accepted ≡ true → r.0.kind ≡ accepted → Agrees domain r
  refused :
      (i : DeliveryError) (cause : Err)
      → r.1 ≡ some (delivery i cause)
      → r.0.accepted ≡ false
      → r.0.kind ≢ accepted
      → i.kind ≡ r.0.kind
      → i.domain ≡ domain
      → i.temporary ≡ temporary_kind r.0.kind
      → Agrees domain r

classify-kinds :
    (d : FallbackDecision) (te : Option (TransferError × Err))
    → (classify_final d te ≢ accepted)
      × (is_transfer_temporary (classify_final d te) ≡ temporary_kind (classify_final d te))
unfolding classify_final is_transfer_temporary temporary_kind
classify-kinds d te = ground arith

lookup_kind-Agrees :
    (res : DeliveryResult) (domain : Text) (e : Err)
    → res.accepted ≡ false
    → Agrees domain (finish_dns res domain e)
unfolding finish_dns lookup_kind temporary_kind
lookup_kind-Agrees res domain e a = refused _ e refl a (ground arith) refl refl (ground arith)

finish_failed-Agrees :
    (res : DeliveryResult) (domain : Text) (t : Trail) (te : Option (TransferError × Err))
    → res.accepted ≡ false
    → t.last_err ≡ te
    → Agrees domain (finish_failed res domain t)
unfolding finish_failed
finish_failed-Agrees res domain t none a e =
    refused _ _ refl (ground arith) (ground (arith, classify-kinds t.last_decision t.last_err))
      (ground arith) refl (ground (arith, classify-kinds t.last_decision t.last_err))
finish_failed-Agrees res domain t (some (te, c)) a e =
    refused _ _ refl (ground arith) (ground (arith, classify-kinds t.last_decision t.last_err))
      (ground arith) refl (ground (arith, classify-kinds t.last_decision t.last_err))

finish_stopped-Agrees :
    (res : DeliveryResult) (domain : Text) (t : Trail) (xs : List Attempt)
    → res.accepted ≡ false
    → t.attempts ≡ xs
    → Agrees domain (finish_stopped res domain t)
unfolding finish_stopped no_candidates temporary_kind
finish_stopped-Agrees res domain t [] a e =
    rw (e, finish_stopped) (refused _ other refl a (ground arith) refl refl refl)
finish_stopped-Agrees res domain t (x ∷ xs) a e =
    rw (e, finish_stopped) (finish_failed-Agrees res domain t t.last_err a refl)

finish_context-Agrees :
    (res : DeliveryResult) (domain : Text) (c : ContextErr)
    → res.accepted ≡ false
    → Agrees domain (finish_context res domain c)
unfolding finish_context temporary_kind
finish_context-Agrees res domain c a = refused _ _ refl a (ground arith) refl refl refl

finish-Agrees :
    (w : World) (res : DeliveryResult) (domain : Text) (t : Tried)
    → res.accepted ≡ false
    → Agrees domain (finish w res domain t)
unfolding finish
finish-Agrees w res domain (interrupted c t) a =
    finish_context-Agrees (record res { attempts = t.attempts }) domain c a
finish-Agrees w res domain (taken r t) a = delivered refl refl refl
finish-Agrees w res domain (stopped n t) a = elim (Option-cases (w.context n)) [
  | inr (c, over) ↦
      rw (over, finish) (finish_context-Agrees (record res { attempts = t.attempts }) domain c a)
  | inl on ↦
      rw (on, finish)
        (finish_stopped-Agrees (record res { attempts = t.attempts }) domain t t.attempts a refl)
]

-- `Deliver` returns a nil error exactly if the message was accepted, and otherwise a
-- `*delivery.Error` whose kind, domain and `Temporary` are those of the result.
deliver-Agrees : (c : Config) (w : World) (req : Request) → Agrees req.domain (deliver c w req)
deliver-Agrees c w req =
    deliver_cases (Agrees req.domain) c w req (λ res e a b. lookup_kind-Agrees res req.domain e a)
      (λ res t a b walk. finish-Agrees w res req.domain t a)
      (λ bad.
        unfold deliver invalid temporary_kind blank_result in
        refused _ _ refl refl (ground arith) refl refl refl)

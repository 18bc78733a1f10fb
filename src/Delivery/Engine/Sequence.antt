-- ===== src/Delivery/Engine/Sequence.antt =====
-- internal/delivery/delivery.go: which attempts one operation makes, and how it ends.
use mailx.Base.{
  false, Option, none, some, List, [], ◌∷◌, ◌++◌, ◌≡◌, refl, All, ◌⊎◌, inl, inr, arith,
  Option-cases, ◌∙◌, sym,
}
use mailx.Base.Text.{Text}
use mailx.Errors.{Err, TransferError}
use mailx.Delivery.Request.{Request}
use mailx.Delivery.Result.{Attempt, DeliveryResult, blank_result}
use mailx.Delivery.Engine.{
  Config, World, Trail, Tried, interrupted, taken, stopped, finish, finish_dns, finish_stopped,
  finish_context, deliver, invalid, finish_failed, no_candidates,
}
use mailx.Delivery.Engine.Attempts.{IsPassedOver, Ends, Walks, deliver_cases}

-- The attempts of an operation: `earlier`, each refused before MAIL FROM and not at AUTH, and one
-- last, which may be the accepted one.
pub record IsSequence (r : DeliveryResult) : Type 0 where
  pub earlier : List Attempt
  pub passed : All IsPassedOver earlier
  pub rest :
      ((r.attempts ≡ earlier) × (r.accepted ≡ false))
      ⊎ ((last : Attempt) × (r.attempts ≡ earlier ++ last ∷ [])
          × (r.accepted ≡ last.transfer.accepted))

pub finish_failed-keeps :
    (res : DeliveryResult) (domain : Text) (t : Trail) (te : Option (TransferError × Err))
    → t.last_err ≡ te
    → ((finish_failed res domain t).0.attempts ≡ res.attempts)
      × ((finish_failed res domain t).0.accepted ≡ res.accepted)
unfolding finish_failed
finish_failed-keeps res domain t none e = (ground arith, ground arith)
finish_failed-keeps res domain t (some (te, c)) e = (ground arith, ground arith)

pub finish_stopped-keeps :
    (res : DeliveryResult) (domain : Text) (t : Trail) (xs : List Attempt)
    → t.attempts ≡ xs
    → ((finish_stopped res domain t).0.attempts ≡ res.attempts)
      × ((finish_stopped res domain t).0.accepted ≡ res.accepted)
unfolding finish_stopped no_candidates
finish_stopped-keeps res domain t [] e = rw (e, finish_stopped) (refl, refl)
finish_stopped-keeps res domain t (x ∷ xs) e =
    rw (e, finish_stopped) (finish_failed-keeps res domain t t.last_err refl)

-- The result of an operation that was not accepted, with the attempts of a trail.
refused-IsSequence :
    (r : DeliveryResult) (t : Trail)
    → r.attempts ≡ t.attempts
    → r.accepted ≡ false
    → (t.attempts ≡ []) ⊎ Ends t
    → IsSequence r
refused-IsSequence r t same a (inl e) = record {
  earlier = [];
  passed = tt;
  rest = inl (same ∙ e, a);
}
refused-IsSequence r t same a (inr e) = record {
  earlier = e.earlier;
  passed = e.passed;
  rest = inr (e.last, same ∙ e.is, a ∙ sym e.refused);
}

finish-IsSequence :
    (w : World) (res : DeliveryResult) (domain : Text) (t : Tried)
    → res.accepted ≡ false
    → Walks t
    → IsSequence (finish w res domain t).0
unfolding finish finish_context
finish-IsSequence w res domain (interrupted c t) a walk = record {
  earlier = t.attempts;
  passed = walk;
  rest = inl (refl, a);
}
finish-IsSequence w res domain (taken r t) a walk = record {
  earlier = walk.earlier;
  passed = walk.passed;
  rest = inr (walk.last, walk.is, sym walk.accepted);
}
finish-IsSequence w res domain (stopped n t) a walk = elim (Option-cases (w.context n)) [
  | inr (c, over) ↦ rw (over, finish) (refused-IsSequence _ t refl a walk)
  | inl on ↦
      rw (on, finish)
        (let keeps =
            finish_stopped-keeps (record res { attempts = t.attempts }) domain t t.attempts refl in
          refused-IsSequence (finish_stopped (record res { attempts = t.attempts }) domain t).0 t
            keeps.0 (keeps.1 ∙ a) walk)
]

-- One operation goes on to another MX only after an attempt that was not accepted and ended with
-- an error at dial, greeting, EHLO, HELO, STARTTLS, TLS or the EHLO after it, and
-- its result is accepted exactly if its last attempt was: no attempt follows an accepted one.
pub deliver-IsSequence : (c : Config) (w : World) (req : Request) → IsSequence (deliver c w req).0
deliver-IsSequence c w req =
    deliver_cases (λ r. IsSequence r.0) c w req
      (λ res e a b. unfold finish_dns in record { earlier = []; passed = tt; rest = inl (b, a) })
      (λ res t a b walk. finish-IsSequence w res req.domain t a walk)
      (λ bad.
        unfold deliver invalid blank_result in
        record { earlier = []; passed = tt; rest = inl (refl, refl) })

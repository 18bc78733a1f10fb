-- ===== src/Delivery/Engine/Attempts.antt =====
-- internal/delivery/delivery.go: which attempts one operation makes.
use mailx.Base.{
  ℕ, suc, true, false, Option, none, some, List, [], ◌∷◌, ◌++◌, ◌≡◌, refl, sym, All, All-append,
  ◌⊎◌, inl, inr, Option-cases, if_cases, Result-cases, subst,
}
use mailx.Errors.{Err, TransferError}
use mailx.Transfer as Transfer
use mailx.Transfer.{TransferResult}
use mailx.Delivery.Policy.{
  FallbackDecision, try_next, stop_permanent, stop_temporary, decide_fallback, is_pre_session,
  try_next_only,
}
use mailx.Delivery.Request.{Request, validate_request}
use mailx.Delivery.Candidates.{Mx, order_candidates}
use mailx.Delivery.Result.{Attempt, DeliveryResult, blank_result, direct, relay}
use mailx.Smtp.Session.{Credentials}
use mailx.Base.Int.{ℤ}
use mailx.Delivery.Engine.{
  Config, World, Trail, Tried, interrupted, taken, stopped, attempt_of, note_attempt, after_attempt,
  try_candidates, start, finish, finish_dns, deliver_to, deliver_direct, deliver_valid, deliver,
  direct_found, routed, invalid, transfer_request,
}

-- An attempt after which another MX may be tried: it ended with an error before MAIL FROM, and
-- not at AUTH.
pub record IsPassedOver (a : Attempt) : Type 0 where
  pub refused : a.transfer.accepted ≡ false
  pub te : TransferError
  pub cause : Err
  pub error : a.transfer_err ≡ some (te, cause)
  pub before_mail : is_pre_session te.stage ≡ true

-- The last attempt of a trail, its variables, and the earlier attempts.
pub record Ends (t : Trail) : Type 0 where
  pub earlier : List Attempt
  pub last : Attempt
  pub passed : All IsPassedOver earlier
  pub is : t.attempts ≡ earlier ++ last ∷ []
  pub refused : last.transfer.accepted ≡ false
  pub error : t.last_err ≡ last.transfer_err
  pub decision : t.last_decision ≡ decide_fallback last.transfer_err

pub record Takes (r : TransferResult) (xs : List Attempt) : Type 0 where
  pub earlier : List Attempt
  pub last : Attempt
  pub passed : All IsPassedOver earlier
  pub is : xs ≡ earlier ++ last ∷ []
  pub accepted : last.transfer.accepted ≡ true
  pub result : last.transfer ≡ r

-- How the loop can end.
abbrev pub Walks : Tried → Type 0
Walks (interrupted c t) = All IsPassedOver t.attempts
Walks (taken r t) = Takes r t.attempts
Walks (stopped n t) = (t.attempts ≡ []) ⊎ Ends t

note-Ends :
    (t : Trail) (a : Attempt)
    → All IsPassedOver t.attempts
    → a.transfer.accepted ≡ false
    → Ends (note_attempt t a)
unfolding note_attempt
note-Ends t a passed refused = record {
  earlier = t.attempts;
  last = a;
  passed = passed;
  is = refl;
  refused = refused;
  error = refl;
  decision = refl;
}

after_attempt-Walks :
    (again : Trail → Tried) (n : ℕ) (t : Trail) (a : Attempt)
    → All IsPassedOver t.attempts
    → ((u : Trail) → All IsPassedOver u.attempts → (u.attempts ≡ []) ⊎ Ends u → Walks (again u))
    → Walks (after_attempt again n t a)
unfolding after_attempt
after_attempt-Walks again n t a passed more =
    if_cases Walks a.transfer.accepted
      (λ yes_accepted. record {
        earlier = t.attempts;
        last = a;
        passed = passed;
        is = refl;
        accepted = yes_accepted;
        result = refl;
      })
      (λ refused. go refused (decide_fallback a.transfer_err) refl)
  where
    go :
        a.transfer.accepted ≡ false
        → (d : FallbackDecision) → decide_fallback a.transfer_err ≡ d
        → Walks (elim d [
          | try_next ↦ again (note_attempt t a)
          | _ ↦ stopped (suc n) (note_attempt t a)
        ])
    go refused try_next e =
        let (te, cause, is, early) = try_next_only a.transfer_err e in
        let over : IsPassedOver a = record {
          refused = refused;
          te = te;
          cause = cause;
          error = is;
          before_mail = early;
        } in
        more (note_attempt t a)
          (unfold note_attempt in (All-append IsPassedOver t.attempts (a ∷ []) passed (over, tt)))
          (inr (note-Ends t a passed refused))
    go refused stop_permanent e = inr (note-Ends t a passed refused)
    go refused stop_temporary e = inr (note-Ends t a passed refused)

try_candidates-Walks :
    (w : World) (request : Mx → Transfer.Request) (n : ℕ) (ms : List Mx) (t : Trail)
    → All IsPassedOver t.attempts
    → (t.attempts ≡ []) ⊎ Ends t
    → Walks (try_candidates w request n ms t)
unfolding try_candidates
try_candidates-Walks w request n [] t passed so_far = so_far
try_candidates-Walks w request n (mx ∷ rest) t passed so_far = elim (Option-cases (w.context n)) [
  | inr (c, over) ↦ rw (over, try_candidates) passed
  | inl on ↦
      rw (on, try_candidates)
        (after_attempt-Walks (try_candidates w request (suc n) rest) n t
          (attempt_of mx (request mx).destination (w.transfer n (request mx))) passed
          (try_candidates-Walks w request (suc n) rest))
]

pub loop-Walks :
    (w : World) (request : Mx → Transfer.Request) (ms : List Mx)
    → Walks (try_candidates w request 0 ms start)
loop-Walks w request ms = try_candidates-Walks w request 0 ms start tt (inl refl)

-- What `Deliver` returns comes from the request's refusal, from DNS, or from the loop.
module _ {ℓ} (P : DeliveryResult × Option Err → Type ℓ) (c : Config) (w : World) (req : Request)
    (dns : (res : DeliveryResult) (e : Err)
      → res.accepted ≡ false
      → res.attempts ≡ []
      → P (finish_dns res req.domain e))
    (loop : (res : DeliveryResult) (t : Tried)
      → res.accepted ≡ false
      → res.attempts ≡ []
      → Walks t
      → P (finish w res req.domain t)) where
  to_case :
      (res : DeliveryResult) (port : ℤ) (auth : Option Credentials) (ms : List Mx)
      → res.accepted ≡ false
      → res.attempts ≡ []
      → P (deliver_to w req res port auth ms)
  unfolding deliver_to
  to_case res port auth ms a b =
      loop (record res { mx_candidates = ms })
        (try_candidates w (transfer_request req port auth) 0 ms start) a b
        (loop-Walks w (transfer_request req port auth) ms)

  direct_case :
      (res : DeliveryResult)
      → res.accepted ≡ false
      → res.attempts ≡ []
      → P (deliver_direct c w req res)
  unfolding deliver_direct
  direct_case res a b = elim (Result-cases w.lookup_mx) [
    | inl (e, failed) ↦ subst (λ r. P (direct_found c w req res r)) (sym failed) (dns res e a b)
    | inr (ms, found) ↦
        subst (λ r. P (direct_found c w req res r)) (sym found)
          (to_case res c.smtp_port none (order_candidates c.shuffle ms) a b)
  ]

  valid_case : P (deliver_valid c w req)
  unfolding deliver_valid blank_result
  valid_case = elim (Option-cases c.relay) [
    | inr (r, is) ↦
        subst (λ o. P (routed c w req o)) (sym is)
          (to_case (record (blank_result req.domain) { transport = relay }) r.port r.auth
            (record { host = r.host; preference = 0 } ∷ []) refl refl)
    | inl is ↦
        subst (λ o. P (routed c w req o)) (sym is)
          (direct_case (record (blank_result req.domain) { transport = direct }) refl refl)
  ]

  pub deliver_cases : (validate_request req ≡ false → P (invalid req)) → P (deliver c w req)
  unfolding deliver
  deliver_cases bad = if_cases P (validate_request req) (λ good. valid_case) bad

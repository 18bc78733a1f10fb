-- ===== src/Delivery/Engine/Secrecy.antt =====
-- internal/delivery/delivery.go: where an operation connects to, and with which credentials.
use mailx.Base.{
  ℕ, suc, Option, none, some, List, [], ◌∷◌, ◌≡◌, refl, ◌∙◌, ap, subst, inl, inr, Option-cases, ok,
  err, if◌then◌else◌, All, Result,
}
use mailx.Base.Int.{ℤ}
use mailx.Base.Text.{Text}
use mailx.Errors.{Err}
use mailx.Smtp.Session.{Credentials}
use mailx.Transfer as Transfer
use mailx.Transfer.{TransferResult}
use mailx.Delivery.Request.{Request, validate_request}
use mailx.Delivery.Candidates.{Mx, order_candidates}
use mailx.Delivery.Result.{DeliveryResult, blank_result, direct, relay}
use mailx.Delivery.Engine.{
  Config, Relay, World, Trail, Tried, interrupted, taken, stopped, attempt_of, after_attempt,
  try_candidates, start, finish, transfer_request, deliver_to, direct_found, deliver_valid, deliver,
  invalid, join_host_port,
}

-- Another world, which answers the same to the requests that `P` holds of.
pub record SameFor {ℓ} (P : Transfer.Request → Type ℓ) (w w' : World) : Type ℓ where
  pub context : (n : ℕ) → w.context n ≡ w'.context n
  pub transfer : (n : ℕ) (r : Transfer.Request) → P r → w.transfer n r ≡ w'.transfer n r

module _ {ℓ} (P : Transfer.Request → Type ℓ) (w w' : World) (s : SameFor P w w') where
  try_candidates_same :
      (request : Mx → Transfer.Request) (ms : List Mx)
      → All (λ m. P (request m)) ms
      → (n : ℕ) (t : Trail) → try_candidates w request n ms t ≡ try_candidates w' request n ms t
  unfolding try_candidates
  try_candidates_same request [] all n t = refl
  try_candidates_same request (m ∷ rest) all n t = λ i. elim (s.context n i) [
    | some c ↦ interrupted c t
    | none ↦
        after_attempt (λ u. try_candidates_same request rest all.1 (suc n) u i) n t
          (attempt_of m (request m).destination (s.transfer n (request m) all.0 i))
  ]

  finish_same :
      (res : DeliveryResult) (domain : Text) (t : Tried)
      → finish w res domain t ≡ finish w' res domain t
  unfolding finish
  finish_same res domain (interrupted c t) = refl
  finish_same res domain (taken r t) = refl
  finish_same res domain (stopped n t) = rw (s.context n, finish)

  deliver_to_same :
      (req : Request) (res : DeliveryResult) (port : ℤ) (auth : Option Credentials) (ms : List Mx)
      → All (λ m. P (transfer_request req port auth m)) ms
      → deliver_to w req res port auth ms ≡ deliver_to w' req res port auth ms
  unfolding deliver_to
  deliver_to_same req res port auth ms all =
      ap (finish w (record res { mx_candidates = ms }) req.domain)
        (try_candidates_same (transfer_request req port auth) ms all 0 start)
      ∙ finish_same (record res { mx_candidates = ms }) req.domain
          (try_candidates w' (transfer_request req port auth) 0 ms start)

All-direct :
    (req : Request) (port : ℤ) (ms : List Mx)
    → All (λ m. (transfer_request req port none m).auth ≡ none) ms
unfolding transfer_request
All-direct req port [] = tt
All-direct req port (m ∷ ms) = (refl, All-direct req port ms)

-- Without a relay no credentials are sent: two worlds that resolve alike, and whose contexts and
-- answers to the transfers that carry no credentials are the same, make the same operation.
direct_no_credentials :
    (c : Config) (w w' : World) (req : Request)
    → c.relay ≡ none
    → w.lookup_mx ≡ w'.lookup_mx
    → SameFor (λ r. r.auth ≡ none) w w'
    → deliver c w req ≡ deliver c w' req
unfolding deliver
direct_no_credentials c w w' req is mx s =
    ap (λ x. if validate_request req then x else invalid req) valid
  where
    res : DeliveryResult
    res = record (blank_result req.domain) { transport = direct }

    found : (r : Result Err (List Mx)) → direct_found c w req res r ≡ direct_found c w' req res r
    found (err e) = refl
    found (ok ms) =
        deliver_to_same (λ r. r.auth ≡ none) w w' s req res c.smtp_port none
          (order_candidates c.shuffle ms)
          (All-direct req c.smtp_port (order_candidates c.shuffle ms))

    valid : deliver_valid c w req ≡ deliver_valid c w' req
    valid = rw is (found w.lookup_mx ∙ ap (direct_found c w' req res) mx)

-- With a relay no other host is connected to, and DNS is not asked: two worlds whose contexts and
-- answers to the transfers to the relay, with its credentials, are the same make the same
-- operation, whatever else they resolve and answer.
relay_only :
    (c : Config) (w w' : World) (req : Request) (r : Relay)
    → c.relay ≡ some r
    → SameFor (λ q. (q.destination ≡ join_host_port r.host r.port) × (q.auth ≡ r.auth)) w w'
    → deliver c w req ≡ deliver c w' req
unfolding deliver transfer_request
relay_only c w w' req r is s = ap (λ x. if validate_request req then x else invalid req) valid
  where
    valid : deliver_valid c w req ≡ deliver_valid c w' req
    valid = rw is (
        deliver_to_same _ w w' s req (record (blank_result req.domain) { transport = relay }) r.port
          r.auth (record { host = r.host; preference = 0 } ∷ []) ((refl, refl), tt))

-- The transfers that an operation may make: without a relay, those without credentials; with one,
-- those to the relay with its credentials.
abbrev pub Allowed : Option Relay → Transfer.Request → Type 0
Allowed none q = q.auth ≡ none
Allowed (some r) q = (q.destination ≡ join_host_port r.host r.port) × (q.auth ≡ r.auth)

-- With a relay an operation transfers to the relay alone, with the relay's credentials, and does
-- not ask DNS; without one it sends no credentials to any MX. That is: two worlds whose contexts,
-- and whose answers to those transfers, are the same, and which without a relay resolve alike,
-- make the same operation, whatever else they answer.
pub transfers_as_configured :
    (c : Config) (w w' : World) (req : Request)
    → (c.relay ≡ none → w.lookup_mx ≡ w'.lookup_mx)
    → SameFor (Allowed c.relay) w w'
    → deliver c w req ≡ deliver c w' req
transfers_as_configured c w w' req mx s = elim (Option-cases c.relay) [
  | inl is ↦
      direct_no_credentials c w w' req is (mx is) (subst (λ o. SameFor (Allowed o) w w') is s)
  | inr (r, is) ↦ relay_only c w w' req r is (subst (λ o. SameFor (Allowed o) w w') is s)
]

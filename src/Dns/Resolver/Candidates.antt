-- ===== src/Dns/Resolver/Candidates.antt =====
-- internal/dns: what a resolution gives the delivery engine.
use mailx.Base.{
  take, ℕ, zero, suc, ◌≤◌, ◌≡◌, refl, true, Option, none, some, List, [], ◌∷◌, ◌&&◌, ◌==◌, any,
  length, Result, ok, err, arith, All, if_cases, Option-cases, Result-cases, inl, inr,
}
use mailx.Base.Text.{Text}
use mailx.Errors.{
  Err, LookupKind, lookup, null_mx, resolver_failure, not_found, temporary, invalid_domain, other,
  context_err,
}
use mailx.Dns.Mx.{Mx, NetMx, sort, dedup, sort_and_dedup, host_safe, canonical_host, is_null_mx}
use mailx.Dns.Mx.Order.{
  Ascends, Distinct, length-insert, sort-All, sort-Ascends, dedup-All, dedup-Ascends,
  dedup-Distinct, dedup_some,
}
use mailx.Dns.Resolver.{
  Answers, Failure, usable, settle, from_records, from_answer, from_addresses, implicit_fallback,
  lookup_mx, normalize_domain, kind_of, after_failure,
}

take-All {ℓ} : (P : Mx → Type ℓ) (n : ℕ) (ms : List Mx) → All P ms → All P (take n ms)
take-All P zero ms a = tt
take-All P (suc n) [] a = tt
take-All P (suc n) (m ∷ ms) a = (a.0, take-All P n ms a.1)

take-Ascends : (n : ℕ) (ms : List Mx) → Ascends ms → Ascends (take n ms)
take-Ascends zero ms a = tt
take-Ascends (suc n) [] a = tt
take-Ascends (suc n) (m ∷ ms) a = (take-All _ n ms a.0, take-Ascends n ms a.1)

take-Distinct : (n : ℕ) (ms : List Mx) → Distinct ms → Distinct (take n ms)
take-Distinct zero ms a = tt
take-Distinct (suc n) [] a = tt
take-Distinct (suc n) (m ∷ ms) a = (take-All _ n ms a.0, take-Distinct n ms a.1)

length-take : (n : ℕ) (ms : List Mx) → length (take n ms) ≤ n
length-take zero ms = omega arith
length-take (suc n) [] = omega arith
length-take (suc n) (m ∷ ms) = omega (arith, length-take n ms)

-- One to 32 hosts, by ascending preference, each once, and each a host name that is safe to dial.
pub record IsCandidates (ms : List Mx) : Type 0 where
  pub some_host : 1 ≤ length ms
  pub at_most : length ms ≤ 32
  pub ascending : Ascends ms
  pub distinct : Distinct ms
  pub safe : All (λ m. host_safe m.host ≡ true) ms

-- What `LookupMX` returns: candidates, or a `*LookupError`.
abbrev pub IsAnswer : Result Err (List Mx) → Type 0
IsAnswer (ok ms) = IsCandidates ms
IsAnswer (err e) = (k : LookupKind) × (c : Err) × (e ≡ lookup k c)

take_some : (n : ℕ) (ms : List Mx) → 1 ≤ length ms → 1 ≤ length (take (suc n) ms)
take_some n [] h = h
take_some n (m ∷ ms) h = omega arith

usable-All : (rs : List NetMx) → All (λ m. host_safe m.host ≡ true) (usable rs)
unfolding usable
usable-All [] = tt
usable-All (r ∷ rs) =
    if_cases (All (λ m. host_safe m.host ≡ true)) (host_safe (canonical_host r.host))
      (λ safe. (safe, usable-All rs)) (λ _. usable-All rs)

settle-IsAnswer : (cs : List Mx) → All (λ m. host_safe m.host ≡ true) cs → IsAnswer (settle cs)
unfolding settle sort_and_dedup sort
settle-IsAnswer [] a = (resolver_failure, other, refl)
settle-IsAnswer (c ∷ cs) a =
    let sorted = sort (c ∷ cs) in
    record {
      some_host =
          take_some 31 (dedup [] sorted)
            (dedup_some sorted (omega (arith, length-insert c (sort cs))));
      at_most = length-take 32 (dedup [] sorted);
      ascending =
          take-Ascends 32 (dedup [] sorted) (dedup-Ascends [] sorted (sort-Ascends (c ∷ cs)));
      distinct = take-Distinct 32 (dedup [] sorted) (dedup-Distinct [] sorted);
      safe = take-All _ 32 (dedup [] sorted) (dedup-All _ [] sorted (sort-All _ (c ∷ cs) a));
    }

from_records-IsAnswer : (rs : List NetMx) → IsAnswer (from_records rs)
unfolding from_records
from_records-IsAnswer rs =
    if_cases IsAnswer (length rs == 1 && any is_null_mx rs) (λ _. (null_mx, other, refl))
      (λ _.
        if_cases IsAnswer (any is_null_mx rs) (λ _. (resolver_failure, other, refl))
          (λ _. settle-IsAnswer (usable rs) (usable-All rs)))

from_addresses-IsAnswer :
    (domain : Text) (addresses : List Text) → IsAnswer (from_addresses domain addresses)
unfolding from_addresses
from_addresses-IsAnswer domain [] = (not_found, other, refl)
from_addresses-IsAnswer domain (a ∷ more) =
    if_cases IsAnswer (host_safe (canonical_host domain))
      (λ safe. record {
        some_host = omega arith;
        at_most = omega arith;
        ascending = (tt, tt);
        distinct = (tt, tt);
        safe = (safe, tt);
      })
      (λ _. (resolver_failure, other, refl))

implicit_fallback-IsAnswer :
    (net : Answers) (domain : Text) → IsAnswer (implicit_fallback net domain)
unfolding implicit_fallback
implicit_fallback-IsAnswer net domain = elim (Result-cases (net.host domain)) [
  | inl (f, is) ↦ rw (is, implicit_fallback) (kind_of f, f.cause, refl)
  | inr (as', is) ↦ rw (is, implicit_fallback) (from_addresses-IsAnswer domain as')
]

after_failure-IsAnswer :
    (net : Answers) (domain : Text) (cause : Err) (k : LookupKind)
    → IsAnswer (after_failure net domain cause k)
unfolding after_failure
after_failure-IsAnswer net domain cause not_found = implicit_fallback-IsAnswer net domain
after_failure-IsAnswer net domain cause invalid_domain = (invalid_domain, cause, refl)
after_failure-IsAnswer net domain cause null_mx = (null_mx, cause, refl)
after_failure-IsAnswer net domain cause temporary = (temporary, cause, refl)
after_failure-IsAnswer net domain cause resolver_failure = (resolver_failure, cause, refl)

from_answer-IsAnswer :
    (net : Answers) (domain : Text) (a : List NetMx × Option Failure)
    → IsAnswer (from_answer net domain a)
unfolding from_answer
from_answer-IsAnswer net domain (r ∷ rs, e) = from_records-IsAnswer (r ∷ rs)
from_answer-IsAnswer net domain ([], none) = implicit_fallback-IsAnswer net domain
from_answer-IsAnswer net domain ([], some f) = elim (Option-cases net.context) [
  | inr (c, is) ↦ rw (is, from_answer) (temporary, context_err c, refl)
  | inl on ↦ rw (on, from_answer) (after_failure-IsAnswer net domain f.cause (kind_of f))
]

-- Whatever DNS answers, `LookupMX` returns either one to 32 hosts, by ascending preference, each
-- record once, each host safe to dial, or a `*LookupError`.
pub lookup_mx-IsAnswer : (net : Answers) (domain : Text) → IsAnswer (lookup_mx net domain)
unfolding lookup_mx
lookup_mx-IsAnswer net domain = elim (Option-cases (normalize_domain domain)) [
  | inl is ↦ rw (is, lookup_mx) (invalid_domain, other, refl)
  | inr (name, is) ↦ rw (is, lookup_mx) (from_answer-IsAnswer net name (net.mx name))
]

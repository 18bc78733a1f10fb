-- ===== src/Dns/Resolver.antt =====
-- internal/dns/resolver.go: MX resolution over what DNS answers. The `Lookup` interface and the
-- caller's context are the record `Answers`.
pub mod Candidates
use mailx.Base.{
  take, ℕ, zero, suc, Bool, true, false, Option, none, some, List, [], ◌∷◌, ◌&&◌, ◌||◌, not, leb,
  ltb, ◌==◌, if◌then◌else◌, any, length, Result, ok, err, reverse,
}
use mailx.Base.Text.{Text, trim_space, to_lower, is_empty}
use mailx.Errors.{
  Err, LookupKind, ContextErr, other, context_err, lookup, is_context, invalid_domain, not_found,
  null_mx, temporary, resolver_failure,
}
use mailx.Dns.Mx.{Mx, NetMx, canonical_host, is_null_mx, host_safe, sort_and_dedup, trim_dot}

-- The flags of a `*net.DNSError`.
pub record DnsFlags : Type 0 where
  pub is_not_found : Bool
  pub is_timeout : Bool
  pub is_temporary : Bool

-- An error of the DNS library: the `*net.DNSError` in it, if there is one, and its chain.
pub record Failure : Type 0 where
  pub dns : Option DnsFlags
  pub cause : Err

-- What DNS answers for a name, and what the context is after the MX lookup.
pub record Answers : Type 0 where
  pub mx : Text → List NetMx × Option Failure
  pub host : Text → Result Failure (List Text)
  pub context : Option ContextErr

abbrev pub max_candidates : ℕ
max_candidates = 32

-- Every byte is printable ASCII, and none is '@'.
is_plain : Text → Bool
is_plain [] = true
is_plain (c ∷ s) = leb 0x21 c && ltb c 0x7f && not (c == b'@') && is_plain s

-- Labels of 1 to 63 bytes between the dots; `n` is the length of the label read so far.
labels_ok : ℕ → Text → Bool
labels_ok n [] = ltb 0 n && leb n 63
labels_ok n (c ∷ s) =
    let next = labels_ok 0 s in
    let more = labels_ok (suc n) s in if c == b'.' then ltb 0 n && leb n 63 && next else more

-- `normalizeDomain`; none is an error.
unfoldable pub normalize_domain : Text → Option Text
unfolding trim_space is_empty is_plain labels_ok trim_dot to_lower
normalize_domain domain =
    let trimmed = trim_space domain in
    let lowered = to_lower (trim_dot trimmed) in
    if is_empty trimmed || not (is_plain trimmed) || is_empty (trim_dot trimmed)
    then none
    else if labels_ok 0 lowered && leb (length lowered) 253
    then some lowered
    else none

-- A failure that is not a `*net.DNSError`, or one with no flag set.
unflagged : Err → LookupKind
unfolding is_context
unflagged e = if is_context e then temporary else resolver_failure

-- The kind that `classifyDNSError`, and `implicitFallback` by the same tests, give an error.
unfoldable pub kind_of : Failure → LookupKind
unfolding unflagged
kind_of f = elim f.dns [
  | none ↦ unflagged f.cause
  | some d ↦
      if d.is_not_found
      then not_found
      else if d.is_timeout || d.is_temporary
      then temporary
      else unflagged f.cause
]

-- An answer of addresses.
from_addresses : Text → List Text → Result Err (List Mx)
unfolding canonical_host host_safe
from_addresses domain [] = err (lookup not_found other)
from_addresses domain (a ∷ more) =
    if host_safe (canonical_host domain)
    then ok (record { host = canonical_host domain; preference = 0 } ∷ [])
    else err (lookup resolver_failure other)

-- `implicitFallback`
unfoldable pub implicit_fallback : Answers → Text → Result Err (List Mx)
unfolding from_addresses kind_of
implicit_fallback net domain = elim (net.host domain) [
  | err f ↦ err (lookup (kind_of f) f.cause)
  | ok addresses ↦ from_addresses domain addresses
]

-- The records with a usable host.
usable : List NetMx → List Mx
unfolding canonical_host host_safe
usable [] = []
usable (r ∷ rs) =
    let rest = usable rs in
    if host_safe (canonical_host r.host)
    then record { host = canonical_host r.host; preference = r.pref } ∷ rest
    else rest

settle : List Mx → Result Err (List Mx)
unfolding sort_and_dedup
settle [] = err (lookup resolver_failure other)
settle (c ∷ cs) = ok (take max_candidates (sort_and_dedup (c ∷ cs)))

-- From the Null MX tests on, for a non-empty answer.
unfoldable pub from_records : List NetMx → Result Err (List Mx)
unfolding settle usable is_null_mx
from_records records =
    if length records == 1 && any is_null_mx records
    then err (lookup null_mx other)
    else if any is_null_mx records
    then err (lookup resolver_failure other)
    else settle (usable records)

-- After a failed MX lookup, by the kind of its error.
after_failure : Answers → Text → Err → LookupKind → Result Err (List Mx)
unfolding implicit_fallback
after_failure net domain cause not_found = implicit_fallback net domain
after_failure net domain cause k = err (lookup k cause)

-- After the MX lookup.
unfoldable pub from_answer : Answers → Text → List NetMx × Option Failure → Result Err (List Mx)
unfolding from_records implicit_fallback after_failure kind_of
from_answer net domain (r ∷ rs, e) = from_records (r ∷ rs)
from_answer net domain ([], none) = implicit_fallback net domain
from_answer net domain ([], some f) = elim net.context [
  | some c ↦ err (lookup temporary (context_err c))
  | none ↦ after_failure net domain f.cause (kind_of f)
]

-- `Resolver.LookupMX`
unfoldable pub lookup_mx : Answers → Text → Result Err (List Mx)
unfolding from_answer normalize_domain
lookup_mx net domain = elim (normalize_domain domain) [
  | none ↦ err (lookup invalid_domain other)
  | some name ↦ from_answer net name (net.mx name)
]

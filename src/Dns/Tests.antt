-- ===== src/Dns/Tests.antt =====
-- Resolutions of a domain, and the theorems about them there.
use mailx.Base.{◌≡◌, refl, none, [], ◌∷◌, ok}
use mailx.Dns.Mx.{Mx, is_null_mx}
use mailx.Dns.Resolver.{Answers, lookup_mx}
use mailx.Dns.Resolver.Candidates.{IsAnswer, lookup_mx-IsAnswer}

-- Two hosts, the second of them twice.
abbrev two_hosts : Answers
two_hosts = record {
  mx = λ d. (
    record { host = b'B' ∷ b'.' ∷ []; pref = 20 }
        ∷ record { host = b'a' ∷ []; pref = 10 }
        ∷ record { host = b'b' ∷ []; pref = 20 }
        ∷ [],
    none,
  );
  host = λ d. ok [];
  context = none;
}

resolved :
    lookup_mx two_hosts (b'd' ∷ b'.' ∷ [])
    ≡ ok (
        record { host = b'a' ∷ []; preference = 10 }
        ∷ record { host = b'b' ∷ []; preference = 20 }
        ∷ [])
unfolding lookup_mx is_null_mx
resolved = refl

lookup_mx-IsAnswer_example : IsAnswer (lookup_mx two_hosts (b'd' ∷ b'.' ∷ []))
lookup_mx-IsAnswer_example = lookup_mx-IsAnswer two_hosts (b'd' ∷ b'.' ∷ [])

abbrev host_c : Mx
host_c = record { host = b'c' ∷ []; preference = 5 }

-- ===== src/Worker/Permit.antt =====
-- internal/worker/permits.go: the permits of a tenant and of a destination, held for one attempt.
use mailx.Base.{
  Bool, true, false, Option, none, some, List, [], ◌∷◌, ◌++◌, if◌then◌else◌, ◌*◌, map, length,
}
use mailx.Base.Int.{ℤ, pos, ◌+ℤ◌, ◌-ℤ◌, is_pos}
use mailx.Base.Text.{Text}
use mailx.Retry.Backoff.{second, BackoffPolicy, jitter, i64}
use mailx.Retry.Schedule.{unix_epoch}
use mailx.Worker.World.{World, Permits, Event, permit_acquired, permit_freed, closing_time}

abbrev pub permit_deferral : ℤ
permit_deferral = pos (5 * second)

abbrev pub permit_unknown_deferral : ℤ
permit_unknown_deferral = pos (15 * second)

-- The base of a refusal: `PermitPolicy.Deferral`, or its default.
unfoldable pub refusal_base : Permits → ℤ
refusal_base p = if is_pos p.deferral then p.deferral else permit_deferral

-- `deferForPermit`: when the job is released to.
unfoldable pub defer_for_permit : World → Permits → ℤ → ℤ
unfolding jitter i64 ◌+ℤ◌ ◌-ℤ◌
defer_for_permit w p base =
    let now = w.clock closing_time in
    let policy : BackoffPolicy = record {
      schedule = [];
      base = base;
      max = pos (3600 * second);
      jitter_percent = p.jitter_percent;
    } in
    now +ℤ jitter policy base (i64 (i64 (now -ℤ unix_epoch) +ℤ pos (length w.job_id)))

-- The permits are refused, with those taken before given back, or held.
pub data Acquired : Type 0 where
  refused : List Event → ℤ → Acquired
  permitted : List Text → Acquired

abbrev pub freed : List Text → List Event
freed held = map permit_freed held

abbrev pub taken : List Text → List Event
taken held = map permit_acquired held

-- The destination's permit, with `held` already held.
unfoldable pub destination : World → Permits → List Text → Text → Option Bool → Acquired
unfolding defer_for_permit refusal_base
destination w p held key none =
    refused (taken held ++ freed held) (defer_for_permit w p permit_unknown_deferral)
destination w p held key (some false) =
    refused (taken held ++ freed held) (defer_for_permit w p (refusal_base p))
destination w p held key (some true) = permitted (held ++ key ∷ [])

unfoldable pub after_tenant : World → Permits → Text → Text → Option Bool → Acquired
unfolding destination defer_for_permit refusal_base
after_tenant w p domain key none = refused [] (defer_for_permit w p permit_unknown_deferral)
after_tenant w p domain key (some false) = refused [] (defer_for_permit w p (refusal_base p))
after_tenant w p domain key (some true) =
    destination w p (key ∷ []) (p.destination_permit_key domain) p.destination_granted

unfoldable pub acquire : World → Permits → Text → Option (Option Text) → Acquired
unfolding after_tenant destination defer_for_permit
acquire w p domain none = destination w p [] (p.destination_permit_key domain) p.destination_granted
acquire w p domain (some none) = refused [] (defer_for_permit w p permit_unknown_deferral)
acquire w p domain (some (some tenant)) =
    after_tenant w p domain (p.tenant_permit_key tenant) p.tenant_granted

unfoldable pub acquire_from : World → Text → Option Permits → Acquired
unfolding acquire
acquire_from w domain none = permitted []
acquire_from w domain (some p) = acquire w p domain p.tenant

-- `acquirePermits`
unfoldable pub acquire_permits : World → Text → Acquired
unfolding acquire_from
acquire_permits w domain = acquire_from w domain w.permits

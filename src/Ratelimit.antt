-- ===== src/Ratelimit.antt =====
-- internal/ratelimit/policy.go: the Retry-After header of a refused request.
use mailx.Base.{ℕ, ◌*◌, ◌+◌, ◌-◌, ◌/◌, ◌^◌, ◌≤◌, ◌<◌, ◌≡◌, ◌⊎◌, ltb, if◌then◌else◌, arith}
use mailx.Base.Int.{ℤ, pos, pos_part, is_nonpos, ltb_ℤ, ◌+ℤ◌}
use mailx.Retry.Backoff.{second, i64, div_ℤ}
use mailx.Retry.Backoff.Spread.{i64_fits}

-- `RetryAfterSeconds`; the sum wraps as int64 does.
unfoldable pub retry_after_seconds : ℤ → ℕ
unfolding i64 div_ℤ ◌+ℤ◌
retry_after_seconds d =
    if is_nonpos d
    then 1
    else let s = div_ℤ (i64 (d +ℤ pos (second - 1))) second in
      let floored = if ltb_ℤ s (pos 1) then pos 1 else s in
      if ltb_ℤ (pos 3600) floored then 3600 else pos_part floored

rounded_sum : (wait : ℕ) → pos wait +ℤ pos (second - 1) ≡ pos (wait + (second - 1))
unfolding ◌+ℤ◌
rounded_sum wait = ground arith

-- Without int64 and signs.
rounded_up :
    (wait : ℕ)
    → 0 < wait
    → wait + second ≤ 2 ^ 63
    → retry_after_seconds (pos wait)
      ≡ (if ltb 3600 ((wait + (second - 1)) / second) then 3600 else (wait + (second - 1)) / second)
unfolding retry_after_seconds div_ℤ
rounded_up wait more small =
    simp
      (rounded_sum wait, i64_fits (pos (wait + (second - 1))) (omega (arith, small)) (omega arith))
      (ground arith)

-- The seconds of a wait, rounded up, between 1 and 3600.
pub record IsRetryAfter (wait seconds : ℕ) : Type 0 where
  pub at_least : 1 ≤ seconds
  pub at_most : seconds ≤ 3600
  pub enough : (wait ≤ seconds * second) ⊎ (seconds ≡ 3600)
  pub least : (seconds - 1) * second ≤ wait

-- A positive wait that the sum with a second does not take past int64 becomes the least number of
-- seconds that covers it, but no more than an hour: a client is never told to come back early,
-- unless the wait is over an hour.
retry_after_seconds-IsRetryAfter :
    (wait : ℕ)
    → 0 < wait
    → wait + second ≤ 2 ^ 63
    → IsRetryAfter wait (retry_after_seconds (pos wait))
retry_after_seconds-IsRetryAfter wait more small = rw (rounded_up wait more small) (record {
  at_least = ground arith;
  at_most = ground arith;
  enough = ground arith;
  least = ground arith;
})

-- ===== src/Retry/Backoff/Spread.antt =====
-- internal/retry/backoff.go: the bounds of the jitter.
use mailx.Base.{
  ℕ, suc, true, ◌*◌, ◌+◌, ◌^◌, ◌/◌, ◌%◌, ◌≤◌, ◌<◌, ◌≡◌, refl, ltb, arith, if◌then◌else◌, ◌⊎◌,
}
use mailx.Base.Int.{ℤ, pos, negsuc, pos_part, neg_part, sub_ℕ, ◌≤ℤ◌, ◌+ℤ◌, is_pos}
use mailx.Retry.Backoff.{
  BackoffPolicy, second, i64, div_ℤ, spread, clamp, jitter_with, jitter, seed_hash,
}

pub i64_fits : (z : ℤ) → pos_part z < 2 ^ 63 → neg_part z ≤ 2 ^ 63 → i64 z ≡ z
unfolding i64
i64_fits (pos n) h k = ground arith
i64_fits (negsuc n) h k = ground arith

mul_mono : (a b c : ℕ) → b ≤ c → a * b ≤ a * c
mul_mono a b c h = grind arith

-- The parts of a quotient.
div_parts :
    (z : ℤ) (k : ℕ)
    → (pos_part (div_ℤ z (suc k)) ≡ pos_part z / suc k)
      × (neg_part (div_ℤ z (suc k)) ≡ neg_part z / suc k)
unfolding div_ℤ
div_parts (pos n) k = (refl, ground arith)
div_parts (negsuc n) k = ground arith

-- The most that the jitter takes off or adds.
abbrev pub span : ℕ → ℕ → ℕ
span delay pct = delay / 100 * pct

span_half : (delay pct : ℕ) → pct ≤ 50 → span delay pct * 2 ≤ delay
span_half delay pct h = omega (arith, mul_mono (delay / 100) pct 50 h)

sub_range :
    (a s : ℕ)
    → a ≤ s * 2000
    → (pos_part (sub_ℕ a (s * 1000)) ≤ s * 1000) × (neg_part (sub_ℕ a (s * 1000)) ≤ s * 1000)
sub_range a s h = ground arith

div_range :
    (z : ℤ) (s : ℕ)
    → pos_part z ≤ s * 1000
    → neg_part z ≤ s * 1000
    → (pos_part (div_ℤ z 1000) ≤ s) × (neg_part (div_ℤ z 1000) ≤ s)
div_range z s h k = let (p, n) = div_parts z 999 in (omega (arith, h, p), omega (arith, k, n))

spread_range :
    (delay pct h : ℕ)
    → pct ≤ 50
    → delay * 500 < 2 ^ 63
    → (pos_part (spread delay pct h) ≤ span delay pct)
      × (neg_part (spread delay pct h) ≤ span delay pct)
unfolding spread
spread_range delay pct h p small =
    let s = span_half delay pct p in
    let m = mul_mono (span delay pct) (h % 2001) 2000 (omega arith) in
    let z = sub_ℕ (span delay pct * (h % 2001)) (span delay pct * 1000) in
    let (u, v) = sub_range (span delay pct * (h % 2001)) (span delay pct) m in
    rw (i64_fits z (omega (arith, u, s)) (omega (arith, v, s))) (div_range z (span delay pct) u v)

abbrev pub percent : ℕ → ℕ
percent pct = if ltb 50 pct then 50 else pct

-- What the jitter promises of a delay: at least a second; at most Max, where there is one of a
-- second or more; not above the percentage, but for the second; and not below it, but for a
-- positive Max that cuts it off.
pub record IsJittered (max : ℤ) (width delay : ℕ) (out : ℤ) : Type 0 where
  pub at_least : pos second ≤ℤ out
  pub at_most : pos second ≤ℤ max → out ≤ℤ max
  pub above : (out ≤ℤ pos (delay + width)) ⊎ (out ≡ pos second)
  pub below : (pos delay ≤ℤ out +ℤ pos width) ⊎ ((is_pos max ≡ true) × (max ≤ℤ out))

clamp-IsJittered :
    (max : ℤ) (width delay : ℕ) (z : ℤ)
    → pos_part z ≤ width
    → neg_part z ≤ width
    → IsJittered max width delay (clamp max (pos delay +ℤ z))
unfolding clamp ◌+ℤ◌
clamp-IsJittered max width delay z h k = record {
  at_least = ground arith;
  at_most = λ m. ground arith;
  above = ground arith;
  below = ground arith;
}

-- The sum does not wrap.
sum_fits :
    (width delay : ℕ) (z : ℤ)
    → pos_part z ≤ width
    → neg_part z ≤ width
    → delay + width < 2 ^ 63
    → i64 (pos delay +ℤ z) ≡ pos delay +ℤ z
unfolding ◌+ℤ◌
sum_fits width delay z h k small = i64_fits (pos delay +ℤ z) (ground arith) (ground arith)

jitter_on :
    (p : BackoffPolicy) (pct delay : ℕ) (seed : ℤ)
    → p.jitter_percent ≡ pos (suc pct)
    → 0 < delay
    → jitter p (pos delay) seed ≡ jitter_with p.max (suc pct) delay (seed_hash seed)
unfolding jitter
jitter_on p pct delay seed is more = ground arith

-- With jitter on, every positive delay whose product by 500 fits int64 is jittered, whatever the
-- seed, to a delay of a second at least; of Max at most, where Max is a second or more; and
-- within the percentage (50 at most) of the hundredths of the delay: it is above that only as
-- the least second, and below that only where a positive Max cuts it off.
pub jitter-IsJittered :
    (p : BackoffPolicy) (pct delay : ℕ) (seed : ℤ)
    → p.jitter_percent ≡ pos (suc pct)
    → delay * 500 < 2 ^ 63
    → 0 < delay
    → IsJittered p.max (span delay (percent (suc pct))) delay (jitter p (pos delay) seed)
unfolding jitter_with
jitter-IsJittered p pct delay seed is small more =
    let (u, v) = spread_range delay (percent (suc pct)) (seed_hash seed) (ground arith) small in
    let width = span delay (percent (suc pct)) in
    let z = spread delay (percent (suc pct)) (seed_hash seed) in
    let half = span_half delay (percent (suc pct)) (ground arith) in
    simp
      (jitter_on p pct delay seed is more, sum_fits width delay z u v (omega (arith, half, small)))
      (clamp-IsJittered p.max width delay z u v)

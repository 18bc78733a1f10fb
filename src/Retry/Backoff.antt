-- ===== src/Retry/Backoff.antt =====
-- internal/retry/backoff.go: the delays between delivery operations, in nanoseconds.
pub mod Doubling
pub mod Spread
use Prim.Native.Nat.{bit_xor}
use mailx.Base.{
  ℕ, zero, suc, ◌+◌, ◌-◌, ◌*◌, ◌/◌, ◌%◌, ◌^◌, Bool, true, false, List, [], ◌∷◌, ◌||◌, ◌&&◌, ltb,
  leb, Result, ok, err, if◌then◌else◌,
}
use mailx.Base.Int.{ℤ, pos, negsuc, pos_part, neg_part, ◌+ℤ◌, sub_ℕ, ltb_ℤ, is_nonpos, is_pos}
use mailx.Retry.Policy.{RetryError, invalid_attempt, invalid_backoff}

pub record BackoffPolicy : Type 0 where
  pub schedule : List ℤ
  pub base : ℤ
  pub max : ℤ
  pub jitter_percent : ℤ

abbrev pub second : ℕ
second = 1_000_000_000

abbrev pub default_backoff_policy : BackoffPolicy
default_backoff_policy = record {
  schedule = pos (5 * second) ∷ pos (300 * second) ∷ pos (1800 * second) ∷ pos (7200 * second) ∷ [];
  base = pos 0;
  max = pos 0;
  jitter_percent = pos 0;
}

-- `Schedule[idx]`, the last entry from the length on.
unfoldable pub entry_at : ℤ → List ℤ → ℕ → ℤ
entry_at d [] i = d
entry_at d (e ∷ es) zero = d
entry_at d (e ∷ es) (suc i) = entry_at e es i

unfoldable pub positive_entry : ℤ → Result RetryError ℤ
positive_entry d = if is_nonpos d then err invalid_backoff else ok d

-- The loop from the current delay, with the rounds left. It returns `max` before a doubling that
-- would pass it.
unfoldable pub doubled : ℕ → ℕ → ℕ → ℕ
doubled zero max delay = delay
doubled (suc rounds) max delay =
    let rest = doubled rounds max (delay * 2) in if ltb (max / 2) delay then max else rest

-- Base and Max are positive here.
unfoldable pub exponential : ℕ → ℕ → ℕ → ℕ
unfolding doubled
exponential base max attempt = if leb max base then max else doubled (attempt - 1) max base

unfoldable pub delay_at : BackoffPolicy → ℕ → List ℤ → Result RetryError ℤ
unfolding entry_at positive_entry exponential
delay_at p attempt (d ∷ ds) = positive_entry (entry_at d ds (attempt - 1))
delay_at p attempt [] =
    if is_nonpos p.base || is_nonpos p.max
    then err invalid_backoff
    else ok (pos (exponential (pos_part p.base) (pos_part p.max) attempt))

-- `Delay`
unfoldable pub delay : BackoffPolicy → ℤ → Result RetryError ℤ
unfolding delay_at
delay p attempt =
    if is_nonpos attempt then err invalid_attempt else delay_at p (pos_part attempt) p.schedule

-- Go's int64: the integer that a product stands for after it wraps.
unfoldable pub i64 : ℤ → ℤ
i64 z =
    let bits = (pos_part z + (2 ^ 64 - neg_part z % 2 ^ 64)) % 2 ^ 64 in
    if ltb bits (2 ^ 63) then pos bits else negsuc (2 ^ 64 - bits - 1)

-- Division by a positive number, towards 0.
unfoldable pub div_ℤ : ℤ → ℕ → ℤ
div_ℤ (pos n) k = pos (n / k)
div_ℤ (negsuc n) k = sub_ℕ 0 (suc n / k)

-- hash/fnv's New64a over the eight bytes of the seed, lowest first.
unfoldable pub fnv : ℕ → ℕ → ℕ → ℕ
fnv zero seed h = h
fnv (suc n) seed h = fnv n (seed / 256) (bit_xor h (seed % 256) * 1099511628211 % 2 ^ 64)

-- `uint64(seed)`
abbrev pub u64_of : ℤ → ℕ
u64_of z = (pos_part z + (2 ^ 64 - neg_part z % 2 ^ 64)) % 2 ^ 64

unfoldable pub seed_hash : ℤ → ℕ
unfolding fnv
seed_hash seed = fnv 8 (u64_of seed) 14695981039346656037

-- `int64(delay)/100*int64(pct)*u/1000`, with u = h % 2001 - 1000.
unfoldable pub spread : ℕ → ℕ → ℕ → ℤ
unfolding i64 div_ℤ
spread delay pct h =
    let span = delay / 100 * pct in
    let r = h % 2001 in div_ℤ (i64 (sub_ℕ (span * r) (span * 1000))) 1000

-- At most Max, if there is one, and at least a second.
unfoldable pub clamp : ℤ → ℤ → ℤ
clamp max out =
    let capped = if is_pos max && ltb_ℤ max out then max else out in
    if ltb_ℤ capped (pos second) then pos second else capped

unfoldable pub jitter_with : ℤ → ℕ → ℕ → ℕ → ℤ
unfolding spread clamp ◌+ℤ◌ i64
jitter_with max pct delay h =
    clamp max (i64 (pos delay +ℤ spread delay (if ltb 50 pct then 50 else pct) h))

-- `Jitter`
unfoldable pub jitter : BackoffPolicy → ℤ → ℤ → ℤ
unfolding jitter_with seed_hash
jitter p delay seed =
    if is_nonpos p.jitter_percent || is_nonpos delay
    then delay
    else jitter_with p.max (pos_part p.jitter_percent) (pos_part delay) (seed_hash seed)

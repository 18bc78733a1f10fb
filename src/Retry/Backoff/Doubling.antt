-- ===== src/Retry/Backoff/Doubling.antt =====
-- internal/retry/backoff.go: the exponential delay in closed form.
use mailx.Base.{
  ℕ, suc, zero, ◌*◌, ◌^◌, ◌/◌, ◌≤◌, ◌≡◌, [], ltb, ok, arith, Bool-cases, inl, inr, if◌then◌else◌,
}
use mailx.Base.Int.{pos}
use mailx.Retry.Backoff.{BackoffPolicy, doubled, exponential, delay_at, delay}

-- `n`, but `max` where it is larger.
abbrev pub cap : ℕ → ℕ → ℕ
cap max n = if ltb max n then max else n

pow_positive : (r : ℕ) → 1 ≤ 2 ^ r
pow_positive zero = omega arith
pow_positive (suc r) = omega (arith, pow_positive r)

mul_mono : (a b c : ℕ) → b ≤ c → a * b ≤ a * c
mul_mono a b c h = grind arith

pow_step : (r d : ℕ) → d * 2 ^ suc r ≡ d * 2 * 2 ^ r
pow_step r d = grind arith

doubled_lem : (r max d : ℕ) → d ≤ max → doubled r max d ≡ cap max (d * 2 ^ r)
unfolding doubled
doubled_lem zero max d h = ground arith
doubled_lem (suc r) max d h = elim (Bool-cases (ltb (max / 2) d)) [
  | inl far ↦ ground (arith, far, pow_step r d, mul_mono (d * 2) 1 (2 ^ r) (pow_positive r))
  | inr near ↦ simp (near, pow_step r d) (doubled_lem r max (d * 2) (ground arith))
]

exponential_lem : (base max n : ℕ) → exponential base max (suc n) ≡ cap max (base * 2 ^ n)
unfolding exponential
exponential_lem base max n =
    ground (arith, doubled_lem n max base, mul_mono base 1 (2 ^ n) (pow_positive n))

-- With no explicit schedule, the delay of an attempt is Base doubled once per attempt before it,
-- capped at Max; a positive Base, Max and attempt are never refused.
pub delay_doubles :
    (p : BackoffPolicy) (base max n : ℕ)
    → p.schedule ≡ []
    → p.base ≡ pos (suc base)
    → p.max ≡ pos (suc max)
    → delay p (pos (suc n)) ≡ ok (pos (cap (suc max) (suc base * 2 ^ n)))
unfolding delay delay_at
delay_doubles p base max n s b m =
    simp (s, b, m) (ground (arith, exponential_lem (suc base) (suc max) n))

-- ===== src/Smtp/Server/Reader/Fuel.antt =====
-- internal/smtp/server.go: the loop of `readData` ends, and both readers read on.
use mailx.Base.{
  ℕ, zero, suc, ◌+◌, ◌≤◌, ◌<◌, ◌≡◌, ◌≢◌, refl, true, false, [], ◌∷◌, ◌&&◌, ltb, length, arith,
  if_cases, ◌==◌, inl, inr, ◌⊎◌,
}
use mailx.Base.Text.{Text}
use mailx.Smtp.Server.Reader.{
  Slice, whole, full, lost, after_byte, read_slice, is_terminator, Reading, take_fragment, DataRead,
  spent, read_data_from, read_data, first_reading, read, failed, CommandLine, got, bad_framing,
  read_command, is_framed,
}

-- Something was read.
abbrev IsShorter : Slice → Text → Type 0
IsShorter (whole f rest) s = length rest < length s
IsShorter (full f rest) s = length rest < length s
IsShorter lost s = Unit

-- No more is left than there was.
abbrev IsRest : Slice → Text → Type 0
IsRest (whole f rest) s = length rest ≤ length s
IsRest (full f rest) s = length rest ≤ length s
IsRest lost s = Unit

after_byte-IsShorter :
    (c : ℕ) (x : Slice) (s : Text) → IsRest x s → IsShorter (after_byte c x) (c ∷ s)
after_byte-IsShorter c (whole f rest) s h = omega (arith, h)
after_byte-IsShorter c (full f rest) s h = omega (arith, h)
after_byte-IsShorter c lost s h = tt

IsShorter-IsRest : (x : Slice) (s : Text) → IsShorter x s → IsRest x s
IsShorter-IsRest (whole f rest) s h = omega (arith, h)
IsShorter-IsRest (full f rest) s h = omega (arith, h)
IsShorter-IsRest lost s h = tt

next-IsShorter :
    (size : ℕ) (s : Text)
    → ((t : Text) → IsRest (read_slice size t) t)
    → IsShorter (read_slice (suc size) s) s
unfolding read_slice
next-IsShorter size [] more = tt
next-IsShorter size (c ∷ s) more =
    if_cases (λ x. IsShorter x (c ∷ s)) (c == 10) (λ _. omega arith)
      (λ _. after_byte-IsShorter c (read_slice size s) s (more s))

read_slice-IsRest : (size : ℕ) (s : Text) → IsRest (read_slice size s) s
unfolding read_slice
read_slice-IsRest zero s = omega arith
read_slice-IsRest (suc size) s =
    IsShorter-IsRest (read_slice (suc size) s) s (next-IsShorter size s (read_slice-IsRest size))

read_slice-IsShorter : (size : ℕ) (s : Text) → IsShorter (read_slice (suc size) s) s
read_slice-IsShorter size s = next-IsShorter size s (read_slice-IsRest size)

-- What a slice is, with the equation.
pub Slice-cases :
    (x : Slice)
    → (x ≡ lost)
      ⊎ (((f : Text) × (rest : Text) × (x ≡ whole f rest))
          ⊎ ((f : Text) × (rest : Text) × (x ≡ full f rest)))
Slice-cases lost = inl refl
Slice-cases (whole f rest) = inr (inl (f, rest, refl))
Slice-cases (full f rest) = inr (inr (f, rest, refl))

-- Reading message data has ended, and no more is left than there was.
abbrev pub IsEnd : DataRead → Text → Type 0
IsEnd (read result rest) s = length rest ≤ length s
IsEnd failed s = Unit
IsEnd spent s = ⊥

IsEnd-le : (x : DataRead) (r s : Text) → length r ≤ length s → IsEnd x r → IsEnd x s
IsEnd-le (read result rest) r s h e = omega (arith, h, e)
IsEnd-le failed r s h e = tt
IsEnd-le spent r s h e = absurd e

enough :
    (fuel limit max : ℕ) (r : Reading) (s : Text)
    → length s < fuel
    → IsEnd (read_data_from fuel (suc limit) max r s) s
unfolding read_data_from
enough zero limit max r s h = absurd (omega (arith, h))
enough (suc fuel) limit max r s h = elim (Slice-cases (read_slice (suc limit) s)) [
  | inl is ↦ rw (is, read_data_from) tt
  | inr (inl (f, rest, is)) ↦
      let less : length rest < length s = rw is at (read_slice-IsShorter limit s) in
      let r' = take_fragment max true f r in
      rw (is, read_data_from)
        (if_cases (λ x. IsEnd x s) (r.at_line_start && is_terminator f) (λ _. omega (arith, less))
          (λ _.
            IsEnd-le (read_data_from fuel (suc limit) max r' rest) rest s (omega (arith, less))
              (enough fuel limit max r' rest (omega (arith, h, less)))))
  | inr (inr (f, rest, is)) ↦
      let less : length rest < length s = rw is at (read_slice-IsShorter limit s) in
      let r' = take_fragment max false f r in
      rw (is, read_data_from)
        (IsEnd-le (read_data_from fuel (suc limit) max r' rest) rest s (omega (arith, less))
          (enough fuel limit max r' rest (omega (arith, h, less))))
]

pub read_data-IsEnd : (limit max : ℕ) (s : Text) → 0 < limit → IsEnd (read_data limit max s) s
unfolding read_data
read_data-IsEnd zero max s h = absurd (omega (arith, h))
read_data-IsEnd (suc limit) max s h = enough (length s + 1) limit max first_reading s (omega arith)

ne-spent : (x : DataRead) (s : Text) → IsEnd x s → x ≢ spent
ne-spent (read result rest) s e = ground arith
ne-spent failed s e = ground arith
ne-spent spent s e = absurd e

-- With a buffer of one byte or more, reading message data ends, whatever the peer sends: the
-- rounds that are allowed are never used up.
pub read_data-ends : (limit max : ℕ) (s : Text) → read_data (suc limit) max s ≢ spent
read_data-ends limit max s =
    ne-spent (read_data (suc limit) max s) s (read_data-IsEnd (suc limit) max s (omega arith))

-- What `readCommand` leaves.
abbrev pub IsConsumed : CommandLine → Text → Type 0
IsConsumed (got line rest) s = length rest < length s
IsConsumed (bad_framing rest) s = length rest < length s
IsConsumed _ s = Unit

pub read_command-IsConsumed :
    (limit : ℕ) (s : Text) → 0 < limit → IsConsumed (read_command limit s) s
unfolding read_command
read_command-IsConsumed zero s h = absurd (omega (arith, h))
read_command-IsConsumed (suc limit) s h = elim (Slice-cases (read_slice (suc limit) s)) [
  | inl is ↦ rw (is, read_command) tt
  | inr (inl (f, rest, is)) ↦
      let less : length rest < length s = rw is at (read_slice-IsShorter limit s) in
      rw (is, read_command)
        (if_cases (λ x. IsConsumed x s) (ltb (suc limit) (length f)) (λ _. tt)
          (λ _. if_cases (λ x. IsConsumed x s) (is_framed f) (λ _. less) (λ _. less)))
  | inr (inr (f, rest, is)) ↦ rw (is, read_command) tt
]

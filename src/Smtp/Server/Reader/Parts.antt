-- ===== src/Smtp/Server/Reader/Parts.antt =====
-- internal/smtp/server.go: what the readers leave is the end of what there was.
use mathlib.Core.List.{append_assoc}
use mailx.Base.{
  ℕ, ◌+◌, true, false, zero, suc, ◌≡◌, refl, ap, ◌∙◌, sym, [], ◌∷◌, ◌++◌, ◌&&◌, ◌==◌, ltb, length,
  arith, if_cases, inl, inr, if◌then◌else◌,
}
use mailx.Base.Text.{Text}
use mailx.Smtp.Server.Reader.{
  Slice, whole, full, lost, after_byte, read_slice, is_terminator, Reading, take_fragment,
  DataReadResult, read_data_from, read_data, first_reading, read, failed, result_of, CommandLine,
  got, bad_framing, read_command, is_framed, framed,
}
use mailx.Smtp.Server.Reader.Fuel.{Slice-cases}

-- A text ends with this one.
abbrev pub IsPart : Text → Text → Type 0
IsPart rest s = (before : Text) × (s ≡ before ++ rest)

pub IsPart-trans : (r s t : Text) → IsPart r s → IsPart s t → IsPart r t
IsPart-trans r s t (before, is) (more, too) =
    (more ++ before, too ∙ (ap (λ x. more ++ x) is ∙ sym (append_assoc more before r)))

abbrev Splits : Slice → Text → Type 0
Splits (whole f rest) s = s ≡ f ++ rest
Splits (full f rest) s = s ≡ f ++ rest
Splits lost s = Unit

after_byte-Splits : (c : ℕ) (x : Slice) (s : Text) → Splits x s → Splits (after_byte c x) (c ∷ s)
after_byte-Splits c (whole f rest) s h = ap (λ t. c ∷ t) h
after_byte-Splits c (full f rest) s h = ap (λ t. c ∷ t) h
after_byte-Splits c lost s h = tt

read_slice-Splits : (size : ℕ) (s : Text) → Splits (read_slice size s) s
unfolding read_slice
read_slice-Splits zero s = refl
read_slice-Splits (suc size) [] = tt
read_slice-Splits (suc size) (c ∷ s) =
    if_cases (λ x. Splits x (c ∷ s)) (c == 10) (λ _. refl)
      (λ _. after_byte-Splits c (read_slice size s) s (read_slice-Splits size s))

loop_part :
    (fuel limit max : ℕ) (r : Reading) (s : Text) (result : DataReadResult) (rest : Text)
    → read_data_from fuel limit max r s ≡ read result rest
    → IsPart rest s
unfolding read_data_from
loop_part zero limit max r s result rest h = ground arith
loop_part (suc fuel) limit max r s result rest h = elim (Slice-cases (read_slice limit s)) [
  | inl is ↦ let h' : failed ≡ read result rest = rw (is, read_data_from) at h in absurd (cc)
  | inr (inl (f, more, is)) ↦
      let r' = take_fragment max true f r in
      let split : s ≡ f ++ more = rw is at (read_slice-Splits limit s) in
      let h' : (if r.at_line_start && is_terminator f
            then read (result_of r) more
            else read_data_from fuel limit max r' more)
          ≡ read result rest =
        rw (is, read_data_from) at h in
      if_cases (λ x. x ≡ read result rest → IsPart rest s) (r.at_line_start && is_terminator f)
        (λ _ e. let same : more ≡ rest = cc in (f, split ∙ ap (λ t. f ++ t) same))
        (λ _ e.
          IsPart-trans rest more s (loop_part fuel limit max r' more result rest e) (f, split))
        h'
  | inr (inr (f, more, is)) ↦
      let r' = take_fragment max false f r in
      let split : s ≡ f ++ more = rw is at (read_slice-Splits limit s) in
      IsPart-trans rest more s
        (loop_part fuel limit max r' more result rest (rw (is, read_data_from) at h)) (f, split)
]

-- What is left after message data is the end of what there was before it.
pub read_data_part :
    (limit max : ℕ) (s : Text) (result : DataReadResult) (rest : Text)
    → read_data limit max s ≡ read result rest
    → IsPart rest s
unfolding read_data
read_data_part limit max s result rest h =
    loop_part (length s + 1) limit max first_reading s result rest h

-- What `readCommand` leaves.
abbrev pub Leaves : CommandLine → Text → Type 0
Leaves (got line rest) s = IsPart rest s
Leaves (bad_framing rest) s = IsPart rest s
Leaves _ s = Unit

pub read_command-Leaves : (limit : ℕ) (s : Text) → Leaves (read_command limit s) s
unfolding read_command framed
read_command-Leaves limit s = elim (Slice-cases (read_slice limit s)) [
  | inl is ↦ rw (is, read_command) tt
  | inr (inl (f, rest, is)) ↦
      let split : s ≡ f ++ rest = rw is at (read_slice-Splits limit s) in
      rw (is, read_command)
        (if_cases (λ x. Leaves x s) (ltb limit (length f)) (λ _. tt)
          (λ _. if_cases (λ x. Leaves x s) (is_framed f) (λ _. (f, split)) (λ _. (f, split))))
  | inr (inr (f, rest, is)) ↦ rw (is, read_command) tt
]

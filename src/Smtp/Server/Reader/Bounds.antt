-- ===== src/Smtp/Server/Reader/Bounds.antt =====
-- internal/smtp/server.go: how much of a message `readData` holds.
use mailx.Base.{
  ℕ, zero, suc, ◌+◌, ◌-◌, ◌≤◌, ◌≡◌, refl, Bool, true, false, [], ◌∷◌, ◌++◌, ◌&&◌, ◌||◌, not, ltb,
  if◌then◌else◌, length, length-append, arith, if_cases, inl, inr, ap,
}
use mailx.Base.Text.{Text}
use mailx.Smtp.Server.Reader.{
  read_slice, is_framed, drop_crlf, unstuffed, is_terminator, Reading, exceeds, take_line,
  take_fragment, DataReadResult, read, failed, read_data_from, read_data, first_reading, result_of,
}
use mailx.Smtp.Server.Reader.Fuel.{Slice-cases}

-- The content is as long as it is counted, and within the limit; the line that is being read is at
-- most one byte longer than that.
pub record IsBounded (max : ℕ) (r : Reading) : Type 0 where
  pub counted : length r.body ≡ r.size
  pub body : r.size ≤ max
  pub line : length r.line ≤ max + 1

take_line-IsBounded :
    (max : ℕ) (line : Text) (r : Reading) → IsBounded max r → IsBounded max (take_line max line r)
unfolding take_line
take_line-IsBounded max line r b =
    let content = unstuffed (drop_crlf line) in
    if_cases (IsBounded max) (not (is_framed line))
      (λ _. record { counted = b.counted; body = b.body; line = omega arith })
      (λ _.
        if_cases (IsBounded max) (ltb (max - r.size) (length content + 2))
          (λ _. record { counted = b.counted; body = b.body; line = omega arith })
          (λ fits. record {
            counted = omega (
              arith,
              b.counted,
              length-append r.body (content ++ 13 ∷ 10 ∷ []),
              length-append content (13 ∷ 10 ∷ []),
            );
            body = ground (arith, b.body, fits);
            line = omega arith;
          }))

take_fragment-IsBounded :
    (max : ℕ) (complete : Bool) (fragment : Text) (r : Reading)
    → IsBounded max r
    → IsBounded max (take_fragment max complete fragment r)
unfolding take_fragment
take_fragment-IsBounded max complete fragment r b =
    if_cases (IsBounded max) (r.oversized || r.malformed)
      (λ _. record { counted = b.counted; body = b.body; line = b.line })
      (λ _.
        if_cases (IsBounded max) (exceeds (max - r.size) (length r.line) (length fragment))
          (λ _. record { counted = b.counted; body = b.body; line = omega arith })
          (λ fits.
            if_cases (IsBounded max) complete
              (λ _. take_line-IsBounded max (r.line ++ fragment) r b)
              (λ _. record {
                counted = b.counted;
                body = b.body;
                line = ground (arith, fits, length-append r.line fragment);
              })))

loop_bounded :
    (fuel limit max : ℕ) (r : Reading) (s : Text) (result : DataReadResult) (rest : Text)
    → IsBounded max r
    → read_data_from fuel limit max r s ≡ read result rest
    → length result.raw ≤ max
unfolding read_data_from
loop_bounded zero limit max r s result rest b h = ground arith
loop_bounded (suc fuel) limit max r s result rest b h = elim (Slice-cases (read_slice limit s)) [
  | inl is ↦ let h' : failed ≡ read result rest = rw (is, read_data_from) at h in absurd (cc)
  | inr (inl (f, more, is)) ↦
      let r' = take_fragment max true f r in
      let h' : (if r.at_line_start && is_terminator f
            then read (result_of r) more
            else read_data_from fuel limit max r' more)
          ≡ read result rest =
        rw (is, read_data_from) at h in
      if_cases (λ x. x ≡ read result rest → length result.raw ≤ max)
        (r.at_line_start && is_terminator f)
        (λ _ e.
          let same_raw : r.body ≡ result.raw = cc in
          omega (arith, ap length same_raw, b.counted, b.body))
        (λ _ e.
          loop_bounded fuel limit max r' more result rest (take_fragment-IsBounded max true f r b)
            e)
        h'
  | inr (inr (f, more, is)) ↦
      let r' = take_fragment max false f r in
      loop_bounded fuel limit max r' more result rest (take_fragment-IsBounded max false f r b)
        (rw (is, read_data_from) at h)
]

-- Message data that has been read is no longer than the limit, whatever the peer sends and
-- whether or not the message is then refused.
pub read_data_bounded :
    (limit max : ℕ) (s : Text) (result : DataReadResult) (rest : Text)
    → read_data limit max s ≡ read result rest
    → length result.raw ≤ max
unfolding read_data
read_data_bounded limit max s result rest h =
    loop_bounded (length s + 1) limit max first_reading s result rest
      (record { counted = refl; body = omega arith; line = omega arith }) h

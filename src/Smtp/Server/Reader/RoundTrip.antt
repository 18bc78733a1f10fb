-- ===== src/Smtp/Server/Reader/RoundTrip.antt =====
-- internal/smtp: what the client sends as message data is what the server reads.
use mathlib.Core.List.{append_assoc, append-nil}
use mailx.Base.{
  ℕ, zero, suc, ◌+◌, ◌-◌, ◌^◌, ◌≤◌, ◌<◌, ◌≡◌, refl, sym, ap, subst, ◌∙◌, true, false, List, [], ◌∷◌,
  ◌++◌, length, length-append, map, arith, if_cases, ◌==◌, ltb, All, All-append, All-imp, any,
}
use mailx.Base.Text.{Text}
use mailx.Smtp.Data.{terminator, serialize_for_data, normalized}
use mailx.Smtp.Data.Lines.{
  ends_crlf-end, normalized-lines, IsLine, unlines, lines, lines-IsLine, stuffed,
  serialize_for_data-lines,
}
use mailx.Smtp.Server.Reader.{
  is_terminator, Reading, take_line, DataRead, read, read_data_from, read_data, first_reading,
  is_framed, drop_crlf, unstuffed,
}
use mailx.Smtp.Server.Reader.Lines.{NoLf, IsOpen, all_pass}

pub drop_crlf-append : (w : Text) → drop_crlf (w ++ 13 ∷ 10 ∷ []) ≡ w
unfolding drop_crlf
drop_crlf-append [] = refl
drop_crlf-append (c ∷ []) = refl
drop_crlf-append (c ∷ d ∷ []) = refl
drop_crlf-append (c ∷ d ∷ e ∷ w) = ap (λ t. c ∷ t) (drop_crlf-append (d ∷ e ∷ w))

no_cr : (w : Text) → IsLine w → any (λ c. c == 13) w ≡ false
no_cr [] a = refl
no_cr (c ∷ w) a = ground (arith, no_cr w a.1, a.0)

stuffed-IsLine : (l : Text) → IsLine l → IsLine (stuffed l)
unfolding stuffed
stuffed-IsLine [] a = tt
stuffed-IsLine (c ∷ l) a =
    if_cases IsLine (c == b'.') (λ _. ((ground arith, ground arith), a)) (λ _. a)

unstuffed-stuffed : (l : Text) → unstuffed (stuffed l) ≡ l
unfolding stuffed unstuffed
unstuffed-stuffed [] = refl
unstuffed-stuffed (c ∷ l) = ground arith

length-stuffed : (l : Text) → length (stuffed l) ≤ length l + 1
unfolding stuffed
length-stuffed [] = omega arith
length-stuffed (c ∷ l) = ground arith

stuffed_no_end : (l : Text) → is_terminator (stuffed l ++ 13 ∷ 10 ∷ []) ≡ false
unfolding stuffed is_terminator
stuffed_no_end [] = refl
stuffed_no_end (c ∷ []) = ground arith
stuffed_no_end (c ∷ d ∷ []) = ground arith
stuffed_no_end (c ∷ d ∷ e ∷ l) = ground arith

-- Between lines.
abbrev between : Text → ℕ → Reading
between body size = record {
  body = body;
  line = [];
  size = size;
  oversized = false;
  malformed = false;
  at_line_start = true;
}

take_stuffed :
    (max : ℕ) (body : Text) (size : ℕ) (l : Text)
    → IsLine l
    → size + (length l + 2) ≤ max
    → take_line max (stuffed l ++ 13 ∷ 10 ∷ []) (between body size)
      ≡ between (body ++ (l ++ 13 ∷ 10 ∷ [])) (size + (length l + 2))
unfolding take_line is_framed
take_stuffed max body size l a h =
    let small : ltb (max - size) (length l + 2) ≡ false = ground (arith, h) in
    simp
      (
        drop_crlf-append (stuffed l),
        ends_crlf-end (stuffed l),
        no_cr (stuffed l) (stuffed-IsLine l a),
        unstuffed-stuffed l,
        small,
      )
      refl

pub crlf-append : (w : Text) → (w ++ 13 ∷ []) ++ 10 ∷ [] ≡ w ++ 13 ∷ 10 ∷ []
crlf-append w = append_assoc w (13 ∷ []) (10 ∷ [])

line-IsOpen :
    (max : ℕ) (body : Text) (size : ℕ) (l : Text)
    → size + (length l + 2) ≤ max
    → IsOpen max (between body size) (stuffed l ++ 13 ∷ [])
line-IsOpen max body size l h = record {
  fine = refl;
  fits = omega (arith, h, length-append (stuffed l) (13 ∷ []), length-stuffed l);
  no_end = rw (crlf-append (stuffed l)) (stuffed_no_end l);
}

line-NoLf : (l : Text) → IsLine l → NoLf (stuffed l ++ 13 ∷ [])
line-NoLf l a =
    All-append _ (stuffed l) (13 ∷ []) (All-imp _ _ (λ c h. h.1) (stuffed l) (stuffed-IsLine l a))
      (ground arith, tt)

wire_line :
    (l ws rest : Text)
    → (stuffed l ++ 13 ∷ 10 ∷ ws) ++ rest ≡ (stuffed l ++ 13 ∷ []) ++ 10 ∷ (ws ++ rest)
wire_line l ws rest =
    append_assoc (stuffed l) (13 ∷ 10 ∷ ws) rest
    ∙ sym (append_assoc (stuffed l) (13 ∷ []) (10 ∷ (ws ++ rest)))

body_line : (body l ls : Text) → (body ++ (l ++ 13 ∷ 10 ∷ [])) ++ ls ≡ body ++ (l ++ 13 ∷ 10 ∷ ls)
body_line body l ls =
    append_assoc body (l ++ 13 ∷ 10 ∷ []) ls
    ∙ ap (λ t. body ++ t) (append_assoc l (13 ∷ 10 ∷ []) ls)

abbrev read_of : Text → Text → DataRead
read_of body rest = read (record { raw = body; oversized = false; malformed = false }) rest

-- The lines that are left, and the end.
read_lines :
    (ls : List Text) (fuel limit max : ℕ) (body : Text) (size : ℕ) (rest : Text)
    → max < 2 ^ 63 - 1
    → All IsLine ls
    → size + length (unlines ls) ≤ max
    → length (unlines (map stuffed ls) ++ (terminator ++ rest)) < fuel
    → read_data_from fuel
        (suc (suc (suc limit)))
        max
        (between body size)
        (unlines (map stuffed ls) ++ (terminator ++ rest))
      ≡ read_of (body ++ unlines ls) rest
unfolding read_data_from unlines
read_lines [] zero limit max body size rest small a h fuel_left = absurd (omega (arith, fuel_left))
read_lines [] (suc fuel) limit max body size rest small a h fuel_left = simp (append-nil body) refl
read_lines (l ∷ ls) fuel limit max body size rest small a h fuel_left =
    let total = length-append l (13 ∷ 10 ∷ unlines ls) in
    let u = stuffed l ++ 13 ∷ [] in
    let more = unlines (map stuffed ls) ++ (terminator ++ rest) in
    let text = wire_line l (unlines (map stuffed ls)) (terminator ++ rest) in
    let (f, left, on) =
      all_pass fuel (suc (suc limit)) max small (between body size) u more (line-NoLf l a.0)
        (line-IsOpen max body size l (omega (arith, h, total)))
        (subst (λ t. length t < fuel) text fuel_left) in
    ap (λ t. read_data_from fuel (suc (suc (suc limit))) max (between body size) t) text
    ∙ on
    ∙ ap (λ x. read_data_from f (suc (suc (suc limit))) max x more)
        (ap (λ t. take_line max t (between body size)) (crlf-append (stuffed l))
          ∙ take_stuffed max body size l a.0 (omega (arith, h, total)))
    ∙ read_lines ls f limit max (body ++ (l ++ 13 ∷ 10 ∷ [])) (size + (length l + 2)) rest small a.1
        (omega (arith, h, total)) left
    ∙ ap (λ t. read_of t rest) (body_line body l (unlines ls))

-- A message that fits the size limit when its line ends are made CRLF is read by the server as
-- exactly that, whatever it holds: no line of it ends the data early or is changed, and what
-- follows on the connection is left. The limit is below that of int64, and the buffer of the
-- server holds three bytes at least.
pub read_data-serialize_for_data :
    (raw rest : Text) (limit max : ℕ)
    → max < 2 ^ 63 - 1
    → length (normalized raw) ≤ max
    → read_data (suc (suc (suc limit))) max (serialize_for_data raw ++ rest)
      ≡ read (record { raw = normalized raw; oversized = false; malformed = false }) rest
unfolding read_data
read_data-serialize_for_data raw rest limit max small h =
    let text : serialize_for_data raw ++ rest
        ≡ unlines (map stuffed (lines raw)) ++ (terminator ++ rest) =
      ap (λ t. t ++ rest) (serialize_for_data-lines raw)
      ∙ append_assoc (unlines (map stuffed (lines raw))) terminator rest in
    ap (λ t. read_data_from (length t + 1) (suc (suc (suc limit))) max first_reading t) text
    ∙ read_lines (lines raw)
        (length (unlines (map stuffed (lines raw)) ++ (terminator ++ rest)) + 1) limit max [] 0 rest
        small (lines-IsLine raw) (omega (arith, h, ap length (normalized-lines raw))) (omega arith)
    ∙ ap (λ t. read_of t rest) (sym (normalized-lines raw))

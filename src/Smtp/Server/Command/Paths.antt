-- ===== src/Smtp/Server/Command/Paths.antt =====
-- internal/smtp: a path that the server takes passes the client's check of an envelope path.
use mailx.Base.{
  ℕ, zero, suc, ◌+◌, ◌-◌, ◌≤◌, ◌<◌, ◌≡◌, Bool, true, false, some, [], ◌∷◌, ◌++◌, ◌==◌, length, take,
  drop, arith, any, length-append,
}
use mailx.Base.Text.{Text, equal_fold}
use mailx.Smtp.Validation.{ends_with, is_envelope_path}
use mailx.Smtp.Server.Command.{is_ascii_command_text, checked_path, parse_path_argument}

ends_with-drop :
    (d n : ℕ) (s : Text) → n < length s → ends_with d s ≡ true → ends_with d (drop n s) ≡ true
unfolding ends_with
ends_with-drop d zero s h e = e
ends_with-drop d (suc n) [] h e = absurd (omega (arith, h))
ends_with-drop d (suc n) (c ∷ []) h e = absurd (omega (arith, h))
ends_with-drop d (suc n) (c ∷ x ∷ s) h e = ends_with-drop d n (x ∷ s) (omega (arith, h)) e

-- What follows the keyword and its colon starts with a bracket.
drop-bracket :
    (k a : Text)
    → length k + 2 ≤ length a
    → equal_fold (take (length (k ++ b':' ∷ b'<' ∷ [])) a) (k ++ b':' ∷ b'<' ∷ []) ≡ true
    → (s : Text) × (drop (suc (length k)) a ≡ b'<' ∷ s)
unfolding equal_fold
drop-bracket [] [] h e = absurd (omega (arith, h))
drop-bracket [] (x ∷ []) h e = absurd (omega (arith, h))
drop-bracket [] (x ∷ y ∷ s) h e = (s, ground arith)
drop-bracket (c ∷ k) [] h e = absurd (omega (arith, h))
drop-bracket (c ∷ k) (x ∷ a) h e = drop-bracket k a (omega (arith, h)) (ground arith)

no_break :
    (s : Text)
    → ends_with b'>' s ≡ true
    → is_ascii_command_text (take (length s - 1) s) ≡ true
    → any (λ c. any (λ d. c == d) (13 ∷ 10 ∷ 0 ∷ [])) s ≡ false
unfolding ends_with is_ascii_command_text
no_break [] e h = ground arith
no_break (c ∷ []) e h = ground arith
no_break (c ∷ d ∷ s) e h =
    let less : suc (suc (length s)) - 1 ≡ suc (suc (length s) - 1) = omega arith in
    let h' : is_ascii_command_text (c ∷ take (suc (length s) - 1) (d ∷ s)) ≡ true = rw less at h in
    ground (arith, no_break (d ∷ s))

checked_path-is_envelope_path :
    (allow : Bool) (s p : Text)
    → ends_with b'>' (b'<' ∷ s) ≡ true
    → checked_path allow (b'<' ∷ s) ≡ some p
    → is_envelope_path allow p ≡ true
unfolding checked_path is_envelope_path
checked_path-is_envelope_path allow [] p e h = ground arith
checked_path-is_envelope_path allow (c ∷ []) p e h = ground arith
checked_path-is_envelope_path allow (c ∷ d ∷ s) p e h =
    let less : suc (suc (suc (length s))) - 2 ≡ suc (suc (length s)) - 1 = omega arith in
    let more : suc (suc (length s)) - 1 ≡ suc (length s) = omega arith in
    let clean = no_break (c ∷ d ∷ s) e in ground (arith, rw less at h, clean, more)

-- A path that `parsePathArgument` takes is a valid envelope path, and the null path only where it may be.
pub parse_path_argument-is_envelope_path :
    (k a : Text) (p : Text) (has allow : Bool)
    → parse_path_argument a has k allow ≡ some p
    → is_envelope_path allow p ≡ true
unfolding parse_path_argument
parse_path_argument-is_envelope_path k a p has allow h =
    let start = k ++ b':' ∷ b'<' ∷ [] in
    let path = drop (length start - 1) a in
    let size : length start ≡ length k + 2 = omega (arith, length-append k (b':' ∷ b'<' ∷ [])) in
    let long : length start + 1 ≤ length a = ground (arith, h) in
    let folded : equal_fold (take (length start) a) start ≡ true = ground (arith, h) in
    let closed : ends_with b'>' a ≡ true = ground (arith, h) in
    let checked : checked_path allow path ≡ some p = ground (arith, h) in
    let (s, is) = drop-bracket k a (omega (arith, size, long)) folded in
    let at : length start - 1 ≡ suc (length k) = omega (arith, size) in
    let is' : path ≡ b'<' ∷ s = rw at is in
    checked_path-is_envelope_path allow s p
      (rw is' at (ends_with-drop b'>' (length start - 1) a (omega (arith, long, size)) closed))
      (rw is' at checked)

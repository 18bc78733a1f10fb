-- ===== src/Smtp/Server/Command/Brackets.antt =====
-- internal/smtp/server.go: the path that a command names is what follows the first bracket of its line.
use mailx.Base.{
  ℕ, suc, ◌+◌, ◌-◌, ◌≤◌, ◌≡◌, refl, sym, ap, ◌∙◌, subst, Bool, true, false, some, [], ◌∷◌, ◌++◌,
  ◌||◌, ◌==◌, if◌then◌else◌, length, take, drop, arith, any, length-append, if_cases, Option-cases,
  inl, inr,
}
use mailx.Base.Text.{Text, is_empty, equal_fold, to_upper, cut}
use mailx.Smtp.Server.Command.{
  Command, command, split_command, bad_prefix, starts_with, checked_path, parse_path_argument,
  verb_of, is_known,
}
use mailx.Smtp.Server.Command.Words.{IsWord, known_verb-IsWord}

-- From the first bracket on.
abbrev pub from_bracket : Text → Text
from_bracket [] = []
from_bracket (c ∷ s) = if c == b'<' then c ∷ s else from_bracket s

abbrev pub NoBracket : Text → Type 0
NoBracket s = any (λ c. c == b'<') s ≡ false

from_bracket-append : (u t : Text) → NoBracket u → from_bracket (u ++ t) ≡ from_bracket t
from_bracket-append [] t h = refl
from_bracket-append (c ∷ u) t h =
    let other : (c == b'<') ≡ false = ground (arith, h) in
    rw other (from_bracket-append u t (ground (arith, h)))

cut-eq : (sep : ℕ) (s a b : Text) → cut sep s ≡ some (a, b) → s ≡ a ++ sep ∷ b
unfolding cut
cut-eq sep [] a b h = ground arith
cut-eq sep (c ∷ s) a b h = elim (Option-cases (cut sep s)) [
  | inl e ↦ ground (arith, e)
  | inr (p, e) ↦ ground (arith, e, cut-eq sep s p.0 p.1 e)
]

to_upper-NoBracket : (v : Text) → IsWord (to_upper v) → NoBracket v
unfolding to_upper
to_upper-NoBracket [] h = refl
to_upper-NoBracket (c ∷ v) h = ground (arith, h.0, to_upper-NoBracket v h.1)

fold-from_bracket :
    (k a : Text)
    → NoBracket k
    → IsWord k
    → length k + 2 ≤ length a
    → equal_fold (take (length (k ++ b':' ∷ b'<' ∷ [])) a) (k ++ b':' ∷ b'<' ∷ []) ≡ true
    → from_bracket a ≡ drop (suc (length k)) a
unfolding equal_fold
fold-from_bracket [] [] b w h e = absurd (omega (arith, h))
fold-from_bracket [] (x ∷ []) b w h e = absurd (omega (arith, h))
fold-from_bracket [] (x ∷ y ∷ s) b w h e = ground arith
fold-from_bracket (c ∷ k) [] b w h e = absurd (omega (arith, h))
fold-from_bracket (c ∷ k) (x ∷ a) b w h e =
    let other : (x == b'<') ≡ false = ground (arith, e, w.0) in
    rw other (fold-from_bracket k a (ground (arith, b)) w.1 (omega (arith, h)) (ground (arith, e)))

checked_path-eq : (allow : Bool) (s p : Text) → checked_path allow s ≡ some p → s ≡ p
unfolding checked_path
checked_path-eq allow s p h = ground (arith, h)

-- In an argument.
argument_path :
    (k a : Text) (p : Text) (has allow : Bool)
    → IsWord k
    → NoBracket k
    → parse_path_argument a has k allow ≡ some p
    → (has ≡ true) × (p ≡ from_bracket a)
unfolding parse_path_argument
argument_path k a p has allow w b h =
    let start = k ++ b':' ∷ b'<' ∷ [] in
    let path = drop (length start - 1) a in
    let size : length start ≡ length k + 2 = omega (arith, length-append k (b':' ∷ b'<' ∷ [])) in
    let long : length start + 1 ≤ length a = ground (arith, h) in
    let folded : equal_fold (take (length start) a) start ≡ true = ground (arith, h) in
    let checked : checked_path allow path ≡ some p = ground (arith, h) in
    let at : length start - 1 ≡ suc (length k) = omega (arith, size) in
    (
      ground (arith, h),
      sym (checked_path-eq allow path p checked)
          ∙ ap (λ n. drop n a) at
          ∙ sym (fold-from_bracket k a b w (omega (arith, long, size)) folded),
    )

-- The parts of a command that is valid and has an argument.
abbrev IsParted : Text → Command → Type 0
IsParted line cmd =
    cmd.is_valid ≡ true
    → cmd.has_argument ≡ true
    → (v : Text) × (line ≡ v ++ 32 ∷ cmd.argument) × (cmd.verb ≡ to_upper v)

split-IsParted : (line : Text) → IsParted line (split_command line (cut 32 line))
unfolding split_command
split-IsParted line = elim (Option-cases (cut 32 line)) [
  | inl e ↦ rw (e, split_command) (λ _ h. absurd (cc))
  | inr (p, e) ↦
      rw (e, split_command)
        (if_cases (IsParted line) (is_empty p.1 || starts_with 32 p.1) (λ _ h. absurd (cc))
          (λ _ _ _. (p.0, cut-eq 32 line p.0 p.1 e, refl)))
]

command-IsParted : (line : Text) → IsParted line (command line)
unfolding command
command-IsParted line =
    if_cases (IsParted line) (is_empty line || starts_with 32 line || starts_with 9 line)
      (λ _ h. absurd (cc))
      (λ _. elim (Option-cases (bad_prefix line)) [
        | inl e ↦ rw (e, command) (split-IsParted line)
        | inr (before, e) ↦ rw (e, command) (λ h. absurd (cc))
      ])

-- A path that a command names is what stands in its line from the first bracket on.
pub line_path :
    (line k p : Text) (allow : Bool)
    → (command line).is_valid ≡ true
    → is_known (verb_of (command line).verb) ≡ true
    → IsWord k
    → NoBracket k
    → parse_path_argument (command line).argument (command line).has_argument k allow ≡ some p
    → p ≡ from_bracket line
line_path line k p allow valid known w b h =
    let cmd = command line in
    let (has, is) = argument_path k cmd.argument p cmd.has_argument allow w b h in
    let (v, whole, verb) = command-IsParted line valid has in
    let word : IsWord (to_upper v) = subst IsWord verb (known_verb-IsWord cmd.verb known) in
    is
    ∙ sym (from_bracket-append (32 ∷ []) cmd.argument refl)
    ∙ sym (from_bracket-append v (32 ∷ cmd.argument) (to_upper-NoBracket v word))
    ∙ ap from_bracket (sym whole)

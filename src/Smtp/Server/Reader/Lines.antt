-- ===== src/Smtp/Server/Reader/Lines.antt =====
-- internal/smtp/server.go: a line is read whole, however the buffer cuts it.
use mathlib.Core.List.{append_assoc}
use mailx.Base.{
  ℕ, zero, suc, ◌+◌, ◌-◌, ◌^◌, ◌≤◌, ◌<◌, ◌≡◌, ◌≢◌, refl, sym, ap, subst, ◌∙◌, true, false, List, [],
  ◌∷◌, ◌++◌, ◌&&◌, ◌||◌, length, length-append, arith, if_cases, ◌==◌, All,
}
use mailx.Base.Text.{Text}
use mailx.Smtp.Server.Reader.{
  Slice, whole, full, after_byte, read_slice, is_terminator, Reading, take_fragment, take_line,
  exceeds, read_data_from,
}

-- No LF.
abbrev pub NoLf : Text → Type 0
NoLf u = All (λ c. c ≢ 10) u

-- A slice of a line is the rest of it, or a full buffer from its front.
data Sliced (size : ℕ) (u rest : Text) : Slice → Type 0 where
  at_end : Sliced size u rest (whole (u ++ 10 ∷ []) rest)
  inside :
      (a v : Text) → u ≡ a ++ v → length a ≡ size → Sliced size u rest (full a (v ++ 10 ∷ rest))

Sliced-more :
    (size c : ℕ) (u rest : Text) {x : Slice}
    → Sliced size u rest x
    → Sliced (suc size) (c ∷ u) rest (after_byte c x)
Sliced-more size c u rest at_end = at_end
Sliced-more size c u rest (inside a v is n) = inside (c ∷ a) v (ap (λ t. c ∷ t) is) (ap suc n)

read_slice-Sliced :
    (size : ℕ) (u rest : Text) → NoLf u → Sliced size u rest (read_slice size (u ++ 10 ∷ rest))
unfolding read_slice
read_slice-Sliced zero u rest a = inside [] u refl refl
read_slice-Sliced (suc size) [] rest a = at_end
read_slice-Sliced (suc size) (c ∷ u) rest a =
    if_cases (Sliced (suc size) (c ∷ u) rest) (c == 10) (λ lf. absurd (ground (arith, lf, a.0)))
      (λ _. Sliced-more size c u rest (read_slice-Sliced size u rest a.1))

-- Before the first byte of a line, or inside one.
pub record IsOpen (max : ℕ) (r : Reading) (u : Text) : Type 0 where
  pub fine : (r.oversized || r.malformed) ≡ false
  pub fits : length r.line + length u + r.size ≤ max
  pub no_end : (r.at_line_start && is_terminator (u ++ 10 ∷ [])) ≡ false

inside-IsOpen :
    (max : ℕ) (r : Reading) (u a v : Text)
    → u ≡ a ++ v
    → IsOpen max r u
    → IsOpen max (record r { line = r.line ++ a; at_line_start = false }) v
inside-IsOpen max r u a v is o = record {
  fine = o.fine;
  fits = omega (arith, o.fits, length-append r.line a, length-append a v, ap length is);
  no_end = refl;
}

exceeds_not :
    (remaining line fragment : ℕ)
    → remaining < 2 ^ 63 - 1
    → line + fragment ≤ remaining + 1
    → exceeds remaining line fragment ≡ false
unfolding exceeds
exceeds_not remaining line fragment small h = ground arith

take_whole :
    (max : ℕ) (r : Reading) (u : Text)
    → max < 2 ^ 63 - 1
    → IsOpen max r u
    → take_fragment max true (u ++ 10 ∷ []) r ≡ take_line max (r.line ++ (u ++ 10 ∷ [])) r
unfolding take_fragment
take_whole max r u small o =
    simp
      (
        o.fine,
        exceeds_not (max - r.size) (length r.line) (length (u ++ 10 ∷ [])) (omega (arith, small))
            (omega (arith, o.fits, length-append u (10 ∷ []))),
      )
      refl

take_inside :
    (max : ℕ) (r : Reading) (u a v : Text)
    → max < 2 ^ 63 - 1
    → u ≡ a ++ v
    → IsOpen max r u
    → take_fragment max false a r ≡ record r { line = r.line ++ a; at_line_start = false }
unfolding take_fragment
take_inside max r u a v small is o =
    simp
      (
        o.fine,
        exceeds_not (max - r.size) (length r.line) (length a) (omega (arith, small))
            (omega (arith, o.fits, length-append a v, ap length is)),
      )
      refl

-- From the middle of a line, the loop reads the line and goes on after it.
abbrev pub Passes : ℕ → ℕ → ℕ → Reading → Text → Text → Type 0
Passes fuel limit max r u rest =
    (f : ℕ) × (length rest < f)
    × (read_data_from fuel (suc limit) max r (u ++ 10 ∷ rest)
        ≡ read_data_from f (suc limit) max (take_line max (r.line ++ (u ++ 10 ∷ [])) r) rest)

-- The same for every line that is to be read with less fuel.
abbrev pub PassesAll : ℕ → ℕ → ℕ → Type 0
PassesAll fuel limit max =
    (r : Reading) (u rest : Text)
    → NoLf u
    → IsOpen max r u
    → length (u ++ 10 ∷ rest) < fuel
    → Passes fuel limit max r u rest

All-drop {ℓ κ} : {A : Type ℓ} (P : A → Type κ) (xs ys : List A) → All P (xs ++ ys) → All P ys
All-drop P [] ys a = a
All-drop P (x ∷ xs) ys a = All-drop P xs ys a.1

-- A complete line does not depend on how much of it was read before.
take_line_same :
    (max : ℕ) (line part : Text) (r : Reading)
    → take_line max line (record r { line = part; at_line_start = false }) ≡ take_line max line r
unfolding take_line
take_line_same max line part r = refl

slice-Passes :
    (fuel limit max : ℕ) (r : Reading) (u rest : Text) (x : Slice)
    → max < 2 ^ 63 - 1
    → PassesAll fuel limit max
    → NoLf u
    → IsOpen max r u
    → length (u ++ 10 ∷ rest) < suc fuel
    → Sliced (suc limit) u rest x
    → read_slice (suc limit) (u ++ 10 ∷ rest) ≡ x
    → Passes (suc fuel) limit max r u rest
unfolding read_data_from
slice-Passes fuel limit max r u rest x small more n o h at_end is = (
  fuel,
  omega (arith, h, length-append u (10 ∷ rest)),
  rw (is, read_data_from, o.no_end, take_whole max r u small o) refl,
)
slice-Passes fuel limit max r u rest x small more n o h (inside a v parts k) is =
    let r' : Reading = record r { line = r.line ++ a; at_line_start = false } in
    let (f, left, on) =
      more r' v rest (All-drop _ a v (subst NoLf parts n)) (inside-IsOpen max r u a v parts o) (
        omega (
          arith,
          h,
          k,
          length-append v (10 ∷ rest),
          length-append u (10 ∷ rest),
          length-append a v,
          ap length parts,
        )) in
    let whole_line : (r.line ++ a) ++ (v ++ 10 ∷ []) ≡ r.line ++ (u ++ 10 ∷ []) =
      append_assoc r.line a (v ++ 10 ∷ [])
      ∙ ap (λ t. r.line ++ t)
          (sym (append_assoc a v (10 ∷ [])) ∙ ap (λ t. t ++ 10 ∷ []) (sym parts)) in
    (
      f,
      left,
      rw (is, read_data_from, take_inside max r u a v small parts o)
          (on
            ∙ ap (λ t. read_data_from f (suc limit) max (take_line max t r') rest) whole_line
            ∙ ap (λ x. read_data_from f (suc limit) max x rest)
                (take_line_same max (r.line ++ (u ++ 10 ∷ [])) (r.line ++ a) r)),
    )

pub all_pass : (fuel limit max : ℕ) → max < 2 ^ 63 - 1 → PassesAll fuel limit max
all_pass zero limit max small r u rest n o h = absurd (omega (arith, h))
all_pass (suc fuel) limit max small r u rest n o h =
    slice-Passes fuel limit max r u rest _ small (all_pass fuel limit max small) n o h
      (read_slice-Sliced (suc limit) u rest n) refl

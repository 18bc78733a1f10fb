-- ===== src/Bounce/Status/RoundTrip.antt =====
-- internal/bounce/status.go: status codes are read as they are written.
use mailx.Base.{
  ℕ, ◌+◌, ◌≤◌, ◌≡◌, refl, ap, ◌∙◌, true, false, Option, none, some, List, [], ◌∷◌, ◌++◌, ltb, ◌==◌,
  arith, if_cases, any, ◌↔◌, sym, Bool-cases, inl, inr,
}
use mailx.Base.Text.{Text, split, onto_first}
use mailx.Smtp.Validation.{is_cons}
use mailx.Bounce.Status.{
  EnhancedStatus, parse_component, is_class, parsed, parse_parts, parse_enhanced_status, is_valid,
  decimal, to_text,
}

parse-decimal : (n : ℕ) → n ≤ 999 → parse_component (decimal n) ≡ some n
unfolding decimal parse_component
parse-decimal n h =
    if_cases (λ x. parse_component x ≡ some n) (ltb n 10) (λ small. ground (arith, small))
      (λ big.
        if_cases (λ x. parse_component x ≡ some n) (ltb n 100) (λ two. ground (arith, big, two))
          (λ three. ground (arith, big, three)))

decimal-parse : (s : Text) (n : ℕ) → parse_component s ≡ some n → (decimal n ≡ s) × (n ≤ 999)
unfolding parse_component decimal
decimal-parse [] n h = ground arith
decimal-parse (a ∷ []) n h = ground arith
decimal-parse (a ∷ b ∷ []) n h = ground arith
decimal-parse (a ∷ b ∷ c ∷ []) n h = ground arith
decimal-parse (a ∷ b ∷ c ∷ d ∷ s) n h = ground arith

-- No separator inside.
abbrev IsWhole : Text → Type 0
IsWhole x = any (λ c. c == b'.') x ≡ false

decimal-IsWhole : (n : ℕ) → n ≤ 999 → IsWhole (decimal n)
unfolding decimal
decimal-IsWhole n h =
    if_cases IsWhole (ltb n 10) (λ small. ground (arith, small))
      (λ big.
        if_cases IsWhole (ltb n 100) (λ two. ground (arith, big, two))
          (λ three. ground (arith, big, three)))

IsWhole-parts : (c : ℕ) (x : Text) → IsWhole (c ∷ x) → ((c == b'.') ≡ false) × IsWhole x
IsWhole-parts c x h = ground (arith, h)

split_whole : (x : Text) → IsWhole x → split b'.' x ≡ x ∷ []
unfolding split
split_whole [] h = refl
split_whole (c ∷ x) h = let (head, tail) = IsWhole-parts c x h in rw (head, split_whole x tail) refl

split_first : (x rest : Text) → IsWhole x → split b'.' (x ++ b'.' ∷ rest) ≡ x ∷ split b'.' rest
unfolding split
split_first [] rest h = refl
split_first (c ∷ x) rest h =
    let (head, tail) = IsWhole-parts c x h in rw (head, split_first x rest tail) refl

joined : List Text → Text
joined [] = []
joined (x ∷ []) = x
joined (x ∷ y ∷ more) = x ++ b'.' ∷ joined (y ∷ more)

joined-onto : (c : ℕ) (ps : List Text) → joined (onto_first c ps) ≡ c ∷ joined ps
unfolding joined
joined-onto c [] = refl
joined-onto c (p ∷ []) = refl
joined-onto c (p ∷ q ∷ ps) = refl

joined_blank : (ps : List Text) → is_cons ps ≡ true → joined ([] ∷ ps) ≡ b'.' ∷ joined ps
unfolding joined
joined_blank [] h = ground arith
joined_blank (p ∷ ps) h = refl

onto-is_cons : (c : ℕ) (ps : List Text) → is_cons (onto_first c ps) ≡ true
onto-is_cons c [] = refl
onto-is_cons c (p ∷ ps) = refl

split-is_cons : (v : Text) → is_cons (split b'.' v) ≡ true
unfolding split
split-is_cons [] = refl
split-is_cons (c ∷ v) =
    if_cases {A = List Text} (λ ps. is_cons ps ≡ true) (c == b'.') (λ _. refl)
      (λ _. onto-is_cons c (split b'.' v))

split-joined : (v : Text) → joined (split b'.' v) ≡ v
unfolding split joined
split-joined [] = refl
split-joined (c ∷ v) =
    if_cases (λ ps. joined ps ≡ c ∷ v) (c == b'.')
      (λ dot. joined_blank (split b'.' v) (split-is_cons v) ∙ ground (arith, dot, split-joined v))
      (λ _. joined-onto c (split b'.' v) ∙ ap (λ x. c ∷ x) (split-joined v))

-- What the parts of a status say.
record IsWritten (ps : List Text) (s : EnhancedStatus) : Type 0 where
  pub valid : is_valid s ≡ true
  pub text : joined ps ≡ to_text s

parsed_fields :
    (s : EnhancedStatus) (k m n : ℕ)
    → parsed (some k) (some m) (some n) ≡ some s
    → (is_class k ≡ true) × (s ≡ record { class = k; subject = m; detail = n })
unfolding parsed
parsed_fields s k m n h = elim (Bool-cases (is_class k)) [
  | inl is ↦ (is, ground (arith, is, h))
  | inr bad ↦ absurd (ground (arith, bad, h))
]

text_of :
    (s : EnhancedStatus)
    → is_valid s ≡ true
    → to_text s ≡ decimal s.class ++ b'.' ∷ (decimal s.subject ++ b'.' ∷ decimal s.detail)
unfolding to_text
text_of s h = rw h refl

valid_parts :
    (s : EnhancedStatus)
    → is_valid s ≡ true
    → (is_class s.class ≡ true) × (s.subject ≤ 999) × (s.detail ≤ 999)
unfolding is_valid
valid_parts s h = (ground (arith, h), ground (arith, h), ground (arith, h))

parts-IsWritten :
    (x y z : Text) (s : EnhancedStatus) (k m n : ℕ)
    → parse_component x ≡ some k
    → parse_component y ≡ some m
    → parse_component z ≡ some n
    → parsed (some k) (some m) (some n) ≡ some s
    → IsWritten (x ∷ y ∷ z ∷ []) s
unfolding joined is_valid
parts-IsWritten x y z s k m n e f g h =
    let (class, is) = parsed_fields s k m n h in
    let (a, b) = decimal-parse x k e in
    let (c, d) = decimal-parse y m f in
    let (i, j) = decimal-parse z n g in
    let valid : is_valid s ≡ true = rw is (ground (arith, class, d, j)) in
    let written : joined (x ∷ y ∷ z ∷ [])
        ≡ decimal s.class ++ b'.' ∷ (decimal s.subject ++ b'.' ∷ decimal s.detail) =
      rw is (rw (a, c, i) refl) in
    record { valid = valid; text = written ∙ sym (text_of s valid) }

class_small : (k : ℕ) → is_class k ≡ true → k ≤ 9
class_small k h = ground (arith, h)

decimal_class : (k : ℕ) → k ≤ 9 → decimal k ≡ (k + b'0') ∷ []
unfolding decimal
decimal_class k h = ground (arith, h)

reads :
    (k m n : ℕ)
    → is_class k ≡ true
    → m ≤ 999
    → n ≤ 999
    → parse_parts (decimal k ∷ decimal m ∷ decimal n ∷ [])
      ≡ some (record { class = k; subject = m; detail = n })
unfolding parse_parts parsed
reads k m n class hm hn =
    let small = class_small k class in
    let one =
      ap parse_component (sym (decimal_class k small)) ∙ parse-decimal k (ground (arith, small)) in
    rw (decimal_class k small, one, parse-decimal m hm, parse-decimal n hn, class) refl

splits :
    (k m n : ℕ)
    → k ≤ 999
    → m ≤ 999
    → n ≤ 999
    → split b'.' (decimal k ++ b'.' ∷ (decimal m ++ b'.' ∷ decimal n))
      ≡ decimal k ∷ decimal m ∷ decimal n ∷ []
splits k m n hk hm hn =
    split_first (decimal k) _ (decimal-IsWhole k hk)
    ∙ ap (λ ps. decimal k ∷ ps)
        (split_first (decimal m) _ (decimal-IsWhole m hm)
          ∙ ap (λ ps. decimal m ∷ ps) (split_whole (decimal n) (decimal-IsWhole n hn)))

-- For valid numbers, what is written is read.
written-parse :
    (s : EnhancedStatus) → is_valid s ≡ true → parse_enhanced_status (to_text s) ≡ some s
unfolding parse_enhanced_status
written-parse s h =
    let (class, hm, hn) = valid_parts s h in
    ap (λ v. parse_parts (split b'.' v)) (text_of s h)
    ∙ ap parse_parts
        (splits s.class s.subject s.detail (omega (arith, class_small s.class class)) hm hn)
    ∙ reads s.class s.subject s.detail class hm hn

components-IsWritten :
    (x y z : Text) (s : EnhancedStatus) (k m n : Option ℕ)
    → parse_component x ≡ k
    → parse_component y ≡ m
    → parse_component z ≡ n
    → parsed k m n ≡ some s
    → IsWritten (x ∷ y ∷ z ∷ []) s
unfolding parsed
components-IsWritten x y z s (some k) (some m) (some n) e f g h =
    parts-IsWritten x y z s k m n e f g h
components-IsWritten x y z s none m n e f g h = absurd (cc)
components-IsWritten x y z s (some k) none n e f g h = absurd (cc)
components-IsWritten x y z s (some k) (some m) none e f g h = absurd (cc)

three-IsWritten : (ps : List Text) (s : EnhancedStatus) → parse_parts ps ≡ some s → IsWritten ps s
unfolding parse_parts
three-IsWritten [] s h = absurd (cc)
three-IsWritten ([] ∷ ps) s h = absurd (cc)
three-IsWritten ((c ∷ d ∷ x) ∷ ps) s h = absurd (cc)
three-IsWritten ((c ∷ []) ∷ []) s h = absurd (cc)
three-IsWritten ((c ∷ []) ∷ x ∷ []) s h = absurd (cc)
three-IsWritten ((c ∷ []) ∷ x ∷ y ∷ []) s h =
    components-IsWritten (c ∷ []) x y s _ _ _ refl refl refl h
three-IsWritten ((c ∷ []) ∷ x ∷ y ∷ z ∷ ps) s h = absurd (cc)

-- A text is read as a status exactly if the status is valid and the text is what it is written as.
pub parse_enhanced_status_iff :
    (v : Text) (s : EnhancedStatus)
    → (parse_enhanced_status v ≡ some s) ↔ ((is_valid s ≡ true) × (to_text s ≡ v))
unfolding parse_enhanced_status
parse_enhanced_status_iff v s = (
  λ h. let r = three-IsWritten (split b'.' v) s h in (r.valid, sym r.text ∙ split-joined v),
  λ h. ap (λ x. parse_enhanced_status x) (sym h.1) ∙ written-parse s h.0,
)

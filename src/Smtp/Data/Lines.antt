-- ===== src/Smtp/Data/Lines.antt =====
-- internal/smtp/client_data.go: what is sent, line by line.
use mathlib.Core.List.{append_assoc, append-nil}
use mailx.Base.{
  ℕ, ◌≡◌, ◌≢◌, refl, ap, subst, ◌∙◌, Bool, true, false, List, [], ◌∷◌, ◌++◌, ◌&&◌, not, ◌==◌,
  if◌then◌else◌, All, arith, inl, inr, if_cases, Bool-cases, All-append, map,
}
use mailx.Base.Text.{Text, is_empty}
use mailx.Smtp.Data.{
  crlf, terminator, normalize_from, ends_crlf, normalized, stuff, serialize_for_data,
}

-- A line's bytes: neither CR nor LF.
abbrev pub IsLine : Text → Type 0
IsLine l = All (λ c. (c ≢ 13) × (c ≢ 10)) l

-- Lines, each with its CRLF.
unfoldable pub unlines : List Text → Text
unlines [] = []
unlines (l ∷ ls) = l ++ 13 ∷ 10 ∷ unlines ls

-- The lines of a message, ended by CRLF, CR or LF, from one on of which `cur` is read. The last
-- may lack its end.
unfoldable pub lines_from : Bool → Text → Text → List Text
unfolding is_empty
lines_from after_cr cur [] = if is_empty cur then [] else cur ∷ []
lines_from after_cr cur (c ∷ s) =
    let line_end = cur ∷ lines_from true [] s in
    let feed = cur ∷ lines_from false [] s in
    let skipped = lines_from false cur s in
    let kept = lines_from false (cur ++ c ∷ []) s in
    if c == 13 then line_end else if c == 10 then (if after_cr then skipped else feed) else kept

unfoldable pub lines : Text → List Text
unfolding lines_from
lines raw = lines_from false [] raw

lines_from-IsLine :
    (after_cr : Bool) (cur s : Text) → IsLine cur → All IsLine (lines_from after_cr cur s)
unfolding lines_from is_empty
lines_from-IsLine after_cr [] [] l = tt
lines_from-IsLine after_cr (d ∷ cur) [] l = (l, tt)
lines_from-IsLine after_cr cur (c ∷ s) l =
    if_cases (All IsLine) (c == 13) (λ _. (l, lines_from-IsLine true [] s tt))
      λ cr.
        if_cases (All IsLine) (c == 10)
          (λ _.
            if_cases (All IsLine) after_cr (λ _. lines_from-IsLine false cur s l)
              (λ _. (l, lines_from-IsLine false [] s tt)))
          (λ lf.
            lines_from-IsLine false (cur ++ c ∷ []) s
              (All-append _ cur (c ∷ []) l ((ground (arith, cr), ground (arith, lf)), tt)))

-- No line of a message holds a CR or a LF.
pub lines-IsLine : (raw : Text) → All IsLine (lines raw)
unfolding lines
lines-IsLine raw = lines_from-IsLine false [] raw tt

-- The end that the code adds.
abbrev finished : Text → Text
finished text = if not (is_empty text) && not (ends_crlf text) then text ++ crlf else text

ends_crlf-line : (l : Text) → IsLine l → ends_crlf l ≡ false
unfolding ends_crlf
ends_crlf-line [] a = refl
ends_crlf-line (c ∷ []) a = refl
ends_crlf-line (c ∷ d ∷ []) a = ground arith
ends_crlf-line (c ∷ d ∷ e ∷ s) a = ends_crlf-line (d ∷ e ∷ s) a.1

ends_crlf-after :
    (l : Text) (c : ℕ) (s : Text) → ends_crlf (l ++ 13 ∷ 10 ∷ c ∷ s) ≡ ends_crlf (c ∷ s)
unfolding ends_crlf
ends_crlf-after [] c [] = refl
ends_crlf-after [] c (d ∷ s) = refl
ends_crlf-after (x ∷ []) c s = ends_crlf-after [] c s
ends_crlf-after (x ∷ y ∷ []) c s = ends_crlf-after [] c s
ends_crlf-after (x ∷ y ∷ z ∷ l) c s = ends_crlf-after (y ∷ z ∷ l) c s

pub ends_crlf-end : (l : Text) → ends_crlf (l ++ crlf) ≡ true
unfolding ends_crlf
ends_crlf-end [] = refl
ends_crlf-end (x ∷ []) = refl
ends_crlf-end (x ∷ y ∷ []) = refl
ends_crlf-end (x ∷ y ∷ z ∷ l) = ends_crlf-end (y ∷ z ∷ l)

is_empty-append : (l : Text) (c : ℕ) (s : Text) → is_empty (l ++ c ∷ s) ≡ false
unfolding is_empty
is_empty-append [] c s = refl
is_empty-append (x ∷ l) c s = refl

finished-line : (l s : Text) → finished (l ++ 13 ∷ 10 ∷ s) ≡ l ++ 13 ∷ 10 ∷ finished s
unfolding is_empty
finished-line l [] = simp (is_empty-append l 13 (10 ∷ []), ends_crlf-end l) refl
finished-line l (c ∷ s) =
    simp (is_empty-append l 13 (10 ∷ c ∷ s), ends_crlf-after l c s)
      (elim (Bool-cases (ends_crlf (c ∷ s))) [
        | inl ended ↦ simp ended refl
        | inr open_end ↦ simp open_end (append_assoc l (13 ∷ 10 ∷ c ∷ s) crlf)
      ])

finished-from :
    (after_cr : Bool) (cur s : Text)
    → IsLine cur
    → finished (cur ++ normalize_from after_cr s) ≡ unlines (lines_from after_cr cur s)
unfolding normalize_from lines_from unlines is_empty
finished-from after_cr [] [] l = refl
finished-from after_cr (d ∷ cur) [] l = simp (append-nil cur, ends_crlf-line (d ∷ cur) l) refl
finished-from after_cr cur (c ∷ s) l = elim (Bool-cases (c == 13)) [
  | inl cr ↦ simp cr (
      finished-line cur (normalize_from true s)
      ∙ ap (λ t. cur ++ 13 ∷ 10 ∷ t) (finished-from true [] s tt))
  | inr not_cr ↦ elim (Bool-cases (c == 10)) [
    | inl lf ↦ elim (Bool-cases after_cr) [
      | inl second ↦ simp (not_cr, lf, second) (finished-from false cur s l)
      | inr alone ↦
          simp (not_cr, lf, alone)
            (finished-line cur (normalize_from false s)
              ∙ ap (λ t. cur ++ 13 ∷ 10 ∷ t) (finished-from false [] s tt))
    ]
    | inr not_lf ↦
        simp (not_cr, not_lf)
          (subst (λ t. finished t ≡ unlines (lines_from false (cur ++ c ∷ []) s))
            (append_assoc cur (c ∷ []) (normalize_from false s))
            (finished-from false (cur ++ c ∷ []) s
              (All-append _ cur (c ∷ []) l ((ground (arith, not_cr), ground (arith, not_lf)), tt))))
  ]
]

-- What is sent before stuffing is the message's lines, each with CRLF.
pub normalized-lines : (raw : Text) → normalized raw ≡ unlines (lines raw)
unfolding normalized lines
normalized-lines raw = finished-from false [] raw tt

-- A dot before a line that begins with one.
unfoldable pub stuffed : Text → Text
stuffed [] = []
stuffed (c ∷ l) = if c == b'.' then b'.' ∷ c ∷ l else c ∷ l

stuff-line : (l s : Text) → IsLine l → stuff false (l ++ 13 ∷ 10 ∷ s) ≡ l ++ 13 ∷ 10 ∷ stuff true s
unfolding stuff
stuff-line [] s a = refl
stuff-line (c ∷ l) s a = ground (arith, stuff-line l s a.1)

stuff-start :
    (l s : Text) → IsLine l → stuff true (l ++ 13 ∷ 10 ∷ s) ≡ stuffed l ++ 13 ∷ 10 ∷ stuff true s
unfolding stuff stuffed
stuff-start [] s a = refl
stuff-start (c ∷ l) s a = ground (arith, stuff-line l s a.1)

stuff-unlines :
    (ls : List Text) → All IsLine ls → stuff true (unlines ls) ≡ unlines (map stuffed ls)
unfolding stuff unlines
stuff-unlines [] a = refl
stuff-unlines (l ∷ ls) a =
    stuff-start l (unlines ls) a.0 ∙ ap (λ t. stuffed l ++ 13 ∷ 10 ∷ t) (stuff-unlines ls a.1)

-- What is sent is the message's lines, each with a dot more if it begins with one, and the line
-- that ends DATA.
pub serialize_for_data-lines :
    (raw : Text) → serialize_for_data raw ≡ unlines (map stuffed (lines raw)) ++ terminator
unfolding serialize_for_data
serialize_for_data-lines raw =
    rw (normalized-lines raw)
      (ap (λ t. t ++ terminator) (stuff-unlines (lines raw) (lines-IsLine raw)))

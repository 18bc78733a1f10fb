-- ===== src/Routing/Select.antt =====
-- internal/routing/select.go: the member of a pool that a message is routed through. `hash` is
-- the first 8 bytes of the SHA-256 sum, as a number.
pub mod Stable
use mailx.Base.{
  ℕ, zero, suc, ◌%◌, Bool, true, false, Option, none, some, List, [], ◌∷◌, ltb, ◌==◌, ◌||◌, ◌&&◌,
  length, get_elem?, if◌then◌else◌,
}
use mailx.Base.Text.{Text}

-- Go's `<=` on strings.
unfoldable pub text_le : Text → Text → Bool
text_le [] t = true
text_le (c ∷ s) [] = false
text_le (c ∷ s) (d ∷ t) = ltb c d || (c == d && text_le s t)

-- `sort.Strings`
unfoldable pub insert : Text → List Text → List Text
unfolding text_le
insert s [] = s ∷ []
insert s (t ∷ ts) = let rest = insert s ts in if text_le s t then s ∷ t ∷ ts else t ∷ rest

unfoldable pub sort_strings : List Text → List Text
unfolding insert
sort_strings [] = []
sort_strings (s ∷ ss) = insert s (sort_strings ss)

-- `sorted[i]`; the empty text is where Go would panic.
unfoldable pub at_index : List Text → ℕ → Text
at_index [] i = []
at_index (s ∷ ss) zero = s
at_index (s ∷ ss) (suc i) = at_index ss i

-- `SelectMember`
unfoldable pub select_member : (hash : Text → ℕ) → Text → List Text → Text
unfolding sort_strings at_index
select_member hash id [] = []
select_member hash id (c ∷ []) = c
select_member hash id (c ∷ d ∷ more) =
    at_index (sort_strings (c ∷ d ∷ more)) (hash id % length (sort_strings (c ∷ d ∷ more)))

-- ===== src/Routing/Select/Stable.antt =====
-- internal/routing/select.go: the choice is a candidate, and the same for every order of them.
use native.Mathlib.Nat.{mod-lt}
use mailx.Base.{
  ℕ, zero, suc, ◌<◌, ◌%◌, ◌+◌, ◌≡◌, refl, sym, subst, ap, ◌∙◌, true, false, List, [], ◌∷◌, ◌||◌,
  length, any, arith,
}
use mailx.Base.Text.{Text, text_eq, text_eq_self}
use mailx.Routing.Select.{text_le, insert, sort_strings, at_index, select_member}

-- The same candidates in another order.
pub data Reorders : List Text → List Text → Type 0 where
  nothing : Reorders [] []
  keeps : {ss ts : List Text} (s : Text) → Reorders ss ts → Reorders (s ∷ ss) (s ∷ ts)
  swaps : (s t : Text) (ss : List Text) → Reorders (s ∷ t ∷ ss) (t ∷ s ∷ ss)
  follows : {ss ts us : List Text} → Reorders ss ts → Reorders ts us → Reorders ss us

text_le_total : (s t : Text) → text_le s t ≡ false → text_le t s ≡ true
unfolding text_le
text_le_total [] t h = ground arith
text_le_total (c ∷ s) [] h = refl
text_le_total (c ∷ s) (d ∷ t) h = ground (arith, text_le_total s t)

text_le_antisym : (s t : Text) → text_le s t ≡ true → text_le t s ≡ true → s ≡ t
unfolding text_le
text_le_antisym [] [] h k = refl
text_le_antisym [] (d ∷ t) h k = ground arith
text_le_antisym (c ∷ s) [] h k = ground arith
text_le_antisym (c ∷ s) (d ∷ t) h k = ground (arith, text_le_antisym s t)

text_le_trans : (s t u : Text) → text_le s t ≡ true → text_le t u ≡ true → text_le s u ≡ true
unfolding text_le
text_le_trans [] t u h k = refl
text_le_trans (c ∷ s) [] u h k = ground arith
text_le_trans (c ∷ s) (d ∷ t) [] h k = ground arith
text_le_trans (c ∷ s) (d ∷ t) (e ∷ u) h k = ground (arith, text_le_trans s t u)

insert_comm : (a b : Text) (ts : List Text) → insert a (insert b ts) ≡ insert b (insert a ts)
unfolding insert
insert_comm a b [] = ground (arith, text_le_total a b, text_le_antisym a b)
insert_comm a b (t ∷ ts) = ground (
  arith,
  insert_comm a b ts,
  text_le_total a b,
  text_le_antisym a b,
  text_le_trans a b t,
  text_le_trans b a t,
)

sort_strings_same : {ss ts : List Text} → Reorders ss ts → sort_strings ss ≡ sort_strings ts
unfolding sort_strings
sort_strings_same nothing = refl
sort_strings_same (keeps s r) = ap (insert s) (sort_strings_same r)
sort_strings_same (swaps s t ss) = insert_comm s t (sort_strings ss)
sort_strings_same (follows q r) = sort_strings_same q ∙ sort_strings_same r

length-insert : (s : Text) (ts : List Text) → length (insert s ts) ≡ length ts + 1
unfolding insert
length-insert s [] = omega arith
length-insert s (t ∷ ts) = ground (arith, length-insert s ts)

abbrev at_sorted : (hash : Text → ℕ) → Text → List Text → Text
at_sorted hash id sorted = at_index sorted (hash id % length sorted)

mod_one : (n : ℕ) → n % 1 ≡ 0
mod_one n = omega arith

select_lem :
    (hash : Text → ℕ) (id : Text) (ss : List Text)
    → select_member hash id ss ≡ at_sorted hash id (sort_strings ss)
unfolding select_member at_index sort_strings insert
select_lem hash id [] = refl
select_lem hash id (c ∷ []) = rw (mod_one (hash id)) refl
select_lem hash id (c ∷ d ∷ more) = refl

-- The choice does not depend on the order in which the candidates come.
select_member_same :
    (hash : Text → ℕ) (id : Text) {ss ts : List Text}
    → Reorders ss ts
    → select_member hash id ss ≡ select_member hash id ts
select_member_same hash id {ss} {ts} r =
    select_lem hash id ss
    ∙ ap (at_sorted hash id) (sort_strings_same r)
    ∙ sym (select_lem hash id ts)

any-insert :
    (m s : Text) (ts : List Text)
    → any (text_eq m) (insert s ts) ≡ (text_eq m s || any (text_eq m) ts)
unfolding insert
any-insert m s [] = refl
any-insert m s (t ∷ ts) = ground (arith, any-insert m s ts)

any-sort_strings :
    (m : Text) (ss : List Text) → any (text_eq m) (sort_strings ss) ≡ any (text_eq m) ss
unfolding sort_strings
any-sort_strings m [] = refl
any-sort_strings m (s ∷ ss) =
    any-insert m s (sort_strings ss) ∙ ap (λ b. text_eq m s || b) (any-sort_strings m ss)

any-at_index : (ss : List Text) (i : ℕ) → i < length ss → any (text_eq (at_index ss i)) ss ≡ true
unfolding at_index
any-at_index [] i h = absurd (omega (arith, h))
any-at_index (s ∷ ss) zero h = ground (arith, text_eq_self s)
any-at_index (s ∷ ss) (suc i) h = ground (arith, any-at_index ss i)

-- If there are candidates, the choice is one of them.
select_member_among :
    (hash : Text → ℕ) (id c : Text) (cs : List Text)
    → any (text_eq (select_member hash id (c ∷ cs))) (c ∷ cs) ≡ true
unfolding sort_strings
select_member_among hash id c cs =
    let sorted = sort_strings (c ∷ cs) in
    subst (λ m. any (text_eq m) (c ∷ cs) ≡ true) (sym (select_lem hash id (c ∷ cs)))
      (sym (any-sort_strings (at_sorted hash id sorted) (c ∷ cs))
        ∙ any-at_index sorted (hash id % length sorted)
            (mod-lt (hash id) (omega (arith, length-insert c (sort_strings cs)))))

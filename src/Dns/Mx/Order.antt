-- ===== src/Dns/Mx/Order.antt =====
-- internal/dns/mx.go: sorting and removing duplicates.
use mailx.Base.{
  ◌≤◌, ◌+◌, ◌≡◌, ◌≢◌, refl, true, false, List, [], ◌∷◌, ◌||◌, leb, any, length, arith, All, All-imp,
  if_cases, Bool-cases, subst, sym, ==_iff, ◌∙◌, inl, inr, ap,
}
use mailx.Base.Text.{text_eq_self, eq_of_text_eq}
use mailx.Dns.Mx.{Mx, insert, sort, mx_eq, dedup, sort_and_dedup}

-- Preferences ascend.
abbrev pub Ascends : List Mx → Type 0
Ascends [] = Unit
Ascends (m ∷ ms) = All (λ x. m.preference ≤ x.preference) ms × Ascends ms

-- No record stands twice.
abbrev pub Distinct : List Mx → Type 0
Distinct [] = Unit
Distinct (m ∷ ms) = All (λ x. x ≢ m) ms × Distinct ms

insert-All {ℓ} : (P : Mx → Type ℓ) (m : Mx) (xs : List Mx) → P m → All P xs → All P (insert m xs)
unfolding insert
insert-All P m [] p a = (p, tt)
insert-All P m (x ∷ xs) p a =
    if_cases (All P) (leb m.preference x.preference) (λ _. (p, a))
      (λ _. (a.0, insert-All P m xs p a.1))

insert-Ascends : (m : Mx) (xs : List Mx) → Ascends xs → Ascends (insert m xs)
unfolding insert
insert-Ascends m [] a = (tt, tt)
insert-Ascends m (x ∷ xs) a =
    if_cases Ascends (leb m.preference x.preference)
      (λ below.
        let under : m.preference ≤ x.preference = ground (arith, below) in
        ((under, All-imp _ _ (λ y h. omega (arith, h, under)) xs a.0), a))
      (λ above. (insert-All _ m xs (ground (arith, above)) a.0, insert-Ascends m xs a.1))

pub sort-All {ℓ} : (P : Mx → Type ℓ) (ms : List Mx) → All P ms → All P (sort ms)
unfolding sort
sort-All P [] a = tt
sort-All P (m ∷ ms) a = insert-All P m (sort ms) a.0 (sort-All P ms a.1)

pub sort-Ascends : (ms : List Mx) → Ascends (sort ms)
unfolding sort
sort-Ascends [] = tt
sort-Ascends (m ∷ ms) = insert-Ascends m (sort ms) (sort-Ascends ms)

pub dedup-All {ℓ} : (P : Mx → Type ℓ) (seen ms : List Mx) → All P ms → All P (dedup seen ms)
unfolding dedup
dedup-All P seen [] a = tt
dedup-All P seen (m ∷ ms) a =
    if_cases (All P) (any (mx_eq m) seen) (λ _. dedup-All P seen ms a.1)
      (λ _. (a.0, dedup-All P (m ∷ seen) ms a.1))

pub dedup-Ascends : (seen ms : List Mx) → Ascends ms → Ascends (dedup seen ms)
unfolding dedup
dedup-Ascends seen [] a = tt
dedup-Ascends seen (m ∷ ms) a =
    if_cases Ascends (any (mx_eq m) seen) (λ _. dedup-Ascends seen ms a.1)
      (λ _. (dedup-All _ (m ∷ seen) ms a.0, dedup-Ascends (m ∷ seen) ms a.1))

-- What comes out had not been seen.
dedup_unseen : (seen ms : List Mx) → All (λ x. any (mx_eq x) seen ≡ false) (dedup seen ms)
unfolding dedup
dedup_unseen seen [] = tt
dedup_unseen seen (m ∷ ms) =
    if_cases (All (λ x. any (mx_eq x) seen ≡ false)) (any (mx_eq m) seen)
      (λ _. dedup_unseen seen ms)
      (λ fresh. (
        fresh,
        All-imp _ _ (λ x h. ground (arith, h)) (dedup (m ∷ seen) ms) (dedup_unseen (m ∷ seen) ms),
      ))

mx_eq_self : (m : Mx) → mx_eq m m ≡ true
unfolding mx_eq
mx_eq_self m = ground (arith, text_eq_self m.host)

pub dedup-Distinct : (seen ms : List Mx) → Distinct (dedup seen ms)
unfolding dedup
dedup-Distinct seen [] = tt
dedup-Distinct seen (m ∷ ms) =
    if_cases Distinct (any (mx_eq m) seen) (λ _. dedup-Distinct seen ms)
      (λ fresh. (
        All-imp _ _ (λ x h is. ground (arith, mx_eq_self m, h, is)) (dedup (m ∷ seen) ms)
            (dedup_unseen (m ∷ seen) ms),
        dedup-Distinct (m ∷ seen) ms,
      ))

pub length-insert : (m : Mx) (xs : List Mx) → length (insert m xs) ≡ length xs + 1
unfolding insert
length-insert m [] = omega arith
length-insert m (x ∷ xs) = ground (arith, length-insert m xs)

pub dedup_some : (ms : List Mx) → 1 ≤ length ms → 1 ≤ length (dedup [] ms)
unfolding dedup
dedup_some [] h = h
dedup_some (m ∷ ms) h = omega arith

insert_keeps :
    (m r : Mx) (xs : List Mx) → any (mx_eq m) (insert r xs) ≡ (mx_eq m r || any (mx_eq m) xs)
unfolding insert
insert_keeps m r [] = refl
insert_keeps m r (x ∷ xs) = ground (arith, insert_keeps m r xs)

sort_keeps : (m : Mx) (ms : List Mx) → any (mx_eq m) (sort ms) ≡ any (mx_eq m) ms
unfolding sort
sort_keeps m [] = refl
sort_keeps m (r ∷ ms) = insert_keeps m r (sort ms) ∙ ap (λ b. mx_eq m r || b) (sort_keeps m ms)

eq_of_mx_eq : (a b : Mx) → mx_eq a b ≡ true → a ≡ b
unfolding mx_eq
eq_of_mx_eq a b h =
    let hosts = eq_of_text_eq a.host b.host (ground (arith, h)) in
    let preferences = (==_iff a.preference b.preference).0 (ground (arith, h)) in
    λ i. record { host = hosts i; preference = preferences i }

dedup_keeps :
    (m : Mx) (seen ms : List Mx)
    → (any (mx_eq m) (dedup seen ms) || any (mx_eq m) seen)
      ≡ (any (mx_eq m) ms || any (mx_eq m) seen)
unfolding dedup
dedup_keeps m seen [] = refl
dedup_keeps m seen (r ∷ ms) =
    let skip = dedup_keeps m seen ms in
    let keep = dedup_keeps m (r ∷ seen) ms in
    elim (Bool-cases (any (mx_eq r) seen)) [
      | inl old ↦ elim (Bool-cases (mx_eq m r)) [
        | inl same ↦
            let seen_too : any (mx_eq m) seen ≡ true =
              subst (λ x. any (mx_eq x) seen ≡ true) (sym (eq_of_mx_eq m r same)) old in
            ground (arith, skip, seen_too)
        | inr apart ↦ ground (arith, skip)
      ]
      | inr fresh ↦ ground (arith, keep)
    ]

-- Sorting and removing duplicates loses no record and invents none.
sort_and_dedup_keeps :
    (m : Mx) (ms : List Mx) → any (mx_eq m) (sort_and_dedup ms) ≡ any (mx_eq m) ms
unfolding sort_and_dedup
sort_and_dedup_keeps m ms = ground (arith, dedup_keeps m [] (sort ms), sort_keeps m ms)

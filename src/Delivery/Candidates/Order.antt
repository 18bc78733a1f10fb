-- ===== src/Delivery/Candidates/Order.antt =====
-- internal/delivery/delivery.go: ordering the candidates loses none, and keeps the order of
-- their preferences.
use mathlib.Core.List.{Perm, append-nil, map-append, append_assoc, perm-replicate, replicate}
use mathlib.Core.List as Lists
use mathlib.Core.Path.{ap₂}
use native.Mathlib.Nat.{ℕ_set}
use mathlib.Core.List.Perm
use mailx.Base.{
  ℕ, List, [], ◌∷◌, ◌++◌, ◌==◌, ==_iff, length, ltb, ◌≡◌, refl, map, ◌∙◌, sym, if_cases, All,
  All-append, subst,
}
use mailx.Delivery.Candidates.{Mx, flush, order_from, order_candidates}

-- `shuffle` permutes.
abbrev pub Shuffles : (List Mx → List Mx) → Type 0
Shuffles shuffle = (g : List Mx) → Perm (shuffle g) g

module _ (shuffle : List Mx → List Mx) (fair : Shuffles shuffle) where
  flush-perm : (g : List Mx) → Perm (flush shuffle g) g
  unfolding flush
  flush-perm g = if_cases (λ r. Perm r g) (ltb 1 (length g)) (λ _. fair g) (λ _. Perm.refl g)

  order_from-perm : (p : ℕ) (g ms : List Mx) → Perm (order_from shuffle p g ms) (g ++ ms)
  unfolding order_from
  order_from-perm p g [] = rw append-nil (flush-perm g)
  order_from-perm p g (m ∷ ms) =
      if_cases (λ r. Perm r (g ++ (m ∷ ms))) (m.preference == p)
        (λ _. rw (← append_assoc g (m ∷ []) ms) (order_from-perm p (g ++ m ∷ []) ms))
        (λ _. Perm.append (flush-perm g) (order_from-perm m.preference (m ∷ []) ms))

  -- If the shuffle permutes, the candidates that are tried are a permutation of the given ones.
  order_candidates-perm : (ms : List Mx) → Perm (order_candidates shuffle ms) ms
  unfolding order_candidates
  order_candidates-perm [] = Perm.refl []
  order_candidates-perm (m ∷ ms) = order_from-perm m.preference (m ∷ []) ms

abbrev pub preferences : List Mx → List ℕ
preferences = map (λ (m : Mx). m.preference)

constant-eq-replicate :
    (p : ℕ) (g : List Mx)
    → All (λ m. m.preference ≡ p) g
    → preferences g ≡ replicate (Lists.length g) p
constant-eq-replicate p [] a = refl
constant-eq-replicate p (m ∷ g) a = ap₂ ◌∷◌ a.0 (constant-eq-replicate p g a.1)

module _ (shuffle : List Mx → List Mx) (fair : Shuffles shuffle) where
  preferences-shuffle :
      (p : ℕ) (g : List Mx)
      → All (λ m. m.preference ≡ p) g
      → preferences (flush shuffle g) ≡ preferences g
  preferences-shuffle p g a =
      let e = constant-eq-replicate p g a in
      rw e (
        (perm-replicate ℕ_set (Lists.length g) p).0 (
          subst (Perm (preferences (flush shuffle g))) e
            (Perm.map (λ (m : Mx). m.preference) (flush-perm shuffle fair g))))

  preferences-order_from :
      (p : ℕ) (g ms : List Mx)
      → All (λ m. m.preference ≡ p) g
      → preferences (order_from shuffle p g ms) ≡ preferences (g ++ ms)
  unfolding order_from
  preferences-order_from p g [] a = rw append-nil (preferences-shuffle p g a)
  preferences-order_from p g (m ∷ ms) a =
      if_cases (λ r. preferences r ≡ preferences (g ++ (m ∷ ms))) (m.preference == p)
        (λ same. rw (← append_assoc g (m ∷ []) ms) (
          preferences-order_from p (g ++ m ∷ []) ms
            (All-append _ g (m ∷ []) a ((==_iff _ _).0 same, tt))))
        (λ other.
          map-append _ (flush shuffle g) (order_from shuffle m.preference (m ∷ []) ms)
          ∙ ap₂ ◌++◌ (preferences-shuffle p g a)
              (preferences-order_from m.preference (m ∷ []) ms (refl, tt))
          ∙ sym (map-append _ g (m ∷ ms)))

  -- If the shuffle permutes, the preferences come in the order in which they were given.
  preferences-order : (ms : List Mx) → preferences (order_candidates shuffle ms) ≡ preferences ms
  unfolding order_candidates
  preferences-order [] = refl
  preferences-order (m ∷ ms) = preferences-order_from m.preference (m ∷ []) ms (refl, tt)

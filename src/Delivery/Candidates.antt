-- ===== src/Delivery/Candidates.antt =====
-- internal/delivery/delivery.go: the order in which MX candidates are tried. The shuffle of
-- equal preferences (math/rand, or a test's function) is a parameter.
pub mod Order
pub use mailx.Dns.Mx.{Mx}
use mailx.Base.{
  ℕ, Bool, List, [], ◌∷◌, ◌++◌, ◌==◌, if◌then◌else◌, length, ltb, ◌≡◌, refl, map, arith, ap, ◌∙◌,
  sym,
}
use mailx.Base.Text.{Text}

-- A group of equal preference, shuffled if it has two or more.
flush : (List Mx → List Mx) → List Mx → List Mx
flush shuffle group = if ltb 1 (length group) then shuffle group else group

-- The walk from a group's first candidate on.
unfoldable pub order_from : (List Mx → List Mx) → ℕ → List Mx → List Mx → List Mx
unfolding flush
order_from shuffle preference group [] = flush shuffle group
order_from shuffle preference group (m ∷ ms) =
    let same = order_from shuffle preference (group ++ m ∷ []) ms in
    let next = flush shuffle group ++ order_from shuffle m.preference (m ∷ []) ms in
    if m.preference == preference then same else next

-- `orderCandidates`
unfoldable pub order_candidates : (List Mx → List Mx) → List Mx → List Mx
unfolding order_from
order_candidates shuffle [] = []
order_candidates shuffle (m ∷ ms) = order_from shuffle m.preference (m ∷ []) ms

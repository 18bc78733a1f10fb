-- ===== src/Dns/Mx.antt =====
-- internal/dns/mx.go: MX records, their order and their duplicates.
pub mod Order
use mailx.Base.{
  ℕ, Bool, true, false, List, [], ◌∷◌, ◌&&◌, ◌||◌, not, leb, ◌==◌, if◌then◌else◌, any, reverse,
}
use mailx.Base.Text.{Text, text_eq, trim_space, to_lower, is_empty, contains_any}

pub record Mx : Type 0 where
  pub host : Text
  pub preference : ℕ  -- uint16

-- The standard library's `net.MX`.
pub record NetMx : Type 0 where
  pub host : Text
  pub pref : ℕ

-- `strings.TrimSuffix(s, ".")`
unfoldable pub trim_dot : Text → Text
trim_dot [] = []
trim_dot (c ∷ []) = if c == b'.' then [] else c ∷ []
trim_dot (c ∷ d ∷ s) = c ∷ trim_dot (d ∷ s)

-- `canonicalHost`
unfoldable pub canonical_host : Text → Text
unfolding trim_dot trim_space to_lower
canonical_host host = to_lower (trim_dot (trim_space host))

-- `isNullMXRecord`
unfoldable pub is_null_mx : NetMx → Bool
unfolding trim_space text_eq is_empty
is_null_mx r =
    let host = trim_space r.host in r.pref == 0 && (text_eq host (b'.' ∷ []) || is_empty host)

-- `hostSafe`
unfoldable pub host_safe : Text → Bool
unfolding is_empty contains_any
host_safe host = not (is_empty host) && not (contains_any host (13 ∷ 10 ∷ 0 ∷ 32 ∷ 9 ∷ []))

-- `sort.SliceStable` by preference: a record goes before the equal ones that followed it.
unfoldable pub insert : Mx → List Mx → List Mx
insert m [] = m ∷ []
insert m (x ∷ xs) =
    let rest = insert m xs in if leb m.preference x.preference then m ∷ x ∷ xs else x ∷ rest

unfoldable pub sort : List Mx → List Mx
unfolding insert
sort [] = []
sort (m ∷ ms) = insert m (sort ms)

unfoldable pub mx_eq : Mx → Mx → Bool
unfolding text_eq
mx_eq a b = text_eq a.host b.host && a.preference == b.preference

-- The second loop, with the records seen so far.
unfoldable pub dedup : List Mx → List Mx → List Mx
unfolding mx_eq
dedup seen [] = []
dedup seen (r ∷ rs) =
    let skipped = dedup seen rs in
    let kept = r ∷ dedup (r ∷ seen) rs in if any (mx_eq r) seen then skipped else kept

-- `sortAndDedup`
unfoldable pub sort_and_dedup : List Mx → List Mx
unfolding sort dedup
sort_and_dedup records = dedup [] (sort records)

-- ===== src/Queue/Memory/Store.antt =====
-- internal/queue/memory.go: the entries, the map from job ids to them, and the heap's order.
use mailx.Base.{
  ℕ, ◌+◌, ◌≤◌, ◌<◌, ◌≡◌, refl, Bool, true, false, Option, none, some, List, [], ◌∷◌, arith, ltb,
  ◌==◌, if◌then◌else◌, length, All, inl, inr, is_some, Bool-cases,
}
use mailx.Base.Text.{Text, text_eq, text_eq_iff}
use mailx.Queue.Job.{Job}

pub record Entry : Type 0 where
  pub job : Job
  pub seq : ℕ  -- uint64
  pub claimed : Bool
  pub token : ℕ  -- uint64

-- `entryHeap.Less`
unfoldable pub less : Entry → Entry → Bool
less a b =
    if a.job.available_at == b.job.available_at
    then ltb a.seq b.seq
    else ltb a.job.available_at b.job.available_at

-- heap.Push, up to the order in which the heap keeps what is not least
unfoldable pub heap_push : Entry → List Entry → List Entry
unfolding less
heap_push e [] = e ∷ []
heap_push e (f ∷ h) = if less e f then e ∷ f ∷ h else f ∷ heap_push e h

-- `q.entries[id]`
unfoldable pub find : Text → List Entry → Option Entry
find id [] = none
find id (e ∷ m) = if text_eq e.job.id id then some e else find id m

-- `q.entries[e.job.ID] = e`
unfoldable pub put : Entry → List Entry → List Entry
put e [] = e ∷ []
put e (f ∷ m) = if text_eq f.job.id e.job.id then e ∷ m else f ∷ put e m

-- `delete(q.entries, id)`
unfoldable pub delete : Text → List Entry → List Entry
delete id [] = []
delete id (e ∷ m) = if text_eq e.job.id id then delete id m else e ∷ delete id m

pub find-put :
    (e : Entry) (id : Text) (m : List Entry)
    → find id (put e m) ≡ (if text_eq e.job.id id then some e else find id m)
unfolding find put
find-put e id [] = refl
find-put e id (f ∷ m) = ground (
  arith,
  text_eq_iff e.job.id id,
  text_eq_iff f.job.id id,
  text_eq_iff f.job.id e.job.id,
  find-put e id m,
)

pub find-delete :
    (k id : Text) (m : List Entry)
    → find id (delete k m) ≡ (if text_eq k id then none else find id m)
unfolding find delete
find-delete k id [] = ground arith
find-delete k id (f ∷ m) =
    ground
      (arith, text_eq_iff k id, text_eq_iff f.job.id id, text_eq_iff f.job.id k, find-delete k id m)

pub find-id : (id : Text) (m : List Entry) {e : Entry} → find id m ≡ some e → e.job.id ≡ id
unfolding find
find-id id [] h = ground arith
find-id id (f ∷ m) {e} h = ground (arith, text_eq_iff f.job.id id, find-id id m {e = e})

pub length-put_new :
    (e : Entry) (m : List Entry) → find e.job.id m ≡ none → length (put e m) ≡ length m + 1
unfolding find put
length-put_new e [] h = omega arith
length-put_new e (f ∷ m) h = ground (arith, length-put_new e m)

pub length-put_old :
    (e : Entry) (m : List Entry) → is_some (find e.job.id m) ≡ true → length (put e m) ≡ length m
unfolding find put
length-put_old e [] h = ground arith
length-put_old e (f ∷ m) h = ground (arith, length-put_old e m)

pub length-delete-le : (id : Text) (m : List Entry) → length (delete id m) ≤ length m
unfolding delete
length-delete-le id [] = omega arith
length-delete-le id (f ∷ m) = ground (arith, length-delete-le id m)

pub length-delete-lt :
    (id : Text) (m : List Entry) → is_some (find id m) ≡ true → length (delete id m) < length m
unfolding delete find
length-delete-lt id [] h = ground arith
length-delete-lt id (f ∷ m) h = ground (arith, length-delete-le id m, length-delete-lt id m)

-- The heap's order is strict, and total on entries of different sequence numbers.
pub less_irrefl : (a : Entry) → less a a ≡ false
unfolding less
less_irrefl a = ground arith

pub less_trans : (a b c : Entry) → less a b ≡ true → less b c ≡ true → less a c ≡ true
unfolding less
less_trans a b c h k = ground arith

pub less_total : (a b : Entry) → a.seq < b.seq → less b a ≡ false → less a b ≡ true
unfolding less
less_total a b h k = ground arith

abbrev pub IsSorted : List Entry → Type 0
IsSorted [] = Unit
IsSorted (e ∷ h) = All (λ f. less e f ≡ true) h × IsSorted h

pub All-heap_push {κ} :
    (P : Entry → Type κ) (e : Entry) (h : List Entry) → P e → All P h → All P (heap_push e h)
unfolding heap_push
All-heap_push P e [] p a = (p, tt)
All-heap_push P e (f ∷ h) p a = ground (arith, All-heap_push P e h p)

pub Below-All :
    (e f : Entry) (h : List Entry)
    → less e f ≡ true
    → All (λ g. less f g ≡ true) h
    → All (λ g. less e g ≡ true) h
Below-All e f [] p a = tt
Below-All e f (g ∷ h) p a = (less_trans e f g p a.0, Below-All e f h p a.1)

pub heap_push-IsSorted :
    (e : Entry) (h : List Entry)
    → All (λ f. f.seq < e.seq) h
    → IsSorted h
    → IsSorted (heap_push e h)
unfolding heap_push
heap_push-IsSorted e [] b s = (tt, tt)
heap_push-IsSorted e (f ∷ h) b s = elim (Bool-cases (less e f)) [
  | inl lt ↦ rw lt ((lt, Below-All e f h lt s.0), s)
  | inr ge ↦ rw ge (
    All-heap_push (λ g. less f g ≡ true) e h (less_total f e b.0 ge) s.0,
    heap_push-IsSorted e h b.1 s.1,
  )
]

-- The members of the heap, as data: an index by which proofs go.
pub data In (e : Entry) : List Entry → Type 0 where
  here : {h : List Entry} → In e (e ∷ h)
  there : {f : Entry} {h : List Entry} → In e h → In e (f ∷ h)

pub In-heap_push : (e : Entry) (h : List Entry) → In e (heap_push e h)
unfolding heap_push
In-heap_push e [] = here
In-heap_push e (f ∷ h) = elim (Bool-cases (less e f)) [
  | inl lt ↦ rw lt here
  | inr ge ↦ rw ge (there (In-heap_push e h))
]

pub In-heap_push_old : {g : Entry} (e : Entry) {h : List Entry} → In g h → In g (heap_push e h)
unfolding heap_push
In-heap_push_old {g} e (here {h = t}) = elim (Bool-cases (less e g)) [
  | inl lt ↦ rw lt (there here)
  | inr ge ↦ rw ge here
]
In-heap_push_old e (there {f = f} {h = t} i) = elim (Bool-cases (less e f)) [
  | inl lt ↦ rw lt (there (there i))
  | inr ge ↦ rw ge (there (In-heap_push_old e i))
]

pub All-In {κ} : (P : Entry → Type κ) {e : Entry} {h : List Entry} → All P h → In e h → P e
All-In P a here = a.0
All-In P a (there i) = All-In P a.1 i

pub In-cons_ne : {e f : Entry} {h : List Entry} → ¬ (e ≡ f) → In e (f ∷ h) → In e h
In-cons_ne n here = absurd (n refl)
In-cons_ne n (there i) = i

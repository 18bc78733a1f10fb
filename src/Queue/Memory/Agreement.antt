-- ===== src/Queue/Memory/Agreement.antt =====
-- internal/queue/memory.go: the agreement of map, heap and counters, under the three writes that
-- the calls make. The aliasing of heap and map is the pair `avail_sound`, `avail_complete`.
use mailx.Base.{
  ℕ, ◌≤◌, ◌<◌, ◌≡◌, ◌≢◌, refl, sym, ap, true, false, some, List, ◌∷◌, arith, inl, inr, length, All,
  All-imp, All-and, ◌⊎◌, subst, ◌∙◌,
}
use mailx.Base.Text.{Text, text_eq_iff, text_eq_self}
use mailx.Queue.Memory.Store.{
  Entry, less, find, put, delete, heap_push, find-put, find-delete, find-id, length-put_old,
  length-delete-le, less_irrefl, IsSorted, All-heap_push, heap_push-IsSorted, In, In-heap_push,
  In-heap_push_old, In-cons_ne,
}

-- The map, the heap and the counters agree.
pub record Agrees (capacity : ℕ) (entries avail : List Entry) (seq next_token : ℕ) : Type 0 where
  pub bounded : length entries ≤ capacity
  pub avail_sound : All (λ e. (find e.job.id entries ≡ some e) × (e.claimed ≡ false)) avail
  pub avail_complete :
      (id : Text) (e : Entry) → find id entries ≡ some e → e.claimed ≡ false → In e avail
  pub sorted : IsSorted avail
  pub seqs : (id : Text) (e : Entry) → find id entries ≡ some e → e.seq ≤ seq
  pub tokens :
      (id : Text) (e : Entry) → find id entries ≡ some e → e.claimed ≡ true → e.token ≤ next_token
  pub one_owner :
      (i j : Text) (e f : Entry)
      → find i entries ≡ some e
      → find j entries ≡ some f
      → e.claimed ≡ true
      → f.claimed ≡ true
      → e.token ≡ f.token
      → i ≡ j

-- What the map holds after a write.
pub find-put_cases :
    (e : Entry) (id : Text) (m : List Entry) {f : Entry}
    → find id (put e m) ≡ some f
    → ((e.job.id ≡ id) × (e ≡ f)) ⊎ ((e.job.id ≢ id) × (find id m ≡ some f))
find-put_cases e id m h = ground (arith, find-put e id m, text_eq_iff e.job.id id)

find-put_ne :
    (e : Entry) (id : Text) (m : List Entry) → e.job.id ≢ id → find id (put e m) ≡ find id m
find-put_ne e id m h = ground (arith, find-put e id m, text_eq_iff e.job.id id)

pub find-put_self : (e : Entry) (m : List Entry) → find e.job.id (put e m) ≡ some e
find-put_self e m = rw (find-put e e.job.id m, text_eq_self e.job.id)

-- An entry that the map does not hold, or holds claimed, is put in unclaimed.
module _ {c : ℕ} {m h : List Entry} {s t : ℕ} (v : Agrees c m h s t) (e : Entry)
    (b : length (put e m) ≤ c) (u : e.claimed ≡ false) (lt : s < e.seq)
    (was : (f : Entry) → find e.job.id m ≡ some f → f.claimed ≡ true) where
  kept :
      (f : Entry)
      → (find f.job.id m ≡ some f) × (f.claimed ≡ false)
      → (find f.job.id (put e m) ≡ some f) × (f.claimed ≡ false)
  kept f p = (
    find-put_ne e f.job.id m
          (λ x. ground (arith, was f (subst (λ i. find i m ≡ some f) (sym x) p.0)))
        ∙ p.0,
    p.1,
  )

  push_complete :
      (id : Text) (f : Entry)
      → find id (put e m) ≡ some f
      → f.claimed ≡ false
      → In f (heap_push e h)
  push_complete id f p k = elim (find-put_cases e id m p) [
    | inl (_, same) ↦ subst (λ x. In x (heap_push e h)) same (In-heap_push e h)
    | inr (_, old) ↦ In-heap_push_old e (v.avail_complete id f old k)
  ]

  pub push-Agrees : Agrees c (put e m) (heap_push e h) e.seq t
  push-Agrees = record {
    bounded = b;
    avail_sound = All-heap_push _ e h (find-put_self e m, u) (All-imp _ _ kept h v.avail_sound);
    avail_complete = push_complete;
    sorted =
        heap_push-IsSorted e h
          (All-imp _ (λ f. f.seq < e.seq) (λ f p. omega (arith, v.seqs f.job.id f p.0)) h
            v.avail_sound)
          v.sorted;
    seqs = λ id f p. elim (find-put_cases e id m p) [
      | inl (_, same) ↦ ground arith
      | inr (_, old) ↦ omega (arith, v.seqs id f old)
    ];
    tokens = λ id f p k. elim (find-put_cases e id m p) [
      | inl (_, same) ↦ ground arith
      | inr (_, old) ↦ v.tokens id f old k
    ];
    one_owner = λ i j x y p q k l z. elim (find-put_cases e i m p) [
      | inl (_, same) ↦ ground arith
      | inr (_, old) ↦ elim (find-put_cases e j m q) [
        | inl (_, same) ↦ ground arith
        | inr (_, old') ↦ v.one_owner i j x y old old' k l z
      ]
    ];
  }

-- The heap's first entry is claimed.
module _ {c : ℕ} {m h : List Entry} {s t : ℕ} (top e : Entry) (v : Agrees c m (top ∷ h) s t)
    (named : e.job.id ≡ top.job.id) (aged : e.seq ≡ top.seq) (u : e.claimed ≡ true)
    (lt : t < e.token) where
  -- The heap holds no second entry of that id.
  pop_kept :
      (f : Entry)
      → (less top f ≡ true) × ((find f.job.id m ≡ some f) × (f.claimed ≡ false))
      → (find f.job.id (put e m) ≡ some f) × (f.claimed ≡ false)
  pop_kept f (l, p) = (find-put_ne e f.job.id m (λ x. clash (sym named ∙ x)) ∙ p.0, p.1)
    where
      clash : top.job.id ≡ f.job.id → ⊥
      clash x =
          let found : find f.job.id m ≡ some top =
            subst (λ i. find i m ≡ some top) x v.avail_sound.0.0 in
          ground (arith, less_irrefl top, p.0)

  pub pop-Agrees : Agrees c (put e m) h s e.token
  pop-Agrees = record {
    bounded = ground (arith, length-put_old e m (rw named (rw v.avail_sound.0.0 refl)), v.bounded);
    avail_sound = All-imp _ _ pop_kept h (All-and _ _ h v.sorted.0 v.avail_sound.1);
    avail_complete = λ id f p k. elim (find-put_cases e id m p) [
      | inl (_, same) ↦ ground arith
      | inr (n, old) ↦
          In-cons_ne
            (λ same. n (named ∙ ap (λ (g : Entry). g.job.id) (sym same) ∙ find-id id m old))
            (v.avail_complete id f old k)
    ];
    sorted = v.sorted.1;
    seqs = λ id f p. elim (find-put_cases e id m p) [
      | inl (_, same) ↦ ground (arith, v.seqs top.job.id top v.avail_sound.0.0)
      | inr (_, old) ↦ v.seqs id f old
    ];
    tokens = λ id f p k. elim (find-put_cases e id m p) [
      | inl (_, same) ↦ ground arith
      | inr (_, old) ↦ omega (arith, v.tokens id f old k)
    ];
    one_owner = λ i j x y p q k l z. elim (find-put_cases e i m p) [
      | inl (a, same) ↦ elim (find-put_cases e j m q) [
        | inl (b, same') ↦ sym a ∙ b
        | inr (_, old) ↦ ground (arith, v.tokens j y old)
      ]
      | inr (_, old) ↦ elim (find-put_cases e j m q) [
        | inl (_, same) ↦ ground (arith, v.tokens i x old)
        | inr (_, old') ↦ v.one_owner i j x y old old' k l z
      ]
    ];
  }

-- A claimed entry leaves the map.
pub delete-Agrees :
    {c : ℕ} {m h : List Entry} {s t : ℕ} (id : Text)
    → Agrees c m h s t
    → ((f : Entry) → find id m ≡ some f → f.claimed ≡ true)
    → Agrees c (delete id m) h s t
delete-Agrees {m = m} {h = h} id v was = record {
  bounded = omega (arith, length-delete-le id m, v.bounded);
  avail_sound = All-imp _ _ still h v.avail_sound;
  avail_complete = λ i f p k. v.avail_complete i f (back i f p) k;
  sorted = v.sorted;
  seqs = λ i f p. v.seqs i f (back i f p);
  tokens = λ i f p k. v.tokens i f (back i f p) k;
  one_owner = λ i j x y p q k l z. v.one_owner i j x y (back i x p) (back j y q) k l z;
}
  where
    back : (i : Text) (f : Entry) → find i (delete id m) ≡ some f → find i m ≡ some f
    back i f p = ground (arith, find-delete id i m)

    still :
        (f : Entry)
        → (find f.job.id m ≡ some f) × (f.claimed ≡ false)
        → (find f.job.id (delete id m) ≡ some f) × (f.claimed ≡ false)
    still f p =
        (ground (arith, find-delete id f.job.id m, text_eq_iff id f.job.id, was f, p.0), p.1)

-- ===== src/Worker/Processor/Protocol/Gates.antt =====
-- internal/worker/permits.go, suppression.go: the steps of the gates before an attempt.
use mailx.Base.{
  Bool, true, false, Option, none, some, List, [], ◌∷◌, ◌++◌, ◌≡◌, refl, arith, subst, sym,
  if_cases, All, All-imp, any, Option-cases, inl, inr,
}
use mailx.Base.Int.{ℤ}
use mailx.Base.Text.{Text, text_eq, text_eq_self}
use mailx.Suppression.{normalize}
use mailx.Worker.World.{
  World, Stored, Permits, SuppressionGate, Answer, saved, already_terminal, unavailable,
  closing_time,
}
use mailx.Worker.Suppress.{
  Enforced, handled, passed, enforce_with, looked_up, recorded, keys, is_suppressed, lookup_key,
  deliverable,
}
use mailx.Worker.Permit.{
  Acquired, refused, permitted, acquire_from, acquire, after_tenant, destination, freed, taken,
}
use mailx.Worker.Processor.Endings.{Excused}
use mailx.Worker.Processor.Protocol.{
  Phase, opened, going, after, needed_of, tenant_keys, ends_all, records, Steps, stay, Deliverable,
}
use mailx.Worker.Processor.Protocol.Runs.{append, one, taken-Steps, freed-Steps, is_ack}

abbrev pub idle : Phase
idle = opened [] (going false)

none_suppressed : (r : Text) → is_suppressed [] r ≡ false
unfolding is_suppressed lookup_key
none_suppressed r = elim (Option-cases (normalize r)) [
  | inl is ↦ rw (is, is_suppressed) refl
  | inr (k, is) ↦ rw (is, is_suppressed) refl
]

deliverable_all : (rs : List Text) → deliverable [] rs ≡ rs
unfolding deliverable
deliverable_all [] = refl
deliverable_all (r ∷ rs) = rw (none_suppressed r, deliverable_all rs) refl

self_any : (rs : List Text) → All (λ r. any (text_eq r) rs ≡ true) rs
self_any [] = tt
self_any (x ∷ rs) = (
  rw (text_eq_self x) refl,
  All-imp (λ r. any (text_eq r) rs ≡ true) (λ r. any (text_eq r) (x ∷ rs) ≡ true)
      (λ r h. ground (arith, h)) rs (self_any rs),
)

module _ (w : World) where
  -- What the permits lead to.
  unfoldable pub Acquires : List Text → Acquired → Type 0
  Acquires want (refused es t) = Steps w idle es idle
  Acquires want (permitted held) = held ≡ want

  given_back : (held : List Text) → Steps w idle (taken held ++ freed held) idle
  given_back held =
      append w idle (opened held (going false)) idle (taken held) (freed held)
        (taken-Steps w [] held) (freed-Steps w held (going false))

  destination-Acquires :
      (p : Permits) (held : List Text) (key : Text) (answer : Option Bool)
      → Acquires (held ++ key ∷ []) (destination w p held key answer)
  unfolding Acquires destination
  destination-Acquires p held key none = given_back held
  destination-Acquires p held key (some false) = given_back held
  destination-Acquires p held key (some true) = refl

  after-Acquires :
      (p : Permits) (domain key : Text) (answer : Option Bool)
      → Acquires (key ∷ p.destination_permit_key domain ∷ []) (after_tenant w p domain key answer)
  unfolding Acquires after_tenant
  after-Acquires p domain key none = stay _
  after-Acquires p domain key (some false) = stay _
  after-Acquires p domain key (some true) =
      destination-Acquires p (key ∷ []) (p.destination_permit_key domain) p.destination_granted

  acquire-Acquires :
      (p : Permits) (domain : Text) (tenant : Option (Option Text))
      → Acquires
          (tenant_keys p tenant ++ p.destination_permit_key domain ∷ [])
          (acquire w p domain tenant)
  unfolding Acquires acquire tenant_keys
  acquire-Acquires p domain none =
      destination-Acquires p [] (p.destination_permit_key domain) p.destination_granted
  acquire-Acquires p domain (some none) = stay _
  acquire-Acquires p domain (some (some tenant)) =
      after-Acquires p domain (p.tenant_permit_key tenant) p.tenant_granted

  pub from-Acquires :
      (domain : Text) (p : Option Permits) → Acquires (needed_of domain p) (acquire_from w domain p)
  unfolding Acquires acquire_from needed_of
  from-Acquires domain none = refl
  from-Acquires domain (some p) = acquire-Acquires p domain p.tenant

module _ (w : World) (m : Stored) where
  -- The answer of the gate, whatever it is.
  abbrev Answers : List (Text × Bool) → Type 0
  Answers answer =
      (gate : SuppressionGate) (a : List (Text × Bool))
      → w.suppression ≡ some gate
      → gate.suppressed_recipients (keys m.envelope.recipients) ≡ some a
      → a ≡ answer

  one_answer :
      (gate : SuppressionGate) (answer : List (Text × Bool))
      → w.suppression ≡ some gate
      → gate.suppressed_recipients (keys m.envelope.recipients) ≡ some answer
      → Answers answer
  one_answer gate answer is asked g a e f = cc

  left_Deliverable :
      (answer : List (Text × Bool)) (rs : List Text)
      → Answers answer
      → All (λ r. any (text_eq r) m.envelope.recipients ≡ true) rs
      → All (Deliverable w m) (deliverable answer rs)
  unfolding deliverable
  left_Deliverable answer [] is h = tt
  left_Deliverable answer (r ∷ rs) is h =
      let rest = left_Deliverable answer rs is h.1 in
      if_cases (All (Deliverable w m)) (is_suppressed answer r) (λ _. rest)
        (λ free. (
          (h.0, λ gate a e f. subst (λ x. is_suppressed x r ≡ false) (sym (is gate a e f)) free),
          rest,
        ))

  deliverable-Deliverable :
      (answer : List (Text × Bool))
      → Answers answer
      → All (Deliverable w m) (deliverable answer m.envelope.recipients)
  deliverable-Deliverable answer is =
      left_Deliverable answer m.envelope.recipients is (self_any m.envelope.recipients)

  unsuppressed-Deliverable : Answers [] → All (Deliverable w m) m.envelope.recipients
  unsuppressed-Deliverable is =
      subst (All (Deliverable w m)) (deliverable_all m.envelope.recipients)
        (deliverable-Deliverable [] is)

  -- What the suppression leads to.
  unfoldable pub Enforces : Enforced → Type 0
  Enforces (handled es c) =
      Steps w idle es (opened [] (after false (is_ack c))) × Excused w.rounds c
  Enforces (passed es rs) = Steps w idle es idle × All (Deliverable w m) rs

  recorded-Enforces :
      (now : ℤ) (map : List (Text × Bool)) (left : List Text) (all : Bool) (answer : Answer)
      → All (Deliverable w m) left
      → Enforces (recorded now map left all answer)
  unfolding Enforces recorded ends_all Excused
  recorded-Enforces now map left all already_terminal h =
      (one w _ _ _ (records [] map all already_terminal), tt)
  recorded-Enforces now map left all unavailable h =
      (one w _ _ _ (records [] map all unavailable), tt)
  recorded-Enforces now map left true saved h = (one w _ _ _ (records [] map true saved), tt)
  recorded-Enforces now map left false saved h = (one w _ _ _ (records [] map false saved), h)

  looked_up-Enforces :
      (now : ℤ) (gate : SuppressionGate) (answer : Option (List (Text × Bool)))
      → w.suppression ≡ some gate
      → gate.suppressed_recipients (keys m.envelope.recipients) ≡ answer
      → Enforces (looked_up now gate m.envelope.recipients answer)
  unfolding Enforces looked_up Excused
  looked_up-Enforces now gate none is asked = (stay _, tt)
  looked_up-Enforces now gate (some []) is asked =
      (stay _, unsuppressed-Deliverable (one_answer gate [] is asked))
  looked_up-Enforces now gate (some (s ∷ more)) is asked =
      recorded-Enforces now (s ∷ more) _ _ _
        (deliverable-Deliverable (s ∷ more) (one_answer gate (s ∷ more) is asked))

  pub with-Enforces :
      (gate : Option SuppressionGate)
      → w.suppression ≡ gate
      → Enforces (enforce_with w m.envelope.recipients gate)
  unfolding Enforces enforce_with
  with-Enforces none is = (stay _, unsuppressed-Deliverable (λ g a e f. absurd (cc)))
  with-Enforces (some gate) is = looked_up-Enforces (w.clock closing_time) gate _ is refl

-- ===== src/Worker/Processor/Protocol/Runs.antt =====
-- internal/worker/processor.go, permits.go: sequences of steps, and the end of a processing.
use mailx.Base.{Bool, true, false, Option, List, [], ◌∷◌, ◌++◌, ◌≡◌, refl, subst, sym}
use mailx.Base.Text.{Text}
use mailx.Retry.State.{State}
use mailx.Worker.World.{
  World, Event, Closing, to_ack, to_release, left_claimed, running, Processed, acked, released_at,
}
use mailx.Worker.Permit.{freed, taken}
use mailx.Worker.Processor.{conclude, close, free_at_end}
use mailx.Worker.Processor.Endings.{Excused}
use mailx.Worker.Processor.Protocol.{
  Phase, opened, closed, going, over, after, Progress, Step, acquires, acks, releases, frees,
  frees_late, Steps, stay, go, Finished, by_ack, by_release, by_lease, not_finished,
}

-- Whether the end of the message is durable before the closing.
abbrev pub is_ack : Closing → Bool
is_ack to_ack = true
is_ack _ = false

module _ (w : World) where
  pub append :
      (p q r : Phase) (xs ys : List Event)
      → Steps w p xs q
      → Steps w q ys r
      → Steps w p (xs ++ ys) r
  append p q r xs ys (stay _) more = more
  append p q r xs ys (go _ p2 _ e es s rest) more =
      go p p2 r e (es ++ ys) s (append p2 q r es ys rest more)

  pub one : (p q : Phase) (e : Event) → Step w p e q → Steps w p (e ∷ []) q
  one p q e s = go p q q e [] s (stay q)

  assoc : (xs : List Text) (k : Text) (ys : List Text) → (xs ++ k ∷ []) ++ ys ≡ xs ++ k ∷ ys
  assoc [] k ys = refl
  assoc (x ∷ xs) k ys = rw (assoc xs k ys) refl

  append_nil : (xs : List Text) → xs ++ [] ≡ xs
  append_nil [] = refl
  append_nil (x ∷ xs) = rw (append_nil xs) refl

  pub taken-Steps :
      (held ks : List Text)
      → Steps w (opened held (going false)) (taken ks) (opened (held ++ ks) (going false))
  taken-Steps held [] =
      subst (λ h. Steps w (opened held (going false)) [] (opened h (going false)))
        (sym (append_nil held)) (stay _)
  taken-Steps held (k ∷ ks) = go _ (opened (held ++ k ∷ []) (going false)) _ _ _ (acquires held k) (
      subst
        (λ h. Steps w (opened (held ++ k ∷ []) (going false)) (taken ks) (opened h (going false)))
        (assoc held k ks) (taken-Steps (held ++ k ∷ []) ks))

  pub freed-Steps : (ks : List Text) (b : Progress) → Steps w (opened ks b) (freed ks) (opened [] b)
  freed-Steps [] b = stay _
  freed-Steps (k ∷ ks) b = go _ (opened ks b) _ _ _ (frees k ks b) (freed-Steps ks b)

  pub freed_late : (ks : List Text) → Steps w (closed ks) (freed ks) (closed [])
  freed_late [] = stay _
  freed_late (k ∷ ks) = go _ (closed ks) _ _ _ (frees_late k ks) (freed_late ks)

  -- The steps are allowed, and they end where the closing says.
  abbrev pub IsOrderly : Phase → Processed → Type 0
  IsOrderly p x = (q : Phase) × Steps w p x.trace q × Finished w x.closing q

  pub conclude-IsOrderly :
      (p : Phase) (events : List Event) (held : List Text) (t : Bool) (c : Closing)
      (s : Option State)
      → Steps w p events (opened held (after t (is_ack c)))
      → Excused w.rounds c
      → IsOrderly p (conclude w events held c s)
  unfolding conclude close free_at_end Excused
  conclude-IsOrderly p events held t to_ack s run ex = (
    closed [],
    append p (opened held over) (closed []) events (acked ∷ freed held) run (
        go (opened held over) (closed held) (closed []) acked (freed held) (acks held)
          (freed_late held)),
    by_ack,
  )
  conclude-IsOrderly p events held t (to_release at) s run ex = (
    closed [],
    append p (opened held (going t)) (closed []) events (released_at at ∷ freed held) run (
        go (opened held (going t)) (closed held) (closed []) (released_at at) (freed held)
          (releases held t at) (freed_late held)),
    by_release at,
  )
  conclude-IsOrderly p events held t left_claimed s run ex =
      (opened [] (going t), append p _ _ events _ run (freed-Steps held (going t)), by_lease t ex)
  conclude-IsOrderly p events held t running s run ex =
      (opened held (going t), append p _ _ events _ run (stay _), not_finished held t ex)

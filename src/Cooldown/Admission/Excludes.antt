-- ===== src/Cooldown/Admission/Excludes.antt =====
-- The lock of brokers/dhan/connection_admission.py among the gates of a host.
use inc_trade.Prelude.{
  ℕ, ◌≡◌, true, false, Option, none, some, List, [], ◌∷◌, ◌≢◌, arith, inl, inr, Bool-cases,
  Option-cases,
}
use inc_trade.Prelude.Dict.{Dict, lookup, insert, lookup-insert}
use inc_trade.Cooldown.Files.{File}
use inc_trade.Cooldown.Admission.{
  Settings, Payload, Gate, new_gate, LockCall, try_acquire, unlock, release,
}

-- The gates of a host, and the one that holds the lock.
pub record Host (P : Type 0) : Type 0 where
  pub gates : Dict P Gate
  pub holder : Option P

-- What a gate does. A new gate is made, also for a process that ends and starts anew: the system has then
-- freed its lock.
pub data Event (P : Type 0) : Type 0 where
  made : P → Settings → ℕ → File Payload → Event P
  acquires : P → LockCall → Event P
  releases : P → Event P

module _ {P : Type 0} (dec : Discrete P) where
  -- On a platform with `fcntl`.
  unfoldable pub step : Event P → Host P → Host P
  unfolding new_gate try_acquire release
  step (made p s now file) h = record {
    gates = insert dec p (new_gate s now file) h.gates;
    holder = unlock dec p h.holder;
  }
  step (acquires p call) h = elim (lookup dec p h.gates) [
    | none ↦ h
    | some g ↦
        let (_, g', holder) = try_acquire dec true call p g h.holder in
        record { gates = insert dec p g' h.gates; holder = holder }
  ]
  step (releases p) h = elim (lookup dec p h.gates) [
    | none ↦ h
    | some g ↦
        let (g', holder) = release dec true p g h.holder in
        record { gates = insert dec p g' h.gates; holder = holder }
  ]

  unfoldable pub run : List (Event P) → Host P → Host P
  unfolding step
  run [] h = h
  run (e ∷ es) h = run es (step e h)

  -- A gate that says that it holds the lock has the file, and is the holder.
  IsHeld : Host P → Type 0
  IsHeld h =
      (p : P) (g : Gate)
      → lookup dec p h.gates ≡ some g
      → g.lock_held ≡ true
      → (g.has_file ≡ true) × (h.holder ≡ some p)

  -- A gate and the holder are in step.
  abbrev IsOwn : P → Gate → Option P → Type 0
  IsOwn p g holder = g.lock_held ≡ true → (g.has_file ≡ true) × (holder ≡ some p)

  -- The gate of `p` is another, and the holder is another only where it was `p` or is `p` now.
  insert-IsHeld :
      (h : Host P) (p : P) (g : Gate) (holder : Option P)
      → IsHeld h
      → IsOwn p g holder
      → ((q : P) → h.holder ≡ some q → p ≢ q → holder ≡ some q)
      → IsHeld (record { gates = insert dec p g h.gates; holder = holder })
  unfolding IsHeld
  insert-IsHeld h p g holder held own others q g' e locked = elim (dec p q) [
    | yes y ↦ ground (arith, lookup-insert dec q p g h.gates, own)
    | no n ↦ ground (arith, lookup-insert dec q p g h.gates, held q g', others q)
  ]

  new_gate-IsOwn :
      (p : P) (s : Settings) (now : ℕ) (file : File Payload) (holder : Option P)
      → IsOwn p (new_gate s now file) holder
  unfolding new_gate
  new_gate-IsOwn p s now file holder locked = absurd (ground arith)

  unlock-other :
      (p q : P) (holder : Option P) → holder ≡ some q → p ≢ q → unlock dec p holder ≡ some q
  unlock-other p q none e n = absurd (ground arith)
  unlock-other p q (some r) e n = ground (arith, n)

  try_acquire-IsOwn :
      (call : LockCall) (p : P) (g : Gate) (holder : Option P)
      → IsOwn p g holder
      → let (_, g', holder') = try_acquire dec true call p g holder in
        IsOwn p g' holder' × ((q : P) → holder ≡ some q → holder' ≡ some q)
  unfolding try_acquire
  try_acquire-IsOwn call p g holder own = elim (Bool-cases g.lock_held) [
    | inl locked ↦ rw locked (λ _. own locked, λ q e. e)
    | inr free ↦ ground (arith, own)
  ]

  release-IsOwn :
      (p : P) (g : Gate) (holder : Option P)
      → IsOwn p g holder
      → let (g', holder') = release dec true p g holder in
        IsOwn p g' holder' × ((q : P) → holder ≡ some q → p ≢ q → holder' ≡ some q)
  unfolding release
  release-IsOwn p g holder own = elim (Bool-cases g.lock_held) [
    | inl locked ↦ ground (arith, own locked)
    | inr free ↦ ground (arith, own)
  ]

  step-IsHeld : (e : Event P) (h : Host P) → IsHeld h → IsHeld (step e h)
  unfolding step IsHeld
  step-IsHeld (made p s now file) h held =
      insert-IsHeld h p (new_gate s now file) (unlock dec p h.holder) held
        (new_gate-IsOwn p s now file (unlock dec p h.holder))
        (λ q e n. unlock-other p q h.holder e n)
  step-IsHeld (acquires p call) h held = elim (Option-cases (lookup dec p h.gates)) [
    | inl e ↦ rw (step, e) held
    | inr (g, e) ↦
        let (own, others) = try_acquire-IsOwn call p g h.holder (held p g e) in
        rw (step, e) (insert-IsHeld h p _ _ held own (λ q e' n. others q e'))
  ]
  step-IsHeld (releases p) h held = elim (Option-cases (lookup dec p h.gates)) [
    | inl e ↦ rw (step, e) held
    | inr (g, e) ↦
        let (own, others) = release-IsOwn p g h.holder (held p g e) in
        rw (step, e) (insert-IsHeld h p _ _ held own others)
  ]

  run-IsHeld : (es : List (Event P)) (h : Host P) → IsHeld h → IsHeld (run es h)
  unfolding run
  run-IsHeld [] h held = held
  run-IsHeld (e ∷ es) h held = run-IsHeld es (step e h) (step-IsHeld e h held)

  -- From a host without gates, in every sequence of gates made, of attempts to acquire, which may end in an
  -- `OSError`, and of releases: while a gate holds the lock, no other gate does.
  pub run-excludes :
      (es : List (Event P)) (p q : P) (g g' : Gate)
      → let h = run es (record { gates = []; holder = none }) in
        lookup dec p h.gates ≡ some g
        → lookup dec q h.gates ≡ some g'
        → p ≢ q
        → g.lock_held ≡ true
        → g'.lock_held ≡ false
  unfolding IsHeld
  run-excludes es p q g g' e e' ne locked =
      let held =
        run-IsHeld es (record { gates = []; holder = none }) (λ r x f. absurd (ground arith)) in
      elim (Bool-cases g'.lock_held) [
        | inl locked' ↦ absurd (ground (arith, held p g e locked, held q g' e' locked', ne))
        | inr free ↦ free
      ]

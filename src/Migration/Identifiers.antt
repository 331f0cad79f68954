-- ===== src/Migration/Identifiers.antt =====
-- The identifiers that the counter hands out.
use milton_prism.Migration.Calls.{tick}
use milton_prism.Migration.Store.{command}
use milton_prism.Prelude.{
  ◌<◌, ℕ, zero, suc, ◌+◌, ◌≡◌, refl, ◌∙◌, subst, arith, inl, inr, Bool-cases, Option-cases, ◌==◌,
  ==_iff,
}
use milton_prism.Migration.World.{next, World, Result, ok, err, M}
use milton_prism.Migration.Ports.{Ports}
use milton_prism.Migration.Sequence.{
  max_identifier_retries, increment, insert_counter, or_else, initialize, attempt_sequence,
  generate_identifier,
}

-- An identifier is the counter's new value, which has grown; a failure leaves the counter alone.
abbrev Counted : World → Result ℕ × World → Type 0
Counted w (ok id, w') = (w.counter < id) × (w'.counter ≡ id)
Counted w (err e, w') = w'.counter ≡ w.counter

command-Counted : (p : Ports) (w : World) → Counted w (command p increment w)
unfolding command increment
command-Counted p w = elim (Option-cases (p.db_fault w.clock)) [
  | inr (n, fails) ↦ rw (fails, command) refl
  | inl runs ↦ elim (Bool-cases (w.counter == 0)) [
    | inl new ↦ rw (runs, command, new, increment) refl
    | inr old ↦ rw (runs, command, old, increment) (omega arith, refl)
  ]
]

Counted-from :
    (w v : World) (x : Result ℕ × World) → v.counter ≡ w.counter → Counted v x → Counted w x
Counted-from w v (ok id, w') h k = (rw (← h) k.0, k.1)
Counted-from w v (err e, w') h k = k ∙ h

or_else-Counted :
    (w : World) (x : Result ℕ × World) (m : M ℕ)
    → Counted w x
    → ((v : World) → Counted v (m v))
    → Counted w (next (ok x.0, x.1) (λ r. or_else r m))
unfolding or_else
or_else-Counted w (ok id, w') m h k = h
or_else-Counted w (err e, w') m h k = Counted-from w w' (m w') h (k w')

-- One round: initialise the counter, or find it initialised and increment it.
initialize-Counted :
    (p : Ports) (m : M ℕ)
    → ((v : World) → Counted v (m v))
    → (w : World) → Counted w (initialize p m w)
unfolding initialize
initialize-Counted p m k w = elim (Bool-cases (p.context_done w.clock)) [
  | inl gone ↦ rw gone refl
  | inr there ↦ elim (Option-cases (p.db_fault (w.clock + 1))) [
    | inr (n, fails) ↦ rw (there, fails, command) refl
    | inl runs ↦ elim (Bool-cases (w.counter == 0)) [
      | inl new ↦
          rw (there, runs, command, new, insert_counter, or_else)
            (omega (arith, (==_iff w.counter 0).0 new), refl)
      | inr old ↦
          rw (there, runs, command, old, insert_counter)
            (or_else-Counted w (command p increment (tick (tick w))) m
              (command-Counted p (tick (tick w))) k)
    ]
  ]
]

sequence-Counted : (p : Ports) (k : ℕ) (w : World) → Counted w (attempt_sequence p k w)
unfolding attempt_sequence
sequence-Counted p zero w = refl
sequence-Counted p (suc k) w = initialize-Counted p (attempt_sequence p k) (sequence-Counted p k) w

-- An identifier that is handed out is greater than the counter was and is what the counter is now, so
-- that no later one equals it; and a failure leaves the counter as it was.
generate_identifier-IsCounted : (p : Ports) (w : World) → Counted w (generate_identifier p w)
unfolding generate_identifier
generate_identifier-IsCounted p w =
    or_else-Counted w (command p increment w) (attempt_sequence p max_identifier_retries)
      (command-Counted p w) (sequence-Counted p max_identifier_retries)

-- Two identifiers that are handed out one after the other increase.
pub generate_identifier-increases :
    (p q : Ports) (u v w : World) (m n : ℕ)
    → generate_identifier p u ≡ (ok m, v)
    → generate_identifier q v ≡ (ok n, w)
    → m < n
generate_identifier-increases p q u v w m n first second =
    let (_, now) = subst (λ x. Counted u x) first (generate_identifier-IsCounted p u) in
    let (greater, _) = subst (λ x. Counted v x) second (generate_identifier-IsCounted q v) in
    subst (λ (k : ℕ). k < n) now greater

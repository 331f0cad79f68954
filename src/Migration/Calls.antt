-- ===== src/Migration/Calls.antt =====
-- A read and a write of the store, case by case, and what may follow them.
use milton_prism.Migration.Keeps.{Keeps, IsFlow}
use milton_prism.Prelude.{
  ℕ, ◌+◌, String, Bool, true, false, Option, none, some, ◌≡◌, refl, Bool-cases, Option-cases, ◌⊎◌,
  inl, inr,
}
use milton_prism.Migration.Domain.{Error, driver, wrapped, Migration, migration_not_found}
use milton_prism.Migration.World.{Doc, World, Result, ok, err, M, next, ◌>>=◌, guard, map_error}
use milton_prism.Migration.Ports.{Ports}
use milton_prism.Migration.Store.{
  put_doc, migration_doc_to_domain, update_matching, run_update, command, update_one,
  update_or_not_found, find_doc, get_by_id,
}

-- An action that follows a read may rely on the document that was read.
abbrev pub ReadsThen : (World → World → Type 0) → {A : Type 0} → ℕ → (Migration → M A) → Type 0
ReadsThen R id f =
    (w : World) (d : Doc)
    → w.docs id ≡ some d
    → d.deleted ≡ false
    → R w (f (migration_doc_to_domain id d) w).1

abbrev pub tick : World → World
tick w = record w { clock = w.clock + 1 }

-- A read finds the live document, or fails; either way only the clock moves.
abbrev pub ReadCases : Ports → ℕ → World → Type 0
ReadCases p id w =
    ((d : Doc) × (w.docs id ≡ some d)
      × (d.deleted ≡ false)
      × (get_by_id p id false w ≡ (ok (migration_doc_to_domain id d), tick w)))
    ⊎ ((e : Error) × (get_by_id p id false w ≡ (err e, tick w)))

read_found :
    (p : Ports) (id : ℕ) (w : World) (o : Option Doc)
    → w.docs id ≡ o
    → p.db_fault w.clock ≡ none
    → ReadCases p id w
unfolding get_by_id
read_found p id w none e h =
    inr (migration_not_found, rw (h, e, get_by_id, ◌>>=◌, map_error, command, find_doc))
read_found p id w (some d) e h = elim (Bool-cases d.deleted) [
  | inl gone ↦
      inr (migration_not_found, rw (h, e, gone, get_by_id, ◌>>=◌, map_error, command, find_doc))
  | inr there ↦ inl (d, e, there, rw (h, e, there, get_by_id, ◌>>=◌, map_error, command, find_doc))
]

pub read_cases : (p : Ports) (id : ℕ) (w : World) → ReadCases p id w
unfolding get_by_id
read_cases p id w = elim (Option-cases (p.db_fault w.clock)) [
  | inl runs ↦ read_found p id w (w.docs id) refl runs
  | inr (n, fails) ↦ inr (
    wrapped "migration: find one failed" (driver n),
    rw (fails, get_by_id, ◌>>=◌, map_error, command),
  )
]

-- A write reaches the live document that passes its filter, or leaves the collection alone.
abbrev pub WriteCases : Ports → String → (Doc → Bool) → (Doc → Doc) → ℕ → World → Type 0
WriteCases p context filter set id w =
    ((d : Doc) × (w.docs id ≡ some d)
      × (filter d ≡ true)
      × (update_or_not_found p context filter set id w ≡ (ok tt, put_doc (tick w) id (set d))))
    ⊎ ((e : Error) × (update_or_not_found p context filter set id w ≡ (err e, tick w)))

module _ (p : Ports) (context : String) (filter : Doc → Bool) (set : Doc → Doc) (id : ℕ) where
  write_found :
      (w : World) (o : Option Doc)
      → w.docs id ≡ o
      → p.db_fault w.clock ≡ none
      → WriteCases p context filter set id w
  unfolding update_or_not_found
  write_found w none e h = inr (
    migration_not_found,
    rw (h, e, ◌>>=◌, map_error, update_one, command, run_update, update_matching),
  )
  write_found w (some d) e h = elim (Bool-cases (filter d)) [
    | inl passes ↦ inl (
      d,
      e,
      passes,
      rw (h, e, passes, ◌>>=◌, map_error, update_one, command, run_update, update_matching),
    )
    | inr fails ↦ inr (
      migration_not_found,
      rw (h, e, fails, ◌>>=◌, map_error, update_one, command, run_update, update_matching),
    )
  ]

  pub write_cases : (w : World) → WriteCases p context filter set id w
  unfolding update_or_not_found
  write_cases w = elim (Option-cases (p.db_fault w.clock)) [
    | inl runs ↦ write_found w (w.docs id) refl runs
    | inr (n, fails) ↦
        inr (wrapped context (driver n), rw (fails, ◌>>=◌, map_error, update_one, command))
  ]

module _ {R : World → World → Type 0} ⦃flow : IsFlow R⦄ where
  pub Keeps-read :
      {A : Type 0} (p : Ports) (id : ℕ) (f : Migration → M A)
      → ReadsThen R id f
      → Keeps R (get_by_id p id false >>= f)
  Keeps-read p id f h = record {
    at = λ w. elim (read_cases p id w) [
      | inl (d, e, l, q) ↦
          rw (q, ◌>>=◌)
            (flow.chain w (tick w) (f (migration_doc_to_domain id d) (tick w)).1
              (flow.tick w (w.clock + 1)) (h (tick w) d e l))
      | inr (e, q) ↦ rw (q, ◌>>=◌) (flow.tick w (w.clock + 1))
    ];
  }

module _ (R : World → World → Type 0) ⦃flow : IsFlow R⦄ where
  -- One step at a given world: by what its first part returns.
  pub next_at :
      {A B : Type 0} (w : World) (x : Result A × World) (f : A → M B)
      → ((a : A) (w' : World) → x ≡ (ok a, w') → R w (f a w').1)
      → ((e : Error) (w' : World) → x ≡ (err e, w') → R w w')
      → R w (next x f).1
  next_at w (ok a, w') f h k = h a w' refl
  next_at w (err e, w') f h k = k e w' refl

  pub guard_at :
      {B : Type 0} (w : World) (b : Bool) (e : Error) (f : Unit {0} → M B)
      → (b ≡ true → R w (f tt w).1)
      → R w (next (guard b e w) f).1
  guard_at w true e f h = h refl
  guard_at w false e f h = flow.stay w

-- ===== src/Migration/Keeps.antt =====
-- How a relation between the world before and the world after passes through the actions of the
-- service: rules for each way to build an action, and for the reads and writes of the store.
use milton_prism.Prelude.{
  ℕ, ◌+◌, String, Bool, true, false, Option, none, some, ◌++◌, [], ◌∷◌, ◌≡◌, refl, Bool-cases, inl,
  inr, List, if◌then◌else◌,
}
use milton_prism.Migration.Domain.{Error, driver, wrapped, migration_not_found}
use milton_prism.Migration.World.{
  Doc, Call, World, Result, ok, err, M, pure, raise, next, relabel, ◌>>=◌, guard, branch, if_wired,
  map_error, attempt, ask, from_result, from_error, record_call,
}
use milton_prism.Migration.Ports.{Ports}
use milton_prism.Migration.Store.{
  put_doc, migration_doc_to_domain, run_update, command, update_one, update_or_not_found, find_doc,
  get_by_id, visible, wrap_driver,
}

-- A relation that chains, and that looks neither at the clock nor at the calls made.
pub record IsFlow (R : World → World → Type 0) : Type 0 where
  pub stay : (w : World) → R w w
  pub chain : (u v w : World) → R u v → R v w → R u w
  pub tick : (w : World) (n : ℕ) → R w (record w { clock = n })
  pub call : (w : World) (cs : List Call) → R w (record w { calls = cs })

pub record Keeps (R : World → World → Type 0) {A : Type 0} (m : M A) : Type 0 where
  pub at : (w : World) → R w (m w).1

module _ (R : World → World → Type 0) ⦃flow : IsFlow R⦄ where
  bind_at :
      {A B : Type 0} (f : A → M B)
      → ((a : A) → Keeps R (f a))
      → (w : World) (x : Result A × World) → R w x.1
      → R w (next x f).1
  bind_at f hf w (ok a, w') h = flow.chain w w' (f a w').1 h ((hf a).at w')
  bind_at f hf w (err e, w') h = h

  attempt_at : {A : Type 0} (w : World) (x : Result A × World) → R w x.1 → R w x.1
  attempt_at w (r, w') h = h

  map_error_at :
      {A : Type 0} (f : Error → Error) (w : World) (x : Result A × World)
      → R w x.1
      → R w (relabel f x).1
  map_error_at f w (ok a, w') h = h
  map_error_at f w (err e, w') h = h

  command_at :
      {A : Type 0} (run : World → Result A × World) (w w' : World) (o : Option ℕ)
      → R w w'
      → R w' (run w').1
      → R w (elim o as (λ _. Result A × World) [ none ↦ run w' | some e ↦ (err (driver e), w') ]).1
  command_at run w w' none h k = flow.chain w w' (run w').1 h k
  command_at run w w' (some e) h k = h

  find_at : (filter : Doc → Bool) (id : ℕ) (w : World) → R w (find_doc filter id w).1
  unfolding find_doc
  find_at filter id w =
      elim (w.docs id)
        as (λ o.
          R w
            (elim o as (λ _. Result Doc × World) [
              | none ↦ (err migration_not_found, w)
              | some d ↦ (if filter d then ok d else err migration_not_found, w)
            ]).1) [ none ↦ flow.stay w | some d ↦ flow.stay w ]

  -- A write keeps `R` if it does so on each document that passes its filter.
  abbrev Writes : (Doc → Bool) → (Doc → Doc) → ℕ → Type 0
  Writes filter set id =
      (w : World) (d : Doc) → w.docs id ≡ some d → filter d ≡ true → R w (put_doc w id (set d))

  update_found :
      (filter : Doc → Bool) (set : Doc → Doc) (id : ℕ) (w : World)
      → Writes filter set id
      → (o : Option Doc) → w.docs id ≡ o
      → R w
          (elim o as (λ _. Bool × World) [
            | none ↦ (false, w)
            | some d ↦ if filter d then (true, put_doc w id (set d)) else (false, w)
          ]).1
  update_found filter set id w h none e = flow.stay w
  update_found filter set id w h (some d) e = elim (Bool-cases (filter d)) [
    | inl passes ↦ rw passes (h w d e passes)
    | inr fails ↦ rw fails (flow.stay w)
  ]

module _ {R : World → World → Type 0} ⦃flow : IsFlow R⦄ where
  pub Keeps-pure : {A : Type 0} (a : A) → Keeps R (pure a)
  Keeps-pure a = record { at = flow.stay }

  pub Keeps-raise : {A : Type 0} (e : Error) → Keeps R (raise {A = A} e)
  Keeps-raise e = record { at = flow.stay }

  pub Keeps-guard : (b : Bool) (e : Error) → Keeps R (guard b e)
  Keeps-guard b e = record { at = flow.stay }

  pub Keeps-from_result : {A : Type 0} (r : Result A) → Keeps R (from_result r)
  Keeps-from_result r = record { at = flow.stay }

  pub Keeps-from_error : (o : Option Error) → Keeps R (from_error o)
  Keeps-from_error o = record { at = flow.stay }

  pub Keeps-ask : {A : Type 0} (f : ℕ → A) → Keeps R (ask f)
  Keeps-ask f = record { at = λ w. flow.tick w (w.clock + 1) }

  pub Keeps-record_call : (c : Call) → Keeps R (record_call c)
  Keeps-record_call c = record { at = λ w. flow.call w (w.calls ++ (c ∷ [])) }

  pub Keeps-bind :
      {A B : Type 0} (m : M A) (f : A → M B)
      → Keeps R m
      → ((a : A) → Keeps R (f a))
      → Keeps R (m >>= f)
  Keeps-bind m f hm hf = record { at = λ w. bind_at R f hf w (m w) (hm.at w) }

  pub Keeps-branch :
      {A : Type 0} (b : Bool) (m n : M A) → Keeps R m → Keeps R n → Keeps R (branch b m n)
  Keeps-branch true m n hm hn = record { at = hm.at }
  Keeps-branch false m n hm hn = record { at = hn.at }

  pub Keeps-if_wired :
      {A B : Type 0} (port : Option A) (f : A → M B) (m : M B)
      → ((a : A) → Keeps R (f a))
      → Keeps R m
      → Keeps R (if_wired port f m)
  Keeps-if_wired none f m hf hm = record { at = hm.at }
  Keeps-if_wired (some a) f m hf hm = record { at = (hf a).at }

  pub Keeps-attempt : {A : Type 0} (m : M A) → Keeps R m → Keeps R (attempt m)
  Keeps-attempt m hm = record { at = λ w. attempt_at R w (m w) (hm.at w) }

  pub Keeps-map_error :
      {A : Type 0} (f : Error → Error) (m : M A) → Keeps R m → Keeps R (map_error f m)
  Keeps-map_error f m hm = record { at = λ w. map_error_at R f w (m w) (hm.at w) }

  pub Keeps-command :
      {A : Type 0} (p : Ports) (run : World → Result A × World)
      → ((w : World) → R w (run w).1)
      → Keeps R (command p run)
  unfolding command
  Keeps-command p run h = record {
    at = λ w.
        command_at R run w (record w { clock = w.clock + 1 }) (p.db_fault w.clock)
          (flow.tick w (w.clock + 1)) (h (record w { clock = w.clock + 1 }));
  }

  pub Keeps-get_by_id : (p : Ports) (id : ℕ) (b : Bool) → Keeps R (get_by_id p id b)
  unfolding get_by_id
  Keeps-get_by_id p id b =
      Keeps-bind
        (map_error (wrap_driver "migration: find one failed") (command p (find_doc (visible b) id)))
        (λ d. pure (migration_doc_to_domain id d))
        (Keeps-map_error (wrap_driver "migration: find one failed")
          (command p (find_doc (visible b) id))
          (Keeps-command p (find_doc (visible b) id) (find_at R (visible b) id)))
        (λ d. Keeps-pure (migration_doc_to_domain id d))

  pub Keeps-update_one :
      (p : Ports) (filter : Doc → Bool) (set : Doc → Doc) (id : ℕ)
      → Writes R filter set id
      → Keeps R (update_one p filter set id)
  unfolding update_one
  Keeps-update_one p filter set id h =
      Keeps-command p (run_update filter set id)
        (λ w. update_found R filter set id w h (w.docs id) refl)

  pub Keeps-update_or_not_found :
      (p : Ports) (context : String) (filter : Doc → Bool) (set : Doc → Doc) (id : ℕ)
      → Writes R filter set id
      → Keeps R (update_or_not_found p context filter set id)
  unfolding update_or_not_found
  Keeps-update_or_not_found p context filter set id h =
      Keeps-bind (map_error (wrapped context) (update_one p filter set id))
        (λ matched. guard matched migration_not_found)
        (Keeps-map_error (wrapped context) (update_one p filter set id) (
          Keeps-command p (run_update filter set id)
            (λ w. update_found R filter set id w h (w.docs id) refl)))
        (λ matched. Keeps-guard matched migration_not_found)

pub ruleset keeps_rules = (
  Keeps-pure, Keeps-raise, Keeps-guard, Keeps-from_result, Keeps-from_error, Keeps-ask,
  Keeps-record_call, Keeps-bind, Keeps-branch, Keeps-if_wired, Keeps-attempt, Keeps-map_error,
  Keeps-get_by_id,
)

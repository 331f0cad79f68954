-- ===== src/Migration/Atomic.antt =====
-- Requests that fail and leave the collection as it was: rules for each way to build an action.
use milton_prism.Prelude.{
  [], ◌∷◌, ◌++◌, ◌+◌, ℕ, String, Bool, true, false, Option, none, some, ◌≡◌, refl, ◌∙◌, inl, inr,
}
use milton_prism.Migration.Domain.{Error}
use milton_prism.Migration.World.{
  World, Doc, Call, Result, ok, err, M, pure, next, relabel, ◌>>=◌, branch, if_wired, map_error,
  ask, record_call,
}
use milton_prism.Migration.Ports.{Ports}
use milton_prism.Migration.Store.{update_or_not_found}
use milton_prism.Migration.Keeps.{Keeps}
use milton_prism.Migration.Calls.{write_cases}
use milton_prism.Migration.Under.{SameDocs}

-- An error stands beside the documents that were there.
abbrev pub Intact : {A : Type 0} → World → Result A × World → Type 0
Intact w (ok a, w') = Unit {0}
Intact w (err e, w') = SameDocs w w'

pub record Atomic {A : Type 0} (m : M A) : Type 0 where
  pub intact : (w : World) → Intact w (m w)

-- An action that cannot fail.
pub record Sure {A : Type 0} (m : M A) : Type 0 where
  pub sure : (w : World) → (a : A) × (w' : World) × (m w ≡ (ok a, w'))

same-Intact : {A : Type 0} (w : World) (x : Result A × World) → SameDocs w x.1 → Intact w x
same-Intact w (ok a, w') h = tt
same-Intact w (err e, w') h = h

Intact-from :
    {A : Type 0} (u w : World) (x : Result A × World) → SameDocs u w → Intact w x → Intact u x
Intact-from u w (ok a, w') h k = tt
Intact-from u w (err e, w') h k = h ∙ k

next-Intact :
    {A B : Type 0} (w : World) (x : Result A × World) (f : A → M B)
    → SameDocs w x.1
    → ((a : A) → Atomic (f a))
    → Intact w (next x f)
next-Intact w (ok a, w') f h k = Intact-from w w' (f a w') h ((k a).intact w')
next-Intact w (err e, w') f h k = h

then-Intact :
    {A B : Type 0} (w : World) (x : Result A × World) (f : A → M B)
    → Intact w x
    → ((a : A) → Sure (f a))
    → Intact w (next x f)
then-Intact w (ok a, w') f h k = let (b, v, q) = (k a).sure w' in rw q tt
then-Intact w (err e, w') f h k = h

relabel-Intact :
    {A : Type 0} (f : Error → Error) (w : World) (x : Result A × World)
    → Intact w x
    → Intact w (relabel f x)
relabel-Intact f w (ok a, w') h = tt
relabel-Intact f w (err e, w') h = h

pub Atomic-Keeps : {A : Type 0} (m : M A) → Keeps SameDocs m → Atomic m
Atomic-Keeps m k = record { intact = λ w. same-Intact w (m w) (k.at w) }

pub Atomic-after :
    {A B : Type 0} (m : M A) (f : A → M B)
    → Keeps SameDocs m
    → ((a : A) → Atomic (f a))
    → Atomic (m >>= f)
Atomic-after m f k h = record { intact = λ w. next-Intact w (m w) f (k.at w) h }

pub Atomic-then :
    {A B : Type 0} (m : M A) (f : A → M B) → Atomic m → ((a : A) → Sure (f a)) → Atomic (m >>= f)
Atomic-then m f h k = record { intact = λ w. then-Intact w (m w) f (h.intact w) k }

pub Atomic-map_error :
    {A : Type 0} (f : Error → Error) (m : M A) → Atomic m → Atomic (map_error f m)
Atomic-map_error f m h = record { intact = λ w. relabel-Intact f w (m w) (h.intact w) }

pub Atomic-branch :
    {A : Type 0} (b : Bool) (m n : M A) → Atomic m → Atomic n → Atomic (branch b m n)
Atomic-branch true m n h k = record { intact = h.intact }
Atomic-branch false m n h k = record { intact = k.intact }

pub Atomic-update :
    (p : Ports) (context : String) (filter : Doc → Bool) (set : Doc → Doc) (id : ℕ)
    → Atomic (update_or_not_found p context filter set id)
Atomic-update p context filter set id = record {
  intact = λ w. elim (write_cases p context filter set id w) [
    | inl (d, e, passes, q) ↦ rw q tt
    | inr (x, q) ↦ rw q refl
  ];
}

pub Sure-pure : {A : Type 0} (a : A) → Sure (pure a)
Sure-pure a = record { sure = λ w. (a, w, refl) }

pub Sure-ask : {A : Type 0} (f : ℕ → A) → Sure (ask f)
Sure-ask f = record { sure = λ w. (f w.clock, record w { clock = w.clock + 1 }, refl) }

pub Sure-record_call : (c : Call) → Sure (record_call c)
Sure-record_call c = record { sure = λ w. (tt, record w { calls = w.calls ++ (c ∷ []) }, refl) }

pub Sure-bind :
    {A B : Type 0} (m : M A) (f : A → M B) → Sure m → ((a : A) → Sure (f a)) → Sure (m >>= f)
Sure-bind m f h k = record { sure = λ w. let (a, v, q) = h.sure w in rw (q, ◌>>=◌) ((k a).sure v) }

pub Sure-branch : {A : Type 0} (b : Bool) (m n : M A) → Sure m → Sure n → Sure (branch b m n)
Sure-branch true m n h k = record { sure = h.sure }
Sure-branch false m n h k = record { sure = k.sure }

pub Sure-if_wired :
    {A B : Type 0} (port : Option A) (f : A → M B) (m : M B)
    → ((a : A) → Sure (f a))
    → Sure m
    → Sure (if_wired port f m)
Sure-if_wired none f m h k = record { sure = k.sure }
Sure-if_wired (some a) f m h k = record { sure = (h a).sure }

pub ruleset atomic_rules = (
  Atomic-after, Atomic-then, Atomic-map_error, Atomic-branch, Atomic-update, Atomic-Keeps,
  Sure-pure, Sure-ask, Sure-record_call, Sure-bind, Sure-branch, Sure-if_wired,
)

-- ===== src/Migration/Ends.antt =====
-- What holds when an action of the migration service returns without an error.
use milton_prism.Prelude.{
  ap, arith, ℕ, String, Bool, true, false, ◌≡◌, refl, sym, ◌∙◌, subst, some, inl, inr,
}
use mathlib.Core.Option.{some-injective}
use milton_prism.Migration.Domain.{Error, Migration}
use milton_prism.Migration.World.{World, Doc, Result, ok, err, M, next, guard, pure, ◌>>=◌}
use milton_prism.Migration.Ports.{Ports}
use milton_prism.Migration.Store.{put_doc, update_or_not_found, get_by_id, migration_doc_to_domain}
use milton_prism.Migration.Keeps.{Keeps}
use milton_prism.Migration.Calls.{tick, read_cases, write_cases}
use milton_prism.Migration.Under.{SameDocs}

abbrev pub Ends : {A : Type 0} → (A → World → Type 0) → Result A × World → Type 0
Ends P (ok a, w) = P a w
Ends P (err e, w) = Unit {0}

pub Ends-next :
    {A B : Type 0} (P : B → World → Type 0) (x : Result A × World) (f : A → M B)
    → ((a : A) (w : World) → x ≡ (ok a, w) → Ends P (f a w))
    → Ends P (next x f)
Ends-next P (ok a, w) f h = h a w refl
Ends-next P (err e, w) f h = tt

pub Ends-guard :
    {B : Type 0} (P : B → World → Type 0) (w : World) (b : Bool) (e : Error) (f : Unit {0} → M B)
    → (b ≡ true → Ends P (f tt w))
    → Ends P (next (guard b e w) f)
Ends-guard P w true e f h = h refl
Ends-guard P w false e f h = tt

pub Ends-same :
    {A B : Type 0} (P : B → World → Type 0) (w : World) (m : M A) (f : A → M B)
    → Keeps SameDocs m
    → ((a : A) (w' : World) → w.docs ≡ w'.docs → Ends P (f a w'))
    → Ends P (next (m w) f)
Ends-same P w m f k h =
    Ends-next P (m w) f λ a w' q. h a w' (subst (λ x. SameDocs w x.1) q (k.at w))

-- A run from a known document that succeeds ends with `P`.
pub record Returns {A : Type 0} (P : A → World → Type 0) (id : ℕ) (d : Doc) (m : M A) : Type 0 where
  pub returns : (w : World) → w.docs id ≡ some d → Ends P (m w)

module _ {B : Type 0} {P : B → World → Type 0} {id : ℕ} {d : Doc} where
  pub Returns-pure : (b : B) → ((w : World) → w.docs id ≡ some d → P b w) → Returns P id d (pure b)
  Returns-pure b h = record { returns = h }

  pub Returns-guard :
      (b : Bool) (e : Error) (f : Unit {0} → M B)
      → (b ≡ true → Returns P id d (f tt))
      → Returns P id d (guard b e >>= f)
  Returns-guard b e f h = record {
    returns = λ w q. Ends-guard P w b e f λ passes. (h passes).returns w q;
  }

  pub Returns-after :
      {A : Type 0} (m : M A) (f : A → M B)
      → Keeps SameDocs m
      → ((a : A) → Returns P id d (f a))
      → Returns P id d (m >>= f)
  Returns-after m f k h = record {
    returns =
        λ w q. Ends-same P w m f k λ a w' same. (h a).returns w' (ap (λ g. g id) (sym same) ∙ q);
  }

  pub Returns-write :
      (p : Ports) (context : String) (filter : Doc → Bool) (set : Doc → Doc) (f : Unit {0} → M B)
      → Returns P id (set d) (f tt)
      → Returns P id d (update_or_not_found p context filter set id >>= f)
  unfolding put_doc
  Returns-write p context filter set f k = record {
    returns = λ w q. elim (write_cases p context filter set id w) [
      | inl (d', e', passes, r) ↦
          let same = some-injective d' d (sym e' ∙ q) in
          rw (r, same) (k.returns (put_doc (tick w) id (set d)) (ground arith))
      | inr (x, r) ↦ rw r tt
    ];
  }

-- A read that succeeds has found a live document.
pub Ends-read :
    {B : Type 0} (P : B → World → Type 0) (p : Ports) (id : ℕ) (w : World) (f : Migration → M B)
    → ((d : Doc)
        → w.docs id ≡ some d
        → d.deleted ≡ false
        → Returns P id d (f (migration_doc_to_domain id d)))
    → Ends P (next (get_by_id p id false w) f)
Ends-read P p id w f h = elim (read_cases p id w) [
  | inl (d, e, l, q) ↦ rw q ((h d e l).returns (tick w) e)
  | inr (e, q) ↦ rw q tt
]

pub ruleset returns_rules = (Returns-guard, Returns-write, Returns-pure, Returns-after)

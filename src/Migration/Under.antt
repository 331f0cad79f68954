-- ===== src/Migration/Under.antt =====
-- Actions of the migration service run on a document that is known: what they may rely on after a
-- read, until their own write.
use milton_prism.Prelude.{
  Option, none, ℕ, String, Bool, true, false, some, ◌≡◌, refl, sym, ◌∙◌, ap, subst, inl, inr, arith,
}
use mathlib.Core.Option.{some-injective}
use milton_prism.Migration.Domain.{Error, Migration}
use milton_prism.Migration.World.{Doc, World, M, ◌>>=◌, guard, branch, if_wired}
use milton_prism.Migration.Ports.{Ports}
use milton_prism.Migration.Store.{put_doc, update_or_not_found, get_by_id, migration_doc_to_domain}
use milton_prism.Migration.Keeps.{IsFlow, Keeps}
use milton_prism.Migration.Calls.{tick, next_at, guard_at, write_cases, Keeps-read}

-- The collection is as it was.
abbrev pub SameDocs : World → World → Type 0
SameDocs w w' = w.docs ≡ w'.docs

instance pub SameDocs-IsFlow : IsFlow SameDocs
SameDocs-IsFlow = record {
  stay = λ w. refl;
  chain = λ u v w p q. p ∙ q;
  tick = λ w n. refl;
  call = λ w cs. refl;
}

-- `m` keeps `R` when it starts with the document `d` under `id`.
pub record Under (R : World → World → Type 0) (id : ℕ) (d : Doc) {A : Type 0} (m : M A)
    : Type 0 where
  pub under : (w : World) → w.docs id ≡ some d → R w (m w).1

module _ {R : World → World → Type 0} ⦃flow : IsFlow R⦄ {id : ℕ} {d : Doc} where
  pub Under-Keeps : {A : Type 0} (m : M A) → Keeps R m → Under R id d m
  Under-Keeps m k = record { under = λ w e. k.at w }

  pub Under-after :
      {A B : Type 0} (m : M A) (f : A → M B)
      → Keeps SameDocs m
      → Keeps R m
      → ((a : A) → Under R id d (f a))
      → Under R id d (m >>= f)
  Under-after m f same k h = record {
    under = λ w e.
        next_at R w (m w) f
          (λ a w' q.
            flow.chain w w' (f a w').1 (subst (λ x. R w x.1) q (k.at w)) (
              (h a).under w'
                (ap (λ g. g id) (sym (subst (λ x. SameDocs w x.1) q (same.at w))) ∙ e)))
          (λ e' w' q. subst (λ x. R w x.1) q (k.at w));
  }

  pub Under-guard :
      {B : Type 0} (b : Bool) (e : Error) (f : Unit {0} → M B)
      → (b ≡ true → Under R id d (f tt))
      → Under R id d (guard b e >>= f)
  Under-guard b e f h = record {
    under = λ w q. guard_at R w b e f (λ passes. (h passes).under w q);
  }

  pub Under-branch :
      {A : Type 0} (b : Bool) (m n : M A)
      → (b ≡ true → Under R id d m)
      → (b ≡ false → Under R id d n)
      → Under R id d (branch b m n)
  Under-branch true m n h k = record { under = (h refl).under }
  Under-branch false m n h k = record { under = (k refl).under }

  pub Under-if_wired :
      {A B : Type 0} (port : Option A) (f : A → M B) (m : M B)
      → ((a : A) → Under R id d (f a))
      → Under R id d m
      → Under R id d (if_wired port f m)
  Under-if_wired none f m h k = record { under = k.under }
  Under-if_wired (some a) f m h k = record { under = (h a).under }

  pub Under-bind :
      {A B : Type 0} (m : M A) (f : A → M B)
      → Under R id d m
      → ((a : A) → Keeps R (f a))
      → Under R id d (m >>= f)
  Under-bind m f h k = record {
    under = λ w e.
        next_at R w (m w) f
          (λ a w' q.
            flow.chain w w' (f a w').1 (subst (λ x. R w x.1) q (h.under w e)) ((k a).at w'))
          (λ e' w' q. subst (λ x. R w x.1) q (h.under w e));
  }

  -- A write, and what follows it on the document written.
  pub Under-write :
      {B : Type 0} (p : Ports) (context : String) (filter : Doc → Bool) (set : Doc → Doc)
      (f : Unit {0} → M B)
      → ((w : World) → w.docs id ≡ some d → filter d ≡ true → R w (put_doc w id (set d)))
      → Under R id (set d) (f tt)
      → Under R id d (update_or_not_found p context filter set id >>= f)
  unfolding put_doc
  Under-write p context filter set f h k = record {
    under = λ w e. elim (write_cases p context filter set id w) [
      | inl (d', e', passes, q) ↦
          let same = some-injective d' d (sym e' ∙ e) in
          rw (q, same)
            (flow.chain w (tick w) (f tt (put_doc (tick w) id (set d))).1 (flow.tick w _) (
              flow.chain (tick w) (put_doc (tick w) id (set d))
                (f tt (put_doc (tick w) id (set d))).1 (h (tick w) e (rw (← same) passes))
                (k.under (put_doc (tick w) id (set d)) (ground arith))))
      | inr (e', q) ↦ rw q (flow.tick w _)
    ];
  }

  pub Under-last_write :
      (p : Ports) (context : String) (filter : Doc → Bool) (set : Doc → Doc)
      → ((w : World) → w.docs id ≡ some d → filter d ≡ true → R w (put_doc w id (set d)))
      → Under R id d (update_or_not_found p context filter set id)
  Under-last_write p context filter set h = record {
    under = λ w e. elim (write_cases p context filter set id w) [
      | inl (d', e', passes, q) ↦
          let same = some-injective d' d (sym e' ∙ e) in
          rw (q, same)
            (flow.chain w (tick w) (put_doc (tick w) id (set d)) (flow.tick w _)
              (h (tick w) e (rw (← same) passes)))
      | inr (e', q) ↦ rw q (flow.tick w _)
    ];
  }

module _ {R : World → World → Type 0} ⦃flow : IsFlow R⦄ where
  pub Keeps-read-Under :
      {A : Type 0} (p : Ports) (id : ℕ) (f : Migration → M A)
      → ((d : Doc) → d.deleted ≡ false → Under R id d (f (migration_doc_to_domain id d)))
      → Keeps R (get_by_id p id false >>= f)
  Keeps-read-Under p id f h = Keeps-read p id f (λ w d e l. (h d l).under w e)

pub ruleset under_rules = (
  Keeps-read-Under, Under-guard, Under-branch, Under-write, Under-last_write, Under-after,
  Under-Keeps,
)

-- ===== src/Migration/Immutable.antt =====
-- What no request changes in a migration: who owns it, what it is made from and what it is made for.
use milton_prism.Migration.Sequence.{roll_back, insert_doc}
use milton_prism.Prelude.{
  inr, inl, Option-cases, arith, ap, ℕ, String, Bool, true, false, Option, none, some, ◌≡◌, refl,
  sym, ◌∙◌, ◌==◌, ==_iff, if◌then◌else◌,
}
use milton_prism.Migration.Domain.{TargetConfig, RestructurePlan}
use mathlib.Core.Option.{some-injective}
use milton_prism.Migration.Moves.Births.{IsBlind}
use milton_prism.Migration.World.{World, Doc}
use milton_prism.Migration.Ports.{Ports}
use milton_prism.Migration.Store.{update_or_not_found, put_doc}
use milton_prism.Migration.Keeps.{IsFlow, Keeps, Keeps-update_or_not_found}

-- The fields of a document that only CreateMigration writes.
pub record Terms : Type 0 where
  pub repository_id : ℕ
  pub repository_url : String
  pub owner_user_id : ℕ
  pub target : Option TargetConfig
  pub source_analysis_summary_id : ℕ
  pub plan : Option RestructurePlan
  pub failure_reason : String

abbrev pub terms : Doc → Terms
terms d = record {
  repository_id = d.repository_id;
  repository_url = d.repository_url;
  owner_user_id = d.owner_user_id;
  target = d.target;
  source_analysis_summary_id = d.source_analysis_summary_id;
  plan = d.plan;
  failure_reason = d.failure_reason;
}

-- Every document is there still, with the same terms.
pub record Preserves (w w' : World) : Type 0 where
  pub preserved :
      (j : ℕ) (d : Doc)
      → w.docs j ≡ some d
      → (d' : Doc) × (w'.docs j ≡ some d') × (terms d' ≡ terms d)

instance pub Preserves-IsFlow : IsFlow Preserves
Preserves-IsFlow = record {
  stay = λ w. record { preserved = λ j d e. (d, e, refl) };
  chain = λ u v w p q. record {
    preserved = λ j d e.
        let (d', e', h) = p.preserved j d e in let (c, k, i) = q.preserved j d' e' in (c, k, i ∙ h);
  };
  tick = λ w n. record { preserved = λ j d e. (d, e, refl) };
  call = λ w cs. record { preserved = λ j d e. (d, e, refl) };
}

put_preserved :
    (w : World) (id j : ℕ) (c d : Doc)
    → w.docs id ≡ some c
    → w.docs j ≡ some d
    → (set : Doc) → terms set ≡ terms c
    → (b : Bool) → (id == j) ≡ b
    → (d' : Doc) × ((if b then some set else w.docs j) ≡ some d') × (terms d' ≡ terms d)
put_preserved w id j c d e k set h true q =
    (set, refl, h ∙ ap terms (some-injective c d (sym e ∙ ap w.docs ((==_iff id j).0 q) ∙ k)))
put_preserved w id j c d e k set h false q = (d, k, refl)

terms_write :
    (filter : Doc → Bool) (set : Doc → Doc) (id : ℕ)
    → ((d : Doc) → terms (set d) ≡ terms d)
    → (w : World) (d : Doc) → w.docs id ≡ some d
    → filter d ≡ true
    → Preserves w (put_doc w id (set d))
unfolding put_doc
terms_write filter set id h w c e _ = record {
  preserved = λ j d k. put_preserved w id j c d e k (set c) (h c) (id == j) refl;
}

pub Keeps-terms :
    (p : Ports) (context : String) (filter : Doc → Bool) (set : Doc → Doc) (id : ℕ)
    → ((d : Doc) → terms (set d) ≡ terms d)
    → Keeps Preserves (update_or_not_found p context filter set id)
Keeps-terms p context filter set id h =
    Keeps-update_or_not_found p context filter set id (terms_write filter set id h)

-- A new document hides none that was there.
new_preserved :
    (w : World) (id j : ℕ) (new d : Doc)
    → w.docs id ≡ none
    → w.docs j ≡ some d
    → (b : Bool) → (id == j) ≡ b
    → (d' : Doc) × ((if b then some new else w.docs j) ≡ some d') × (terms d' ≡ terms d)
new_preserved w id j new d e k true q =
    let clash : none ≡ some d = sym e ∙ ap w.docs ((==_iff id j).0 q) ∙ k in ground arith
new_preserved w id j new d e k false q = (d, k, refl)

pub insert-Preserves : (id : ℕ) (d : Doc) → Keeps Preserves (insert_doc id d)
unfolding insert_doc put_doc
insert-Preserves id new = record {
  at = λ w. elim (Option-cases (w.docs id)) [
    | inl free ↦
        rw (free, insert_doc)
          (record { preserved = λ j d k. new_preserved w id j new d free k (id == j) refl })
    | inr (d, taken) ↦ rw (taken, insert_doc) (Preserves-IsFlow.stay w)
  ];
}

pub undo-Preserves : (w w' : World) → Preserves w (roll_back w w')
unfolding roll_back
undo-Preserves w w' = record { preserved = λ j d e. (d, e, refl) }

instance pub Preserves-IsBlind : IsBlind Preserves
Preserves-IsBlind = record { count = λ w n. record { preserved = λ j d e. (d, e, refl) } }

-- ===== src/Migration/Restart.antt =====
-- StartMigration that fails: while the database answers, its own step back undoes its first write.
use milton_prism.Migration.Ports.{Ports}
use milton_prism.Prelude.{ℕ, Option, ◌≡◌}
use milton_prism.Migration.Domain.{Migration}
use milton_prism.Migration.World.{World, Doc, Result, ok, err}
use milton_prism.Migration.Keeps.{Keeps}
use milton_prism.Migration.Under.{SameDocs-IsFlow}

-- After an error the collection is `g`.
abbrev Back : {A : Type 0} → (ℕ → Option Doc) → Result A × World → Type 0
Back g (ok a, w) = Unit
Back g (err e, w) = (j : ℕ) → w.docs j ≡ g j

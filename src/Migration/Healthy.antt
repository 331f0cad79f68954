-- ===== src/Migration/Healthy.antt =====
-- Reads and writes of the store while the database answers.
use milton_prism.Prelude.{ℕ, String, Bool, true, false, none, some, ◌≡◌, refl}
use milton_prism.Migration.World.{map_error, ◌>>=◌, World, Doc, ok}
use milton_prism.Migration.Ports.{Ports}
use milton_prism.Migration.Store.{
  update_matching, run_update, find_doc, update_one, command, put_doc, update_or_not_found,
  get_by_id, migration_doc_to_domain,
}
use milton_prism.Migration.Calls.{tick}

-- No database command fails.
abbrev pub IsHealthy : Ports → Type 0
IsHealthy p = (t : ℕ) → p.db_fault t ≡ none

pub read_ok :
    (p : Ports) (id : ℕ) (w : World) (d : Doc)
    → IsHealthy p
    → w.docs id ≡ some d
    → d.deleted ≡ false
    → get_by_id p id false w ≡ (ok (migration_doc_to_domain id d), tick w)
unfolding get_by_id
read_ok p id w d h e l = rw (h w.clock, e, l, get_by_id, ◌>>=◌, map_error, command, find_doc) refl

pub write_ok :
    (p : Ports) (context : String) (filter : Doc → Bool) (set : Doc → Doc) (id : ℕ) (w : World)
    (d : Doc)
    → IsHealthy p
    → w.docs id ≡ some d
    → filter d ≡ true
    → update_or_not_found p context filter set id w ≡ (ok tt, put_doc (tick w) id (set d))
unfolding update_or_not_found
write_ok p context filter set id w d h e passes =
    rw (h w.clock, e, passes, ◌>>=◌, map_error, update_one, command, run_update, update_matching)
      refl

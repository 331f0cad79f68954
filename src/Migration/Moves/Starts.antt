-- ===== src/Migration/Moves/Starts.antt =====
-- StartMigration, which moves through ANALYZING and may come back.
use milton_prism.Prelude.{
  refl, ℕ, String, true, false, Option, none, some, ◌≡◌, sym, arith, subst, inl, inr,
}
use milton_prism.Migration.Domain.{Error, Migration, pending, analyzing, designing}
use milton_prism.Migration.World.{pure, World, Doc, Result, M, ◌>>=◌, ◌>>◌, attempt}
use milton_prism.Migration.Ports.{AnalysisSummary, Ports}
use milton_prism.Migration.Store.{
  adopt_analysis, migration_doc_to_domain, put_doc, live, live_in, update_state, adopt_analysis,
  adopt_fields,
}
use milton_prism.Migration.Start.{
  start_normal, start_migration, start_with_reuse, dispatch_analysis, probe, source_summary,
  found_or_raise, settle_adoption, enqueue_decomposition, settle_dispatch,
}
use milton_prism.Migration.Keeps.{
  Keeps-guard, Keeps-bind, keeps_rules, Keeps-pure, Keeps-ask, Keeps-record_call, IsFlow, Keeps,
  keeps_rules,
}
use milton_prism.Migration.Calls.{tick, write_cases}
use milton_prism.Migration.Under.{
  Under-if_wired, Under-bind, under_rules, Under-Keeps, Under-after, SameDocs-IsFlow, Under,
  SameDocs-IsFlow, Under-last_write,
}
use milton_prism.Migration.Diagram.{
  start_edge, Follows, Follows-IsFlow, move-Follows, ◌⟶*◌, one, roll_back_edge, adopt_edge, alive,
  state_number_injective,
}

module _ {R : World → World → Type 0} ⦃flow : IsFlow R⦄ where
  pub probe-Keeps : (p : Ports) (id : ℕ) → Keeps R (probe p id)
  unfolding probe
  probe-Keeps p id = search keeps_rules depth 12

  found_or_raise-Keeps : (r : Result AnalysisSummary) → Keeps R (found_or_raise r)
  unfolding found_or_raise
  found_or_raise-Keeps r = record { at = flow.stay }

  pub source_summary-Keeps : (p : Ports) (id : ℕ) → Keeps R (source_summary p id)
  unfolding source_summary
  source_summary-Keeps p id = search (keeps_rules, found_or_raise-Keeps) depth 12

  pub enqueue-Keeps :
      (p : Ports) (m : Migration) (id : ℕ) (branch : String)
      → Keeps R (enqueue_decomposition p m id branch)
  unfolding enqueue_decomposition
  enqueue-Keeps p m id branch = search keeps_rules depth 16

pub ruleset start_rules = (probe-Keeps, source_summary-Keeps, enqueue-Keeps)

-- A failed step of a start puts an analysing migration back to PENDING.
back_write :
    (id : ℕ) (d : Doc)
    → d.deleted ≡ false
    → d.state ≡ analyzing
    → (w : World) → w.docs id ≡ some d
    → live d ≡ true
    → Follows w (put_doc w id (record d { state = pending }))
back_write id d l h w e _ =
    move-Follows w id d (record d { state = pending }) e l l (rw h (one roll_back_edge))

back-Under :
    (p : Ports) (id : ℕ) (d : Doc)
    → d.deleted ≡ false
    → d.state ≡ analyzing
    → Under Follows id d (update_state p id pending)
unfolding update_state
back-Under p id d l h = search (Under-last_write, back_write)

dispatch-Under :
    (p : Ports) (id : ℕ) (d : Doc)
    → d.deleted ≡ false
    → d.state ≡ analyzing
    → (o : Option Error) → Under Follows id d (settle_dispatch p id o)
unfolding settle_dispatch
dispatch-Under p id d l h none = record { under = λ w e j. ◌⟶*◌.here }
dispatch-Under p id d l h (some x) = record { under = (back-Under p id d l h).under }

adopt_write :
    (id summary_id : ℕ) (branch : String) (w : World) (d : Doc)
    → w.docs id ≡ some d
    → live_in analyzing d ≡ true
    → Follows w (put_doc w id (adopt_fields summary_id branch d))
adopt_write id summary_id branch w d e h =
    let there : d.deleted ≡ false = ground arith in
    move-Follows w id d (adopt_fields summary_id branch d) e there there (
      subst (λ s. alive s ⟶* alive designing)
        (sym (state_number_injective d.state analyzing (ground arith))) (one adopt_edge))

-- An adoption that failed has written nothing, so that its step back starts from ANALYZING.
adopt-Under :
    {A : Type 0} (p : Ports) (id summary_id : ℕ) (branch : String) (d : Doc)
    → d.deleted ≡ false
    → d.state ≡ analyzing
    → (rest : M A) → Keeps Follows rest
    → Under Follows id d
        (attempt (adopt_analysis p id summary_id branch) >>= λ o. settle_adoption p id o >> rest)
unfolding adopt_analysis settle_adoption
adopt-Under p id summary_id branch d l h rest k = record {
  under = λ w e.
      elim (write_cases p "migration: adopt_analysis failed" (live_in analyzing)
        (adopt_fields summary_id branch) id w) [
          | inl (d', e', passes, q) ↦ rw q (
              Follows-IsFlow.chain (tick w)
                (put_doc (tick w) id (adopt_fields summary_id branch d'))
                (rest (put_doc (tick w) id (adopt_fields summary_id branch d'))).1
                (adopt_write id summary_id branch (tick w) d' e' passes)
                (k.at (put_doc (tick w) id (adopt_fields summary_id branch d'))))
          | inr (e', q) ↦ rw q ((back-Under p id d l h).under (tick w) e)
        ];
}

start_write :
    (id : ℕ) (d : Doc)
    → d.deleted ≡ false
    → d.state ≡ pending
    → (w : World) → w.docs id ≡ some d
    → live d ≡ true
    → Follows w (put_doc w id (record d { state = analyzing }))
start_write id d l h w e _ =
    move-Follows w id d (record d { state = analyzing }) e l l (rw h (one start_edge))

dispatch_analysis-Under :
    (p : Ports) (id : ℕ) (d : Doc)
    → d.deleted ≡ false
    → Under Follows id
        (record d { state = analyzing })
        (dispatch_analysis p (migration_doc_to_domain id d))
unfolding dispatch_analysis migration_doc_to_domain
dispatch_analysis-Under p id d l =
    search
      (
        Under-if_wired, Under-after, dispatch-Under, Under-Keeps, Keeps-pure, Keeps-ask,
        Keeps-record_call,
      )
      depth 12

normal-Under :
    (p : Ports) (id : ℕ) (d : Doc)
    → d.deleted ≡ false
    → d.state ≡ pending
    → Under Follows id d (start_normal p (migration_doc_to_domain id d))
unfolding start_normal update_state migration_doc_to_domain
normal-Under p id d l h =
    search (under_rules, Under-bind, start_rules, Keeps-pure, dispatch_analysis-Under, start_write)
      depth 12

enqueue_then-Follows :
    (p : Ports) (m m' : Migration) (id : ℕ) (branch : String)
    → Keeps Follows (enqueue_decomposition p m id branch >> pure m')
enqueue_then-Follows p m m' id branch =
    Keeps-bind (enqueue_decomposition p m id branch) (λ _. pure m') (enqueue-Keeps p m id branch)
      λ _. Keeps-pure m'

settled-Under :
    (p : Ports) (id summary_id : ℕ) (branch : String) (d : Doc) (m m' : Migration)
    → d.deleted ≡ false
    → Under Follows id
        (record d { state = analyzing })
        (attempt (adopt_analysis p id summary_id branch) >>= λ o.
          settle_adoption p id o >> (enqueue_decomposition p m summary_id branch >> pure m'))
settled-Under p id summary_id branch d m m' l =
    adopt-Under p id summary_id branch (record d { state = analyzing }) l refl
      (enqueue_decomposition p m summary_id branch >> pure m')
      (enqueue_then-Follows p m m' summary_id branch)

reuse-Under :
    (p : Ports) (id : ℕ) (d : Doc)
    → d.deleted ≡ false
    → d.state ≡ pending
    → Under Follows id d (start_with_reuse p (migration_doc_to_domain id d))
unfolding start_with_reuse update_state migration_doc_to_domain
reuse-Under p id d l h = search (under_rules, start_rules, settled-Under, start_write) depth 14

pub start_move : (p : Ports) (id : ℕ) → Keeps Follows (start_migration p id)
unfolding start_migration migration_doc_to_domain
start_move p id =
    search (Keeps-bind, Keeps-guard, under_rules, normal-Under, reuse-Under, state_number_injective)
      depth 14

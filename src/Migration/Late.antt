-- ===== src/Migration/Late.antt =====
-- Messages of the workers that arrive late: which of them a finished migration withstands.
use milton_prism.Prelude.{
  ℕ, Bool, true, false, some, List, [], ◌∷◌, ◌≡◌, refl, sym, ◌∙◌, ap, arith, ◌==◌, ==_iff,
  if◌then◌else◌,
}
use mathlib.Core.Option.{some-injective}
use milton_prism.Migration.Domain.{is_terminal_state, analyzing, designing}
use milton_prism.Migration.World.{Doc, World}
use milton_prism.Migration.Ports.{Ports}
use milton_prism.Migration.Store.{live_in, put_doc}
use milton_prism.Migration.Keeps.{
  IsFlow, Keeps, Keeps-branch, Keeps-pure, Keeps-bind, Keeps-update_one,
}
use milton_prism.Migration.Workers.{
  design_failed, analysis_failed, reused, analysed, update_if_any, mark_design_failed,
  mark_analysis_failed, write_reuse, advance_to_designing, Report, deliver, deliver_all,
}

-- A document in a final state is left exactly as it is.
pub record Respects (w w' : World) : Type 0 where
  pub untouched :
      (j : ℕ) (d : Doc) → w.docs j ≡ some d → is_terminal_state d.state ≡ true → w'.docs j ≡ some d

instance pub Respects-IsFlow : IsFlow Respects
Respects-IsFlow = record {
  stay = λ w. record { untouched = λ j d e h. e };
  chain = λ u v w p q. record { untouched = λ j d e h. q.untouched j d (p.untouched j d e h) h };
  tick = λ w n. record { untouched = λ j d e h. e };
  call = λ w cs. record { untouched = λ j d e h. e };
}

put_untouched :
    (w : World) (id j : ℕ) (c d new : Doc)
    → w.docs id ≡ some c
    → w.docs j ≡ some d
    → is_terminal_state c.state ≡ false
    → is_terminal_state d.state ≡ true
    → (b : Bool) → (id == j) ≡ b
    → (if b then some new else w.docs j) ≡ some d
put_untouched w id j c d new e k open_state closed true q =
    let same : c ≡ d = some-injective c d (sym e ∙ ap w.docs ((==_iff id j).0 q) ∙ k) in
    let clash : is_terminal_state d.state ≡ false =
      ap (λ (x : Doc). is_terminal_state x.state) (sym same) ∙ open_state in
    ground arith
put_untouched w id j c d new e k open_state closed false q = k

open_write :
    (filter : Doc → Bool) (set : Doc → Doc) (id : ℕ)
    → ((d : Doc) → filter d ≡ true → is_terminal_state d.state ≡ false)
    → (w : World) (d : Doc) → w.docs id ≡ some d
    → filter d ≡ true
    → Respects w (put_doc w id (set d))
unfolding put_doc
open_write filter set id h w c e passes = record {
  untouched =
      λ j d k closed. put_untouched w id j c d (set c) e k (h c passes) closed (id == j) refl;
}

analyzing_open : (d : Doc) → live_in analyzing d ≡ true → is_terminal_state d.state ≡ false
analyzing_open d h = ground arith

designing_open : (d : Doc) → live_in designing d ≡ true → is_terminal_state d.state ≡ false
designing_open d h = ground arith

deliver-Respects : (p : Ports) (r : Report) → Keeps Respects (deliver p r)
unfolding deliver advance_to_designing write_reuse mark_analysis_failed mark_design_failed
    update_if_any
deliver-Respects p (analysed id n) =
    search (Keeps-branch, Keeps-bind, Keeps-pure, Keeps-update_one, open_write, analyzing_open)
      depth 10
deliver-Respects p (reused id n) =
    search (Keeps-bind, Keeps-pure, Keeps-update_one, open_write, analyzing_open) depth 10
deliver-Respects p (analysis_failed id reason) =
    search (Keeps-bind, Keeps-pure, Keeps-update_one, open_write, analyzing_open) depth 10
deliver-Respects p (design_failed id reason) =
    search (Keeps-bind, Keeps-pure, Keeps-update_one, open_write, designing_open) depth 10

-- The analysis worker's messages and the decomposition's failures, in any number and order, leave a
-- document that is PUSHED, FAILED, CANCELLED or RESTRUCTURING_READY exactly as it is.
pub deliver_all-Respects :
    (p : Ports) (rs : List Report) (w : World) (j : ℕ) (d : Doc)
    → w.docs j ≡ some d
    → is_terminal_state d.state ≡ true
    → (deliver_all p rs w).docs j ≡ some d
unfolding deliver_all
deliver_all-Respects p [] w j d e h = e
deliver_all-Respects p (r ∷ rs) w j d e h =
    deliver_all-Respects p rs (deliver p r w).1 j d
      (((deliver-Respects p r).at w).untouched j d e h) h

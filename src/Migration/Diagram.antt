-- ===== src/Migration/Diagram.antt =====
-- The life of a migration as a diagram: what one request may do to the state of a document.
use milton_prism.Prelude.{
  ℕ, Bool, true, false, Option, none, some, ◌==◌, ==_iff, if◌then◌else◌, ◌≡◌, refl, sym, subst,
  arith,
}
use milton_prism.Migration.Domain.{
  state_number, State, pending, analyzing, designing, awaiting_approval, generating, ready, pushed,
  cancelled, restructuring_ready, is_terminal_state,
}
use milton_prism.Migration.World.{Doc, World}
use milton_prism.Migration.Store.{put_doc}
use milton_prism.Migration.Keeps.{IsFlow}

pub data Status : Type 0 where
  absent erased : Status
  alive : State → Status

abbrev pub status_of : Option Doc → Status
status_of none = absent
status_of (some d) = if d.deleted then erased else alive d.state

abbrev pub status : World → ℕ → Status
status w id = status_of (w.docs id)

infix 40 ◌⟶◌ ◌⟶*◌
pub data ◌⟶◌ : Status → Status → Type 0 where
  create_edge : absent ⟶ alive pending
  start_edge : alive pending ⟶ alive analyzing
  roll_back_edge : alive analyzing ⟶ alive pending
  adopt_edge : alive analyzing ⟶ alive designing
  approve_edge : alive awaiting_approval ⟶ alive generating
  restructure_edge : alive awaiting_approval ⟶ alive restructuring_ready
  publish_edge : alive ready ⟶ alive pushed
  cancel_edge : {s : State} → is_terminal_state s ≡ false → alive s ⟶ alive cancelled
  delete_edge : {s : State} → is_terminal_state s ≡ true → alive s ⟶ erased

pub data ◌⟶*◌ : Status → Status → Type 0 where
  here : {s : Status} → s ⟶* s
  step : {s t u : Status} → s ⟶ t → t ⟶* u → s ⟶* u

pub one : {s t : Status} → s ⟶ t → s ⟶* t
one e = step e here

pub path_append : {s t u : Status} → s ⟶* t → t ⟶* u → s ⟶* u
path_append here q = q
path_append (step e p) q = step e (path_append p q)

-- Every document moves along the diagram, or stays.
abbrev pub Follows : World → World → Type 0
Follows w w' = (j : ℕ) → status w j ⟶* status w' j

instance pub Follows-IsFlow : IsFlow Follows
Follows-IsFlow = record {
  stay = λ w j. here;
  chain = λ u v w p q j. path_append (p j) (q j);
  tick = λ w n j. here;
  call = λ w cs j. here;
}

put_status :
    (w : World) (id j : ℕ) (d : Doc)
    → status w id ⟶* status_of (some d)
    → (b : Bool) → (id == j) ≡ b
    → status w j ⟶* status_of (if b then some d else w.docs j)
put_status w id j d h true e =
    subst (λ (k : ℕ). status w k ⟶* status_of (some d)) ((==_iff id j).0 e) h
put_status w id j d h false e = here

pub put-Follows :
    (w : World) (id : ℕ) (d : Doc) → status w id ⟶* status_of (some d) → Follows w (put_doc w id d)
unfolding put_doc
put-Follows w id d h j = put_status w id j d h (id == j) refl

-- A write that leaves the state and the deletion mark alone, or moves them along an edge.
pub write-Follows :
    (w : World) (id : ℕ) (d d' : Doc)
    → w.docs id ≡ some d
    → status_of (some d) ⟶* status_of (some d')
    → Follows w (put_doc w id d')
write-Follows w id d d' e h =
    put-Follows w id d' (subst (λ o. status_of o ⟶* status_of (some d')) (sym e) h)

-- The same, for a live document whose state is given by an equation.
pub move-Follows :
    (w : World) (id : ℕ) (d d' : Doc)
    → w.docs id ≡ some d
    → d.deleted ≡ false
    → d'.deleted ≡ false
    → alive d.state ⟶* alive d'.state
    → Follows w (put_doc w id d')
move-Follows w id d d' e l l' h = write-Follows w id d d' e (rw (l, l') h)

pub state_number_injective : (s t : State) → (state_number s == state_number t) ≡ true → s ≡ t
state_number_injective s t h = ground arith

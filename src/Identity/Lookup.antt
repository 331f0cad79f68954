-- ===== src/Identity/Lookup.antt =====
-- Look-ups behind writes in the collection of users, and the results of chains of calls.
use milton_prism.Prelude.{
  some_eq, ◌+◌, ℕ, Bool, true, false, ◌&&◌, Option, none, some, List, [], ◌∷◌, ◌≡◌, refl, ap, subst,
  inl, inr, Bool-cases, ◌==◌, ==_iff,
}
use milton_prism.Identity.World.{
  Ports, UserDoc, World, Error, Result, ok, err, M, next, guard, relabel,
}
use milton_prism.Identity.Users.{
  command, write_user, written, find_user, found, find_one, update_one, live_with, mark_deleted,
}

-- No document behind another one has its identifier, as the unique index has it.
abbrev pub same_id : ℕ → UserDoc → Bool
same_id id d = d.user.identifier == id

abbrev pub AreUnique : List UserDoc → Type 0
AreUnique [] = Unit
AreUnique (d ∷ ds) = (find_one (same_id d.user.identifier) ds ≡ none) × AreUnique ds

-- A chain that succeeds has a first part that does.
pub next-ok :
    {A B : Type 0} (x : Result A × World) (f : A → M B) (b : B) (w' : World)
    → next x f ≡ (ok b, w')
    → (a : A) × (v : World) × (x ≡ (ok a, v)) × (f a v ≡ (ok b, w'))
next-ok (ok a, v) f b w' h = (a, v, refl, h)
next-ok (err e, v) f b w' h = cc h

-- A check that is followed by success has passed.
pub guard-ok :
    {A : Type 0} (b : Bool) (e : Error) (k : M A) (w : World) (a : A) (v : World)
    → next (guard b e w) (λ _. k) ≡ (ok a, v)
    → (b ≡ true) × (k w ≡ (ok a, v))
guard-ok true e k w a v h = (refl, h)
guard-ok false e k w a v h = cc h

pub relabel-ok :
    {A : Type 0} (f : Error → Error) (x : Result A × World) (a : A) (v : World)
    → relabel f x ≡ (ok a, v)
    → x ≡ (ok a, v)
relabel-ok f (ok a', v') a v h = h
relabel-ok f (err e, v') a v h = cc h

abbrev mapped : (UserDoc → UserDoc) → Option UserDoc → Option UserDoc
mapped set none = none
mapped set (some d) = some (set d)

-- A write that keeps a document in its filter is read back.
pub find-update :
    (filter : UserDoc → Bool) (set : UserDoc → UserDoc) (ds : List UserDoc) (d : UserDoc)
    → ((x : UserDoc) → filter x ≡ true → filter (set x) ≡ true)
    → find_one filter ds ≡ some d
    → find_one filter (update_one filter set ds) ≡ some (set d)
unfolding find_one update_one
find-update filter set [] d keeps h = cc h
find-update filter set (x ∷ ds) d keeps h = elim (Bool-cases (filter x)) [
  | inl mine ↦ rw (mine, update_one) (rw (keeps x mine) (ap (λ o. mapped set o) (rw mine at h)))
  | inr other ↦
      rw (other, update_one) (rw other (find-update filter set ds d keeps (rw other at h)))
]

-- What a filter narrower than an identifier does not find.
pub find-narrow :
    (id : ℕ) (ds : List UserDoc)
    → find_one (same_id id) ds ≡ none
    → find_one (live_with id) ds ≡ none
unfolding find_one
find-narrow id [] h = refl
find-narrow id (x ∷ ds) h = elim (Bool-cases (same_id id x)) [
  | inl mine ↦ absurd (cc (rw mine at h))
  | inr other ↦ rw other (find-narrow id ds (rw other at h))
]

pub live_with-id : (id : ℕ) (x : UserDoc) → live_with id x ≡ true → x.user.identifier ≡ id
live_with-id id x h = elim (Bool-cases (same_id id x)) [
  | inl q ↦ (==_iff x.user.identifier id).0 q
  | inr q ↦ absurd (cc (rw q at h))
]

and_false : (b : Bool) → (b && false) ≡ false
and_false true = refl
and_false false = refl

-- Behind a soft delete no live document has the identifier.
pub find-deleted :
    (now id : ℕ) (ds : List UserDoc)
    → AreUnique ds
    → find_one (live_with id) (update_one (live_with id) (mark_deleted now) ds) ≡ none
unfolding find_one update_one mark_deleted
find-deleted now id [] u = refl
find-deleted now id (x ∷ ds) u = elim (Bool-cases (live_with id x)) [
  | inl mine ↦
      rw (mine, update_one)
        (rw (and_false (same_id id x)) (
          find-narrow id ds
            (subst (λ (k : ℕ). find_one (same_id k) ds ≡ none) (live_with-id id x mine) u.0)))
  | inr other ↦ rw (other, update_one) (rw other (find-deleted now id ds u.1))
]

found-ok :
    (o : Option UserDoc) (w v : World) (d : UserDoc)
    → ◌≡◌ {A = Result UserDoc × World} (found o, w) (ok d, v)
    → (o ≡ some d) × (v ≡ w)
found-ok none w v d h = cc h
found-ok (some x) w v d h = (cc h, cc h)

-- A read that succeeds gives the document found and leaves the users as they are.
pub read-ok :
    (p : Ports) (filter : UserDoc → Bool) (w v : World) (d : UserDoc)
    → command p (find_user filter) w ≡ (ok d, v)
    → (find_one filter w.users ≡ some d) × (v ≡ record w { clock = w.clock + 1 })
unfolding find_user
read-ok p filter w v d h = elim (Bool-cases (p.db_fault w.clock)) [
  | inl q ↦ absurd (cc (rw q at h))
  | inr q ↦ found-ok (find_one filter w.users) (record w { clock = w.clock + 1 }) v d (rw q at h)
]

written-ok :
    (o : Option UserDoc) (refused : Bool) (filter : UserDoc → Bool) (set : UserDoc → UserDoc)
    (w v : World) (u : Unit {0})
    → written o refused filter set w ≡ (ok u, v)
    → (d : UserDoc) × (o ≡ some d) × (v ≡ record w { users = update_one filter set w.users })
written-ok none refused filter set w v u h = cc h
written-ok (some d) true filter set w v u h = cc h
written-ok (some d) false filter set w v u h = (d, refl, cc h)

-- A write that succeeds has found a document and changed it.
pub write-ok :
    (p : Ports) (refused : Bool) (filter : UserDoc → Bool) (set : UserDoc → UserDoc) (w v : World)
    (u : Unit {0})
    → command p (write_user refused filter set) w ≡ (ok u, v)
    → (d : UserDoc) × (find_one filter w.users ≡ some d)
      × (v ≡ record w { users = update_one filter set w.users; clock = w.clock + 1 })
unfolding write_user
write-ok p refused filter set w v u h = elim (Bool-cases (p.db_fault w.clock)) [
  | inl q ↦ absurd (cc (rw q at h))
  | inr q ↦
      written-ok (find_one filter w.users) refused filter set (record w { clock = w.clock + 1 }) v u
        (rw q at h)
]

pub pair-ok :
    {A : Type 0} (a b : A) (v w : World)
    → ◌≡◌ {A = Result A × World} (ok a, v) (ok b, w)
    → (a ≡ b) × (v ≡ w)
pair-ok a b v w h = (cc h, cc h)

pub find_one-passes :
    (filter : UserDoc → Bool) (ds : List UserDoc) (d : UserDoc)
    → find_one filter ds ≡ some d
    → filter d ≡ true
unfolding find_one
find_one-passes filter [] d h = cc h
find_one-passes filter (x ∷ ds) d h = elim (Bool-cases (filter x)) [
  | inl mine ↦ some_eq (λ y. filter y ≡ true) x d mine (rw mine at h)
  | inr other ↦ find_one-passes filter ds d (rw other at h)
]

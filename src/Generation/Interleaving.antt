-- ===== src/Generation/Interleaving.antt =====
-- Goroutines side by side: what stands under a key depends on the one task that writes it, whatever the
-- interleaving.
use milton_prism.Prelude.{
  ℕ, String, false, Option, some, List, [], ◌∷◌, ◌++◌, ◌≡◌, refl, ◌∙◌, ap, ◌⊎◌, inl, inr,
  Bool-cases, if◌then◌else◌,
}
use milton_prism.Generation.Records.{ServiceRecord}
use milton_prism.Generation.Store.{Store, has_key, find_record}
use milton_prism.Generation.Service.{
  Effect, put_record, put_files, invoked, perform, perform_all, Picks, Interleaves, AllDone,
}
use milton_prism.Generation.Keys.{
  merged, find-upsert_self, find-upsert_other, IsUnique, upsert_record-IsUnique,
}

-- What an effect and a list of effects make of the document under a key.
unfoldable pub write_on : ℕ → String → Effect → Option ServiceRecord → Option ServiceRecord
write_on m n (put_record r) o = if has_key m n r then some (merged r o) else o
write_on m n (put_files _ _ _ _) o = o
write_on m n (invoked _) o = o

unfoldable pub latest : ℕ → String → List Effect → Option ServiceRecord → Option ServiceRecord
unfolding write_on
latest m n [] o = o
latest m n (e ∷ es) o = latest m n es (write_on m n e o)

pub latest-append :
    (m : ℕ) (n : String) (es fs : List Effect) (o : Option ServiceRecord)
    → latest m n (es ++ fs) o ≡ latest m n fs (latest m n es o)
unfolding latest
latest-append m n [] fs o = refl
latest-append m n (e ∷ es) fs o = latest-append m n es fs (write_on m n e o)

find-perform :
    (m : ℕ) (n : String) (e : Effect) (s : Store)
    → find_record m n (perform e s).records ≡ write_on m n e (find_record m n s.records)
unfolding perform write_on
find-perform m n (put_record r) s = elim (Bool-cases (has_key m n r)) [
  | inl mine ↦ rw (mine, write_on) (find-upsert_self m n r s.records mine)
  | inr other ↦ rw (other, write_on) (find-upsert_other m n r s.records other)
]
find-perform m n (put_files _ _ _ _) s = refl
find-perform m n (invoked _) s = refl

pub find-perform_all :
    (m : ℕ) (n : String) (es : List Effect) (s : Store)
    → find_record m n (perform_all es s).records ≡ latest m n es (find_record m n s.records)
unfolding perform_all latest
find-perform_all m n [] s = refl
find-perform_all m n (e ∷ es) s =
    find-perform_all m n es (perform e s) ∙ ap (λ o. latest m n es o) (find-perform m n e s)

perform-IsUnique : (e : Effect) (s : Store) → IsUnique s.records → IsUnique (perform e s).records
unfolding perform
perform-IsUnique (put_record r) s u = upsert_record-IsUnique r s.records u
perform-IsUnique (put_files _ _ _ _) s u = u
perform-IsUnique (invoked _) s u = u

pub perform_all-IsUnique :
    (es : List Effect) (s : Store) → IsUnique s.records → IsUnique (perform_all es s).records
unfolding perform_all
perform_all-IsUnique [] s u = u
perform_all-IsUnique (e ∷ es) s u = perform_all-IsUnique es (perform e s) (perform-IsUnique e s u)

-- No effect of the task is on the key.
abbrev pub Misses : ℕ → String → Effect → Type 0
Misses m n (put_record r) = has_key m n r ≡ false
Misses m n (put_files _ _ _ _) = Unit
Misses m n (invoked _) = Unit

abbrev pub IsSilent : ℕ → String → List Effect → Type 0
IsSilent m n [] = Unit
IsSilent m n (e ∷ es) = Misses m n e × IsSilent m n es

abbrev pub AllSilent : ℕ → String → List (List Effect) → Type 0
AllSilent m n [] = Unit
AllSilent m n (t ∷ ts) = IsSilent m n t × AllSilent m n ts

-- `t` is one of the tasks, and no other one is on the key.
pub data Sole (m : ℕ) (n : String) (t : List Effect) : List (List Effect) → Type 0 where
  first : {ts : List (List Effect)} → AllSilent m n ts → Sole m n t (t ∷ ts)
  another :
      {u : List Effect} {ts : List (List Effect)}
      → IsSilent m n u
      → Sole m n t ts
      → Sole m n t (u ∷ ts)

write_on-Misses :
    (m : ℕ) (n : String) (e : Effect) (o : Option ServiceRecord)
    → Misses m n e
    → write_on m n e o ≡ o
unfolding write_on
write_on-Misses m n (put_record r) o h = rw h refl
write_on-Misses m n (put_files _ _ _ _) o h = refl
write_on-Misses m n (invoked _) o h = refl

-- A step of tasks that are all silent is silent and leaves them so.
silent_step :
    (m : ℕ) (n : String) (e : Effect) {ts ts' : List (List Effect)}
    → Picks e ts ts'
    → AllSilent m n ts
    → Misses m n e × AllSilent m n ts'
silent_step m n e Picks.here s = (s.0.0, (s.0.1, s.1))
silent_step m n e (Picks.there p) s = let rest = silent_step m n e p s.1 in (rest.0, (s.0, rest.1))

pub latest-silent :
    (m : ℕ) (n : String) {ts : List (List Effect)} {es : List Effect} (o : Option ServiceRecord)
    → Interleaves ts es
    → AllSilent m n ts
    → latest m n es o ≡ o
unfolding latest
latest-silent m n o (Interleaves.finished d) s = refl
latest-silent m n o (Interleaves.advances {e} {es} p i) s =
    let rest = silent_step m n e p s in
    latest-silent m n (write_on m n e o) i rest.1 ∙ write_on-Misses m n e o rest.0

-- A step of the sole task is its next effect; a step of another one is silent.
Stepped : ℕ → String → Effect → List Effect → List (List Effect) → Type 0
Stepped m n e t ts' =
    ((t' : List Effect) × (t ≡ e ∷ t') × Sole m n t' ts') ⊎ (Misses m n e × Sole m n t ts')

further :
    (m : ℕ) (n : String) (e : Effect) (t u : List Effect) (ts' : List (List Effect))
    → IsSilent m n u
    → Stepped m n e t ts'
    → Stepped m n e t (u ∷ ts')
unfolding Stepped
further m n e t u ts' h (inl (t', q, s)) = inl (t', q, Sole.another h s)
further m n e t u ts' h (inr (q, s)) = inr (q, Sole.another h s)

Sole-step :
    (m : ℕ) (n : String) (e : Effect) (t : List Effect) {ts ts' : List (List Effect)}
    → Picks e ts ts'
    → Sole m n t ts
    → Stepped m n e t ts'
unfolding Stepped
Sole-step m n e t (Picks.here {es}) (Sole.first s) = inl (es, refl, Sole.first s)
Sole-step m n e t Picks.here (Sole.another h s) = inr (h.0, Sole.another h.1 s)
Sole-step m n e t (Picks.there p) (Sole.first s) =
    let rest = silent_step m n e p s in inr (rest.0, Sole.first rest.1)
Sole-step m n e t (Picks.there {t = u} {ts'} p) (Sole.another h s) =
    further m n e t u ts' h (Sole-step m n e t p s)

Sole-done :
    (m : ℕ) (n : String) (t : List Effect) (ts : List (List Effect))
    → AllDone ts
    → Sole m n t ts
    → t ≡ []
Sole-done m n t [] d s = elim s [ ]
Sole-done m n t ([] ∷ ts) d (Sole.first _) = refl
Sole-done m n t ((e ∷ es) ∷ ts) d (Sole.first _) = elim d [ ]
Sole-done m n t ([] ∷ ts) d (Sole.another _ s) = Sole-done m n t ts d s
Sole-done m n t ((e ∷ es) ∷ ts) d (Sole.another _ s) = elim d [ ]

pub latest-Sole :
    (m : ℕ) (n : String) {t : List Effect} {ts : List (List Effect)} {es : List Effect}
    (o : Option ServiceRecord)
    → Interleaves ts es
    → Sole m n t ts
    → latest m n es o ≡ latest m n t o
unfolding latest Stepped
latest-Sole m n {t} {ts} o (Interleaves.finished d) s = rw (Sole-done m n t ts d s) refl
latest-Sole m n {t} o (Interleaves.advances {e} {es} p i) s = elim (Sole-step m n e t p s) [
  | inl (t', q, s') ↦ rw q (latest-Sole m n (write_on m n e o) i s')
  | inr (q, s') ↦
      latest-Sole m n (write_on m n e o) i s'
      ∙ ap (λ o'. latest m n t o') (write_on-Misses m n e o q)
]

-- ===== src/Generation/Reasons.antt =====
-- The failure reason of a record: the store leaves out an empty one, so that a new record does not clear
-- the reason of an earlier failure.
use milton_prism.Prelude.{Bool-cases, inl, inr, Option-cases, ℕ, String, some, List, ◌≡◌, refl, ◌∙◌}
use milton_prism.Generation.Records.{done, ServiceRecord, Answer}
use milton_prism.Generation.Store.{upsert_record, set_record, find_record}
use milton_prism.Generation.Agent.{status_of, reason_of, result_record}
use milton_prism.Generation.Keys.{find-upsert_self, has_key_self}

reason_of-done : (a : Answer) → status_of a ≡ done → reason_of a ≡ ""
unfolding status_of reason_of
reason_of-done a h = elim (Option-cases a.invoke_error) [
  | inr (e, q) ↦ absurd (cc (rw (q, status_of) at h))
  | inl q ↦ elim (Bool-cases a.result.gates_passed) [
    | inl g ↦ rw (q, reason_of, g) refl
    | inr g ↦ absurd (cc (rw (q, status_of, g) at h))
  ]
]

module _ (m : ℕ) (n : String) (a : Answer) (rs : List ServiceRecord) where
  -- The record that a service leaves when it passes is done and has the failure reason of the record
  -- that it takes the place of.
  pub upsert_record-keeps_reason :
      (old : ServiceRecord)
      → find_record m n rs ≡ some old
      → status_of a ≡ done
      → (r : ServiceRecord) × (find_record m n (upsert_record (result_record m n a) rs) ≡ some r)
        × (r.status ≡ done)
        × (r.failure_reason ≡ old.failure_reason)
  unfolding result_record set_record
  upsert_record-keeps_reason old e h = (
    set_record (result_record m n a) old,
    find-upsert_self m n (result_record m n a) rs (has_key_self m n (result_record m n a) refl refl)
        ∙ rw e refl,
    h,
    rw (reason_of-done a h) refl,
  )

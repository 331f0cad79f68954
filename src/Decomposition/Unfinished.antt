-- ===== src/Decomposition/Unfinished.antt =====
-- From the artifacts of the decomposition to the generation: services without a finished contract.
use milton_prism.Generation.Package.{spec_from}
use milton_prism.Prelude.{
  ℕ, String, Bool, true, false, Option, none, some, List, [], ◌∷◌, ◌≡◌, refl, All, All-get,
  get_elem?, if_ind, if◌then◌else◌,
}
use milton_prism.Migration.Domain.{ProposedService, RestructurePlan}
use milton_prism.Migration.Ports.{ServiceArtifact}
use milton_prism.Migration.Publish.{ServiceSpec}
use milton_prism.Generation.Records.{failed, status_eq, plain_record, ServiceRecord}
use milton_prism.Generation.Service.{
  Effect, put_record, put_files, invoked, Environment, service_task, is_done,
}
use milton_prism.Decomposition.Domain.{ServiceCandidate, DerivedContract, DataOwnership}
use milton_prism.Decomposition.Artifacts.{
  artifact_from, artifacts_of, build_artifacts, find_contract, service_artifact,
}

abbrev pub IsUnfinished : Option DerivedContract → Type 0
IsUnfinished none = Unit
IsUnfinished (some c) = c.incomplete ≡ true

abbrev IsFlagged : List DerivedContract → ServiceArtifact → Type 0
IsFlagged contracts a = IsUnfinished (find_contract a.service_name contracts) → a.incomplete ≡ true

artifact_from-IsFlagged :
    (contracts : List DerivedContract) (name spec : String) (o : Option DerivedContract)
    → find_contract name contracts ≡ o
    → IsFlagged contracts (artifact_from name spec o)
unfolding artifact_from
artifact_from-IsFlagged contracts name spec none e h = refl
artifact_from-IsFlagged contracts name spec (some c) e h = rw e at h

artifacts_of-IsFlagged :
    (contracts : List DerivedContract) (ownership : DataOwnership)
    (candidates : List ServiceCandidate) (ss : List ProposedService)
    → All (IsFlagged contracts) (artifacts_of contracts ownership candidates ss)
unfolding artifacts_of service_artifact
artifacts_of-IsFlagged contracts ownership candidates [] = tt
artifacts_of-IsFlagged contracts ownership candidates (svc ∷ ss) = (
  artifact_from-IsFlagged contracts svc.name _ (find_contract svc.name contracts) refl,
  artifacts_of-IsFlagged contracts ownership candidates ss,
)

-- A write of a record that has failed, and no call of the agent.
abbrev pub IsRefusal : Effect → Type 0
IsRefusal (put_record r) = status_eq r.status failed ≡ true
IsRefusal (put_files outcome id name files) = ⊥
IsRefusal (invoked req) = ⊥

if_true-All :
    (b : Bool) (xs ys : List Effect)
    → b ≡ true
    → All IsRefusal xs
    → All IsRefusal (if b then xs else ys)
if_true-All true xs ys h q = q
if_true-All false xs ys h q = cc

service_task-refuses :
    (env : Environment) (i id : ℕ) (profile : String) (existing : List ServiceRecord)
    (spec : ServiceSpec)
    → spec.incomplete ≡ true
    → All IsRefusal (service_task env i id profile existing spec)
unfolding service_task plain_record
service_task-refuses env i id profile existing spec h =
    if_ind (All IsRefusal) (is_done spec.name existing) _ _ tt (
      if_true-All spec.incomplete _ _ h
        (if_ind (All IsRefusal) (env.record_fault i 0) [] _ tt (refl, tt)))

-- A service for which no contract was derived, or an incomplete one, is never handed to the agent: from its
-- design artifact the generation makes a task that calls no agent and stores no files, and that writes at
-- most a record of the service as failed.
pub build_artifacts-IsRefused :
    (plan : RestructurePlan) (contracts : List DerivedContract) (ownership : DataOwnership)
    (candidates : List ServiceCandidate) (j : ℕ) (a : ServiceArtifact) (env : Environment)
    (i id : ℕ) (profile prompt : String) (existing : List ServiceRecord)
    → get_elem? (build_artifacts plan contracts ownership candidates) j ≡ some a
    → IsUnfinished (find_contract a.service_name contracts)
    → All IsRefusal (service_task env i id profile existing (spec_from plan.services prompt a))
unfolding build_artifacts spec_from
build_artifacts-IsRefused plan contracts ownership candidates j a env i id profile prompt existing e
      h =
    service_task-refuses env i id profile existing (spec_from plan.services prompt a) (
      All-get (IsFlagged contracts) (artifacts_of contracts ownership candidates plan.services) j a
        (artifacts_of-IsFlagged contracts ownership candidates plan.services) e h)

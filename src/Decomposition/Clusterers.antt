-- ===== src/Decomposition/Clusterers.antt =====
-- core/worker/decomposition: the clusterer that asks a language model (application/llm_clusterer.go) and the
-- cascade (infrastructure/adapters/cascade_clusterer.go). An answer of the model is parsed by its client; the
-- prompts, and the error text that a second one repeats, are not modelled.
use milton_prism.Prelude.{
  ℕ, String, Bool, true, false, not, ◌&&◌, ◌||◌, Option, none, some, List, [], ◌∷◌, if◌then◌else◌,
  sort_strings, sort_by,
}
use milton_prism.Migration.Domain.{CandidateGrouping}
use milton_prism.Migration.Publish.{is_nil}
use milton_prism.Decomposition.Domain.{
  Edge, Classification, Cluster, ClusteringResult, is_in, is_incoherent_fallback,
}

-- The modules of one group, against those seen so far: none is an error.
unfoldable pub validate_modules : List String → List String → List String → Option (List String)
validate_modules domain seen [] = some seen
validate_modules domain seen (m ∷ ms) =
    let rest = validate_modules domain (m ∷ seen) ms in
    if not (is_in m domain) then none else if is_in m seen then none else rest

unfoldable pub validate_groups :
    List String → List String → List CandidateGrouping → Option (List String)
unfolding validate_modules
validate_groups domain seen [] = some seen
validate_groups domain seen (g ∷ gs) = elim (validate_modules domain seen g.modules) [
  | none ↦ none
  | some seen' ↦ validate_groups domain seen' gs
]

abbrev pub is_some : Option (List String) → Bool
is_some none = false
is_some (some _) = true

-- validateProposal
unfoldable pub validate_proposal : List CandidateGrouping → List String → Bool
unfolding validate_groups
validate_proposal groups domain = is_some (validate_groups domain [] groups)

unfoldable pub groups_to_clusters : List CandidateGrouping → List Cluster
unfolding sort_by
groups_to_clusters [] = []
groups_to_clusters (g ∷ gs) =
    let rest = groups_to_clusters gs in
    if is_nil g.modules
    then rest
    else record { blueprint_group = g.name; modules = sort_strings g.modules } ∷ rest

unfoldable pub accept : List CandidateGrouping → ClusteringResult
unfolding groups_to_clusters
accept groups = record {
  clusters = groups_to_clusters groups;
  low_confidence = is_nil (groups_to_clusters groups);
  candidate_groupings = groups;
  restructure_recs = [];
}

abbrev pub no_boundaries : ClusteringResult
no_boundaries = record {
  clusters = [];
  low_confidence = true;
  candidate_groupings = [];
  restructure_recs = [];
}

-- The second request, behind a proposal that is not valid.
unfoldable pub retried : List String → Option (List CandidateGrouping) → Option ClusteringResult
unfolding validate_proposal accept
retried domain none = none
retried domain (some groups) =
    some (if validate_proposal groups domain then accept groups else no_boundaries)

unfoldable pub first_tried :
    List String
    → Option (List CandidateGrouping)
    → Option (List CandidateGrouping)
    → Option ClusteringResult
unfolding validate_proposal accept retried
first_tried domain none second = none
first_tried domain (some groups) second =
    if validate_proposal groups domain then some (accept groups) else retried domain second

-- LLMClusterer.Cluster: `answer` is what the model proposes to the first and to the second request.
unfoldable pub llm_cluster :
    (ℕ → Option (List CandidateGrouping)) → List String → Option ClusteringResult
unfolding first_tried
llm_cluster answer domain = first_tried domain (answer 0) (answer 1)

-- CascadeClusterer.Cluster, once the primary has answered.
abbrev pub or_primary : ClusteringResult → Option ClusteringResult → Option ClusteringResult
or_primary cr none = some (record cr { low_confidence = true })
or_primary cr (some other) = some other

abbrev pub would_be_low : Classification → ClusteringResult → Bool
would_be_low cls cr = cr.low_confidence || cls.structural_fallback

unfoldable pub after_primary :
    Option (List Edge → Classification → Option ClusteringResult)
    → List Edge
    → Classification
    → ClusteringResult
    → Option ClusteringResult
unfolding is_incoherent_fallback
after_primary fallback edges cls cr =
    if not (is_nil cr.clusters) && not (would_be_low cls cr)
    then some cr
    else if (cls.structural_fallback && would_be_low cls cr)
        && (is_nil cr.clusters || is_incoherent_fallback edges cr.clusters)
    then some cr
    else elim fallback [ none ↦ some cr | some ask ↦ or_primary cr (ask edges cls) ]

unfoldable pub cascade_cluster :
    (List Edge → Classification → Option ClusteringResult)
    → Option (List Edge → Classification → Option ClusteringResult)
    → List Edge
    → Classification
    → Option ClusteringResult
unfolding after_primary
cascade_cluster primary fallback edges cls = elim (primary edges cls) [
  | none ↦ none
  | some cr ↦ after_primary fallback edges cls cr
]

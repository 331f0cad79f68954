-- ===== src/Decomposition/Characterize.antt =====
-- core/worker/decomposition/application/pipeline.go, stage 4: the name, the resources, the dependencies and
-- the prefix of the service that each cluster becomes. `strings.ToLower` is a parameter.
use Prim.Native.String.{len, slice}
use Prim.Native.Char.{code}
use milton_prism.Prelude.{
  ℕ, ◌-◌, String, Bool, false, not, ◌&&◌, ◌||◌, Option, none, some, List, [], ◌∷◌, ◌++◌, ◌==◌,
  if◌then◌else◌, any, leb, str_eq, is_empty, concat, sort_by, sort_strings, text_lt,
}
use milton_prism.Migration.Domain.{OperationalCoupling}
use milton_prism.Worker.Prefixes.{Format, Assigned, allocate}
use milton_prism.Decomposition.Domain.{Edge, Cluster, ServiceCandidate, is_in}

pub record Texts : Type 0 where
  pub to_lower : String → String
  pub format : Format

-- `strings.HasSuffix`
abbrev pub has_suffix : String → String → Bool
has_suffix s t = leb (len t) (len s) && str_eq (slice s (len s - len t) (len s)) t

abbrev pub has_code : ℕ → String → Bool
has_code k String.[] = false
has_code k (String.◌∷◌ c s) = code c == k || has_code k s

-- The last part of `strings.Split` at a one-character separator.
abbrev pub last_segment : ℕ → String → String → String
last_segment separator current String.[] = current
last_segment separator current (String.◌∷◌ c s) =
    last_segment separator (if code c == separator then "" else concat current (String.◌∷◌ c "")) s

-- serviceNameFromBlueprint: the separator is a backslash (92) where there is one, or else a dot (46).
unfoldable pub service_name_from_blueprint : Texts → String → String
service_name_from_blueprint texts group =
    texts.to_lower (last_segment (if has_code 92 group then 92 else 46) "" group)

abbrev pub name_of : Texts → Cluster → String
name_of texts c = service_name_from_blueprint texts c.blueprint_group

abbrev pub is_models : String → Bool
is_models m = has_suffix m ".models"

-- `moduleToService`: the last cluster that lists the module wins, and a missing key is "".
unfoldable pub find_service : Texts → String → List Cluster → Option String
unfolding service_name_from_blueprint
find_service texts m [] = none
find_service texts m (c ∷ cs) = elim (find_service texts m cs) [
  | some s ↦ some s
  | none ↦ if is_in m c.modules then some (name_of texts c) else none
]

abbrev pub or_no_service : Option String → String
or_no_service none = ""
or_no_service (some s) = s

unfoldable pub service_of : Texts → List Cluster → String → String
unfolding find_service
service_of texts clusters m = or_no_service (find_service texts m clusters)

-- An edge that does not lead to a `continue`.
unfoldable pub leaves : Texts → List Cluster → String → Edge → Bool
unfolding service_of
leaves texts clusters name e =
    str_eq (service_of texts clusters e.from_module) name
    && (not (is_empty (service_of texts clusters e.to_module))
        && not (str_eq (service_of texts clusters e.to_module) name))

abbrev pub add_name : String → List String → List String
add_name n ns = if is_in n ns then ns else n ∷ ns

-- `depsSet`
unfoldable pub data_deps : Texts → List Cluster → String → List Edge → List String → List String
unfolding leaves
data_deps texts clusters name [] deps = deps
data_deps texts clusters name (e ∷ es) deps = data_deps texts clusters name es (
    if leaves texts clusters name e && is_models e.from_module
    then add_name (service_of texts clusters e.to_module) deps
    else deps)

abbrev pub same_coupling : OperationalCoupling → OperationalCoupling → Bool
same_coupling a b =
    str_eq a.from_service b.from_service
    && (str_eq a.to_service b.to_service && str_eq a.source_module b.source_module)

abbrev pub is_known : OperationalCoupling → List OperationalCoupling → Bool
is_known a bs = any (λ b. same_coupling b a) bs

abbrev pub add_coupling : OperationalCoupling → List OperationalCoupling → List OperationalCoupling
add_coupling a bs = if is_known a bs then bs else bs ++ (a ∷ [])

unfoldable pub couplings_of :
    Texts → List Cluster → String → List Edge → List OperationalCoupling → List OperationalCoupling
unfolding leaves
couplings_of texts clusters name [] ops = ops
couplings_of texts clusters name (e ∷ es) ops = couplings_of texts clusters name es (
    if leaves texts clusters name e && not (is_models e.from_module)
    then add_coupling
        (record {
          from_service = service_of texts clusters e.from_module;
          to_service = service_of texts clusters e.to_module;
          source_module = e.from_module;
        })
        ops
    else ops)

abbrev pub coupling_key : OperationalCoupling → String
coupling_key a = concat a.source_module (concat "→" a.to_service)

unfoldable pub model_modules : List String → List String
model_modules [] = []
model_modules (m ∷ ms) = let rest = model_modules ms in if is_models m then m ∷ rest else rest

unfoldable pub candidate : Texts → List Edge → List Cluster → Cluster → String → ServiceCandidate
unfolding data_deps couplings_of model_modules service_name_from_blueprint sort_by
candidate texts edges clusters c prefix = record {
  name = name_of texts c;
  error_prefix = prefix;
  owned_resources = sort_strings (model_modules c.modules);
  deps = sort_strings (data_deps texts clusters (name_of texts c) edges []);
  operational_couplings =
      sort_by (λ a b. text_lt (coupling_key a) (coupling_key b))
        (couplings_of texts clusters (name_of texts c) edges []);
}

abbrev pub prepend :
    ServiceCandidate
    → Option (List ServiceCandidate) × Assigned
    → Option (List ServiceCandidate) × Assigned
prepend k (none, t) = (none, t)
prepend k (some ks, t) = (some (k ∷ ks), t)

-- The loop over the clusters, with the claims of the allocator. An allocation that fails ends it.
unfoldable pub characterize_from :
    Texts
    → List Edge
    → List Cluster
    → List Cluster
    → Assigned
    → Option (List ServiceCandidate) × Assigned
unfolding candidate allocate
characterize_from texts edges clusters [] t = (some [], t)
characterize_from texts edges clusters (c ∷ cs) t =
    elim (allocate texts.format (name_of texts c) t) [
      | none ↦ (none, t)
      | some (prefix, t') ↦
          prepend (candidate texts edges clusters c prefix)
            (characterize_from texts edges clusters cs t')
    ]

unfoldable pub characterize :
    Texts → List Edge → List Cluster → Assigned → Option (List ServiceCandidate) × Assigned
unfolding characterize_from
characterize texts edges clusters t = characterize_from texts edges clusters clusters t

-- ===== src/Score/Signals.antt =====
-- core/worker/decomposition/application/scorer.go: the five signals and the value. The ramps are computed
-- in the source with floats; here they are computed exactly, as fractions rounded to the nearest number.
use milton_prism.Prelude.{
  ℕ, ◌+◌, ◌-◌, ◌*◌, ◌/◌, ◌%◌, ◌^◌, String, ◌&&◌, List, [], ◌∷◌, map, length, ltb, leb, ◌==◌,
  if◌then◌else◌,
}
use milton_prism.Score.Digest.{ModuleCard, Hub, Digest, ScoreComponent, Band, good, fair, bad}

-- `math.Round(num / den)`
unfoldable pub round_div : ℕ → ℕ → ℕ
round_div num den = (2 * num + den) / (2 * den)

-- `40 * clamp01((0.30 - ratio) / 0.30)` for the ratio of `domain` to `n`.
unfoldable pub domain_presence_penalty : ℕ → ℕ → ℕ
unfolding round_div
domain_presence_penalty domain n = round_div (40 * (3 * n - 10 * domain)) (3 * n)

-- The ramp through 0, 12 and 20 for the ratio of `fan_in` to `total`.
unfoldable pub hub_severity_penalty : ℕ → ℕ → ℕ
unfolding round_div
hub_severity_penalty fan_in total =
    if leb total (2 * fan_in)
    then 20
    else if leb (3 * total) (10 * fan_in)
    then round_div (24 * total + 8 * (10 * fan_in - 3 * total)) (2 * total)
    else round_div (120 * fan_in) (3 * total)

abbrev pub god_function_threshold : ℕ
god_function_threshold = 20

unfoldable pub god_modules : List ModuleCard → List String
god_modules [] = []
god_modules (c ∷ cs) =
    let rest = god_modules cs in
    if leb god_function_threshold (length c.functions) && c.is_shared_state_hub
    then c.module_name ∷ rest
    else rest

abbrev pub component : String → ℕ → List String → String → ScoreComponent
component signal penalty modules key = record {
  signal = signal;
  penalty = penalty;
  modules = modules;
  detail_key = key;
}

-- Signal 1. The key names the band of the ratio: below 0.15, below 0.30, or above.
unfoldable pub domain_key : ℕ → ℕ → String
domain_key domain n =
    if ltb (100 * domain) (15 * n)
    then "signal.domain_presence.very_low"
    else if ltb (100 * domain) (30 * n)
    then "signal.domain_presence.low"
    else "signal.domain_presence.ok"

abbrev pub module_count : Digest → ℕ
module_count d = length d.domain_modules + length d.infra_modules

unfoldable pub domain_presence : Digest → ScoreComponent
unfolding domain_presence_penalty domain_key
domain_presence d =
    let n = module_count d in
    let domain = length d.domain_modules in
    if d.domain_empty
    then component "domain_presence" 40 [] "signal.domain_presence.blocked"
    else if ltb 0 n
    then component "domain_presence" (domain_presence_penalty domain n) [] (domain_key domain n)
    else component "domain_presence" 0 [] ""

-- Signal 2.
unfoldable pub cluster_count : Digest → ScoreComponent
cluster_count d = elim d.clusters [
  | [] ↦ component "cluster_count" 25 [] "signal.cluster_count.none"
  | a ∷ [] ↦ component "cluster_count" 15 [] "signal.cluster_count.one"
  | a ∷ b ∷ [] ↦ component "cluster_count" 5 [] "signal.cluster_count.two"
  | a ∷ b ∷ c ∷ more ↦ component "cluster_count" 0 [] "signal.cluster_count.ok"
]

-- `uint32(totalNodes) + worst.FanIn`, with at least one node.
unfoldable pub coupling_total : ℕ → ℕ → ℕ
coupling_total nodes fan_in = ((if nodes == 0 then 1 else nodes) % 2 ^ 32 + fan_in) % 2 ^ 32

unfoldable pub hub_key : ℕ → ℕ → String
hub_key fan_in total =
    if leb total (2 * fan_in)
    then "signal.hub_severity.severe"
    else if leb (3 * total) (10 * fan_in)
    then "signal.hub_severity.moderate"
    else "signal.hub_severity.minor"

-- Signal 3, by the first hub: they are sorted by their fan-in.
unfoldable pub hub_severity_by : ℕ → List Hub → ScoreComponent
unfolding hub_severity_penalty coupling_total hub_key
hub_severity_by nodes [] = component "hub_severity" 0 [] "signal.hub_severity.none"
hub_severity_by nodes (worst ∷ more) =
    let total = coupling_total nodes worst.fan_in in
    component "hub_severity" (hub_severity_penalty worst.fan_in total)
      (map (λ (h : Hub). h.module_name) (worst ∷ more)) (hub_key worst.fan_in total)

unfoldable pub hub_severity : Digest → ScoreComponent
unfolding hub_severity_by
hub_severity d = hub_severity_by (length d.nodes) d.shared_state_hubs

-- Signal 4.
unfoldable pub god_module_signal : Digest → ScoreComponent
unfolding god_modules
god_module_signal d =
    let names = god_modules d.module_cards in
    let p = length names * 5 in
    component "god_modules" (if ltb 10 p then 10 else p) names
      (if length names == 0 then "signal.god_modules.none" else "signal.god_modules.found")

-- Signal 5.
unfoldable pub routing_layout : Digest → ScoreComponent
routing_layout d =
    if d.single_blueprint && d.has_http_routes
    then component "routing_layout" 5 [] "signal.routing_layout.single_blueprint"
    else if d.has_http_routes
    then component "routing_layout" 0 [] "signal.routing_layout.multiple"
    else component "routing_layout" 0 [] "signal.routing_layout.none"

unfoldable pub breakdown : Digest → List ScoreComponent
unfolding domain_presence cluster_count hub_severity god_module_signal routing_layout
breakdown d =
    domain_presence d
    ∷ cluster_count d
    ∷ hub_severity d
    ∷ god_module_signal d
    ∷ routing_layout d
    ∷ []

-- `total -= p` for each signal, and the clamp at 0: once below 0 a difference stays below it.
unfoldable pub subtract_all : ℕ → List ScoreComponent → ℕ
subtract_all total [] = total
subtract_all total (c ∷ cs) = subtract_all (total - c.penalty) cs

unfoldable pub value : Digest → ℕ
unfolding breakdown subtract_all
value d = subtract_all 100 (breakdown d)

unfoldable pub score_band : ℕ → Band
score_band total = if leb 70 total then good else if leb 40 total then fair else bad

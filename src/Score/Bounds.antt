-- ===== src/Score/Bounds.antt =====
-- The value of the score is what the penalties of its signals leave of 100.
use milton_prism.Prelude.{
  ℕ, ◌+◌, ◌-◌, ◌*◌, ◌≤◌, ◌<◌, String, List, [], ◌∷◌, ◌≡◌, inl, inr, Bool-cases, arith, ltb, leb,
  length, if_ind, if◌then◌else◌, ◌&&◌,
}
use native.Mathlib.Nat.{div-lt_iff_lt-mul}
use milton_prism.Score.Digest.{Hub, Digest, ScoreComponent}
use milton_prism.Score.Signals.{
  round_div, domain_presence_penalty, hub_severity_penalty, domain_presence, cluster_count,
  hub_severity_by, hub_severity, god_module_signal, routing_layout, breakdown, subtract_all, value,
  component, module_count, domain_key, coupling_total,
}

below_40 : (num den : ℕ) → 0 < den → num ≤ 40 * den → round_div num den ≤ 40
unfolding round_div
below_40 num den pos h =
    let lt =
      (div-lt_iff_lt-mul {k = 2 * den} {x = 2 * num + den} {y = 41} (omega arith)).1
        (omega arith) in
    omega (arith, lt)

below_20 : (num den : ℕ) → 0 < den → num ≤ 20 * den → round_div num den ≤ 20
unfolding round_div
below_20 num den pos h =
    let lt =
      (div-lt_iff_lt-mul {k = 2 * den} {x = 2 * num + den} {y = 21} (omega arith)).1
        (omega arith) in
    omega (arith, lt)

-- The ramp of the domain modules ends at 40.
pub domain_presence_penalty_bound : (domain n : ℕ) → 0 < n → domain_presence_penalty domain n ≤ 40
unfolding domain_presence_penalty
domain_presence_penalty_bound domain n pos =
    below_40 (40 * (3 * n - 10 * domain)) (3 * n) (omega arith) (omega arith)

-- The ramp of the hubs ends at 20.
pub hub_severity_penalty_bound : (fan_in total : ℕ) → hub_severity_penalty fan_in total ≤ 20
unfolding hub_severity_penalty
hub_severity_penalty_bound fan_in total = elim (Bool-cases (leb total (2 * fan_in))) [
  | inl severe ↦ rw (severe, hub_severity_penalty) (omega arith)
  | inr less ↦
      let small : 2 * fan_in < total = ground arith in
      elim (Bool-cases (leb (3 * total) (10 * fan_in))) [
        | inl moderate ↦
            let large : 3 * total ≤ 10 * fan_in = ground arith in
            rw (less, hub_severity_penalty, moderate)
              (below_20 (24 * total + 8 * (10 * fan_in - 3 * total)) (2 * total) (omega arith)
                (omega arith))
        | inr minor ↦
            rw (less, hub_severity_penalty, minor)
              (below_20 (120 * fan_in) (3 * total) (omega arith) (omega arith))
      ]
]

abbrev Within : ℕ → ScoreComponent → Type 0
Within bound c = c.penalty ≤ bound

domain_presence-Within : (d : Digest) → Within 40 (domain_presence d)
unfolding domain_presence
domain_presence-Within d =
    let n = module_count d in
    let domain = length d.domain_modules in
    let ramp =
      component "domain_presence" (domain_presence_penalty domain n) [] (domain_key domain n) in
    let nothing = component "domain_presence" 0 [] "" in
    if_ind (Within 40) d.domain_empty
      (component "domain_presence" 40 [] "signal.domain_presence.blocked")
      (if ltb 0 n then ramp else nothing) (omega arith)
      (elim (Bool-cases (ltb 0 n)) [
        | inl some_modules ↦ rw some_modules (domain_presence_penalty_bound domain n (ground arith))
        | inr no_modules ↦ rw no_modules (omega arith)
      ])

cluster_count_by :
    (cs : List (List String))
    → Within 25 (elim cs [
      | [] ↦ component "cluster_count" 25 [] "signal.cluster_count.none"
      | a ∷ [] ↦ component "cluster_count" 15 [] "signal.cluster_count.one"
      | a ∷ b ∷ [] ↦ component "cluster_count" 5 [] "signal.cluster_count.two"
      | a ∷ b ∷ c ∷ more ↦ component "cluster_count" 0 [] "signal.cluster_count.ok"
    ])
cluster_count_by [] = omega arith
cluster_count_by (a ∷ []) = omega arith
cluster_count_by (a ∷ b ∷ []) = omega arith
cluster_count_by (a ∷ b ∷ c ∷ more) = omega arith

hub_severity-Within : (nodes : ℕ) (hubs : List Hub) → Within 20 (hub_severity_by nodes hubs)
unfolding hub_severity_by
hub_severity-Within nodes [] = omega arith
hub_severity-Within nodes (worst ∷ more) =
    hub_severity_penalty_bound worst.fan_in (coupling_total nodes worst.fan_in)

god_module_signal-Within : (d : Digest) → Within 10 (god_module_signal d)
unfolding god_module_signal
god_module_signal-Within d = ground arith

routing_layout-Within : (d : Digest) → Within 5 (routing_layout d)
unfolding routing_layout
routing_layout-Within d =
    let multiple = component "routing_layout" 0 [] "signal.routing_layout.multiple" in
    let none_found = component "routing_layout" 0 [] "signal.routing_layout.none" in
    if_ind (Within 5) (d.single_blueprint && d.has_http_routes)
      (component "routing_layout" 5 [] "signal.routing_layout.single_blueprint")
      (if d.has_http_routes then multiple else none_found) (omega arith)
      (if_ind (Within 5) d.has_http_routes multiple none_found (omega arith) (omega arith))

abbrev pub penalties : List ScoreComponent → ℕ
penalties [] = 0
penalties (c ∷ cs) = c.penalty + penalties cs

subtract_all_lem :
    (cs : List ScoreComponent) (total : ℕ)
    → penalties cs ≤ total
    → subtract_all total cs + penalties cs ≡ total
unfolding subtract_all
subtract_all_lem [] total h = omega arith
subtract_all_lem (c ∷ cs) total h =
    omega (arith, subtract_all_lem cs (total - c.penalty) (omega arith))

-- The value and the penalties of the five signals add up to 100: the clamp at 0 takes nothing away.
pub value-breakdown : (d : Digest) → value d + penalties (breakdown d) ≡ 100
unfolding value breakdown cluster_count hub_severity
value-breakdown d = subtract_all_lem (breakdown d) 100 (
    omega (
      arith,
      domain_presence-Within d,
      cluster_count_by d.clusters,
      hub_severity-Within (length d.nodes) d.shared_state_hubs,
      god_module_signal-Within d,
      routing_layout-Within d,
    ))

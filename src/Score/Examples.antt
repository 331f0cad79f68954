-- ===== src/Score/Examples.antt =====
-- The theorems of the score on two digests, and the value of one of them.
use milton_prism.Score.Fuel.{search_from-IsFed}
use milton_prism.Score.Cycles.{visit_roots, sc, all_nodes, node_list, search_from, components}
use milton_prism.Prelude.{sort_by, List, String, true, false, [], ◌∷◌, ◌≡◌, refl, ◌+◌}
use milton_prism.Score.Digest.{Edge, Digest}
use milton_prism.Score.Signals.{god_modules, value, breakdown}
use milton_prism.Score.Bounds.{penalties, value-breakdown}
use milton_prism.Score.Findings.{
  has_domain, cycle_finding, cycle_findings, count_severe, count_high, structural_findings,
  typed_blockers,
}
use milton_prism.Score.Blockers.{IsFree, typed_blockers-IsFree}

abbrev edge : String → String → Edge
edge a b = record { from = a; to = b }

-- Two clusters, two modules that import each other, one moderate hub, a ratio of one to four.
abbrev shop : Digest
shop = record {
  nodes = "orders" ∷ "billing" ∷ "db" ∷ "web" ∷ "log" ∷ [];
  edges = edge "db" "log" ∷ edge "log" "db" ∷ edge "orders" "db" ∷ [];
  clusters = ("orders" ∷ []) ∷ ("billing" ∷ []) ∷ [];
  module_cards = [];
  single_blueprint = true;
  has_http_routes = true;
  domain_modules = "orders" ∷ [];
  infra_modules = "db" ∷ "web" ∷ "log" ∷ [];
  domain_empty = false;
  shared_state_hubs = record { module_name = "db"; fan_in = 3 } ∷ [];
}

value-breakdown_example : value shop + penalties (breakdown shop) ≡ 100
value-breakdown_example = value-breakdown shop

-- 7 for the ratio 1/4, 5 for two clusters, 15 for the hub 3/8, 5 for the one blueprint.
shop_value : value shop ≡ 68
unfolding value
shop_value = refl

typed_blockers-IsFree_example : IsFree shop
unfolding typed_blockers structural_findings count_high count_severe cycle_findings god_modules
    components search_from node_list all_nodes sc visit_roots cycle_finding has_domain sort_by
typed_blockers-IsFree_example = typed_blockers-IsFree shop refl

-- A ring of three modules, one module that imports itself, and a pair behind the ring.
abbrev rings : List Edge
rings =
    edge "a" "b"
    ∷ edge "b" "c"
    ∷ edge "e" "d"
    ∷ edge "c" "a"
    ∷ edge "f" "f"
    ∷ edge "c" "d"
    ∷ edge "d" "e"
    ∷ []

components-rings : components rings ≡ ("d" ∷ "e" ∷ []) ∷ ("a" ∷ "b" ∷ "c" ∷ []) ∷ []
unfolding components search_from node_list all_nodes sc visit_roots sort_by
components-rings = refl

search_from-IsFed_example : (search_from (node_list rings) rings).starved ≡ false
search_from-IsFed_example = search_from-IsFed rings

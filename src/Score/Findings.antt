-- ===== src/Score/Findings.antt =====
-- core/worker/decomposition/application: the findings and the blockers of the score (scorer.go), and the
-- findings that cycles.go makes of the strongly connected components.
use milton_prism.Score.Cycles.{components}
use milton_prism.Prelude.{
  ℕ, suc, String, Bool, true, false, ◌&&◌, ◌||◌, List, [], ◌∷◌, ◌++◌, map, length, ltb, leb,
  if◌then◌else◌, str_eq,
}
use milton_prism.Score.Digest.{Hub, Digest, Severity, low, medium, high, Finding}
use milton_prism.Score.Signals.{god_modules}

unfoldable pub hub_severity_of : ℕ → Severity
hub_severity_of fan_in = if leb 10 fan_in then high else if leb 5 fan_in then medium else low

unfoldable pub hub_finding : Hub → Finding
unfolding hub_severity_of
hub_finding h = record {
  kind = "shared_state";
  severity = hub_severity_of h.fan_in;
  modules = h.module_name ∷ [];
}

unfoldable pub god_finding : String → Finding
god_finding name = record { kind = "god_module"; severity = high; modules = name ∷ [] }

abbrev pub topology_findings : Bool → List Finding
topology_findings true = record { kind = "topology"; severity = medium; modules = [] } ∷ []
topology_findings false = []

abbrev pub is_member : String → List String → Bool
is_member m [] = false
is_member m (n ∷ ns) = str_eq n m || is_member m ns

unfoldable pub has_domain : List String → List String → Bool
has_domain domain [] = false
has_domain domain (m ∷ ms) = is_member m domain || has_domain domain ms

unfoldable pub cycle_finding : List String → List String → Finding
unfolding has_domain
cycle_finding domain component = record {
  kind = "cycle";
  severity = if has_domain domain component || leb 3 (length component) then high else medium;
  modules = component;
}

unfoldable pub cycle_findings : Digest → List Finding
unfolding cycle_finding components
cycle_findings d = map (cycle_finding d.domain_modules) (components d.edges)

unfoldable pub structural_findings : Digest → List Finding
unfolding hub_finding god_finding cycle_findings god_modules
structural_findings d =
    map hub_finding d.shared_state_hubs
    ++ (map god_finding (god_modules d.module_cards)
        ++ (topology_findings d.domain_empty ++ cycle_findings d))

abbrev pub is_high : Severity → Bool
is_high high = true
is_high _ = false

-- `f.Kind == … && f.Severity == "high"`
unfoldable pub count_high : String → List Finding → ℕ
count_high kind [] = 0
count_high kind (f ∷ fs) =
    let rest = count_high kind fs in
    if str_eq f.kind kind && is_high f.severity then suc rest else rest

-- `if f.Severity == "high"`, of the cycles alone.
unfoldable pub count_severe : List Finding → ℕ
count_severe [] = 0
count_severe (f ∷ fs) = let rest = count_severe fs in if is_high f.severity then suc rest else rest

-- A blocker with its count; 0 where it has none.
pub record TypedBlocker : Type 0 where
  pub blocker_key : String
  pub count : ℕ

abbrev pub blocker : Bool → String → ℕ → List TypedBlocker
blocker true key count = record { blocker_key = key; count = count } ∷ []
blocker false key count = []

abbrev pub is_nil {ℓ} : {A : Type ℓ} → List A → Bool
is_nil [] = true
is_nil (_ ∷ _) = false

unfoldable pub typed_blockers : Digest → List TypedBlocker
unfolding structural_findings count_high count_severe cycle_findings god_modules
typed_blockers d =
    let states = count_high "shared_state" (structural_findings d) in
    let gods = length (god_modules d.module_cards) in
    let cycles = count_severe (cycle_findings d) in
    blocker d.domain_empty "blocker.no_domain_layer" 0
    ++ (blocker (is_nil d.clusters) "blocker.no_service_boundaries" 0
        ++ (blocker (ltb 0 states) "blocker.shared_state" states
            ++ (blocker (ltb 0 gods) "blocker.god_modules" gods
                ++ blocker (ltb 0 cycles) "blocker.cycles" cycles)))

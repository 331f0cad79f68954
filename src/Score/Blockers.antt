-- ===== src/Score/Blockers.antt =====
-- What the blockers of a score say of the digest.
use milton_prism.Prelude.{
  ◌∙◌, subst, sym, ℕ, suc, ◌+◌, ◌<◌, String, Bool, true, false, ◌&&◌, ◌||◌, List, [], ◌∷◌, ◌++◌,
  ◌≡◌, refl, inl, inr, Bool-cases, arith, ltb, leb, length, map, All, if◌then◌else◌, str_eq,
}
use milton_prism.Score.Cycles.{components}
use milton_prism.Score.Digest.{Hub, Digest, Finding}
use milton_prism.Score.Signals.{god_modules}
use milton_prism.Score.Findings.{
  hub_severity_of, hub_finding, god_finding, topology_findings, cycle_finding, cycle_findings,
  structural_findings, is_high, count_high, count_severe, blocker, is_nil, typed_blockers,
  has_domain,
}

-- No hub has ten or more importers.
abbrev pub AllQuiet : List Hub → Type 0
AllQuiet hubs = All (λ (h : Hub). h.fan_in < 10) hubs

-- A component of two modules outside the domain.
abbrev pub IsMild : Digest → List String → Type 0
IsMild d c = (has_domain d.domain_modules c ≡ false) × (length c < 3)

-- What a digest without a blocker is like.
pub record IsFree (d : Digest) : Type 0 where
  pub layered : d.domain_empty ≡ false
  pub bounded : is_nil d.clusters ≡ false
  pub quiet : AllQuiet d.shared_state_hubs
  pub plain : god_modules d.module_cards ≡ []
  pub mild : All (IsMild d) (components d.edges)

blocker-nil : (b : Bool) (key : String) (n : ℕ) → blocker b key n ≡ [] → b ≡ false
blocker-nil true key n h = cc h
blocker-nil false key n h = refl

append-nil_parts {ℓ} : {A : Type ℓ} (xs ys : List A) → xs ++ ys ≡ [] → (xs ≡ []) × (ys ≡ [])
append-nil_parts [] ys h = (refl, h)
append-nil_parts (x ∷ xs) ys h = cc h

count_high-append :
    (kind : String) (fs gs : List Finding)
    → count_high kind (fs ++ gs) ≡ count_high kind fs + count_high kind gs
unfolding count_high
count_high-append kind [] gs = omega arith
count_high-append kind (f ∷ fs) gs = elim (Bool-cases (str_eq f.kind kind && is_high f.severity)) [
  | inl q ↦ rw (q, count_high) (omega (arith, count_high-append kind fs gs))
  | inr q ↦ rw (q, count_high) (count_high-append kind fs gs)
]

count_high-hub :
    (x : Hub) (fs : List Finding)
    → count_high "shared_state" (hub_finding x ∷ fs) ≡ (
        if leb 10 x.fan_in
        then suc (count_high "shared_state" fs)
        else count_high "shared_state" fs)
unfolding count_high hub_finding hub_severity_of
count_high-hub x fs = elim (Bool-cases (leb 10 x.fan_in)) [
  | inl q ↦ rw q refl
  | inr q ↦ elim (Bool-cases (leb 5 x.fan_in)) [ inl r ↦ rw (q, r) refl | inr r ↦ rw (q, r) refl ]
]

hubs-AllQuiet :
    (hubs : List Hub) → count_high "shared_state" (map hub_finding hubs) ≡ 0 → AllQuiet hubs
hubs-AllQuiet [] h = tt
hubs-AllQuiet (x ∷ hubs) h =
    let split = sym (count_high-hub x (map hub_finding hubs)) ∙ h in
    elim (Bool-cases (leb 10 x.fan_in)) [
      | inl q ↦ absurd (omega (arith, rw q at split))
      | inr q ↦ (ground arith, hubs-AllQuiet hubs (rw q at split))
    ]

count_severe-cycle :
    (domain c : List String) (fs : List Finding)
    → count_severe (cycle_finding domain c ∷ fs)
      ≡ (if has_domain domain c || leb 3 (length c) then suc (count_severe fs) else count_severe fs)
unfolding count_severe cycle_finding
count_severe-cycle domain c fs = elim (Bool-cases (has_domain domain c || leb 3 (length c))) [
  | inl q ↦ rw q refl
  | inr q ↦ rw q refl
]

or_false : (a b : Bool) → (a || b) ≡ false → (a ≡ false) × (b ≡ false)
or_false true b h = cc h
or_false false b h = (refl, h)

cycles-IsMild :
    (d : Digest) (cs : List (List String))
    → count_severe (map (cycle_finding d.domain_modules) cs) ≡ 0
    → All (IsMild d) cs
cycles-IsMild d [] h = tt
cycles-IsMild d (c ∷ cs) h =
    let split =
      sym (count_severe-cycle d.domain_modules c (map (cycle_finding d.domain_modules) cs)) ∙ h in
    elim (Bool-cases (has_domain d.domain_modules c || leb 3 (length c))) [
      | inl q ↦ absurd (omega (arith, rw q at split))
      | inr q ↦
          let (outside, small) = or_false (has_domain d.domain_modules c) (leb 3 (length c)) q in
          ((outside, ground arith), cycles-IsMild d cs (rw q at split))
    ]

zero_left : (m n : ℕ) → ltb 0 (m + n) ≡ false → m ≡ 0
zero_left m n h = ground arith

length-nil : (xs : List String) → ltb 0 (length xs) ≡ false → xs ≡ []
length-nil [] h = refl
length-nil (x ∷ xs) h = absurd (ground arith)

-- A score without blockers is one of a digest with a layer of domain modules and with service boundaries,
-- without god modules, where no hub has ten or more importers and every component that the search finds in
-- the digest's graph has two modules at most, none of them of the domain.
pub typed_blockers-IsFree : (d : Digest) → typed_blockers d ≡ [] → IsFree d
unfolding typed_blockers structural_findings cycle_findings
typed_blockers-IsFree d h =
    let states = count_high "shared_state" (structural_findings d) in
    let gods = length (god_modules d.module_cards) in
    let cycles = count_severe (cycle_findings d) in
    let last = blocker (ltb 0 cycles) "blocker.cycles" cycles in
    let fourth = blocker (ltb 0 gods) "blocker.god_modules" gods in
    let third = blocker (ltb 0 states) "blocker.shared_state" states in
    let second = blocker (is_nil d.clusters) "blocker.no_service_boundaries" 0 in
    let first = blocker d.domain_empty "blocker.no_domain_layer" 0 in
    let (a, h1) = append-nil_parts first (second ++ (third ++ (fourth ++ last))) h in
    let (b, h2) = append-nil_parts second (third ++ (fourth ++ last)) h1 in
    let (c, h3) = append-nil_parts third (fourth ++ last) h2 in
    let (e, f) = append-nil_parts fourth last h3 in
    let no_states = blocker-nil (ltb 0 states) "blocker.shared_state" states c in
    let no_cycles = blocker-nil (ltb 0 cycles) "blocker.cycles" cycles f in
    let hubs = map hub_finding d.shared_state_hubs in
    let rest =
      map god_finding (god_modules d.module_cards)
      ++ (topology_findings d.domain_empty ++ cycle_findings d) in
    record {
      layered = blocker-nil d.domain_empty "blocker.no_domain_layer" 0 a;
      bounded = blocker-nil (is_nil d.clusters) "blocker.no_service_boundaries" 0 b;
      quiet = hubs-AllQuiet d.shared_state_hubs (
          zero_left (count_high "shared_state" hubs) (count_high "shared_state" rest) (
            subst (λ (n : ℕ). ltb 0 n ≡ false) (count_high-append "shared_state" hubs rest)
              no_states));
      plain =
          length-nil (god_modules d.module_cards)
            (blocker-nil (ltb 0 gods) "blocker.god_modules" gods e);
      mild =
          cycles-IsMild d (components d.edges)
            (zero_left cycles 0 (subst (λ (n : ℕ). ltb 0 n ≡ false) (omega arith) no_cycles));
    }

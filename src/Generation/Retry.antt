-- ===== src/Generation/Retry.antt =====
-- The loop over the attempts of a service: how often the agent is called, and what comes of it.
use native.Mathlib.Decide.{ℕ_discrete}
use milton_prism.Prelude.{
  subst, ℕ, zero, suc, ◌+◌, ◌≤◌, ◌<◌, true, false, none, ◌≡◌, refl, inl, inr, Bool-cases,
  Option-cases, arith, ltb,
}
use milton_prism.Generation.Records.{Answer, InvokeRequest}
use milton_prism.Generation.Agent.{
  Agent, Trial, attempts, try_agent, is_transient_error, succeeded, untried, wait_before,
}

-- The answer of an attempt is worth another one.
abbrev pub IsTransient : Agent → InvokeRequest → ℕ → Type 0
IsTransient agent req j =
    let a = agent.invoke j req in
    (succeeded a ≡ false)
    × (is_transient_error agent.to_lower a.invoke_error a.result.failure_reason ≡ true)

-- What holds of the loop from `attempt` on, with `left` attempts to go and `before` calls made.
record IsBounded (agent : Agent) (req : InvokeRequest) (attempt left before : ℕ) (t : Trial)
    : Type 0 where
  pub lower : before ≤ t.calls
  pub upper : t.calls ≤ before + left
  pub transient : (j : ℕ) → attempt ≤ j → j < t.calls → IsTransient agent req j

module _ (agent : Agent) (req : InvokeRequest) where
  stops :
      (attempt left before : ℕ) (a : Answer)
      → before + 1 ≡ attempt
      → IsBounded agent req attempt (suc left) before (record { answer = a; calls = before + 1 })
  stops attempt left before a h = record {
    lower = omega arith;
    upper = omega arith;
    transient = λ j p q. absurd (omega arith);
  }

  continues :
      (attempt left before : ℕ) (t : Trial)
      → before + 1 ≡ attempt
      → IsTransient agent req attempt
      → IsBounded agent req (attempt + 1) left (before + 1) t
      → IsBounded agent req attempt (suc left) before t
  continues attempt left before t h now b = record {
    lower = omega (arith, b.lower);
    upper = omega (arith, b.upper);
    transient = λ j p q. elim (ℕ_discrete attempt j) [
      | yes e ↦ subst (λ i. IsTransient agent req i) e now
      | no ne ↦ b.transient j (ground arith) q
    ];
  }

  attempts-IsBounded :
      (left attempt : ℕ) (last : Trial)
      → last.calls + 1 ≡ attempt
      → IsBounded agent req attempt left last.calls (attempts agent req left attempt last)
  unfolding attempts
  attempts-IsBounded zero attempt last h = record {
    lower = omega arith;
    upper = omega arith;
    transient = λ j p q. absurd (omega arith);
  }
  attempts-IsBounded (suc left) attempt last h = elim (Option-cases (wait_before agent attempt)) [
    | inr (e, q) ↦
        rw (q, attempts)
          (record {
            lower = omega arith;
            upper = omega arith;
            transient = λ j p r. absurd (omega arith);
          })
    | inl q ↦ elim (Bool-cases (succeeded (agent.invoke attempt req))) [
      | inl good ↦
          rw (q, attempts, good) (stops attempt left last.calls (agent.invoke attempt req) h)
      | inr bad ↦
          elim (Bool-cases (
            is_transient_error agent.to_lower (agent.invoke attempt req).invoke_error
              (agent.invoke attempt req).result.failure_reason)) [
                | inr permanent ↦
                    rw (q, attempts, bad, permanent)
                      (stops attempt left last.calls (agent.invoke attempt req) h)
                | inl transient ↦
                    rw (q, attempts, bad, transient)
                      (continues attempt left last.calls
                        (attempts agent req left (attempt + 1)
                          (record { answer = agent.invoke attempt req; calls = last.calls + 1 }))
                        h (bad, transient)
                        (attempts-IsBounded left (attempt + 1)
                          (record { answer = agent.invoke attempt req; calls = last.calls + 1 })
                          (omega arith)))
              ]
    ]
  ]

  -- For one service the agent is called at most three times, and it is called again only behind
  -- answers that are transient failures.
  pub try_agent_bounds :
      ((try_agent agent req).calls ≤ 3)
      × ((j : ℕ) → 1 ≤ j → j < (try_agent agent req).calls → IsTransient agent req j)
  unfolding try_agent
  try_agent_bounds = let b = attempts-IsBounded 3 1 untried refl in (b.upper, b.transient)

  wait_quiet : (attempt : ℕ) → agent.interrupted attempt ≡ none → wait_before agent attempt ≡ none
  wait_quiet attempt h = elim (Bool-cases (ltb 1 attempt)) [ inl q ↦ rw q h | inr q ↦ rw q refl ]

  attempts-passes :
      (gap left attempt k : ℕ) (last : Trial)
      → attempt + gap ≡ k
      → gap < left
      → ((j : ℕ) → attempt ≤ j → j ≤ k → agent.interrupted j ≡ none)
      → ((j : ℕ) → attempt ≤ j → j < k → IsTransient agent req j)
      → succeeded (agent.invoke k req) ≡ true
      → (attempts agent req left attempt last).answer ≡ agent.invoke k req
  unfolding attempts
  attempts-passes gap zero attempt k last e lt awake again good = elim lt [ ]
  attempts-passes zero (suc left) attempt k last e lt awake again good =
      let here : k ≡ attempt = omega arith in
      rw here (
        rw (wait_quiet attempt (awake attempt (omega arith) (omega arith)), attempts)
          (rw (subst (λ i. succeeded (agent.invoke i req) ≡ true) here good) refl))
  attempts-passes (suc gap) (suc left) attempt k last e lt awake again good =
      rw (wait_quiet attempt (awake attempt (omega arith) (omega arith)), attempts)
        (rw
          (
            (again attempt (omega arith) (omega arith)).0,
            (again attempt (omega arith) (omega arith)).1,
          )
          (attempts-passes gap left (attempt + 1) k
            (record { answer = agent.invoke attempt req; calls = last.calls + 1 }) (omega arith)
            (omega arith) (λ j p q. awake j (omega arith) q) (λ j p q. again j (omega arith) q)
            good))

  -- If the attempts before the `k`-th fail transiently, the `k`-th passes, `k` is at most 3 and the
  -- context lives, then the service ends with the answer of the `k`-th attempt.
  pub try_agent-passes :
      (k : ℕ)
      → 1 ≤ k
      → k ≤ 3
      → ((j : ℕ) → 1 ≤ j → j ≤ k → agent.interrupted j ≡ none)
      → ((j : ℕ) → 1 ≤ j → j < k → IsTransient agent req j)
      → succeeded (agent.invoke k req) ≡ true
      → (try_agent agent req).answer ≡ agent.invoke k req
  unfolding try_agent
  try_agent-passes zero p q awake again good = elim p [ ]
  try_agent-passes (suc n) p q awake again good =
      attempts-passes n 3 1 (suc n) untried (omega arith) (omega arith) awake again good

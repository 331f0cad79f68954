-- ===== src/Migration/Steps.antt =====
-- The action plan of a roadmap: the numbers of its steps and the steps that they wait for.
use milton_prism.Prelude.{
  ℕ, ◌+◌, ◌≤◌, ◌==◌, String, List, [], ◌∷◌, map, ◌≡◌, refl, ap, arith, inl, inr, Bool-cases, str_eq,
  length, All, All-append, suc,
}
use milton_prism.Migration.Domain.{ActionItem, ScoreSignal}
use milton_prism.Migration.Roadmap.{
  routing_item, boundaries_item, god_item, hub_item, domain_item, signal_to_action_item, Sorter,
}
use milton_prism.Migration.Plan.{
  entry_of, Entry, entries, number_from, order_of, link, impact_of, plan_entries, build_action_plan,
}

-- The steps are numbered one after the other, from `n + 1` on.
abbrev pub Numbered : ℕ → List ActionItem → Type 0
Numbered n [] = Unit
Numbered n (x ∷ xs) = (x.order ≡ n + 1) × Numbered (n + 1) xs

link_order : (all : List Entry) (e : Entry) → (link all e).item.order ≡ e.item.order
unfolding link
link_order all e = elim (Bool-cases (str_eq e.signal "cluster_count")) [
  | inl clusters ↦ rw clusters refl
  | inr other ↦ elim (Bool-cases (str_eq e.signal "routing_layout")) [
    | inl routing ↦ rw (other, routing) refl
    | inr plain ↦ rw (other, plain) refl
  ]
]

linked-Numbered :
    (all : List Entry) (n : ℕ) (es : List Entry)
    → Numbered n (map (λ e. e.item) (map (link all) (number_from n es)))
unfolding number_from
linked-Numbered all n [] = tt
linked-Numbered all n (e ∷ es) = (
  link_order all (record e { item = record e.item { order = n + 1 } }),
  linked-Numbered all (n + 1) es,
)

-- The steps of a plan are numbered 1, 2, 3 and so on in the order in which they stand.
pub build_action_plan-IsNumbered :
    (s : Sorter) (signals : List ScoreSignal) (infra_modules : List String)
    → Numbered 0 (build_action_plan s signals infra_modules)
unfolding build_action_plan plan_entries
build_action_plan-IsNumbered s signals infra_modules =
    let sorted = s.sort_desc Entry impact_of (entries signals infra_modules) in
    linked-Numbered (number_from 0 sorted) 0 sorted

order_of_bound :
    (name : String) (m : ℕ) (es : List Entry)
    → All (λ (e : Entry). e.item.order ≤ m) es
    → order_of name es ≤ m
unfolding order_of
order_of_bound name m [] h = ground arith
order_of_bound name m (e ∷ es) h =
    let rest = order_of_bound name m es h.1 in let first = h.0 in ground arith

abbrev Waits : ℕ → Entry → Type 0
Waits m e = e.item.depends_on_step ≤ m

numbered_bound :
    (n : ℕ) (es : List Entry) (m : ℕ)
    → n + length es ≤ m
    → All (λ (e : Entry). e.item.order ≤ m) (number_from n es)
unfolding number_from
numbered_bound n [] m h = tt
numbered_bound n (e ∷ es) m h = (omega arith, numbered_bound (n + 1) es m (omega arith))

numbered-Waits : (n : ℕ) (es : List Entry) → All (Waits 0) es → All (Waits 0) (number_from n es)
unfolding number_from
numbered-Waits n [] h = tt
numbered-Waits n (e ∷ es) h = (h.0, numbered-Waits (n + 1) es h.1)

link-Waits :
    (all : List Entry) (m : ℕ) (e : Entry)
    → All (λ (e : Entry). e.item.order ≤ m) all
    → Waits 0 e
    → (link all e).item.depends_on_step ≤ m
unfolding link
link-Waits all m e h k = elim (Bool-cases (str_eq e.signal "cluster_count")) [
  | inl clusters ↦ rw clusters (order_of_bound "domain_presence" m all h)
  | inr other ↦ elim (Bool-cases (str_eq e.signal "routing_layout")) [
    | inl routing ↦ rw (other, routing) (order_of_bound "cluster_count" m all h)
    | inr plain ↦ rw (other, plain) (omega arith)
  ]
]

linked-Waits :
    (all : List Entry) (m : ℕ) (es : List Entry)
    → All (λ (e : Entry). e.item.order ≤ m) all
    → All (Waits 0) es
    → All (λ (x : ActionItem). x.depends_on_step ≤ m) (map (λ e. e.item) (map (link all) es))
linked-Waits all m [] h k = tt
linked-Waits all m (e ∷ es) h k = (link-Waits all m e h k.0, linked-Waits all m es h k.1)

entry-Waits :
    (sig : ScoreSignal) (infra_modules : List String)
    → All (Waits 0) (entry_of sig (signal_to_action_item sig infra_modules))
unfolding signal_to_action_item domain_item hub_item god_item boundaries_item routing_item
entry-Waits sig infra_modules = elim (Bool-cases (str_eq sig.signal "domain_presence")) [
  | inl q ↦ rw q (omega arith, tt)
  | inr a ↦ elim (Bool-cases (str_eq sig.signal "hub_severity")) [
    | inl q ↦ rw (a, q) (omega arith, tt)
    | inr b ↦ elim (Bool-cases (str_eq sig.signal "god_modules")) [
      | inl q ↦ rw (a, b, q) (omega arith, tt)
      | inr c ↦ elim (Bool-cases (str_eq sig.signal "cluster_count")) [
        | inl q ↦ rw (a, b, c, q) (omega arith, tt)
        | inr d ↦ elim (Bool-cases (str_eq sig.signal "routing_layout")) [
          | inl q ↦ rw (a, b, c, d, q) (omega arith, tt)
          | inr e ↦ rw (a, b, c, d, e) tt
        ]
      ]
    ]
  ]
]

entries_wait :
    (signals : List ScoreSignal) (infra_modules : List String)
    → All (Waits 0) (entries signals infra_modules)
unfolding entries
entries_wait [] infra_modules = tt
entries_wait (sig ∷ sigs) infra_modules = elim (Bool-cases (sig.penalty == 0)) [
  | inl idle ↦ rw idle (entries_wait sigs infra_modules)
  | inr active ↦ rw active (
      All-append (Waits 0) (entry_of sig (signal_to_action_item sig infra_modules))
        (entries sigs infra_modules) (entry-Waits sig infra_modules)
        (entries_wait sigs infra_modules))
]

plan_length :
    (all : List Entry) (n : ℕ) (es : List Entry)
    → length (map (λ (e : Entry). e.item) (map (link all) (number_from n es))) ≡ length es
unfolding number_from
plan_length all n [] = refl
plan_length all n (e ∷ es) = ap suc (plan_length all (n + 1) es)

-- Where the sorting function brings in no element of its own, a step waits for none, or for a step of
-- the same plan: the number it waits for is at most the number of steps.
pub build_action_plan-waits :
    (s : Sorter)
    → ((P : Entry → Type 0) (es : List Entry) → All P es → All P (s.sort_desc Entry impact_of es))
    → (signals : List ScoreSignal) (infra_modules : List String)
    → All
        (λ (x : ActionItem). x.depends_on_step ≤ length (build_action_plan s signals infra_modules))
        (build_action_plan s signals infra_modules)
unfolding build_action_plan plan_entries
build_action_plan-waits s keeps_all signals infra_modules =
    let sorted = s.sort_desc Entry impact_of (entries signals infra_modules) in
    let all = number_from 0 sorted in
    rw (plan_length all 0 sorted) (
      linked-Waits all (length sorted) all (numbered_bound 0 sorted (length sorted) (omega arith)) (
        numbered-Waits 0 sorted (
          keeps_all (Waits 0) (entries signals infra_modules)
            (entries_wait signals infra_modules))))

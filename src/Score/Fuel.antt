-- ===== src/Score/Fuel.antt =====
-- The search for components never runs out of fuel: each call visits a node that was not visited.
use milton_prism.Prelude.{
  sort_strings, ℕ, zero, suc, ◌+◌, ◌≤◌, String, true, false, Option, none, some, List, [], ◌∷◌, ◌≡◌,
  refl, sym, ap, ◌∙◌, inl, inr, Bool-cases, Option-cases, arith, ltb, length, All, any, any-sort,
  str_eq, eq_iff, or_cases, or_right, text_lt, ◌==◌,
}
use milton_prism.Score.Digest.{Edge}
use milton_prism.Score.Cycles.{
  Search, set_key, enter, lower, visit_one, visit, close, sc, visit_roots, start, search_from,
  node_list, all_nodes, add_node, targets, is_proper, or_zero,
}

-- The name is one of the nodes.
abbrev IsNode : List String → String → Type 0
IsNode ns v = any (λ (n : String). str_eq n v) ns ≡ true

abbrev one_free : Option ℕ → ℕ
one_free none = 1
one_free (some i) = 0

-- How many nodes are not visited.
unfoldable unvisited : (String → Option ℕ) → List String → ℕ
unvisited f [] = 0
unvisited f (n ∷ ns) = one_free (f n) + unvisited f ns

-- What is visited stays visited.
abbrev Grows : (String → Option ℕ) → (String → Option ℕ) → Type 0
Grows f g = (n : String) → g n ≡ none → f n ≡ none

free-Grows : (a b : Option ℕ) → (b ≡ none → a ≡ none) → one_free b ≤ one_free a
free-Grows a (some i) h = omega arith
free-Grows none none h = omega arith
free-Grows (some i) none h = absurd (cc (h refl))

unvisited-Grows :
    (f g : String → Option ℕ) → Grows f g → (ns : List String) → unvisited g ns ≤ unvisited f ns
unfolding unvisited
unvisited-Grows f g h [] = omega arith
unvisited-Grows f g h (n ∷ ns) =
    omega (arith, free-Grows (f n) (g n) (h n), unvisited-Grows f g h ns)

set_key-Grows : (f : String → Option ℕ) (v : String) (c : ℕ) → Grows f (set_key f v (some c))
unfolding set_key
set_key-Grows f v c n h = elim (Bool-cases (str_eq v n)) [
  | inl same ↦ absurd (cc (rw same at h))
  | inr other ↦ rw other at h
]

set_key-here :
    (f : String → Option ℕ) (v n : String) (c : ℕ)
    → str_eq v n ≡ true
    → set_key f v (some c) n ≡ some c
unfolding set_key
set_key-here f v n c same = rw same refl

-- A visit of a node that was free leaves one fewer.
unvisited-set :
    (f : String → Option ℕ) (v : String) (c : ℕ) (ns : List String)
    → IsNode ns v
    → f v ≡ none
    → suc (unvisited (set_key f v (some c)) ns) ≤ unvisited f ns
unfolding unvisited
unvisited-set f v c [] there free = cc there
unvisited-set f v c (n ∷ ns) there free = elim (Bool-cases (str_eq n v)) [
  | inl same ↦
      let rest = unvisited-Grows f (set_key f v (some c)) (set_key-Grows f v c) ns in
      let here : f n ≡ none = ap f ((eq_iff n v).0 same) ∙ free in
      let taken = set_key-here f v n c ((eq_iff v n).1 (sym ((eq_iff n v).0 same))) in
      rw (here, taken) (omega (arith, rest))
  | inr other ↦ omega (
    arith,
    unvisited-set f v c ns (rw other at there) free,
    free-Grows (f n) (set_key f v (some c) n) (set_key-Grows f v c n),
  )
]

unvisited-some :
    (f : String → Option ℕ) (v : String) (ns : List String)
    → IsNode ns v
    → f v ≡ none
    → 1 ≤ unvisited f ns
unvisited-some f v ns there free = omega (arith, unvisited-set f v 0 ns there free)

unvisited-length : (f : String → Option ℕ) (ns : List String) → unvisited f ns ≤ length ns
unfolding unvisited
unvisited-length f [] = omega arith
unvisited-length f (n ∷ ns) = omega (arith, free_at_most (f n), unvisited-length f ns)
  where
    free_at_most : (o : Option ℕ) → one_free o ≤ 1
    free_at_most none = omega arith
    free_at_most (some i) = omega arith

-- From one state of the search to another: none has starved, and visits stay.
pub record Feeds (s t : Search) : Type 0 where
  pub fed : s.starved ≡ false → t.starved ≡ false
  pub grows : Grows s.index t.index

Feeds-refl : (s : Search) → Feeds s s
Feeds-refl s = record { fed = λ h. h; grows = λ n h. h }

Feeds-then : (s t u : Search) → Feeds s t → Feeds t u → Feeds s u
Feeds-then s t u h k = record { fed = λ x. k.fed (h.fed x); grows = λ n x. h.grows n (k.grows n x) }

lower-Feeds : (v : String) (n : ℕ) (s : Search) → Feeds s (lower v n s)
unfolding lower
lower-Feeds v n s = elim (Bool-cases (ltb n (s.lowlink v))) [
  | inl less ↦ rw less (record { fed = λ h. h; grows = λ m h. h })
  | inr no_less ↦ rw no_less (Feeds-refl s)
]

close-Feeds : (v : String) (s : Search) → Feeds s (close v s)
unfolding close
close-Feeds v s = elim (Bool-cases (s.lowlink v == or_zero (s.index v))) [
  | inl root ↦ rw root (record { fed = λ h. h; grows = λ m h. h })
  | inr inner ↦ rw inner (Feeds-refl s)
]

-- A call with enough fuel for the nodes that are left.
abbrev IsFed : ℕ → List String → (String → Search → Search) → Type 0
IsFed k ns call =
    (v : String) (s : Search)
    → IsNode ns v
    → s.index v ≡ none
    → unvisited s.index ns ≤ k
    → Feeds s (call v s)

module _ (k : ℕ) (ns : List String) (call : String → Search → Search)
    (ready : IsFed k ns call) where
  visit_one-Feeds :
      (v w : String) (s : Search)
      → IsNode ns w
      → unvisited s.index ns ≤ k
      → Feeds s (visit_one call v w s)
  unfolding visit_one
  visit_one-Feeds v w s there few = elim (Option-cases (s.index w)) [
    | inl free ↦
        rw (free, visit_one)
          (Feeds-then s (call w s) (lower v ((call w s).lowlink w) (call w s))
            (ready w s there free few) (lower-Feeds v ((call w s).lowlink w) (call w s)))
    | inr (i, seen) ↦ elim (Bool-cases (s.on_stack w)) [
      | inl open_one ↦ rw (seen, open_one, visit_one) (lower-Feeds v i s)
      | inr closed ↦ rw (seen, closed, visit_one) (Feeds-refl s)
    ]
  ]

  visit-Feeds :
      (v : String) (ws : List String) (s : Search)
      → All (IsNode ns) ws
      → unvisited s.index ns ≤ k
      → Feeds s (visit call v ws s)
  unfolding visit
  visit-Feeds v [] s there few = Feeds-refl s
  visit-Feeds v (w ∷ ws) s there few =
      let one = visit_one-Feeds v w s there.0 few in
      let t = visit_one call v w s in
      Feeds-then s t (visit call v ws t) one (
        visit-Feeds v ws t there.1
          (omega (arith, few, unvisited-Grows s.index t.index one.grows ns)))

  roots-Feed :
      (rs : List String) (s : Search)
      → All (IsNode ns) rs
      → unvisited s.index ns ≤ k
      → Feeds s (visit_roots call rs s)
  unfolding visit_roots
  roots-Feed [] s there few = Feeds-refl s
  roots-Feed (n ∷ rs) s there few = elim (Option-cases (s.index n)) [
    | inr (i, seen) ↦ rw seen (roots-Feed rs s there.1 few)
    | inl free ↦
        let one = ready n s there.0 free few in
        rw free (
          Feeds-then s (call n s) (visit_roots call rs (call n s)) one (
            roots-Feed rs (call n s) there.1
              (omega (arith, few, unvisited-Grows s.index (call n s).index one.grows ns))))
  ]

enter-Feeds : (v : String) (s : Search) → Feeds s (enter v s)
unfolding enter
enter-Feeds v s = record { fed = λ h. h; grows = set_key-Grows s.index v s.counter }

enter-unvisited :
    (v : String) (s : Search) (ns : List String)
    → IsNode ns v
    → s.index v ≡ none
    → suc (unvisited (enter v s).index ns) ≤ unvisited s.index ns
unfolding enter
enter-unvisited v s ns there free = unvisited-set s.index v s.counter ns there free

module _ (ns : List String) (edges : List Edge)
    (inside : (v : String) → All (IsNode ns) (targets v edges)) where
  sc-IsFed : (k : ℕ) → IsFed k ns (sc k edges)
  unfolding sc
  sc-IsFed zero v s there free few =
      absurd (omega (arith, few, unvisited-some s.index v ns there free))
  sc-IsFed (suc k) v s there free few =
      let t = enter v s in
      let u = visit (sc k edges) v (targets v edges) t in
      Feeds-then s t (close v u) (enter-Feeds v s) (
        Feeds-then t u (close v u)
          (visit-Feeds k ns (sc k edges) (sc-IsFed k) v (targets v edges) t (inside v)
            (omega (arith, few, enter-unvisited v s ns there free)))
          (close-Feeds v u))

each_inside :
    (ns xs : List String) → ((v : String) → IsNode xs v → IsNode ns v) → All (IsNode ns) xs
each_inside ns [] h = tt
each_inside ns (x ∷ xs) h = (
  h x (rw ((eq_iff x x).1 refl) refl),
  each_inside ns xs
      λ v there. h v (or_right (str_eq x v) (any (λ (n : String). str_eq n v) xs) there),
)

add_node-here : (n : String) (ns : List String) → IsNode (add_node n ns) n
unfolding add_node
add_node-here n ns = elim (Bool-cases (any (λ (m : String). str_eq m n) ns)) [
  | inl old ↦ rw old old
  | inr new ↦ rw new (rw ((eq_iff n n).1 refl) refl)
]

add_node-keeps : (n v : String) (ns : List String) → IsNode ns v → IsNode (add_node n ns) v
unfolding add_node
add_node-keeps n v ns there = elim (Bool-cases (any (λ (m : String). str_eq m n) ns)) [
  | inl old ↦ rw old there
  | inr new ↦ rw new (or_right (str_eq n v) (any (λ (m : String). str_eq m v) ns) there)
]

targets-IsNode : (v w : String) (es : List Edge) → IsNode (targets v es) w → IsNode (all_nodes es) w
unfolding targets all_nodes
targets-IsNode v w [] there = cc there
targets-IsNode v w (e ∷ es) there = elim (Bool-cases (is_proper e)) [
  | inr loop ↦ rw loop (targets-IsNode v w es (rw loop at there))
  | inl proper ↦
      let kept = λ (h : IsNode (all_nodes es) w).
        add_node-keeps e.from w (add_node e.to (all_nodes es))
          (add_node-keeps e.to w (all_nodes es) h) in
      elim (Bool-cases (str_eq e.from v)) [
        | inr other ↦ rw proper (kept (targets-IsNode v w es (rw (proper, other) at there)))
        | inl mine ↦
            elim (or_cases (str_eq e.to w) (any (λ (n : String). str_eq n w) (targets v es))
              (rw (proper, mine) at there)) [
                | inr later ↦ rw proper (kept (targets-IsNode v w es later))
                | inl here ↦
                    rw (proper, ← (eq_iff e.to w).0 here)
                      (add_node-keeps e.from e.to (add_node e.to (all_nodes es))
                        (add_node-here e.to (all_nodes es)))
              ]
      ]
]

-- Whatever the edges are, the search for the components never finds its fuel spent: the depth of its calls
-- is at most the number of nodes.
pub search_from-IsFed : (edges : List Edge) → (search_from (node_list edges) edges).starved ≡ false
unfolding search_from node_list
search_from-IsFed edges =
    let ns = sort_strings (all_nodes edges) in
    let sorted = λ (v : String). any-sort text_lt (λ (n : String). str_eq n v) (all_nodes edges) in
    let inside = λ (v : String).
      each_inside ns (targets v edges) λ w there. sorted w ∙ targets-IsNode v w edges there in
    (roots-Feed (length ns) ns (sc (length ns) edges) (sc-IsFed ns edges inside (length ns)) ns
        start (each_inside ns ns λ v there. there) (unvisited-length start.index ns)).fed
      refl

-- ===== src/Decomposition/Coherence.antt =====
-- The guardrail on the structural fallback: the array of flags that it fills, against the clusters that hold
-- an edge.
use milton_prism.Prelude.{
  ◌<◌, ◌↔◌, subst, ℕ, zero, suc, ◌+◌, ◌*◌, ◌≤◌, String, Bool, true, false, ◌&&◌, ◌||◌, Option, none,
  some, List, [], ◌∷◌, ◌≡◌, refl, sym, ◌∙◌, ap, inl, inr, Bool-cases, Option-cases, any, get_elem?,
  some_eq, if◌then◌else◌, ltb, ◌==◌, length, arith,
}
use milton_prism.Decomposition.Flags.{is_at, marks, marks-marks, marks_none, set_index-marks}
use milton_prism.Decomposition.Domain.{
  Edge, Cluster, is_in, cluster_of, same_index, set_true, mark_edges, no_flags, count_true,
  is_incoherent_fallback,
}

-- An edge joins two modules of the cluster.
abbrev pub is_cohesive : List Edge → Cluster → Bool
is_cohesive edges c = any (λ e. is_in e.from_module c.modules && is_in e.to_module c.modules) edges

abbrev pub count_cohesive : List Edge → List Cluster → ℕ
count_cohesive edges [] = 0
count_cohesive edges (c ∷ cs) = (if is_cohesive edges c then 1 else 0) + count_cohesive edges cs

abbrev lists : String → List Cluster → Bool
lists m cs = any (λ c. is_in m c.modules) cs

-- No module stands in two clusters.
abbrev pub IsDisjoint : List Cluster → Type 0
IsDisjoint [] = Unit
IsDisjoint (c ∷ cs) =
    ((m : String) → is_in m c.modules ≡ true → any (λ d. is_in m d.modules) cs ≡ false)
    × IsDisjoint cs

-- The index of an edge within a cluster.
abbrev edge_index : List Cluster → Edge → Option ℕ
edge_index cs e = same_index (cluster_of e.from_module 0 cs) (cluster_of e.to_module 0 cs)

mark_edges-marks :
    (cs : List Cluster) (es : List Edge) (flags : List Bool)
    → mark_edges cs es flags ≡ marks (λ j. any (λ e. is_at (edge_index cs e) j) es) 0 flags
unfolding mark_edges
mark_edges-marks cs [] flags = sym (marks_none 0 flags)
mark_edges-marks cs (e ∷ es) flags =
    mark_edges-marks cs es (set_true (edge_index cs e) flags)
    ∙ (ap (λ r. marks (λ j. any (λ x. is_at (edge_index cs x) j) es) 0 r)
          (set_index-marks (edge_index cs e) flags)
        ∙ marks-marks (is_at (edge_index cs e)) (λ j. any (λ x. is_at (edge_index cs x) j) es) 0
            flags)

same_index-is_at : (a b : Option ℕ) (j : ℕ) → is_at (same_index a b) j ≡ (is_at a j && is_at b j)
same_index-is_at none b j = refl
same_index-is_at (some x) none j = ground arith
same_index-is_at (some x) (some y) j = ground arith

-- Where a module is found.
found :
    (m : String) (i : ℕ) (cs : List Cluster) (k : ℕ)
    → cluster_of m i cs ≡ some k
    → (i ≤ k) × (lists m cs ≡ true)
unfolding cluster_of
found m i [] k e = cc
found m i (c ∷ cs) k e = elim (Option-cases (cluster_of m (i + 1) cs)) [
  | inl later ↦ elim (Bool-cases (is_in m c.modules)) [
    | inl here ↦
        let q : some i ≡ some k = rw (later, here) at e in
        (some_eq (λ x. i ≤ x) i k (omega arith) q, rw here refl)
    | inr nowhere ↦ cc (rw (later, nowhere) at e)
  ]
  | inr (n, later) ↦
      let q : some n ≡ some k = rw later at e in
      let (bound, listed) = found m (i + 1) cs n later in
      (some_eq (λ x. i ≤ x) n k (omega arith) q, right (is_in m c.modules) (lists m cs) listed)
]
  where
    right : (a b : Bool) → b ≡ true → (a || b) ≡ true
    right true b h = refl
    right false b h = h

at-cluster_of :
    (m : String) (i : ℕ) (cs : List Cluster) (j : ℕ) (c : Cluster)
    → IsDisjoint cs
    → get_elem? cs j ≡ some c
    → is_at (cluster_of m i cs) (i + j) ≡ is_in m c.modules
unfolding cluster_of
at-cluster_of m i [] j c h e = cc
at-cluster_of m i (x ∷ xs) zero c h e =
    some_eq (λ y. is_at (cluster_of m i (x ∷ xs)) (i + 0) ≡ is_in m y.modules) x c here e
  where
    here : is_at (cluster_of m i (x ∷ xs)) (i + 0) ≡ is_in m x.modules
    here = elim (Option-cases (cluster_of m (i + 1) xs)) [
      | inl later ↦ elim (Bool-cases (is_in m x.modules)) [
        | inl yes_here ↦ rw (later, yes_here) (ground arith)
        | inr nowhere ↦ rw (later, nowhere) refl
      ]
      | inr (n, later) ↦
          let (bound, listed) = found m (i + 1) xs n later in
          elim (Bool-cases (is_in m x.modules)) [
            | inl yes_here ↦ absurd (cc (listed, h.0 m yes_here))
            | inr nowhere ↦ rw (later, nowhere) (ground arith)
          ]
    ]
at-cluster_of m i (x ∷ xs) (suc j) c h e =
    let ih = at-cluster_of m (i + 1) xs j c h.1 e in
    elim (Option-cases (cluster_of m (i + 1) xs)) [
      | inl later ↦
          let absent : false ≡ is_in m c.modules = rw later at ih in
          elim (Bool-cases (is_in m x.modules)) [
            | inl yes_here ↦ rw (later, yes_here, ← absent) (ground arith)
            | inr nowhere ↦ rw (later, nowhere) absent
          ]
      | inr (n, later) ↦
          let q : (n == (i + 1) + j) ≡ is_in m c.modules = rw later at ih in rw later (ground arith)
    ]

any-pointwise :
    (p q : Edge → Bool) (es : List Edge) → ((e : Edge) → p e ≡ q e) → any p es ≡ any q es
any-pointwise p q [] h = refl
any-pointwise p q (e ∷ es) h = rw (h e, any-pointwise p q es h) refl

-- The flag of a cluster says whether it holds an edge.
flag-is_cohesive :
    (es : List Edge) (cs : List Cluster) (j : ℕ) (c : Cluster)
    → IsDisjoint cs
    → get_elem? cs j ≡ some c
    → any (λ e. is_at (edge_index cs e) j) es ≡ is_cohesive es c
flag-is_cohesive es cs j c h e =
    any-pointwise (λ x. is_at (edge_index cs x) j)
      (λ x. is_in x.from_module c.modules && is_in x.to_module c.modules) es
      (λ x.
        same_index-is_at (cluster_of x.from_module 0 cs) (cluster_of x.to_module 0 cs) j
        ∙ rw (end x.from_module, end x.to_module) refl)
  where
    end : (m : String) → is_at (cluster_of m 0 cs) j ≡ is_in m c.modules
    end m =
        let same : 0 + j ≡ j = omega arith in
        subst (λ n. is_at (cluster_of m 0 cs) n ≡ is_in m c.modules) same
          (at-cluster_of m 0 cs j c h e)

count-marks :
    (f : ℕ → Bool) (es : List Edge) (i : ℕ) (cs : List Cluster)
    → ((j : ℕ) (c : Cluster) → get_elem? cs j ≡ some c → f (i + j) ≡ is_cohesive es c)
    → count_true (marks f i (no_flags cs)) ≡ count_cohesive es cs
unfolding marks
count-marks f es i [] h = refl
count-marks f es i (c ∷ cs) h =
    let zeroth : i + 0 ≡ i = omega arith in
    let first : f i ≡ is_cohesive es c = subst (λ n. f n ≡ is_cohesive es c) zeroth (h 0 c refl) in
    let rest = count-marks f es (i + 1) cs (λ j d e.
      let same : i + suc j ≡ (i + 1) + j = omega arith in
      subst (λ n. f n ≡ is_cohesive es d) same (h (suc j) d e)) in
    rw (first, rest) refl

-- Where no module stands in two clusters, the fallback counts as incoherent exactly when fewer than half of
-- the clusters hold an edge of the domain graph between two of their own modules, and there are clusters.
pub is_incoherent_fallback-counts :
    (edges : List Edge) (clusters : List Cluster)
    → IsDisjoint clusters
    → (is_incoherent_fallback edges clusters ≡ true)
      ↔ (count_cohesive edges clusters * 2 < length clusters)
unfolding is_incoherent_fallback
is_incoherent_fallback-counts edges [] h = (λ e. cc, λ e. absurd (omega arith))
is_incoherent_fallback-counts edges (c ∷ cs) h =
    let cs' = c ∷ cs in
    let f = λ (j : ℕ). any (λ e. is_at (edge_index cs' e) j) edges in
    let counted : count_true (mark_edges cs' edges (no_flags cs')) ≡ count_cohesive edges cs' =
      ap count_true (mark_edges-marks cs' edges (no_flags cs'))
      ∙ count-marks f edges 0 cs' (λ j d e.
        let same : j ≡ 0 + j = omega arith in
        subst (λ n. f n ≡ is_cohesive edges d) same (flag-is_cohesive edges cs' j d h e)) in
    rw counted (ltb_iff (count_cohesive edges cs' * 2) (length cs'))
  where
    ltb_iff : (a b : ℕ) → (ltb a b ≡ true) ↔ (a < b)
    ltb_iff a b = ground arith

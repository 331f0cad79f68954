-- ===== src/Decomposition/Partition.antt =====
-- What the validation of a proposal guarantees, whatever the language model answers.
use milton_prism.Prelude.{
  subst, ℕ, String, Bool, true, false, ◌||◌, Option, none, some, List, [], ◌∷◌, ◌≡◌, refl, sym, ◌∙◌,
  ap, inl, inr, Bool-cases, Option-cases, or_cases, or_right, any, any-sort, All, str_eq, eq_iff,
  text_lt, if◌then◌else◌, some_eq, sort_strings,
}
use milton_prism.Migration.Domain.{CandidateGrouping}
use milton_prism.Migration.Publish.{is_nil}
use milton_prism.Decomposition.Domain.{Cluster, ClusteringResult, is_in}
use milton_prism.Decomposition.Coherence.{IsDisjoint}
use milton_prism.Decomposition.Clusterers.{
  validate_modules, validate_groups, validate_proposal, groups_to_clusters, accept, retried,
  first_tried, llm_cluster,
}

-- What is known of the modules of a group that has passed.
record Passed (domain seen ms seen' : List String) : Type 0 where
  in_domain : (m : String) → is_in m ms ≡ true → is_in m domain ≡ true
  fresh : (m : String) → is_in m ms ≡ true → is_in m seen ≡ false
  grown : (m : String) → is_in m ms ≡ true → is_in m seen' ≡ true
  kept : (m : String) → is_in m seen ≡ true → is_in m seen' ≡ true

module _ (domain : List String) where
  one_more :
      (seen ms seen' : List String) (m : String)
      → is_in m domain ≡ true
      → is_in m seen ≡ false
      → Passed domain (m ∷ seen) ms seen'
      → Passed domain seen (m ∷ ms) seen'
  one_more seen ms seen' m known new p = record {
    in_domain = λ n h. elim (or_cases (str_eq m n) (is_in n ms) h) [
      | inl same ↦ rw (← (eq_iff m n).0 same) known
      | inr later ↦ p.in_domain n later
    ];
    fresh = λ n h. elim (or_cases (str_eq m n) (is_in n ms) h) [
      | inl same ↦ rw (← (eq_iff m n).0 same) new
      | inr later ↦ not_head (str_eq m n) (is_in n seen) (p.fresh n later)
    ];
    grown = λ n h. elim (or_cases (str_eq m n) (is_in n ms) h) [
      | inl same ↦ p.kept n (rw same refl)
      | inr later ↦ p.grown n later
    ];
    kept = λ n h. p.kept n (or_right (str_eq m n) (is_in n seen) h);
  }
    where
      not_head : (a b : Bool) → (a || b) ≡ false → b ≡ false
      not_head true b h = cc
      not_head false b h = h

  validate_modules-Passed :
      (seen ms seen' : List String)
      → validate_modules domain seen ms ≡ some seen'
      → Passed domain seen ms seen'
  unfolding validate_modules
  validate_modules-Passed seen [] seen' e =
      some_eq (λ s. Passed domain seen [] s) seen seen'
        (record { in_domain = λ m h. cc; fresh = λ m h. cc; grown = λ m h. cc; kept = λ m h. h }) e
  validate_modules-Passed seen (m ∷ ms) seen' e = elim (Bool-cases (is_in m domain)) [
    | inr unknown ↦ cc (rw unknown at e)
    | inl known ↦ elim (Bool-cases (is_in m seen)) [
      | inl twice ↦ cc (rw (known, twice) at e)
      | inr new ↦
          one_more seen ms seen' m known new
            (validate_modules-Passed (m ∷ seen) ms seen' (rw (known, new) at e))
    ]
  ]

  abbrev lists : String → List CandidateGrouping → Bool
  lists m gs = any (λ (g : CandidateGrouping). is_in m g.modules) gs

  -- The groups share no module, and name only modules of the domain.
  abbrev AreApart : List CandidateGrouping → Type 0
  AreApart [] = Unit
  AreApart (g ∷ gs) =
      ((m : String) → is_in m g.modules ≡ true → lists m gs ≡ false)
      × ((m : String) → is_in m g.modules ≡ true → is_in m domain ≡ true)
      × AreApart gs

  none_listed :
      (m : String) (gs : List CandidateGrouping) (seen : List String)
      → ((n : String) → lists n gs ≡ true → is_in n seen ≡ false)
      → is_in m seen ≡ true
      → lists m gs ≡ false
  none_listed m gs seen fresh h = elim (Bool-cases (lists m gs)) [
    | inl listed ↦ absurd (cc (h, fresh m listed))
    | inr absent ↦ absent
  ]

  validate_groups-AreApart :
      (seen : List String) (gs : List CandidateGrouping) (seen' : List String)
      → validate_groups domain seen gs ≡ some seen'
      → AreApart gs × ((m : String) → lists m gs ≡ true → is_in m seen ≡ false)
  unfolding validate_groups
  validate_groups-AreApart seen [] seen' e = (tt, λ m h. cc)
  validate_groups-AreApart seen (g ∷ gs) seen' e =
      elim (Option-cases (validate_modules domain seen g.modules)) [
        | inl refused ↦ cc (rw (refused, validate_groups) at e)
        | inr (middle, q) ↦
            let p = validate_modules-Passed seen g.modules middle q in
            let (apart, fresh) =
              validate_groups-AreApart middle gs seen' (rw (q, validate_groups) at e) in
            (
              ((λ m h. none_listed m gs middle fresh (p.grown m h)), p.in_domain, apart),
              λ m h. elim (or_cases (is_in m g.modules) (lists m gs) h) [
                | inl here ↦ p.fresh m here
                | inr later ↦ not_before m middle (p.kept m) (fresh m later)
              ],
            )
      ]
    where
      not_before :
          (m : String) (middle : List String)
          → (is_in m seen ≡ true → is_in m middle ≡ true)
          → is_in m middle ≡ false
          → is_in m seen ≡ false
      not_before m middle kept h = elim (Bool-cases (is_in m seen)) [
        | inl old ↦ absurd (cc (h, kept old))
        | inr new ↦ new
      ]

  abbrev pub AreKnown : List Cluster → Type 0
  AreKnown cs =
      All (λ (c : Cluster). (m : String) → is_in m c.modules ≡ true → is_in m domain ≡ true) cs

  -- A group as a cluster, unless it is empty.
  abbrev add_group : String → List String → List Cluster → List Cluster
  add_group name ms rest =
      if is_nil ms
      then rest
      else record { blueprint_group = name; modules = sort_strings ms } ∷ rest

  abbrev held : String → List Cluster → Bool
  held m cs = any (λ (c : Cluster). is_in m c.modules) cs

  held-add_group :
      (m name : String) (ms : List String) (rest : List Cluster)
      → held m (add_group name ms rest) ≡ (is_in m ms || held m rest)
  held-add_group m name [] rest = refl
  held-add_group m name (n ∷ ns) rest =
      ap (λ b. b || held m rest) (any-sort text_lt (λ x. str_eq x m) (n ∷ ns))

  held-groups_to_clusters :
      (m : String) (gs : List CandidateGrouping) → held m (groups_to_clusters gs) ≡ lists m gs
  unfolding groups_to_clusters
  held-groups_to_clusters m [] = refl
  held-groups_to_clusters m (g ∷ gs) =
      held-add_group m g.name g.modules (groups_to_clusters gs)
      ∙ ap (λ b. is_in m g.modules || b) (held-groups_to_clusters m gs)

  add_group-IsDisjoint :
      (name : String) (ms : List String) (rest : List Cluster)
      → ((m : String) → is_in m ms ≡ true → held m rest ≡ false)
      → IsDisjoint rest
      → IsDisjoint (add_group name ms rest)
  add_group-IsDisjoint name [] rest apart d = d
  add_group-IsDisjoint name (n ∷ ns) rest apart d =
      ((λ m h. apart m (sym (any-sort text_lt (λ x. str_eq x m) (n ∷ ns)) ∙ h)), d)

  add_group-AreKnown :
      (name : String) (ms : List String) (rest : List Cluster)
      → ((m : String) → is_in m ms ≡ true → is_in m domain ≡ true)
      → AreKnown rest
      → AreKnown (add_group name ms rest)
  add_group-AreKnown name [] rest known k = k
  add_group-AreKnown name (n ∷ ns) rest known k =
      ((λ m h. known m (sym (any-sort text_lt (λ x. str_eq x m) (n ∷ ns)) ∙ h)), k)

  -- The clusters share no module, and hold only modules of the domain.
  pub record IsPartition (cr : ClusteringResult) : Type 0 where
    pub disjoint : IsDisjoint cr.clusters
    pub known : AreKnown cr.clusters

  groups_to_clusters-IsPartition :
      (gs : List CandidateGrouping)
      → AreApart gs
      → IsDisjoint (groups_to_clusters gs) × AreKnown (groups_to_clusters gs)
  unfolding groups_to_clusters
  groups_to_clusters-IsPartition [] h = (tt, tt)
  groups_to_clusters-IsPartition (g ∷ gs) (apart, known, h) =
      let (d, k) = groups_to_clusters-IsPartition gs h in
      (
        add_group-IsDisjoint g.name g.modules (groups_to_clusters gs)
            (λ m q. held-groups_to_clusters m gs ∙ apart m q) d,
        add_group-AreKnown g.name g.modules (groups_to_clusters gs) known k,
      )

  accept-IsPartition :
      (gs : List CandidateGrouping) → validate_proposal gs domain ≡ true → IsPartition (accept gs)
  unfolding validate_proposal accept
  accept-IsPartition gs h = elim (Option-cases (validate_groups domain [] gs)) [
    | inl refused ↦ cc (rw refused at h)
    | inr (seen, q) ↦
        let (d, k) = groups_to_clusters-IsPartition gs (validate_groups-AreApart [] gs seen q).0 in
        record { disjoint = d; known = k }
  ]

  abbrev IfSome : Option ClusteringResult → Type 0
  IfSome none = Unit
  IfSome (some cr) = IsPartition cr

  retried-IsPartition : (o : Option (List CandidateGrouping)) → IfSome (retried domain o)
  unfolding retried
  retried-IsPartition none = tt
  retried-IsPartition (some gs) = elim (Bool-cases (validate_proposal gs domain)) [
    | inl valid ↦ rw valid (accept-IsPartition gs valid)
    | inr invalid ↦ rw invalid (record { disjoint = tt; known = tt })
  ]

  first_tried-IsPartition :
      (a b : Option (List CandidateGrouping)) → IfSome (first_tried domain a b)
  unfolding first_tried
  first_tried-IsPartition none b = tt
  first_tried-IsPartition (some gs) b = elim (Bool-cases (validate_proposal gs domain)) [
    | inl valid ↦ rw valid (accept-IsPartition gs valid)
    | inr invalid ↦ rw invalid (retried-IsPartition b)
  ]

  -- Whatever the language model answers to the two requests, a result of its clusterer has clusters that
  -- share no module and that hold only modules of the domain.
  pub llm_cluster-IsPartition :
      (answer : ℕ → Option (List CandidateGrouping)) (cr : ClusteringResult)
      → llm_cluster answer domain ≡ some cr
      → IsPartition cr
  unfolding llm_cluster
  llm_cluster-IsPartition answer cr e =
      subst IfSome e (first_tried-IsPartition (answer 0) (answer 1))

-- ===== src/Worker/Prefix.antt =====
-- The prefix allocator gives each service its own prefix, and always the same one.
use milton_prism.Prelude.{
  ℕ, zero, suc, ◌+◌, String, true, false, Option, none, some, List, [], ◌∷◌, ◌≡◌, refl, sym, ◌∙◌,
  ap, subst, arith, inl, inr, Bool-cases, Option-cases, str_eq, eq_iff,
}
use mathlib.Core.Option.{some-injective}
use milton_prism.Worker.Prefixes.{
  Format, Assigned, owner_of, try_from, numbered, base_of, allocate, after, allocate_all,
}

-- Claims are never given up.
abbrev Extends : Assigned → Assigned → Type 0
Extends t u = (k o : String) → owner_of t k ≡ some o → owner_of u k ≡ some o

claim-Extends :
    (t : Assigned) (c name : String)
    → owner_of t c ≡ none
    → Extends t (record { prefix = c; owner = name } ∷ t)
unfolding owner_of
claim-Extends t c name free k o h = elim (Bool-cases (str_eq c k)) [
  | inl same ↦
      let clash : none ≡ some o = sym free ∙ ap (owner_of t) ((eq_iff c k).0 same) ∙ h in
      ground arith
  | inr other ↦ rw other h
]

-- What a call gives: the prefix belongs to the name, no claim is lost, and on any map that has
-- grown from there the same call gives the same prefix and claims nothing.
record Gives (f : Format) (name base : String) (t : Assigned) (left i : ℕ) (candidate : String)
    (c : String) (t' : Assigned) : Type 0 where
  owned : owner_of t' c ≡ some name
  kept : Extends t t'
  again : (u : Assigned) → Extends t' u → try_from f name base u left i candidate ≡ some (c, u)

module _ (f : Format) (name base : String) where
  -- A candidate that the name holds is given again.
  held :
      (u : Assigned) (left i : ℕ) (candidate : String)
      → owner_of u candidate ≡ some name
      → try_from f name base u left i candidate ≡ some (candidate, u)
  unfolding try_from
  held u zero i candidate h = rw (h, (eq_iff name name).1 refl, try_from) refl
  held u (suc left) i candidate h = rw (h, (eq_iff name name).1 refl, try_from) refl

  claimed :
      (t : Assigned) (candidate : String)
      → owner_of (record { prefix = candidate; owner = name } ∷ t) candidate ≡ some name
  unfolding owner_of
  claimed t candidate = rw ((eq_iff candidate candidate).1 refl) refl

  claim-Gives :
      (t : Assigned) (left i : ℕ) (candidate : String)
      → owner_of t candidate ≡ none
      → Gives f name base t left i candidate candidate
          (record { prefix = candidate; owner = name } ∷ t)
  claim-Gives t left i candidate free = record {
    owned = claimed t candidate;
    kept = claim-Extends t candidate name free;
    again = λ u grown. held u left i candidate (grown candidate name (claimed t candidate));
  }

  held-Gives :
      (t : Assigned) (left i : ℕ) (candidate o : String)
      → owner_of t candidate ≡ some o
      → str_eq o name ≡ true
      → Gives f name base t left i candidate candidate t
  held-Gives t left i candidate o h mine =
      let owned : owner_of t candidate ≡ some name =
        h ∙ ap (λ s. some s) ((eq_iff o name).0 mine) in
      record {
        owned = owned;
        kept = λ k n e. e;
        again = λ u grown. held u left i candidate (grown candidate name owned);
      }

  later-Gives :
      (t : Assigned) (left i : ℕ) (candidate o c : String) (t' : Assigned)
      → owner_of t candidate ≡ some o
      → str_eq o name ≡ false
      → Gives f name base t left (i + 1) (numbered f base i) c t'
      → Gives f name base t (suc left) i candidate c t'
  unfolding try_from
  later-Gives t left i candidate o c t' h other g = record {
    owned = g.owned;
    kept = g.kept;
    again =
        λ u grown. rw (grown candidate o (g.kept candidate o h), other, try_from) (g.again u grown);
  }

  abbrev Outcome : Assigned → ℕ → ℕ → String → Option (String × Assigned) → Type 0
  Outcome t left i candidate none = Unit
  Outcome t left i candidate (some (c, t')) = Gives f name base t left i candidate c t'

  later-Outcome :
      (t : Assigned) (left i : ℕ) (candidate o : String)
      → owner_of t candidate ≡ some o
      → str_eq o name ≡ false
      → (r : Option (String × Assigned)) → Outcome t left (i + 1) (numbered f base i) r
      → Outcome t (suc left) i candidate r
  later-Outcome t left i candidate o h other none g = tt
  later-Outcome t left i candidate o h other (some (c, t')) g =
      later-Gives t left i candidate o c t' h other g

  outcome :
      (t : Assigned) (left i : ℕ) (candidate : String)
      → Outcome t left i candidate (try_from f name base t left i candidate)
  unfolding try_from
  outcome t zero i candidate = elim (Option-cases (owner_of t candidate)) [
    | inl free ↦ rw (free, try_from) (claim-Gives t 0 i candidate free)
    | inr (o, h) ↦ elim (Bool-cases (str_eq o name)) [
      | inl mine ↦ rw (h, mine, try_from) (held-Gives t 0 i candidate o h mine)
      | inr other ↦ rw (h, other, try_from) tt
    ]
  ]
  outcome t (suc left) i candidate = elim (Option-cases (owner_of t candidate)) [
    | inl free ↦ rw (free, try_from) (claim-Gives t (suc left) i candidate free)
    | inr (o, h) ↦ elim (Bool-cases (str_eq o name)) [
      | inl mine ↦ rw (h, mine, try_from) (held-Gives t (suc left) i candidate o h mine)
      | inr other ↦
          rw (h, other, try_from)
            (later-Outcome t left i candidate o h other
              (try_from f name base t left (i + 1) (numbered f base i))
              (outcome t left (i + 1) (numbered f base i)))
    ]
  ]

allocate-Gives :
    (f : Format) (name : String) (t t' : Assigned) (c : String)
    → allocate f name t ≡ some (c, t')
    → Gives f name (base_of f name) t 98 2 (base_of f name) c t'
unfolding allocate
allocate-Gives f name t t' c q =
    subst (λ r. Outcome f name (base_of f name) t 98 2 (base_of f name) r) q
      (outcome f name (base_of f name) t 98 2 (base_of f name))

-- A prefix that is given is claimed, and no claim is lost.
pub allocate-owned :
    (f : Format) (name : String) (t t' : Assigned) (c : String)
    → allocate f name t ≡ some (c, t')
    → owner_of t' c ≡ some name
allocate-owned f name t t' c q = (allocate-Gives f name t t' c q).owned

pub allocate-kept :
    (f : Format) (name : String) (t t' : Assigned) (c k o : String)
    → allocate f name t ≡ some (c, t')
    → owner_of t k ≡ some o
    → owner_of t' k ≡ some o
allocate-kept f name t t' c k o q = (allocate-Gives f name t t' c q).kept k o

after-Extends :
    (f : Format) (name : String) (t : Assigned) → Extends t (after (allocate f name t) t)
unfolding after
after-Extends f name t = elim (Option-cases (allocate f name t)) [
  | inl none_left ↦ rw none_left (λ k o h. h)
  | inr ((c, t'), q) ↦ rw q (allocate-Gives f name t t' c q).kept
]

all-Extends : (f : Format) (names : List String) (t : Assigned) → Extends t (allocate_all f names t)
unfolding allocate_all
all-Extends f [] t k o h = h
all-Extends f (n ∷ ns) t k o h =
    all-Extends f ns (after (allocate f n t) t) k o (after-Extends f n t k o h)

-- A prefix that has been given to a service is given to no other: whatever calls lie between, two
-- calls that give the same prefix were made for the same service name.
pub allocate-IsUnique :
    (f : Format) (t : Assigned) (a b c d : String) (t₁ t₂ : Assigned) (names : List String)
    → allocate f a t ≡ some (c, t₁)
    → allocate f b (allocate_all f names t₁) ≡ some (d, t₂)
    → c ≡ d
    → a ≡ b
allocate-IsUnique f t a b c d t₁ t₂ names p q same =
    let first = allocate-Gives f a t t₁ c p in
    let second = allocate-Gives f b (allocate_all f names t₁) t₂ d q in
    let mine : owner_of t₂ c ≡ some a = second.kept c a (all-Extends f names t₁ c a first.owned) in
    some-injective a b (sym mine ∙ ap (owner_of t₂) same ∙ second.owned)

-- A service that has been given a prefix is given the same one again, whatever calls lie between,
-- and that call claims nothing.
pub allocate-IsStable :
    (f : Format) (t : Assigned) (a c : String) (t₁ : Assigned) (names : List String)
    → allocate f a t ≡ some (c, t₁)
    → allocate f a (allocate_all f names t₁) ≡ some (c, allocate_all f names t₁)
unfolding allocate
allocate-IsStable f t a c t₁ names p =
    (allocate-Gives f a t t₁ c p).again (allocate_all f names t₁) (all-Extends f names t₁)

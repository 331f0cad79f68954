-- ===== src/Decomposition/Members.antt =====
-- Which dependencies the loops over the edges, the contracts and the keys collect.
use milton_prism.Prelude.{
  String, Bool, true, false, ◌&&◌, ◌||◌, List, [], ◌∷◌, ◌++◌, ◌≡◌, refl, sym, ◌∙◌, ap, inl, inr,
  Bool-cases, any, or_swap, or_assoc, or_false, if◌then◌else◌, str_eq, eq_iff,
}
use milton_prism.Migration.Domain.{CrossServiceFk}
use milton_prism.Decomposition.Domain.{
  Edge, Cluster, ServiceCandidate, ProtoField, ProtoMessage, DerivedContract, is_in,
}
use milton_prism.Decomposition.Characterize.{
  Texts, service_of, leaves, is_models, data_deps, add_name,
}
use milton_prism.Decomposition.Ownership.{
  crosses, field_keys, message_keys, contract_keys, append_dep,
}

known :
    (d n : String) (ns : List String) → is_in n ns ≡ true → is_in d ns ≡ (str_eq n d || is_in d ns)
known d n ns h = elim (Bool-cases (str_eq n d)) [
  | inl same ↦ rw (same, ← (eq_iff n d).0 same) h
  | inr other ↦ rw other refl
]

is_in-add_name :
    (d n : String) (ns : List String) → is_in d (add_name n ns) ≡ (str_eq n d || is_in d ns)
is_in-add_name d n ns = elim (Bool-cases (is_in n ns)) [
  | inl old ↦ rw old (known d n ns old)
  | inr new ↦ rw new refl
]

-- An edge by which a service depends on another.
abbrev pub is_dep : Texts → List Cluster → String → String → Edge → Bool
is_dep texts clusters name d e =
    (leaves texts clusters name e && is_models e.from_module)
    && str_eq (service_of texts clusters e.to_module) d

module _ (texts : Texts) (clusters : List Cluster) (name d : String) where
  one_edge :
      (b : Bool) (n : String) (deps : List String)
      → is_in d (if b then add_name n deps else deps) ≡ ((b && str_eq n d) || is_in d deps)
  one_edge true n deps = is_in-add_name d n deps
  one_edge false n deps = refl

  pub is_in-data_deps :
      (es : List Edge) (deps : List String)
      → is_in d (data_deps texts clusters name es deps)
        ≡ (any (is_dep texts clusters name d) es || is_in d deps)
  unfolding data_deps
  is_in-data_deps [] deps = refl
  is_in-data_deps (e ∷ es) deps =
      let b = leaves texts clusters name e && is_models e.from_module in
      let n = service_of texts clusters e.to_module in
      is_in-data_deps es (if b then add_name n deps else deps)
      ∙ (ap (λ x. any (is_dep texts clusters name d) es || x) (one_edge b n deps)
          ∙ (or_swap (any (is_dep texts clusters name d) es) (b && str_eq n d) (is_in d deps)
              ∙ sym (
                  or_assoc (b && str_eq n d) (any (is_dep texts clusters name d) es)
                    (is_in d deps))))

any-append :
    {A : Type 0} (p : A → Bool) (xs ys : List A) → any p (xs ++ ys) ≡ (any p xs || any p ys)
any-append p [] ys = refl
any-append p (x ∷ xs) ys =
    ap (λ b. p x || b) (any-append p xs ys) ∙ sym (or_assoc (p x) (any p xs) (any p ys))

pub is_in-append_dep :
    (d n : String) (k : ServiceCandidate)
    → is_in d (append_dep n k).deps ≡ (is_in d k.deps || str_eq n d)
is_in-append_dep d n k = elim (Bool-cases (is_in n k.deps)) [
  | inl old ↦ rw old (known d n k.deps old ∙ or_comm (str_eq n d) (is_in d k.deps))
  | inr new ↦ rw new (
      any-append (λ m. str_eq m d) k.deps (n ∷ [])
      ∙ ap (λ b. is_in d k.deps || b) (or_false (str_eq n d)))
]
  where
    or_comm : (a b : Bool) → (a || b) ≡ (b || a)
    or_comm true true = refl
    or_comm true false = refl
    or_comm false true = refl
    or_comm false false = refl

-- A foreign key of one service that leads to another.
abbrev pub is_key_to : String → String → CrossServiceFk → Bool
is_key_to a d k = str_eq k.owner_service a && str_eq k.ref_service d

-- A field that makes such a key.
abbrev pub refers : String → String → DerivedContract → ProtoMessage → ProtoField → Bool
refers a d c m f = crosses c.service_name f && (str_eq c.service_name a && str_eq f.ref_service d)

module _ (a d : String) where
  any-field_keys :
      (c : DerivedContract) (m : ProtoMessage) (fs : List ProtoField)
      → any (is_key_to a d) (field_keys c.service_name m.name fs) ≡ any (refers a d c m) fs
  unfolding field_keys
  any-field_keys c m [] = refl
  any-field_keys c m (f ∷ fs) = elim (Bool-cases (crosses c.service_name f)) [
    | inl yes_it_does ↦
        rw yes_it_does (
          ap (λ b. (str_eq c.service_name a && str_eq f.ref_service d) || b)
            (any-field_keys c m fs))
    | inr stays ↦ rw stays (any-field_keys c m fs)
  ]

  any-message_keys :
      (c : DerivedContract) (ms : List ProtoMessage)
      → any (is_key_to a d) (message_keys c.service_name ms)
        ≡ any (λ m. any (refers a d c m) m.fields) ms
  unfolding message_keys
  any-message_keys c [] = refl
  any-message_keys c (m ∷ ms) =
      any-append (is_key_to a d) (field_keys c.service_name m.name m.fields)
        (message_keys c.service_name ms)
      ∙ rw (any-field_keys c m m.fields, any-message_keys c ms) refl

  pub any-contract_keys :
      (cs : List DerivedContract)
      → any (is_key_to a d) (contract_keys cs)
        ≡ any (λ c. any (λ m. any (refers a d c m) m.fields) c.messages) cs
  unfolding contract_keys
  any-contract_keys [] = refl
  any-contract_keys (c ∷ cs) =
      any-append (is_key_to a d) (message_keys c.service_name c.messages) (contract_keys cs)
      ∙ rw (any-message_keys c c.messages, any-contract_keys cs) refl

-- ===== src/Decomposition/Dependence.antt =====
-- What the dependencies of a proposed service mean: the loops over the edges and the foreign keys against a
-- relation that knows of no loop.
use milton_prism.Prelude.{
  String, true, not, ◌&&◌, List, ◌≡◌, ◌≢◌, refl, sym, ◌∙◌, ◌⊎◌, inl, inr, Bool-cases, and_cases,
  any, any_iff, Any, Any-map, Any-elim, str_eq, eq_iff, is_empty,
}
use milton_prism.Migration.Domain.{CrossServiceFk}
use milton_prism.Decomposition.Domain.{Edge, Cluster, ProtoField, ProtoMessage, DerivedContract}
use milton_prism.Decomposition.Characterize.{Texts, service_of, leaves, is_models}
use milton_prism.Decomposition.Ownership.{crosses, contract_keys}
use milton_prism.Decomposition.Members.{is_dep, is_key_to, refers, any-contract_keys}
use milton_prism.Decomposition.Augmented.{adds}

-- A model of service `a` imports a module of service `b`.
abbrev pub Imports : Texts → List Cluster → String → String → Edge → Type 0
Imports texts clusters a b e =
    (is_models e.from_module ≡ true)
    × (service_of texts clusters e.from_module ≡ a)
    × (service_of texts clusters e.to_module ≡ b)

-- A message of the contract of `a` holds a foreign key to `b`.
abbrev pub Refers : String → String → DerivedContract → Type 0
Refers a b c =
    (c.service_name ≡ a)
    × Any (λ m. Any (λ f. (f.is_cross_fk ≡ true) × (f.ref_service ≡ b)) m.fields) c.messages

-- Service `a` cannot do without service `b`.
pub record DependsOn (texts : Texts) (edges : List Edge) (clusters : List Cluster)
    (contracts : List DerivedContract) (a b : String) : Type 0 where
  pub is_service : b ≢ ""
  pub is_other : b ≢ a
  pub because : Any (Imports texts clusters a b) edges ⊎ Any (Refers a b) contracts

not_equal : (s t : String) → not (str_eq s t) ≡ true → s ≢ t
not_equal s t h e = cc (h, (eq_iff s t).1 e)

equal_not : (s t : String) → s ≢ t → not (str_eq s t) ≡ true
equal_not s t h = elim (Bool-cases (str_eq s t)) [
  | inl same ↦ absurd (h ((eq_iff s t).0 same))
  | inr other ↦ rw other refl
]

module _ (texts : Texts) (edges : List Edge) (clusters : List Cluster)
    (contracts : List DerivedContract) (a d : String) where
  -- What one edge that the loop counts says.
  pub edge-Imports :
      (e : Edge)
      → is_dep texts clusters a d e ≡ true
      → (d ≢ "") × (d ≢ a) × Imports texts clusters a d e
  unfolding leaves
  edge-Imports e h =
      let to = service_of texts clusters e.to_module in
      let (p, q) =
        and_cases (leaves texts clusters a e && is_models e.from_module) (str_eq to d) h in
      let (l, models) = and_cases (leaves texts clusters a e) (is_models e.from_module) p in
      let (from_a, r) =
        and_cases (str_eq (service_of texts clusters e.from_module) a)
          (not (is_empty to) && not (str_eq to a)) l in
      let (not_none, not_self) = and_cases (not (is_empty to)) (not (str_eq to a)) r in
      let same : to ≡ d = (eq_iff to d).0 q in
      (
        (λ e. not_equal to "" not_none (same ∙ e)),
        (λ e. not_equal to a not_self (same ∙ e)),
        (models, (eq_iff (service_of texts clusters e.from_module) a).0 from_a, same),
      )

  pub Imports-edge :
      (e : Edge)
      → d ≢ ""
      → d ≢ a
      → Imports texts clusters a d e
      → is_dep texts clusters a d e ≡ true
  unfolding leaves
  Imports-edge e n o (models, from_a, to_d) =
      rw
        (
          models,
          from_a,
          to_d,
          (eq_iff a a).1 refl,
          (eq_iff d d).1 refl,
          equal_not d "" n,
          equal_not d a o,
        )
        refl

  abbrev FieldRefers : DerivedContract → ProtoField → Type 0
  FieldRefers c f = (d ≢ a) × (c.service_name ≡ a) × (f.is_cross_fk ≡ true) × (f.ref_service ≡ d)

  refers-FieldRefers :
      (c : DerivedContract) (m : ProtoMessage) (f : ProtoField)
      → refers a d c m f ≡ true
      → FieldRefers c f
  refers-FieldRefers c m f h =
      let (p, q) =
        and_cases (crosses c.service_name f) (str_eq c.service_name a && str_eq f.ref_service d)
          h in
      let (cross, other) = and_cases f.is_cross_fk (not (str_eq f.ref_service c.service_name)) p in
      let (own, to) = and_cases (str_eq c.service_name a) (str_eq f.ref_service d) q in
      let owner : c.service_name ≡ a = (eq_iff c.service_name a).0 own in
      let target : f.ref_service ≡ d = (eq_iff f.ref_service d).0 to in
      (
        (λ e. not_equal f.ref_service c.service_name other (target ∙ (e ∙ sym owner))),
        owner,
        cross,
        target,
      )

  FieldRefers-refers :
      (c : DerivedContract) (m : ProtoMessage) (f : ProtoField)
      → d ≢ a
      → c.service_name ≡ a
      → (f.is_cross_fk ≡ true) × (f.ref_service ≡ d)
      → refers a d c m f ≡ true
  FieldRefers-refers c m f o owner (cross, target) =
      rw (cross, owner, target, (eq_iff a a).1 refl, (eq_iff d d).1 refl, equal_not d a o) refl

  contract-Refers :
      (c : DerivedContract)
      → any (λ m. any (refers a d c m) m.fields) c.messages ≡ true
      → (d ≢ a) × Refers a d c
  contract-Refers c h =
      let in_messages = (any_iff (λ m. any (refers a d c m) m.fields) c.messages).0 h in
      let in_fields : Any (λ m. Any (FieldRefers c) m.fields) c.messages =
        Any-map (λ m. any (refers a d c m) m.fields ≡ true) (λ m. Any (FieldRefers c) m.fields)
          c.messages
          (λ m k.
            Any-map (λ f. refers a d c m f ≡ true) (FieldRefers c) m.fields (refers-FieldRefers c m)
              ((any_iff (refers a d c m) m.fields).0 k))
          in_messages in
      let both : (d ≢ a) × (c.service_name ≡ a) =
        Any-elim (λ m. Any (FieldRefers c) m.fields) ((d ≢ a) × (c.service_name ≡ a)) c.messages
          (λ m k.
            Any-elim (FieldRefers c) ((d ≢ a) × (c.service_name ≡ a)) m.fields (λ f r. (r.0, r.1))
              k)
          in_fields in
      (
        both.0,
        (
          both.1,
          Any-map (λ m. Any (FieldRefers c) m.fields)
              (λ m. Any (λ f. (f.is_cross_fk ≡ true) × (f.ref_service ≡ d)) m.fields) c.messages
              (λ m k.
                Any-map (FieldRefers c) (λ f. (f.is_cross_fk ≡ true) × (f.ref_service ≡ d)) m.fields
                  (λ f r. (r.2, r.3)) k)
              in_fields,
        ),
      )

  Refers-contract :
      (c : DerivedContract)
      → d ≢ a
      → Refers a d c
      → any (λ m. any (refers a d c m) m.fields) c.messages ≡ true
  Refers-contract c o (owner, h) = (any_iff (λ m. any (refers a d c m) m.fields) c.messages).1 (
      Any-map (λ m. Any (λ f. (f.is_cross_fk ≡ true) × (f.ref_service ≡ d)) m.fields)
        (λ m. any (refers a d c m) m.fields ≡ true) c.messages
        (λ m k. (any_iff (refers a d c m) m.fields).1 (
          Any-map (λ f. (f.is_cross_fk ≡ true) × (f.ref_service ≡ d)) (λ f. refers a d c m f ≡ true)
            m.fields (λ f r. FieldRefers-refers c m f o owner r) k))
        h)

  pub keys-Refers :
      any (adds a d) (contract_keys contracts) ≡ true
      → (d ≢ "") × (d ≢ a) × Any (Refers a d) contracts
  keys-Refers h =
      let ks = contract_keys contracts in
      let each = (any_iff (adds a d) ks).0 h in
      let of_contracts : any (λ c. any (λ m. any (refers a d c m) m.fields) c.messages) contracts
          ≡ true =
        sym (any-contract_keys a d contracts)
        ∙ (any_iff (is_key_to a d) ks).1 (
            Any-map (λ k. adds a d k ≡ true) (λ k. is_key_to a d k ≡ true) ks
              (λ k p. (and_cases (not (is_empty k.ref_service)) (is_key_to a d k) p).1) each) in
      let in_contracts =
        (any_iff (λ c. any (λ m. any (refers a d c m) m.fields) c.messages) contracts).0
          of_contracts in
      (
        Any-elim (λ k. adds a d k ≡ true) (d ≢ "") ks (λ k p. key_target k p) each,
        Any-elim (λ c. any (λ m. any (refers a d c m) m.fields) c.messages ≡ true) (d ≢ a) contracts
            (λ c p. (contract-Refers c p).0) in_contracts,
        Any-map (λ c. any (λ m. any (refers a d c m) m.fields) c.messages ≡ true) (Refers a d)
            contracts (λ c p. (contract-Refers c p).1) in_contracts,
      )
    where
      key_target : (k : CrossServiceFk) → adds a d k ≡ true → d ≢ ""
      key_target k p e =
          let (n, q) = and_cases (not (is_empty k.ref_service)) (is_key_to a d k) p in
          let (_, to) = and_cases (str_eq k.owner_service a) (str_eq k.ref_service d) q in
          not_equal k.ref_service "" n ((eq_iff k.ref_service d).0 to ∙ e)

  pub Refers-keys :
      d ≢ "" → d ≢ a → Any (Refers a d) contracts → any (adds a d) (contract_keys contracts) ≡ true
  Refers-keys n o h =
      let ks = contract_keys contracts in
      let counted : any (is_key_to a d) ks ≡ true =
        any-contract_keys a d contracts
        ∙ (any_iff (λ c. any (λ m. any (refers a d c m) m.fields) c.messages) contracts).1 (
            Any-map (Refers a d) (λ c. any (λ m. any (refers a d c m) m.fields) c.messages ≡ true)
              contracts (λ c r. Refers-contract c o r) h) in
      (any_iff (adds a d) ks).1 (
        Any-map (λ k. is_key_to a d k ≡ true) (λ k. adds a d k ≡ true) ks
          (λ k p.
            let to =
              (eq_iff k.ref_service d).0
                (and_cases (str_eq k.owner_service a) (str_eq k.ref_service d) p).1 in
            rw (p, to, equal_not d "" n) refl)
          ((any_iff (is_key_to a d) ks).0 counted))

-- ===== src/Decomposition/Ownership.antt =====
-- core/worker/decomposition/application/pipeline.go, stage 6: the foreign keys that cross services, and the
-- dependencies that they add.
use milton_prism.Prelude.{
  String, Bool, not, ◌&&◌, List, [], ◌∷◌, ◌++◌, if◌then◌else◌, true, any, str_eq, is_empty, concat,
  sort_by, sort_strings, text_lt,
}
use milton_prism.Migration.Domain.{OperationalCoupling, CrossServiceFk}
use milton_prism.Decomposition.Domain.{
  ServiceCandidate, ProtoField, ProtoMessage, DerivedContract, DataOwnership, is_in,
}

abbrev pub foreign_key : String → String → ProtoField → CrossServiceFk
foreign_key owner message f = record {
  owner_service = owner;
  owner_message = message;
  field = f.name;
  ref_table = f.ref_table;
  ref_service = f.ref_service;
}

-- A field that does not lead to a `continue`.
abbrev pub crosses : String → ProtoField → Bool
crosses owner f = f.is_cross_fk && not (str_eq f.ref_service owner)

unfoldable pub field_keys : String → String → List ProtoField → List CrossServiceFk
field_keys owner message [] = []
field_keys owner message (f ∷ fs) =
    let rest = field_keys owner message fs in
    if crosses owner f then foreign_key owner message f ∷ rest else rest

unfoldable pub message_keys : String → List ProtoMessage → List CrossServiceFk
unfolding field_keys
message_keys owner [] = []
message_keys owner (m ∷ ms) = field_keys owner m.name m.fields ++ message_keys owner ms

unfoldable pub contract_keys : List DerivedContract → List CrossServiceFk
unfolding message_keys
contract_keys [] = []
contract_keys (c ∷ cs) = message_keys c.service_name c.messages ++ contract_keys cs

abbrev pub key_order : CrossServiceFk → String
key_order k = concat k.owner_service (concat "." (concat k.owner_message (concat "." k.field)))

abbrev pub coupling_order : OperationalCoupling → String
coupling_order o =
    concat o.from_service (concat "." (concat o.source_module (concat "→" o.to_service)))

unfoldable pub all_couplings : List ServiceCandidate → List OperationalCoupling
all_couplings [] = []
all_couplings (k ∷ ks) = k.operational_couplings ++ all_couplings ks

unfoldable pub analyze_data_ownership : List ServiceCandidate → List DerivedContract → DataOwnership
unfolding contract_keys all_couplings sort_by
analyze_data_ownership candidates contracts = record {
  shared_database = true;
  cross_service_fks =
      sort_by (λ a b. text_lt (key_order a) (key_order b)) (contract_keys contracts);
  operational_couplings =
      sort_by (λ a b. text_lt (coupling_order a) (coupling_order b)) (all_couplings candidates);
}

abbrev pub is_named : String → List ServiceCandidate → Bool
is_named name ks = any (λ k. str_eq k.name name) ks

abbrev pub append_dep : String → ServiceCandidate → ServiceCandidate
append_dep d k = record k { deps = if is_in d k.deps then k.deps else k.deps ++ (d ∷ []) }

-- `candidates[idx[owner]]` is changed: the last candidate of that name, if there is one.
unfoldable pub add_dep : String → String → List ServiceCandidate → List ServiceCandidate
add_dep owner d [] = []
add_dep owner d (k ∷ ks) =
    let rest = add_dep owner d ks in
    if is_named owner ks then k ∷ rest else (if str_eq k.name owner then append_dep d k else k) ∷ ks

unfoldable pub add_deps : List CrossServiceFk → List ServiceCandidate → List ServiceCandidate
unfolding add_dep
add_deps [] ks = ks
add_deps (fk ∷ fks) ks =
    add_deps fks
      (if is_empty fk.ref_service then ks else add_dep fk.owner_service fk.ref_service ks)

unfoldable pub sort_deps : List ServiceCandidate → List ServiceCandidate
unfolding sort_by
sort_deps [] = []
sort_deps (k ∷ ks) = record k { deps = sort_strings k.deps } ∷ sort_deps ks

unfoldable pub augment_data_deps :
    List ServiceCandidate → List CrossServiceFk → List ServiceCandidate
unfolding add_deps sort_deps
augment_data_deps candidates fks = sort_deps (add_deps fks candidates)

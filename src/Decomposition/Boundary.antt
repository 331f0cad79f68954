-- ===== src/Decomposition/Boundary.antt =====
-- core/worker/decomposition/domain/domain.go: BuildBoundarySpecYAML, the text of the boundary spec of a
-- service.
use milton_prism.Prelude.{String, Bool, not, List, [], ◌∷◌, if◌then◌else◌, is_empty, concat}
use milton_prism.Migration.Domain.{ProposedService, CrossServiceFk, OperationalCoupling}

abbrev pub line : String → String → String
line before s = concat before (concat s "\n")

-- A list of names, or the empty list.
unfoldable pub items : List String → String
items [] = ""
items (s ∷ ss) = concat (line "  - " s) (items ss)

unfoldable pub items_or_none : List String → String
unfolding items
items_or_none [] = "  []\n"
items_or_none (s ∷ ss) = items (s ∷ ss)

unfoldable pub key_lines : CrossServiceFk → String
key_lines k = concat (line "  - owner_message: " k.owner_message) (
    concat (line "    owner: " k.owner_service) (
      concat (line "    field: " k.field) (
        concat (line "    ref_table: " k.ref_table)
          (if not (is_empty k.ref_service) then line "    ref_service: " k.ref_service else ""))))

unfoldable pub all_key_lines : List CrossServiceFk → String
unfolding key_lines
all_key_lines [] = ""
all_key_lines (k ∷ ks) = concat (key_lines k) (all_key_lines ks)

unfoldable pub key_section : List CrossServiceFk → String
unfolding all_key_lines
key_section [] = ""
key_section (k ∷ ks) = concat "cross_service_fks:\n" (all_key_lines (k ∷ ks))

unfoldable pub coupling_lines : List OperationalCoupling → String
coupling_lines [] = ""
coupling_lines (o ∷ os) = concat (line "  - from: " o.from_service) (
    concat (line "    to: " o.to_service)
      (concat (line "    source_module: " o.source_module) (coupling_lines os)))

unfoldable pub coupling_section : List OperationalCoupling → String
unfolding coupling_lines
coupling_section [] = ""
coupling_section (o ∷ os) =
    concat "# Operational couplings — view-layer imports that become gRPC calls or events:\n"
      (concat "operational_couplings:\n" (coupling_lines (o ∷ os)))

abbrev pub preamble : String
preamble = concat "# Milton Prism boundary spec — generated by decomposition engine\n" (
    concat "# TODO: per-service data ownership + cross-service consistency\n"
      "# Review and commit to protobuf/proto/... when ready.\n\n")

unfoldable pub build_boundary_spec_yaml :
    ProposedService → Bool → List CrossServiceFk → List OperationalCoupling → String
unfolding items_or_none key_section coupling_section
build_boundary_spec_yaml svc shared_db keys ops = concat preamble (
    concat (line "name: " svc.name) (
      concat (line "error_prefix: " svc.error_prefix) (
        concat "owned_resources:\n" (
          concat (items_or_none svc.owned_resources) (
            concat "inter_service_deps:\n" (
              concat (items_or_none svc.inter_service_deps) (
                concat
                  (if shared_db
                    then "shared_database: true  # monolith DB — per-service separation deferred\n"
                    else "shared_database: false\n")
                  (concat (key_section keys) (coupling_section ops)))))))))

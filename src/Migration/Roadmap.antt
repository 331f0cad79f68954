-- ===== src/Migration/Roadmap.antt =====
-- core/services/migration/application/service.go: the restructuring roadmap, built from the score
-- signals of an assessment with no call outside.
use Prim.Native.Char.{code}
use Prim.Native.String.{slice}
use text.Mathlib.Text.{find?}
use milton_prism.Prelude.{
  ℕ, zero, suc, ◌+◌, String, Bool, true, false, not, ◌&&◌, ◌||◌, Option, none, some, List, [], ◌∷◌,
  ◌==◌, ltb, leb, if◌then◌else◌, str_eq, concat, join, is_empty,
}
use milton_prism.Migration.Domain.{ScoreSignal, ActionItem}

-- `sort.Slice(xs, func(i, j) bool { return key(xs[i]) > key(xs[j]) })` of the standard library, which
-- is not stable: any sorting function may stand for it.
pub record Sorter : Type 1 where
  pub sort_desc : (A : Type 0) → (A → ℕ) → List A → List A

-- `unicode.IsSpace`
unfoldable pub is_space : ℕ → Bool
is_space c =
    (leb 9 c && leb c 13)
    || (c == 32)
    || (c == 0x85)
    || (c == 0xa0)
    || (c == 0x1680)
    || (leb 0x2000 c && leb c 0x200a)
    || (c == 0x2028)
    || (c == 0x2029)
    || (c == 0x202f)
    || (c == 0x205f)
    || (c == 0x3000)

-- `strings.Fields`, with the word read so far.
unfoldable pub fields_from : String → String → List String
unfolding is_space
fields_from String.[] word = if is_empty word then [] else word ∷ []
fields_from (String.◌∷◌ c s) word =
    let space = is_space (code c) in
    let rest = fields_from s (if space then "" else concat word (String.◌∷◌ c String.[])) in
    if space && not (is_empty word) then word ∷ rest else rest

-- parseHubModule: the text before " fan-in=", when that is not at the start.
unfoldable pub parse_hub_module : String → String
parse_hub_module detail = elim (find? detail " fan-in=") [
  | none ↦ detail
  | some i ↦ if ltb 0 i then slice detail 0 i else detail
]

-- parseGodModules: the words between the first "[" and the first "]".
unfoldable pub parse_god_modules : String → List String
unfolding fields_from
parse_god_modules detail = elim (find? detail "[") [
  | none ↦ []
  | some start ↦ elim (find? detail "]") [
    | none ↦ []
    | some end_at ↦
        if ltb (start + 1) end_at then fields_from (slice detail (start + 1) end_at) "" else []
  ]
]

unfoldable pub take : ℕ → List String → List String
take zero xs = []
take (suc n) [] = []
take (suc n) (x ∷ xs) = x ∷ take n xs

unfoldable pub format_module_list : List String → ℕ → String
unfolding take
format_module_list [] max = "(infra modules)"
format_module_list (x ∷ xs) max = join (take max (x ∷ xs)) ", "

-- The action of a step before it is ordered.
abbrev pub new_item : String → String → String → Bool → ActionItem
new_item kind subject action blocking = record {
  kind = kind;
  subject = subject;
  action = action;
  blocking = blocking;
  impact = 0;
  order = 0;
  depends_on_step = 0;
}

abbrev pub god_subject : String → String → String
god_subject joined detail = if is_empty joined then detail else joined

unfoldable pub domain_item : List String → ActionItem
unfolding format_module_list
domain_item infra_modules =
    let subject = format_module_list infra_modules 5 in
    new_item "EXTRACT_DOMAIN" subject
      (concat "Extract domain entities from " (
        concat subject
          " into dedicated domain modules; separate business logic from infrastructure utilities"))
      true

unfoldable pub hub_item : String → ActionItem
unfolding parse_hub_module
hub_item detail =
    let module_name = parse_hub_module detail in
    new_item "DECOUPLE_STATE" module_name
      (concat "Decouple shared state in "
        (concat module_name " by extracting state management behind a service interface"))
      true

unfoldable pub god_item : String → ActionItem
unfolding parse_god_modules
god_item detail =
    let subject = god_subject (join (parse_god_modules detail) ", ") detail in
    new_item "SPLIT_GOD_MODULE" subject
      (concat "Split "
        (concat subject " by responsibility: extract distinct concerns into focused modules"))
      false

unfoldable pub boundaries_item : String → ActionItem
boundaries_item detail =
    new_item "DEFINE_BOUNDARIES" detail
      (concat "Define service boundaries around domain modules once the domain layer exists; "
        "group by functional area to form service clusters")
      true

unfoldable pub routing_item : String → ActionItem
routing_item detail =
    new_item "ADD_ROUTING" detail
      (concat "Add per-domain HTTP routing once service clusters exist: "
        "one route file per service boundary")
      false

unfoldable pub signal_to_action_item : ScoreSignal → List String → Option ActionItem
unfolding domain_item hub_item god_item boundaries_item routing_item
signal_to_action_item sig infra_modules =
    if str_eq sig.signal "domain_presence"
    then some (domain_item infra_modules)
    else if str_eq sig.signal "hub_severity"
    then some (hub_item sig.detail)
    else if str_eq sig.signal "god_modules"
    then some (god_item sig.detail)
    else if str_eq sig.signal "cluster_count"
    then some (boundaries_item sig.detail)
    else if str_eq sig.signal "routing_layout"
    then some (routing_item sig.detail)
    else none

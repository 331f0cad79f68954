-- ===== src/Generation/Aggregator.antt =====
-- core/worker/generation/application/error_aggregator.go: the shared error file of the gateway, which the
-- worker assembles itself.
use milton_prism.Prelude.{
  ℕ, String, Bool, true, false, not, ◌&&◌, Option, none, some, List, [], ◌∷◌, map, join, concat,
  if◌then◌else◌, str_eq,
}
use milton_prism.Migration.Publish.{ServiceSpec, GenerationPackage}
use milton_prism.Generation.Records.{FileArtifact, ServiceRecord}
use milton_prism.Generation.Store.{Store, BulkOutcome, list_files}
use milton_prism.Generation.Service.{Effect, put_files, is_done}

-- `set[name]`
unfoldable pub is_among : String → List String → Bool
is_among name [] = false
is_among name (n ∷ ns) = if str_eq n name then true else is_among name ns

abbrev pub preamble : List String
preamble =
    "package message_error\n\n" ∷ "import (\n" ∷ "\t\"encoding/json\"\n" ∷ "\t\"strings\"\n"
    ∷ "\t\"unicode\"\n\n" ∷ "\t\"github.com/grpc-ecosystem/grpc-gateway/v2/runtime\"\n"
    ∷ "\t\"golang.org/x/text/cases\"\n" ∷ "\t\"golang.org/x/text/language\"\n"
    ∷ "\t\"google.golang.org/grpc/status\"\n" ∷ ")\n\n"
    ∷ "// ErrorMessage represents an error message with details, status code, and title.\n"
    ∷ "type ErrorMessage struct {\n"
    ∷ "\tDetail string `json:\"detail,omitempty\"` // Human-readable error message\n"
    ∷ "\tStatus int    `json:\"status,omitempty\"` // HTTP status code\n"
    ∷ "\tTitle  string `json:\"title,omitempty\"`  // Short, human-readable error title\n" ∷ "}\n\n"
    ∷ "// Error returns the JSON representation of the ErrorMessage.\n"
    ∷ "func (e *ErrorMessage) Error() string {\n" ∷ "\terrStr, _ := json.Marshal(e)\n"
    ∷ "\treturn string(errStr)\n" ∷ "}\n\n"
    ∷ "// HandlerErrorMessage converts a gRPC status to an ErrorMessage.\n"
    ∷ "func HandlerErrorMessage(st status.Status) ErrorMessage {\n"
    ∷ "\tstatusCode := runtime.HTTPStatusFromCode(st.Code())\n" ∷ "\tdetail := st.Message()\n\n"
    ∷ "\t// Split the detail to extract the error code and the associated message\n"
    ∷ "\tparts := strings.SplitN(detail, \": \", 2)\n"
    ∷ "\tcode := parts[0]  // Assume the code is the first part before \": \"\n"
    ∷ "\tmessage := detail // Default to using the whole detail as the message\n"
    ∷ "\tif len(parts) > 1 {\n" ∷ "\t\tmessage = formatErrorMessage(parts[1])\n" ∷ "\t}\n\n"
    ∷ "\t// Try to get a custom error message based on the extracted error code\n"
    ∷ "\tif customMsg, ok := lookupErrorMessage(code); ok {\n" ∷ "\t\tmessage = customMsg\n"
    ∷ "\t}\n\n" ∷ "\treturn ErrorMessage{\n" ∷ "\t\tDetail: message,\n"
    ∷ "\t\tStatus: statusCode,\n" ∷ "\t\tTitle:  st.Code().String(),\n" ∷ "\t}\n" ∷ "}\n\n"
    ∷ "// formatErrorMessage converts Failure_X_Y style messages into readable form.\n" ∷ "//\n"
    ∷ "// Examples:\n" ∷ "//\n"
    ∷ "//\tformatErrorMessage(\"Failure_Missing_Identifier\") → \"Failure missing identifier.\"\n"
    ∷ "//\tformatErrorMessage(\"Failure_Company_Not_Found\")  → \"Failure company not found.\"\n"
    ∷ "func formatErrorMessage(msg string) string {\n" ∷ "\tparts := strings.Split(msg, \"_\")\n"
    ∷ "\tfor i, part := range parts {\n" ∷ "\t\tif containsInternalUppercase(part) {\n"
    ∷ "\t\t\tparts[i] = part\n" ∷ "\t\t} else {\n" ∷ "\t\t\tparts[i] = strings.ToLower(part)\n"
    ∷ "\t\t}\n" ∷ "\t}\n" ∷ "\tif len(parts) > 0 {\n"
    ∷ "\t\tparts[0] = cases.Title(language.Und).String(parts[0])\n" ∷ "\t}\n"
    ∷ "\treturn strings.Join(parts, \" \") + \".\"\n" ∷ "}\n\n"
    ∷ "// containsInternalUppercase checks if a word contains uppercase letters other than the first letter.\n"
    ∷ "func containsInternalUppercase(word string) bool {\n" ∷ "\tfor i, r := range word {\n"
    ∷ "\t\tif i > 0 && unicode.IsUpper(r) {\n" ∷ "\t\t\treturn true\n" ∷ "\t\t}\n" ∷ "\t}\n"
    ∷ "\treturn false\n" ∷ "}\n\n"
    ∷ "// lookupErrorMessage searches for an API-friendly message by error code across all service maps.\n"
    ∷ "func lookupErrorMessage(code string) (string, bool) {\n" ∷ "\tmaps := []map[string]string{\n"
    ∷ []

abbrev pub ending : List String
ending =
    "\t}\n" ∷ "\tfor _, m := range maps {\n" ∷ "\t\tif msg, ok := m[code]; ok {\n"
    ∷ "\t\t\treturn msg, true\n" ∷ "\t\t}\n" ∷ "\t}\n" ∷ "\treturn \"\", false\n" ∷ "}\n" ∷ []

-- `fmt.Fprintf(w, "\t\t%s,\n", name)`
abbrev pub map_line : String → String
map_line name = concat "\t\t" (concat name ",\n")

-- The text of the file, for the sorted names.
unfoldable pub build_message_error_go : List String → String
build_message_error_go sorted =
    concat (join preamble "") (concat (join (map map_line sorted) "") (join ending ""))

-- An entry of the directory of the error files; `content` is absent where the file cannot be read.
pub record DirEntry : Type 0 where
  pub name : String
  pub is_dir : Bool
  pub content : Option String

-- The standard library, the file system and the answers of the store's lists: `base` is filepath.Base,
-- `has_suffix` strings.HasSuffix, `sort_strings` sort.Strings, `var_names` the matches of the regular
-- expression `(?m)^var (\w+ErrorMessages)\s*=`; `read_dir` is absent where the directory is.
pub record Toolbox : Type 0 where
  pub base : String → String
  pub has_suffix : String → String → Bool
  pub sort_strings : List String → List String
  pub var_names : String → List String
  pub read_dir : Option (List DirEntry)
  pub list_fault : String → Bool
  pub aggregator_outcome : BulkOutcome

-- `varNames[name] = struct{}{}`
unfoldable pub add_name : String → List String → List String
unfolding is_among
add_name name names = if is_among name names then names else name ∷ names

unfoldable pub add_names : List String → List String → List String
unfolding add_name
add_names [] names = names
add_names (n ∷ ns) names = add_names ns (add_name n names)

abbrev pub is_error_file : Toolbox → String → Bool
is_error_file box name = box.has_suffix name "_errors.go" && not (str_eq name "message_error.go")

abbrev pub entry_names : Toolbox → DirEntry → List String
entry_names box e =
    if not e.is_dir && is_error_file box e.name
    then elim e.content [ none ↦ [] | some text ↦ box.var_names text ]
    else []

unfoldable pub scan_entries : Toolbox → List DirEntry → List String → List String
unfolding add_names
scan_entries box [] names = names
scan_entries box (e ∷ es) names = scan_entries box es (add_names (entry_names box e) names)

unfoldable pub scan_existing_error_var_names : Toolbox → List String
unfolding scan_entries
scan_existing_error_var_names box = elim box.read_dir [
  | none ↦ []
  | some es ↦ scan_entries box es []
]

unfoldable pub artifact_names : Toolbox → List FileArtifact → List String → List String
unfolding add_names
artifact_names box [] names = names
artifact_names box (a ∷ more) names = artifact_names box more (
    if is_error_file box (box.base a.path)
    then add_names (box.var_names a.content) names
    else names)

-- The names of the services of the package that are done and whose files can be listed.
unfoldable pub generated_names :
    Toolbox → Store → ℕ → List ServiceRecord → List ServiceSpec → List String → List String
unfolding artifact_names is_done
generated_names box s migration_id final [] names = names
generated_names box s migration_id final (spec ∷ specs) names =
    generated_names box s migration_id final specs (
      if is_done spec.name final && not (box.list_fault spec.name)
      then artifact_names box (list_files migration_id spec.name s.files) names
      else names)

abbrev pub error_aggregator_service : String
error_aggregator_service = "__pipeline__"

abbrev pub error_aggregator_path : String
error_aggregator_path = "pkg/gateway/common/error/message_error.go"

abbrev pub aggregator_effects : Toolbox → ℕ → List String → List Effect
aggregator_effects box migration_id [] = []
aggregator_effects box migration_id (n ∷ ns) =
    put_files box.aggregator_outcome migration_id error_aggregator_service (
      record {
        path = error_aggregator_path;
        content = build_message_error_go (box.sort_strings (n ∷ ns));
      }
      ∷ [])
    ∷ []

unfoldable pub assemble_error_aggregator :
    Toolbox → ℕ → GenerationPackage → List ServiceRecord → Store → List Effect
unfolding generated_names scan_existing_error_var_names
assemble_error_aggregator box migration_id pkg final s =
    aggregator_effects box migration_id
      (generated_names box s migration_id final pkg.services (scan_existing_error_var_names box))

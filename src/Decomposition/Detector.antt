-- ===== src/Decomposition/Detector.antt =====
-- core/worker/decomposition/infrastructure/adapters/deterministic_infra_detector.go: which modules are tests,
-- which belong to the domain and which are infrastructure. The order in which a map is walked is that of the
-- first mention.
use milton_prism.Decomposition.Domain.{Edge, Classification, is_in}
use milton_prism.Decomposition.Characterize.{has_suffix, has_code, last_segment}
use Prim.Native.Char.{code}
use milton_prism.Prelude.{
  ℕ, ◌-◌, ◌/◌, String, Bool, true, false, not, ◌&&◌, ◌||◌, Option, none, some, List, [], ◌∷◌, ◌==◌,
  if◌then◌else◌, ltb, any, concat, str_eq, starts_with, length,
}

abbrev pub add_module : String → List String → List String
add_module m ms = if is_in m ms then ms else m ∷ ms

-- AllModules (domain/domain.go)
unfoldable pub all_modules : List Edge → List String
all_modules [] = []
all_modules (e ∷ es) = add_module e.from_module (add_module e.to_module (all_modules es))

abbrev pub domain_indicator_suffixes : List String
domain_indicator_suffixes =
    "models" ∷ "views" ∷ "serializers" ∷ "resources" ∷ "api" ∷ "handlers" ∷ "routes" ∷ "schema"
    ∷ "schemas" ∷ "entities" ∷ "repository" ∷ "repositories" ∷ []

-- A backslash (92) where there is one, or else a dot (46).
abbrev pub separator_of : String → ℕ
separator_of m = if has_code 92 m then 92 else 46

-- What stands before the separator that comes after `k` others, if there is one.
unfoldable pub before_separator : ℕ → ℕ → String → String → Option String
before_separator separator k current String.[] = none
before_separator separator k current (String.◌∷◌ c s) =
    let rest =
      before_separator separator (if code c == separator then k - 1 else k)
        (concat current (String.◌∷◌ c "")) s in
    if (code c == separator) && (k == 0) then some current else rest

abbrev pub or_whole : String → Option String → String
or_whole m none = m
or_whole m (some s) = s

unfoldable pub group_of : String → String
unfolding before_separator
group_of m = or_whole m (before_separator (separator_of m) 1 "" m)

-- `strings.Split` at a one-character separator.
unfoldable pub split_at : ℕ → String → String → List String
split_at separator current String.[] = current ∷ []
split_at separator current (String.◌∷◌ c s) =
    let rest =
      split_at separator (if code c == separator then "" else concat current (String.◌∷◌ c "")) s in
    if code c == separator then current ∷ rest else rest

abbrev pub is_test_part : String → Bool
is_test_part part =
    (str_eq part "tests" || (str_eq part "test" || str_eq part "spec"))
    || (starts_with part "test_" || has_suffix part "_test")

unfoldable pub is_test_module : String → Bool
unfolding split_at
is_test_module m = any is_test_part (split_at (separator_of m) "" m)

abbrev pub has_indicator : String → Bool
has_indicator m = is_in (last_segment 46 "" m) domain_indicator_suffixes

unfoldable pub blueprint_groups : List String → List String
unfolding group_of
blueprint_groups [] = []
blueprint_groups (m ∷ ms) =
    let rest = blueprint_groups ms in if has_indicator m then group_of m ∷ rest else rest

unfoldable pub select : (String → Bool) → List String → List String
select p [] = []
select p (m ∷ ms) = let rest = select p ms in if p m then m ∷ rest else rest

-- The modules that import a module, each once.
unfoldable pub importers : String → List Edge → List String
importers m [] = []
importers m (e ∷ es) =
    let rest = importers m es in
    if str_eq e.to_module m then add_module e.from_module rest else rest

-- A quarter of the modules, and at least 2.
unfoldable pub hub_threshold : ℕ → ℕ
hub_threshold n = if ltb (n / 4) 2 then 2 else n / 4

unfoldable pub classify_by_fan_in : List Edge → List String → Classification
unfolding select is_test_module importers hub_threshold
classify_by_fan_in edges all =
    let non_test = select (λ m. not (is_test_module m)) all in
    record {
      infra =
          select (λ m. ltb (hub_threshold (length non_test)) (length (importers m edges))) non_test;
      domain =
          select (λ m. not (ltb (hub_threshold (length non_test)) (length (importers m edges))))
            non_test;
      tests = select is_test_module all;
      structural_fallback = true;
    }

unfoldable pub classify_by_group : List String → List String → Classification
unfolding select is_test_module group_of
classify_by_group groups all = record {
  infra = select (λ m. not (is_test_module m) && not (is_in (group_of m) groups)) all;
  domain = select (λ m. not (is_test_module m) && is_in (group_of m) groups) all;
  tests = select is_test_module all;
  structural_fallback = false;
}

abbrev pub by_groups : List Edge → List String → List String → Classification
by_groups edges [] all = classify_by_fan_in edges all
by_groups edges (g ∷ gs) all = classify_by_group (g ∷ gs) all

-- Detect
unfoldable pub detect : List Edge → Classification
unfolding all_modules blueprint_groups classify_by_fan_in classify_by_group
detect edges = by_groups edges (blueprint_groups (all_modules edges)) (all_modules edges)

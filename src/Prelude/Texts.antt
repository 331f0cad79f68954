-- ===== src/Prelude/Texts.antt =====
-- Texts are the native strings: tests and joining.
use Prim.Native.String.{String, ◌++◌}
use mathlib.Core.List.{List, [], ◌∷◌}
use mathlib.Core.Bool.{Bool}
pub use text.Mathlib.Text.{◌==◌ as str_eq, find?, starts_with}
pub use text.Mathlib.TextEquality.{eq_iff}

-- Concatenation of texts, under a name that leaves `++` to the lists.
abbrev pub concat : String → String → String
concat s t = s ++ t

-- `s == ""`
abbrev pub is_empty : String → Bool
is_empty s = str_eq s ""

-- `strings.Join(xs, sep)`
abbrev pub join : List String → String → String
join [] sep = ""
join (x ∷ []) sep = x
join (x ∷ y ∷ xs) sep = x ++ (sep ++ join (y ∷ xs) sep)

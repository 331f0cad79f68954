-- ===== src/Worker/Prefixes.antt =====
-- core/worker/decomposition/infrastructure/adapters/deterministic_prefix_allocator.go: error prefixes
-- for service names. `fmt` and `strings.ToUpper` are parameters. The mutex makes each call one step.
use Prim.Native.String.{len, slice}
use milton_prism.Prelude.{
  ℕ, zero, suc, ◌+◌, String, Option, none, some, List, [], ◌∷◌, if◌then◌else◌, str_eq, concat, ltb,
}

pub record Format : Type 0 where
  pub to_upper : String → String
  pub decimal : ℕ → String

-- An entry of the map `assigned`.
pub record Claim : Type 0 where
  pub prefix : String
  pub owner : String

abbrev pub Assigned : Type 0
Assigned = List Claim

unfoldable pub owner_of : Assigned → String → Option String
owner_of [] k = none
owner_of (c ∷ cs) k = if str_eq c.prefix k then some c.owner else owner_of cs k

-- `for len(upper) < 3 { upper += "X" }`, which runs three times at most.
unfoldable pub pad : ℕ → String → String
pad zero s = s
pad (suc k) s = let longer = pad k (concat s "X") in if ltb (len s) 3 then longer else s

unfoldable pub base_of : Format → String → String
unfolding pad
base_of f name = slice (pad 3 (f.to_upper name)) 0 3

abbrev pub numbered : Format → String → ℕ → String
numbered f base i = concat (slice base 0 2) (f.decimal i)

-- The loop from `i` on, with `left` candidates after this one.
unfoldable pub try_from :
    Format → String → String → Assigned → (left i : ℕ) → String → Option (String × Assigned)
unfolding owner_of
try_from f name base t zero i candidate = elim (owner_of t candidate) [
  | none ↦ some (candidate, record { prefix = candidate; owner = name } ∷ t)
  | some o ↦ if str_eq o name then some (candidate, t) else none
]
try_from f name base t (suc left) i candidate =
    let later = try_from f name base t left (i + 1) (numbered f base i) in
    elim (owner_of t candidate) [
      | none ↦ some (candidate, record { prefix = candidate; owner = name } ∷ t)
      | some o ↦ if str_eq o name then some (candidate, t) else later
    ]

-- Allocate: the base, then the base with 2 to 99.
unfoldable pub allocate : Format → String → Assigned → Option (String × Assigned)
unfolding try_from base_of
allocate f name t = try_from f name (base_of f name) t 98 2 (base_of f name)

-- The map after one more call.
unfoldable pub after : Option (String × Assigned) → Assigned → Assigned
after none t = t
after (some (c, t')) t = t'

unfoldable pub allocate_all : Format → List String → Assigned → Assigned
unfolding after allocate
allocate_all f [] t = t
allocate_all f (n ∷ ns) t = allocate_all f ns (after (allocate f n t) t)

-- ===== src/Score/Cycles.antt =====
-- core/worker/decomposition/application/cycles.go: the search for the strongly connected components of
-- the digest's graph. The maps are functions, the stack is a list with its top first, and the recursion
-- of `sc` is on fuel, which is the number of nodes: each call below another one visits a further node.
use milton_prism.Prelude.{
  ℕ, zero, suc, ◌+◌, String, Bool, true, false, not, ◌&&◌, Option, none, some, List, [], ◌∷◌, ◌++◌,
  ◌==◌, ltb, length, if◌then◌else◌, str_eq, sort_strings, any,
}
use milton_prism.Score.Digest.{Edge}

-- An edge that is not a self-loop.
unfoldable pub is_proper : Edge → Bool
is_proper e = not (str_eq e.from e.to)

-- `adj[v]`
unfoldable pub targets : String → List Edge → List String
unfolding is_proper
targets v [] = []
targets v (e ∷ es) =
    let rest = targets v es in if is_proper e && str_eq e.from v then e.to ∷ rest else rest

unfoldable pub add_node : String → List String → List String
add_node n ns = if any (λ (m : String). str_eq m n) ns then ns else n ∷ ns

-- The keys of `allNodes`.
unfoldable pub all_nodes : List Edge → List String
unfolding is_proper add_node
all_nodes [] = []
all_nodes (e ∷ es) =
    let rest = all_nodes es in if is_proper e then add_node e.from (add_node e.to rest) else rest

unfoldable pub node_list : List Edge → List String
unfolding all_nodes
node_list edges = sort_strings (all_nodes edges)

-- `starved`: a call found no fuel left.
pub record Search : Type 0 where
  pub index : String → Option ℕ
  pub lowlink : String → ℕ
  pub on_stack : String → Bool
  pub stk : List String
  pub counter : ℕ
  pub sccs : List (List String)
  pub starved : Bool

-- `m[k] = a`
unfoldable pub set_key : {A : Type 0} → (String → A) → String → A → String → A
set_key m k a x = if str_eq k x then a else m x

-- A missing key reads as 0.
abbrev pub or_zero : Option ℕ → ℕ
or_zero none = 0
or_zero (some n) = n

unfoldable pub enter : String → Search → Search
unfolding set_key
enter v s = record s {
  index = set_key s.index v (some s.counter);
  lowlink = set_key s.lowlink v s.counter;
  counter = s.counter + 1;
  stk = v ∷ s.stk;
  on_stack = set_key s.on_stack v true;
}

-- `if n < lowlink[v] { lowlink[v] = n }`
unfoldable pub lower : String → ℕ → Search → Search
unfolding set_key
lower v n s = if ltb n (s.lowlink v) then record s { lowlink = set_key s.lowlink v n } else s

-- One neighbour of `v`; `call` is `sc`.
unfoldable pub visit_one : (String → Search → Search) → String → String → Search → Search
unfolding lower
visit_one call v w s = elim (s.index w) [
  | none ↦ lower v ((call w s).lowlink w) (call w s)
  | some i ↦ if s.on_stack w then lower v i s else s
]

unfoldable pub visit : (String → Search → Search) → String → List String → Search → Search
unfolding visit_one
visit call v [] s = s
visit call v (w ∷ ws) s = visit call v ws (visit_one call v w s)

-- What is popped down to `v`, in the order of the pops, and the stack below. `v` is on the stack.
unfoldable pub popped : String → List String → List String
popped v [] = []
popped v (w ∷ ws) = let rest = popped v ws in if str_eq w v then w ∷ [] else w ∷ rest

unfoldable pub below : String → List String → List String
below v [] = []
below v (w ∷ ws) = let rest = below v ws in if str_eq w v then ws else rest

unfoldable pub clear_all : List String → (String → Bool) → String → Bool
unfolding set_key
clear_all [] m = m
clear_all (w ∷ ws) m = clear_all ws (set_key m w false)

abbrev pub add_component : List String → List (List String) → List (List String)
add_component (a ∷ b ∷ more) sccs = sccs ++ (sort_strings (a ∷ b ∷ more) ∷ [])
add_component _ sccs = sccs

unfoldable pub close : String → Search → Search
unfolding popped below clear_all
close v s =
    if s.lowlink v == or_zero (s.index v)
    then record s {
      stk = below v s.stk;
      on_stack = clear_all (popped v s.stk) s.on_stack;
      sccs = add_component (popped v s.stk) s.sccs;
    }
    else s

unfoldable pub sc : ℕ → List Edge → String → Search → Search
unfolding enter visit close targets
sc zero edges v s = record s { starved = true }
sc (suc k) edges v s = close v (visit (sc k edges) v (targets v edges) (enter v s))

-- The loop over the nodes.
unfoldable pub visit_roots : (String → Search → Search) → List String → Search → Search
visit_roots call [] s = s
visit_roots call (n ∷ ns) s =
    visit_roots call ns (elim (s.index n) [ none ↦ call n s | some _ ↦ s ])

abbrev pub start : Search
start = record {
  index = λ v. none;
  lowlink = λ v. 0;
  on_stack = λ v. false;
  stk = [];
  counter = 0;
  sccs = [];
  starved = false;
}

unfoldable pub search_from : List String → List Edge → Search
unfolding sc visit_roots
search_from nodes edges = visit_roots (sc (length nodes) edges) nodes start

unfoldable pub components : List Edge → List (List String)
unfolding search_from node_list
components edges = (search_from (node_list edges) edges).sccs

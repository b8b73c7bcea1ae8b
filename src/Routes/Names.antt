-- ===== src/Routes/Names.antt =====
-- `RouteTable` of prayer-state/src/graph.rs over the systems' names: `build` and the queries on hops.
-- The sorted vector without duplicates is built by insertion; the map `index` is the place in it.
use prayer_rs.Prelude.{
  ℕ, zero, suc, String, Bool, true, false, Option, none, some, List, [], ◌∷◌, ◌++◌, if◌then◌else◌,
  nat_eq, ltb, leb, ◌==◌, any, length,
}
use Prim.Native.Char.{code}
use prayer_rs.Prelude.Assoc.{Assoc, lookup, string_Eq}
use prayer_rs.Routes.Vectors.{get_or}
use prayer_rs.Routes.Table.{unreachable, Adjacency, Row, dist_of, hop_of, search_from}

abbrev pub Connections : Type 0
Connections = Assoc String (List String)

-- `<` of two texts, by their characters.
unfoldable pub string_lt : String → String → Bool
string_lt s String.[] = false
string_lt String.[] (String.◌∷◌ d t) = true
string_lt (String.◌∷◌ c s) (String.◌∷◌ d t) =
    let rest = string_lt s t in
    if ltb (code c) (code d) then true else if nat_eq (code c) (code d) then rest else false

-- `sort_unstable` and `dedup`
unfoldable pub insert_node : String → List String → List String
unfolding string_lt
insert_node x [] = x ∷ []
insert_node x (y ∷ ys) =
    let rest = insert_node x ys in
    if x == y then y ∷ ys else if string_lt x y then x ∷ y ∷ ys else y ∷ rest

unfoldable pub sorted_nodes : List String → List String
unfolding insert_node
sorted_nodes [] = []
sorted_nodes (x ∷ xs) = insert_node x (sorted_nodes xs)

unfoldable pub insert_target : ℕ → List ℕ → List ℕ
insert_target x [] = x ∷ []
insert_target x (y ∷ ys) =
    let rest = insert_target x ys in
    if nat_eq x y then y ∷ ys else if ltb x y then x ∷ y ∷ ys else y ∷ rest

-- The keys and all their neighbors.
abbrev pub all_names : Connections → List String
all_names [] = []
all_names ((system, neighbors) ∷ rest) = system ∷ neighbors ++ all_names rest

abbrev pub shifted : Option ℕ → Option ℕ
shifted none = none
shifted (some i) = some (suc i)

-- `index.get(name)`
unfoldable pub index_of : String → List String → Option ℕ
index_of name [] = none
index_of name (node ∷ nodes) =
    let rest = index_of name nodes in if name == node then some 0 else shifted rest

unfoldable pub with_target : Option ℕ → List ℕ → List ℕ
unfolding insert_target
with_target none targets = targets
with_target (some i) targets = insert_target i targets

-- The targets of a system, from its neighbors.
unfoldable pub targets_of : List String → List String → List ℕ
unfolding index_of with_target
targets_of nodes [] = []
targets_of nodes (neighbor ∷ rest) = with_target (index_of neighbor nodes) (targets_of nodes rest)

abbrev pub neighbors_of : Connections → String → List String
neighbors_of connections system = elim (lookup system connections) [
  | none ↦ []
  | some names ↦ names
]

unfoldable pub adjacency_of : Connections → List String → List String → Adjacency
unfolding targets_of
adjacency_of connections nodes [] = []
adjacency_of connections nodes (system ∷ systems) =
    targets_of nodes (neighbors_of connections system) ∷ adjacency_of connections nodes systems

pub record RouteTable : Type 0 where
  pub nodes : List String
  pub rows : List Row

abbrev pub no_row : Row
no_row = record { dist = []; naked_first_hop = []; queue = [] }

abbrev pub row_of : RouteTable → ℕ → Row
row_of table source = get_or table.rows source no_row

-- The loop over the sources, from one on.
unfoldable pub rows_from : Adjacency → ℕ → ℕ → Option (List Row)
unfolding search_from
rows_from adjacency source zero = some []
rows_from adjacency source (suc more) = elim (search_from adjacency source) [
  | none ↦ none
  | some row ↦ elim (rows_from adjacency (suc source) more) [
    | none ↦ none
    | some rows ↦ some (row ∷ rows)
  ]
]

unfoldable pub build : Connections → Option RouteTable
unfolding sorted_nodes adjacency_of rows_from
build connections =
    let nodes = sorted_nodes (all_names connections) in
    elim (rows_from (adjacency_of connections nodes nodes) 0 (length nodes)) [
      | none ↦ none
      | some rows ↦ some (record { nodes = nodes; rows = rows })
    ]

-- `pair`
unfoldable pub pair : RouteTable → String → String → Option (ℕ × ℕ)
unfolding index_of
pair table start target = elim (index_of start table.nodes) [
  | none ↦ none
  | some s ↦ elim (index_of target table.nodes) [ none ↦ none | some t ↦ some (s, t) ]
]

unfoldable pub hop_distance : RouteTable → String → String → Option ℕ
unfolding pair
hop_distance table start target =
    if start == target then some 0 else elim (pair table start target) [
      | none ↦ none
      | some (s, t) ↦
          if nat_eq (dist_of (row_of table s) t) unreachable
          then none
          else some (dist_of (row_of table s) t)
    ]

-- The loop of `path_hops_with_table`; `none` where the fuel does not reach.
unfoldable pub path_from : RouteTable → ℕ → ℕ → ℕ → Option (List String)
path_from table target zero current = if nat_eq current target then some [] else none
path_from table target (suc fuel) current =
    let hop = hop_of (row_of table current) target in
    let rest = path_from table target fuel hop in
    if nat_eq current target
    then some []
    else elim rest [ none ↦ none | some path ↦ some (get_or table.nodes hop "" ∷ path) ]

-- The outer `none` says that the loop has not ended.
unfoldable pub naked_path_hops : RouteTable → String → String → Option (Option (List String))
unfolding pair path_from
naked_path_hops table start target =
    if start == target then some (some []) else elim (pair table start target) [
      | none ↦ some none
      | some (s, t) ↦
          if nat_eq (dist_of (row_of table s) t) unreachable
          then some none
          else elim (path_from table t (length table.nodes) s) [
            | none ↦ none
            | some path ↦ some (some path)
          ]
    ]

abbrev pub at_most : ℕ → Option ℕ → Bool
at_most max_hops none = false
at_most max_hops (some distance) = leb distance max_hops

abbrev pub filter : (String → Bool) → List String → List String
filter p [] = []
filter p (x ∷ xs) = let rest = filter p xs in if p x then x ∷ rest else rest

unfoldable pub systems_within_hops : Connections → List String → ℕ → Option (List String)
unfolding build hop_distance
systems_within_hops connections [] max_hops = some []
systems_within_hops connections (origin ∷ origins) max_hops = elim (build connections) [
  | none ↦ none
  | some naked ↦ some (
      filter
        (λ system. any (λ o. at_most max_hops (hop_distance naked o system)) (origin ∷ origins))
        naked.nodes)
]

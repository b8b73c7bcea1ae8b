-- ===== src/Routes/Tests.antt =====
-- Runs of the route table on the line of systems in the tests of prayer-state/src/graph.rs.
use prayer_rs.Prelude.{
  ℕ, zero, suc, ◌<◌, ◌≤◌, ◌≡◌, ◌↔◌, refl, String, Option, none, some, List, [], ◌∷◌, length, arith,
}
use mathlib.Core.List.{Memᴰ}
use mathlib.Core.List.Memᴰ
use prayer_rs.Prelude.Assoc.{lookup, string_Eq}
use prayer_rs.Routes.Table.{Adjacency, Row, unreachable, search_from}
use prayer_rs.Routes.Walk.{IsGraph, Edge}
use prayer_rs.Routes.Shortest.{IsShortest, search_from-IsShortest}
use prayer_rs.Routes.Names.{
  Connections, RouteTable, build, hop_distance, naked_path_hops, systems_within_hops, sorted_nodes,
}
use prayer_rs.Routes.Links.{Route, nodes_of}
use prayer_rs.Routes.Queries.{hop_distance-Route}
use prayer_rs.Routes.Paths.{IsPath, naked_path_hops-IsPath}
use prayer_rs.Routes.Within.{IsNear, systems_within_hops-IsNear}

abbrev line_graph : Connections
line_graph = ("sol", "alpha" ∷ []) ∷ ("alpha", "sol" ∷ "beta" ∷ []) ∷ ("beta", "alpha" ∷ []) ∷ []

abbrev distance_in : Option RouteTable → Option ℕ
unfolding hop_distance
distance_in none = none
distance_in (some table) = hop_distance table "sol" "beta"

abbrev path_in : Option RouteTable → Option (Option (List String))
unfolding naked_path_hops
path_in none = none
path_in (some table) = naked_path_hops table "sol" "beta"

line_runs :
    (distance_in (build line_graph) ≡ some 2)
    × (path_in (build line_graph) ≡ some (some ("alpha" ∷ "beta" ∷ [])))
unfolding build distance_in path_in lookup
line_runs = (refl, refl)

small : length (nodes_of line_graph) < unreachable
unfolding sorted_nodes
small = omega arith

hop_distance-Route_example :
    (table : RouteTable) × (build line_graph ≡ some table)
    × ((d : ℕ) → hop_distance table "sol" "beta" ≡ some d → Route line_graph "sol" d "beta")
    × ((k : ℕ)
        → Route line_graph "sol" k "beta"
        → (d : ℕ) × (hop_distance table "sol" "beta" ≡ some d) × (d ≤ k))
hop_distance-Route_example = hop_distance-Route line_graph "sol" "beta" small

naked_path_hops-IsPath_example :
    (table : RouteTable) × (build line_graph ≡ some table)
    × ((d : ℕ)
        → hop_distance table "sol" "beta" ≡ some d
        → (path : List String) × (naked_path_hops table "sol" "beta" ≡ some (some path))
          × IsPath line_graph "sol" path "beta"
          × (length path ≡ d))
    × (hop_distance table "sol" "beta" ≡ none → naked_path_hops table "sol" "beta" ≡ some none)
naked_path_hops-IsPath_example = naked_path_hops-IsPath line_graph "sol" "beta" small

systems_within_hops-IsNear_example :
    (found : List String) × (systems_within_hops line_graph ("sol" ∷ []) 1 ≡ some found)
    × ((system : String)
        → Memᴰ system found
          ↔ (Memᴰ system (nodes_of line_graph) × IsNear line_graph ("sol" ∷ []) 1 system))
systems_within_hops-IsNear_example = systems_within_hops-IsNear line_graph "sol" [] 1 small

-- Two nodes with jumps both ways.
abbrev two_nodes : Adjacency
two_nodes = (1 ∷ []) ∷ (0 ∷ []) ∷ []

two_nodes-in_range : (a b : ℕ) → Edge two_nodes a b → b < length two_nodes
two_nodes-in_range zero b e = omega (arith, Memᴰ.eq_of_singleton e)
two_nodes-in_range (suc zero) b e = omega (arith, Memᴰ.eq_of_singleton e)
two_nodes-in_range (suc (suc a)) b e = absurd (Memᴰ.not-nil e)

two_nodes-IsGraph : IsGraph two_nodes
two_nodes-IsGraph = record { small = omega arith; nodes = two_nodes-in_range }

search_from-IsShortest_example :
    (row : Row) × (search_from two_nodes 0 ≡ some row) × IsShortest two_nodes 0 row
search_from-IsShortest_example = search_from-IsShortest two_nodes 0 two_nodes-IsGraph (omega arith)

-- ===== src/Routes/Built.antt =====
-- `RouteTable::build` of prayer-state/src/graph.rs gives a table whose rows are those of shortest walks.
use prayer_rs.Prelude.{ℕ, zero, suc, ◌+◌, ◌<◌, ◌≤◌, ◌≡◌, refl, some, List, [], ◌∷◌, length, arith}
use mathlib.Core.Path.{subst}
use prayer_rs.Routes.Vectors.{get_or}
use prayer_rs.Routes.Table.{unreachable, Adjacency, Row}
use prayer_rs.Routes.Walk.{IsGraph}
use prayer_rs.Routes.Shortest.{IsShortest, search_from-IsShortest}
use prayer_rs.Routes.Names.{Connections, RouteTable, no_row, row_of, rows_from, build}
use prayer_rs.Routes.Links.{nodes_of, graph_of, graph_of-IsGraph}
use prayer_rs.Routes.Places.{length-adjacency_of}

rows_from_ends :
    (adjacency : Adjacency) (source count : ℕ)
    → IsGraph adjacency
    → source + count ≤ length adjacency
    → (rows : List Row) × (rows_from adjacency source count ≡ some rows)
      × ((i : ℕ) → i < count → IsShortest adjacency (source + i) (get_or rows i no_row))
unfolding rows_from
rows_from_ends adjacency source zero graph h = ([], refl, λ i k. absurd (omega arith))
rows_from_ends adjacency source (suc count) graph h =
    let (row, found, shortest) = search_from-IsShortest adjacency source graph (omega arith) in
    let (rows, rest, all_shortest) =
      rows_from_ends adjacency (suc source) count graph (omega arith) in
    (row ∷ rows, ground (arith, found, rest), at_row row rows shortest all_shortest)
  where
    at_row :
        (row : Row) (rows : List Row)
        → IsShortest adjacency source row
        → ((i : ℕ) → i < count → IsShortest adjacency (suc source + i) (get_or rows i no_row))
        → (i : ℕ) → i < suc count
        → IsShortest adjacency (source + i) (get_or (row ∷ rows) i no_row)
    at_row row rows first others zero k =
        subst (λ x. IsShortest adjacency x row) (omega arith) first
    at_row row rows first others (suc i) k =
        subst (λ x. IsShortest adjacency x (get_or rows i no_row)) (omega arith)
          (others i (omega arith))

-- A table of all systems, each row of which holds the shortest walks from its system.
pub record IsBuilt (connections : Connections) (table : RouteTable) : Type 0 where
  pub nodes : table.nodes ≡ nodes_of connections
  pub rows :
      (i : ℕ)
      → i < length (nodes_of connections)
      → IsShortest (graph_of connections) i (row_of table i)

-- The table is built for any connections of fewer systems than the sentinel.
pub build_ends :
    (connections : Connections)
    → length (nodes_of connections) < unreachable
    → (table : RouteTable) × (build connections ≡ some table) × IsBuilt connections table
unfolding build
build_ends connections h =
    let size = length-adjacency_of connections (nodes_of connections) (nodes_of connections) in
    let (rows, found, shortest) =
      rows_from_ends (graph_of connections) 0 (length (nodes_of connections))
        (graph_of-IsGraph connections h) (omega (arith, size)) in
    (
      record { nodes = nodes_of connections; rows = rows },
      ground (arith, found),
      record {
        nodes = refl;
        rows = λ i k.
            subst (λ x. IsShortest (graph_of connections) x (get_or rows i no_row)) (omega arith)
              (shortest i k);
      },
    )

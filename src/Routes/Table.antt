-- ===== src/Routes/Table.antt =====
-- The breadth-first half of `RouteTable` in prayer-state/src/graph.rs. A row of a matrix is a list of
-- its own; the sorted nodes and their targets are given in.
use prayer_rs.Prelude.{
  ℕ, zero, suc, ◌+◌, Option, none, some, List, [], ◌∷◌, ◌++◌, if◌then◌else◌, nat_eq, length,
}
use Prim.Native.Nat.{◌%◌}
use prayer_rs.Routes.Vectors.{get_or, set, filled}

-- `UNREACHABLE`, which is `u32::MAX`.
abbrev pub unreachable : ℕ
unreachable = 4294967295

-- `d + 1` on `u32`.
abbrev pub next_u32 : ℕ → ℕ
next_u32 d = (d + 1) % 4294967296

-- The targets of each node, by its index.
abbrev pub Adjacency : Type 0
Adjacency = List (List ℕ)

abbrev pub targets : Adjacency → ℕ → List ℕ
targets adjacency node = get_or adjacency node []

-- The rows of a source in `dist` and `naked_first_hop`, and the queue.
pub record Row : Type 0 where
  pub dist : List ℕ
  pub naked_first_hop : List ℕ
  pub queue : List ℕ

abbrev pub dist_of : Row → ℕ → ℕ
dist_of row v = get_or row.dist v unreachable

abbrev pub hop_of : Row → ℕ → ℕ
hop_of row v = get_or row.naked_first_hop v unreachable

-- One round of the loop over the neighbors of `current`.
unfoldable pub visit : ℕ → ℕ → Row → ℕ → Row
visit source current row neighbor =
    if nat_eq (dist_of row neighbor) unreachable
    then record {
      dist = set row.dist neighbor (next_u32 (dist_of row current));
      naked_first_hop =
          set row.naked_first_hop neighbor
            (if nat_eq current source then neighbor else hop_of row current);
      queue = row.queue ++ neighbor ∷ [];
    }
    else row

unfoldable pub visit_all : ℕ → ℕ → Row → List ℕ → Row
unfolding visit
visit_all source current row [] = row
visit_all source current row (v ∷ vs) = visit_all source current (visit source current row v) vs

-- One round of the loop over the queue.
unfoldable pub expand : Adjacency → ℕ → Row → ℕ → List ℕ → Row
unfolding visit_all
expand adjacency source row current rest =
    visit_all source current (record row { queue = rest }) (targets adjacency current)

-- The loop over the queue; `none` where the fuel does not reach.
unfoldable pub search : Adjacency → ℕ → ℕ → Row → Option Row
unfolding expand
search adjacency source zero row = elim row.queue [ [] ↦ some row | _ ∷ _ ↦ none ]
search adjacency source (suc fuel) row = elim row.queue [
  | [] ↦ some row
  | current ∷ rest ↦ search adjacency source fuel (expand adjacency source row current rest)
]

unfoldable pub start_row : ℕ → ℕ → Row
start_row n source = record {
  dist = set (filled n unreachable) source 0;
  naked_first_hop = filled n unreachable;
  queue = source ∷ [];
}

-- The search from a source: a round for each node is enough.
unfoldable pub search_from : Adjacency → ℕ → Option Row
unfolding search start_row
search_from adjacency source =
    search adjacency source (length adjacency) (start_row (length adjacency) source)

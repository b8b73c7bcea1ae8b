-- ===== src/Routes/Paths.antt =====
-- `naked_path_hops` of prayer-state/src/graph.rs: following the first hops gives a shortest route.
use prayer_rs.Prelude.{
  ℕ, zero, suc, ◌<◌, ◌≤◌, ◌≡◌, ◌≢◌, ap, inl, inr, String, false, none, some, List, [], ◌∷◌, nat_eq,
  nat_eq_iff, ◌==◌, eq_iff, length, arith, Bool-cases,
}
use mathlib.Core.Path.{subst}
use prayer_rs.Routes.Vectors.{get_or}
use prayer_rs.Routes.Table.{unreachable, Adjacency, dist_of, hop_of}
use prayer_rs.Routes.Walk.{Edge, Walk, here, jump}
use prayer_rs.Routes.Names.{
  Connections, RouteTable, build, row_of, pair, hop_distance, path_from, naked_path_hops,
}
use prayer_rs.Routes.Links.{Link, nodes_of, graph_of, Edge-Link}
use prayer_rs.Routes.Places.{index_of-some, length-adjacency_of}
use prayer_rs.Routes.Built.{IsBuilt, build_ends}
use prayer_rs.Routes.Queries.{hop_distance-Found}

-- The systems of a path, each linked to the one before.
abbrev pub IsPath : Connections → String → List String → String → Type 0
IsPath connections a [] b = a ≡ b
IsPath connections a (x ∷ path) b = Link connections a x × IsPath connections x path b

prepend :
    (adjacency : Adjacency) (i h k t : ℕ)
    → Edge adjacency i h
    → Walk adjacency h k t
    → Walk adjacency i (suc k) t
prepend adjacency i h k t edge here = jump here edge
prepend adjacency i h k t edge (jump {k = before} {a = m} walk last) =
    jump (prepend adjacency i h before m edge walk) last

module _ (connections : Connections) (table : RouteTable) (built : IsBuilt connections table) where
  name_at : ℕ → String
  name_at i = get_or (nodes_of connections) i ""

  dist : ℕ → ℕ → ℕ
  dist i t = dist_of (row_of table i) t

  -- A path between two places that the loop finds within its fuel.
  record Chain (fuel i t : ℕ) : Type 0 where
    path : List String
    found : path_from table t fuel i ≡ some path
    linked : IsPath connections (name_at i) path (name_at t)
    count : length path ≡ dist i t

  -- The first hop of a shortest route is one jump nearer.
  record Nearer (i h t : ℕ) : Type 0 where
    inside : h < length (nodes_of connections)
    link : Link connections (name_at i) (name_at h)
    reached : dist h t < unreachable
    nearer : dist i t ≡ suc (dist h t)

  first_hop :
      (i t : ℕ)
      → i < length (nodes_of connections)
      → dist i t < unreachable
      → t ≢ i
      → Nearer i (hop_of (row_of table i) t) t
  unfolding dist name_at
  first_hop i t inside reached other =
      let row = built.rows i inside in
      let (edge, (k, e, rest)) = row.hop t reached other in
      let h = hop_of (row_of table i) t in
      let (inside_h, link) = Edge-Link connections i h edge in
      let row_h = built.rows h inside_h in
      let (reached_h, short) = row_h.least t k rest in
      let longer =
        row.least t (suc (dist h t))
          (prepend (graph_of connections) i h (dist h t) t edge (row_h.walk t reached_h)) in
      record {
        inside = inside_h;
        link = link;
        reached = reached_h;
        nearer = omega (arith, e, short, longer.1);
      }

  arrived : (fuel i t : ℕ) → i < length (nodes_of connections) → i ≡ t → Chain fuel i t
  unfolding path_from dist name_at
  arrived fuel i t inside e =
      let row = built.rows i inside in
      let start = row.least i 0 here in
      record {
        path = [];
        found = stop fuel;
        linked = ap name_at e;
        count = subst (λ x. 0 ≡ dist i x) e (omega (arith, start.1));
      }
    where
      stop : (n : ℕ) → path_from table t n i ≡ some []
      stop zero = ground (arith, e)
      stop (suc n) = ground (arith, e)

  path_from-Chain :
      (fuel i t : ℕ)
      → i < length (nodes_of connections)
      → dist i t < unreachable
      → dist i t ≤ fuel
      → Chain fuel i t
  unfolding path_from name_at dist
  path_from-Chain zero i t inside reached enough = elim (Bool-cases (nat_eq i t)) [
    | inl same ↦ arrived zero i t inside ((nat_eq_iff i t).0 same)
    | inr differs ↦
        let next = first_hop i t inside reached (ground (arith, differs)) in
        absurd (omega (arith, next.nearer))
  ]
  path_from-Chain (suc fuel) i t inside reached enough = elim (Bool-cases (nat_eq i t)) [
    | inl same ↦ arrived (suc fuel) i t inside ((nat_eq_iff i t).0 same)
    | inr differs ↦
        let h = hop_of (row_of table i) t in
        let next = first_hop i t inside reached (ground (arith, differs)) in
        let rest = path_from-Chain fuel h t next.inside next.reached (omega (arith, next.nearer)) in
        record {
          path = name_at h ∷ rest.path;
          found = step_found fuel i t differs rest.path rest.found;
          linked = (next.link, rest.linked);
          count = omega (arith, next.nearer, rest.count);
        }
  ]
    where
      step_found :
          (n a b : ℕ)
          → nat_eq a b ≡ false
          → (path : List String) → path_from table b n (hop_of (row_of table a) b) ≡ some path
          → path_from table b (suc n) a ≡ some (name_at (hop_of (row_of table a) b) ∷ path)
      step_found n a b d path f = ground (arith, d, f, built.nodes)

  hop_distance-IsPath :
      (a b : String) (d : ℕ)
      → hop_distance table a b ≡ some d
      → (path : List String) × (naked_path_hops table a b ≡ some (some path))
        × IsPath connections a path b
        × (length path ≡ d)
  unfolding hop_distance naked_path_hops pair dist name_at
  hop_distance-IsPath a b d h = elim (Bool-cases (a == b)) [
    | inl same ↦ ([], ground (arith, same), (eq_iff a b).0 same, ground (arith, same, h))
    | inr differs ↦
        let f = hop_distance-Found connections table built a b d differs h in
        let (inside, name_a) = index_of-some a (nodes_of connections) f.start f.at_start in
        let (inside_b, name_b) = index_of-some b (nodes_of connections) f.end f.at_end in
        let row = built.rows f.start inside in
        let reached : dist f.start f.end < unreachable =
          omega (arith, row.top f.end, f.dist, f.reached) in
        let size = length-adjacency_of connections (nodes_of connections) (nodes_of connections) in
        let chain =
          path_from-Chain (length (nodes_of connections)) f.start f.end inside reached
            (omega (arith, row.bound f.end reached, size)) in
        (
          chain.path,
          ground (arith, differs, f.at_start, f.at_end, reached, chain.found, built.nodes),
          subst (λ x. IsPath connections x chain.path b) name_a
              (subst (λ x. IsPath connections (name_at f.start) chain.path x) name_b chain.linked),
          omega (arith, chain.count, f.dist),
        )
  ]

  no_path : (a b : String) → hop_distance table a b ≡ none → naked_path_hops table a b ≡ some none
  unfolding hop_distance naked_path_hops
  no_path a b h = ground (arith, h)

-- In the table that `build` gives for connections of fewer systems than the sentinel, the loop over first
-- hops ends: where there is a hop distance it gives a path of linked systems from the one to the other
-- with that many hops, and where there is none it gives no path.
pub naked_path_hops-IsPath :
    (connections : Connections) (a b : String)
    → length (nodes_of connections) < unreachable
    → (table : RouteTable) × (build connections ≡ some table)
      × ((d : ℕ)
          → hop_distance table a b ≡ some d
          → (path : List String) × (naked_path_hops table a b ≡ some (some path))
            × IsPath connections a path b
            × (length path ≡ d))
      × (hop_distance table a b ≡ none → naked_path_hops table a b ≡ some none)
naked_path_hops-IsPath connections a b h =
    let (table, found, built) = build_ends connections h in
    (
      table,
      found,
      λ d e. hop_distance-IsPath connections table built a b d e,
      λ e. no_path connections table built a b e,
    )

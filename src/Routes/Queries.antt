-- ===== src/Routes/Queries.antt =====
-- The queries of prayer-state/src/graph.rs on hops, against the walks between named systems.
use prayer_rs.Prelude.{
  ℕ, ◌<◌, ◌≤◌, ◌≡◌, ◌≢◌, refl, sym, ◌⊎◌, inl, inr, String, false, none, some, if◌then◌else◌, nat_eq,
  ◌==◌, eq_iff, length, arith, Bool-cases, Option-cases,
}
use mathlib.Core.List.{Memᴰ}
use mathlib.Core.Path.{subst}
use prayer_rs.Routes.Vectors.{get_or}
use prayer_rs.Routes.Table.{unreachable, dist_of}
use prayer_rs.Routes.Shortest.{IsShortest}
use prayer_rs.Routes.Names.{
  Connections, RouteTable, build, row_of, all_names, index_of, pair, hop_distance,
}
use prayer_rs.Routes.Links.{
  Link-named, Route, stay, travel, nodes_of, graph_of, Route-Walk, Walk-Route,
}
use prayer_rs.Routes.Places.{index_of-some, index_of-mem, sorted_nodes-mem}
use prayer_rs.Routes.Built.{IsBuilt, build_ends}

-- A route that goes anywhere begins in a named system.
Route-named :
    (connections : Connections) (a b : String) (k : ℕ)
    → Route connections a k b
    → (a ≡ b) ⊎ Memᴰ a (all_names connections)
Route-named connections a b k stay = inl refl
Route-named connections a b k (travel {k = before} {a = m} route link) =
    elim (Route-named connections a m before route) [
      | inl same ↦ inr (
          subst (λ x. Memᴰ x (all_names connections)) (sym same)
            (Link-named connections m b link).0)
      | inr named ↦ inr named
    ]

module _ (connections : Connections) (table : RouteTable) (built : IsBuilt connections table) where
  -- The distance in the table of two systems that differ, by their places.
  pub hop_distance-places :
      (a b : String) (i j : ℕ)
      → (a == b) ≡ false
      → index_of a (nodes_of connections) ≡ some i
      → index_of b (nodes_of connections) ≡ some j
      → hop_distance table a b ≡ (
          if nat_eq (dist_of (row_of table i) j) unreachable
          then none
          else some (dist_of (row_of table i) j))
  unfolding hop_distance pair
  hop_distance-places a b i j differs at there = ground (arith, differs, at, there, built.nodes)

  -- Two systems that differ and have a distance have places.
  pub record Found (a b : String) (d : ℕ) : Type 0 where
    pub start : ℕ
    pub end : ℕ
    pub at_start : index_of a (nodes_of connections) ≡ some start
    pub at_end : index_of b (nodes_of connections) ≡ some end
    pub dist : dist_of (row_of table start) end ≡ d
    pub reached : d ≢ unreachable

  pub hop_distance-Found :
      (a b : String) (d : ℕ) → (a == b) ≡ false → hop_distance table a b ≡ some d → Found a b d
  unfolding hop_distance pair
  hop_distance-Found a b d differs h = elim (Option-cases (index_of a (nodes_of connections))) [
    | inl missing ↦ absurd (ground (arith, differs, h, missing, built.nodes))
    | inr (i, at) ↦ elim (Option-cases (index_of b (nodes_of connections))) [
      | inl missing ↦ absurd (ground (arith, differs, h, at, missing, built.nodes))
      | inr (j, there) ↦
          let e = hop_distance-places a b i j differs at there in
          record {
            start = i;
            end = j;
            at_start = at;
            at_end = there;
            dist = ground (arith, h, e);
            reached = ground (arith, h, e);
          }
    ]
  ]

  pub row_at :
      (a : String) (i : ℕ)
      → index_of a (nodes_of connections) ≡ some i
      → IsShortest (graph_of connections) i (row_of table i)
  row_at a i at = built.rows i (index_of-some a (nodes_of connections) i at).0

  -- The distance that the table gives is the number of jumps of a route.
  Found-Route : (a b : String) (d : ℕ) → Found a b d → Route connections a d b
  Found-Route a b d f =
      let row = row_at a f.start f.at_start in
      let walk = row.walk f.end (omega (arith, row.top f.end, f.dist, f.reached)) in
      subst (λ x. Route connections x d b)
        (index_of-some a (nodes_of connections) f.start f.at_start).1
        (subst (λ x. Route connections (get_or (nodes_of connections) f.start "") d x)
          (index_of-some b (nodes_of connections) f.end f.at_end).1
          (subst
            (λ x.
              Route connections (get_or (nodes_of connections) f.start "") x
                (get_or (nodes_of connections) f.end ""))
            f.dist (Walk-Route connections f.start _ f.end walk)))

  pub Route-hop_distance :
      (a b : String) (d : ℕ) → hop_distance table a b ≡ some d → Route connections a d b
  unfolding hop_distance
  Route-hop_distance a b d h = elim (Bool-cases (a == b)) [
    | inl same ↦
        let zero_d : 0 ≡ d = ground (arith, h, same) in
        subst (λ x. Route connections a x b) zero_d
          (subst (λ x. Route connections a 0 x) ((eq_iff a b).0 same) stay)
    | inr differs ↦ Found-Route a b d (hop_distance-Found a b d differs h)
  ]

  -- No route is shorter.
  pub no_shorter :
      (a b : String) (k : ℕ)
      → Route connections a k b
      → (d : ℕ) × (hop_distance table a b ≡ some d) × (d ≤ k)
  unfolding hop_distance
  no_shorter a b k route = elim (Bool-cases (a == b)) [
    | inl same ↦ (0, ground (arith, same), omega arith)
    | inr differs ↦ elim (Route-named connections a b k route) [
      | inl same ↦ absurd (ground (arith, eq_iff a b, same, differs))
      | inr named ↦
          let (i, at) =
            index_of-mem a (nodes_of connections)
              (sorted_nodes-mem a (all_names connections) named) in
          let (j, there, walk) = Route-Walk connections a b k i at route in
          let (reached, short) = (row_at a i at).least j k walk in
          (
            dist_of (row_of table i) j,
            ground (arith, hop_distance-places a b i j differs at there, reached),
            short,
          )
    ]
  ]

-- In the table that `build` gives for connections of fewer systems than the sentinel, a hop distance is
-- the least number of jumps: some route has that many, and whenever there is a route there is a
-- distance, which is not greater than its number of jumps.
pub hop_distance-Route :
    (connections : Connections) (a b : String)
    → length (nodes_of connections) < unreachable
    → (table : RouteTable) × (build connections ≡ some table)
      × ((d : ℕ) → hop_distance table a b ≡ some d → Route connections a d b)
      × ((k : ℕ) → Route connections a k b → (d : ℕ) × (hop_distance table a b ≡ some d) × (d ≤ k))
hop_distance-Route connections a b h =
    let (table, found, built) = build_ends connections h in
    (
      table,
      found,
      λ d e. Route-hop_distance connections table built a b d e,
      λ k route. no_shorter connections table built a b k route,
    )

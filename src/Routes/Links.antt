-- ===== src/Routes/Links.antt =====
-- Walks between named systems, against the walks between their places that prayer-state/src/graph.rs
-- searches.
use prayer_rs.Prelude.{
  ℕ, zero, suc, ◌<◌, ◌≡◌, ap, ◌∙◌, sym, inl, inr, String, some, List, [], ◌∷◌, if◌then◌else◌, ◌==◌,
  eq_iff, length, ltb, arith, Bool-cases,
}
use mathlib.Core.List.{Memᴰ}
use mathlib.Core.List.Memᴰ
use mathlib.Core.Path.{subst}
use prayer_rs.Prelude.Assoc.{lookup, string_Eq}
use prayer_rs.Routes.Vectors.{get_or}
use prayer_rs.Routes.Table.{Adjacency, unreachable}
use prayer_rs.Routes.Walk.{Edge, Walk, here, jump, IsGraph}
use prayer_rs.Routes.Places.{
  sorted_nodes-mem, index_of-some, index_of-mem, targets_of-mem, targets_of-named,
  targets-adjacency_of, length-adjacency_of, no_targets,
}
use prayer_rs.Routes.Names.{
  Connections, sorted_nodes, all_names, index_of, targets_of, neighbors_of, adjacency_of,
}

abbrev pub Link : Connections → String → String → Type 0
Link connections a b = Memᴰ b (neighbors_of connections a)

-- A walk between systems by its number of jumps.
pub data Route (connections : Connections) (start : String) : ℕ → String → Type 0 where
  stay : Route connections start zero start
  travel :
      {k : ℕ} {a b : String}
      → Route connections start k a
      → Link connections a b
      → Route connections start (suc k) b

neighbors_of-cons :
    (system : String) (neighbors : List String) (rest : Connections) (a : String)
    → neighbors_of ((system, neighbors) ∷ rest) a
      ≡ (if a == system then neighbors else neighbors_of rest a)
unfolding lookup
neighbors_of-cons system neighbors rest a = ground arith

-- A system that has a neighbor is a key, and its neighbors are named.
pub Link-named :
    (connections : Connections) (a b : String)
    → Link connections a b
    → Memᴰ a (all_names connections) × Memᴰ b (all_names connections)
unfolding lookup
Link-named [] a b m = absurd (Memᴰ.not-nil m)
Link-named ((system, neighbors) ∷ rest) a b m = elim (Bool-cases (a == system)) [
  | inl same ↦
      let listed : neighbors_of ((system, neighbors) ∷ rest) a ≡ neighbors =
        ground (arith, neighbors_of-cons system neighbors rest a, same) in
      (
        Memᴰ.head ((eq_iff a system).0 same),
        Memᴰ.tail (Memᴰ.append_left (all_names rest) (subst (Memᴰ b) listed m)),
      )
  | inr differs ↦
      let listed : neighbors_of ((system, neighbors) ∷ rest) a ≡ neighbors_of rest a =
        ground (arith, neighbors_of-cons system neighbors rest a, differs) in
      let (key, named) = Link-named rest a b (subst (Memᴰ b) listed m) in
      (Memᴰ.tail (Memᴰ.append_right neighbors key), Memᴰ.tail (Memᴰ.append_right neighbors named))
]

module _ (connections : Connections) where
  abbrev pub nodes_of : List String
  nodes_of = sorted_nodes (all_names connections)

  abbrev pub graph_of : Adjacency
  graph_of = adjacency_of connections nodes_of nodes_of

  -- A link is an edge between the places of its systems, and the other way round.
  Link-Edge :
      (a b : String) (i : ℕ)
      → index_of a nodes_of ≡ some i
      → Link connections a b
      → (j : ℕ) × (index_of b nodes_of ≡ some j) × Edge graph_of i j
  Link-Edge a b i at link =
      let (in_range, named) = index_of-some a nodes_of i at in
      let (key, neighbor) = Link-named connections a b link in
      let (j, there) =
        index_of-mem b nodes_of (sorted_nodes-mem b (all_names connections) neighbor) in
      (
        j,
        there,
        subst (Memᴰ j)
            (sym (
              targets-adjacency_of connections nodes_of nodes_of i in_range
              ∙ ap (λ x. targets_of nodes_of (neighbors_of connections x)) named))
            (targets_of-mem nodes_of (neighbors_of connections a) b j link there),
      )

  pub Edge-Link :
      (i j : ℕ)
      → Edge graph_of i j
      → (j < length nodes_of) × Link connections (get_or nodes_of i "") (get_or nodes_of j "")
  Edge-Link i j edge = elim (Bool-cases (ltb i (length nodes_of))) [
    | inl inside ↦
        let listed =
          targets-adjacency_of connections nodes_of nodes_of i (ground (arith, inside)) in
        let (b, named, there) =
          targets_of-named nodes_of (neighbors_of connections (get_or nodes_of i "")) j
            (subst (Memᴰ j) listed edge) in
        let (in_range, same) = index_of-some b nodes_of j there in
        (in_range, subst (λ x. Link connections (get_or nodes_of i "") x) (sym same) named)
    | inr outside ↦ absurd (
        Memᴰ.not-nil (
          subst (Memᴰ j) (no_targets connections nodes_of nodes_of i (ground (arith, outside)))
            edge))
  ]

  pub graph_of-IsGraph : length nodes_of < unreachable → IsGraph graph_of
  graph_of-IsGraph h = record {
    small = omega (arith, length-adjacency_of connections nodes_of nodes_of);
    nodes = λ a b edge.
        omega (arith, length-adjacency_of connections nodes_of nodes_of, Edge-Link a b edge);
  }

  pub Route-Walk :
      (a b : String) (k i : ℕ)
      → index_of a nodes_of ≡ some i
      → Route connections a k b
      → (j : ℕ) × (index_of b nodes_of ≡ some j) × Walk graph_of i k j
  Route-Walk a b k i at stay = (i, at, here)
  Route-Walk a b k i at (travel {k = before} {a = middle} route link) =
      let (m, there, walk) = Route-Walk a middle before i at route in
      let (j, then_there, edge) = Link-Edge middle b m there link in (j, then_there, jump walk edge)

  pub Walk-Route :
      (i k j : ℕ)
      → Walk graph_of i k j
      → Route connections (get_or nodes_of i "") k (get_or nodes_of j "")
  Walk-Route i k j here = stay
  Walk-Route i k j (jump {k = before} {a = m} walk edge) =
      travel (Walk-Route i before m walk) (Edge-Link m j edge).1

-- ===== src/Routes/Within.antt =====
-- `systems_within_hops` of prayer-state/src/graph.rs gives the systems that a short route leads to.
use prayer_rs.Prelude.{
  ℕ, ◌<◌, ◌≤◌, ◌≡◌, sym, ◌↔◌, inl, inr, String, Bool, true, some, List, [], ◌∷◌, any, length, arith,
  Bool-cases, Option-cases, leb, refl,
}
use mathlib.Core.List.{Memᴰ}
use mathlib.Core.List.Memᴰ
use mathlib.Core.Path.{subst}
use prayer_rs.Routes.Vectors.{Memᴰ-cons}
use prayer_rs.Routes.Table.{unreachable}
use prayer_rs.Routes.Names.{
  Connections, RouteTable, hop_distance, at_most, filter, systems_within_hops,
}
use prayer_rs.Routes.Links.{Route, nodes_of}
use prayer_rs.Routes.Built.{IsBuilt, build_ends}
use prayer_rs.Routes.Queries.{Route-hop_distance, no_shorter}

filter-mem :
    (p : String → Bool) (x : String) (xs : List String)
    → Memᴰ x (filter p xs) ↔ (Memᴰ x xs × (p x ≡ true))
filter-mem p x [] = (λ m. absurd (Memᴰ.not-nil m), λ m. absurd (Memᴰ.not-nil m.0))
filter-mem p x (y ∷ ys) = elim (Bool-cases (p y)) [
  | inl holds ↦
      ground (arith, holds, filter-mem p x ys, Memᴰ-cons x y ys, Memᴰ-cons x y (filter p ys))
  | inr fails ↦ ground (arith, fails, filter-mem p x ys, Memᴰ-cons x y ys)
]

-- A system that some origin reaches in few jumps.
pub record IsNear (connections : Connections) (origins : List String) (max_hops : ℕ)
    (system : String) : Type 0 where
  pub origin : String
  pub listed : Memᴰ origin origins
  pub hops : ℕ
  pub few : hops ≤ max_hops
  pub route : Route connections origin hops system

module _ (connections : Connections) (table : RouteTable) (built : IsBuilt connections table)
    (max_hops : ℕ) (system : String) where
  near : String → Bool
  near origin = at_most max_hops (hop_distance table origin system)

  any-IsNear :
      (origins : List String) → any near origins ≡ true → IsNear connections origins max_hops system
  unfolding near
  any-IsNear [] h = cc h
  any-IsNear (origin ∷ origins) h = elim (Option-cases (hop_distance table origin system)) [
    | inl missing ↦ tail_IsNear (any-IsNear origins (ground (arith, h, missing)))
    | inr (d, e) ↦ elim (Bool-cases (leb d max_hops)) [
      | inl few ↦ record {
        origin = origin;
        listed = Memᴰ.head refl;
        hops = d;
        few = ground (arith, few);
        route = Route-hop_distance connections table built origin system d e;
      }
      | inr far ↦ tail_IsNear (any-IsNear origins (ground (arith, h, e, far)))
    ]
  ]
    where
      tail_IsNear :
          IsNear connections origins max_hops system
          → IsNear connections (origin ∷ origins) max_hops system
      tail_IsNear near = record {
        origin = near.origin;
        listed = Memᴰ.tail near.listed;
        hops = near.hops;
        few = near.few;
        route = near.route;
      }

  IsNear-any :
      (origins : List String) (origin : String) (k : ℕ)
      → Memᴰ origin origins
      → k ≤ max_hops
      → Route connections origin k system
      → any near origins ≡ true
  unfolding near
  IsNear-any [] origin k m few route = absurd (Memᴰ.not-nil m)
  IsNear-any (first ∷ origins) origin k m few route = elim (Memᴰ.cases_cons m) [
    | inl same ↦
        let (d, e, short) =
          no_shorter connections table built first system k
            (subst (λ x. Route connections x k system) same route) in
        ground (arith, e, short, few)
    | inr later ↦ ground (arith, IsNear-any origins origin k later few route)
  ]

-- For connections of fewer systems than the sentinel and at least one origin, the systems within some
-- hops are the nodes that a route of at most that many jumps leads to from an origin.
pub systems_within_hops-IsNear :
    (connections : Connections) (first : String) (others : List String) (max_hops : ℕ)
    → length (nodes_of connections) < unreachable
    → (found : List String) × (systems_within_hops connections (first ∷ others) max_hops
        ≡ some found)
      × ((system : String)
          → Memᴰ system found ↔ (
              Memᴰ system (nodes_of connections)
              × IsNear connections (first ∷ others) max_hops system))
unfolding systems_within_hops near
systems_within_hops-IsNear connections first others max_hops h =
    let (table, e, built) = build_ends connections h in
    let origins = first ∷ others in
    let holds = λ (system : String). any (near connections table built max_hops system) origins in
    (
      filter holds table.nodes,
      ground (arith, e),
      λ system.
          let (there, back) = filter-mem holds system table.nodes in
          (
            λ m.
                let (node, is_near) = there m in
                (
                  subst (Memᴰ system) built.nodes node,
                  any-IsNear connections table built max_hops system origins is_near,
                ),
            λ m.
                let (node, n) = m in
                back (
                  subst (Memᴰ system) (sym built.nodes) node,
                  IsNear-any connections table built max_hops system origins n.origin n.hops
                      n.listed n.few n.route,
                ),
          ),
    )

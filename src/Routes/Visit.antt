-- ===== src/Routes/Visit.antt =====
-- Visiting a neighbor keeps the invariant of prayer-state/src/graph.rs.
use prayer_rs.Prelude.{
  ℕ, suc, ◌+◌, ◌<◌, ◌≤◌, ◌≡◌, ◌≢◌, refl, ap, ◌∙◌, length-append, ◌⊎◌, inl, inr, false, List, [],
  ◌∷◌, sym, ◌++◌, if◌then◌else◌, nat_eq, nat_eq_iff, length, arith, Bool-cases,
}
use mathlib.Core.List.{Memᴰ}
use mathlib.Core.Path.{subst}
use prayer_rs.Routes.Vectors.{
  length-set, get_or-set, Memᴰ-cons, Memᴰ-single, Memᴰ-concat, count_eq, count_eq-set,
}
use prayer_rs.Routes.Table.{
  unreachable, next_u32, Adjacency, Row, dist_of, hop_of, visit, visit_all,
}
use prayer_rs.Routes.Walk.{Edge, Walk, here, jump, IsGraph}
use prayer_rs.Routes.Invariant.{Inv, IsSorted, IsSorted-concat}

-- The cells that are not reached, and the nodes in the queue.
abbrev pub work : Row → ℕ
work row = count_eq unreachable row.dist + length row.queue

module _ (adjacency : Adjacency) (source : ℕ) (graph : IsGraph adjacency) where
  module _ (u v : ℕ) (vs : List ℕ) (row : Row)
      (inv : Inv adjacency source (u ∷ []) (v ∷ vs) row) where
    open inv use {
      sized, sized_hops, source_dist, top, bound, queued, level, sorted, walk, hop, closed,
    }

    -- A neighbor that was reached before.
    visit-seen : dist_of row v < unreachable → Inv adjacency source (u ∷ []) vs row
    visit-seen seen = record {
      sized = sized;
      sized_hops = sized_hops;
      source_dist = source_dist;
      top = top;
      bound = bound;
      queued = queued;
      level = level;
      sorted = sorted;
      walk = walk;
      hop = hop;
      closed = λ a b reached edge. ground (
        arith,
        closed a b reached edge,
        Memᴰ-cons b v vs,
        Memᴰ-single a u,
        level u b (Memᴰ.head refl),
      );
    }

    visit-reached : nat_eq (dist_of row v) unreachable ≡ false → row ≡ visit source u row v
    unfolding visit
    visit-reached h = ground (arith, h)

    visited : Row
    unfolding visit
    visited = visit source u row v

    module _ (unseen : dist_of row v ≡ unreachable) (edge : Edge adjacency u v) where
      is_node : v < length adjacency
      is_node = graph.nodes u v edge

      reached_u : dist_of row u < unreachable
      reached_u = queued u (Memᴰ.head refl)

      bound_u : dist_of row u + count_eq unreachable row.dist < length adjacency
      bound_u = bound u reached_u

      dist_new :
          (w : ℕ) → dist_of visited w ≡ (if nat_eq w v then suc (dist_of row u) else dist_of row w)
      unfolding visited visit
      dist_new w = ground (
        arith,
        get_or-set row.dist v w (next_u32 (dist_of row u)) unreachable,
        is_node,
        bound_u,
        unseen,
        sized,
        graph.small,
      )

      hop_new :
          (w : ℕ)
          → hop_of visited w
            ≡ (if nat_eq w v then (if nat_eq u source then v else hop_of row u) else hop_of row w)
      unfolding visited visit
      hop_new w = ground (
        arith,
        get_or-set row.naked_first_hop v w (if nat_eq u source then v else hop_of row u)
            unreachable,
        is_node,
        unseen,
        sized_hops,
      )

      queue_new : visited.queue ≡ row.queue ++ v ∷ []
      unfolding visited visit
      queue_new = ground (arith, unseen)

      count_new : suc (count_eq unreachable visited.dist) ≡ count_eq unreachable row.dist
      unfolding visited visit
      count_new = ground (
        arith,
        unseen,
        is_node,
        sized,
        bound_u,
        graph.small,
        count_eq-set unreachable row.dist v (next_u32 (dist_of row u)),
      )

      -- The distance of a node that was reached before stays.
      kept : (w : ℕ) → dist_of row w < unreachable → dist_of visited w ≡ dist_of row w
      kept w h = ground (arith, dist_new w, unseen)

      front_new : (w : ℕ) → Memᴰ w (u ∷ visited.queue) → Memᴰ w (u ∷ row.queue) ⊎ (w ≡ v)
      front_new w m = ground (
        arith,
        Memᴰ-cons w u visited.queue,
        Memᴰ-cons w u row.queue,
        queue_new,
        Memᴰ-concat w v row.queue,
      )

      least : (q : ℕ) → Memᴰ q (u ∷ row.queue) → dist_of row u ≤ dist_of row q
      least q m = ground (arith, Memᴰ-cons q u row.queue, sorted.0 q)

      IsSorted-visited : IsSorted (dist_of visited) (u ∷ visited.queue)
      IsSorted-visited =
          subst (λ queue. IsSorted (dist_of visited) (u ∷ queue)) (sym queue_new)
            (IsSorted-concat (dist_of row) (dist_of visited) (u ∷ row.queue) v sorted (λ y m. (
              kept y (queued y m),
              ground (arith, dist_new v, level u y (Memᴰ.head refl), queued y m),
            )))

      sizes :
          (length visited.dist ≡ length adjacency)
          × (length visited.naked_first_hop ≡ length adjacency)
      unfolding visited visit
      sizes = ground (
        arith,
        unseen,
        sized,
        sized_hops,
        length-set row.dist v (next_u32 (dist_of row u)),
        length-set row.naked_first_hop v (if nat_eq u source then v else hop_of row u),
      )

      walk_new :
          (w : ℕ) → dist_of visited w < unreachable → Walk adjacency source (dist_of visited w) w
      walk_new w h = elim (Bool-cases (nat_eq w v)) [
        | inl same ↦
            let e = (nat_eq_iff w v).0 same in
            subst (λ x. Walk adjacency source (dist_of visited w) x) (sym e)
              (subst (λ d. Walk adjacency source d v) (ground (arith, dist_new w))
                (jump (walk u reached_u) edge))
        | inr other ↦
            let e : dist_of row w ≡ dist_of visited w = ground (arith, dist_new w) in
            subst (λ d. Walk adjacency source d w) e (walk w (omega (arith, e)))
      ]

      hop_new_v :
          (v ≢ source)
          → Edge adjacency source (hop_of visited v)
            × ((k : ℕ) × (suc k ≡ dist_of visited v) × Walk adjacency (hop_of visited v) k v)
      hop_new_v other = elim (Bool-cases (nat_eq u source)) [
        | inl same ↦
            let e = (nat_eq_iff u source).0 same in
            let h : v ≡ hop_of visited v = ground (arith, hop_new v) in
            subst
              (λ x.
                Edge adjacency source x
                × ((k : ℕ) × (suc k ≡ dist_of visited v) × Walk adjacency x k v))
              h
              (
                subst (λ x. Edge adjacency x v) e edge,
                (0, ground (arith, dist_new v, source_dist), here),
              )
        | inr differs ↦
            let h : hop_of row u ≡ hop_of visited v = ground (arith, hop_new v) in
            let (first, (k, e, rest)) = hop u reached_u (ground (arith, differs)) in
            subst
              (λ x.
                Edge adjacency source x
                × ((k : ℕ) × (suc k ≡ dist_of visited v) × Walk adjacency x k v))
              h (first, (suc k, ground (arith, dist_new v), jump rest edge))
      ]

      hop_new_of :
          (w : ℕ)
          → dist_of visited w < unreachable
          → w ≢ source
          → Edge adjacency source (hop_of visited w)
            × ((k : ℕ) × (suc k ≡ dist_of visited w) × Walk adjacency (hop_of visited w) k w)
      hop_new_of w h other = elim (Bool-cases (nat_eq w v)) [
        | inl same ↦
            let e = (nat_eq_iff w v).0 same in
            subst
              (λ x.
                Edge adjacency source (hop_of visited x)
                × ((k : ℕ) × (suc k ≡ dist_of visited x) × Walk adjacency (hop_of visited x) k x))
              (sym e) (hop_new_v (ground (arith, e, other)))
        | inr differs ↦
            let d : dist_of row w ≡ dist_of visited w = ground (arith, dist_new w) in
            let e : hop_of row w ≡ hop_of visited w = ground (arith, hop_new w) in
            let (first, (k, count, rest)) = hop w (omega (arith, d)) other in
            (
              subst (λ x. Edge adjacency source x) e first,
              (k, omega (arith, d), subst (λ x. Walk adjacency x k w) e rest),
            )
      ]

      visit-unseen : Inv adjacency source (u ∷ []) vs visited
      visit-unseen = record {
        sized = sizes.0;
        sized_hops = sizes.1;
        source_dist = ground (arith, source_dist, kept source);
        top = λ w. ground (arith, dist_new w, top w, bound_u, graph.small);
        bound = λ w h. ground (arith, dist_new w, bound w, bound_u, count_new);
        queued = λ w m. ground (arith, front_new w m, dist_new w, queued w, bound_u, graph.small);
        level = λ q w m h. ground (
          arith,
          front_new q m,
          dist_new q,
          dist_new w,
          level q w,
          level u w (Memᴰ.head refl),
          least q,
          unseen,
        );
        sorted = IsSorted-visited;
        walk = walk_new;
        hop = hop_new_of;
        closed = λ a b h e. ground (
          arith,
          closed a b,
          dist_new a,
          dist_new b,
          queue_new,
          Memᴰ-concat a v row.queue,
          Memᴰ-single a u,
          Memᴰ-cons b v vs,
          bound_u,
          graph.small,
          unseen,
        );
      }

      work_new :
          count_eq unreachable visited.dist + length visited.queue
          ≡ count_eq unreachable row.dist + length row.queue
      work_new = omega (arith, count_new, ap length queue_new, length-append row.queue (v ∷ []))

    -- A visit keeps the invariant, and the cells to reach with the nodes in the queue.
    pub visit-Inv :
        Edge adjacency u v
        → Inv adjacency source (u ∷ []) vs (visit source u row v)
          × (work (visit source u row v) ≡ work row)
    unfolding visited
    visit-Inv edge = elim (Bool-cases (nat_eq (dist_of row v) unreachable)) [
      | inl unseen ↦
          let e = (nat_eq_iff (dist_of row v) unreachable).0 unseen in
          (visit-unseen e edge, work_new e edge)
      | inr differs ↦
          let same : row ≡ visit source u row v = visit-reached differs in
          (
            subst (Inv adjacency source (u ∷ []) vs) same
                (visit-seen (ground (arith, top v, differs))),
            ap work (sym same),
          )
    ]

  pub visit_all-Inv :
      (u : ℕ) (vs : List ℕ) (row : Row)
      → ((v : ℕ) → Memᴰ v vs → Edge adjacency u v)
      → Inv adjacency source (u ∷ []) vs row
      → Inv adjacency source (u ∷ []) [] (visit_all source u row vs)
        × (work (visit_all source u row vs) ≡ work row)
  unfolding visit_all
  visit_all-Inv u [] row edges inv = (inv, refl)
  visit_all-Inv u (v ∷ vs) row edges inv =
      let (kept, same) = visit-Inv u v vs row inv (edges v (Memᴰ.head refl)) in
      let (rest, all_same) =
        visit_all-Inv u vs (visit source u row v) (λ w m. edges w (Memᴰ.tail m)) kept in
      (rest, all_same ∙ same)

-- ===== src/Routes/Shortest.antt =====
-- The breadth-first search of prayer-state/src/graph.rs ends, and its distances are those of the
-- shortest walks.
use prayer_rs.Prelude.{
  ℕ, zero, suc, ◌<◌, ◌≤◌, ◌≡◌, ◌≢◌, refl, ap, ◌⊎◌, inl, inr, some, List, [], ◌∷◌, sym,
  if◌then◌else◌, nat_eq, length, arith,
}
use mathlib.Core.List.{Memᴰ}
use mathlib.Core.List.Memᴰ
use mathlib.Core.Path.{subst}
use prayer_rs.Routes.Vectors.{
  filled, length-set, length-filled, get_or-set, get_or-filled, Memᴰ-cons, Memᴰ-single, count_eq,
  count_eq-set, count_eq-filled,
}
use prayer_rs.Routes.Table.{
  unreachable, Adjacency, targets, Row, dist_of, hop_of, expand, search, start_row, search_from,
}
use prayer_rs.Routes.Walk.{Edge, Walk, here, jump, IsGraph}
use prayer_rs.Routes.Invariant.{Inv, IsSorted}
use prayer_rs.Routes.Visit.{work, visit_all-Inv}

List-cases : (xs : List ℕ) → (xs ≡ []) ⊎ ((x : ℕ) × (rest : List ℕ) × (xs ≡ x ∷ rest))
List-cases [] = inl refl
List-cases (x ∷ xs) = inr (x, xs, refl)

module _ (adjacency : Adjacency) (source : ℕ) (graph : IsGraph adjacency) where
  -- Taking a node from the queue.
  popped :
      (row : Row) (u : ℕ) (rest : List ℕ)
      → row.queue ≡ u ∷ rest
      → Inv adjacency source [] [] row
      → Inv adjacency source (u ∷ []) (targets adjacency u) (record row { queue = rest })
  popped row u rest e inv = record {
    sized = inv.sized;
    sized_hops = inv.sized_hops;
    source_dist = inv.source_dist;
    top = inv.top;
    bound = inv.bound;
    queued = λ v m. inv.queued v (subst (Memᴰ v) (sym e) m);
    level = λ q v m. inv.level q v (subst (Memᴰ q) (sym e) m);
    sorted = subst (IsSorted (dist_of row)) e inv.sorted;
    walk = inv.walk;
    hop = inv.hop;
    closed = λ a b h edge. elim (inv.closed a b h edge) [
      | inl waiting ↦ elim ((Memᴰ-cons a u rest).0 (subst (Memᴰ a) e waiting)) [
        | inl same ↦ inr (inl (Memᴰ.head same, subst (λ x. Edge adjacency x b) same edge))
        | inr later ↦ inl later
      ]
      | inr (inl both) ↦ absurd (Memᴰ.not-nil both.0)
      | inr (inr reached) ↦ inr (inr reached)
    ];
  }

  -- A node whose targets are all visited is done.
  done : (row : Row) (u : ℕ) → Inv adjacency source (u ∷ []) [] row → Inv adjacency source [] [] row
  done row u inv = record {
    sized = inv.sized;
    sized_hops = inv.sized_hops;
    source_dist = inv.source_dist;
    top = inv.top;
    bound = inv.bound;
    queued = λ v m. inv.queued v (Memᴰ.tail m);
    level = λ q v m. inv.level q v (Memᴰ.tail m);
    sorted = inv.sorted.1;
    walk = inv.walk;
    hop = inv.hop;
    closed = λ a b h edge. elim (inv.closed a b h edge) [
      | inl waiting ↦ inl waiting
      | inr (inl both) ↦ absurd (Memᴰ.not-nil both.1)
      | inr (inr reached) ↦ inr (inr reached)
    ];
  }

  expand-Inv :
      (row : Row) (u : ℕ) (rest : List ℕ)
      → row.queue ≡ u ∷ rest
      → Inv adjacency source [] [] row
      → Inv adjacency source [] [] (expand adjacency source row u rest)
        × (suc (work (expand adjacency source row u rest)) ≡ work row)
  unfolding expand
  expand-Inv row u rest e inv =
      let (kept, same) =
        visit_all-Inv adjacency source graph u (targets adjacency u) (record row { queue = rest })
          (λ v m. m) (popped row u rest e inv) in
      (done _ u kept, omega (arith, same, ap length e))

  module _ (in_range : source < length adjacency) where
    first : Row
    unfolding start_row
    first = start_row (length adjacency) source

    blank : List ℕ
    blank = filled (length adjacency) unreachable

    dist_first : (v : ℕ) → dist_of first v ≡ (if nat_eq v source then 0 else unreachable)
    unfolding first start_row blank
    dist_first v = ground (
      arith,
      get_or-set blank source v 0 unreachable,
      length-filled (length adjacency) unreachable,
      get_or-filled (length adjacency) v unreachable,
      in_range,
    )

    count_first : suc (count_eq unreachable first.dist) ≡ length adjacency
    unfolding first start_row blank
    count_first = ground (
      arith,
      count_eq-set unreachable blank source 0,
      count_eq-filled unreachable (length adjacency),
      length-filled (length adjacency) unreachable,
      get_or-filled (length adjacency) source unreachable,
      in_range,
    )

    only_source : (v : ℕ) → dist_of first v < unreachable → v ≡ source
    only_source v h = ground (arith, dist_first v)

    first-Inv : Inv adjacency source [] [] first
    unfolding first start_row blank
    first-Inv = record {
      sized =
          ground (arith, length-set blank source 0, length-filled (length adjacency) unreachable);
      sized_hops = length-filled (length adjacency) unreachable;
      source_dist = ground (arith, dist_first source);
      top = λ v. ground (arith, dist_first v);
      bound = λ v h. ground (arith, dist_first v, count_first);
      queued = λ v m. ground (arith, dist_first v, Memᴰ-single v source);
      level = λ q v m h. ground (arith, dist_first v);
      sorted = (λ y m. absurd (Memᴰ.not-nil m), tt);
      walk = λ v h.
          let e = only_source v h in
          subst (λ x. Walk adjacency source (dist_of first x) x) (sym e)
            (subst (λ d. Walk adjacency source d source) (ground (arith, dist_first source)) here);
      hop = λ v h other. absurd (other (only_source v h));
      closed = λ a b h edge. inl (Memᴰ.head (only_source a h));
    }

  -- The loop ends in a row that the invariant holds of, with no node waiting.
  search_ends :
      (fuel : ℕ) (row : Row)
      → Inv adjacency source [] [] row
      → work row ≤ fuel
      → (end : Row) × (search adjacency source fuel row ≡ some end)
        × Inv adjacency source [] [] end
        × (end.queue ≡ [])
  unfolding search
  search_ends zero row inv h = elim (List-cases row.queue) [
    | inl empty ↦ (row, ground (arith, empty), inv, empty)
    | inr (u, rest, e) ↦ absurd (omega (arith, ap length e))
  ]
  search_ends (suc fuel) row inv h = elim (List-cases row.queue) [
    | inl empty ↦ (row, ground (arith, empty), inv, empty)
    | inr (u, rest, e) ↦
        let (kept, less) = expand-Inv row u rest e inv in
        let (end, ends, kept', empty) =
          search_ends fuel (expand adjacency source row u rest) kept (omega arith) in
        (end, ground (arith, e, ends), kept', empty)
  ]

  -- The search ends.
  pub search_from_ends :
      source < length adjacency
      → (end : Row) × (search_from adjacency source ≡ some end)
        × Inv adjacency source [] [] end
        × (end.queue ≡ [])
  unfolding search_from first
  search_from_ends h =
      search_ends (length adjacency) (first h) (first-Inv h) (omega (arith, count_first h))

  -- A walk is as long as the distance of its end at least.
  least :
      (row : Row) (k v : ℕ)
      → Inv adjacency source [] [] row
      → row.queue ≡ []
      → Walk adjacency source k v
      → (dist_of row v < unreachable) × (dist_of row v ≤ k)
  least row k v inv empty here = ground (arith, inv.source_dist)
  least row k v inv empty (jump {k = before_k} {a} walk edge) =
      let before = least row before_k a inv empty walk in
      elim (inv.closed a v before.0 edge) [
        | inl waiting ↦ absurd (Memᴰ.not-nil (subst (Memᴰ a) empty waiting))
        | inr (inl both) ↦ absurd (Memᴰ.not-nil both.0)
        | inr (inr reached) ↦ (reached.0, omega (arith, reached, before))
      ]

-- The distances of a row are the least numbers of jumps, a node with no distance has no walk to it, and
-- the first hop to any other node is a jump from the source to where a walk of the rest begins.
pub record IsShortest (adjacency : Adjacency) (source : ℕ) (row : Row) : Type 0 where
  pub top : (v : ℕ) → dist_of row v ≤ unreachable
  pub walk : (v : ℕ) → dist_of row v < unreachable → Walk adjacency source (dist_of row v) v
  pub least :
      (v k : ℕ) → Walk adjacency source k v → (dist_of row v < unreachable) × (dist_of row v ≤ k)
  pub bound : (v : ℕ) → dist_of row v < unreachable → dist_of row v < length adjacency
  pub hop :
      (v : ℕ)
      → dist_of row v < unreachable
      → v ≢ source
      → Edge adjacency source (hop_of row v)
        × ((k : ℕ) × (suc k ≡ dist_of row v) × Walk adjacency (hop_of row v) k v)

-- The breadth-first search from a node ends within a round for each node, and then each distance is
-- the least number of jumps to its node, or the sentinel where no walk leads there, and a first hop
-- begins a shortest walk. The targets have to be nodes, and fewer than the sentinel.
pub search_from-IsShortest :
    (adjacency : Adjacency) (source : ℕ)
    → IsGraph adjacency
    → source < length adjacency
    → (row : Row) × (search_from adjacency source ≡ some row) × IsShortest adjacency source row
search_from-IsShortest adjacency source graph h =
    let (row, ends, inv, empty) = search_from_ends adjacency source graph h in
    (
      row,
      ends,
      record {
        top = inv.top;
        walk = inv.walk;
        least = λ v k walk. least adjacency source graph row k v inv empty walk;
        bound = λ v reached. omega (arith, inv.bound v reached);
        hop = inv.hop;
      },
    )

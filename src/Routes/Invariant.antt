-- ===== src/Routes/Invariant.antt =====
-- What the breadth-first search of prayer-state/src/graph.rs keeps true of a row.
use prayer_rs.Prelude.{
  ℕ, suc, ◌+◌, ◌<◌, ◌≤◌, ◌≡◌, ◌≢◌, refl, ◌⊎◌, List, [], ◌∷◌, ◌++◌, length, arith,
}
use mathlib.Core.List.{Memᴰ}
use mathlib.Core.List.Memᴰ
use prayer_rs.Routes.Vectors.{Memᴰ-cons, Memᴰ-concat, count_eq}
use prayer_rs.Routes.Table.{unreachable, Adjacency, Row, dist_of, hop_of}
use prayer_rs.Routes.Walk.{Edge, Walk}

-- Nodes in the order of their distances.
abbrev pub IsSorted : (ℕ → ℕ) → List ℕ → Type 0
IsSorted d [] = Unit
IsSorted d (x ∷ xs) = ((y : ℕ) → Memᴰ y xs → d x ≤ d y) × IsSorted d xs

pub IsSorted-concat :
    (d d' : ℕ → ℕ) (xs : List ℕ) (v : ℕ)
    → IsSorted d xs
    → ((y : ℕ) → Memᴰ y xs → (d' y ≡ d y) × (d y ≤ d' v))
    → IsSorted d' (xs ++ v ∷ [])
IsSorted-concat d d' [] v h k = (λ y m. absurd (Memᴰ.not-nil m), tt)
IsSorted-concat d d' (x ∷ xs) v h k =
    let at_x = k x (Memᴰ.head refl) in
    (
      λ y m. ground (arith, h.0 y, k y, Memᴰ-concat y v xs, Memᴰ-cons y x xs, at_x),
      IsSorted-concat d d' xs v h.1 (λ y m. k y (Memᴰ.tail m)),
    )

module _ (adjacency : Adjacency) (source : ℕ) where
  -- The node that is expanded, if any, is `front`, and `todo` are its targets that are not visited yet.
  pub record Inv (front todo : List ℕ) (row : Row) : Type 0 where
    pub sized : length row.dist ≡ length adjacency
    pub sized_hops : length row.naked_first_hop ≡ length adjacency
    pub source_dist : dist_of row source ≡ 0
    pub top : (v : ℕ) → dist_of row v ≤ unreachable
    pub bound :
        (v : ℕ)
        → dist_of row v < unreachable
        → dist_of row v + count_eq unreachable row.dist < length adjacency
    pub queued : (v : ℕ) → Memᴰ v (front ++ row.queue) → dist_of row v < unreachable
    pub level :
        (q v : ℕ)
        → Memᴰ q (front ++ row.queue)
        → dist_of row v < unreachable
        → dist_of row v ≤ dist_of row q + 1
    pub sorted : IsSorted (dist_of row) (front ++ row.queue)
    pub walk : (v : ℕ) → dist_of row v < unreachable → Walk adjacency source (dist_of row v) v
    pub hop :
        (v : ℕ)
        → dist_of row v < unreachable
        → v ≢ source
        → Edge adjacency source (hop_of row v)
          × ((k : ℕ) × (suc k ≡ dist_of row v) × Walk adjacency (hop_of row v) k v)
    pub closed :
        (a b : ℕ)
        → dist_of row a < unreachable
        → Edge adjacency a b
        → Memᴰ a row.queue
          ⊎ (Memᴰ a front × Memᴰ b todo)
          ⊎ ((dist_of row b < unreachable) × (dist_of row b ≤ dist_of row a + 1))

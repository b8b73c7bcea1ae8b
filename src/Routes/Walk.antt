-- ===== src/Routes/Walk.antt =====
-- Walks along the jumps, which prayer-state/src/graph.rs does not write down: what its distances count.
use prayer_rs.Prelude.{ℕ, zero, suc, ◌<◌, length}
use mathlib.Core.List.{Memᴰ}
use prayer_rs.Routes.Table.{Adjacency, targets, unreachable}

abbrev pub Edge : Adjacency → ℕ → ℕ → Type 0
Edge adjacency a b = Memᴰ b (targets adjacency a)

-- A walk by its number of jumps.
pub data Walk (adjacency : Adjacency) (start : ℕ) : ℕ → ℕ → Type 0 where
  here : Walk adjacency start zero start
  jump :
      {k a b : ℕ} → Walk adjacency start k a → Edge adjacency a b → Walk adjacency start (suc k) b

-- Targets are nodes, and a node's number is less than the sentinel.
pub record IsGraph (adjacency : Adjacency) : Type 0 where
  pub small : length adjacency < unreachable
  pub nodes : (a b : ℕ) → Edge adjacency a b → b < length adjacency

-- ===== src/Routes/Places.antt =====
-- The places of the names in the sorted vector of prayer-state/src/graph.rs, and the targets by them.
use prayer_rs.Prelude.{
  ℕ, zero, suc, ◌<◌, ◌≤◌, ◌≡◌, refl, ap, ◌↔◌, ◌⊎◌, inl, inr, String, Option, none, some, List, [],
  ◌∷◌, ◌==◌, eq_iff, length, arith, Bool-cases,
}
use mathlib.Core.List.{Memᴰ}
use mathlib.Core.List.Memᴰ
use mathlib.Core.Logic.{⊎_elim}
use mathlib.Core.Path.{subst}
use prayer_rs.Prelude.Assoc.{string_Eq}
use prayer_rs.Routes.Vectors.{get_or, Memᴰ-cons, Memᴰ-single}
use prayer_rs.Routes.Table.{targets}
use prayer_rs.Routes.Names.{
  Connections, insert_node, sorted_nodes, insert_target, index_of, with_target, targets_of,
  neighbors_of, adjacency_of,
}

pub insert_node-mem :
    (a x : String) (ys : List String) → (a ≡ x) ⊎ Memᴰ a ys → Memᴰ a (insert_node x ys)
unfolding insert_node
insert_node-mem a x [] h = ground (arith, h, Memᴰ-single a x, Memᴰ-cons a x [])
insert_node-mem a x (y ∷ ys) h = ground (
  arith,
  h,
  eq_iff x y,
  insert_node-mem a x ys,
  Memᴰ-cons a y ys,
  Memᴰ-cons a x (y ∷ ys),
  Memᴰ-cons a y (insert_node x ys),
)

pub sorted_nodes-mem : (a : String) (xs : List String) → Memᴰ a xs → Memᴰ a (sorted_nodes xs)
unfolding sorted_nodes
sorted_nodes-mem a [] m = m
sorted_nodes-mem a (x ∷ xs) m =
    insert_node-mem a x (sorted_nodes xs)
      (⊎_elim inl (λ later. inr (sorted_nodes-mem a xs later)) (Memᴰ.cases_cons m))

pub index_of-some :
    (name : String) (nodes : List String) (i : ℕ)
    → index_of name nodes ≡ some i
    → (i < length nodes) × (get_or nodes i "" ≡ name)
unfolding index_of
index_of-some name [] i h = cc h
index_of-some name (node ∷ nodes) zero h = ground (arith, h, eq_iff name node)
index_of-some name (node ∷ nodes) (suc i) h = ground (arith, h, index_of-some name nodes i)

pub index_of-mem :
    (name : String) (nodes : List String)
    → Memᴰ name nodes
    → (i : ℕ) × (index_of name nodes ≡ some i)
unfolding index_of
index_of-mem name [] m = absurd (Memᴰ.not-nil m)
index_of-mem name (node ∷ nodes) m = elim (Bool-cases (name == node)) [
  | inl same ↦ (0, ground (arith, same))
  | inr differs ↦
      let later : Memᴰ name nodes =
        ground (arith, Memᴰ-cons name node nodes, m, eq_iff name node, differs) in
      let (i, e) = index_of-mem name nodes later in (suc i, ground (arith, differs, e))
]

insert_target-mem : (j i : ℕ) (ts : List ℕ) → Memᴰ j (insert_target i ts) ↔ ((j ≡ i) ⊎ Memᴰ j ts)
unfolding insert_target
insert_target-mem j i [] = Memᴰ-cons j i []
insert_target-mem j i (t ∷ ts) = ground (
  arith,
  insert_target-mem j i ts,
  Memᴰ-cons j t ts,
  Memᴰ-cons j i (t ∷ ts),
  Memᴰ-cons j t (insert_target i ts),
)

with_target-mem :
    (j : ℕ) (found : Option ℕ) (ts : List ℕ)
    → Memᴰ j (with_target found ts) ↔ ((found ≡ some j) ⊎ Memᴰ j ts)
unfolding with_target insert_target
with_target-mem j none ts = (inr, ⊎_elim (λ e. cc e) (λ m. m))
with_target-mem j (some i) ts = ground (arith, insert_target-mem j i ts)

pub targets_of-mem :
    (nodes names : List String) (b : String) (j : ℕ)
    → Memᴰ b names
    → index_of b nodes ≡ some j
    → Memᴰ j (targets_of nodes names)
unfolding targets_of
targets_of-mem nodes [] b j m e = absurd (Memᴰ.not-nil m)
targets_of-mem nodes (name ∷ names) b j m e =
    let find = with_target-mem j (index_of name nodes) (targets_of nodes names) in
    ⊎_elim (λ same. find.1 (inl (subst (λ x. index_of x nodes ≡ some j) same e)))
      (λ later. find.1 (inr (targets_of-mem nodes names b j later e))) (Memᴰ.cases_cons m)

pub targets_of-named :
    (nodes names : List String) (j : ℕ)
    → Memᴰ j (targets_of nodes names)
    → (b : String) × Memᴰ b names × (index_of b nodes ≡ some j)
unfolding targets_of
targets_of-named nodes [] j m = absurd (Memᴰ.not-nil m)
targets_of-named nodes (name ∷ names) j m =
    elim ((with_target-mem j (index_of name nodes) (targets_of nodes names)).0 m) [
      | inl found ↦ (name, Memᴰ.head refl, found)
      | inr later ↦
          let (b, named, e) = targets_of-named nodes names j later in (b, Memᴰ.tail named, e)
    ]

pub length-adjacency_of :
    (connections : Connections) (nodes systems : List String)
    → length (adjacency_of connections nodes systems) ≡ length systems
unfolding adjacency_of
length-adjacency_of connections nodes [] = refl
length-adjacency_of connections nodes (system ∷ systems) =
    ap suc (length-adjacency_of connections nodes systems)

pub targets-adjacency_of :
    (connections : Connections) (nodes systems : List String) (i : ℕ)
    → i < length systems
    → targets (adjacency_of connections nodes systems) i
      ≡ targets_of nodes (neighbors_of connections (get_or systems i ""))
unfolding adjacency_of
targets-adjacency_of connections nodes [] i h = absurd (omega arith)
targets-adjacency_of connections nodes (system ∷ systems) zero h = refl
targets-adjacency_of connections nodes (system ∷ systems) (suc i) h =
    targets-adjacency_of connections nodes systems i (omega arith)

pub no_targets :
    (connections : Connections) (nodes systems : List String) (i : ℕ)
    → length systems ≤ i
    → targets (adjacency_of connections nodes systems) i ≡ []
unfolding adjacency_of
no_targets connections nodes [] i h = refl
no_targets connections nodes (system ∷ systems) zero h = absurd (omega arith)
no_targets connections nodes (system ∷ systems) (suc i) h =
    no_targets connections nodes systems i (omega arith)

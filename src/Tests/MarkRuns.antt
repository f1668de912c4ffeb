-- ===== src/Tests/MarkRuns.antt =====
-- A run of the marking of benchmarks/slmc/programs/schorr_waite.c.
use cyclist.Base.{
  ℕ, ◌≤◌, true, false, inl, inr, ◌≡◌, none, some, refl, arith, ◌==◌, Bool-cases, ==_iff,
}
use cyclist.Programs.Heap.{Heap, store}
use cyclist.Programs.SchorrWaite.{Node, schorr_waite}
use cyclist.Programs.SchorrWaite.Shapes.{Shape, leaf, fork, Tree, count}
use cyclist.Programs.SchorrWaite.Marks.{schorr_waite-Tree}

-- A node at 1 with a left child at 2.
abbrev two_nodes : Shape
two_nodes = fork 1 (fork 2 leaf leaf) leaf

abbrev two_heap : Heap Node
two_heap =
    store (store (λ a. none) 2 (some (record { m = false; c = true; l = 0; r = 0 }))) 1
      (some (record { m = false; c = false; l = 2; r = 0 }))

two_heap-Tree : Tree two_heap false two_nodes
unfolding store
two_heap-Tree = (omega arith, (false, refl), (omega arith, (true, refl), tt, tt), tt)

two_nodes_once : (x : ℕ) → count x two_nodes ≤ 1
two_nodes_once x = elim (Bool-cases (x == 1)) [
  | inl at_1 ↦ elim (Bool-cases (x == 2)) [
    | inl at_2 ↦ let e = (==_iff x 1).0 at_1 in let f = (==_iff x 2).0 at_2 in absurd (omega arith)
    | inr not_2 ↦ rw (at_1, not_2) (omega arith)
  ]
  | inr not_1 ↦ elim (Bool-cases (x == 2)) [
    | inl at_2 ↦ rw (not_1, at_2) (omega arith)
    | inr not_2 ↦ rw (not_1, not_2) (omega arith)
  ]
]

schorr_waite-Tree_example :
    (h' : Heap Node) × (schorr_waite 7 1 two_heap ≡ some h')
    × Tree h' true two_nodes
    × ((x : ℕ) → count x two_nodes ≡ 0 → h' x ≡ two_heap x)
schorr_waite-Tree_example =
    schorr_waite-Tree 7 two_heap two_nodes two_heap-Tree two_nodes_once (omega arith)

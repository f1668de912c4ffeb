-- ===== src/Tests/Shrinking.antt =====
-- Runs of the shrinking and of the cached check (src/generic/soundcheck.ml).
use cyclist.Base.{
  ℕ, false, some, [], ◌∷◌, Memᴰ, ◌≡◌, ◌≢◌, ◌↔◌, refl, sym, ap, subst, ◌==◌, ==_iff, Bool-cases, inl,
  inr, arith, lookup, contains, insert, assign,
}
use mathlib.Core.List.Memᴰ
use cyclist.Proof.{Tag}
use cyclist.Soundness.{initial_globals}
use cyclist.Soundcheck.{AbstractNode, AbstractProof, Premise, valid, for_all}
use cyclist.Soundcheck.Valid.{valid-IsClosed}
use cyclist.Soundcheck.Ready.{IsMap}
use cyclist.Minimize.Blist.{
  exists, find_from, find_index, remove_nth, replace_from, replace_nth, nth,
}
use cyclist.Minimize.Maps.{fold, iter, remove, find_map}
use cyclist.Minimize.{
  extend, compose, union_of_list, in_children, index_of_child, is_single_node, fathers,
  fathers_grandchild, fewer_premises, drop_premise, remove_dead_node, remove_dead_nodes, bypass,
  lead_past, fuse_node, is_fusible, fuse_single_nodes, minimize_abs_proof,
}
use cyclist.Minimize.Good.{IsGood}
use cyclist.Minimize.Premises.{DistinctChildren, leads_to}
use cyclist.Minimize.First.{map_first, without_first}
use cyclist.Minimize.Bindings.{map_premises}
use cyclist.Minimize.Steps.{fuse_node-eq, remove_dead_node-eq}
use cyclist.Minimize.Pairs.{mem-compose}
use cyclist.Minimize.Loops.{Ends, fuse_single_nodes-Ends, minimize_abs_proof-Ends}
use cyclist.Checker.{Checker}
use cyclist.Checker.Correct.{IsIdle}
use cyclist.Tests.Loop.{formulas}
use cyclist.Soundcheck.{is_node}
use cyclist.Soundcheck.Meaning.{IsNode}

abbrev leaf_node : AbstractNode
leaf_node = record { tags = []; subg = [] }

-- The premises of the three nodes: 0 leads to 1 with progress and to the dead node 2, 1 to 0.
abbrev to_one : Premise
to_one = record { child = 1; tag_pairs = (1, 1) ∷ []; progress = (1, 1) ∷ [] }

abbrev to_dead : Premise
to_dead = record { child = 2; tag_pairs = []; progress = [] }

abbrev back : Premise
back = record { child = 0; tag_pairs = (1, 1) ∷ []; progress = [] }

abbrev three : AbstractProof
three =
    (0, record { tags = 1 ∷ []; subg = to_one ∷ to_dead ∷ [] })
    ∷ (1, record { tags = 1 ∷ []; subg = back ∷ [] })
    ∷ (2, leaf_node)
    ∷ []

-- A node with the same leaf twice keeps one of the two premises.
abbrev twice : AbstractProof
twice = (0, record { tags = []; subg = to_dead ∷ to_dead ∷ [] }) ∷ (2, leaf_node) ∷ []

twice-minimized :
    minimize_abs_proof 3 0 twice ≡ some ((0, record { tags = []; subg = to_dead ∷ [] }) ∷ [])
unfolding minimize_abs_proof remove_dead_nodes remove_dead_node drop_premise fewer_premises
    in_children index_of_child fuse_single_nodes is_fusible is_single_node fathers_grandchild
    fathers fuse_node lead_past bypass compose extend union_of_list exists find_index find_from
    remove_nth replace_nth replace_from nth fold iter remove find_map assign insert contains
twice-minimized = refl

twice-not_valid : valid ((0, record { tags = []; subg = to_dead ∷ [] }) ∷ []) 0 ≡ false
unfolding valid for_all lookup contains
twice-not_valid = refl

absent : (p : AbstractProof) (i : ℕ) → is_node p i ≡ false → ¬ IsNode p i
unfolding lookup
absent [] i h (n, m) = Memᴰ.not-nil m
absent ((j, w) ∷ p) i h (n, m) = elim (Bool-cases (i == j)) [
  | inl same ↦ ground (arith, same)
  | inr differs ↦ elim (Memᴰ.cases_cons m) [
    | inl here ↦ cc (differs, (==_iff i j).1 (ap (λ (q : ℕ × AbstractNode). q.0) here))
    | inr later ↦ absent p i (ground (arith, differs)) (n, later)
  ]
]

three-IsMap : IsMap three
unfolding lookup
three-IsMap = (absent _ 0 refl, (absent _ 1 refl, (absent [] 2 refl, tt)))

three-DistinctChildren : (i : ℕ) (n : AbstractNode) → Memᴰ (i, n) three → DistinctChildren n.subg
three-DistinctChildren i n m = elim (Memᴰ.cases_cons m) [
  | inl e ↦ distinct n e ((λ t k. child_2 t k), ((λ t k. absurd (Memᴰ.not-nil k)), tt))
  | inr m' ↦ elim (Memᴰ.cases_cons m') [
    | inl e ↦ distinct n e ((λ t k. absurd (Memᴰ.not-nil k)), tt)
    | inr m'' ↦ distinct n (Memᴰ.eq_of_singleton m'') tt
  ]
]
  where
    distinct :
        (v : AbstractNode) {w : AbstractNode} {j : ℕ}
        → ◌≡◌ {A = ℕ × AbstractNode} (i, v) (j, w)
        → DistinctChildren w.subg
        → DistinctChildren v.subg
    distinct v e d = subst (λ (q : ℕ × AbstractNode). DistinctChildren q.1.subg) (sym e) d

    child_2 : (t : Premise) → Memᴰ t (to_dead ∷ []) → t.child ≢ 1
    child_2 t k e = let here = ap (λ (q : Premise). q.child) (Memᴰ.eq_of_singleton k) in omega arith

three-IsGood : IsGood three 0
unfolding valid for_all lookup contains
three-IsGood = record {
  is_map = three-IsMap;
  distinct = three-DistinctChildren;
  closed = valid-IsClosed three 0 refl;
}

-- A checker before any check.
abbrev pub fresh : Checker
fresh = record { globals = initial_globals; ccache = [] }

pub fresh-IsIdle : IsIdle 0 fresh
fresh-IsIdle = record { no_graph = refl; right = λ p r m. absurd (Memᴰ.not-nil m) }

minimize_abs_proof-Ends_example : Ends 0 three (minimize_abs_proof 4 0 three)
minimize_abs_proof-Ends_example =
    minimize_abs_proof-Ends 4 0 three three-IsGood (inl refl) (omega arith)

fuse_single_nodes-Ends_example : Ends 0 three (fuse_single_nodes 4 0 three)
fuse_single_nodes-Ends_example = fuse_single_nodes-Ends 4 0 three three-IsGood (omega arith)

fuse_node-eq_example :
    fuse_node 1 (record { tags = 1 ∷ []; subg = back ∷ [] }) three
    ≡ some (remove 1 (map_premises (map_first (leads_to 1) (bypass back)) three))
fuse_node-eq_example = fuse_node-eq 1 (1 ∷ []) back three three-IsMap

remove_dead_node-eq_example :
    remove_dead_node 2 three ≡ some (map_premises (without_first (leads_to 2)) (remove 2 three))
remove_dead_node-eq_example = remove_dead_node-eq 2 three three-IsMap

mem-compose_example : Memᴰ {A = Tag × Tag} (1, 3) (compose ((1, 2) ∷ []) ((2, 3) ∷ [])) ↔ (
    (m : Tag) × Memᴰ {A = Tag × Tag} (1, m) ((1, 2) ∷ [])
    × Memᴰ {A = Tag × Tag} (m, 3) ((2, 3) ∷ []))
mem-compose_example = mem-compose ((1, 2) ∷ []) ((2, 3) ∷ []) 1 3

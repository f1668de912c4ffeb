-- ===== src/Minimize.antt =====
-- The shrinking of abstract proofs before the check (src/generic/soundcheck.ml): dead nodes are
-- removed, and nodes with one premise are fused with their child. `none` is an exception.
pub mod Blist
pub mod Maps
pub mod Pairs
pub mod First
pub mod Bindings
pub mod Premises
pub mod Steps
pub mod Good
mod Dead
mod Blocks
mod Exists
mod Fuse
pub mod Loops
use cyclist.Base.{
  ℕ, zero, suc, Bool, true, false, not, ◌&&◌, Option, none, some, List, [], ◌∷◌, ◌++◌, Eq, nat_eq,
  ◌==◌, if◌then◌else◌, ◌>>=◌, assign, insert, length,
}
use cyclist.Proof.{Tag}
use cyclist.Soundcheck.{AbstractProof, AbstractNode, Premise, pair_eq}
use Blist.{exists, find_index, remove_nth, replace_nth, nth}
use Maps.{fold, iter, remove, find_map}

abbrev pub TagPairs : Type 0
TagPairs = List (Tag × Tag)

-- `IntPairSet.add`
abbrev pub add_pair : Tag × Tag → TagPairs → TagPairs
add_pair = insert ⦃e = pair_eq⦄

-- The inner fold of `compose`.
unfoldable pub extend : Tag × Tag → TagPairs → TagPairs → TagPairs
extend x t2 a = fold (λ w b. if x.1 == w.0 then add_pair (x.0, w.1) b else b) t2 a

unfoldable pub compose : TagPairs → TagPairs → TagPairs
compose t1 t2 = fold (λ x a. extend x t2 a) t1 []

-- `IntPairSet.union_of_list`
unfoldable pub union_of_list : List TagPairs → TagPairs
union_of_list ts = fold (λ t s. fold add_pair t s) ts []

abbrev pub is_leaf : AbstractNode → Bool
is_leaf n = elim n.subg [ [] ↦ true | s ∷ ss ↦ false ]

unfoldable pub in_children : ℕ → AbstractNode → Bool
in_children child n = exists (λ (s : Premise). s.child == child) n.subg

unfoldable pub index_of_child : ℕ → AbstractNode → Option ℕ
index_of_child child n = find_index (λ (s : Premise). s.child == child) n.subg

unfoldable pub is_single_node : ℕ → AbstractNode → Bool
is_single_node idx n = elim n.subg [
  | [] ↦ false
  | s ∷ ss ↦ elim ss [ [] ↦ not (s.child == idx) | _ ∷ _ ↦ false ]
]

-- `Int.Map.exists`, and the test of `fathers_grandchild` below its two exceptions.
unfoldable pub fathers : AbstractProof → ℕ → ℕ → Bool
fathers prf idx grandchild =
    exists (λ (x : ℕ × AbstractNode). in_children idx x.1 && in_children grandchild x.1) prf

unfoldable pub fathers_grandchild : AbstractProof → ℕ → AbstractNode → Option Bool
fathers_grandchild prf idx n = elim n.subg [
  | [] ↦ none
  | s ∷ ss ↦ elim ss [
    | [] ↦ if idx == s.child then none else some (fathers prf idx s.child)
    | _ ∷ _ ↦ none
  ]
]

-- The node with its premises replaced.
abbrev pub with_subg : AbstractNode → List Premise → AbstractNode
with_subg n subg = record { tags = n.tags; subg = subg }

-- The premises that are left to a parent: `index_of_child` finds the place of the one to remove.
unfoldable pub fewer_premises : ℕ → AbstractNode → Option (List Premise)
fewer_premises child n =
    let by_place = (do pos ← index_of_child child n; remove_nth pos n.subg) in
    elim n.subg [ [] ↦ by_place | s ∷ ss ↦ elim ss [ [] ↦ some [] | _ ∷ _ ↦ by_place ] ]

-- `process_node` of `remove_dead_nodes`: one parent loses its premise.
unfoldable pub drop_premise : ℕ → ℕ → AbstractNode → AbstractProof → Option AbstractProof
drop_premise child par_idx n prf = if not (in_children child n) then some prf else (do
  subg ← fewer_premises child n
  some (assign ⦃e = nat_eq⦄ par_idx (with_subg n subg) prf))

unfoldable pub remove_dead_node : ℕ → AbstractProof → Option AbstractProof
remove_dead_node idx prf = let rest = remove idx prf in iter (drop_premise idx) rest rest

-- The test for a dead node.
abbrev pub is_dead : ℕ → AbstractNode → Bool
is_dead idx n = not (idx == 0) && is_leaf n

-- The loop of `remove_dead_nodes`, on fuel.
unfoldable pub remove_dead_nodes : ℕ → AbstractProof → Option AbstractProof
remove_dead_nodes zero prf = none
remove_dead_nodes (suc fuel) prf =
    let rest = remove_dead_nodes fuel in
    elim (find_map is_dead prf) [ none ↦ some prf | some x ↦ remove_dead_node x.0 prf >>= rest ]

-- The premise of a parent, led past the fused node to its child.
unfoldable pub bypass : Premise → Premise → Premise
bypass s par = record {
  child = s.child;
  tag_pairs = compose par.tag_pairs s.tag_pairs;
  progress = union_of_list (
      compose par.progress s.progress
      ∷ compose par.tag_pairs s.progress
      ∷ compose par.progress s.tag_pairs
      ∷ []);
}

-- `process_node` of `fuse_single_nodes`: one parent has its premise led past `child`.
unfoldable pub lead_past : ℕ → Premise → ℕ → AbstractNode → AbstractProof → Option AbstractProof
lead_past child s par_idx n prf = if not (in_children child n) then some prf else (do
  pos ← index_of_child child n
  par ← nth n.subg pos
  let newsubg = replace_nth (bypass s par) pos n.subg
  some (assign ⦃e = nat_eq⦄ par_idx (with_subg n newsubg) prf))

unfoldable pub fuse_node : ℕ → AbstractNode → AbstractProof → Option AbstractProof
fuse_node idx n prf = elim n.subg [
  | [] ↦ none
  | s ∷ ss ↦ elim ss [
    | [] ↦ iter (lead_past idx s) prf prf >>= λ prf'. some (remove idx prf')
    | _ ∷ _ ↦ none
  ]
]

-- `p`, whose last test is not made where an earlier one fails.
unfoldable pub is_fusible : AbstractProof → ℕ → ℕ → AbstractNode → Bool
is_fusible prf init idx n =
    not (idx == init)
    && is_single_node idx n
    && elim (fathers_grandchild prf idx n) [ none ↦ false | some b ↦ not b ]

-- The loop of `fuse_single_nodes`, on fuel.
unfoldable pub fuse_single_nodes : ℕ → ℕ → AbstractProof → Option AbstractProof
fuse_single_nodes zero init prf = none
fuse_single_nodes (suc fuel) init prf =
    let rest = fuse_single_nodes fuel init in
    elim (find_map (is_fusible prf init) prf) [
      | none ↦ some prf
      | some x ↦ fuse_node x.0 x.1 prf >>= rest
    ]

unfoldable pub minimize_abs_proof : ℕ → ℕ → AbstractProof → Option AbstractProof
minimize_abs_proof fuel init prf = remove_dead_nodes fuel prf >>= fuse_single_nodes fuel init

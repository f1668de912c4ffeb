-- ===== src/ProofTree.antt =====
-- The proofs that the prover builds (src/generic/proof.ml): a map from numbers to nodes, each with
-- the number of its parent. `none` is an exception or a failed assertion.
pub mod Proofnode
pub mod Maps
pub mod Counts
pub mod Additions
pub mod Shape
pub mod Growth
pub mod Calls
pub mod Built
pub mod Answers
pub mod Closed
pub mod Ancestry
mod Abstract
pub mod Checked
pub mod Fitting
use Prim.Native.String.{String}
use cyclist.Base.{
  ℕ, zero, suc, max, Bool, true, false, not, ◌&&◌, Option, none, some, List, [], ◌∷◌, map, ◌==◌,
  nat_eq, if◌then◌else◌, ◌>>=◌, ◌>>◌, assert, lookup, assign,
}
use cyclist.Bdd.{BddLibrary}
use cyclist.Soundness.{SpotLibrary}
use cyclist.Soundcheck.{AbstractProof, for_all}
use cyclist.Checker
use cyclist.Checker.{Checker}
use cyclist.Minimize.{TagPairs}
use Proofnode.{
  Sequents, map2, Node, open_node, axiom_node, inf_node, back_node, get_seq, get_succs, is_open,
  mk_open, to_abstract_node,
}
use Maps.{max_index, range, all_true}

module _ ⦃S : Sequents⦄ where
  abbrev pub ProofTree : Type 0
  ProofTree = List (ℕ × (ℕ × Node))

  -- A subgoal with its valid and its progressing pairs of tags.
  abbrev pub Subgoal : Type 0
  Subgoal = S.Seq × (TagPairs × TagPairs)

  abbrev pub get : ℕ → ProofTree → Option (ℕ × Node)
  get idx prf = lookup ⦃e = nat_eq⦄ idx prf

  abbrev pub find : ℕ → ProofTree → Option Node
  find idx prf = get idx prf >>= λ x. some x.1

  unfoldable pub fresh_idx : ProofTree → Option ℕ
  fresh_idx prf = max_index prf >>= λ k. some (suc k)

  unfoldable pub is_closed : ProofTree → Bool
  is_closed prf = for_all (λ (_, (_, n)). not (is_open n)) prf

  unfoldable pub mk : S.Seq → ProofTree
  mk seq = (0, (0, mk_open seq)) ∷ []

  unfoldable pub replace : ℕ → Node → ProofTree → Option ProofTree
  replace idx n prf = get idx prf >>= λ x. some (assign ⦃e = nat_eq⦄ idx (x.0, n) prf)

  abbrev pub ensure_add : ℕ → Node → ProofTree → Option (Unit {0})
  ensure_add idx n prf = do
    n' ← find idx prf
    assert (is_open n' && S.equal (get_seq n) (get_seq n'))

  unfoldable pub add_axiom : ℕ → String → ProofTree → Option ProofTree
  unfolding replace
  add_axiom idx descr prf = do
    seq ← find idx prf
    let n = axiom_node (get_seq seq) descr
    ensure_add idx n prf
    replace idx n prf

  unfoldable pub add_backlink : ℕ → String → ℕ → TagPairs → ProofTree → Option ProofTree
  unfolding replace
  add_backlink idx descr target vtts prf = do
    old ← find idx prf
    let n = back_node (get_seq old) descr target vtts
    ensure_add idx n prf
    there ← find target prf
    assert (S.equal_upto_tags (get_seq old) (get_seq there))
    replace idx n prf

  -- The fold of `add_inf`
  unfoldable pub add_nodes : ℕ → List (ℕ × Node) → ProofTree → ProofTree
  add_nodes idx [] prf = prf
  add_nodes idx ((ci, cn) ∷ subnodes) prf =
      add_nodes idx subnodes (assign ⦃e = nat_eq⦄ ci (idx, cn) prf)

  unfoldable pub add_inf : ℕ → String → List Subgoal → ProofTree → Option (List ℕ × ProofTree)
  unfolding replace fresh_idx map2
  add_inf idx descr subgoals prf = do
    next ← fresh_idx prf
    let subidxs = range next subgoals
    subnodes ← map2 (λ i (g : Subgoal). (i, mk_open g.0)) subidxs subgoals
    let tagpairs2 = map (λ (g : Subgoal). g.1) subgoals
    old ← find idx prf
    let n = inf_node (get_seq old) descr subidxs tagpairs2
    ensure_add idx n prf
    prf' ← replace idx n prf
    some (subidxs, add_nodes idx subnodes prf')

  -- `aux` of `get_ancestry`
  unfoldable pub ancestors :
      ℕ → List (ℕ × Node) → ℕ → ℕ × Node → ProofTree → Option (List (ℕ × Node))
  ancestors zero acc idx x prf = none
  ancestors (suc fuel) acc idx (par_idx, n) prf = do
    parent ← get par_idx prf
    let acc' = (idx, n) ∷ acc
    let above = ancestors fuel acc' par_idx parent prf
    if par_idx == idx then some acc' else above

  unfoldable pub get_ancestry : ℕ → ℕ → ProofTree → Option (List (ℕ × Node))
  unfolding ancestors
  get_ancestry fuel idx prf = get idx prf >>= λ x. ancestors fuel [] idx x prf

  unfoldable pub is_closed_at : ℕ → ProofTree → ℕ → Option Bool
  unfolding all_true
  is_closed_at zero prf idx = none
  is_closed_at (suc fuel) prf idx = find idx prf >>= λ n. elim n [
    | axiom_node seq descr ↦ some true
    | open_node seq descr ↦ some false
    | back_node seq descr succ tagpairs ↦ some true
    | inf_node seq descr succs tagpairs2 ↦ all_true (is_closed_at fuel prf) succs
  ]

  -- `P.map` of `check`
  unfoldable pub abstract_proof : ProofTree → Option AbstractProof
  abstract_proof [] = some []
  abstract_proof ((i, (par, n)) ∷ prf) = do
    a ← to_abstract_node n
    p ← abstract_proof prf
    some ((i, a) ∷ p)

  unfoldable pub check :
      ⦃B : BddLibrary⦄
      → SpotLibrary
      → (ℕ → ℕ)
      → (AbstractProof → AbstractProof → Bool)
      → ProofTree
      → Checker
      → Option (Bool × Checker)
  unfolding abstract_proof
  check spot ceil_log2 same prf c =
      abstract_proof prf >>= λ p. Checker.check_proof spot ceil_log2 same 0 p c

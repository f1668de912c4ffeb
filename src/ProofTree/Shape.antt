-- ===== src/ProofTree/Shape.antt =====
-- The invariants of src/generic/proof.ml: a graph rooted at 0, where the parents lead to the root.
use cyclist.Base.{ℕ, ◌<◌, true, some, Memᴰ, ◌≡◌, ◌⊎◌}
use cyclist.ProofTree.Maps.{range}
use cyclist.ProofTree.Counts.{Counts}
use cyclist.ProofTree.Proofnode.{Sequents, Node, inf_node, get_succs, is_inf}
use cyclist.ProofTree.{ProofTree, get}

module _ ⦃S : Sequents⦄ where
  -- The premises of an inference have successive numbers, each with its tag pairs.
  abbrev pub IsNumbered : Node → Type 0
  IsNumbered (inf_node seq descr succs tagpairs2) = (k : ℕ) × (succs ≡ range k tagpairs2)
  IsNumbered n = Unit {0}

  -- The inference that has the node `i` as a premise.
  pub record IsParent (p : ProofTree) (par i : ℕ) : Type 0 where
    pub below : par < i
    pub grandparent : ℕ
    pub node : Node
    pub bound : get par p ≡ some (grandparent, node)
    pub inference : is_inf node ≡ true
    pub premise : Memᴰ i (get_succs node)

  pub record IsTree (p : ProofTree) : Type 0 where
    pub counts : Counts 0 p
    pub root : (n : Node) × (get 0 p ≡ some (0, n))
    pub parent :
        (i par : ℕ) (n : Node) → get i p ≡ some (par, n) → ((i ≡ 0) × (par ≡ 0)) ⊎ IsParent p par i
    pub succ :
        (i par : ℕ) (n : Node) (j : ℕ)
        → get i p ≡ some (par, n)
        → Memᴰ j (get_succs n)
        → (par' : ℕ) × (n' : Node) × (get j p ≡ some (par', n'))
          × (is_inf n ≡ true → (par' ≡ i) × (i < j))
    pub numbered : (i par : ℕ) (n : Node) → get i p ≡ some (par, n) → IsNumbered n

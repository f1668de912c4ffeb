-- ===== src/ProofTree/Ancestry.antt =====
-- `get_ancestry` of src/generic/proof.ml.
use cyclist.Base.{
  ℕ, zero, suc, ◌<◌, some, List, [], ◌∷◌, ◌≡◌, inl, inr, refl, sym, ◌∙◌, subst, ◌==◌, ==_iff,
  Bool-cases, nat_eq, arith,
}
use cyclist.ProofTree.Proofnode.{Sequents, Node}
use cyclist.ProofTree.{ProofTree, get, ancestors, get_ancestry}
use cyclist.ProofTree.Shape.{IsParent, IsTree}

module _ ⦃S : Sequents⦄ where
  -- The nodes from `i` down to `target`, each a premise of the one before.
  pub data Descent (p : ProofTree) (target : ℕ) : ℕ → List (ℕ × Node) → Type 0 where
    arrives :
        (par : ℕ) (n : Node)
        → get target p ≡ some (par, n)
        → Descent p target target ((target, n) ∷ [])
    descends :
        (i j par : ℕ) (n : Node) (below : List (ℕ × Node))
        → get i p ≡ some (par, n)
        → IsParent p i j
        → Descent p target j below
        → Descent p target i ((i, n) ∷ below)

  module _ (p : ProofTree) (tree : IsTree p) (target : ℕ) where
    -- Upwards from a node whose descent is already in the accumulator.
    climbs :
        (fuel i par : ℕ) (n : Node) (acc : List (ℕ × Node))
        → i < fuel
        → get i p ≡ some (par, n)
        → Descent p target i ((i, n) ∷ acc)
        → (l : List (ℕ × Node)) × (ancestors fuel acc i (par, n) p ≡ some l) × Descent p target 0 l
    unfolding ancestors
    climbs zero i par n acc low h d = absurd (omega arith)
    climbs (suc fuel) i par n acc low h d = elim (tree.parent i par n h) [
      | inl (at_root, parent_root) ↦
          let self = parent_root ∙ sym at_root in
          (
            (i, n) ∷ acc,
            rw (self, h, (==_iff i i).1 refl) refl,
            subst (λ (k : ℕ). Descent p target k ((i, n) ∷ acc)) at_root d,
          )
      | inr up ↦
          let below = up.below in
          let (l, runs, all) =
            climbs fuel par up.grandparent up.node ((i, n) ∷ acc) (omega arith) up.bound
              (descends par i up.grandparent up.node ((i, n) ∷ acc) up.bound up d) in
          elim (Bool-cases (par == i)) [
            | inl same ↦ let e = (==_iff par i).0 same in absurd (omega arith)
            | inr other ↦ (l, rw (up.bound, other) runs, all)
          ]
    ]

    -- From a node of a tree, and with more fuel than its number, `get_ancestry` returns the path
    -- from the root down to it.
    pub get_ancestry-Descent :
        (fuel par : ℕ) (n : Node)
        → target < fuel
        → get target p ≡ some (par, n)
        → (l : List (ℕ × Node)) × (get_ancestry fuel target p ≡ some l) × Descent p target 0 l
    unfolding get_ancestry
    get_ancestry-Descent fuel par n enough h =
        let (l, runs, all) = climbs fuel target par n [] enough h (arrives par n h) in
        (l, rw h runs, all)

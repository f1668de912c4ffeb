-- ===== src/ProofTree/Checked.antt =====
-- `check` of src/generic/proof.ml on the proofs that its constructors build.
use cyclist.Base.{
  ℕ, suc, Bool, true, false, none, some, List, [], ◌∷◌, Memᴰ, ◌≡◌, refl, ap, inl, inr, Bool-cases,
  sym, ◌∙◌, subst, nat_eq, some_injective, length,
}
use mathlib.Core.List.Memᴰ
use cyclist.Bdd.{BddLibrary}
use cyclist.Proof.{Tag}
use cyclist.Soundness.{SpotLibrary}
use cyclist.Soundcheck.{AbstractProof, AbstractNode, Premise, valid}
use cyclist.Soundcheck.Valid.{IsClosed, valid-IsClosed}
use cyclist.Soundcheck.Accepted.{IsClosed-valid}
use cyclist.Minimize.{minimize_abs_proof}
use cyclist.Minimize.Premises.{DistinctChildren}
use cyclist.Checker
use cyclist.Checker.{Checker, check_proof}
use cyclist.Checker.Correct.{IsIdle, Suits, Answers, check_proof-Answers}
use cyclist.ProofTree.Counts.{mem-Counts, mem-get}
use cyclist.ProofTree.Proofnode.{Sequents, Node, get_seq, to_abstract_node}
use cyclist.ProofTree.{ProofTree, get, abstract_proof, check}
use cyclist.ProofTree.Shape.{IsTree, IsNumbered}
use cyclist.ProofTree.Calls.{Built}
use cyclist.ProofTree.Built.{Built-IsTree}
use cyclist.ProofTree.Abstract.{
  IsAbstraction, abstract_proof-IsAbstraction, to_abstract_node-eq, premises, premises-succs,
  premises-DistinctChildren, Counts-IsMap,
}

module _ ⦃S : Sequents⦄ where
  -- The pairs that the rules of the logic gave: between tags of the two sequents, and the
  -- progressing ones among the valid ones.
  abbrev pub HasFittingPairs : ProofTree → Type 0
  HasFittingPairs p =
      (i par : ℕ) (n : Node) (a : AbstractNode) (s : Premise)
      → get i p ≡ some (par, n)
      → to_abstract_node n ≡ some a
      → Memᴰ s a.subg
      → ((x : Tag × Tag) → Memᴰ x s.progress → Memᴰ x s.tag_pairs)
        × ((par' : ℕ) (n' : Node)
            → get s.child p ≡ some (par', n')
            → (k l : Tag) → Memᴰ (k, l) s.tag_pairs
            → Memᴰ k (S.tags (get_seq n)) × Memᴰ l (S.tags (get_seq n')))

  module _ (p : ProofTree) (tree : IsTree p) (a : AbstractProof) (abs : IsAbstraction p a) where
    -- A binding of the abstract proof, and the node it comes from.
    pub record Source (i : ℕ) (b : AbstractNode) : Type 0 where
      pub parent : ℕ
      pub node : Node
      pub bound : get i p ≡ some (parent, node)
      pub numbered : IsNumbered node
      pub made : b ≡ record { tags = S.tags (get_seq node); subg = premises node numbered }

    source : (i : ℕ) (b : AbstractNode) → Memᴰ (i, b) a → Source i b
    source i b m =
        let c = abs.comes i b m in
        let found = (mem-Counts 0 p i (c.parent, c.node) tree.counts c.bound).1 in
        let u = tree.numbered i c.parent c.node found in
        record {
          parent = c.parent;
          node = c.node;
          bound = found;
          numbered = u;
          made = some_injective (sym c.abstracted ∙ to_abstract_node-eq c.node u);
        }

    abstract-DistinctChildren : (i : ℕ) (b : AbstractNode) → Memᴰ (i, b) a → DistinctChildren b.subg
    abstract-DistinctChildren i b m =
        let s = source i b m in
        subst (λ (c : AbstractNode). DistinctChildren c.subg) (sym s.made)
          (premises-DistinctChildren s.node s.numbered)

    abstract-IsClosed : HasFittingPairs p → IsClosed a 0
    abstract-IsClosed fit = record {
      start =
          let (n, h) = tree.root in
          let (b, m, _) = abs.covers 0 0 n (mem-get p 0 (0, n) h) in (b, m);
      child = λ i b s (m, k).
          let o = source i b m in
          let in_node = subst (λ (c : AbstractNode). Memᴰ s c.subg) o.made k in
          let (par', n', found, _) =
            tree.succ i o.parent o.node s.child o.bound
              (premises-succs o.node o.numbered s in_node) in
          let (b', m', e') = abs.covers s.child par' n' (mem-get p s.child (par', n') found) in
          let o' = source s.child b' m' in
          let (_, inside) =
            fit i o.parent o.node _ s o.bound (to_abstract_node-eq o.node o.numbered) in_node in
          (
            b',
            m',
            λ x y pair.
                let (left, right) = inside o'.parent o'.node o'.bound x y pair in
                (
                  subst (λ (c : AbstractNode). Memᴰ x c.tags) (sym o.made) left,
                  subst (λ (c : AbstractNode). Memᴰ y c.tags) (sym o'.made) right,
                ),
          );
      progress_in = λ i b s (m, k).
          let o = source i b m in
          let in_node = subst (λ (c : AbstractNode). Memᴰ s c.subg) o.made k in
          (fit i o.parent o.node _ s o.bound (to_abstract_node-eq o.node o.numbered) in_node).0;
    }

    -- The node that is found is the one that a binding of the abstract proof comes from.
    tags-source :
        (i par : ℕ) (n : Node) (b : AbstractNode)
        → get i p ≡ some (par, n)
        → Memᴰ (i, b) a
        → b.tags ≡ S.tags (get_seq n)
    tags-source i par n b h m =
        let s = source i b m in
        let same = some_injective (sym s.bound ∙ h) in
        ap (λ (c : AbstractNode). c.tags) s.made ∙ ap (λ (x : ℕ × Node). S.tags (get_seq x.1)) same

    -- What `valid` tests of the pairs is that they fit.
    IsClosed-HasFittingPairs : IsClosed a 0 → HasFittingPairs p
    IsClosed-HasFittingPairs closed i par n b s h e m =
        let (c, k, e') = abs.covers i par n (mem-get p i (par, n) h) in
        let same = some_injective (sym e ∙ e') in
        let in_c = subst (λ (x : AbstractNode). Memᴰ s x.subg) same m in
        let (d, k', inside) = closed.child i c s (k, in_c) in
        (
          closed.progress_in i c s (k, in_c),
          λ par' n' h' x y pair.
              let (left, right) = inside x y pair in
              (
                subst (λ (ts : List Tag). Memᴰ x ts) (tags-source i par n c h k) left,
                subst (λ (ts : List Tag). Memᴰ y ts) (tags-source s.child par' n' d h' k') right,
              ),
        )

  module _ ⦃B : BddLibrary⦄ (spot : SpotLibrary) (ceil_log2 : ℕ → ℕ)
      (same : AbstractProof → AbstractProof → Bool)
      (equal : (x y : AbstractProof) → same x y ≡ true → x ≡ y) where
    -- The outer check of what does not pass `valid`.
    check_proof-refuses :
        (init i : ℕ) (b : AbstractNode) (a : AbstractProof) (c : Checker)
        → Memᴰ (i, b) a
        → valid a init ≡ false
        → Checker.check_proof spot ceil_log2 same init a c ≡ none
    unfolding check_proof
    check_proof-refuses init i b [] c m fails = absurd (Memᴰ.not-nil m)
    check_proof-refuses init i b (x ∷ a) c m fails = rw fails refl

    -- Take a proof that calls of its constructors built. Let the checker be as for the outer
    -- `check_proof`, and Spot and the bits as it needs them for what the shrinking leaves of the
    -- abstract proof. Then the proof has an abstract proof. When the tag pairs given to the
    -- constructors lie in the tags of the sequents at their ends, with the progressing pairs among
    -- the valid ones, no assertion of `check` fails, and `check` answers true exactly when along
    -- each infinite path of the abstract proof from the root some trace progresses infinitely
    -- often. When they do not, an assertion of `check` fails.
    pub check-Answers :
        (p : ProofTree) (c : Checker)
        → Built p
        → IsIdle 0 c
        → ((a q : AbstractProof)
            → abstract_proof p ≡ some a
            → minimize_abs_proof (suc (length a)) 0 a ≡ some q
            → Suits spot ceil_log2 0 q)
        → (a : AbstractProof) × (abstract_proof p ≡ some a)
          × (HasFittingPairs p → Answers 0 a (check spot ceil_log2 same p c))
          × (¬ HasFittingPairs p → check spot ceil_log2 same p c ≡ none)
    unfolding check
    check-Answers p c built idle suits =
        let tree = Built-IsTree p built in
        let (a, runs, abs) =
          abstract_proof-IsAbstraction p
            (λ i par n m. tree.numbered i par n (mem-Counts 0 p i (par, n) tree.counts m).1) in
        let is_map = Counts-IsMap 0 a (abs.keys 0 tree.counts) in
        let (n, root) = tree.root in
        let (b, at_root, _) = abs.covers 0 0 n (mem-get p 0 (0, n) root) in
        (
          a,
          runs,
          λ fit.
              let passes = IsClosed-valid a 0 is_map (abstract-IsClosed p tree a abs fit) in
              rw runs (
                check_proof-Answers spot ceil_log2 same equal 0 a c idle (inr (passes, inl refl))
                  is_map (abstract-DistinctChildren p tree a abs) (λ q e. suits a q runs e)),
          λ unfit. elim (Bool-cases (valid a 0)) [
            | inl passes ↦
                absurd (unfit (IsClosed-HasFittingPairs p tree a abs (valid-IsClosed a 0 passes)))
            | inr fails ↦ rw runs (check_proof-refuses 0 0 b a c at_root fails)
          ],
        )

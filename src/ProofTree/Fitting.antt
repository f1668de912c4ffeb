-- ===== src/ProofTree/Fitting.antt =====
-- Where each call of a constructor of src/generic/proof.ml is given tag pairs that fit the sequents,
-- the pairs of the whole proof fit.
use cyclist.Base.{
  ℕ, some, List, Memᴰ, ◌≡◌, inl, inr, refl, sym, ap, ◌∙◌, subst, some_injective, arith,
}
use mathlib.Core.List.Memᴰ
use cyclist.Proof.{Tag}
use cyclist.Soundcheck.{AbstractNode, Premise}
use cyclist.ProofTree.Counts.{Counts-found, mem-get}
use cyclist.ProofTree.Proofnode.{Sequents, Node, get_seq, mk_open, to_abstract_node}
use cyclist.ProofTree.{ProofTree, Subgoal, get, mk}
use cyclist.ProofTree.Shape.{IsNumbered, IsTree}
use cyclist.ProofTree.Growth.{Grows}
use cyclist.ProofTree.Growth.Keeps.{Places, changed, kept, added, kind}
use cyclist.ProofTree.Abstract.{to_abstract_node-eq, premises, premises-succs}
use cyclist.ProofTree.Calls.{Call, CallFits, Built, made, called, NodeFits, KeepsSequent}
use cyclist.ProofTree.Built.{Call-Grown, Built-IsTree}
use cyclist.ProofTree.Checked.{HasFittingPairs}

module _ ⦃S : Sequents⦄ where
  -- Each call that built the proof was given pairs that fit.
  pub data BuiltFitting : ProofTree → Type 0 where
    made_open : {p : ProofTree} (seq : S.Seq) → p ≡ mk seq → BuiltFitting p
    obeys : {p q : ProofTree} → BuiltFitting p → (c : Call p q) → CallFits p q c → BuiltFitting q

  BuiltFitting-Built : (p : ProofTree) → BuiltFitting p → Built p
  BuiltFitting-Built p (made_open seq e) = made seq e
  BuiltFitting-Built p (obeys {p = before} b c fits) = called (BuiltFitting-Built before b) c

  -- The same node is found twice.
  same_node :
      (p : ProofTree) (i : ℕ) (x y : ℕ × Node) → get i p ≡ some x → get i p ≡ some y → x.1 ≡ y.1
  same_node p i x y h k = ap (λ (z : ℕ × Node). z.1) (some_injective (sym h ∙ k))

  module _ (p q : ProofTree) (idx : ℕ) (new : Node) (gs : List Subgoal) (tree : IsTree p)
      (g : Grows p q idx new gs) (places : Places p new gs) (numbered : IsNumbered new)
      (same : KeepsSequent p idx new) (fits : NodeFits p new gs numbered)
      (fit : HasFittingPairs p) where
    seq_kept :
        (j : ℕ) (x y : ℕ × Node) → get j p ≡ some x → get j q ≡ some y → get_seq y.1 ≡ get_seq x.1
    seq_kept j x y h k = elim (kind p q idx new gs tree g places numbered j y.0 y.1 k) [
      | changed at_idx _ e ↦
          let (z, found, equal_seq) = same in
          let found' = ap (λ (i : ℕ). get i p) at_idx ∙ found in
          ap (λ (n : Node). get_seq n) e
          ∙ equal_seq
          ∙ ap (λ (n : Node). get_seq n) (same_node p j z x found' h)
      | kept other below was ↦ ap (λ (n : Node). get_seq n) (same_node p j y x was h)
      | added s above _ e ↦ let low = (Counts-found 0 p j x tree.counts h).1 in absurd (omega arith)
    ]

    -- The pairs that `HasFittingPairs` speaks of, for one premise.
    abbrev Fit : Node → Premise → Type 0
    Fit n s =
        ((x : Tag × Tag) → Memᴰ x s.progress → Memᴰ x s.tag_pairs)
        × ((par' : ℕ) (n' : Node)
            → get s.child q ≡ some (par', n')
            → (k l : Tag) → Memᴰ (k, l) s.tag_pairs
            → Memᴰ k (S.tags (get_seq n)) × Memᴰ l (S.tags (get_seq n')))

    premise-in :
        (n : Node) (u : IsNumbered n) (a : AbstractNode) (s : Premise)
        → to_abstract_node n ≡ some a
        → Memᴰ s a.subg
        → Memᴰ s (premises n u)
    premise-in n u a s e m =
        subst (λ (b : AbstractNode). Memᴰ s b.subg)
          (some_injective (sym e ∙ to_abstract_node-eq n u)) m

    new-Fit : (s : Premise) → Memᴰ s (premises new numbered) → Fit new s
    new-Fit s m =
        let f = fits s m in
        (
          f.progress_in,
          λ par' n' h k l pair. (
            f.source k l pair,
            elim f.target [
              | inl (y, there, ends) ↦
                  subst (λ (x : S.Seq). Memᴰ l (S.tags x))
                    (sym (seq_kept s.child y (par', n') there h)) (ends k l pair)
              | inr (t, sub, at_t, number, ends) ↦
                  let there = ap (λ (i : ℕ). get i q) number ∙ g.opens t sub at_t in
                  let is_open = same_node q s.child (par', n') (idx, mk_open sub.0) h there in
                  subst (λ (x : Node). Memᴰ l (S.tags (get_seq x))) (sym is_open) (ends k l pair)
            ],
          ),
        )

    old-Fit :
        (i par : ℕ) (n : Node) (a : AbstractNode) (s : Premise)
        → get i p ≡ some (par, n)
        → to_abstract_node n ≡ some a
        → Memᴰ s a.subg
        → Fit n s
    old-Fit i par n a s was e m =
        let (progress_in, inside) = fit i par n a s was e m in
        let u = tree.numbered i par n was in
        let in_succs = premises-succs n u s (premise-in n u a s e m) in
        let (par0, n0, found, _) = tree.succ i par n s.child was in_succs in
        (
          progress_in,
          λ par' n' h k l pair.
              let (left, right) = inside par0 n0 found k l pair in
              (
                left,
                subst (λ (x : S.Seq). Memᴰ l (S.tags x))
                    (sym (seq_kept s.child (par0, n0) (par', n') found h)) right,
              ),
        )

    grown-HasFittingPairs : HasFittingPairs q
    grown-HasFittingPairs i par n a s h e m =
        elim (kind p q idx new gs tree g places numbered i par n h) [
          | changed at_idx _ is_new ↦
              let e' = ap (λ (x : Node). to_abstract_node x) (sym is_new) ∙ e in
              subst (λ (x : Node). Fit x s) (sym is_new)
                (new-Fit s (premise-in new numbered a s e' m))
          | kept other below was ↦ old-Fit i par n a s was e m
          | added seq above _ is_open ↦
              let e' = ap (λ (x : Node). to_abstract_node x) (sym is_open) ∙ e in
              absurd (Memᴰ.not-nil (premise-in (mk_open seq) tt a s e' m))
        ]

  mk-HasFittingPairs : (seq : S.Seq) → HasFittingPairs (mk seq)
  unfolding mk
  mk-HasFittingPairs seq i par n a s h e m =
      let only = Memᴰ.eq_of_singleton (mem-get (mk seq) i (par, n) h) in
      let e' = ap (λ (x : ℕ × (ℕ × Node)). to_abstract_node x.1.1) (sym only) ∙ e ∙ refl in
      let none_there = some_injective (sym e' ∙ to_abstract_node-eq (mk_open seq) tt) in
      absurd (Memᴰ.not-nil (subst (λ (b : AbstractNode). Memᴰ s b.subg) none_there m))

  -- Let each call that built a proof be given tag pairs between the tags of the sequents at their
  -- ends, with the progressing pairs among the valid ones. Then this holds of all pairs in the
  -- proof.
  pub BuiltFitting-HasFittingPairs : (p : ProofTree) → BuiltFitting p → HasFittingPairs p
  BuiltFitting-HasFittingPairs p (made_open seq e) =
      subst HasFittingPairs (sym e) (mk-HasFittingPairs seq)
  BuiltFitting-HasFittingPairs p (obeys {p = before} b c call_fits) =
      let tree = Built-IsTree before (BuiltFitting-Built before b) in
      let (idx, new, gs, grows, places, numbered, same, fits) = Call-Grown before p tree c in
      grown-HasFittingPairs before p idx new gs tree grows places numbered same (fits call_fits)
        (BuiltFitting-HasFittingPairs before b)

-- ===== src/ProofTree/Abstract.antt =====
-- The abstract proof of a tree (`to_abstract_node` of src/generic/proofnode.ml, and the map in
-- `check` of src/generic/proof.ml).
use cyclist.Base.{
  ℕ, suc, ◌≤◌, some, List, [], ◌∷◌, Memᴰ, ◌≡◌, inl, inr, refl, sym, ap, ◌∙◌, nat_eq, arith,
}
use mathlib.Core.List.Memᴰ
use cyclist.Soundcheck.{AbstractProof, AbstractNode, Premise}
use cyclist.Soundcheck.Ready.{IsMap}
use cyclist.Minimize.{TagPairs}
use cyclist.Minimize.Premises.{DistinctChildren}
use cyclist.ProofTree.Maps.{range}
use cyclist.ProofTree.Counts.{Counts, mem-Counts}
use cyclist.ProofTree.Proofnode.{
  Sequents, Node, open_node, axiom_node, inf_node, back_node, get_seq, get_succs, map2, mk_abs_node,
  to_abstract_node,
}
use cyclist.ProofTree.{ProofTree, abstract_proof}
use cyclist.ProofTree.Shape.{IsNumbered}

-- The premises from the number `k` on.
abbrev pub numbered_premises : ℕ → List (TagPairs × TagPairs) → List Premise
numbered_premises k [] = []
numbered_premises k (t ∷ ts) =
    record { child = k; tag_pairs = t.0; progress = t.1 } ∷ numbered_premises (suc k) ts

zip-range :
    (k : ℕ) (ts : List (TagPairs × TagPairs))
    → map2
        (λ i (t : TagPairs × TagPairs). record { child = i; tag_pairs = t.0; progress = t.1 })
        (range k ts)
        ts
      ≡ some (numbered_premises k ts)
unfolding map2 range
zip-range k [] = refl
zip-range k (t ∷ ts) = rw (zip-range (suc k) ts) refl

child-range :
    (k : ℕ) (ts : List (TagPairs × TagPairs)) (s : Premise)
    → Memᴰ s (numbered_premises k ts)
    → Memᴰ s.child (range k ts) × (k ≤ s.child)
unfolding range
child-range k [] s m = absurd (Memᴰ.not-nil m)
child-range k (t ∷ ts) s m = elim (Memᴰ.cases_cons m) [
  | inl here ↦ let e = ap (λ (x : Premise). x.child) here in (Memᴰ.head e, omega arith)
  | inr later ↦ let (k', low) = child-range (suc k) ts s later in (Memᴰ.tail k', omega arith)
]

numbered_premises-DistinctChildren :
    (k : ℕ) (ts : List (TagPairs × TagPairs)) → DistinctChildren (numbered_premises k ts)
numbered_premises-DistinctChildren k [] = tt
numbered_premises-DistinctChildren k (t ∷ ts) = (
  λ s m e. let low = (child-range (suc k) ts s m).1 in omega arith,
  numbered_premises-DistinctChildren (suc k) ts,
)

module _ ⦃S : Sequents⦄ where
  -- The premises of a node whose numbers are successive.
  abbrev pub premises : (n : Node) → IsNumbered n → List Premise
  premises (open_node seq descr) u = []
  premises (axiom_node seq descr) u = []
  premises (inf_node seq descr succs tagpairs2) (k, _) = numbered_premises k tagpairs2
  premises (back_node seq descr succ tagpairs) u =
      record { child = succ; tag_pairs = tagpairs; progress = [] } ∷ []

  pub to_abstract_node-eq :
      (n : Node) (u : IsNumbered n)
      → to_abstract_node n ≡ some (record { tags = S.tags (get_seq n); subg = premises n u })
  unfolding to_abstract_node mk_abs_node map2
  to_abstract_node-eq (open_node seq descr) u = refl
  to_abstract_node-eq (axiom_node seq descr) u = refl
  to_abstract_node-eq (inf_node seq descr succs tagpairs2) (k, e) =
      rw (e, zip-range k tagpairs2) refl
  to_abstract_node-eq (back_node seq descr succ tagpairs) u = refl

  pub premises-succs :
      (n : Node) (u : IsNumbered n) (s : Premise)
      → Memᴰ s (premises n u)
      → Memᴰ s.child (get_succs n)
  premises-succs (open_node seq descr) u s m = absurd (Memᴰ.not-nil m)
  premises-succs (axiom_node seq descr) u s m = absurd (Memᴰ.not-nil m)
  premises-succs (inf_node seq descr succs tagpairs2) (k, e) s m =
      rw e (child-range k tagpairs2 s m).0
  premises-succs (back_node seq descr succ tagpairs) u s m =
      Memᴰ.head (ap (λ (x : Premise). x.child) (Memᴰ.eq_of_singleton m))

  pub premises-DistinctChildren : (n : Node) (u : IsNumbered n) → DistinctChildren (premises n u)
  premises-DistinctChildren (open_node seq descr) u = tt
  premises-DistinctChildren (axiom_node seq descr) u = tt
  premises-DistinctChildren (inf_node seq descr succs tagpairs2) (k, e) =
      numbered_premises-DistinctChildren k tagpairs2
  premises-DistinctChildren (back_node seq descr succ tagpairs) u =
      (λ s m. absurd (Memᴰ.not-nil m), tt)

  -- The binding of an abstract proof comes from the tree.
  pub record Comes (p : ProofTree) (i : ℕ) (a : AbstractNode) : Type 0 where
    pub parent : ℕ
    pub node : Node
    pub bound : Memᴰ (i, (parent, node)) p
    pub abstracted : to_abstract_node node ≡ some a

  -- The abstract proof has the nodes of the tree, made abstract.
  pub record IsAbstraction (p : ProofTree) (a : AbstractProof) : Type 0 where
    pub comes : (i : ℕ) (b : AbstractNode) → Memᴰ (i, b) a → Comes p i b
    pub covers :
        (i par : ℕ) (n : Node)
        → Memᴰ (i, (par, n)) p
        → (b : AbstractNode) × Memᴰ (i, b) a × (to_abstract_node n ≡ some b)
    pub keys : (k : ℕ) → Counts k p → Counts k a

  pub abstract_proof-IsAbstraction :
      (p : ProofTree)
      → ((i par : ℕ) (n : Node) → Memᴰ (i, (par, n)) p → IsNumbered n)
      → (a : AbstractProof) × (abstract_proof p ≡ some a) × IsAbstraction p a
  unfolding abstract_proof
  abstract_proof-IsAbstraction [] u = (
    [],
    refl,
    record {
      comes = λ i b m. absurd (Memᴰ.not-nil m);
      covers = λ i par n m. absurd (Memᴰ.not-nil m);
      keys = λ k c. c;
    },
  )
  abstract_proof-IsAbstraction ((i, (par, n)) ∷ p) u =
      let (a, runs, rest) = abstract_proof-IsAbstraction p (λ j q k m. u j q k (Memᴰ.tail m)) in
      let v = u i par n (Memᴰ.head refl) in
      let b : AbstractNode = record { tags = S.tags (get_seq n); subg = premises n v } in
      let e = to_abstract_node-eq n v in
      (
        (i, b) ∷ a,
        rw (e, runs) refl,
        record {
          comes = λ j c m. elim (Memᴰ.cases_cons m) [
            | inl here ↦ record {
              parent = par;
              node = n;
              bound = Memᴰ.head (ap (λ (x : ℕ × AbstractNode). (x.0, (par, n))) here);
              abstracted = e ∙ ap (λ (x : ℕ × AbstractNode). some x.1) (sym here);
            }
            | inr later ↦
                let old = rest.comes j c later in
                record {
                  parent = old.parent;
                  node = old.node;
                  bound = Memᴰ.tail old.bound;
                  abstracted = old.abstracted;
                }
          ];
          covers = λ j q k m. elim (Memᴰ.cases_cons m) [
            | inl here ↦ (
              b,
              Memᴰ.head (ap (λ (x : ℕ × (ℕ × Node)). (x.0, b)) here),
              ap (λ (x : ℕ × (ℕ × Node)). to_abstract_node x.1.1) here ∙ e,
            )
            | inr later ↦ let (c, m', e') = rest.covers j q k later in (c, Memᴰ.tail m', e')
          ];
          keys = λ k c. (c.0, rest.keys (suc k) c.1);
        },
      )

pub Counts-IsMap : (k : ℕ) (a : AbstractProof) → Counts k a → IsMap a
Counts-IsMap k [] c = tt
Counts-IsMap k ((i, b) ∷ a) c = (
  λ (n, m). let low = (mem-Counts (suc k) a i n c.1 m).0 in let e = c.0 in omega arith,
  Counts-IsMap (suc k) a c.1,
)

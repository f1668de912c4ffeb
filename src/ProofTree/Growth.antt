-- ===== src/ProofTree/Growth.antt =====
-- The constructors of src/generic/proof.ml write a node over an open one and add its premises.
pub mod Keeps
use cyclist.Base.{
  ℕ, zero, suc, ◌+◌, ◌-◌, ◌≤◌, ◌<◌, true, false, some, List, [], ◌∷◌, Memᴰ, ◌≡◌, ◌≢◌, ◌⊎◌, inl, inr,
  refl, sym, ap, ◌∙◌, subst, ◌==◌, ==_iff, Bool-cases, nat_eq, some_injective, assign, length,
  get_elem?, arith, ltb,
}
use mathlib.Core.List.Memᴰ
use cyclist.ProofTree.Maps.{range}
use cyclist.ProofTree.Counts.{
  Counts, Counts-get, Counts-found, mem-range, assign-Counts, length-assign_old,
}
use cyclist.ProofTree.Proofnode.{
  Sequents, Node, open_node, axiom_node, inf_node, back_node, get_succs, is_open, is_inf, mk_open,
}
use cyclist.ProofTree.{ProofTree, Subgoal, get, add_nodes}
use cyclist.ProofTree.Shape.{IsNumbered, IsParent, IsTree}
use cyclist.ProofTree.Additions.{
  opened, get-assign_same, get-assign_other, get-add_nodes_old, get-add_nodes_new, add_nodes-Counts,
}

module _ ⦃S : Sequents⦄ where
  -- What a constructor makes of a tree with the open node `idx`: the node `new` in its place, with
  -- the open nodes of the subgoals `gs` below it.
  pub record Grows (p q : ProofTree) (idx : ℕ) (new : Node) (gs : List Subgoal) : Type 0 where
    pub parent : ℕ
    pub old : Node
    pub was_open : is_open old ≡ true
    pub bound : get idx p ≡ some (parent, old)
    pub counts : Counts 0 q
    pub size : length q ≡ length p + length gs
    pub here : get idx q ≡ some (parent, new)
    pub rest : (j : ℕ) → j < length p → j ≢ idx → get j q ≡ get j p
    pub opens :
        (t : ℕ) (g : Subgoal)
        → get_elem? gs t ≡ some g
        → get (length p + t) q ≡ some (idx, mk_open g.0)

  -- The constructors write a node over an open one and then add the subgoals.
  pub grown-Grows :
      (p : ProofTree) (idx par : ℕ) (old new : Node) (gs : List Subgoal)
      → Counts 0 p
      → get idx p ≡ some (par, old)
      → is_open old ≡ true
      → Grows p
          (add_nodes idx (opened (length p) gs) (assign ⦃e = nat_eq⦄ idx (par, new) p))
          idx
          new
          gs
  grown-Grows p idx par old new gs c h isopen =
      let q = assign ⦃e = nat_eq⦄ idx (par, new) p in
      let low = (Counts-found 0 p idx (par, old) c h).1 in
      let same = length-assign_old 0 p idx (par, new) c (omega arith) low in
      let c' = assign-Counts 0 p idx (par, new) c (omega arith) (omega arith) in
      let (c'', size) = add_nodes-Counts idx (length p) gs q c' (sym same) in
      record {
        parent = par;
        old = old;
        was_open = isopen;
        bound = h;
        counts = c'';
        size = size;
        here =
            get-add_nodes_old idx (length p) gs q idx (omega arith)
            ∙ get-assign_same idx (par, new) p;
        rest = λ j below other.
            get-add_nodes_old idx (length p) gs q j below
            ∙ get-assign_other j idx (par, new) p other;
        opens = λ t g e. get-add_nodes_new idx (length p) gs q t g e;
      }

  get-below : (p : ProofTree) (i : ℕ) (x : ℕ × Node) → Counts 0 p → get i p ≡ some x → i < length p
  get-below p i x c h = let (low, high) = Counts-found 0 p i x c h in omega arith

  open-no_inference : (n : Node) → is_open n ≡ true → ¬ (is_inf n ≡ true)
  open-no_inference (open_node seq descr) a b = cc
  open-no_inference (axiom_node seq descr) a b = cc
  open-no_inference (inf_node seq descr succs tagpairs2) a b = cc
  open-no_inference (back_node seq descr succ tagpairs) a b = cc

  same_binding :
      (p : ProofTree) (i j : ℕ) (x y : ℕ × Node)
      → i ≡ j
      → get i p ≡ some x
      → get j p ≡ some y
      → x ≡ y
  same_binding p i j x y e h k = some_injective (sym h ∙ ap (λ (l : ℕ). get l p) e ∙ k)

  elem : {A : Type 0} (xs : List A) (t : ℕ) → t < length xs → (x : A) × (get_elem? xs t ≡ some x)
  elem [] t h = absurd (omega arith)
  elem (x ∷ xs) zero h = (x, refl)
  elem (x ∷ xs) (suc t) h = elem xs t (omega arith)

-- ===== src/ProofTree/Answers.antt =====
-- What calls of src/generic/proof.ml on a proof do, and which fail.
use Prim.Native.String.{String}
use cyclist.Base.{
  ℕ, true, false, ◌&&◌, none, some, List, map, ◌≡◌, ◌↔◌, inl, inr, refl, Option-cases, Bool-cases,
  length, assign, nat_eq, arith,
}
use cyclist.Minimize.{TagPairs}
use cyclist.ProofTree.Maps.{range}
use cyclist.ProofTree.Proofnode.{Sequents, Node, inf_node, back_node, get_seq, is_open}
use cyclist.ProofTree.{ProofTree, Subgoal, get, add_backlink, add_nodes, add_inf}
use cyclist.ProofTree.Shape.{IsTree}
use cyclist.ProofTree.Additions.{opened, add_backlink-eq, add_backlink-missing, add_inf-eq}
use cyclist.ProofTree.Growth.{Grows, grown-Grows}

module _ ⦃S : Sequents⦄ where
  -- On a node of a tree, `add_inf` fails unless the node is open. On an open node it returns as
  -- many new numbers as there are subgoals; the node becomes the inference with these premises,
  -- each number is bound to an open node with its subgoal and this parent, and nothing else
  -- changes.
  pub add_inf-Grows :
      (p : ProofTree) (idx par : ℕ) (n : Node) (descr : String) (gs : List Subgoal)
      → IsTree p
      → get idx p ≡ some (par, n)
      → (is_open n ≡ false → add_inf idx descr gs p ≡ none)
        × (is_open n ≡ true
            → (q : ProofTree) × (add_inf idx descr gs p ≡ some (range (length p) gs, q))
              × Grows p q idx
                  (inf_node (get_seq n) descr (range (length p) gs) (map (λ (g : Subgoal). g.1) gs))
                  gs)
  add_inf-Grows p idx par n descr gs tree h =
      let e = add_inf-eq idx descr gs p par n tree.counts h in
      (
        λ shut. rw (e, shut) refl,
        λ isopen.
            let new =
              inf_node (get_seq n) descr (range (length p) gs) (map (λ (g : Subgoal). g.1) gs) in
            (
              add_nodes idx (opened (length p) gs) (assign ⦃e = nat_eq⦄ idx (par, new) p),
              rw (e, isopen) refl,
              grown-Grows p idx par n new gs tree.counts h isopen,
            ),
      )

  -- `add_backlink` returns exactly when the node is there and open, the target is there, and the
  -- two sequents are equal up to tags.
  pub add_backlink-returns_iff :
      (idx : ℕ) (descr : String) (target : ℕ) (vtts : TagPairs) (p : ProofTree)
      → ((q : ProofTree) × (add_backlink idx descr target vtts p ≡ some q)) ↔ (
          (x y : ℕ × Node) × (get idx p ≡ some x)
          × (get target p ≡ some y)
          × (is_open x.1 ≡ true)
          × (S.equal_upto_tags (get_seq x.1) (get_seq y.1) ≡ true))
  add_backlink-returns_iff idx descr target vtts p = (
    λ (q, h). elim (Option-cases (get idx p)) [
      | inl missing ↦ cc (h, add_backlink-missing idx descr target vtts p (inl missing))
      | inr (x, found) ↦ elim (Option-cases (get target p)) [
        | inl missing ↦ cc (h, add_backlink-missing idx descr target vtts p (inr missing))
        | inr (y, there) ↦
            let e = add_backlink-eq idx descr target vtts p x.0 y.0 x.1 y.1 found there in
            elim (Bool-cases (is_open x.1 && S.equal_upto_tags (get_seq x.1) (get_seq y.1))) [
              | inl good ↦ (x, y, found, there, ground (arith, good), ground (arith, good))
              | inr bad ↦ ground (arith, e, h, bad)
            ]
      ]
    ],
    λ (x, y, found, there, isopen, alike). (
      assign ⦃e = nat_eq⦄ idx (x.0, back_node (get_seq x.1) descr target vtts) p,
      rw (add_backlink-eq idx descr target vtts p x.0 y.0 x.1 y.1 found there, isopen, alike) refl,
    ),
  )

-- ===== src/ProofTree/Additions.antt =====
-- What the constructors of src/generic/proof.ml return, on every branch.
use Prim.Native.String.{String}
use cyclist.Base.{
  ℕ, zero, suc, some_injective, ◌+◌, ◌<◌, ◌&&◌, none, some, List, [], ◌∷◌, map, ◌≡◌, ◌≢◌, ◌⊎◌, inl,
  inr, refl, sym, ap, ◌∙◌, ◌==◌, ==_iff, Bool-cases, Option-cases, if◌then◌else◌, nat_eq, lookup,
  assign, length, get_elem?, lookup-assign, arith,
}
use cyclist.Minimize.{TagPairs}
use cyclist.ProofTree.Maps.{range}
use cyclist.ProofTree.Counts.{Counts, max_index-Counts, assign-Counts, length-assign_next}
use cyclist.ProofTree.Proofnode.{
  Sequents, map2, Node, axiom_node, inf_node, back_node, get_seq, is_open, mk_open,
}
use cyclist.ProofTree.{
  ProofTree, Subgoal, get, fresh_idx, replace, add_axiom, add_backlink, add_nodes, add_inf,
}

module _ ⦃S : Sequents⦄ where
  -- The open nodes of the subgoals, from the index `k` on.
  abbrev pub opened : ℕ → List Subgoal → List (ℕ × Node)
  opened k [] = []
  opened k (g ∷ gs) = (k, mk_open g.0) ∷ opened (suc k) gs

  map2-range :
      (k : ℕ) (gs : List Subgoal)
      → map2 (λ i (g : Subgoal). (i, mk_open g.0)) (range k gs) gs ≡ some (opened k gs)
  unfolding map2 range
  map2-range k [] = refl
  map2-range k (g ∷ gs) = rw (map2-range (suc k) gs) refl

  pub get-assign_same :
      (i : ℕ) (x : ℕ × Node) (p : ProofTree) → get i (assign ⦃e = nat_eq⦄ i x p) ≡ some x
  get-assign_same i x p = rw (lookup-assign ⦃e = nat_eq⦄ i i x p, (==_iff i i).1 refl) refl

  pub get-assign_other :
      (j i : ℕ) (x : ℕ × Node) (p : ProofTree) → j ≢ i → get j (assign ⦃e = nat_eq⦄ i x p) ≡ get j p
  get-assign_other j i x p other = elim (Bool-cases (j == i)) [
    | inl same ↦ absurd (other ((==_iff j i).0 same))
    | inr differs ↦ rw (lookup-assign ⦃e = nat_eq⦄ j i x p, differs) refl
  ]

  pub get-add_nodes_old :
      (idx k : ℕ) (gs : List Subgoal) (p : ProofTree) (j : ℕ)
      → j < k
      → get j (add_nodes idx (opened k gs) p) ≡ get j p
  unfolding add_nodes
  get-add_nodes_old idx k [] p j low = refl
  get-add_nodes_old idx k (g ∷ gs) p j low =
      get-add_nodes_old idx (suc k) gs _ j (omega arith)
      ∙ get-assign_other j k (idx, mk_open g.0) p (λ e. absurd (omega arith))

  pub get-add_nodes_new :
      (idx k : ℕ) (gs : List Subgoal) (p : ProofTree) (t : ℕ) (g : Subgoal)
      → get_elem? gs t ≡ some g
      → get (k + t) (add_nodes idx (opened k gs) p) ≡ some (idx, mk_open g.0)
  unfolding add_nodes
  get-add_nodes_new idx k [] p t g h = cc
  get-add_nodes_new idx k (g' ∷ gs) p zero g h =
      let here : k + 0 ≡ k = omega arith in
      rw (here, some_injective (sym h))
        (get-add_nodes_old idx (suc k) gs _ k (omega arith)
          ∙ get-assign_same k (idx, mk_open g'.0) p)
  get-add_nodes_new idx k (g' ∷ gs) p (suc t) g h =
      let next : k + suc t ≡ suc k + t = omega arith in
      rw next (get-add_nodes_new idx (suc k) gs _ t g h)

  pub add_nodes-Counts :
      (idx k : ℕ) (gs : List Subgoal) (p : ProofTree)
      → Counts 0 p
      → k ≡ length p
      → Counts 0 (add_nodes idx (opened k gs) p)
        × (length (add_nodes idx (opened k gs) p) ≡ k + length gs)
  unfolding add_nodes
  add_nodes-Counts idx k [] p c e = (c, omega arith)
  add_nodes-Counts idx k (g ∷ gs) p c e =
      let more = length-assign_next 0 p k (idx, mk_open g.0) c (omega arith) in
      let (c', e') =
        add_nodes-Counts idx (suc k) gs (assign ⦃e = nat_eq⦄ k (idx, mk_open g.0) p)
          (assign-Counts 0 p k _ c (omega arith) (omega arith)) (omega arith) in
      (c', omega arith)

  pub add_axiom-eq :
      (idx : ℕ) (descr : String) (p : ProofTree) (par : ℕ) (n : Node)
      → get idx p ≡ some (par, n)
      → add_axiom idx descr p ≡ (
          if is_open n
          then some (assign ⦃e = nat_eq⦄ idx (par, axiom_node (get_seq n) descr) p)
          else none)
  unfolding add_axiom replace
  add_axiom-eq idx descr p par n h = elim (Bool-cases (is_open n)) [
    | inl isopen ↦ rw (h, isopen, S.equal_refl (get_seq n)) refl
    | inr shut ↦ rw (h, shut) refl
  ]

  pub add_backlink-eq :
      (idx : ℕ) (descr : String) (target : ℕ) (vtts : TagPairs) (p : ProofTree) (par par' : ℕ)
      (n n' : Node)
      → get idx p ≡ some (par, n)
      → get target p ≡ some (par', n')
      → add_backlink idx descr target vtts p ≡ (
          if is_open n && S.equal_upto_tags (get_seq n) (get_seq n')
          then some (assign ⦃e = nat_eq⦄ idx (par, back_node (get_seq n) descr target vtts) p)
          else none)
  unfolding add_backlink replace
  add_backlink-eq idx descr target vtts p par par' n n' h h' = elim (Bool-cases (is_open n)) [
    | inl isopen ↦ elim (Bool-cases (S.equal_upto_tags (get_seq n) (get_seq n'))) [
      | inl same ↦ rw (h, h', isopen, S.equal_refl (get_seq n), same) refl
      | inr other ↦ rw (h, h', isopen, S.equal_refl (get_seq n), other) refl
    ]
    | inr shut ↦ rw (h, h', shut) refl
  ]

  fresh_idx-Counts :
      (p : ProofTree) (x : ℕ × Node) (i : ℕ)
      → Counts 0 p
      → get i p ≡ some x
      → fresh_idx p ≡ some (length p)
  unfolding fresh_idx lookup
  fresh_idx-Counts [] x i c h = cc
  fresh_idx-Counts (y ∷ p) x i c h =
      rw (max_index-Counts 0 y p c) (ap (λ (k : ℕ). some k) (omega arith))

  pub add_inf-eq :
      (idx : ℕ) (descr : String) (gs : List Subgoal) (p : ProofTree) (par : ℕ) (n : Node)
      → Counts 0 p
      → get idx p ≡ some (par, n)
      → add_inf idx descr gs p ≡ (
          let subidxs = range (length p) gs in
          let n' = inf_node (get_seq n) descr subidxs (map (λ (g : Subgoal). g.1) gs) in
          if is_open n
          then some
              (subidxs, add_nodes idx (opened (length p) gs) (assign ⦃e = nat_eq⦄ idx (par, n') p))
          else none)
  unfolding add_inf replace
  add_inf-eq idx descr gs p par n c h = elim (Bool-cases (is_open n)) [
    | inl isopen ↦
        rw
          (
            fresh_idx-Counts p (par, n) idx c h,
            map2-range (length p) gs,
            h,
            isopen,
            S.equal_refl (get_seq n),
          )
          refl
    | inr shut ↦ rw (fresh_idx-Counts p (par, n) idx c h, map2-range (length p) gs, h, shut) refl
  ]

  pub add_axiom-missing :
      (idx : ℕ) (descr : String) (p : ProofTree) → get idx p ≡ none → add_axiom idx descr p ≡ none
  unfolding add_axiom
  add_axiom-missing idx descr p h = rw h refl

  pub add_backlink-missing :
      (idx : ℕ) (descr : String) (target : ℕ) (vtts : TagPairs) (p : ProofTree)
      → (get idx p ≡ none) ⊎ (get target p ≡ none)
      → add_backlink idx descr target vtts p ≡ none
  unfolding add_backlink
  add_backlink-missing idx descr target vtts p (inl h) = rw h refl
  add_backlink-missing idx descr target vtts p (inr h) = elim (Option-cases (get idx p)) [
    | inl missing ↦ rw missing refl
    | inr ((par, n), found) ↦ elim (Bool-cases (is_open n)) [
      | inl isopen ↦ rw (found, h, isopen, S.equal_refl (get_seq n)) refl
      | inr shut ↦ rw (found, h, shut) refl
    ]
  ]

  pub add_inf-missing :
      (idx : ℕ) (descr : String) (gs : List Subgoal) (p : ProofTree)
      → get idx p ≡ none
      → add_inf idx descr gs p ≡ none
  unfolding add_inf
  add_inf-missing idx descr gs p h = elim (Option-cases (fresh_idx p)) [
    | inl empty ↦ rw empty refl
    | inr (k, fresh) ↦ rw (fresh, map2-range k gs, h) refl
  ]

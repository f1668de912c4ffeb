-- ===== src/ProofTree/Growth/Keeps.antt =====
-- A tree that grows stays a tree (src/generic/proof.ml).
use cyclist.Base.{
  ℕ, ◌+◌, ◌-◌, ◌≤◌, ◌<◌, true, false, some, List, [], Memᴰ, ◌≡◌, ◌≢◌, ◌⊎◌, inl, inr, sym, ap, ◌∙◌,
  subst, ◌==◌, ==_iff, Bool-cases, nat_eq, length, arith, ltb,
}
use mathlib.Core.List.Memᴰ
use cyclist.ProofTree.Maps.{range}
use cyclist.ProofTree.Counts.{Counts-get, mem-range}
use cyclist.ProofTree.Proofnode.{Sequents, Node, get_succs, is_inf, mk_open}
use cyclist.ProofTree.{ProofTree, Subgoal, get}
use cyclist.ProofTree.Shape.{IsNumbered, IsParent, IsTree}
use cyclist.ProofTree.Growth.{Grows, get-below, open-no_inference, same_binding, elem}

module _ ⦃S : Sequents⦄ where
  -- The new node is no inference, or one with the new nodes as its premises.
  abbrev pub Places : ProofTree → Node → List Subgoal → Type 0
  Places p new gs =
      ((is_inf new ≡ true) × (get_succs new ≡ range (length p) gs))
      ⊎ ((is_inf new ≡ false) × (gs ≡ []) × ((j : ℕ) → Memᴰ j (get_succs new) → j < length p))

  module _ (p q : ProofTree) (idx : ℕ) (new : Node) (gs : List Subgoal) (tree : IsTree p)
      (g : Grows p q idx new gs) (places : Places p new gs) (numbered : IsNumbered new) where
    -- A node of the new tree: the one that changed, an old one, or a subgoal.
    pub data Kind (j par : ℕ) (n : Node) : Type 0 where
      changed : j ≡ idx → par ≡ g.parent → n ≡ new → Kind j par n
      kept : j ≢ idx → j < length p → get j p ≡ some (par, n) → Kind j par n
      added : (s : S.Seq) → length p ≤ j → par ≡ idx → n ≡ mk_open s → Kind j par n

    idx_below : idx < length p
    idx_below = get-below p idx (g.parent, g.old) tree.counts g.bound

    pub kind : (j par : ℕ) (n : Node) → get j q ≡ some (par, n) → Kind j par n
    kind j par n h = elim (Bool-cases (j == idx)) [
      | inl same ↦
          let e = (==_iff j idx).0 same in
          let pair = same_binding q j idx (par, n) (g.parent, new) e h g.here in
          changed e (ap (λ (x : ℕ × Node). x.0) pair) (ap (λ (x : ℕ × Node). x.1) pair)
      | inr differs ↦
          let other : j ≢ idx = λ e. cc (differs, (==_iff j idx).1 e) in
          elim (Bool-cases (ltb j (length p))) [
            | inl old ↦
                let below : j < length p = ground (arith, old) in
                kept other below (sym (g.rest j below other) ∙ h)
            | inr more ↦
                let above : length p ≤ j = ground (arith, more) in
                let size = g.size in
                let high = get-below q j (par, n) g.counts h in
                let (x, e) = elem gs (j - length p) (omega arith) in
                let at_j : length p + (j - length p) ≡ j = omega arith in
                let pair =
                  same_binding q j (length p + (j - length p)) (par, n) (idx, mk_open x.0)
                    (sym at_j) h (g.opens (j - length p) x e) in
                added x.0 above (ap (λ (x : ℕ × Node). x.0) pair) (ap (λ (x : ℕ × Node). x.1) pair)
          ]
    ]

    is_there : (j : ℕ) → j < length q → (x : ℕ × Node) × (get j q ≡ some x)
    is_there j h = Counts-get 0 q j g.counts (omega arith) (omega arith)

    -- A parent stays one: the open node was none.
    IsParent-kept : (par j : ℕ) → IsParent p par j → IsParent q par j
    IsParent-kept par j up =
        let other : par ≢ idx = λ e.
          let pair =
            same_binding p par idx (up.grandparent, up.node) (g.parent, g.old) e up.bound g.bound in
          open-no_inference g.old g.was_open (
            subst (λ (m : Node). is_inf m ≡ true) (ap (λ (x : ℕ × Node). x.1) pair) up.inference) in
        let below = get-below p par (up.grandparent, up.node) tree.counts up.bound in
        record {
          below = up.below;
          grandparent = up.grandparent;
          node = up.node;
          bound = g.rest par below other ∙ up.bound;
          inference = up.inference;
          premise = up.premise;
        }

    grown-IsParent :
        (j par : ℕ) (n : Node) → get j q ≡ some (par, n) → ((j ≡ 0) × (par ≡ 0)) ⊎ IsParent q par j
    grown-IsParent j par n h = elim (kind j par n h) [
      | changed same up e ↦ elim (tree.parent idx g.parent g.old g.bound) [
        | inl (a, b) ↦ inl (same ∙ a, up ∙ b)
        | inr above ↦ inr (rw (same, up) (IsParent-kept g.parent idx above))
      ]
      | kept other below was ↦ elim (tree.parent j par n was) [
        | inl root ↦ inl root
        | inr above ↦ inr (IsParent-kept par j above)
      ]
      | added s above up e ↦ elim places [
        | inl (isinf, succs) ↦
            let size = g.size in
            let low = idx_below in
            let high = get-below q j (par, n) g.counts h in
            inr (record {
              below = omega arith;
              grandparent = g.parent;
              node = new;
              bound = rw up g.here;
              inference = isinf;
              premise = rw succs ((mem-range (length p) gs j).1 (above, omega arith));
            })
        | inr (_, nothing, _) ↦
            let size = g.size in
            let high = get-below q j (par, n) g.counts h in
            let zero_more = ap (λ (xs : List Subgoal). length xs) nothing in absurd (omega arith)
      ]
    ]

    -- An old node keeps its parent.
    kept_parent :
        (j par' : ℕ) (n' : Node)
        → get j p ≡ some (par', n')
        → (m : Node) × (get j q ≡ some (par', m))
    kept_parent j par' n' h = elim (Bool-cases (j == idx)) [
      | inl same ↦
          let e = (==_iff j idx).0 same in
          let pair = same_binding p j idx (par', n') (g.parent, g.old) e h g.bound in
          (new, rw (e, ap (λ (x : ℕ × Node). x.0) pair) g.here)
      | inr differs ↦
          let other : j ≢ idx = λ e. cc (differs, (==_iff j idx).1 e) in
          (n', g.rest j (get-below p j (par', n') tree.counts h) other ∙ h)
    ]

    grown_succ :
        (i par : ℕ) (n : Node) (j : ℕ)
        → get i q ≡ some (par, n)
        → Memᴰ j (get_succs n)
        → (par' : ℕ) × (n' : Node) × (get j q ≡ some (par', n'))
          × (is_inf n ≡ true → (par' ≡ i) × (i < j))
    grown_succ i par n j h m = elim (kind i par n h) [
      | changed same up e ↦
          let m' = subst (λ (x : Node). Memᴰ j (get_succs x)) e m in
          elim places [
            | inl (isinf, succs) ↦
                let (low, high) =
                  (mem-range (length p) gs j).0 (subst (λ (js : List ℕ). Memᴰ j js) succs m') in
                let (x, at_x) = elem gs (j - length p) (omega arith) in
                let at_j : length p + (j - length p) ≡ j = omega arith in
                let below = idx_below in
                (
                  idx,
                  mk_open x.0,
                  ap (λ (l : ℕ). get l q) (sym at_j) ∙ g.opens (j - length p) x at_x,
                  λ _. (sym same, omega arith),
                )
            | inr (notinf, _, low) ↦
                let ((par', n'), found) =
                  Counts-get 0 p j tree.counts (omega arith)
                    (let below = low j m' in omega arith) in
                let (k, found') = kept_parent j par' n' found in
                (
                  par',
                  k,
                  found',
                  λ isinf. cc (notinf, subst (λ (x : Node). is_inf x ≡ true) e isinf),
                )
          ]
      | kept other below was ↦
          let (par', n', found, fits) = tree.succ i par n j was m in
          let (k, found') = kept_parent j par' n' found in (par', k, found', fits)
      | added s above up e ↦ absurd (Memᴰ.not-nil (subst (λ (x : Node). Memᴰ j (get_succs x)) e m))
    ]

    grown-IsNumbered : (i par : ℕ) (n : Node) → get i q ≡ some (par, n) → IsNumbered n
    grown-IsNumbered i par n h = elim (kind i par n h) [
      | changed same up e ↦ subst IsNumbered (sym e) numbered
      | kept other below was ↦ tree.numbered i par n was
      | added s above up e ↦ subst IsNumbered (sym e) tt
    ]

    grown_root : (n : Node) × (get 0 q ≡ some (0, n))
    grown_root = let (n, h) = tree.root in kept_parent 0 0 n h

    pub Grows-IsTree : IsTree q
    Grows-IsTree = record {
      counts = g.counts;
      root = grown_root;
      parent = grown-IsParent;
      succ = grown_succ;
      numbered = grown-IsNumbered;
    }

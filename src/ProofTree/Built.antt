-- ===== src/ProofTree/Built.antt =====
-- The proofs that calls of src/generic/proof.ml build.
use cyclist.Base.{
  ℕ, suc, ◌<◌, Bool, true, false, ◌&&◌, Option, none, some, List, [], ◌∷◌, Memᴰ, map, ◌≡◌, inl, inr,
  refl, sym, ap, ◌∙◌, subst, Option-cases, if◌then◌else◌, nat_eq, some_injective, lookup, assign,
  length, arith,
}
use mathlib.Core.List.Memᴰ
use cyclist.Minimize.{TagPairs}
use cyclist.ProofTree.Maps.{range}
use cyclist.ProofTree.Counts.{Counts-found, mem-get}
use cyclist.ProofTree.Proofnode.{
  Sequents, Node, axiom_node, inf_node, back_node, get_seq, get_succs, is_open, is_inf, mk_open,
}
use cyclist.ProofTree.{ProofTree, Subgoal, get, mk, add_nodes}
use cyclist.Base.{Memᴰ, suc}
use cyclist.Soundcheck.{Premise}
use cyclist.ProofTree.Shape.{IsNumbered, IsTree}
use cyclist.ProofTree.Additions.{
  add_axiom-eq, add_backlink-eq, add_inf-eq, add_axiom-missing, add_backlink-missing,
  add_inf-missing,
}
use cyclist.ProofTree.Growth.{Grows, grown-Grows}
use cyclist.ProofTree.Growth.Keeps.{Grows-IsTree}
use cyclist.ProofTree.Calls.{
  Call, closes, links, infers, Built, made, called, CallFits, PremiseFits, Grown, NodeFits,
  premise-subgoal,
}

module _ ⦃S : Sequents⦄ where
  range-map : {A B : Type 0} (f : A → B) (k : ℕ) (xs : List A) → range k xs ≡ range k (map f xs)
  unfolding range
  range-map f k [] = refl
  range-map f k (x ∷ xs) = ap (λ (is : List ℕ). k ∷ is) (range-map f (suc k) xs)

  guarded :
      {A : Type 0} (b : Bool) (x : A) {y : A} {o : Option A}
      → o ≡ some y
      → o ≡ (if b then some x else none)
      → (b ≡ true) × (x ≡ y)
  guarded true x h e = (refl, some_injective (sym e ∙ h))
  guarded false x h e = cc

  -- A node that is no inference, in the place of an open one.
  leaf-Grown :
      (p q : ProofTree) (idx par : ℕ) (old new : Node)
      → IsTree p
      → get idx p ≡ some (par, old)
      → is_open old ≡ true
      → is_inf new ≡ false
      → ((j : ℕ) → Memᴰ j (get_succs new) → j < length p)
      → (numbered : IsNumbered new) → assign ⦃e = nat_eq⦄ idx (par, new) p ≡ q
      → get_seq new ≡ get_seq old
      → (fit : Type 0) → (fit → NodeFits p new [] numbered)
      → Grown p q fit
  unfolding add_nodes
  leaf-Grown p q idx par old new tree found isopen leaf low numbered result same fit fits = (
    idx,
    new,
    [],
    subst (λ (r : ProofTree). Grows p r idx new []) result
        (grown-Grows p idx par old new [] tree.counts found isopen),
    inr (leaf, refl, low),
    numbered,
    ((par, old), found, same),
    fits,
  )

  pub Call-Grown : (p q : ProofTree) → IsTree p → (c : Call p q) → Grown p q (CallFits p q c)
  Call-Grown p q tree (closes idx descr h) = elim (Option-cases (get idx p)) [
    | inl missing ↦ cc (h, add_axiom-missing idx descr p missing)
    | inr ((par, n), found) ↦
        let (isopen, result) = guarded (is_open n) _ h (add_axiom-eq idx descr p par n found) in
        leaf-Grown p q idx par n (axiom_node (get_seq n) descr) tree found isopen refl
          (λ j m. absurd (Memᴰ.not-nil m)) tt result refl (Unit {0})
          (λ fit s m. absurd (Memᴰ.not-nil m))
  ]
  Call-Grown p q tree (links idx descr target vtts h) = elim (Option-cases (get idx p)) [
    | inl missing ↦ cc (h, add_backlink-missing idx descr target vtts p (inl missing))
    | inr ((par, n), found) ↦ elim (Option-cases (get target p)) [
      | inl missing ↦ cc (h, add_backlink-missing idx descr target vtts p (inr missing))
      | inr ((par', n'), there) ↦
          let (tests, result) =
            guarded (is_open n && S.equal_upto_tags (get_seq n) (get_seq n')) _ h
              (add_backlink-eq idx descr target vtts p par par' n n' found there) in
          let low = (Counts-found 0 p target (par', n') tree.counts there).1 in
          leaf-Grown p q idx par n (back_node (get_seq n) descr target vtts) tree found
            (ground (arith, tests)) refl (λ j m. let same = Memᴰ.eq_of_singleton m in omega arith)
            tt result refl (CallFits p q (links idx descr target vtts h))
            (λ fit s m.
              let here = Memᴰ.eq_of_singleton m in
              subst (λ (x : Premise). PremiseFits p (back_node (get_seq n) descr target vtts) [] x)
                (sym here)
                (record {
                  progress_in = λ x k. absurd (Memᴰ.not-nil k);
                  source = λ k l q. (fit (par, n) (par', n') found there k l q).0;
                  target =
                      inl
                        ((par', n'), there, λ k l q. (fit (par, n) (par', n') found there k l q).1);
                }))
    ]
  ]
  Call-Grown p q tree (infers idx descr gs subidxs h) = elim (Option-cases (get idx p)) [
    | inl missing ↦ cc (h, add_inf-missing idx descr gs p missing)
    | inr ((par, n), found) ↦
        let (isopen, result) =
          guarded (is_open n) _ h (add_inf-eq idx descr gs p par n tree.counts found) in
        let pairs = map (λ (g : Subgoal). g.1) gs in
        let new = inf_node (get_seq n) descr (range (length p) gs) pairs in
        (
          idx,
          new,
          gs,
          subst (λ (r : ProofTree). Grows p r idx new gs)
              (ap (λ (r : List ℕ × ProofTree). r.1) result)
              (grown-Grows p idx par n new gs tree.counts found isopen),
          inl (refl, refl),
          (length p, range-map (λ (g : Subgoal). g.1) (length p) gs),
          ((par, n), found, refl),
          λ fit s m.
              let (t, g, e, k, number, pairs_eq, progress_eq) = premise-subgoal gs (length p) s m in
              let fits = fit (par, n) found g k in
              record {
                progress_in = λ x q.
                    subst (λ (ps : TagPairs). Memᴰ x ps) (sym pairs_eq)
                      (fits.progress_in x (subst (λ (ps : TagPairs). Memᴰ x ps) progress_eq q));
                source = λ i l q.
                    (fits.inside i l (subst (λ (ps : TagPairs). Memᴰ (i, l) ps) pairs_eq q)).0;
                target = inr (
                  t,
                  g,
                  e,
                  number,
                  λ i l q.
                      (fits.inside i l (subst (λ (ps : TagPairs). Memᴰ (i, l) ps) pairs_eq q)).1,
                );
              },
        )
  ]

  Call-IsTree : (p q : ProofTree) → IsTree p → Call p q → IsTree q
  Call-IsTree p q tree call =
      let (idx, new, gs, grows, places, numbered, _, _) = Call-Grown p q tree call in
      Grows-IsTree p q idx new gs tree grows places numbered

  mk-IsTree : (seq : S.Seq) → IsTree (mk seq)
  unfolding mk lookup
  mk-IsTree seq =
      let only = λ (i par : ℕ) (n : Node) (h : get i (mk seq) ≡ some (par, n)).
        Memᴰ.eq_of_singleton (mem-get (mk seq) i (par, n) h) in
      record {
        counts = (refl, tt);
        root = (mk_open seq, refl);
        parent = λ i par n h. inl (
          ap (λ (x : ℕ × (ℕ × Node)). x.0) (only i par n h),
          ap (λ (x : ℕ × (ℕ × Node)). x.1.0) (only i par n h),
        );
        succ = λ i par n j h m. absurd (
            Memᴰ.not-nil (
              subst (λ (x : Node). Memᴰ j (get_succs x))
                (ap (λ (x : ℕ × (ℕ × Node)). x.1.1) (only i par n h)) m));
        numbered = λ i par n h.
            subst IsNumbered (sym (ap (λ (x : ℕ × (ℕ × Node)). x.1.1) (only i par n h))) tt;
      }

  -- Every proof that calls of its constructors build has the numbers from 0 on as its nodes and 0
  -- as its root. Each other node is a premise of its parent, an inference with a smaller number;
  -- what a node leads to is a node; and the premises of an inference have successive greater
  -- numbers, one for each of its tag pairs, and the inference as their parent.
  pub Built-IsTree : (p : ProofTree) → Built p → IsTree p
  Built-IsTree p (made seq e) = rw e (mk-IsTree seq)
  Built-IsTree p (called {p = before} b c) = Call-IsTree before p (Built-IsTree before b) c

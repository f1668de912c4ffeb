-- ===== src/ProofTree/Closed.antt =====
-- `is_closed_at` of src/generic/proof.ml, from the root and from other nodes.
use cyclist.Base.{
  ℕ, zero, suc, ◌+◌, ◌≤◌, Bool, true, false, not, Option, some, List, [], ◌∷◌, Memᴰ, ◌≡◌, inl, inr,
  refl, sym, ap, ◌∙◌, subst, Bool-cases, Option-cases, nat_eq, ◌>>=◌, length, arith,
}
use mathlib.Core.List.Memᴰ
use cyclist.Soundcheck.Valid.{for_all-at}
use cyclist.Soundcheck.Accepted.{for_all-intro}
use cyclist.ProofTree.Maps.{all_true}
use cyclist.ProofTree.Counts.{Counts-found, mem-Counts, mem-get}
use cyclist.ProofTree.Proofnode.{
  Sequents, Node, open_node, axiom_node, inf_node, back_node, get_succs, is_open, is_inf,
}
use cyclist.ProofTree.{ProofTree, get, is_closed, is_closed_at}
use cyclist.ProofTree.Shape.{IsTree}

-- A test that returns on all elements, and answers true where `C` holds.
all_true-returns {ℓ} :
    {A : Type ℓ} (C : Type 0) (f : A → Option Bool) (xs : List A)
    → ((x : A) → Memᴰ x xs → (b : Bool) × (f x ≡ some b) × (C → b ≡ true))
    → (b : Bool) × (all_true f xs ≡ some b) × (C → b ≡ true)
unfolding all_true
all_true-returns C f [] h = (true, refl, λ _. refl)
all_true-returns C f (x ∷ xs) h =
    let (b, first, says_yes) = h x (Memᴰ.head refl) in
    let (b', rest, says_yes') = all_true-returns C f xs (λ y m. h y (Memᴰ.tail m)) in
    elim (Bool-cases b) [
      | inl good ↦ (b', rw (first, good) rest, says_yes')
      | inr bad ↦ (false, rw (first, bad) refl, λ c. sym bad ∙ says_yes c)
    ]

all_true-at {ℓ} :
    {A : Type ℓ} (f : A → Option Bool) (xs : List A) (x : A)
    → all_true f xs ≡ some true
    → Memᴰ x xs
    → f x ≡ some true
unfolding all_true
all_true-at f [] x h m = absurd (Memᴰ.not-nil m)
all_true-at f (y ∷ xs) x h m = elim (Option-cases (f y)) [
  | inl fails ↦ ground (arith, fails)
  | inr (b, first) ↦ elim (Bool-cases b) [
    | inl good ↦ elim (Memᴰ.cases_cons m) [
      | inl here ↦ ap f here ∙ first ∙ ap (λ (c : Bool). some c) good
      | inr later ↦ all_true-at f xs x (ground (arith, first, good)) later
    ]
    | inr bad ↦ ground (arith, first, bad)
  ]
]

module _ ⦃S : Sequents⦄ (p : ProofTree) (tree : IsTree p) where
  closed_node :
      (i par : ℕ) (n : Node) → is_closed p ≡ true → get i p ≡ some (par, n) → is_open n ≡ false
  unfolding is_closed
  closed_node i par n c h =
      let e =
        for_all-at (λ (x : ℕ × (ℕ × Node)). not (is_open x.1.1)) p (i, (par, n)) c
          (mem-get p i (par, n) h) in
      ground (arith, e)

  returns :
      (fuel i par : ℕ) (n : Node)
      → get i p ≡ some (par, n)
      → length p ≤ fuel + i
      → (b : Bool) × (is_closed_at fuel p i ≡ some b) × (is_closed p ≡ true → b ≡ true)
  unfolding is_closed_at
  returns zero i par n h enough =
      let below = (Counts-found 0 p i (par, n) tree.counts h).1 in absurd (omega arith)
  returns (suc fuel) i par (open_node seq descr) h enough =
      (false, rw h refl, λ c. sym (closed_node i par _ c h))
  returns (suc fuel) i par (axiom_node seq descr) h enough = (true, rw h refl, λ c. refl)
  returns (suc fuel) i par (back_node seq descr succ tagpairs) h enough =
      (true, rw h refl, λ c. refl)
  returns (suc fuel) i par (inf_node seq descr succs tagpairs2) h enough =
      let (b, e, says_yes) =
        all_true-returns (is_closed p ≡ true) (is_closed_at fuel p) succs (λ j m.
          let (par', n', found, above) = tree.succ i par _ j h m in
          let later = (above refl).1 in returns fuel j par' n' found (omega arith)) in
      (b, rw h e, says_yes)

  premise-closed :
      (fuel par gp : ℕ) (m : Node) (j : ℕ)
      → get par p ≡ some (gp, m)
      → is_inf m ≡ true
      → Memᴰ j (get_succs m)
      → is_closed_at fuel p par ≡ some true
      → (fuel' : ℕ) × (is_closed_at fuel' p j ≡ some true)
  unfolding is_closed_at
  premise-closed zero par gp m j h isinf k e = cc
  premise-closed (suc fuel) par gp (open_node seq descr) j h isinf k e = cc
  premise-closed (suc fuel) par gp (axiom_node seq descr) j h isinf k e = cc
  premise-closed (suc fuel) par gp (back_node seq descr succ tagpairs) j h isinf k e = cc
  premise-closed (suc fuel) par gp (inf_node seq descr succs tagpairs2) j h isinf k e =
      let all =
        subst
          (λ (o : Option (ℕ × Node)).
            (o >>= (λ x. some x.1) >>= λ n. elim n [
              | axiom_node a b ↦ some true
              | open_node a b ↦ some false
              | back_node a b c d ↦ some true
              | inf_node a b c d ↦ all_true (is_closed_at fuel p) c
            ])
            ≡ some true)
          h e in
      (fuel, all_true-at (is_closed_at fuel p) succs j all k)

  -- What is closed from the root on is closed from each node on.
  descends :
      (fuel : ℕ)
      → is_closed_at fuel p 0 ≡ some true
      → (bound j par : ℕ) (n : Node) → j ≤ bound
      → get j p ≡ some (par, n)
      → (fuel' : ℕ) × (is_closed_at fuel' p j ≡ some true)
  descends fuel h zero j par n low found = let e : j ≡ 0 = omega arith in (fuel, rw e h)
  descends fuel h (suc bound) j par n low found = elim (tree.parent j par n found) [
    | inl (e, _) ↦ (fuel, rw e h)
    | inr up ↦
        let below = up.below in
        let (f, e) = descends fuel h bound par up.grandparent up.node (omega arith) up.bound in
        premise-closed f par up.grandparent up.node j up.bound up.inference up.premise e
  ]

  shut :
      (fuel j par : ℕ) (n : Node)
      → get j p ≡ some (par, n)
      → is_closed_at fuel p j ≡ some true
      → not (is_open n) ≡ true
  unfolding is_closed_at
  shut zero j par n h e = cc
  shut (suc fuel) j par (open_node seq descr) h e = cc (e, open_false)
    where
      open_false : is_closed_at (suc fuel) p j ≡ some false
      open_false = rw h refl
  shut (suc fuel) j par (axiom_node seq descr) h e = refl
  shut (suc fuel) j par (inf_node seq descr succs tagpairs2) h e = refl
  shut (suc fuel) j par (back_node seq descr succ tagpairs) h e = refl

  all_closed : (fuel : ℕ) → is_closed_at fuel p 0 ≡ some true → is_closed p ≡ true
  unfolding is_closed
  all_closed fuel h =
      for_all-intro (λ (x : ℕ × (ℕ × Node)). not (is_open x.1.1)) p
        (λ (j, (par, n)) m.
          let found = (mem-Counts 0 p j (par, n) tree.counts m).1 in
          let (f, e) = descends fuel h j j par n (omega arith) found in shut f j par n found e)

  -- On a tree, and with as much fuel as it has nodes, `is_closed_at` from the root returns, and
  -- answers what `is_closed` answers.
  pub is_closed_at-root : (fuel : ℕ) → length p ≤ fuel → is_closed_at fuel p 0 ≡ some (is_closed p)
  is_closed_at-root fuel enough =
      let (n, h) = tree.root in
      let (b, e, says_yes) = returns fuel 0 0 n h (omega arith) in
      elim (Bool-cases (is_closed p)) [
        | inl closed ↦ e ∙ ap (λ (c : Bool). some c) (says_yes closed ∙ sym closed)
        | inr unclosed ↦ elim (Bool-cases b) [
          | inl good ↦ cc (unclosed, all_closed fuel (e ∙ ap (λ (c : Bool). some c) good))
          | inr bad ↦ e ∙ ap (λ (c : Bool). some c) (bad ∙ sym unclosed)
        ]
      ]

-- ===== src/ProofTree/Calls.antt =====
-- The calls of the constructors of src/generic/proof.ml, and the tag pairs they are given.
use Prim.Native.String.{String}
use cyclist.Base.{
  ℕ, suc, some, List, [], ◌∷◌, Memᴰ, map, ◌≡◌, inl, inr, refl, ap, nat_eq, length, arith,
}
use mathlib.Core.List.Memᴰ
use cyclist.Minimize.{TagPairs}
use cyclist.ProofTree.Proofnode.{Sequents, Node, get_seq}
use cyclist.ProofTree.{ProofTree, Subgoal, get, mk, add_axiom, add_backlink, add_inf}
use cyclist.Base.{get_elem?, ◌+◌, ◌⊎◌, Memᴰ, suc}
use cyclist.Proof.{Tag}
use cyclist.Soundcheck.{Premise}
use cyclist.ProofTree.Abstract.{premises, numbered_premises}
use cyclist.ProofTree.Shape.{IsNumbered}
use cyclist.ProofTree.Growth.{Grows}
use cyclist.ProofTree.Growth.Keeps.{Places}

module _ ⦃S : Sequents⦄ where
  -- A call that returns.
  pub data Call (p q : ProofTree) : Type 0 where
    closes : (idx : ℕ) (descr : String) → add_axiom idx descr p ≡ some q → Call p q
    links :
        (idx : ℕ) (descr : String) (target : ℕ) (vtts : TagPairs)
        → add_backlink idx descr target vtts p ≡ some q
        → Call p q
    infers :
        (idx : ℕ) (descr : String) (gs : List Subgoal) (subidxs : List ℕ)
        → add_inf idx descr gs p ≡ some (subidxs, q)
        → Call p q

  pub data Built : ProofTree → Type 0 where
    made : {p : ProofTree} (seq : S.Seq) → p ≡ mk seq → Built p
    called : {p q : ProofTree} → Built p → Call p q → Built q

  -- The pairs of a subgoal, for the inference of a node.
  pub record SubgoalFits (n : Node) (g : Subgoal) : Type 0 where
    pub progress_in : (x : Tag × Tag) → Memᴰ x g.1.1 → Memᴰ x g.1.0
    pub inside : (k l : Tag) → Memᴰ (k, l) g.1.0 → Memᴰ k (S.tags (get_seq n)) × Memᴰ l (S.tags g.0)

  -- What a rule gives a constructor: pairs between the tags of the two sequents, and the
  -- progressing ones among the valid ones.
  abbrev pub CallFits : (p q : ProofTree) → Call p q → Type 0
  CallFits p q (closes idx descr h) = Unit {0}
  CallFits p q (links idx descr target vtts h) =
      (x y : ℕ × Node)
      → get idx p ≡ some x
      → get target p ≡ some y
      → (k l : Tag) → Memᴰ (k, l) vtts
      → Memᴰ k (S.tags (get_seq x.1)) × Memᴰ l (S.tags (get_seq y.1))
  CallFits p q (infers idx descr gs subidxs h) =
      (x : ℕ × Node) → get idx p ≡ some x → (g : Subgoal) → Memᴰ g gs → SubgoalFits x.1 g

  -- The pairs of a new premise, whose other end is an old node or a subgoal.
  pub record PremiseFits (p : ProofTree) (new : Node) (gs : List Subgoal) (s : Premise)
      : Type 0 where
    pub progress_in : (x : Tag × Tag) → Memᴰ x s.progress → Memᴰ x s.tag_pairs
    pub source : (k l : Tag) → Memᴰ (k, l) s.tag_pairs → Memᴰ k (S.tags (get_seq new))
    pub target :
        ((y : ℕ × Node) × (get s.child p ≡ some y)
          × ((k l : Tag) → Memᴰ (k, l) s.tag_pairs → Memᴰ l (S.tags (get_seq y.1))))
        ⊎ ((t : ℕ) × (g : Subgoal) × (get_elem? gs t ≡ some g)
            × (s.child ≡ length p + t)
            × ((k l : Tag) → Memᴰ (k, l) s.tag_pairs → Memᴰ l (S.tags g.0)))

  abbrev pub NodeFits : ProofTree → (new : Node) → List Subgoal → IsNumbered new → Type 0
  NodeFits p new gs u = (s : Premise) → Memᴰ s (premises new u) → PremiseFits p new gs s

  -- The new node has the sequent of the open one.
  abbrev pub KeepsSequent : ProofTree → ℕ → Node → Type 0
  KeepsSequent p idx new = (x : ℕ × Node) × (get idx p ≡ some x) × (get_seq new ≡ get_seq x.1)

  -- The node and the subgoals that a call adds.
  abbrev pub Grown : (p q : ProofTree) → Type 0 → Type 0
  Grown p q fit =
      (idx : ℕ) × (new : Node) × (gs : List Subgoal) × Grows p q idx new gs
      × Places p new gs
      × (u : IsNumbered new) × KeepsSequent p idx new
      × (fit → NodeFits p new gs u)

  -- The premises of an inference and its subgoals.
  pub premise-subgoal :
      (gs : List Subgoal) (k : ℕ) (s : Premise)
      → Memᴰ s (numbered_premises k (map (λ (g : Subgoal). g.1) gs))
      → (t : ℕ) × (g : Subgoal) × (get_elem? gs t ≡ some g)
        × Memᴰ g gs
        × (s.child ≡ k + t)
        × (s.tag_pairs ≡ g.1.0)
        × (s.progress ≡ g.1.1)
  premise-subgoal [] k s m = absurd (Memᴰ.not-nil m)
  premise-subgoal (g ∷ gs) k s m = elim (Memᴰ.cases_cons m) [
    | inl here ↦
        let number = ap (λ (x : Premise). x.child) here in
        (
          0,
          g,
          refl,
          Memᴰ.head refl,
          omega arith,
          ap (λ (x : Premise). x.tag_pairs) here,
          ap (λ (x : Premise). x.progress) here,
        )
    | inr later ↦
        let (t, h, e, k', number, a, b) = premise-subgoal gs (suc k) s later in
        (suc t, h, e, Memᴰ.tail k', omega arith, a, b)
  ]

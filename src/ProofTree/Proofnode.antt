-- ===== src/ProofTree/Proofnode.antt =====
-- The nodes of a proof (src/generic/proofnode.ml) over the sequents of a logic
-- (src/generic/sequent.mli), and `mk_abs_node` of src/generic/soundcheck.ml.
use Prim.Native.String.{String}
use cyclist.Base.{ℕ, Bool, true, false, Option, none, some, List, [], ◌∷◌, ◌>>=◌, ◌≡◌}
use cyclist.Proof.{Tag}
use cyclist.Soundcheck.{AbstractNode}
use cyclist.Minimize.{TagPairs}

-- The signature of sequents. A sequent is equal to itself.
pub record Sequents : Type 1 where
  pub Seq : Type 0
  pub equal : Seq → Seq → Bool
  pub equal_upto_tags : Seq → Seq → Bool
  pub tags : Seq → List Tag
  pub equal_refl : (s : Seq) → equal s s ≡ true

-- `map2` of lists; `none` is `Invalid_argument`.
unfoldable pub map2 {ℓ κ λ'} :
    {A : Type ℓ} {B : Type κ} {C : Type λ'} → (A → B → C) → List A → List B → Option (List C)
map2 f [] [] = some []
map2 f [] (y ∷ ys) = none
map2 f (x ∷ xs) [] = none
map2 f (x ∷ xs) (y ∷ ys) = map2 f xs ys >>= λ zs. some (f x y ∷ zs)

-- Tags and their pairs are numbers from the start.
unfoldable pub mk_abs_node : List Tag → List ℕ → List (TagPairs × TagPairs) → Option AbstractNode
unfolding map2
mk_abs_node tags succs tps_pair =
    map2 (λ i t. record { child = i; tag_pairs = t.0; progress = t.1 }) succs tps_pair >>= λ subg.
    some (record { tags = tags; subg = subg })

module _ ⦃S : Sequents⦄ where
  pub data Node : Type 0 where
    open_node : S.Seq → String → Node
    axiom_node : S.Seq → String → Node
    inf_node : S.Seq → String → List ℕ → List (TagPairs × TagPairs) → Node
    back_node : S.Seq → String → ℕ → TagPairs → Node

  abbrev pub get_seq : Node → S.Seq
  get_seq (open_node seq descr) = seq
  get_seq (axiom_node seq descr) = seq
  get_seq (inf_node seq descr succs tagpairs2) = seq
  get_seq (back_node seq descr succ tagpairs) = seq

  abbrev pub get_succs : Node → List ℕ
  get_succs (open_node seq descr) = []
  get_succs (axiom_node seq descr) = []
  get_succs (inf_node seq descr succs tagpairs2) = succs
  get_succs (back_node seq descr succ tagpairs) = succ ∷ []

  abbrev pub is_open : Node → Bool
  is_open (open_node seq descr) = true
  is_open n = false

  abbrev pub is_inf : Node → Bool
  is_inf (inf_node seq descr succs tagpairs2) = true
  is_inf n = false

  abbrev pub mk_open : S.Seq → Node
  mk_open seq = open_node seq "(Open)"

  unfoldable pub to_abstract_node : Node → Option AbstractNode
  unfolding mk_abs_node
  to_abstract_node (open_node seq descr) = mk_abs_node (S.tags seq) [] []
  to_abstract_node (axiom_node seq descr) = mk_abs_node (S.tags seq) [] []
  to_abstract_node (inf_node seq descr succs tagpairs2) = mk_abs_node (S.tags seq) succs tagpairs2
  to_abstract_node (back_node seq descr succ tagpairs) =
      mk_abs_node (S.tags seq) (succ ∷ []) ((tagpairs, []) ∷ [])

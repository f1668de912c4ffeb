-- ===== src/Tests/Growing.antt =====
-- A proof with a back-link, built and checked (src/generic/proof.ml).
use cyclist.Base.{
  ℕ, suc, true, false, none, some, List, [], ◌∷◌, map, Memᴰ, ◌≡◌, ◌↔◌, some_injective, refl, sym,
  ap, subst, ◌==◌, ==_iff, arith, lookup, contains, insert, assign, nat_eq, length,
}
use mathlib.Core.List.Memᴰ
use cyclist.Proof.{Tag}
use cyclist.Soundcheck.{AbstractProof, Premise}
use cyclist.Minimize.Blist.{
  exists, find_from, find_index, remove_nth, replace_from, replace_nth, nth,
}
use cyclist.Minimize.Maps.{fold, iter, remove, find_map}
use cyclist.Minimize.{
  extend, compose, union_of_list, in_children, index_of_child, is_single_node, fathers,
  fathers_grandchild, fewer_premises, drop_premise, remove_dead_node, remove_dead_nodes, bypass,
  lead_past, fuse_node, is_fusible, fuse_single_nodes, minimize_abs_proof,
}
use cyclist.Checker.Correct.{Suits, Answers}
use cyclist.ProofTree.Maps.{max_index, range}
use cyclist.ProofTree.Proofnode.{
  Sequents, Node, inf_node, back_node, map2, mk_abs_node, to_abstract_node, get_seq, mk_open,
  is_open,
}
use cyclist.ProofTree.{
  ProofTree, Subgoal, get, mk, fresh_idx, replace, add_backlink, add_nodes, add_inf, get_ancestry,
  is_closed, is_closed_at, abstract_proof, check,
}
use cyclist.ProofTree.Shape.{IsTree}
use cyclist.ProofTree.Growth.{Grows}
use cyclist.ProofTree.Calls.{Built, made, called, infers, links, SubgoalFits}
use cyclist.ProofTree.Built.{Built-IsTree}
use cyclist.ProofTree.Fitting.{BuiltFitting, made_open, obeys, BuiltFitting-HasFittingPairs}
use cyclist.ProofTree.Answers.{add_inf-Grows, add_backlink-returns_iff}
use cyclist.ProofTree.Closed.{is_closed_at-root}
use cyclist.ProofTree.Ancestry.{Descent, get_ancestry-Descent}
use cyclist.ProofTree.Checked.{HasFittingPairs, check-Answers}
use cyclist.Tests.Loop.{formulas}
use cyclist.Tests.{self_loop, self_loop-Decides, spot_yes}
use cyclist.Tests.Shrinking.{fresh, fresh-IsIdle}

-- A sequent is its tag.
instance abbrev tag_sequents : Sequents
tag_sequents = record {
  Seq = ℕ;
  equal = λ s t. s == t;
  equal_upto_tags = λ s t. true;
  tags = λ s. s ∷ [];
  equal_refl = λ s. (==_iff s s).1 refl;
}

abbrev root_only : ProofTree
root_only = (0, (0, mk_open 1)) ∷ []

abbrev subgoal : Subgoal
subgoal = (1, ((1, 1) ∷ [], (1, 1) ∷ []))

abbrev unfolded : Node
unfolded = inf_node 1 "Unfold" (1 ∷ []) (((1, 1) ∷ [], (1, 1) ∷ []) ∷ [])

abbrev one_step : ProofTree
one_step = (0, (0, unfolded)) ∷ (1, (0, mk_open 1)) ∷ []

abbrev cyclic : ProofTree
cyclic = (0, (0, unfolded)) ∷ (1, (0, back_node 1 "Backl" 0 ((1, 1) ∷ []))) ∷ []

one_step-added : add_inf 0 "Unfold" (subgoal ∷ []) root_only ≡ some (1 ∷ [], one_step)
unfolding add_inf replace fresh_idx max_index range map2 add_nodes lookup assign
one_step-added = refl

cyclic-added : add_backlink 1 "Backl" 0 ((1, 1) ∷ []) one_step ≡ some cyclic
unfolding add_backlink replace lookup assign
cyclic-added = refl

root_only-Built : Built root_only
unfolding mk
root_only-Built = made 1 refl

cyclic-Built : Built cyclic
cyclic-Built =
    called (called root_only-Built (infers 0 "Unfold" (subgoal ∷ []) (1 ∷ []) one_step-added))
      (links 1 "Backl" 0 ((1, 1) ∷ []) cyclic-added)

Built-IsTree_example : IsTree cyclic
Built-IsTree_example = Built-IsTree cyclic cyclic-Built

is_closed_at-root_example : is_closed_at 2 cyclic 0 ≡ some (is_closed cyclic)
is_closed_at-root_example =
    is_closed_at-root cyclic (Built-IsTree cyclic cyclic-Built) 2 (omega arith)

get_ancestry-Descent_example :
    (l : List (ℕ × Node)) × (get_ancestry 2 1 cyclic ≡ some l) × Descent cyclic 1 0 l
unfolding lookup
get_ancestry-Descent_example =
    get_ancestry-Descent cyclic (Built-IsTree cyclic cyclic-Built) 1 2 0
      (back_node 1 "Backl" 0 ((1, 1) ∷ [])) (omega arith) refl

add_inf-Grows_example :
    (is_open (mk_open 1) ≡ false → add_inf 0 "Unfold" (subgoal ∷ []) root_only ≡ none)
    × (is_open (mk_open 1) ≡ true
        → (q : ProofTree) × (add_inf 0 "Unfold" (subgoal ∷ []) root_only
            ≡ some (range (length root_only) (subgoal ∷ []), q))
          × Grows root_only q 0
              (inf_node 1 "Unfold"
                (range (length root_only) (subgoal ∷ []))
                (map (λ (g : Subgoal). g.1) (subgoal ∷ [])))
              (subgoal ∷ []))
unfolding lookup
add_inf-Grows_example =
    add_inf-Grows root_only 0 0 (mk_open 1) "Unfold" (subgoal ∷ [])
      (Built-IsTree root_only root_only-Built) refl

add_backlink-returns_iff_example :
    ((q : ProofTree) × (add_backlink 1 "Backl" 0 ((1, 1) ∷ []) one_step ≡ some q)) ↔ (
      (x y : ℕ × Node) × (get 1 one_step ≡ some x)
      × (get 0 one_step ≡ some y)
      × (is_open x.1 ≡ true)
      × (tag_sequents.equal_upto_tags (get_seq x.1) (get_seq y.1) ≡ true))
add_backlink-returns_iff_example = add_backlink-returns_iff 1 "Backl" 0 ((1, 1) ∷ []) one_step

-- The abstract proof has the two nodes, and is shrunk to a loop.
abbrev unfolding_premise : Premise
unfolding_premise = record { child = 1; tag_pairs = (1, 1) ∷ []; progress = (1, 1) ∷ [] }

abbrev link_premise : Premise
link_premise = record { child = 0; tag_pairs = (1, 1) ∷ []; progress = [] }

abbrev two : AbstractProof
two =
    (0, record { tags = 1 ∷ []; subg = unfolding_premise ∷ [] })
    ∷ (1, record { tags = 1 ∷ []; subg = link_premise ∷ [] })
    ∷ []

cyclic-abstract : abstract_proof cyclic ≡ some two
unfolding abstract_proof to_abstract_node mk_abs_node map2
cyclic-abstract = refl

two-minimized : minimize_abs_proof 3 0 two ≡ some self_loop
unfolding minimize_abs_proof remove_dead_nodes remove_dead_node drop_premise fewer_premises
    in_children index_of_child fuse_single_nodes is_fusible is_single_node fathers_grandchild
    fathers fuse_node lead_past bypass compose extend union_of_list exists find_index find_from
    remove_nth replace_nth replace_from nth fold iter remove find_map assign insert contains
two-minimized = refl

two-Suits :
    (a q : AbstractProof)
    → abstract_proof cyclic ≡ some a
    → minimize_abs_proof (suc (length a)) 0 a ≡ some q
    → Suits spot_yes (λ size. 0) 0 q
two-Suits a q made_a e =
    let same_a : a ≡ two = cc (made_a, cyclic-abstract) in
    let same : self_loop ≡ q = cc (
      subst (λ (b : AbstractProof). minimize_abs_proof (suc (length b)) 0 b ≡ some q) same_a e,
      two-minimized,
    ) in
    subst (Suits spot_yes (λ size. 0) 0) same
      (record { keeps = λ T w. (λ x. x, λ x. x); bits = omega arith; decides = self_loop-Decides })

-- Both calls were given pairs that fit.
unfolded-SubgoalFits : SubgoalFits (mk_open 1) subgoal
unfolded-SubgoalFits = record {
  progress_in = λ x m. m;
  inside = λ k l m.
      let here = Memᴰ.eq_of_singleton m in
      (Memᴰ.head (ap (λ (x : Tag × Tag). x.0) here), Memᴰ.head (ap (λ (x : Tag × Tag). x.1) here));
}

cyclic-BuiltFitting : BuiltFitting cyclic
unfolding mk lookup
cyclic-BuiltFitting =
    obeys
      (obeys (made_open 1 refl) (infers 0 "Unfold" (subgoal ∷ []) (1 ∷ []) one_step-added)
        (λ x h g m.
          subst (λ (n : Node). SubgoalFits n g) (ap (λ (y : ℕ × Node). y.1) (some_injective h))
            (subst (λ (e : Subgoal). SubgoalFits (mk_open 1) e) (sym (Memᴰ.eq_of_singleton m))
              unfolded-SubgoalFits)))
      (links 1 "Backl" 0 ((1, 1) ∷ []) cyclic-added)
      (λ x y h h' k l m.
        let (left, right) = unfolded-SubgoalFits.inside k l m in
        (
          subst (λ (n : Node). Memᴰ k (get_seq n ∷ []))
              (ap (λ (z : ℕ × Node). z.1) (some_injective h)) left,
          subst (λ (n : Node). Memᴰ l (get_seq n ∷ []))
              (ap (λ (z : ℕ × Node). z.1) (some_injective h')) right,
        ))

BuiltFitting-HasFittingPairs_example : HasFittingPairs cyclic
BuiltFitting-HasFittingPairs_example = BuiltFitting-HasFittingPairs cyclic cyclic-BuiltFitting

check-Answers_example :
    (a : AbstractProof) × (abstract_proof cyclic ≡ some a)
    × (HasFittingPairs cyclic
        → Answers 0 a (check spot_yes (λ size. 0) (λ x y. false) cyclic fresh))
    × (¬ HasFittingPairs cyclic → check spot_yes (λ size. 0) (λ x y. false) cyclic fresh ≡ none)
check-Answers_example =
    check-Answers spot_yes (λ size. 0) (λ x y. false) (λ x y h. cc) cyclic fresh cyclic-Built
      fresh-IsIdle two-Suits

cyclic-answered :
    (a : AbstractProof) × (abstract_proof cyclic ≡ some a)
    × Answers 0 a (check spot_yes (λ size. 0) (λ x y. false) cyclic fresh)
cyclic-answered =
    let (a, made_a, answers, _) = check-Answers_example in
    (a, made_a, answers (BuiltFitting-HasFittingPairs cyclic cyclic-BuiltFitting))

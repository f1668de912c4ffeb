-- ===== src/Minimize/Loops.antt =====
-- The loops of `minimize_abs_proof` (src/generic/soundcheck.ml) from start to end.
use cyclist.Base.{
  ℕ, zero, suc, ◌≤◌, ◌<◌, Bool, true, false, some, List, [], ◌∷◌, Memᴰ, ◌≡◌, ◌≢◌, ◌↔◌, inl, inr,
  refl, sym, subst, ◌==◌, ==_iff, ◌&&◌, arith, Bool-cases, Option-cases, length, Option,
}
use cyclist.Proof.{Tag}
use cyclist.Soundcheck.{AbstractProof, AbstractNode, Premise}
use cyclist.Soundcheck.Condition.{GlobalTraceCondition}
use cyclist.Soundcheck.Meaning.{IsNode, Edge}
use cyclist.Minimize.Maps.{find_map, remove}
use cyclist.Minimize.{
  is_leaf, is_dead, is_single_node, fathers, fathers_grandchild, is_fusible, remove_dead_nodes,
  fuse_node, fuse_single_nodes, minimize_abs_proof, in_children, bypass, with_subg,
}
use cyclist.Minimize.First.{without_first, map_first}
use cyclist.Minimize.Premises.{leads_to}
use cyclist.Minimize.Bindings.{
  map_premises, mem-map_premises, length-map_premises, length-remove-lt, IsMap-unique,
}
use cyclist.Minimize.Exists.{exists_iff, in_children_iff}
use cyclist.Minimize.Steps.{remove_dead_node-eq, fuse_node-eq}
use cyclist.Minimize.Good.{IsGood, IsKept}
use cyclist.Minimize.Dead.{
  without, without-IsGood, without-GlobalTraceCondition, without-IsKept, kept-other,
}
use cyclist.Minimize.Fuse.{past, IsFusible}
use cyclist.Minimize.Fuse.Paths.{past-GlobalTraceCondition}
use cyclist.Minimize.Fuse.Keeps.{past-IsGood}

find_map-found :
    (f : ℕ → AbstractNode → Bool) (p : AbstractProof) (i : ℕ) (n : AbstractNode)
    → find_map f p ≡ some (i, n)
    → Memᴰ (i, n) p × (f i n ≡ true)
unfolding find_map
find_map-found f [] i n h = cc
find_map-found f ((j, w) ∷ p) i n h = elim (Bool-cases (f j w)) [
  | inl hit ↦
      let e : ◌≡◌ {A = ℕ × AbstractNode} (j, w) (i, n) = ground (arith, hit) in
      (Memᴰ.head (sym e), subst (λ (q : ℕ × AbstractNode). f q.0 q.1 ≡ true) e hit)
  | inr miss ↦ let (m, e) = find_map-found f p i n (ground (arith, miss)) in (Memᴰ.tail m, e)
]

past-shorter :
    (p : AbstractProof) (i : ℕ) (s : Premise) → IsNode p i → suc (length (past i s p)) ≤ length p
past-shorter p i s (n, m) =
    let g = map_first (leads_to i) (bypass s) in
    let there = (mem-map_premises g p i (with_subg n (g n.subg))).1 (n, m, refl) in
    let less = length-remove-lt i (map_premises g p) (_, there) in
    let count = length-map_premises g p in omega arith

-- A shrunk abstract proof is good, and has the global trace condition where the one before has it.
pub record Shrinks (init : ℕ) (p q : AbstractProof) : Type 0 where
  pub good : IsGood q init
  pub condition : GlobalTraceCondition q init ↔ GlobalTraceCondition p init
  pub shorter : length q ≤ length p

Shrinks-trans :
    (init : ℕ) (p q r : AbstractProof) → Shrinks init p q → Shrinks init q r → Shrinks init p r
Shrinks-trans init p q r a b = record {
  good = b.good;
  condition = (λ c. a.condition.0 (b.condition.0 c), λ c. b.condition.1 (a.condition.1 c));
  shorter = let one = a.shorter in let two = b.shorter in omega arith;
}

-- The run of a loop.
abbrev pub Ends : ℕ → AbstractProof → Option AbstractProof → Type 0
Ends init p r = (q : AbstractProof) × (r ≡ some q) × Shrinks init p q

stays : (init : ℕ) (p : AbstractProof) → IsGood p init → Shrinks init p p
stays init p good = record { good = good; condition = (λ c. c, λ c. c); shorter = omega arith }

leaf-node : (n : AbstractNode) → is_leaf n ≡ true → n ≡ record { tags = n.tags; subg = [] }
leaf-node n h = leaf n.tags n.subg h
  where
    leaf :
        (tags : List Tag) (subg : List Premise)
        → is_leaf (record { tags = tags; subg = subg }) ≡ true
        → ◌≡◌ {A = AbstractNode}
            (record { tags = tags; subg = subg })
            (record { tags = tags; subg = [] })
    leaf tags [] h = refl
    leaf tags (s ∷ ss) h = cc

dead_parts : (i : ℕ) (n : AbstractNode) → is_dead i n ≡ true → (i ≢ 0) × (is_leaf n ≡ true)
dead_parts i n h = ((λ e. let same = (==_iff i 0).1 e in ground (arith, same)), ground arith)

pub remove_dead_nodes-Ends :
    (fuel init : ℕ) (p : AbstractProof)
    → IsGood p init
    → IsKept p init
    → length p < fuel
    → Ends init p (remove_dead_nodes fuel p)
unfolding remove_dead_nodes
remove_dead_nodes-Ends zero init p good kept lt = absurd (omega arith)
remove_dead_nodes-Ends (suc fuel) init p good kept lt = elim (Option-cases (find_map is_dead p)) [
  | inl alive ↦ (p, rw (alive, remove_dead_nodes) refl, stays init p good)
  | inr ((i, n), e) ↦
      let (m, dead) = find_map-found is_dead p i n e in
      let (other, leaf) = dead_parts i n dead in
      let m' = subst (λ (w : AbstractNode). Memᴰ (i, w) p) (leaf-node n leaf) m in
      let shorter = length-remove-lt i p (n, m) in
      let count = length-map_premises (without_first (leads_to i)) (remove i p) in
      let one : Shrinks init p (without i p) = record {
        good = without-IsGood p init i good (kept-other p init i good n.tags m' kept other);
        condition = without-GlobalTraceCondition p init i good n.tags m';
        shorter = omega arith;
      } in
      let (q, runs, rest) =
        remove_dead_nodes-Ends fuel init (without i p) one.good
          (without-IsKept p init i good n.tags m' kept) (omega arith) in
      (
        q,
        rw (e, remove_dead_nodes, remove_dead_node-eq i p good.is_map) runs,
        Shrinks-trans init p _ q one rest,
      )
]

-- No node has both as premises.
fathers_none :
    (p : AbstractProof) (init idx k i : ℕ)
    → IsGood p init
    → fathers p idx k ≡ false
    → Edge p i idx
    → ¬ Edge p i k
unfolding fathers
fathers_none p init idx k i good h (n, x, (m, at_x), e) (w, y, (m', at_y), e') =
    let same = IsMap-unique p i w n good.is_map m' m in
    let both =
      (exists_iff (λ (z : ℕ × AbstractNode). in_children idx z.1 && in_children k z.1) p).1 (
        (i, n),
        m,
        and_true (in_children idx n) (in_children k n) ((in_children_iff idx n).1 (x, at_x, e)) (
            (in_children_iff k n).1 (y, subst (λ (v : AbstractNode). Memᴰ y v.subg) same at_y, e')),
      ) in
    cc (h, both)
  where
    and_true : (a b : Bool) → a ≡ true → b ≡ true → (a && b) ≡ true
    and_true a b h k = ground arith

-- What the test of the loop says.
IsFusible-parts :
    (p : AbstractProof) (init idx : ℕ) (tags : List Tag) (subg : List Premise)
    → IsGood p init
    → Memᴰ (idx, record { tags = tags; subg = subg }) p
    → is_fusible p init idx (record { tags = tags; subg = subg }) ≡ true
    → (s : Premise) × (subg ≡ s ∷ []) × IsFusible p init idx s
unfolding is_fusible is_single_node fathers_grandchild
IsFusible-parts p init idx tags [] good m h = ground arith
IsFusible-parts p init idx tags (s ∷ t ∷ ss) good m h = ground arith
IsFusible-parts p init idx tags (s ∷ []) good m h =
    let e1 : (idx == init) ≡ false = ground arith in
    let e2 : (s.child == idx) ≡ false = ground arith in
    let e3 : (idx == s.child) ≡ false = ground (arith, e2) in
    let e4 : fathers p idx s.child ≡ false = ground (arith, e3) in
    (
      s,
      refl,
      record {
        tags = tags;
        node = m;
        not_init = λ e. cc (e1, (==_iff idx init).1 e);
        not_self = λ e. cc (e2, (==_iff s.child idx).1 e);
        no_father = λ i. fathers_none p init idx s.child i good e4;
      },
    )

-- From an abstract proof that binds each number once, has different premises at each node and
-- passes the tests of `valid`, and with more fuel than it has nodes, `fuse_single_nodes` ends with
-- an abstract proof that does the same, has no more nodes, and has the global trace condition
-- exactly when the first one has it.
pub fuse_single_nodes-Ends :
    (fuel init : ℕ) (p : AbstractProof)
    → IsGood p init
    → length p < fuel
    → Ends init p (fuse_single_nodes fuel init p)
unfolding fuse_single_nodes
fuse_single_nodes-Ends zero init p good lt = absurd (omega arith)
fuse_single_nodes-Ends (suc fuel) init p good lt =
    elim (Option-cases (find_map (is_fusible p init) p)) [
      | inl none_left ↦ (p, rw (none_left, fuse_single_nodes) refl, stays init p good)
      | inr ((i, n), e) ↦
          let (m, test) = find_map-found (is_fusible p init) p i n e in
          let (s, single, fit) = IsFusible-parts p init i n.tags n.subg good m test in
          let one : Shrinks init p (past i s p) = record {
            good = past-IsGood p init i s good fit;
            condition = past-GlobalTraceCondition p init i s good fit;
            shorter = omega (arith, past-shorter p i s (n, m));
          } in
          let (q, runs, rest) =
            fuse_single_nodes-Ends fuel init (past i s p) one.good
              (omega (arith, past-shorter p i s (n, m))) in
          let does : fuse_node i n p ≡ some (past i s p) =
            subst (λ ss. fuse_node i (record { tags = n.tags; subg = ss }) p ≡ some (past i s p))
              (sym single) (fuse_node-eq i n.tags s p good.is_map) in
          (q, rw (e, fuse_single_nodes, does) runs, Shrinks-trans init p _ q one rest)
    ]

-- Take an abstract proof that binds each number once, has different premises at each node and
-- passes the tests of `valid`. Let the initial node be 0, or let an infinite path start from it.
-- Then, with more fuel than there are nodes, `minimize_abs_proof` ends with an abstract proof that
-- does the same, has no more nodes, and has the global trace condition exactly when the first one
-- has it.
pub minimize_abs_proof-Ends :
    (fuel init : ℕ) (p : AbstractProof)
    → IsGood p init
    → IsKept p init
    → length p < fuel
    → Ends init p (minimize_abs_proof fuel init p)
unfolding minimize_abs_proof
minimize_abs_proof-Ends fuel init p good kept lt =
    let (q, runs, one) = remove_dead_nodes-Ends fuel init p good kept lt in
    let le = one.shorter in
    let (r, runs', two) = fuse_single_nodes-Ends fuel init q one.good (omega arith) in
    (r, rw runs runs', Shrinks-trans init p q r one two)

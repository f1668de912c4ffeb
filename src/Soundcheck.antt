-- ===== src/Soundcheck.antt =====
-- The driver of the soundness check in OCaml (src/generic/soundcheck.ml): abstract proofs, and
-- the calls of soundness.c by which `check_proof` fills the proof graph. `Int.Map.iter f p` is
-- the sequence of the calls `f` makes over the bindings of `p`.
pub mod Reflects
pub mod Calls
pub mod Run
pub mod Valid
pub mod Meaning
pub mod Ready
pub mod Condition
pub mod Decision
pub mod Accepted
use cyclist.Base.{
  ℕ, suc, Bool, Option, some, List, [], ◌∷◌, ◌++◌, map, for_each, length, ◌>>=◌, ◌>>◌, lookup,
  nat_eq, none, true, false, ◌&&◌, Eq, ◌==◌, ==_iff, ◌≡◌, ◌↔◌, ap, arith, contains,
}
use cyclist.Bdd.{BddLibrary}
use cyclist.Proof.{Tag}
use cyclist.Soundness
use cyclist.Soundness.{Globals, SpotLibrary, create_aut, destroy_aut, check_soundness}

pub pair_beq_iff : (a b c d : ℕ) → ((a == c && b == d) ≡ true) ↔ (◌≡◌ {A = ℕ × ℕ} (a, b) (c, d))
pair_beq_iff a b c d = (
  λ h. λ i. ((==_iff a c).0 (ground arith) i, (==_iff b d).0 (ground arith) i),
  λ h. ground (arith, ap (λ x. x.0) h, ap (λ x. x.1) h),
)

pub record Premise : Type 0 where
  pub child : ℕ
  pub tag_pairs : List (Tag × Tag)
  pub progress : List (Tag × Tag)

-- `abstract_node`
pub record AbstractNode : Type 0 where
  pub tags : List Tag
  pub subg : List Premise

-- `t`: the bindings of an `Int.Map`, in order
abbrev pub AbstractProof : Type 0
AbstractProof = List (ℕ × AbstractNode)

pub data Call : Type 0 where
  create_vertex : ℕ → Call
  tag_vertex : ℕ → Tag → Call
  set_successor : ℕ → ℕ → Call
  set_initial_vertex : ℕ → Call
  set_trace_pair : ℕ → ℕ → Tag → Tag → Call
  set_progress_pair : ℕ → ℕ → Tag → Tag → Call

unfoldable pub create_vertices : AbstractProof → List Call
create_vertices = map (λ (i, n). create_vertex i)

unfoldable pub create_tags : AbstractProof → List Call
create_tags = for_each (λ (i, n). map (tag_vertex i) n.tags)

unfoldable pub create_succs : AbstractProof → List Call
create_succs = for_each (λ (i, n). map (λ (s : Premise). set_successor i s.child) n.subg)

unfoldable pub do_tag_transitions : ℕ → Premise → List Call
do_tag_transitions i s =
    map (λ (k, m). set_trace_pair i s.child k m) s.tag_pairs
    ++ map (λ (k, m). set_progress_pair i s.child k m) s.progress

unfoldable pub create_trace_pairs : AbstractProof → List Call
unfolding do_tag_transitions
create_trace_pairs = for_each (λ (i, n). for_each (do_tag_transitions i) n.subg)

-- All calls of `check_proof` between `create_aut` and `check_soundness`.
unfoldable pub calls : ℕ → AbstractProof → List Call
unfolding create_vertices create_tags create_succs create_trace_pairs
calls init p =
    create_vertices p
    ++ (create_tags p ++ (create_succs p ++ set_initial_vertex init ∷ create_trace_pairs p))

-- `Int.Map.find`, and `Int.Map.mem` as its success
abbrev pub find_node : AbstractProof → ℕ → Option AbstractNode
find_node p i = lookup ⦃e = nat_eq⦄ i p

abbrev pub is_node : AbstractProof → ℕ → Bool
is_node p i = elim (find_node p i) [ none ↦ false | some n ↦ true ]

-- `for_all`
unfoldable pub for_all {ℓ} : {A : Type ℓ} → (A → Bool) → List A → Bool
for_all f [] = true
for_all f (x ∷ xs) = f x && for_all f xs

abbrev pub tag_subset : List Tag → List Tag → Bool
tag_subset xs ys = for_all (λ x. contains ⦃e = nat_eq⦄ x ys) xs

abbrev pub pair_eq : Eq (Tag × Tag)
pair_eq = record {
  beq = λ x y. x.0 == y.0 && x.1 == y.1;
  beq_iff = λ x y. pair_beq_iff x.0 x.1 y.0 y.1;
}

-- The tests of `valid` on a premise of a node with the tags `ts`.
abbrev pub valid_premise : AbstractProof → List Tag → Premise → Bool
valid_premise p ts s =
    is_node p s.child
    && for_all (λ x. contains ⦃e = pair_eq⦄ x s.tag_pairs) s.progress
    && tag_subset (map (λ x. x.0) s.tag_pairs) ts
    && elim (find_node p s.child) [
      | none ↦ false
      | some n ↦ tag_subset (map (λ x. x.1) s.tag_pairs) n.tags
    ]

unfoldable pub valid : AbstractProof → ℕ → Bool
valid p init = is_node p init && for_all (λ (i, n). for_all (valid_premise p n.tags) n.subg) p

module _ ⦃B : BddLibrary⦄ where
  unfoldable pub call : Call → Globals → Option Globals
  call (create_vertex i) = Soundness.create_vertex i
  call (tag_vertex i t) = Soundness.tag_vertex i t
  call (set_successor i j) = Soundness.set_successor i j
  call (set_initial_vertex i) = Soundness.set_initial_vertex i
  call (set_trace_pair i j k m) = Soundness.set_trace_pair i j k m
  call (set_progress_pair i j k m) = Soundness.set_progress_pair i j k m

  unfoldable pub run_calls : List Call → Globals → Option Globals
  run_calls [] g = some g
  run_calls (c ∷ cs) g = call c g >>= run_calls cs

  -- The inner `check_proof`; `ceil_log2` is the computation with floats.
  pub check_proof : SpotLibrary → (ℕ → ℕ) → ℕ → AbstractProof → Globals → Option (Bool × Globals)
  check_proof spot ceil_log2 init p g = do
    let log2size = suc (ceil_log2 (length p))
    g1 ← create_aut log2size g
    g2 ← run_calls (calls init p) g1
    retval ← check_soundness spot g2
    g3 ← destroy_aut g2
    some (retval, g3)

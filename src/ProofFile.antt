-- ===== src/ProofFile.antt =====
-- The abstract proofs that src/generic/checkproof.ml makes of the lines it parses. `none` is a
-- failed assertion.
pub mod Entries
pub mod Bindings
pub mod Adding
pub mod Reading
pub mod Abstract
pub mod Valid
pub mod Checked
use cyclist.Base.{
  ℕ, Bool, true, not, Option, none, some, List, [], ◌∷◌, ◌>>=◌, ◌>>◌, assert, nat_eq, contains,
  insert, lookup, assign,
}
use cyclist.Proof.{Tag}
use cyclist.Soundcheck.{AbstractProof}
use cyclist.Bdd.{BddLibrary}
use cyclist.Soundness.{SpotLibrary}
use cyclist.Checker
use cyclist.Checker.{Checker}
use cyclist.Minimize.{TagPairs, add_pair}
use cyclist.Minimize.Maps.{fold}
use cyclist.ProofTree.Proofnode.{mk_abs_node}

-- A parsed line, with the identifiers as numbers.
pub record Line : Type 0 where
  pub src : ℕ
  pub dest : ℕ
  pub prog : TagPairs
  pub nonprog : TagPairs

-- What `nodemap` binds: tags, premises and the pairs of each premise.
pub record Entry : Type 0 where
  pub tags : List Tag
  pub premises : List ℕ
  pub tps : List (TagPairs × TagPairs)

abbrev pub NodeMap : Type 0
NodeMap = List (ℕ × Entry)

-- `Tags.union`
unfoldable pub union_tags : List Tag → List Tag → List Tag
union_tags xs ys = fold (λ x s. insert ⦃e = nat_eq⦄ x s) xs ys

-- `Tagpairs.union`
unfoldable pub union_pairs : TagPairs → TagPairs → TagPairs
union_pairs xs ys = fold add_pair xs ys

-- `Tagpairs.projectl`
unfoldable pub projectl : TagPairs → List Tag
projectl tps = fold (λ x s. insert ⦃e = nat_eq⦄ x.0 s) tps []

-- `Tagpairs.projectr`
unfoldable pub projectr : TagPairs → List Tag
projectr tps = fold (λ x s. insert ⦃e = nat_eq⦄ x.1 s) tps []

-- `all` of `add_entry`
abbrev pub all_pairs : Line → TagPairs
all_pairs line = union_pairs line.nonprog line.prog

-- The new binding of the source.
unfoldable pub with_premise : Line → Option Entry → Entry
unfolding projectl union_pairs union_tags
with_premise line none = record {
  tags = projectl (all_pairs line);
  premises = line.dest ∷ [];
  tps = (all_pairs line, line.prog) ∷ [];
}
with_premise line (some e) = record {
  tags = union_tags (projectl (all_pairs line)) e.tags;
  premises = line.dest ∷ e.premises;
  tps = (all_pairs line, line.prog) ∷ e.tps;
}

-- The new binding of the target.
unfoldable pub with_tags : List Tag → Option Entry → Entry
unfolding union_tags
with_tags ts none = record { tags = ts; premises = []; tps = [] }
with_tags ts (some e) = record e { tags = union_tags ts e.tags }

-- The test that a premise is not there yet.
abbrev pub is_new : ℕ → Option Entry → Bool
is_new dest none = true
is_new dest (some e) = not (contains ⦃e = nat_eq⦄ dest e.premises)

-- The new map.
unfoldable pub added : NodeMap → Line → NodeMap
unfolding with_premise with_tags projectr union_pairs
added m line =
    let m1 = assign ⦃e = nat_eq⦄ line.src (with_premise line (lookup ⦃e = nat_eq⦄ line.src m)) m in
    assign ⦃e = nat_eq⦄ line.dest
      (with_tags (projectr (all_pairs line)) (lookup ⦃e = nat_eq⦄ line.dest m1)) m1

unfoldable pub add_entry : NodeMap → Line → Option NodeMap
unfolding added
add_entry m line = do
  assert (is_new line.dest (lookup ⦃e = nat_eq⦄ line.src m))
  some (added m line)

unfoldable pub add_entries : List Line → NodeMap → Option NodeMap
unfolding add_entry
add_entries [] m = some m
add_entries (line ∷ lines) m = add_entry m line >>= add_entries lines

-- `map` with `mk_abs_node`
unfoldable pub abstract_nodes : NodeMap → Option AbstractProof
unfolding mk_abs_node
abstract_nodes [] = some []
abstract_nodes ((i, e) ∷ m) = do
  n ← mk_abs_node e.tags e.premises e.tps
  p ← abstract_nodes m
  some ((i, n) ∷ p)

abbrev pub first_node : List Line → ℕ
first_node [] = 0
first_node (line ∷ lines) = line.src

unfoldable pub mk_prf : List Line → Option (AbstractProof × ℕ)
unfolding add_entries abstract_nodes
mk_prf lines = do m ← add_entries lines []; prf ← abstract_nodes m; some (prf, first_node lines)

-- One round of the loop over the input, from the lines to the answer.
unfoldable pub check_input :
    ⦃B : BddLibrary⦄
    → SpotLibrary
    → (ℕ → ℕ)
    → (AbstractProof → AbstractProof → Bool)
    → List Line
    → Checker
    → Option (Bool × Checker)
unfolding mk_prf
check_input spot ceil_log2 same lines c =
    mk_prf lines >>= λ (prf, init). Checker.check_proof spot ceil_log2 same init prf c

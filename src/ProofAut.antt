-- ===== src/ProofAut.antt =====
-- class ProofAutomaton and its states and iterators (src/generic/proof_aut.hpp,
-- src/generic/proof_aut.c): the automaton whose words are the paths of the proof graph.
pub mod States
pub mod Steps
pub mod Paths
use Prim.Native.Nat.{Ordering}
use cyclist.Base.{
  ℕ, suc, Bool, true, false, Option, none, some, List, [], ◌∷◌, ltb, if◌then◌else◌, ◌>>=◌, length,
  ◌++◌, map,
}
use cyclist.Bdd.{BddLibrary, Vertex}
use cyclist.Proof.{Proof, Tag, get_tags_of_vertex, get_successors, get_vertex_name, to_decimal}
use cyclist.Automaton.{Edge, Twa, SuccIterator, collect}

module _ ⦃B : BddLibrary⦄ where
  -- The two classes of states: ProofGhostState and ProofState.
  pub data ProofAutState : Type 0 where
    ghost : ProofAutState
    state : Vertex → List Tag → ProofAutState

  -- `compare`, with `lt`, `eq`, `gt` for -1, 0, 1.
  unfoldable pub compare_states : ProofAutState → ProofAutState → Ordering
  compare_states (state v ts) ghost = Ordering.gt
  compare_states (state v ts) (state u us) =
      if ltb (B.id v) (B.id u)
      then Ordering.lt
      else (if ltb (B.id u) (B.id v) then Ordering.gt else Ordering.eq)
  compare_states ghost (state u us) = Ordering.lt
  compare_states ghost ghost = Ordering.eq

  unfoldable pub hash : ProofAutState → ℕ
  hash (state v ts) = B.id v
  hash ghost = 0

  -- The edges of the initial state: the field `finished` is the position.
  unfoldable pub ghost_iterator : Proof → SuccIterator ProofAutState Bool
  ghost_iterator p = record {
    first = some false;
    next = λ finished. true;
    done = λ finished. finished;
    dst = λ finished.
        get_tags_of_vertex p p.initial_vertex >>= λ ts. some (state p.initial_vertex ts);
    cond = λ finished. p.initial_vertex;
    acc = λ finished. true;
  }

  -- `*successor` at a position: the successors from there to the end. There is none at the end.
  abbrev deref : List Vertex → Option Vertex
  deref [] = none
  deref (v ∷ vs) = some v

  abbrev advance : List Vertex → List Vertex
  advance [] = []
  advance (v ∷ vs) = vs

  abbrev at_end : List Vertex → Bool
  at_end [] = true
  at_end (v ∷ vs) = false

  abbrev cond_at : List Vertex → Vertex
  cond_at [] = B.bddfalse
  cond_at (v ∷ vs) = v

  unfoldable pub succ_iterator : Proof → Vertex → SuccIterator ProofAutState (List Vertex)
  succ_iterator p v = record {
    first = get_successors p v;
    next = advance;
    done = at_end;
    dst = λ successor. deref successor >>= λ u. get_tags_of_vertex p u >>= λ ts. some (state u ts);
    cond = cond_at;
    acc = λ successor. true;
  }

  -- `succ_iter`, and Spot's loop over the iterator that it makes.
  unfoldable pub edges : Proof → ProofAutState → Option (List (Edge ProofAutState))
  edges p ghost = let it = ghost_iterator p in it.first >>= λ i. collect it 1 i
  edges p (state v ts) = let it = succ_iterator p v in it.first >>= λ i. collect it (length i) i

  abbrev pub proof_automaton : Proof → Twa
  proof_automaton p = record { State = ProofAutState; get_init_state = ghost; edges = edges p }

  -- The tags after the first, each behind a comma.
  tags_text : List Tag → List ℕ
  tags_text [] = []
  tags_text (t ∷ ts) = b',' ∷ b't' ∷ b'_' ∷ (to_decimal t ++ tags_text ts)

  all_tags_text : List Tag → List ℕ
  unfolding tags_text
  all_tags_text [] = []
  all_tags_text (t ∷ ts) = b't' ∷ b'_' ∷ (to_decimal t ++ tags_text ts)

  unfoldable pub format_state : Proof → ProofAutState → Option (List ℕ)
  unfolding all_tags_text
  format_state p ghost = some []
  format_state p (state v ts) = do
    name ← get_vertex_name p v
    some (b'S' ∷ (name ++ b' ' ∷ all_tags_text ts))

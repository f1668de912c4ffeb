-- ===== src/Trace.antt =====
-- class TraceAutomaton with its states and iterators (src/generic/trace.hpp,
-- src/generic/trace.c): the automaton that guesses a position of a path and follows a trace from
-- there. A state stands for the pointer that `get_state` returns; the table behind `get_state`
-- is modelled in StateMap.
pub mod States
pub mod StateMap
pub mod Steps
pub mod Traces
use Prim.Native.Nat.{Ordering}
use cyclist.Base.{
  ℕ, Bool, true, false, not, ◌&&◌, ◌||◌, Option, none, some, List, [], ◌∷◌, ◌++◌, ◌==◌, ltb,
  if◌then◌else◌, ◌>>=◌, ◌>>◌, assert, length,
}
use cyclist.Bdd.{BddLibrary, Vertex, no_vertex, vertex_beq}
use cyclist.Proof.{
  Proof, Quad, Tag, no_tag, get_tags_of_vertex, get_successors, get_vertex_name, trace_pair,
  progress_pair, to_decimal,
}
use cyclist.Automaton.{Edge, Twa, SuccIterator, collect}

module _ ⦃B : BddLibrary⦄ where
  pub record TraceState : Type 0 where
    pub vertex : Vertex
    pub tag : Tag

  abbrev pub initial_state : TraceState
  initial_state = record { vertex = no_vertex; tag = no_tag }

  unfoldable pub initial : TraceState → Bool
  initial s = vertex_beq s.vertex no_vertex && s.tag == no_tag

  -- `compare`, with `lt`, `eq`, `gt` for -1, 0, 1.
  unfoldable pub compare_states : TraceState → TraceState → Ordering
  compare_states s t =
      if initial s
      then (if initial t then Ordering.eq else Ordering.lt)
      else if initial t
      then Ordering.gt
      else if ltb (B.id s.vertex) (B.id t.vertex)
      then Ordering.lt
      else if ltb (B.id t.vertex) (B.id s.vertex)
      then Ordering.gt
      else if ltb s.tag t.tag
      then Ordering.lt
      else if ltb t.tag s.tag
      then Ordering.gt
      else Ordering.eq

  abbrev pub quad_to : TraceState → TraceState → Quad
  quad_to s t = record {
    source = s.vertex;
    target = t.vertex;
    source_tag = s.tag;
    target_tag = t.tag;
  }

  -- The vector of an iterator: the head of the list is the back of the vector.
  abbrev pub StateInfoVector : Type 0
  StateInfoVector = List TraceState

  -- The inner loop of `first`, over the tags of the successor `v`.
  pub push_tags : Proof → TraceState → Vertex → List Tag → StateInfoVector → StateInfoVector
  unfolding trace_pair initial
  push_tags p s v [] infos = infos
  push_tags p s v (t ∷ ts) infos =
      let target : TraceState = record { vertex = v; tag = t } in
      let skip = not (initial s) && not (trace_pair p (quad_to s target)) in
      push_tags p s v ts (if skip then infos else target ∷ infos)

  -- The outer loop.
  pub push_successors : Proof → TraceState → List Vertex → StateInfoVector → Option StateInfoVector
  push_successors p s [] infos = some infos
  push_successors p s (v ∷ vs) infos = do
    tset ← get_tags_of_vertex p v
    push_successors p s vs (push_tags p s v tset infos)

  unfoldable pub first : Proof → TraceState → StateInfoVector → Option StateInfoVector
  unfolding push_successors push_tags
  first p s infos = do
    assert (elim infos [ [] ↦ true | _ ∷ _ ↦ false ])
    successors ← if initial s then some p.vertices else get_successors p s.vertex
    push_successors p s successors (if initial s then initial_state ∷ [] else [])

  -- `back()` and `pop_back()`; the methods are not called on an empty vector.
  abbrev back : StateInfoVector → Option TraceState
  back [] = none
  back (s ∷ ss) = some s

  abbrev pop_back : StateInfoVector → StateInfoVector
  pop_back [] = []
  pop_back (s ∷ ss) = ss

  abbrev empty : StateInfoVector → Bool
  empty [] = true
  empty (s ∷ ss) = false

  abbrev pub cond_of : TraceState → Vertex
  cond_of s = if vertex_beq s.vertex no_vertex then B.bddtrue else s.vertex

  abbrev cond : StateInfoVector → Vertex
  cond [] = B.bddfalse
  cond (s ∷ ss) = cond_of s

  abbrev acc : Proof → TraceState → StateInfoVector → Bool
  acc p state [] = false
  acc p state (s ∷ ss) = progress_pair p (quad_to state s)

  unfoldable pub succ_iterator : Proof → TraceState → SuccIterator TraceState StateInfoVector
  succ_iterator p s = record {
    first = first p s [];
    next = pop_back;
    done = empty;
    dst = back;
    cond = cond;
    acc = acc p s;
  }

  unfoldable pub edges : Proof → TraceState → Option (List (Edge TraceState))
  edges p s = let it = succ_iterator p s in it.first >>= λ i. collect it (length i) i

  abbrev pub trace_automaton : Proof → Twa
  trace_automaton p = record { State = TraceState; get_init_state = initial_state; edges = edges p }

  unfoldable pub format_state : Proof → TraceState → Option (List ℕ)
  unfolding initial
  format_state p s = if initial s then some (b'i' ∷ b'n' ∷ b'i' ∷ b't' ∷ []) else do
    assert (not (vertex_beq s.vertex no_vertex) && not (s.tag == no_tag))
    name ← get_vertex_name p s.vertex
    some (b'S' ∷ (name ++ b',' ∷ b't' ∷ to_decimal s.tag))

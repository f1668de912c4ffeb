-- ===== src/Tests/Loop.antt =====
-- The proof graph of one vertex that leads to itself, with one tag that progresses along the edge.
use cyclist.ProofAut.Paths.{IsPath}
use cyclist.Trace.Traces.{ProgressingTrace}
use mathlib.Core.Path.{subst₂}
use cyclist.Base.{
  ℕ, zero, suc, true, some, [], ◌∷◌, Memᴰ, ◌≡◌, refl, sym, arith, lookup, assign, insert, insert_at,
  touch, contains, at, subst,
}
use mathlib.Core.List.Memᴰ
use cyclist.Bdd.{BddLibrary, Vertex, vertex_eq}
use cyclist.Bdd.Trees.{Tree, top, var, conj, trees}
use cyclist.Proof.{
  Proof, Quad, new_proof, create_vertex, tag_vertex, set_successor, set_initial_vertex,
  set_trace_pair, set_progress_pair, to_decimal, encode, check_pair, trace_pair, progress_pair,
}
use cyclist.Proof.Invariant.{IsWellFormed}
use cyclist.Proof.Reachable.{
  Reachable, Reachable-IsWellFormed, constructed, called, creates, tags, joins, starts, traces,
  progresses,
}

instance abbrev pub formulas : BddLibrary
formulas = trees

abbrev pub vertex : Vertex
vertex = conj top (var 0)

abbrev pub edge : Quad
edge = record { source = vertex; target = vertex; source_tag = 1; target_tag = 1 }

abbrev pub empty : Proof
empty = record {
  max_vertices_log2 = 1;
  max_tag = 0;
  last_vertex = 0;
  initial_vertex = Tree.bottom;
  propositions = var 0 ∷ [];
  vertices = [];
  trans_map = [];
  tag_map = [];
  vertex_names = [];
  trace_pairs = [];
  progress_pairs = [];
}

abbrev pub created : Proof
created = record empty {
  last_vertex = 1;
  vertices = vertex ∷ [];
  trans_map = (vertex, []) ∷ [];
  tag_map = (vertex, []) ∷ [];
  vertex_names = (vertex, b'1' ∷ []) ∷ [];
}

abbrev pub with_tag : Proof
with_tag = record created { max_tag = 1; tag_map = (vertex, 1 ∷ []) ∷ [] }

abbrev pub with_edge : Proof
with_edge = record with_tag { trans_map = (vertex, vertex ∷ []) ∷ [] }

abbrev pub with_start : Proof
with_start = record with_edge { initial_vertex = vertex }

abbrev pub with_trace : Proof
with_trace = record with_start { trace_pairs = edge ∷ [] }

abbrev pub loop : Proof
loop = record with_trace { progress_pairs = edge ∷ [] }

made_empty : new_proof 1 ≡ empty
unfolding new_proof
made_empty = refl

made_created : create_vertex empty ≡ some (vertex, created)
unfolding create_vertex encode insert contains touch assign lookup to_decimal
made_created = refl

made_tag : tag_vertex created vertex 1 ≡ some with_tag
unfolding tag_vertex insert_at insert contains assign lookup at
made_tag = refl

made_edge : set_successor with_tag vertex vertex ≡ some with_edge
unfolding set_successor insert_at insert contains assign lookup at
made_edge = refl

made_start : set_initial_vertex with_edge vertex ≡ some with_start
unfolding set_initial_vertex contains
made_start = refl

made_trace : set_trace_pair with_start edge ≡ some with_trace
unfolding set_trace_pair check_pair insert contains touch lookup at
made_trace = refl

made_progress : set_progress_pair with_trace edge ≡ some loop
unfolding set_progress_pair check_pair insert contains touch lookup at
made_progress = refl

pub empty-IsWellFormed : IsWellFormed empty
empty-IsWellFormed = Reachable-IsWellFormed 1 empty (constructed (sym made_empty))

pub loop-Reachable : Reachable 1 loop
loop-Reachable =
    called
      (called
        (called
          (called
            (called (called (constructed (sym made_empty)) (creates vertex made_created))
              (tags vertex 1 made_tag))
            (joins vertex vertex made_edge))
          (starts vertex made_start))
        (traces edge made_trace))
      (progresses edge made_progress)

-- The only path stays at the vertex.
only_path : (path : ℕ → Vertex) → IsPath loop path → (i : ℕ) → path i ≡ vertex
unfolding at lookup
only_path path h zero = h.starts
only_path path h (suc i) =
    Memᴰ.eq_of_singleton
      (subst (λ v. Memᴰ (path (suc i)) (at loop.trans_map v)) (only_path path h i) (h.follows i))

-- The trace with the one tag progresses at each step.
pub loop_trace : (path : ℕ → Vertex) → IsPath loop path → ProgressingTrace loop path
unfolding trace_pair progress_pair contains
loop_trace path h = record {
  from = 0;
  tags = λ i. 1;
  follows = λ i le.
      subst₂
        (λ u v.
          trace_pair loop (record { source = u; target = v; source_tag = 1; target_tag = 1 })
          ≡ true)
        (sym (only_path path h i)) (sym (only_path path h (suc i))) refl;
  progresses = λ n. (
    n,
    omega arith,
    omega arith,
    subst₂
        (λ u v.
          progress_pair loop (record { source = u; target = v; source_tag = 1; target_tag = 1 })
          ≡ true)
        (sym (only_path path h n)) (sym (only_path path h (suc n))) refl,
  );
}

pub loop-IsPath : IsPath loop (λ i. vertex)
unfolding at lookup
loop-IsPath = record { starts = refl; follows = λ i. Memᴰ.head refl }

pub loop_known : Memᴰ vertex loop.vertices
loop_known = Memᴰ.head refl

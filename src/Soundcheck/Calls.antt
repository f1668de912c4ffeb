-- ===== src/Soundcheck/Calls.antt =====
-- One call of the driver: when it returns, and what it adds.
mod Contents
mod Creates
mod Forward
use cyclist.Base.{
  ℕ, suc, ◌+◌, ◌^◌, ◌<◌, none, some, List, [], ◌∷◌, Memᴰ, ◌≡◌, ◌⊎◌, refl, inl, inr, arith, subst,
  Option-cases, ◌>>=◌,
}
use mathlib.Core.List.Memᴰ
use cyclist.Bdd.{BddLibrary, Vertex}
use cyclist.Proof.{Proof, Tag}
use cyclist.Proof.Invariant.{IsTagged}
use cyclist.Proof.Creation.{with_vertex, create_vertex_lem}
use cyclist.Proof.Filling.{
  tag_vertex-IsWellFormed, set_successor-IsWellFormed, set_initial_vertex-IsWellFormed,
}
use cyclist.Proof.Pairs.{set_trace_pair-IsWellFormed, set_progress_pair-IsWellFormed}
use cyclist.Soundness
use cyclist.Soundness.{Globals}
use cyclist.Soundcheck.{
  Call, create_vertex, tag_vertex, set_successor, set_initial_vertex, set_trace_pair,
  set_progress_pair, call,
}
use cyclist.Soundcheck.Reflects.{ids, Adds, find, quad, Reflects, add_call}
use Contents.{tag-Contents, succ-Contents, start-Contents, trace-Contents, progress-Contents}
use Creates.{create-Reflects, renamed}
use Forward.{
  tag_vertex-some, set_successor-some, set_initial_vertex-some, set_trace_pair-some,
  set_progress_pair-some,
}

-- What must have been called before `c`.
abbrev pub Ready : (Call → Type 0) → Call → Type 0
Ready D (create_vertex i) = ¬ D (create_vertex i)
Ready D (tag_vertex i t) = D (create_vertex i)
Ready D (set_successor i j) = D (create_vertex i) × D (create_vertex j)
Ready D (set_initial_vertex i) = D (create_vertex i)
Ready D (set_trace_pair i j k l) = D (tag_vertex i k) × D (tag_vertex j l)
Ready D (set_progress_pair i j k l) = D (tag_vertex i k) × D (tag_vertex j l)

-- The vertices that a call creates.
abbrev pub creates : Call → ℕ
creates (create_vertex i) = 1
creates (tag_vertex i t) = 0
creates (set_successor i j) = 0
creates (set_initial_vertex i) = 0
creates (set_trace_pair i j k l) = 0
creates (set_progress_pair i j k l) = 0

module _ ⦃B : BddLibrary⦄ where
  abbrev pub globals : Proof → List (ℕ × Vertex) → Globals
  globals p m = record { proof = some p; bdd_map = m }

  -- The call returns, and the graph reflects it too.
  pub record Returns (c : Call) (D : Call → Type 0) (p : Proof) (m : List (ℕ × Vertex))
      : Type 0 where
    pub graph : Proof
    pub vertex_map : List (ℕ × Vertex)
    pub returns : call c (globals p m) ≡ some (globals graph vertex_map)
    pub reflects : Reflects (Adds c D) graph vertex_map
    pub same_bits : graph.max_vertices_log2 ≡ p.max_vertices_log2
    pub counted : graph.last_vertex ≡ p.last_vertex + creates c

  module _ {D : Call → Type 0} (p : Proof) (m : List (ℕ × Vertex)) (r : Reflects D p m) where
    vertex_of : (c : Call) (i : ℕ) → D c → Memᴰ i (ids c) → (v : Vertex) × (find m i ≡ some v)
    vertex_of = r.names.closed

    found_one :
        (i : ℕ) (u : Vertex)
        → find m i ≡ some u
        → (k : ℕ) → Memᴰ k (i ∷ [])
        → (v : Vertex) × (find m k ≡ some v)
    found_one i u e k h = (u, rw (Memᴰ.eq_of_singleton h) e)

    found_two :
        (i j : ℕ) (u v : Vertex)
        → find m i ≡ some u
        → find m j ≡ some v
        → (k : ℕ) → Memᴰ k (i ∷ j ∷ [])
        → (w : Vertex) × (find m k ≡ some w)
    found_two i j u v e f k h = elim (Memᴰ.cases_cons h) [
      | inl k_i ↦ (u, rw k_i e)
      | inr h' ↦ found_one j v f k h'
    ]

    -- Where the graph reflects the calls made so far, a call whose vertices and tags were made
    -- before, and for which a number is left, returns, and then the graph reflects it too.
    pub call-Returns :
        (c : Call)
        → Ready D c
        → p.last_vertex + creates c < 2 ^ p.max_vertices_log2
        → Returns c D p m
    unfolding call Soundness.create_vertex Soundness.tag_vertex Soundness.set_successor
        Soundness.set_initial_vertex Soundness.set_trace_pair Soundness.set_progress_pair
    call-Returns (create_vertex i) fresh room = elim (Option-cases (find m i)) [
      | inr (v, e) ↦ absurd (fresh (r.names.made i v e))
      | inl unused ↦
          let (v, made, _, new, wf') = create_vertex_lem p r.wf room in
          record {
            graph = with_vertex p v;
            vertex_map = renamed p m i v r unused new;
            returns = rw (made, unused);
            reflects = create-Reflects p m i v r unused new wf';
            same_bits = refl;
            counted = refl;
          }
    ]
    call-Returns (tag_vertex i t) made room =
        let (u, e) = vertex_of (create_vertex i) i made (Memᴰ.head refl) in
        let does = tag_vertex-some p u t (r.names.known i u e) in
        record {
          graph = _;
          vertex_map = m;
          returns = rw (e, does);
          reflects = record {
            wf = tag_vertex-IsWellFormed p _ u t r.wf does;
            names = add_call r.names (tag_vertex i t) (found_one i u e);
            contents = tag-Contents p r.names r.contents i t u e;
          };
          same_bits = refl;
          counted = omega arith;
        }
    call-Returns (set_successor i j) (made, made') room =
        let (u, e) = vertex_of (create_vertex i) i made (Memᴰ.head refl) in
        let (v, f) = vertex_of (create_vertex j) j made' (Memᴰ.head refl) in
        let does = set_successor-some p u v (r.names.known i u e) (r.names.known j v f) in
        record {
          graph = _;
          vertex_map = m;
          returns = rw (e, f, does);
          reflects = record {
            wf = set_successor-IsWellFormed p _ u v r.wf does;
            names = add_call r.names (set_successor i j) (found_two i j u v e f);
            contents = succ-Contents p r.names r.contents i j u v e f;
          };
          same_bits = refl;
          counted = omega arith;
        }
    call-Returns (set_initial_vertex i) made room =
        let (u, e) = vertex_of (create_vertex i) i made (Memᴰ.head refl) in
        let does = set_initial_vertex-some p u (r.names.known i u e) in
        record {
          graph = _;
          vertex_map = m;
          returns = rw (e, does);
          reflects = record {
            wf = set_initial_vertex-IsWellFormed p _ u r.wf does;
            names = add_call r.names (set_initial_vertex i) (found_one i u e);
            contents = start-Contents p r.names r.contents i u e;
          };
          same_bits = refl;
          counted = omega arith;
        }
    call-Returns (set_trace_pair i j k l) (made, made') room =
        let (u, e) = vertex_of (tag_vertex i k) i made (Memᴰ.head refl) in
        let (v, f) = vertex_of (tag_vertex j l) j made' (Memᴰ.head refl) in
        let known : IsTagged p (quad u v k l) =
          ((r.contents.tags i u e k).1 made, (r.contents.tags j v f l).1 made') in
        let does = set_trace_pair-some p r.wf (quad u v k l) known in
        record {
          graph = _;
          vertex_map = m;
          returns = rw (e, f, does);
          reflects = record {
            wf = set_trace_pair-IsWellFormed p _ (quad u v k l) r.wf does;
            names = add_call r.names (set_trace_pair i j k l) (found_two i j u v e f);
            contents = trace-Contents p r.names r.contents i j u v k l e f;
          };
          same_bits = refl;
          counted = omega arith;
        }
    call-Returns (set_progress_pair i j k l) (made, made') room =
        let (u, e) = vertex_of (tag_vertex i k) i made (Memᴰ.head refl) in
        let (v, f) = vertex_of (tag_vertex j l) j made' (Memᴰ.head refl) in
        let known : IsTagged p (quad u v k l) =
          ((r.contents.tags i u e k).1 made, (r.contents.tags j v f l).1 made') in
        let does = set_progress_pair-some p r.wf (quad u v k l) known in
        record {
          graph = _;
          vertex_map = m;
          returns = rw (e, f, does);
          reflects = record {
            wf = set_progress_pair-IsWellFormed p _ (quad u v k l) r.wf does;
            names = add_call r.names (set_progress_pair i j k l) (found_two i j u v e f);
            contents = progress-Contents p r.names r.contents i j u v k l e f;
          };
          same_bits = refl;
          counted = omega arith;
        }

-- ===== src/Soundcheck/Condition.antt =====
-- `check_proof` (src/generic/soundcheck.ml) and the global trace condition on abstract proofs.
use cyclist.Base.{
  ℕ, zero, suc, ◌≤◌, true, some, List, Memᴰ, ◌≡◌, ◌↔◌, refl, sym, ap, ◌∙◌, subst, some_injective,
  at, contains_iff, inl, inr, ∥∥₁_map,
}
use cyclist.Bdd.{BddLibrary, Vertex, vertex_eq}
use cyclist.Proof.{Proof, Tag, quad_eq, trace_pair, progress_pair}
use cyclist.ProofAut.Paths.{IsPath, path_known}
use cyclist.Trace.Traces.{ProgressingTrace}
use cyclist.Soundness.Condition.{GlobalTrace}
use cyclist.Soundcheck.{
  AbstractProof, Call, create_vertex, set_successor, set_initial_vertex, set_trace_pair,
  set_progress_pair, calls,
}
use cyclist.Soundcheck.Valid.{IsClosed}
use cyclist.Soundcheck.Reflects.{find, quad, Reflects}
use cyclist.Soundcheck.Run.{After, After-iff}
use cyclist.Soundcheck.Meaning.{IsNode, Edge, TracePair, ProgressPair, Meaning, mem-calls}

-- An infinite path of the abstract proof: from each node to the child of one of its premises.
pub record IsAbstractPath (p : AbstractProof) (init : ℕ) (path : ℕ → ℕ) : Type 0 where
  pub starts : path 0 ≡ init
  pub follows : (i : ℕ) → Edge p (path i) (path (suc i))

-- A trace along a tail of the path that progresses infinitely often.
pub record AbstractTrace (p : AbstractProof) (path : ℕ → ℕ) : Type 0 where
  pub from : ℕ
  pub tags : ℕ → Tag
  pub follows : (i : ℕ) → from ≤ i → TracePair p (path i) (path (suc i)) (tags i) (tags (suc i))
  pub progresses :
      (n : ℕ)
      → (i : ℕ) × (n ≤ i)
        × (from ≤ i)
        × ProgressPair p (path i) (path (suc i)) (tags i) (tags (suc i))

abbrev pub GlobalTraceCondition : AbstractProof → ℕ → Type 0
GlobalTraceCondition p init =
    (path : ℕ → ℕ) → IsAbstractPath p init path → ∥ AbstractTrace p path ∥₁

module _ ⦃B : BddLibrary⦄ (p : AbstractProof) (init : ℕ) (v : IsClosed p init) where
  -- The calls made, for a graph that reflects them all.
  abbrev Done : Call → Type 0
  Done = After (calls init p) (λ c. ⊥)

  Done-iff : (c : Call) → Done c ↔ Meaning p init c
  Done-iff c =
      let after = After-iff (calls init p) (λ x. ⊥) c in
      (
        λ d. elim (after.0 d) [ inl m ↦ (mem-calls p init c).0 m | inr none_yet ↦ absurd none_yet ],
        λ m. after.1 (inl ((mem-calls p init c).1 m)),
      )

  module _ (q : Proof) (m : List (ℕ × Vertex)) (r : Reflects Done q m) where
    open r use {wf, names, contents}

    number_of : (i : ℕ) → IsNode p i → (u : Vertex) × (find m i ≡ some u)
    number_of i n =
        names.closed (create_vertex i) i ((Done-iff (create_vertex i)).1 n) (Memᴰ.head refl)

    starts_at : find m init ≡ some q.initial_vertex
    starts_at =
        contents.starts init ((Done-iff (set_initial_vertex init)).1 refl)
          (λ j d. (Done-iff (set_initial_vertex j)).0 d)

    pub initial_known : Memᴰ q.initial_vertex q.vertices
    initial_known = names.known init q.initial_vertex starts_at

    -- The two paths run through the same nodes.
    module _ (path : ℕ → Vertex) (nodes : ℕ → ℕ)
        (linked : (i : ℕ) → find m (nodes i) ≡ some (path i)) where
      edge_iff :
          (i : ℕ) → Memᴰ (path (suc i)) (at q.trans_map (path i)) ↔ Edge p (nodes i) (nodes (suc i))
      edge_iff i =
          let same =
            contents.succs (nodes i) (nodes (suc i)) (path i) (path (suc i)) (linked i)
              (linked (suc i)) in
          let done = Done-iff (set_successor (nodes i) (nodes (suc i))) in
          (λ k. done.0 (same.0 k), λ e. same.1 (done.1 e))

      trace_iff :
          (i : ℕ) (k l : Tag)
          → (trace_pair q (quad (path i) (path (suc i)) k l) ≡ true)
            ↔ TracePair p (nodes i) (nodes (suc i)) k l
      unfolding trace_pair
      trace_iff i k l =
          let same =
            contents.traces (nodes i) (nodes (suc i)) (path i) (path (suc i)) (linked i)
              (linked (suc i)) k l in
          let done = Done-iff (set_trace_pair (nodes i) (nodes (suc i)) k l) in
          let mem = contains_iff ⦃e = quad_eq⦄ (quad (path i) (path (suc i)) k l) q.trace_pairs in
          (λ h. done.0 (same.0 (mem.0 h)), λ t. mem.1 (same.1 (done.1 t)))

      progress_iff :
          (i : ℕ) (k l : Tag)
          → (progress_pair q (quad (path i) (path (suc i)) k l) ≡ true)
            ↔ ProgressPair p (nodes i) (nodes (suc i)) k l
      unfolding progress_pair
      progress_iff i k l =
          let same =
            contents.progress (nodes i) (nodes (suc i)) (path i) (path (suc i)) (linked i)
              (linked (suc i)) k l in
          let done = Done-iff (set_progress_pair (nodes i) (nodes (suc i)) k l) in
          let mem =
            contains_iff ⦃e = quad_eq⦄ (quad (path i) (path (suc i)) k l) q.progress_pairs in
          (λ h. done.0 (same.0 (mem.0 h)), λ t. mem.1 (same.1 (done.1 t)))

      to_abstract : ProgressingTrace q path → AbstractTrace p nodes
      to_abstract t = record {
        from = t.from;
        tags = t.tags;
        follows = λ i le. (trace_iff i (t.tags i) (t.tags (suc i))).0 (t.follows i le);
        progresses = λ n.
            let (i, le, after, hit) = t.progresses n in
            (i, le, after, (progress_iff i (t.tags i) (t.tags (suc i))).0 hit);
      }

      from_abstract : AbstractTrace p nodes → ProgressingTrace q path
      from_abstract t = record {
        from = t.from;
        tags = t.tags;
        follows = λ i le. (trace_iff i (t.tags i) (t.tags (suc i))).1 (t.follows i le);
        progresses = λ n.
            let (i, le, after, hit) = t.progresses n in
            (i, le, after, (progress_iff i (t.tags i) (t.tags (suc i))).1 hit);
      }

    IsNode-at : (path : ℕ → ℕ) → IsAbstractPath p init path → (i : ℕ) → IsNode p (path i)
    IsNode-at path h zero = rw h.starts v.start
    IsNode-at path h (suc i) =
        let (n, s, k, e) = h.follows i in
        let (n', there, _) = v.child (path i) n s k in subst (IsNode p) e (n', there)

    -- The condition on the graph is the condition on the abstract proof.
    pub condition_iff : GlobalTrace q ↔ GlobalTraceCondition p init
    condition_iff = (
      λ condition nodes h.
          let at_vertex = λ (i : ℕ). number_of (nodes i) (IsNode-at nodes h i) in
          let path = λ (i : ℕ). (at_vertex i).0 in
          let linked = λ (i : ℕ). (at_vertex i).1 in
          let is_path : IsPath q path = record {
            starts = some_injective (sym (linked 0) ∙ ap (find m) h.starts ∙ starts_at);
            follows = λ i. (edge_iff path nodes linked i).1 (h.follows i);
          } in
          ∥∥₁_map (condition path is_path) (to_abstract path nodes linked),
      λ condition path h.
          let at_node = λ (i : ℕ). names.onto (path i) (path_known q wf initial_known path h i) in
          let nodes = λ (i : ℕ). (at_node i).0 in
          let linked = λ (i : ℕ). (at_node i).1 in
          let is_path : IsAbstractPath p init nodes = record {
            starts =
                names.injective (nodes 0) init q.initial_vertex
                  (linked 0 ∙ ap (λ x. some x) h.starts) starts_at;
            follows = λ i. (edge_iff path nodes linked i).0 (h.follows i);
          } in
          ∥∥₁_map (condition nodes is_path) (from_abstract path nodes linked),
    )

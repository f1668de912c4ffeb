-- ===== src/Soundcheck/Calls/Forward.antt =====
-- The methods of class Proof on arguments that pass their assertions.
use cyclist.Base.{
  true, some, contains, contains_iff, Memᴰ, ◌≡◌, at, nat_eq, max, insert, insert_at, touch,
  at-touch,
}
use cyclist.Bdd.{BddLibrary, Vertex, vertex_eq}
use cyclist.Proof.{Proof, Tag, Quad, quad_eq, check_pair}
use cyclist.Proof
use cyclist.Proof.Invariant.{IsTagged, IsWellFormed}

module _ ⦃B : BddLibrary⦄ (p : Proof) where
  there : (v : Vertex) → Memᴰ v p.vertices → contains v p.vertices ≡ true
  there v m = (contains_iff v p.vertices).1 m

  pub tag_vertex-some :
      (v : Vertex) (t : Tag)
      → Memᴰ v p.vertices
      → Proof.tag_vertex p v t
        ≡ some
            (record p { max_tag = max p.max_tag t; tag_map = insert_at ⦃f = nat_eq⦄ v t p.tag_map })
  unfolding Proof.tag_vertex
  tag_vertex-some v t m = rw (there v m)

  pub set_successor-some :
      (u v : Vertex)
      → Memᴰ u p.vertices
      → Memᴰ v p.vertices
      → Proof.set_successor p u v ≡ some (record p { trans_map = insert_at u v p.trans_map })
  unfolding Proof.set_successor
  set_successor-some u v m n = rw (there u m, there v n)

  pub set_initial_vertex-some :
      (v : Vertex)
      → Memᴰ v p.vertices
      → Proof.set_initial_vertex p v ≡ some (record p { initial_vertex = v })
  unfolding Proof.set_initial_vertex
  set_initial_vertex-some v m = rw (there v m)

  module _ (wf : IsWellFormed p) (q : Quad) (known : IsTagged p q) where
    abbrev after : Proof
    after = record p { tag_map = touch q.target (touch q.source p.tag_map) }

    check_pair-some : check_pair p q ≡ some after
    unfolding check_pair
    check_pair-some = rw (
      there q.source (wf.tags_known q.source q.source_tag known.0).0,
      there q.target (wf.tags_known q.target q.target_tag known.1).0,
      at-touch q.source q.source p.tag_map,
      at-touch q.target q.target (touch q.source p.tag_map),
      at-touch q.target q.source p.tag_map,
      (contains_iff ⦃e = nat_eq⦄ q.source_tag (at p.tag_map q.source)).1 known.0,
      (contains_iff ⦃e = nat_eq⦄ q.target_tag (at p.tag_map q.target)).1 known.1,
    )

    pub set_trace_pair-some :
        Proof.set_trace_pair p q
        ≡ some (record after { trace_pairs = insert ⦃e = quad_eq⦄ q p.trace_pairs })
    unfolding Proof.set_trace_pair
    set_trace_pair-some = rw check_pair-some

    pub set_progress_pair-some :
        Proof.set_progress_pair p q
        ≡ some (record after { progress_pairs = insert ⦃e = quad_eq⦄ q p.progress_pairs })
    unfolding Proof.set_progress_pair
    set_progress_pair-some = rw check_pair-some

-- ===== src/Proof/Filling.antt =====
-- `tag_vertex`, `set_initial_vertex` and `set_successor` (src/generic/proof.c), and the invariant.
use cyclist.Base.{
  ◌≡◌, inl, inr, some, arith, contains, contains_iff, Memᴰ, nat_eq, max, assert-eq-some,
  mem-insert_at, Has-insert_at, insert_at,
}
use mathlib.Core.List.Memᴰ
use cyclist.Bdd.{BddLibrary, Vertex, vertex_eq}
use cyclist.Proof.{Proof, Quad, Tag, tag_vertex, set_initial_vertex, set_successor}
use cyclist.Proof.Invariant.{IsTagged, IsWellFormed}

module _ ⦃B : BddLibrary⦄ where
  -- What each operation does when no assertion fails.
  pub set_successor-eq :
      (p q : Proof) (v1 v2 : Vertex)
      → set_successor p v1 v2 ≡ some q
      → Memᴰ v1 p.vertices
        × Memᴰ v2 p.vertices
        × (q ≡ record p { trans_map = insert_at v1 v2 p.trans_map })
  unfolding set_successor
  set_successor-eq p q v1 v2 h =
      let (a, r) = assert-eq-some (contains v1 p.vertices) _ h in
      let (b, r') = assert-eq-some (contains v2 p.vertices) _ r in
      ((contains_iff v1 _).0 a, (contains_iff v2 _).0 b, cc)

  pub set_successor-IsWellFormed :
      (p q : Proof) (v1 v2 : Vertex)
      → IsWellFormed p
      → set_successor p v1 v2 ≡ some q
      → IsWellFormed q
  set_successor-IsWellFormed p q v1 v2 w h =
      let (a, b, e) = set_successor-eq p q v1 v2 h in
      rw e (record {
        props = w.props;
        room = w.room;
        numbered = w.numbered;
        has_succs = λ v m. Has-insert_at v v1 v2 p.trans_map (w.has_succs v m);
        has_tags = w.has_tags;
        succs_known = λ v u m. elim ((mem-insert_at v v1 u v2 p.trans_map).0 m) [
          | inl (s, t) ↦ (Memᴰ.cast s a, Memᴰ.cast t b)
          | inr old ↦ w.succs_known v u old
        ];
        tags_known = w.tags_known;
        traces_tagged = w.traces_tagged;
        progress_tagged = w.progress_tagged;
        initial_known = w.initial_known;
      })

  pub tag_vertex-eq :
      (p q : Proof) (v : Vertex) (t : Tag)
      → tag_vertex p v t ≡ some q
      → Memᴰ v p.vertices
        × (q ≡ record p {
          max_tag = max p.max_tag t;
          tag_map = insert_at ⦃f = nat_eq⦄ v t p.tag_map;
        })
  unfolding tag_vertex
  tag_vertex-eq p q v t h =
      let (a, r) = assert-eq-some (contains v p.vertices) _ h in ((contains_iff v _).0 a, cc)

  pub tag_vertex-IsWellFormed :
      (p q : Proof) (v : Vertex) (t : Tag)
      → IsWellFormed p
      → tag_vertex p v t ≡ some q
      → IsWellFormed q
  tag_vertex-IsWellFormed p q v t w h =
      let (a, e) = tag_vertex-eq p q v t h in
      let mem = λ (u : Vertex) (s : Tag). mem-insert_at ⦃f = nat_eq⦄ u v s t p.tag_map in
      let tagged = λ (x : Quad) (known : IsTagged p x).
        let k : IsTagged (record p { tag_map = insert_at ⦃f = nat_eq⦄ v t p.tag_map }) x = (
          (mem x.source x.source_tag).1 (inr known.0),
          (mem x.target x.target_tag).1 (inr known.1),
        ) in
        k in
      rw e (record {
        props = w.props;
        room = w.room;
        numbered = w.numbered;
        has_succs = w.has_succs;
        has_tags = λ u m. Has-insert_at ⦃f = nat_eq⦄ u v t p.tag_map (w.has_tags u m);
        succs_known = w.succs_known;
        tags_known = λ u s m. elim ((mem u s).0 m) [
          | inl (same, tag) ↦ (Memᴰ.cast same a, rw tag (omega arith))
          | inr old ↦ ((w.tags_known u s old).0, omega (arith, (w.tags_known u s old).1))
        ];
        traces_tagged = λ x m. tagged x (w.traces_tagged x m);
        progress_tagged = λ x m. tagged x (w.progress_tagged x m);
        initial_known = w.initial_known;
      })

  pub set_initial_vertex-eq :
      (p q : Proof) (v : Vertex)
      → set_initial_vertex p v ≡ some q
      → Memᴰ v p.vertices × (q ≡ record p { initial_vertex = v })
  unfolding set_initial_vertex
  set_initial_vertex-eq p q v h =
      let (a, r) = assert-eq-some (contains v p.vertices) _ h in ((contains_iff v _).0 a, cc)

  pub set_initial_vertex-IsWellFormed :
      (p q : Proof) (v : Vertex) → IsWellFormed p → set_initial_vertex p v ≡ some q → IsWellFormed q
  set_initial_vertex-IsWellFormed p q v w h =
      let (a, e) = set_initial_vertex-eq p q v h in
      rw e (record {
        props = w.props;
        room = w.room;
        numbered = w.numbered;
        has_succs = w.has_succs;
        has_tags = w.has_tags;
        succs_known = w.succs_known;
        tags_known = w.tags_known;
        traces_tagged = w.traces_tagged;
        progress_tagged = w.progress_tagged;
        initial_known = inr a;
      })

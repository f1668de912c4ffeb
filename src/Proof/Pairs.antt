-- ===== src/Proof/Pairs.antt =====
-- `set_trace_pair` and `set_progress_pair` (src/generic/proof.c), and the invariant.
use cyclist.Base.{
  ◌≡◌, ◌∙◌, some, contains, contains_iff, mem-insert, at, nat_eq, assert-eq-some, >>=-eq-some,
  at-touch, Has-touch, insert, touch, inl, inr,
}
use cyclist.Bdd.{BddLibrary, Vertex, vertex_eq}
use cyclist.Proof.{Proof, Quad, quad_eq, check_pair, set_trace_pair, set_progress_pair}
use cyclist.Proof.Invariant.{IsTagged, IsWellFormed}

module _ ⦃B : BddLibrary⦄ where
  abbrev touched : Proof → Quad → Proof
  touched p q = record p { tag_map = touch q.target (touch q.source p.tag_map) }

  at-touched : (p : Proof) (q : Quad) (v : Vertex) → at (touched p q).tag_map v ≡ at p.tag_map v
  at-touched p q v = at-touch v q.target (touch q.source p.tag_map) ∙ at-touch v q.source p.tag_map

  pub check_pair-eq :
      (p p' : Proof) (q : Quad) → check_pair p q ≡ some p' → IsTagged p q × (p' ≡ touched p q)
  unfolding check_pair
  check_pair-eq p p' q h =
      let (_, r) = assert-eq-some (contains q.source p.vertices) _ h in
      let (_, r') = assert-eq-some (contains q.target p.vertices) _ r in
      let m1 = touch q.source p.tag_map in
      let m2 = touch q.target m1 in
      let (s, r'') = assert-eq-some (contains ⦃e = nat_eq⦄ q.source_tag (at m1 q.source)) _ r' in
      let (t, last) = assert-eq-some (contains ⦃e = nat_eq⦄ q.target_tag (at m2 q.target)) _ r'' in
      (
        (
          rw (← at-touch q.source q.source p.tag_map) ((contains_iff ⦃e = nat_eq⦄ _ _).0 s),
          rw (← at-touched p q q.target) ((contains_iff ⦃e = nat_eq⦄ _ _).0 t),
        ),
        cc,
      )

  check_pair-IsWellFormed :
      (p p' : Proof) (q : Quad)
      → IsWellFormed p
      → check_pair p q ≡ some p'
      → IsWellFormed p' × IsTagged p' q
  check_pair-IsWellFormed p p' q w h =
      let (known, e) = check_pair-eq p p' q h in
      let same = at-touched p q in
      let keep = λ (x : Quad) (k : IsTagged p x).
        let k' : IsTagged (touched p q) x = (rw (same x.source) k.0, rw (same x.target) k.1) in
        k' in
      rw e (
        record {
          props = w.props;
          room = w.room;
          numbered = w.numbered;
          has_succs = w.has_succs;
          has_tags = λ v m.
              Has-touch v q.target (touch q.source p.tag_map)
                (inr (Has-touch v q.source p.tag_map (inr (w.has_tags v m))));
          succs_known = w.succs_known;
          tags_known = λ v t m. w.tags_known v t (rw (← same v) m);
          traces_tagged = λ x m. keep x (w.traces_tagged x m);
          progress_tagged = λ x m. keep x (w.progress_tagged x m);
          initial_known = w.initial_known;
        },
        keep q known,
      )

  with_trace :
      (p : Proof) (q : Quad)
      → IsWellFormed p
      → IsTagged p q
      → IsWellFormed (record p { trace_pairs = insert ⦃e = quad_eq⦄ q p.trace_pairs })
  with_trace p q w k = record {
    props = w.props;
    room = w.room;
    numbered = w.numbered;
    has_succs = w.has_succs;
    has_tags = w.has_tags;
    succs_known = w.succs_known;
    tags_known = w.tags_known;
    traces_tagged = λ x m. elim ((mem-insert ⦃e = quad_eq⦄ x q p.trace_pairs).0 m) [
      | inl new ↦ rw new k
      | inr old ↦ w.traces_tagged x old
    ];
    progress_tagged = w.progress_tagged;
    initial_known = w.initial_known;
  }

  with_progress :
      (p : Proof) (q : Quad)
      → IsWellFormed p
      → IsTagged p q
      → IsWellFormed (record p { progress_pairs = insert ⦃e = quad_eq⦄ q p.progress_pairs })
  with_progress p q w k = record {
    props = w.props;
    room = w.room;
    numbered = w.numbered;
    has_succs = w.has_succs;
    has_tags = w.has_tags;
    succs_known = w.succs_known;
    tags_known = w.tags_known;
    traces_tagged = w.traces_tagged;
    progress_tagged = λ x m. elim ((mem-insert ⦃e = quad_eq⦄ x q p.progress_pairs).0 m) [
      | inl new ↦ rw new k
      | inr old ↦ w.progress_tagged x old
    ];
    initial_known = w.initial_known;
  }

  pub set_trace_pair-IsWellFormed :
      (p r : Proof) (q : Quad) → IsWellFormed p → set_trace_pair p q ≡ some r → IsWellFormed r
  unfolding set_trace_pair
  set_trace_pair-IsWellFormed p r q w h =
      let (p', checked, made) = >>=-eq-some (check_pair p q) _ h in
      let (w', k) = check_pair-IsWellFormed p p' q w checked in
      let e : r ≡ record p' { trace_pairs = insert ⦃e = quad_eq⦄ q p'.trace_pairs } = cc in
      rw e (with_trace p' q w' k)

  pub set_progress_pair-IsWellFormed :
      (p r : Proof) (q : Quad) → IsWellFormed p → set_progress_pair p q ≡ some r → IsWellFormed r
  unfolding set_progress_pair
  set_progress_pair-IsWellFormed p r q w h =
      let (p', checked, made) = >>=-eq-some (check_pair p q) _ h in
      let (w', k) = check_pair-IsWellFormed p p' q w checked in
      let e : r ≡ record p' { progress_pairs = insert ⦃e = quad_eq⦄ q p'.progress_pairs } = cc in
      rw e (with_progress p' q w' k)

-- ===== src/Soundcheck/Calls/Contents.antt =====
-- The calls that fill the graph.
use cyclist.Base.{
  ℕ, some, List, Memᴰ, ◌≡◌, ◌≢◌, ◌↔◌, inl, inr, at, nat_eq, insert_at, mem-insert_at, refl, ap, ◌∙◌,
  subst, max, mem-insert, insert, touch, at-touch,
}
use mathlib.Core.Path.{ap₂}
use cyclist.Bdd.{BddLibrary, Vertex, vertex_eq}
use cyclist.Proof.{Proof, Tag, Quad, quad_eq}
use cyclist.Soundcheck.{
  Call, tag_vertex, set_successor, set_initial_vertex, set_trace_pair, set_progress_pair,
}
use cyclist.Soundcheck.Reflects.{Adds, lift, find, quad, Names, Contents, same_vertex_iff}

module _ ⦃B : BddLibrary⦄ {D : Call → Type 0} (p : Proof) {m : List (ℕ × Vertex)}
    (names : Names D p.vertices m) (old : Contents D p m) where
  starts_later :
      (c : Call)
      → ((i : ℕ) → set_initial_vertex i ≢ c)
      → (i : ℕ) → Adds c D (set_initial_vertex i)
      → ((j : ℕ) → Adds c D (set_initial_vertex j) → j ≡ i)
      → find m i ≡ some p.initial_vertex
  starts_later c other i (inl same) one = absurd (other i same)
  starts_later c other i (inr d) one = old.starts i d (λ j e. one j (inr e))

  pub tag-Contents :
      (i : ℕ) (t : Tag) (u : Vertex)
      → find m i ≡ some u
      → Contents
          (Adds (tag_vertex i t) D)
          (record p { max_tag = max p.max_tag t; tag_map = insert_at ⦃f = nat_eq⦄ u t p.tag_map })
          m
  tag-Contents i t u e = record {
    tags = λ j v f s.
        let mem = mem-insert_at ⦃f = nat_eq⦄ v u s t p.tag_map in
        let same = same_vertex_iff names j i v u f e in
        let before = old.tags j v f s in
        (
          λ k. elim (mem.0 k) [
            | inl (v_u, s_t) ↦ inl (ap₂ tag_vertex (same.0 v_u) s_t)
            | inr k' ↦ inr (before.0 k')
          ],
          elim [
            | inl call ↦ mem.1 (inl (same.1 (cc call), cc call))
            | inr d ↦ mem.1 (inr (before.1 d))
          ],
        );
    succs = λ j j' v v' f f'. lift D _ _ (λ h. cc h) (old.succs j j' v v' f f');
    traces = λ j j' v v' f f' k l. lift D _ _ (λ h. cc h) (old.traces j j' v v' f f' k l);
    progress = λ j j' v v' f f' k l. lift D _ _ (λ h. cc h) (old.progress j j' v v' f f' k l);
    starts = starts_later (tag_vertex i t) (λ j h. cc h);
  }

  pub succ-Contents :
      (i i' : ℕ) (u u' : Vertex)
      → find m i ≡ some u
      → find m i' ≡ some u'
      → Contents
          (Adds (set_successor i i') D)
          (record p { trans_map = insert_at u u' p.trans_map })
          m
  succ-Contents i i' u u' e e' = record {
    tags = λ j v f s. lift D _ _ (λ h. cc h) (old.tags j v f s);
    succs = λ j j' v v' f f'.
        let mem = mem-insert_at v u v' u' p.trans_map in
        let same = same_vertex_iff names j i v u f e in
        let same' = same_vertex_iff names j' i' v' u' f' e' in
        let before = old.succs j j' v v' f f' in
        (
          λ k. elim (mem.0 k) [
            | inl (a, b) ↦ inl (ap₂ set_successor (same.0 a) (same'.0 b))
            | inr k' ↦ inr (before.0 k')
          ],
          elim [
            | inl call ↦ mem.1 (inl (same.1 (cc call), same'.1 (cc call)))
            | inr d ↦ mem.1 (inr (before.1 d))
          ],
        );
    traces = λ j j' v v' f f' k l. lift D _ _ (λ h. cc h) (old.traces j j' v v' f f' k l);
    progress = λ j j' v v' f f' k l. lift D _ _ (λ h. cc h) (old.progress j j' v v' f f' k l);
    starts = starts_later (set_successor i i') (λ j h. cc h);
  }

  pub start-Contents :
      (i : ℕ) (u : Vertex)
      → find m i ≡ some u
      → Contents (Adds (set_initial_vertex i) D) (record p { initial_vertex = u }) m
  start-Contents i u e = record {
    tags = λ j v f s. lift D _ _ (λ h. cc h) (old.tags j v f s);
    succs = λ j j' v v' f f'. lift D _ _ (λ h. cc h) (old.succs j j' v v' f f');
    traces = λ j j' v v' f f' k l. lift D _ _ (λ h. cc h) (old.traces j j' v v' f f' k l);
    progress = λ j j' v v' f f' k l. lift D _ _ (λ h. cc h) (old.progress j j' v v' f f' k l);
    starts = λ j d one. subst (λ x. find m x ≡ some u) (one i (inl refl)) e;
  }

  -- The tables that `check_pair` may extend hold the same tags.
  module _ (q : Quad) where
    abbrev pub touched : Proof
    touched = record p { tag_map = touch q.target (touch q.source p.tag_map) }

    at-touched : (v : Vertex) → at touched.tag_map v ≡ at p.tag_map v
    at-touched v = at-touch v q.target (touch q.source p.tag_map) ∙ at-touch v q.source p.tag_map

    tags-touched :
        (c : Call)
        → ((j : ℕ) (t : Tag) → tag_vertex j t ≢ c)
        → (j : ℕ) (v : Vertex) → find m j ≡ some v
        → (t : Tag) → Memᴰ t (at touched.tag_map v) ↔ Adds c D (tag_vertex j t)
    tags-touched c other j v f t =
        rw (at-touched v) (lift D c (tag_vertex j t) (other j t) (old.tags j v f t))

  module _ (i i' : ℕ) (u u' : Vertex) (s t : Tag) (e : find m i ≡ some u)
      (e' : find m i' ≡ some u') where
    same_quad :
        (j j' : ℕ) (v v' : Vertex) (k l : Tag)
        → find m j ≡ some v
        → find m j' ≡ some v'
        → (quad v v' k l ≡ quad u u' s t) ↔ ((j ≡ i) × (j' ≡ i') × (k ≡ s) × (l ≡ t))
    same_quad j j' v v' k l f f' =
        let same = same_vertex_iff names j i v u f e in
        let same' = same_vertex_iff names j' i' v' u' f' e' in
        (
          λ h. (
            same.0 (ap (λ x. x.source) h),
            same'.0 (ap (λ x. x.target) h),
            ap (λ x. x.source_tag) h,
            ap (λ x. x.target_tag) h,
          ),
          λ (a, b, c, d). λ x. quad (same.1 a x) (same'.1 b x) (c x) (d x),
        )

    pub trace-Contents :
        Contents
          (Adds (set_trace_pair i i' s t) D)
          (record (touched (quad u u' s t)) {
            trace_pairs = insert ⦃e = quad_eq⦄ (quad u u' s t) p.trace_pairs;
          })
          m
    trace-Contents = record {
      tags = tags-touched (quad u u' s t) _ (λ j r h. cc h);
      succs = λ j j' v v' f f'. lift D _ _ (λ h. cc h) (old.succs j j' v v' f f');
      traces = λ j j' v v' f f' k l.
          let mem = mem-insert ⦃e = quad_eq⦄ (quad v v' k l) (quad u u' s t) p.trace_pairs in
          let same = same_quad j j' v v' k l f f' in
          let before = old.traces j j' v v' f f' k l in
          (
            λ h. elim (mem.0 h) [
              | inl new ↦
                  let (a, b, c, d) = same.0 new in inl (λ x. set_trace_pair (a x) (b x) (c x) (d x))
              | inr k' ↦ inr (before.0 k')
            ],
            elim [
              | inl call ↦ mem.1 (inl (same.1 (cc call, cc call, cc call, cc call)))
              | inr d ↦ mem.1 (inr (before.1 d))
            ],
          );
      progress = λ j j' v v' f f' k l. lift D _ _ (λ h. cc h) (old.progress j j' v v' f f' k l);
      starts = starts_later _ (λ j h. cc h);
    }

    pub progress-Contents :
        Contents
          (Adds (set_progress_pair i i' s t) D)
          (record (touched (quad u u' s t)) {
            progress_pairs = insert ⦃e = quad_eq⦄ (quad u u' s t) p.progress_pairs;
          })
          m
    progress-Contents = record {
      tags = tags-touched (quad u u' s t) _ (λ j r h. cc h);
      succs = λ j j' v v' f f'. lift D _ _ (λ h. cc h) (old.succs j j' v v' f f');
      traces = λ j j' v v' f f' k l. lift D _ _ (λ h. cc h) (old.traces j j' v v' f f' k l);
      progress = λ j j' v v' f f' k l.
          let mem = mem-insert ⦃e = quad_eq⦄ (quad v v' k l) (quad u u' s t) p.progress_pairs in
          let same = same_quad j j' v v' k l f f' in
          let before = old.progress j j' v v' f f' k l in
          (
            λ h. elim (mem.0 h) [
              | inl new ↦
                  let (a, b, c, d) = same.0 new in
                  inl (λ x. set_progress_pair (a x) (b x) (c x) (d x))
              | inr k' ↦ inr (before.0 k')
            ],
            elim [
              | inl call ↦ mem.1 (inl (same.1 (cc call, cc call, cc call, cc call)))
              | inr d ↦ mem.1 (inr (before.1 d))
            ],
          );
      starts = starts_later _ (λ j h. cc h);
    }

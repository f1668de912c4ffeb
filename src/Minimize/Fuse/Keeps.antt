-- ===== src/Minimize/Fuse/Keeps.antt =====
-- One round of `fuse_single_nodes` (src/generic/soundcheck.ml) and the tests of `valid`.
use cyclist.Base.{ℕ, Memᴰ, ◌≡◌, inl, inr, refl, sym, ap, subst, ◌∙◌}
use cyclist.Proof.{Tag}
use cyclist.Soundcheck.{AbstractProof, AbstractNode, Premise}
use cyclist.Minimize.{bypass}
use cyclist.Minimize.First.{map_first}
use cyclist.Minimize.Premises.{leads_to, DistinctChildren, map_first-DistinctChildren}
use cyclist.Minimize.Bindings.{mem-map_premises, mem-remove, remove-IsMap, map_premises-IsMap}
use cyclist.Minimize.Good.{IsGood}
use cyclist.Minimize.Fuse.{
  past, IsFusible, bypass-child, bypass-tag_pairs, bypass-progress, kept_node, led, Origin, origin,
}

module _ (p : AbstractProof) (init idx : ℕ) (s : Premise) (good : IsGood p init)
    (fit : IsFusible p init idx s) where
  closed_child :
      (i : ℕ) (n' : AbstractNode) (t : Premise) (o : Origin p init idx s good fit i n' t)
      → (c : AbstractNode) × Memᴰ (t.child, c) (past idx s p)
        × ((k l : Tag) → Memᴰ (k, l) t.tag_pairs → Memᴰ k n'.tags × Memᴰ l c.tags)
  closed_child i n' t o =
      let tags' : n'.tags ≡ o.node.tags = ap (λ (w : AbstractNode). w.tags) o.same in
      elim o.source [
        | inl (k, other) ↦
            let (c, m, inside) = good.closed.child i o.node t (o.there, k) in
            (
              _,
              kept_node p init idx s good fit t.child c m other,
              λ a b pair.
                  let (at_a, at_b) = inside a b pair in
                  (subst (λ ts. Memᴰ a ts) (sym tags') at_a, at_b),
            )
        | inr (x, k, _, same) ↦
            let (_, _, up) = good.closed.child i o.node x (o.there, k) in
            let (c, m, down) = good.closed.child idx _ s (fit.node, Memᴰ.head refl) in
            let to : t.child ≡ s.child = ap (λ (y : Premise). y.child) same ∙ bypass-child s x in
            let here = kept_node p init idx s good fit s.child c m fit.not_self in
            (
              _,
              subst (λ q. Memᴰ (q, led p init idx s good fit c) (past idx s p)) (sym to) here,
              λ a b pair.
                  let (q, one, two) =
                    (bypass-tag_pairs s x a b).0
                      (subst (λ (y : Premise). Memᴰ (a, b) y.tag_pairs) same pair) in
                  (subst (λ ts. Memᴰ a ts) (sym tags') (up a q one).0, (down q b two).1),
            )
      ]

  -- The round leaves a good abstract proof.
  pub past-IsGood : IsGood (past idx s p) init
  past-IsGood = record {
    is_map = remove-IsMap idx _ (map_premises-IsMap _ p good.is_map);
    distinct = λ i n' m.
        let (m', _) = (mem-remove idx _ i n').0 m in
        let (n, at_i, e) = (mem-map_premises (map_first (leads_to idx) (bypass s)) p i n').0 m' in
        subst (λ (w : AbstractNode). DistinctChildren w.subg) (sym e)
          (map_first-DistinctChildren idx (bypass s) n.subg s.child (bypass-child s)
            (good.distinct i n at_i)
            (λ x k e' t k' e''. fit.no_father i (n, x, (at_i, k), e') (n, t, (at_i, k'), e'')));
    closed = record {
      start =
          let (n, m) = good.closed.start in
          (_, kept_node p init idx s good fit init n m λ e. fit.not_init (sym e));
      child = λ i n' t hp. closed_child i n' t (origin p init idx s good fit i n' t hp);
      progress_in = λ i n' t hp y m.
          let o = origin p init idx s good fit i n' t hp in
          elim o.source [
            | inl (k, _) ↦ good.closed.progress_in i o.node t (o.there, k) y m
            | inr (x, k, _, same) ↦
                let s_in = good.closed.progress_in idx _ s (fit.node, Memᴰ.head refl) in
                let (q, one, two, _) =
                  (bypass-progress s x y.0 y.1 s_in
                      (good.closed.progress_in i o.node x (o.there, k))).0
                    (subst (λ (z : Premise). Memᴰ (y.0, y.1) z.progress) same m) in
                subst (λ (z : Premise). Memᴰ (y.0, y.1) z.tag_pairs) (sym same)
                  ((bypass-tag_pairs s x y.0 y.1).1 (q, one, two))
          ];
    };
  }

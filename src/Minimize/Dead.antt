-- ===== src/Minimize/Dead.antt =====
-- One round of `remove_dead_nodes` (src/generic/soundcheck.ml) and the infinite paths.
use cyclist.Base.{
  ℕ, suc, List, [], Memᴰ, ◌≡◌, ◌≢◌, ◌↔◌, refl, sym, ap, subst, ◌∙◌, ∥∥₁_map, inl, inr,
}
use mathlib.Core.List.Memᴰ
use cyclist.Proof.{Tag}
use cyclist.Soundcheck.{AbstractProof, AbstractNode, Premise}
use cyclist.Soundcheck.Valid.{HasPremise}
use cyclist.Soundcheck.Meaning.{Edge, TracePair, ProgressPair}
use cyclist.Soundcheck.Condition.{IsAbstractPath, GlobalTraceCondition}
use cyclist.Minimize.{with_subg}
use cyclist.Minimize.Maps.{remove}
use cyclist.Minimize.First.{without_first}
use cyclist.Minimize.Premises.{
  leads_to, DistinctChildren, mem-without_first, without_first-DistinctChildren,
}
use cyclist.Minimize.Bindings.{
  map_premises, mem-map_premises, mem-remove, remove-IsMap, map_premises-IsMap, IsMap-unique,
}
use cyclist.Minimize.Good.{IsGood, IsKept}

-- What the round leaves.
abbrev pub without : ℕ → AbstractProof → AbstractProof
without idx p = map_premises (without_first (leads_to idx)) (remove idx p)

module _ (p : AbstractProof) (init idx : ℕ) (good : IsGood p init) where
  kept_node :
      (i : ℕ) (n : AbstractNode)
      → Memᴰ (i, n) p
      → i ≢ idx
      → Memᴰ (i, with_subg n (without_first (leads_to idx) n.subg)) (without idx p)
  kept_node i n m other =
      (mem-map_premises (without_first (leads_to idx)) (remove idx p) i _).1
        (n, (mem-remove idx p i n).1 (m, other), refl)

  -- A premise that is kept.
  keep :
      (i : ℕ) (n : AbstractNode) (s : Premise)
      → HasPremise p i n s
      → i ≢ idx
      → s.child ≢ idx
      → HasPremise (without idx p) i (with_subg n (without_first (leads_to idx) n.subg)) s
  keep i n s (m, k) other other' =
      (kept_node i n m other, (mem-without_first idx n.subg s (good.distinct i n m)).1 (k, other'))

  -- Where a premise comes from.
  pub record Origin (i : ℕ) (n' : AbstractNode) (s : Premise) : Type 0 where
    pub node : AbstractNode
    pub premise : HasPremise p i node s
    pub same_tags : n'.tags ≡ node.tags
    pub not_source : i ≢ idx
    pub not_target : s.child ≢ idx

  origin :
      (i : ℕ) (n' : AbstractNode) (s : Premise) → HasPremise (without idx p) i n' s → Origin i n' s
  origin i n' s (m, k) =
      let (n, m', e) = (mem-map_premises (without_first (leads_to idx)) (remove idx p) i n').0 m in
      let (at_i, other) = (mem-remove idx p i n).0 m' in
      let k' = subst (λ (w : AbstractNode). Memᴰ s w.subg) e k in
      let (at_s, other') = (mem-without_first idx n.subg s (good.distinct i n at_i)).0 k' in
      record {
        node = n;
        premise = (at_i, at_s);
        same_tags = ap (λ (w : AbstractNode). w.tags) e;
        not_source = other;
        not_target = other';
      }

  edge_iff : (i j : ℕ) → Edge (without idx p) i j ↔ (Edge p i j × (i ≢ idx) × (j ≢ idx))
  edge_iff i j = (
    λ (n, s, h, e).
        let o = origin i n s h in
        ((o.node, s, o.premise, e), o.not_source, λ e'. o.not_target (e ∙ e')),
    λ ((n, s, h, e), other, other'). (_, s, keep i n s h other (λ e'. other' (sym e ∙ e')), e),
  )

  trace_iff :
      (i j : ℕ) (k l : Tag)
      → i ≢ idx
      → j ≢ idx
      → TracePair (without idx p) i j k l ↔ TracePair p i j k l
  trace_iff i j k l other other' = (
    λ (n, s, h, e, m). let o = origin i n s h in (o.node, s, o.premise, e, m),
    λ (n, s, h, e, m). (_, s, keep i n s h other (λ e'. other' (sym e ∙ e')), e, m),
  )

  progress_iff :
      (i j : ℕ) (k l : Tag)
      → i ≢ idx
      → j ≢ idx
      → ProgressPair (without idx p) i j k l ↔ ProgressPair p i j k l
  progress_iff i j k l other other' = (
    λ (n, s, h, e, m). let o = origin i n s h in (o.node, s, o.premise, e, m),
    λ (n, s, h, e, m). (_, s, keep i n s h other (λ e'. other' (sym e ∙ e')), e, m),
  )

  module _ (tags : List Tag) (leaf : Memᴰ (idx, record { tags = tags; subg = [] }) p) where
    leaf-stuck : (j : ℕ) → ¬ Edge p idx j
    leaf-stuck j (n, s, (m, k), e) =
        let same = IsMap-unique p idx n (record { tags = tags; subg = [] }) good.is_map m leaf in
        Memᴰ.not-nil (subst (λ (w : AbstractNode). Memᴰ s w.subg) same k)

    alive : (path : ℕ → ℕ) → IsAbstractPath p init path → (i : ℕ) → path i ≢ idx
    alive path h i e =
        leaf-stuck (path (suc i)) (subst (λ q. Edge p q (path (suc i))) e (h.follows i))

    without-IsAbstractPath :
        (path : ℕ → ℕ) → IsAbstractPath p init path → IsAbstractPath (without idx p) init path
    without-IsAbstractPath path h =
        let live = alive path h in
        record {
          starts = h.starts;
          follows = λ i. (edge_iff (path i) (path (suc i))).1 (h.follows i, live i, live (suc i));
        }

    -- The leaf is not the initial node, unless that is 0, and the initial node is kept again.
    pub kept-other : IsKept p init → idx ≢ 0 → idx ≢ init
    kept-other (inl root) other e = other (e ∙ root)
    kept-other (inr (path, h)) other e = alive path h 0 (h.starts ∙ sym e)

    pub without-IsKept : IsKept p init → IsKept (without idx p) init
    without-IsKept (inl root) = inl root
    without-IsKept (inr (path, h)) = inr (path, without-IsAbstractPath path h)

    pub without-GlobalTraceCondition :
        GlobalTraceCondition (without idx p) init ↔ GlobalTraceCondition p init
    without-GlobalTraceCondition = (
      λ condition path h.
          let live = alive path h in
          ∥∥₁_map (condition path (without-IsAbstractPath path h)) λ t. record {
            from = t.from;
            tags = t.tags;
            follows = λ i le. (trace_iff _ _ _ _ (live i) (live (suc i))).0 (t.follows i le);
            progresses = λ n.
                let (i, le, after, hit) = t.progresses n in
                (i, le, after, (progress_iff _ _ _ _ (live i) (live (suc i))).0 hit);
          },
      λ condition path h.
          let h' : IsAbstractPath p init path = record {
            starts = h.starts;
            follows = λ i. ((edge_iff (path i) (path (suc i))).0 (h.follows i)).0;
          } in
          let live = alive path h' in
          ∥∥₁_map (condition path h') λ t. record {
            from = t.from;
            tags = t.tags;
            follows = λ i le. (trace_iff _ _ _ _ (live i) (live (suc i))).1 (t.follows i le);
            progresses = λ n.
                let (i, le, after, hit) = t.progresses n in
                (i, le, after, (progress_iff _ _ _ _ (live i) (live (suc i))).1 hit);
          },
    )

  -- The round leaves a good abstract proof.
  pub without-IsGood : idx ≢ init → IsGood (without idx p) init
  without-IsGood other = record {
    is_map = map_premises-IsMap _ (remove idx p) (remove-IsMap idx p good.is_map);
    distinct = λ i n' m.
        let (n, m', e) =
          (mem-map_premises (without_first (leads_to idx)) (remove idx p) i n').0 m in
        let (at_i, _) = (mem-remove idx p i n).0 m' in
        subst (λ (w : AbstractNode). DistinctChildren w.subg) (sym e)
          (without_first-DistinctChildren idx n.subg (good.distinct i n at_i));
    closed = record {
      start = let (n, m) = good.closed.start in (_, kept_node init n m λ e. other (sym e));
      child = λ i n' s h.
          let o = origin i n' s h in
          let (c, m, inside) = good.closed.child i o.node s o.premise in
          (
            _,
            kept_node s.child c m o.not_target,
            λ k l pair.
                let (at_k, at_l) = inside k l pair in
                (subst (λ ts. Memᴰ k ts) (sym o.same_tags) at_k, at_l),
          );
      progress_in = λ i n' s h x m.
          let o = origin i n' s h in good.closed.progress_in i o.node s o.premise x m;
    };
  }

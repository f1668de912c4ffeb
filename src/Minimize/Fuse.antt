-- ===== src/Minimize/Fuse.antt =====
-- One round of `fuse_single_nodes` (src/generic/soundcheck.ml): the edges and pairs that it leaves.
pub mod Edges
mod Pairs
mod Fits
pub mod Paths
pub mod Keeps
use cyclist.Base.{
  ℕ, suc, Bool, true, false, List, [], ◌∷◌, Memᴰ, ◌≡◌, ◌≢◌, ◌↔◌, ◌⊎◌, inl, inr, refl, sym, ap,
  subst, ◌∙◌, ◌==◌, ==_iff, ◌&&◌, arith, Bool-cases,
}
use mathlib.Core.List.Memᴰ
use cyclist.Proof.{Tag}
use cyclist.Soundcheck.{AbstractProof, AbstractNode, Premise}
use cyclist.Soundcheck.Valid.{HasPremise, IsClosed}
use cyclist.Soundcheck.Meaning.{Edge, TracePair, ProgressPair}
use cyclist.Minimize.{with_subg, bypass, compose, TagPairs}
use cyclist.Minimize.Maps.{remove}
use cyclist.Minimize.Pairs.{mem-compose, mem-union_of_list}
use cyclist.Minimize.First.{map_first}
use cyclist.Minimize.Premises.{
  leads_to, DistinctChildren, Led, mem-map_first, map_first-DistinctChildren,
}
use cyclist.Minimize.Bindings.{
  map_premises, mem-map_premises, mem-remove, remove-IsMap, map_premises-IsMap, IsMap-unique,
}
use cyclist.Minimize.Exists.{has_edge, has_edge_iff}
use cyclist.Minimize.Good.{IsGood}

-- What the round leaves: the node `idx` had the premise `s` only.
abbrev pub past : ℕ → Premise → AbstractProof → AbstractProof
past idx s p = remove idx (map_premises (map_first (leads_to idx) (bypass s)) p)

-- What makes a node fit to be fused.
pub record IsFusible (p : AbstractProof) (init idx : ℕ) (s : Premise) : Type 0 where
  pub tags : List Tag
  pub node : Memᴰ (idx, record { tags = tags; subg = s ∷ [] }) p
  pub not_init : idx ≢ init
  pub not_self : s.child ≢ idx
  pub no_father : (i : ℕ) → Edge p i idx → ¬ Edge p i s.child

pub bypass-tag_pairs :
    (s x : Premise) (k l : Tag)
    → Memᴰ (k, l) (bypass s x).tag_pairs
      ↔ ((m : Tag) × Memᴰ (k, m) x.tag_pairs × Memᴰ (m, l) s.tag_pairs)
unfolding bypass
bypass-tag_pairs s x k l = mem-compose x.tag_pairs s.tag_pairs k l

pub bypass-child : (s x : Premise) → (bypass s x).child ≡ s.child
unfolding bypass
bypass-child s x = refl

-- A progressing pair of the bypass goes through a progressing pair of one of the premises.
pub bypass-progress :
    (s x : Premise) (k l : Tag)
    → ((y : Tag × Tag) → Memᴰ y s.progress → Memᴰ y s.tag_pairs)
    → ((y : Tag × Tag) → Memᴰ y x.progress → Memᴰ y x.tag_pairs)
    → Memᴰ (k, l) (bypass s x).progress ↔ (
        (m : Tag) × Memᴰ (k, m) x.tag_pairs
        × Memᴰ (m, l) s.tag_pairs
        × (Memᴰ (k, m) x.progress ⊎ Memᴰ (m, l) s.progress))
unfolding bypass
bypass-progress s x k l s_in x_in =
    let c1 = compose x.progress s.progress in
    let c2 = compose x.tag_pairs s.progress in
    let c3 = compose x.progress s.tag_pairs in
    let all = mem-union_of_list (c1 ∷ c2 ∷ c3 ∷ []) (k, l) in
    (
      λ h.
          let (t, at_t, m) = all.0 h in
          elim (Memᴰ.cases_cons at_t) [
            | inl e ↦
                let (q, a, b) =
                  (mem-compose x.progress s.progress k l).0 (subst (Memᴰ (k, l)) e m) in
                (q, x_in (k, q) a, s_in (q, l) b, inl a)
            | inr at_t' ↦ elim (Memᴰ.cases_cons at_t') [
              | inl e ↦
                  let (q, a, b) =
                    (mem-compose x.tag_pairs s.progress k l).0 (subst (Memᴰ (k, l)) e m) in
                  (q, a, s_in (q, l) b, inr b)
              | inr last ↦
                  let e = Memᴰ.eq_of_singleton last in
                  let (q, a, b) =
                    (mem-compose x.progress s.tag_pairs k l).0 (subst (Memᴰ (k, l)) e m) in
                  (q, x_in (k, q) a, b, inl a)
            ]
          ],
      λ (q, a, b, how). elim how [
        | inl hit ↦ all.1 (
          c3,
          Memᴰ.tail (Memᴰ.tail (Memᴰ.head refl)),
          (mem-compose x.progress s.tag_pairs k l).1 (q, hit, b),
        )
        | inr hit ↦
            all.1 (
              c2,
              Memᴰ.tail (Memᴰ.head refl),
              (mem-compose x.tag_pairs s.progress k l).1 (q, a, hit),
            )
      ],
    )

module _ (p : AbstractProof) (init idx : ℕ) (s : Premise) (good : IsGood p init)
    (fit : IsFusible p init idx s) where
  abbrev pub led : AbstractNode → AbstractNode
  led n = with_subg n (map_first (leads_to idx) (bypass s) n.subg)

  pub kept_node :
      (i : ℕ) (n : AbstractNode) → Memᴰ (i, n) p → i ≢ idx → Memᴰ (i, led n) (past idx s p)
  kept_node i n m other =
      (mem-remove idx _ i (led n)).1
        ((mem-map_premises (map_first (leads_to idx) (bypass s)) p i (led n)).1 (n, m, refl), other)

  -- A premise that is kept, or led past the fused node.
  abbrev From : AbstractNode → Premise → Type 0
  From n t = (Memᴰ t n.subg × (t.child ≢ idx)) ⊎ Led idx (bypass s) n.subg t

  pub keep :
      (i : ℕ) (n : AbstractNode) (t : Premise)
      → Memᴰ (i, n) p
      → i ≢ idx
      → From n t
      → HasPremise (past idx s p) i (led n) t
  keep i n t m other from =
      (kept_node i n m other, (mem-map_first idx (bypass s) n.subg t (good.distinct i n m)).1 from)

  pub record Origin (i : ℕ) (n' : AbstractNode) (t : Premise) : Type 0 where
    pub node : AbstractNode
    pub there : Memᴰ (i, node) p
    pub same : n' ≡ led node
    pub not_source : i ≢ idx
    pub source : From node t

  pub origin :
      (i : ℕ) (n' : AbstractNode) (t : Premise) → HasPremise (past idx s p) i n' t → Origin i n' t
  origin i n' t (m, k) =
      let (m', other) = (mem-remove idx _ i n').0 m in
      let (n, at_i, e) = (mem-map_premises (map_first (leads_to idx) (bypass s)) p i n').0 m' in
      let k' = subst (λ (w : AbstractNode). Memᴰ t w.subg) e k in
      record {
        node = n;
        there = at_i;
        same = e;
        not_source = other;
        source = (mem-map_first idx (bypass s) n.subg t (good.distinct i n at_i)).0 k';
      }

-- ===== src/Minimize/Fuse/Edges.antt =====
-- The edges and pairs after one round of `fuse_single_nodes` (src/generic/soundcheck.ml).
use cyclist.Base.{
  ℕ, Bool, true, false, [], ◌∷◌, Memᴰ, ◌≡◌, ◌≢◌, ◌↔◌, inl, inr, refl, sym, ap, subst, ◌∙◌, ◌==◌,
  ==_iff, ◌&&◌, arith, Bool-cases,
}
use mathlib.Core.List.Memᴰ
use cyclist.Soundcheck.{AbstractProof, AbstractNode, Premise}
use cyclist.Soundcheck.Valid.{HasPremise}
use cyclist.Soundcheck.Meaning.{Edge}
use cyclist.Minimize.{bypass}
use cyclist.Minimize.Premises.{DistinctChildren-unique}
use cyclist.Minimize.Bindings.{IsMap-unique}
use cyclist.Minimize.Exists.{has_edge, has_edge_iff}
use cyclist.Minimize.Good.{IsGood}
use cyclist.Minimize.Fuse.{past, IsFusible, bypass-child, keep, origin}

and_cases : (a b : Bool) → ((a && b) ≡ true) ↔ ((a ≡ true) × (b ≡ true))
and_cases a b = ground arith

module _ (p : AbstractProof) (init idx : ℕ) (s : Premise) (good : IsGood p init)
    (fit : IsFusible p init idx s) where
  -- The step that goes through the fused node.
  pub jumps : ℕ → ℕ → Bool
  jumps i j = has_edge p i idx && j == s.child

  pub jumps_iff : (i j : ℕ) → (jumps i j ≡ true) ↔ (Edge p i idx × (j ≡ s.child))
  unfolding jumps
  jumps_iff i j = (
    λ h.
        let (e1, e2) = (and_cases (has_edge p i idx) (j == s.child)).0 h in
        ((has_edge_iff p i idx).0 e1, (==_iff j s.child).0 e2),
    λ (e1, e2).
        (and_cases (has_edge p i idx) (j == s.child)).1
          ((has_edge_iff p i idx).1 e1, (==_iff j s.child).1 e2),
  )

  pub only_premise : (n : AbstractNode) (t : Premise) → HasPremise p idx n t → t ≡ s
  only_premise n t (m, k) =
      let same =
        IsMap-unique p idx n (record { tags = fit.tags; subg = s ∷ [] }) good.is_map m fit.node in
      Memᴰ.eq_of_singleton (subst (λ (w : AbstractNode). Memᴰ t w.subg) same k)

  pub same_premise :
      (i k : ℕ) (n m : AbstractNode) (x y : Premise)
      → HasPremise p i n x
      → HasPremise p i m y
      → x.child ≡ k
      → y.child ≡ k
      → y ≡ x
  same_premise i k n m x y (at_n, at_x) (at_m, at_y) e e' =
      let same = IsMap-unique p i m n good.is_map at_m at_n in
      DistinctChildren-unique n.subg y x (good.distinct i n at_n)
        (subst (λ (w : AbstractNode). Memᴰ y w.subg) same at_y) at_x (e' ∙ sym e)

  pub edge_from : (j : ℕ) → Edge p idx j → j ≡ s.child
  edge_from j (n, t, h, e) = sym e ∙ ap (λ (x : Premise). x.child) (only_premise n t h)

  pub edge_out : Edge p idx s.child
  edge_out = (record { tags = fit.tags; subg = s ∷ [] }, s, (fit.node, Memᴰ.head refl), refl)

  pub past_apart : (i j : ℕ) → Edge (past idx s p) i j → (i ≢ idx) × (j ≢ idx)
  past_apart i j (n', t, h, e) =
      let o = origin p init idx s good fit i n' t h in
      (
        o.not_source,
        elim o.source [
          | inl (_, other) ↦ λ e'. other (e ∙ e')
          | inr (x, _, _, same) ↦ λ e'.
              fit.not_self
                (sym (bypass-child s x) ∙ sym (ap (λ (y : Premise). y.child) same) ∙ e ∙ e')
        ],
      )

  pub edge_jump : (i j : ℕ) → i ≢ idx → jumps i j ≡ true → Edge (past idx s p) i j
  edge_jump i j other h =
      let ((n, x, (m, k), e), to) = (jumps_iff i j).0 h in
      (
        _,
        bypass s x,
        keep p init idx s good fit i n (bypass s x) m other (inr (x, k, e, refl)),
        bypass-child s x ∙ sym to,
      )

  -- A premise of `i` that leads to `j` after the round was a premise before it, or was led past
  -- the fused node.
  pub led_jumps :
      (i j : ℕ) (n : AbstractNode) (t x : Premise)
      → Memᴰ (i, n) p
      → Memᴰ x n.subg
      → x.child ≡ idx
      → t ≡ bypass s x
      → t.child ≡ j
      → jumps i j ≡ true
  led_jumps i j n t x m k e same to =
      (jumps_iff i j).1
        ((n, x, (m, k), e), sym to ∙ ap (λ (y : Premise). y.child) same ∙ bypass-child s x)

  pub edge_plain : (i j : ℕ) → jumps i j ≡ false → Edge (past idx s p) i j → Edge p i j
  edge_plain i j h (n', t, hp, e) =
      let o = origin p init idx s good fit i n' t hp in
      elim o.source [
        | inl (k, _) ↦ (o.node, t, (o.there, k), e)
        | inr (x, k, e', same) ↦ cc (h, led_jumps i j o.node t x o.there k e' same e)
      ]

  pub edge_kept : (i j : ℕ) → i ≢ idx → j ≢ idx → Edge p i j → Edge (past idx s p) i j
  edge_kept i j other other' (n, t, (m, k), e) =
      (_, t, keep p init idx s good fit i n t m other (inl (k, λ e'. other' (sym e ∙ e'))), e)

  pub no_jump : (i j : ℕ) → Edge p i j → j ≢ idx → jumps i j ≡ false
  no_jump i j edge other = elim (Bool-cases (jumps i j)) [
    | inr h ↦ h
    | inl h ↦
        let (up, to) = (jumps_iff i j).0 h in absurd (fit.no_father i up (subst (Edge p i) to edge))
  ]

  -- A premise after the round of a node that jumps to `j`.
  pub jump_source :
      (i j : ℕ) (n' : AbstractNode) (t : Premise)
      → jumps i j ≡ true
      → HasPremise (past idx s p) i n' t
      → t.child ≡ j
      → (n : AbstractNode) × (x : Premise) × Memᴰ (i, n) p
        × Memᴰ x n.subg
        × (x.child ≡ idx)
        × (t ≡ bypass s x)
  jump_source i j n' t h hp e =
      let o = origin p init idx s good fit i n' t hp in
      elim o.source [
        | inl (k, _) ↦
            let (up, to) = (jumps_iff i j).0 h in
            absurd (fit.no_father i up (o.node, t, (o.there, k), e ∙ to))
        | inr (x, k, e', same) ↦ (o.node, x, o.there, k, e', same)
      ]

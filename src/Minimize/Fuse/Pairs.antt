-- ===== src/Minimize/Fuse/Pairs.antt =====
-- The trace and progress pairs after one round of `fuse_single_nodes`
-- (src/generic/soundcheck.ml).
use cyclist.Base.{ℕ, true, false, Memᴰ, ◌≡◌, ◌≢◌, ◌↔◌, ◌⊎◌, inl, inr, refl, sym, subst, ◌∙◌}
use cyclist.Proof.{Tag}
use cyclist.Soundcheck.{AbstractProof, Premise}
use cyclist.Soundcheck.Meaning.{TracePair, ProgressPair}
use cyclist.Minimize.{bypass}
use cyclist.Minimize.Good.{IsGood}
use cyclist.Minimize.Fuse.{
  past, IsFusible, bypass-child, bypass-tag_pairs, bypass-progress, keep, origin,
}
use cyclist.Minimize.Fuse.Edges.{
  jumps, jumps_iff, only_premise, same_premise, led_jumps, jump_source,
}

module _ (p : AbstractProof) (init idx : ℕ) (s : Premise) (good : IsGood p init)
    (fit : IsFusible p init idx s) where
  module _ (i j : ℕ) (k l : Tag) where
    pub trace_plain :
        jumps p init idx s good fit i j ≡ false
        → i ≢ idx
        → j ≢ idx
        → TracePair (past idx s p) i j k l ↔ TracePair p i j k l
    trace_plain h other other' = (
      λ (n', t, hp, e, at_t).
          let o = origin p init idx s good fit i n' t hp in
          elim o.source [
            | inl (m, _) ↦ (o.node, t, (o.there, m), e, at_t)
            | inr (x, m, e', same) ↦
                cc (h, led_jumps p init idx s good fit i j o.node t x o.there m e' same e)
          ],
      λ (n, t, (m, m'), e, at_t). (
        _,
        t,
        keep p init idx s good fit i n t m other (inl (m', λ e'. other' (sym e ∙ e'))),
        e,
        at_t,
      ),
    )

    pub progress_plain :
        jumps p init idx s good fit i j ≡ false
        → i ≢ idx
        → j ≢ idx
        → ProgressPair (past idx s p) i j k l ↔ ProgressPair p i j k l
    progress_plain h other other' = (
      λ (n', t, hp, e, at_t).
          let o = origin p init idx s good fit i n' t hp in
          elim o.source [
            | inl (m, _) ↦ (o.node, t, (o.there, m), e, at_t)
            | inr (x, m, e', same) ↦
                cc (h, led_jumps p init idx s good fit i j o.node t x o.there m e' same e)
          ],
      λ (n, t, (m, m'), e, at_t). (
        _,
        t,
        keep p init idx s good fit i n t m other (inl (m', λ e'. other' (sym e ∙ e'))),
        e,
        at_t,
      ),
    )

    pub trace_joint :
        jumps p init idx s good fit i j ≡ true
        → i ≢ idx
        → TracePair (past idx s p) i j k l
          ↔ ((q : Tag) × TracePair p i idx k q × TracePair p idx j q l)
    trace_joint h other = (
      λ (n', t, hp, e, at_t).
          let (n, x, m, m', e', same) = jump_source p init idx s good fit i j n' t h hp e in
          let (q, a, b) =
            (bypass-tag_pairs s x k l).0
              (subst (λ (y : Premise). Memᴰ (k, l) y.tag_pairs) same at_t) in
          (
            q,
            (n, x, (m, m'), e', a),
            (
              _,
              s,
              (fit.node, Memᴰ.head refl),
              sym ((jumps_iff p init idx s good fit i j).0 h).1,
              b,
            ),
          ),
      λ (q, (n, x, (m, m'), e, a), (n2, t, hp, e2, b)). (
        _,
        bypass s x,
        keep p init idx s good fit i n (bypass s x) m other (inr (x, m', e, refl)),
        bypass-child s x ∙ sym ((jumps_iff p init idx s good fit i j).0 h).1,
        (bypass-tag_pairs s x k l).1 (
          q,
          a,
          subst (λ (y : Premise). Memᴰ (q, l) y.tag_pairs)
              (only_premise p init idx s good fit n2 t hp) b,
        ),
      ),
    )

    pub progress_joint :
        jumps p init idx s good fit i j ≡ true
        → i ≢ idx
        → ProgressPair (past idx s p) i j k l ↔ (
            (q : Tag) × TracePair p i idx k q
            × TracePair p idx j q l
            × (ProgressPair p i idx k q ⊎ ProgressPair p idx j q l))
    progress_joint h other =
        let to = ((jumps_iff p init idx s good fit i j).0 h).1 in
        let s_in = good.closed.progress_in idx _ s (fit.node, Memᴰ.head refl) in
        (
          λ (n', t, hp, e, at_t).
              let (n, x, m, m', e', same) = jump_source p init idx s good fit i j n' t h hp e in
              let (q, a, b, how) =
                (bypass-progress s x k l s_in (good.closed.progress_in i n x (m, m'))).0
                  (subst (λ (y : Premise). Memᴰ (k, l) y.progress) same at_t) in
              (
                q,
                (n, x, (m, m'), e', a),
                (_, s, (fit.node, Memᴰ.head refl), sym to, b),
                elim how [
                  | inl hit ↦ inl (n, x, (m, m'), e', hit)
                  | inr hit ↦ inr (_, s, (fit.node, Memᴰ.head refl), sym to, hit)
                ],
              ),
          λ (q, (n, x, (m, m'), e, a), (n2, t, hp, e2, b), how). (
            _,
            bypass s x,
            keep p init idx s good fit i n (bypass s x) m other (inr (x, m', e, refl)),
            bypass-child s x ∙ sym to,
            (bypass-progress s x k l s_in (good.closed.progress_in i n x (m, m'))).1 (
              q,
              a,
              subst (λ (y : Premise). Memᴰ (q, l) y.tag_pairs)
                  (only_premise p init idx s good fit n2 t hp) b,
              elim how [
                | inl (n3, x3, hp3, e3, hit) ↦ inl (
                    subst (λ (y : Premise). Memᴰ (k, q) y.progress)
                      (same_premise p init idx s good fit i idx n n3 x x3 (m, m') hp3 e e3) hit)
                | inr (n3, t3, hp3, e3, hit) ↦ inr (
                    subst (λ (y : Premise). Memᴰ (q, l) y.progress)
                      (only_premise p init idx s good fit n3 t3 hp3) hit)
              ],
            ),
          ),
        )

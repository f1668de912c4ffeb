-- ===== src/Minimize/Fuse/Paths.antt =====
-- The infinite paths before and after one round of `fuse_single_nodes` (src/generic/soundcheck.ml).
use cyclist.Base.{
  ℕ, zero, suc, Bool, true, false, ◌≡◌, ◌≢◌, ◌↔◌, inl, inr, refl, sym, subst, ◌∙◌, ◌==◌, ==_iff,
  if◌then◌else◌, Bool-cases, ∥∥₁_map,
}
use mathlib.Core.Path.{fun_ext}
use cyclist.Soundcheck.{AbstractProof, Premise}
use cyclist.Soundcheck.Meaning.{Edge}
use cyclist.Soundcheck.Condition.{IsAbstractPath, AbstractTrace, GlobalTraceCondition}
use cyclist.Minimize.Blocks.Coarsen.{coarsen}
use cyclist.Minimize.Blocks.Refine.{refine}
use cyclist.Minimize.Blocks.Places.{Place, place, next, place-start, place-second, IsAt, place-IsAt}
use cyclist.Minimize.Good.{IsGood}
use cyclist.Minimize.Fuse.{past, IsFusible}
use cyclist.Minimize.Fuse.Edges.{
  jumps, jumps_iff, edge_from, edge_out, past_apart, edge_jump, edge_plain, edge_kept, no_jump,
}
use cyclist.Minimize.Fuse.Fits.{to_trace, of_trace, Fits, Fits-Blocks}

-- Where the blocks start, if `second j` holds where the step to `j` leads to a second step.
abbrev starts_by : (ℕ → Bool) → ℕ → ℕ
starts_by second zero = 0
starts_by second (suc i) =
    if second (suc (starts_by second i))
    then suc (suc (starts_by second i))
    else suc (starts_by second i)

abbrev starts_of : (ℕ → Bool) → ℕ → ℕ
starts_of jump zero = 0
starts_of jump (suc i) = if jump i then suc (suc (starts_of jump i)) else suc (starts_of jump i)

module _ (p : AbstractProof) (init idx : ℕ) (s : Premise) (good : IsGood p init)
    (fit : IsFusible p init idx s) where
  -- The path without the fused node.
  module _ (path : ℕ → ℕ) (h : IsAbstractPath p init path) where
    abbrev start : ℕ → ℕ
    start = starts_by (λ j. path j == idx)

    abbrev jump : ℕ → Bool
    jump i = path (suc (start i)) == idx

    -- After the fused node comes its child, which is another node.
    after_idx : (j : ℕ) → path j ≡ idx → path (suc j) ≡ s.child
    after_idx j e =
        edge_from p init idx s good fit (path (suc j))
          (subst (λ q. Edge p q (path (suc j))) e (h.follows j))

    start-apart : (i : ℕ) → path (start i) ≢ idx
    start-apart zero = λ e. fit.not_init (sym e ∙ h.starts)
    start-apart (suc i) = elim (Bool-cases (jump i)) [
      | inl hit ↦
          let at = (==_iff (path (suc (start i))) idx).0 hit in
          rw hit (λ e. fit.not_self (sym (after_idx (suc (start i)) at) ∙ e))
      | inr miss ↦ rw miss (λ e. cc (miss, (==_iff (path (suc (start i))) idx).1 e))
    ]

    removed-Fits : Fits p init idx s good fit path jump start
    removed-Fits = record {
      start_zero = refl;
      start_suc = λ i. refl;
      apart = start-apart;
      second = λ i hit. (==_iff (path (suc (start i))) idx).0 hit;
      same_jump = λ i. elim (Bool-cases (jump i)) [
        | inl hit ↦
            let at = (==_iff (path (suc (start i))) idx).0 hit in
            let up = subst (Edge p (path (start i))) at (h.follows (start i)) in
            rw hit (
              (jumps_iff p init idx s good fit (path (start i)) (path (suc (suc (start i))))).1
                (up, after_idx (suc (start i)) at))
        | inr miss ↦ rw miss (
            no_jump p init idx s good fit (path (start i)) (path (suc (start i)))
              (h.follows (start i)) (λ e. cc (miss, (==_iff (path (suc (start i))) idx).1 e)))
      ];
    }

    removed-path : IsAbstractPath (past idx s p) init (λ i. path (start i))
    removed-path = record {
      starts = h.starts;
      follows = λ i. elim (Bool-cases (jump i)) [
        | inl hit ↦
            edge_jump p init idx s good fit (path (start i)) (path (start (suc i))) (start-apart i)
              (removed-Fits.same_jump i ∙ hit)
        | inr miss ↦
            edge_kept p init idx s good fit (path (start i)) (path (start (suc i))) (start-apart i)
              (start-apart (suc i))
              (subst (λ q. Edge p (path (start i)) (path q))
                (let e : suc (start i) ≡ start (suc i) = rw miss refl in e) (h.follows (start i)))
      ];
    }

  -- The path with the fused node put back.
  module _ (path : ℕ → ℕ) (h : IsAbstractPath (past idx s p) init path) where
    abbrev leap : ℕ → Bool
    leap i = jumps p init idx s good fit (path i) (path (suc i))

    abbrev begin : ℕ → ℕ
    begin = starts_of leap

    node_at : Place → ℕ
    node_at (i, true) = idx
    node_at (i, false) = path i

    abbrev longer : ℕ → ℕ
    longer j = node_at (place leap j)

    longer-begin : (i : ℕ) → longer (begin i) ≡ path i
    unfolding node_at
    longer-begin i = rw (place-start leap begin refl (λ q. refl) i) refl

    edge_at :
        (q : Place) (j : ℕ)
        → IsAt leap begin refl (λ i. refl) q j
        → Edge p (node_at q) (node_at (next leap q))
    unfolding node_at
    edge_at (i, true) j (_, hit) =
        let (_, to) = (jumps_iff p init idx s good fit (path i) (path (suc i))).0 hit in
        subst (Edge p idx) (sym to) (edge_out p init idx s good fit)
    edge_at (i, false) j same = elim (Bool-cases (leap i)) [
      | inl hit ↦ rw hit ((jumps_iff p init idx s good fit (path i) (path (suc i))).0 hit).0
      | inr miss ↦
          rw miss (edge_plain p init idx s good fit (path i) (path (suc i)) miss (h.follows i))
    ]

    longer-path : IsAbstractPath p init longer
    unfolding node_at
    longer-path = record {
      starts = h.starts;
      follows = λ j. edge_at (place leap j) j (place-IsAt leap begin refl (λ i. refl) j);
    }

    longer-Fits : Fits p init idx s good fit longer leap begin
    unfolding node_at
    longer-Fits = record {
      start_zero = refl;
      start_suc = λ i. refl;
      apart = λ i e.
          (past_apart p init idx s good fit (path i) (path (suc i)) (h.follows i)).0
            (sym (longer-begin i) ∙ e);
      second = λ i hit. rw (place-second leap begin refl (λ q. refl) i hit) refl;
      same_jump = λ i. rw (longer-begin i, longer-begin (suc i)) refl;
    }

  -- The round keeps the global trace condition.
  pub past-GlobalTraceCondition :
      GlobalTraceCondition (past idx s p) init ↔ GlobalTraceCondition p init
  past-GlobalTraceCondition = (
    λ condition path h. ∥∥₁_map (condition (λ i. path (start path h i)) (removed-path path h)) λ t.
        to_trace p path
          (refine (Fits-Blocks p init idx s good fit (removed-Fits path h)) (of_trace _ _ t)),
    λ condition path h. ∥∥₁_map (condition (longer path h) (longer-path path h)) λ t.
        subst (AbstractTrace (past idx s p)) (fun_ext (longer-begin path h)) (
          to_trace (past idx s p) _ (
            coarsen (Fits-Blocks p init idx s good fit (longer-Fits path h))
              (of_trace p (longer path h) t))),
  )

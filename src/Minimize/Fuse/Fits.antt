-- ===== src/Minimize/Fuse/Fits.antt =====
-- A path and the coarse one that one round of `fuse_single_nodes` makes of it
-- (src/generic/soundcheck.ml).
use cyclist.Base.{
  ℕ, suc, Bool, true, false, ◌≡◌, ◌≢◌, ◌↔◌, ◌⊎◌, refl, sym, subst, ◌∙◌, if◌then◌else◌,
}
use cyclist.Proof.{Tag}
use cyclist.Soundcheck.{AbstractProof, Premise}
use cyclist.Soundcheck.Meaning.{TracePair, ProgressPair}
use cyclist.Soundcheck.Condition.{AbstractTrace}
use cyclist.Minimize.Blocks.{Progressing, Blocks}
use cyclist.Minimize.Exists.{ProgressPair-decided}
use cyclist.Minimize.Good.{IsGood}
use cyclist.Minimize.Fuse.{past, IsFusible}
use cyclist.Minimize.Fuse.Pairs.{trace_plain, progress_plain, trace_joint, progress_joint}
use cyclist.Minimize.Fuse.Edges.{jumps}

-- The steps of a path, with their tags.
abbrev pub Traces : AbstractProof → (ℕ → ℕ) → ℕ → Tag → Tag → Type 0
Traces p path i k l = TracePair p (path i) (path (suc i)) k l

abbrev pub Progresses : AbstractProof → (ℕ → ℕ) → ℕ → Tag → Tag → Type 0
Progresses p path i k l = ProgressPair p (path i) (path (suc i)) k l

pub to_trace :
    (p : AbstractProof) (path : ℕ → ℕ)
    → Progressing (Traces p path) (Progresses p path)
    → AbstractTrace p path
to_trace p path t = record {
  from = t.from;
  tags = t.tags;
  follows = t.follows;
  progresses = t.progresses;
}

pub of_trace :
    (p : AbstractProof) (path : ℕ → ℕ)
    → AbstractTrace p path
    → Progressing (Traces p path) (Progresses p path)
of_trace p path t = record {
  from = t.from;
  tags = t.tags;
  follows = t.follows;
  progresses = t.progresses;
}

module _ (p : AbstractProof) (init idx : ℕ) (s : Premise) (good : IsGood p init)
    (fit : IsFusible p init idx s) where
  -- The path, the coarse one of its blocks, and how they fit.
  pub record Fits (path : ℕ → ℕ) (jump : ℕ → Bool) (start : ℕ → ℕ) : Type 0 where
    pub start_zero : start 0 ≡ 0
    pub start_suc :
        (i : ℕ) → start (suc i) ≡ (if jump i then suc (suc (start i)) else suc (start i))
    pub apart : (i : ℕ) → path (start i) ≢ idx
    pub second : (i : ℕ) → jump i ≡ true → path (suc (start i)) ≡ idx
    pub same_jump :
        (i : ℕ) → jumps p init idx s good fit (path (start i)) (path (start (suc i))) ≡ jump i

  module _ {path : ℕ → ℕ} {jump : ℕ → Bool} {start : ℕ → ℕ} (f : Fits path jump start) where
    abbrev pub coarse : ℕ → ℕ
    coarse i = path (start i)

    step_jump : (i : ℕ) → jump i ≡ true → start (suc i) ≡ suc (suc (start i))
    step_jump i h = rw (f.start_suc i, h) refl

    step_plain : (i : ℕ) → jump i ≡ false → start (suc i) ≡ suc (start i)
    step_plain i h = rw (f.start_suc i, h) refl

    pub Fits-Blocks :
        Blocks jump start
          (Traces p path)
          (Progresses p path)
          (Traces (past idx s p) coarse)
          (Progresses (past idx s p) coarse)
    Fits-Blocks = record {
      start_zero = f.start_zero;
      start_suc = f.start_suc;
      plain = λ i h k l.
          let both =
            trace_plain p init idx s good fit (coarse i) (coarse (suc i)) k l (f.same_jump i ∙ h)
              (f.apart i) (f.apart (suc i)) in
          subst (λ q. Traces (past idx s p) coarse i k l ↔ TracePair p (coarse i) (path q) k l)
            (step_plain i h) both;
      plain_progress = λ i h k l.
          let both =
            progress_plain p init idx s good fit (coarse i) (coarse (suc i)) k l (f.same_jump i ∙ h)
              (f.apart i) (f.apart (suc i)) in
          subst
            (λ q. Progresses (past idx s p) coarse i k l ↔ ProgressPair p (coarse i) (path q) k l)
            (step_plain i h) both;
      joint = λ i h k l.
          let both =
            trace_joint p init idx s good fit (coarse i) (coarse (suc i)) k l (f.same_jump i ∙ h)
              (f.apart i) in
          let both' =
            subst
              (λ q.
                Traces (past idx s p) coarse i k l
                ↔ ((m : Tag) × TracePair p (coarse i) idx k m × TracePair p idx (path q) m l))
              (step_jump i h) both in
          subst
            (λ u. Traces (past idx s p) coarse i k l ↔ (
              (m : Tag) × TracePair p (coarse i) u k m
              × TracePair p u (path (suc (suc (start i)))) m l))
            (sym (f.second i h)) both';
      joint_progress = λ i h k l.
          let both =
            progress_joint p init idx s good fit (coarse i) (coarse (suc i)) k l (f.same_jump i ∙ h)
              (f.apart i) in
          let both' =
            subst
              (λ q. Progresses (past idx s p) coarse i k l ↔ (
                (m : Tag) × TracePair p (coarse i) idx k m
                × TracePair p idx (path q) m l
                × (ProgressPair p (coarse i) idx k m ⊎ ProgressPair p idx (path q) m l)))
              (step_jump i h) both in
          subst
            (λ u. Progresses (past idx s p) coarse i k l ↔ (
              (m : Tag) × TracePair p (coarse i) u k m
              × TracePair p u (path (suc (suc (start i)))) m l
              × (ProgressPair p (coarse i) u k m
                  ⊎ ProgressPair p u (path (suc (suc (start i)))) m l)))
            (sym (f.second i h)) both';
      decided = λ i k l. ProgressPair-decided (past idx s p) (coarse i) (coarse (suc i)) k l;
    }

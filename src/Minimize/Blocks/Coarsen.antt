-- ===== src/Minimize/Blocks/Coarsen.antt =====
-- From the fine sequence to the coarse one.
use cyclist.Base.{ℕ, suc, ◌+◌, ◌≤◌, Bool, true, false, ◌≡◌, inl, inr, subst, Bool-cases, arith}
use cyclist.Proof.{Tag}
use cyclist.Minimize.Blocks.Places.{Place, place, block-le, IsAt, place-IsAt}
use cyclist.Minimize.Blocks.{Progressing, Blocks, start_jump, start_plain, start_above}

module _ {jump : ℕ → Bool} {start : ℕ → ℕ} {T P T' P' : ℕ → Tag → Tag → Type 0}
    (b : Blocks jump start T P T' P') where
  module _ (t : Progressing T P) where
    both :
        (i : ℕ)
        → t.from ≤ i
        → jump i ≡ true
        → T (start i) (t.tags (start i)) (t.tags (suc (start i)))
          × T (suc (start i)) (t.tags (suc (start i))) (t.tags (start (suc i)))
    both i le h =
        let low = start_above b t.from i le in
        (t.follows (start i) low, rw (start_jump b i h) (t.follows (suc (start i)) (omega arith)))

    coarse : (i : ℕ) → t.from ≤ i → T' i (t.tags (start i)) (t.tags (start (suc i)))
    coarse i le = elim (Bool-cases (jump i)) [
      | inl h ↦
          let (one, two) = both i le h in (b.joint i h _ _).1 (t.tags (suc (start i)), one, two)
      | inr h ↦
          (b.plain i h _ _).1
            (rw (start_plain b i h) (t.follows (start i) (start_above b t.from i le)))
    ]

    -- Progress at the fine step `j`.
    abbrev Hit : ℕ → Type 0
    Hit j = P j (t.tags j) (t.tags (suc j))

    hits :
        (q : Place) (j : ℕ)
        → IsAt jump start b.start_zero b.start_suc q j
        → Hit j
        → t.from ≤ q.0
        → P' q.0 (t.tags (start q.0)) (t.tags (start (suc q.0)))
    hits (i, false) j same hit le = elim (Bool-cases (jump i)) [
      | inl h ↦
          let (one, two) = both i le h in
          (b.joint_progress i h _ _).1 (t.tags (suc (start i)), one, two, inl (subst Hit same hit))
      | inr h ↦ (b.plain_progress i h _ _).1 (rw (start_plain b i h) (subst Hit same hit))
    ]
    hits (i, true) j (same, h) hit le =
        let (one, two) = both i le h in
        (b.joint_progress i h _ _).1
          (t.tags (suc (start i)), one, two, inr (rw (start_jump b i h) (subst Hit same hit)))

    -- The fine sequence at the starts of the blocks.
    pub coarsen : Progressing T' P'
    coarsen = record {
      from = t.from;
      tags = λ i. t.tags (start i);
      follows = coarse;
      progresses = λ n.
          let (j, le, after, hit) = t.progresses (start (n + t.from)) in
          let late = block-le jump start b.start_zero b.start_suc (n + t.from) j le in
          let at_j = place-IsAt jump start b.start_zero b.start_suc j in
          (
            (place jump j).0,
            omega arith,
            omega arith,
            hits (place jump j) j at_j hit (omega arith),
          );
    }

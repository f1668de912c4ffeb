-- ===== src/Minimize/Blocks/Refine.antt =====
-- From the coarse sequence to the fine one.
use cyclist.Base.{ℕ, suc, ◌≤◌, Bool, true, false, ◌≡◌, ◌⊎◌, inl, inr, refl, Bool-cases, arith, leb}
use cyclist.Proof.{Tag}
use cyclist.Minimize.Blocks.Places.{Place, place, next, place-start, block-le, IsAt, place-IsAt}
use cyclist.Minimize.Blocks.{Progressing, Blocks, start_above, start_mono}

module _ {jump : ℕ → Bool} {start : ℕ → ℕ} {T P T' P' : ℕ → Tag → Tag → Type 0}
    (b : Blocks jump start T P T' P') where
  module _ (t : Progressing T' P') where
    -- A tag between the two fine steps of the block `i`, through which progress is kept.
    record Middle (i : ℕ) : Type 0 where
      pub tag : Tag
      pub steps :
          jump i ≡ true
          → t.from ≤ i
          → T (start i) (t.tags i) tag
            × T (suc (start i)) tag (t.tags (suc i))
            × (P' i (t.tags i) (t.tags (suc i))
                → P (start i) (t.tags i) tag ⊎ P (suc (start i)) tag (t.tags (suc i)))

    middle : (i : ℕ) → Middle i
    middle i = elim (Bool-cases (jump i)) [
      | inr h ↦ record { tag = 0; steps = λ h'. cc (h, h') }
      | inl h ↦ elim (Bool-cases (leb t.from i)) [
        | inr early ↦ record { tag = 0; steps = λ h' le. absurd (ground (arith, early, le)) }
        | inl late ↦
            let le : t.from ≤ i = ground (arith, late) in
            elim (b.decided i (t.tags i) (t.tags (suc i))) [
              | inl hit ↦
                  let (m, one, two, how) = (b.joint_progress i h _ _).0 hit in
                  record { tag = m; steps = λ h' le'. (one, two, λ hit'. how) }
              | inr miss ↦
                  let (m, one, two) = (b.joint i h _ _).0 (t.follows i le) in
                  record { tag = m; steps = λ h' le'. (one, two, λ hit'. absurd (miss hit')) }
            ]
      ]
    ]

    tag_at : Place → Tag
    tag_at (i, false) = t.tags i
    tag_at (i, true) = (middle i).tag

    step_at :
        (q : Place) (j : ℕ)
        → IsAt jump start b.start_zero b.start_suc q j
        → t.from ≤ q.0
        → T j (tag_at q) (tag_at (next jump q))
    unfolding tag_at
    step_at (i, false) j same le = elim (Bool-cases (jump i)) [
      | inl h ↦ rw (same, h) ((middle i).steps h le).0
      | inr h ↦ rw (same, h) ((b.plain i h _ _).0 (t.follows i le))
    ]
    step_at (i, true) j (same, h) le = rw same ((middle i).steps h le).1

    -- Progress at the fine step `j`.
    abbrev Fine : ℕ → Type 0
    Fine j = P j (tag_at (place jump j)) (tag_at (place jump (suc j)))

    Fine-start :
        (i : ℕ) (l : Tag)
        → P (start i) (t.tags i) l
        → tag_at (next jump (i, false)) ≡ l
        → Fine (start i)
    unfolding tag_at
    Fine-start i l hit e = rw (place-start jump start b.start_zero b.start_suc i, e) hit

    Fine-hit :
        (i : ℕ) → t.from ≤ i → P' i (t.tags i) (t.tags (suc i)) → (j : ℕ) × (start i ≤ j) × Fine j
    unfolding tag_at
    Fine-hit i le hit = elim (Bool-cases (jump i)) [
      | inr h ↦ (
        start i,
        omega arith,
        Fine-start i (t.tags (suc i)) ((b.plain_progress i h _ _).0 hit) (rw h refl),
      )
      | inl h ↦ elim (((middle i).steps h le).2 hit) [
        | inl one ↦ (start i, omega arith, Fine-start i (middle i).tag one (rw h refl))
        | inr two ↦ (
          suc (start i),
          omega arith,
          rw (place-start jump start b.start_zero b.start_suc i, h) two,
        )
      ]
    ]

    -- The coarse sequence with the tags between.
    pub refine : Progressing T P
    refine = record {
      from = start t.from;
      tags = λ j. tag_at (place jump j);
      follows = λ j le.
          let q = place jump j in
          step_at q j (place-IsAt jump start b.start_zero b.start_suc j)
            (block-le jump start b.start_zero b.start_suc t.from j le);
      progresses = λ n.
          let (i, le, after, hit) = t.progresses n in
          let (j, le', fine) = Fine-hit i after hit in
          let up = start_above b n i le in
          let low = start_mono b t.from i after in (j, omega arith, omega arith, fine);
    }

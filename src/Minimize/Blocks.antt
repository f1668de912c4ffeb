-- ===== src/Minimize/Blocks.antt =====
-- Infinite sequences of steps, some of which are made of two finer steps: what fusing a node does
-- to a path (`fuse_single_nodes` of src/generic/soundcheck.ml).
pub mod Places
pub mod Coarsen
pub mod Refine
use cyclist.Base.{
  ℕ, zero, suc, ◌+◌, ◌-◌, ◌≤◌, ◌<◌, Bool, true, false, ◌≡◌, ◌↔◌, ◌⊎◌, inl, inr, refl, sym, ap,
  subst, ◌∙◌, Bool-cases, if◌then◌else◌, arith, leb,
}
use cyclist.Proof.{Tag}
use Places.{Place, place, next, place-start, place-second, le-start, block-le, IsAt, place-IsAt}

-- A sequence of tags that from some point on makes every step, and infinitely often progresses.
pub record Progressing (T P : ℕ → Tag → Tag → Type 0) : Type 0 where
  pub from : ℕ
  pub tags : ℕ → Tag
  pub follows : (i : ℕ) → from ≤ i → T i (tags i) (tags (suc i))
  pub progresses : (n : ℕ) → (i : ℕ) × (n ≤ i) × (from ≤ i) × P i (tags i) (tags (suc i))

-- The coarse step `i` is the fine step `start i`, or that and the next one where `jump i` holds.
pub record Blocks (jump : ℕ → Bool) (start : ℕ → ℕ) (T P T' P' : ℕ → Tag → Tag → Type 0)
    : Type 0 where
  pub start_zero : start 0 ≡ 0
  pub start_suc : (i : ℕ) → start (suc i) ≡ (if jump i then suc (suc (start i)) else suc (start i))
  pub plain : (i : ℕ) → jump i ≡ false → (k l : Tag) → T' i k l ↔ T (start i) k l
  pub plain_progress : (i : ℕ) → jump i ≡ false → (k l : Tag) → P' i k l ↔ P (start i) k l
  pub joint :
      (i : ℕ)
      → jump i ≡ true
      → (k l : Tag) → T' i k l ↔ ((m : Tag) × T (start i) k m × T (suc (start i)) m l)
  pub joint_progress :
      (i : ℕ)
      → jump i ≡ true
      → (k l : Tag)
      → P' i k l ↔ (
          (m : Tag) × T (start i) k m
          × T (suc (start i)) m l
          × (P (start i) k m ⊎ P (suc (start i)) m l))
  pub decided : (i : ℕ) (k l : Tag) → P' i k l ⊎ (¬ P' i k l)

module _ {jump : ℕ → Bool} {start : ℕ → ℕ} {T P T' P' : ℕ → Tag → Tag → Type 0}
    (b : Blocks jump start T P T' P') where
  pub start_jump : (i : ℕ) → jump i ≡ true → start (suc i) ≡ suc (suc (start i))
  start_jump i h = rw (b.start_suc i, h) refl

  pub start_plain : (i : ℕ) → jump i ≡ false → start (suc i) ≡ suc (start i)
  start_plain i h = rw (b.start_suc i, h) refl

  pub start_above : (n i : ℕ) → n ≤ i → n ≤ start i
  start_above n i le = let le' = le-start jump start b.start_zero b.start_suc i in omega arith

  start_step : (i : ℕ) → start i ≤ start (suc i)
  start_step i = elim (Bool-cases (jump i)) [
    | inl h ↦ rw (start_jump i h) (omega arith)
    | inr h ↦ rw (start_plain i h) (omega arith)
  ]

  start_add : (n d : ℕ) → start n ≤ start (d + n)
  start_add n zero = let e : 0 + n ≡ n = omega arith in rw e (omega arith)
  start_add n (suc d) =
      let e : suc d + n ≡ suc (d + n) = omega arith in
      let ih = start_add n d in let more = start_step (d + n) in rw e (omega arith)

  pub start_mono : (n i : ℕ) → n ≤ i → start n ≤ start i
  start_mono n i le =
      let e : (i - n) + n ≡ i = omega arith in
      subst (λ q. start n ≤ start q) e (start_add n (i - n))

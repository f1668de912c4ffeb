-- ===== src/Minimize/Blocks/Places.antt =====
-- Where a fine step lies in its block.
use cyclist.Base.{
  ℕ, zero, suc, ◌+◌, ◌-◌, ◌≤◌, Bool, true, false, ◌≡◌, inl, inr, refl, sym, ap, subst, Bool-cases,
  if◌then◌else◌, arith,
}

-- The block, and whether the step is its second.
abbrev pub Place : Type 0
Place = ℕ × Bool

abbrev pub next : (ℕ → Bool) → Place → Place
next jump (i, true) = (suc i, false)
next jump (i, false) = if jump i then (i, true) else (suc i, false)

abbrev pub place : (ℕ → Bool) → ℕ → Place
place jump zero = (0, false)
place jump (suc j) = next jump (place jump j)

module _ (jump : ℕ → Bool) where
  pub place-next : (j : ℕ) → place jump (suc j) ≡ next jump (place jump j)
  place-next j = refl

  block_step : (q : Place) → q.0 ≤ (next jump q).0
  block_step (i, true) = omega arith
  block_step (i, false) = elim (Bool-cases (jump i)) [
    | inl h ↦ rw h (omega arith)
    | inr h ↦ rw h (omega arith)
  ]

  block_add : (j d : ℕ) → (place jump j).0 ≤ (place jump (d + j)).0
  block_add j zero = let e : 0 + j ≡ j = omega arith in rw e (omega arith)
  block_add j (suc d) =
      let e : suc d + j ≡ suc (d + j) = omega arith in
      let ih = block_add j d in let more = block_step (place jump (d + j)) in rw e (omega arith)

module _ (jump : ℕ → Bool) (start : ℕ → ℕ) (start_zero : start 0 ≡ 0)
    (start_suc : (i : ℕ)
      → start (suc i) ≡ (if jump i then suc (suc (start i)) else suc (start i))) where
  -- The step `j` lies at the place.
  abbrev pub IsAt : Place → ℕ → Type 0
  IsAt (i, true) j = (j ≡ suc (start i)) × (jump i ≡ true)
  IsAt (i, false) j = j ≡ start i

  next-IsAt : (q : Place) (j : ℕ) → IsAt q j → IsAt (next jump q) (suc j)
  next-IsAt (i, true) j (same, h) = rw (start_suc i, h) (ap suc same)
  next-IsAt (i, false) j same = elim (Bool-cases (jump i)) [
    | inl h ↦ rw h (ap suc same, h)
    | inr h ↦ rw (h, start_suc i, h) (ap suc same)
  ]

  pub place-IsAt : (j : ℕ) → IsAt (place jump j) j
  place-IsAt zero = sym start_zero
  place-IsAt (suc j) = next-IsAt (place jump j) j (place-IsAt j)

  pub place-start : (i : ℕ) → place jump (start i) ≡ (i, false)
  place-start zero = rw start_zero refl
  place-start (suc i) = elim (Bool-cases (jump i)) [
    | inl h ↦ rw (start_suc i, h, place-start i, h) refl
    | inr h ↦ rw (start_suc i, h, place-start i, h) refl
  ]

  pub place-second : (i : ℕ) → jump i ≡ true → place jump (suc (start i)) ≡ (i, true)
  place-second i h = rw (place-start i, h) refl

  pub le-start : (i : ℕ) → i ≤ start i
  le-start zero = omega arith
  le-start (suc i) = elim (Bool-cases (jump i)) [
    | inl h ↦ let ih = le-start i in rw (start_suc i, h) (omega arith)
    | inr h ↦ let ih = le-start i in rw (start_suc i, h) (omega arith)
  ]

  pub block-le : (n j : ℕ) → start n ≤ j → n ≤ (place jump j).0
  block-le n j le =
      let d = j - start n in
      let e : d + start n ≡ j = omega arith in
      let more = block_add jump (start n) d in
      let here = ap (λ (q : Place). q.0) (place-start n) in
      let more' : (place jump (start n)).0 ≤ (place jump j).0 =
        subst (λ q. (place jump (start n)).0 ≤ (place jump q).0) e more in
      omega arith

-- ===== src/Base/Sets.antt =====
-- The containers of the standard library over an equality test: a hash set is a list of its
-- elements, a hash map a list of pairs. Iteration follows the list; the standard library leaves
-- the order open.
use Prim.Native.Nat.{ℕ}
use mathlib.Core.Path.{◌≡◌, refl}
use mathlib.Core.Logic.{◌↔◌, ◌⊎◌, inl, inr}
use mathlib.Core.Bool.{Bool, true, false, ◌||◌}
use mathlib.Core.Option.{Option, none, some}
use mathlib.Core.List.{List, [], ◌∷◌, ◌++◌, Memᴰ}
use mathlib.Core.List.Memᴰ
use native.Mathlib.Omega.{arith}
use cyclist.Base.Tests.{if◌then◌else◌, ◌==◌ as nat_beq, ==_iff, Bool-cases, Option-cases}

pub record Eq {ℓ} (A : Type ℓ) : Type ℓ where
  pub beq : A → A → Bool
  pub beq_iff : (a b : A) → (beq a b ≡ true) ↔ (a ≡ b)

instance abbrev pub nat_eq : Eq ℕ
nat_eq = record { beq = nat_beq; beq_iff = ==_iff }

module _ {ℓ} {A : Type ℓ} ⦃e : Eq A⦄ where
  -- `find(a) != end()`
  unfoldable pub contains : A → List A → Bool
  contains a [] = false
  contains a (x ∷ xs) = e.beq a x || contains a xs

  -- `insert(a)`
  unfoldable pub insert : A → List A → List A
  unfolding contains
  insert a xs = if contains a xs then xs else a ∷ xs

  pub contains_iff : (a : A) (xs : List A) → (contains a xs ≡ true) ↔ Memᴰ a xs
  unfolding contains
  contains_iff a [] = (λ h. cc, λ m. absurd (Memᴰ.not-nil m))
  contains_iff a (x ∷ xs) = (
    λ h. elim (Bool-cases (e.beq a x)) [
      | inl hit ↦ Memᴰ.head ((e.beq_iff a x).0 hit)
      | inr miss ↦ Memᴰ.tail ((contains_iff a xs).0 (ground arith))
    ],
    λ m. elim (Memᴰ.cases_cons m) [
      | inl same ↦ ground (arith, (e.beq_iff a x).1 same)
      | inr rest ↦ ground (arith, (contains_iff a xs).1 rest)
    ],
  )

  pub mem-insert : (b a : A) (xs : List A) → Memᴰ b (insert a xs) ↔ ((b ≡ a) ⊎ Memᴰ b xs)
  unfolding insert
  mem-insert b a xs = elim (Bool-cases (contains a xs)) [
    | inl old ↦
        rw old (inr, elim [ inl same ↦ Memᴰ.cast same ((contains_iff a xs).0 old) | inr m ↦ m ])
    | inr new ↦ rw new (Memᴰ.cases_cons, elim [ inl same ↦ Memᴰ.head same | inr m ↦ Memᴰ.tail m ])
  ]

  pub contains-insert :
      (b a : A) (xs : List A) → contains b (insert a xs) ≡ (e.beq b a || contains b xs)
  unfolding insert contains
  contains-insert b a xs = elim (Bool-cases (contains a xs)) [
    | inl old ↦ rw old (elim (Bool-cases (e.beq b a)) [
      | inl same ↦ rw same (rw ((e.beq_iff b a).0 same) old)
      | inr other ↦ rw other
    ])
    | inr new ↦ rw new
  ]

module _ {ℓ κ} {K : Type ℓ} {V : Type κ} ⦃e : Eq K⦄ where
  -- `find(k)`, with `none` for `end()`
  unfoldable pub lookup : K → List (K × V) → Option V
  lookup k [] = none
  lookup k ((j, v) ∷ m) = if e.beq k j then some v else lookup k m

  -- `m[k] = v`
  unfoldable pub assign : K → V → List (K × V) → List (K × V)
  assign k v [] = (k, v) ∷ []
  assign k v ((j, w) ∷ m) = if e.beq k j then (k, v) ∷ m else (j, w) ∷ assign k v m

  pub lookup-assign :
      (j k : K) (v : V) (m : List (K × V))
      → lookup j (assign k v m) ≡ (if e.beq j k then some v else lookup j m)
  unfolding lookup assign
  lookup-assign j k v [] = refl
  lookup-assign j k v ((i, w) ∷ m) =
      ground (arith, e.beq_iff j k, e.beq_iff k i, e.beq_iff j i, lookup-assign j k v m)

module _ {ℓ κ} {K : Type ℓ} {A : Type κ} ⦃e : Eq K⦄ where
  -- `m[k]` as a statement: a missing key gets the empty value.
  unfoldable pub touch : K → List (K × List A) → List (K × List A)
  touch k m = elim (lookup k m) [ none ↦ assign k [] m | some _ ↦ m ]

  -- `m[k]` as a value.
  unfoldable pub at : List (K × List A) → K → List A
  at m k = elim (lookup k m) [ none ↦ [] | some xs ↦ xs ]

  -- The key is there.
  abbrev pub Has : List (K × List A) → K → Type κ
  Has m k = (xs : List A) × (lookup k m ≡ some xs)

  pub lookup-at : (m : List (K × List A)) (k : K) → Has m k → lookup k m ≡ some (at m k)
  unfolding at
  lookup-at m k h = ground arith

  pub at-eq : (m : List (K × List A)) (k : K) {xs : List A} → lookup k m ≡ some xs → at m k ≡ xs
  unfolding at
  at-eq m k h = ground arith

  pub at-assign :
      (j k : K) (xs : List A) (m : List (K × List A))
      → at (assign k xs m) j ≡ (if e.beq j k then xs else at m j)
  unfolding at
  at-assign j k xs m = ground (arith, lookup-assign j k xs m)

  pub at-touch : (j k : K) (m : List (K × List A)) → at (touch k m) j ≡ at m j
  unfolding at touch
  at-touch j k m = ground (arith, e.beq_iff j k, lookup-assign j k [] m)

  pub Has-assign :
      (j k : K) (xs : List A) (m : List (K × List A)) → (j ≡ k) ⊎ Has m j → Has (assign k xs m) j
  Has-assign j k xs m h = elim (Bool-cases (e.beq j k)) [
    | inl same ↦ (xs, rw (lookup-assign j k xs m, same))
    | inr other ↦ elim h [
      | inl same ↦ cc (other, (e.beq_iff j k).1 same)
      | inr (ys, found) ↦ (ys, rw (lookup-assign j k xs m, other) found)
    ]
  ]

  pub Has-touch : (j k : K) (m : List (K × List A)) → (j ≡ k) ⊎ Has m j → Has (touch k m) j
  unfolding touch
  Has-touch j k m h = elim (Option-cases (lookup k m)) [
    | inl missing ↦ rw (missing, touch) (Has-assign j k [] m h)
    | inr (ys, found) ↦
        rw (found, touch) (elim h [ inl same ↦ (ys, rw same found) | inr there ↦ there ])
  ]

module _ {ℓ κ} {K : Type ℓ} {A : Type κ} ⦃e : Eq K⦄ ⦃f : Eq A⦄ where
  -- `m[k].insert(a)`
  unfoldable pub insert_at : K → A → List (K × List A) → List (K × List A)
  insert_at k a m = assign k (insert ⦃e = f⦄ a (at ⦃e = e⦄ m k)) m

  pub mem-insert_at :
      (j k : K) (b a : A) (m : List (K × List A))
      → Memᴰ b (at (insert_at k a m) j) ↔ (((j ≡ k) × (b ≡ a)) ⊎ Memᴰ b (at m j))
  unfolding insert_at
  mem-insert_at j k b a m = elim (Bool-cases (e.beq j k)) [
    | inl hit ↦
        let same = (e.beq_iff j k).0 hit in
        let mem = mem-insert ⦃e = f⦄ b a (at m k) in
        rw (at-assign j k (insert ⦃e = f⦄ a (at m k)) m, hit)
          (
            λ h. elim (mem.0 h) [ inl new ↦ inl (same, new) | inr old ↦ inr (rw same old) ],
            λ h. mem.1 (elim h [ inl new ↦ inl new.1 | inr old ↦ inr (rw same at old) ]),
          )
    | inr miss ↦
        rw (at-assign j k (insert ⦃e = f⦄ a (at m k)) m, miss)
          (inr, elim [ inl new ↦ cc (miss, (e.beq_iff j k).1 new.0) | inr old ↦ old ])
  ]

  pub Has-insert_at : (j k : K) (a : A) (m : List (K × List A)) → Has m j → Has (insert_at k a m) j
  unfolding insert_at
  Has-insert_at j k a m h = Has-assign j k (insert ⦃e = f⦄ a (at m k)) m (inr h)

-- `iter` over a collection whose body makes a list of calls.
unfoldable pub for_each {ℓ κ} : {A : Type ℓ} {B : Type κ} → (A → List B) → List A → List B
for_each f [] = []
for_each f (x ∷ xs) = f x ++ for_each f xs

pub mem-for_each {ℓ κ} :
    {A : Type ℓ} {B : Type κ} (f : A → List B) (b : B) (xs : List A)
    → Memᴰ b (for_each f xs) ↔ ((a : A) × Memᴰ a xs × Memᴰ b (f a))
unfolding for_each
mem-for_each f b [] = (λ m. absurd (Memᴰ.not-nil m), λ (a, m, _). absurd (Memᴰ.not-nil m))
mem-for_each f b (x ∷ xs) = (
  λ m. elim (Memᴰ.append_cases (f x) m) [
    | inl here ↦ (x, Memᴰ.head refl, here)
    | inr later ↦ let (a, k, h) = (mem-for_each f b xs).0 later in (a, Memᴰ.tail k, h)
  ],
  λ (a, k, h). elim (Memᴰ.cases_cons k) [
    | inl same ↦ Memᴰ.append_left (for_each f xs) (rw (← same) h)
    | inr rest ↦ Memᴰ.append_right (f x) ((mem-for_each f b xs).1 (a, rest, h))
  ],
)

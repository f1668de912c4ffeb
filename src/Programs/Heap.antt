-- ===== src/Programs/Heap.antt =====
-- The memory that holds one kind of C struct.
use cyclist.Base.{
  ℕ, Option, none, some, ◌>>=◌, ◌∙◌, if◌then◌else◌, ◌==◌, ==_iff, ◌≡◌, ◌≢◌, refl, arith, Bool-cases,
  inl, inr,
}

-- `none` where nothing is allocated.
abbrev pub Heap : Type 0 → Type 0
Heap A = ℕ → Option A

unfoldable pub store : {A : Type 0} → Heap A → ℕ → Option A → Heap A
store h a x b = if a == b then x else h b

-- An assignment through a pointer; `none` is a fault.
unfoldable pub update : {A : Type 0} → Heap A → ℕ → (A → A) → Option (Heap A)
update h a f = do c ← h a; some (store h a (some (f c)))

-- `free` of a block
unfoldable pub release : {A : Type 0} → Heap A → ℕ → Option (Heap A)
release h a = do c ← h a; some (store h a none)

module _ {A : Type 0} (h : Heap A) (a : ℕ) (x : Option A) where
  pub store-same : store h a x a ≡ x
  unfolding store
  store-same = elim (Bool-cases (a == a)) [
    | inl yes' ↦ rw yes' refl
    | inr no' ↦ ground (arith, (==_iff a a).1 refl)
  ]

  pub store-other : (b : ℕ) → a ≢ b → store h a x b ≡ h b
  unfolding store
  store-other b other = elim (Bool-cases (a == b)) [
    | inl same ↦ absurd (other ((==_iff a b).0 same))
    | inr differs ↦ rw differs refl
  ]

pub update-some :
    {A : Type 0}
    → (h : Heap A) (a : ℕ) (f : A → A) (c : A) → h a ≡ some c
    → update h a f ≡ some (store h a (some (f c)))
unfolding update
update-some h a f c e = rw e refl

pub release-some :
    {A : Type 0} → (h : Heap A) (a : ℕ) (c : A) → h a ≡ some c → release h a ≡ some (store h a none)
unfolding release
release-some h a c e = rw e refl

store-store-at :
    {A : Type 0}
    → (h : Heap A) (a : ℕ) (x y : Option A) (b : ℕ) → store (store h a x) a y b ≡ store h a y b
unfolding store
store-store-at h a x y b = elim (Bool-cases (a == b)) [
  | inl same ↦ rw same refl
  | inr differs ↦ rw differs refl
]

-- A second assignment to the block.
pub update-store :
    {A : Type 0}
    → (h : Heap A) (a : ℕ) (c : A) (f : A → A)
    → update (store h a (some c)) a f ≡ some (store h a (some (f c)))
update-store h a c f = update-some (store h a (some c)) a f c (store-same h a (some c)) ∙ λ i.
    some λ b. store-store-at h a (some c) (some (f c)) b i
